-- ===== src/App/Tests.antt =====
-- Runs of internal/app: its retry, and the whole of it.
use pia_tun.Base.{ℕ, zero, suc, [], true, false, ◌≡◌, arith, ok, err, M, ◌>>=◌, attempt, refl}
use pia_tun.App.Retry.{Calls, retry_with_wan_check}
use pia_tun.App.Ending.{IsFinal, retry_with_wan_check-IsFinal}
use pia_tun.App.Backoff.{InTurn, logged, retry_with_wan_check-InTurn}
use pia_tun.Base.Outcomes.{OnEither}
use pia_tun.Firewall.Closed.{IsClosed}
use pia_tun.Firewall.Policy.{policy}
use pia_tun.Firewall.Simulated.{linux, linux_netfilter, baseline, lan, baseline-IsClosed}
use pia_tun.App.Outside.{world}
use pia_tun.App.Running.{lifetime, deferred, run}
use pia_tun.App.Simulated.{outside, calm, near-Quiet, outside-Quiet, rounds, settings, app, lives}
use pia_tun.App.Protected.{IsShutAfter, lifetime-IsClosed, run-IsProtected}

-- The state is the number of attempts that will fail.
abbrev fails : M ℕ (Unit {0})
fails zero = (ok tt, zero)
fails (suc n) = (err [], n)

abbrev flaky : Calls ℕ
flaky = record {
  attempt = fails;
  cancelled = λ n. false;
  check = λ n. (true, n);
  wait_for_up = λ n. (true, n);
  sleep = λ seconds n. (false, n);
}

retry_with_wan_check-IsFinal_example : IsFinal flaky (retry_with_wan_check flaky 9 3)
retry_with_wan_check-IsFinal_example =
    retry_with_wan_check-IsFinal flaky 9 3 (λ n w h. ground arith)

retry_with_wan_check-InTurn_example : InTurn flaky (retry_with_wan_check (logged flaky) 9 ([], 3))
retry_with_wan_check-InTurn_example = retry_with_wan_check-InTurn flaky 9 3

lifetime-IsClosed_example :
    OnEither
      (λ _ v. v.manager.fw.active ≡ false)
      (λ _ v. IsClosed (policy lan) (world v) × (v.manager.fw.active ≡ true))
      ((attempt (lifetime linux outside rounds settings lives)
          >>= deferred linux outside rounds settings)
        (app true baseline))
lifetime-IsClosed_example =
    lifetime-IsClosed linux linux_netfilter outside calm outside-Quiet near-Quiet rounds settings
      lan lives (app true baseline) baseline-IsClosed refl refl

run-IsProtected_example :
    OnEither
      (λ _ v. v.manager.fw.active ≡ false)
      (IsShutAfter linux linux_netfilter outside calm outside-Quiet near-Quiet rounds settings
        (app false baseline))
      (run linux outside rounds settings lives (app false baseline))
run-IsProtected_example =
    run-IsProtected linux linux_netfilter outside calm outside-Quiet near-Quiet rounds settings
      lives (app false baseline) refl refl
