-- ===== src/Monitor/Tests.antt =====
-- Runs of internal/monitor.
use pia_tun.Base.{ℕ, ◌+◌, [], ◌∷◌, false, arith}
use pia_tun.Monitor.Checks.{Config, Probe, perform_rapid_checks}
use pia_tun.Monitor.Rapid.{Clocked, IsJudged, perform_rapid_checks-IsJudged}

-- The state is the time; no dial succeeds, and three of them take 2 ns.
abbrev unreachable : Probe ℕ
unreachable = record {
  dials = λ timeout hosts t. (false ∷ false ∷ false ∷ [], t + 2);
  now = λ t. (t, t);
  cancelled = λ t. false;
  next = λ t. (false, t + 10);
}

unreachable-Clocked : Clocked unreachable
unreachable-Clocked = record {
  at = λ t. t;
  reads = λ t. (omega arith, omega arith);
  dials_take = λ timeout hosts t. omega arith;
}

abbrev settings : Config
settings = record { interval = 10; failure_window = 30 }

perform_rapid_checks-IsJudged_example :
    IsJudged unreachable settings unreachable-Clocked 100
      (perform_rapid_checks unreachable settings 31 100)
perform_rapid_checks-IsJudged_example =
    perform_rapid_checks-IsJudged unreachable settings unreachable-Clocked 31 100 (omega arith)
