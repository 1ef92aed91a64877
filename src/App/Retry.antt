-- ===== src/App/Retry.antt =====
-- `retryWithWANCheck` of internal/app/app.go, over the calls that it makes.
use pia_tun.Base.{
  ℕ, zero, suc, ◌*◌, ltb, [], Bool, true, false, Option, none, some, if◌then◌else◌, M, Result, ok,
  err, Error, errors_is, err_fatal, err_rate_limited,
}

-- The function that is retried, `ctx.Err() != nil`, and internal/wan. A sleep ends early, with true,
-- if the context is cancelled. `WaitForUp` loops for as long as the WAN is down: its answer here is
-- whether it has returned. Times are seconds.
pub record Calls (W : Type 0) : Type 0 where
  pub attempt : M W (Unit {0})
  pub cancelled : W → Bool
  pub check : W → Bool × W
  pub wait_for_up : W → Bool × W
  pub sleep : ℕ → W → Bool × W

abbrev pub first_delay : ℕ
first_delay = 5

abbrev pub max_delay : ℕ
max_delay = 60

abbrev pub rate_limit_delay : ℕ
rate_limit_delay = 3600

abbrev pub next_delay : ℕ → ℕ
next_delay delay = if ltb max_delay (delay * 2) then max_delay else delay * 2

-- `none` where the rounds of the fuel are used up, or `WaitForUp` has not returned: the loop is not over. The error of the context
-- wraps nothing.
abbrev pub Outcome : Type 0 → Type 0
Outcome W = Option (Result (Unit {0})) × W

module _ {W : Type 0} (calls : Calls W) where
  open calls use {attempt, cancelled, check, wait_for_up, sleep}

  abbrev pub unless_done : (W → Outcome W) → Bool × W → Outcome W
  unless_done next (true, w) = (some (err []), w)
  unless_done next (false, w) = next w

  abbrev pub once_up : (W → Outcome W) → Bool × W → Outcome W
  once_up next (true, w) = next w
  once_up next (false, w) = (none, w)

  -- The end of a round whose error is neither fatal nor a rate limit. `again` takes the next delay.
  abbrev pub checked : (ℕ → W → Outcome W) → ℕ → Bool × W → Outcome W
  checked again delay (false, w) = once_up (again first_delay) (wait_for_up w)
  checked again delay (true, w) = unless_done (again (next_delay delay)) (sleep delay w)

  abbrev pub after_error : (ℕ → W → Outcome W) → ℕ → Error → W → Outcome W
  after_error again delay e w =
      if cancelled w
      then (some (err []), w)
      else if errors_is e err_fatal
      then (some (err e), w)
      else if errors_is e err_rate_limited
      then unless_done (again delay) (sleep rate_limit_delay w)
      else checked again delay (check w)

  abbrev pub after_attempt : (ℕ → W → Outcome W) → ℕ → Result (Unit {0}) × W → Outcome W
  after_attempt again delay (ok tt, w) = (some (ok tt), w)
  after_attempt again delay (err e, w) = after_error again delay e w

  unfoldable pub retry_from : ℕ → ℕ → W → Outcome W
  retry_from zero delay w = (none, w)
  retry_from (suc fuel) delay w = after_attempt (retry_from fuel) delay (attempt w)

  unfoldable pub retry_with_wan_check : ℕ → W → Outcome W
  retry_with_wan_check fuel w = retry_from fuel first_delay w
