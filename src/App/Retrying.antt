-- ===== src/App/Retrying.antt =====
-- `retryWithWANCheck`: what its calls keep.
use pia_tun.Base.{
  ℕ, zero, suc, Bool, true, false, if◌then◌else◌, Result, ok, err, Error, errors_is, err_fatal,
  err_rate_limited,
}
use pia_tun.App.Retry.{
  Calls, Outcome, first_delay, rate_limit_delay, next_delay, unless_done, once_up, checked,
  after_error, after_attempt, retry_from, retry_with_wan_check,
}

module _ {W : Type 0} (calls : Calls W) where
  open calls use {attempt, cancelled, check, wait_for_up, sleep}

  pub record CallsKeep (P : W → Type 0) : Type 0 where
    pub attempt_keeps : (w : W) → P w → P (attempt w).1
    pub check_keeps : (w : W) → P w → P (check w).1
    pub wait_keeps : (w : W) → P w → P (wait_for_up w).1
    pub sleep_keeps : (n : ℕ) (w : W) → P w → P (sleep n w).1

  module _ (P : W → Type 0) (k : CallsKeep P) where
    unless_done_keeps :
        (next : W → Outcome W) (r : Bool × W)
        → ((w : W) → P w → P (next w).1)
        → P r.1
        → P (unless_done calls next r).1
    unless_done_keeps next (true, w) h p = p
    unless_done_keeps next (false, w) h p = h w p

    once_up_keeps :
        (next : W → Outcome W) (r : Bool × W)
        → ((w : W) → P w → P (next w).1)
        → P r.1
        → P (once_up calls next r).1
    once_up_keeps next (true, w) h p = h w p
    once_up_keeps next (false, w) h p = p

    checked_keeps :
        (again : ℕ → W → Outcome W) (delay : ℕ) (r : Bool × W)
        → ((n : ℕ) (w : W) → P w → P (again n w).1)
        → P r.1
        → P (checked calls again delay r).1
    checked_keeps again delay (false, w) h p =
        once_up_keeps (again first_delay) (wait_for_up w) (h first_delay) (k.wait_keeps w p)
    checked_keeps again delay (true, w) h p =
        unless_done_keeps (again (next_delay delay)) (sleep delay w) (h (next_delay delay))
          (k.sleep_keeps delay w p)

    if_keeps : (b : Bool) (x y : Outcome W) → P x.1 → P y.1 → P (if b then x else y).1
    if_keeps true x y h g = h
    if_keeps false x y h g = g

    after_error_keeps :
        (again : ℕ → W → Outcome W) (delay : ℕ) (e : Error) (w : W)
        → ((n : ℕ) (w : W) → P w → P (again n w).1)
        → P w
        → P (after_error calls again delay e w).1
    after_error_keeps again delay e w h p = if_keeps (cancelled w) _ _ p (
        if_keeps (errors_is e err_fatal) _ _ p (
          if_keeps (errors_is e err_rate_limited) _ _
            (unless_done_keeps (again delay) (sleep rate_limit_delay w) (h delay)
              (k.sleep_keeps rate_limit_delay w p))
            (checked_keeps again delay (check w) h (k.check_keeps w p))))

    after_attempt_keeps :
        (again : ℕ → W → Outcome W) (delay : ℕ) (r : Result (Unit {0}) × W)
        → ((n : ℕ) (w : W) → P w → P (again n w).1)
        → P r.1
        → P (after_attempt calls again delay r).1
    after_attempt_keeps again delay (ok tt, w) h p = p
    after_attempt_keeps again delay (err e, w) h p = after_error_keeps again delay e w h p

    retry_from_keeps : (fuel delay : ℕ) (w : W) → P w → P (retry_from calls fuel delay w).1
    unfolding retry_from
    retry_from_keeps zero delay w p = p
    retry_from_keeps (suc fuel) delay w p =
        after_attempt_keeps (retry_from calls fuel) delay (attempt w) (retry_from_keeps fuel)
          (k.attempt_keeps w p)

    -- What the calls keep, the retry keeps.
    pub retry_with_wan_check_keeps :
        (fuel : ℕ) (w : W) → P w → P (retry_with_wan_check calls fuel w).1
    unfolding retry_with_wan_check
    retry_with_wan_check_keeps fuel w p = retry_from_keeps fuel first_delay w p
