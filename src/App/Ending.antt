-- ===== src/App/Ending.antt =====
-- How `retryWithWANCheck` ends.
use pia_tun.Base.{
  ℕ, zero, suc, [], Bool, true, false, none, some, ◌≡◌, refl, ◌⊎◌, inl, inr, if◌then◌else◌, Result,
  ok, err, Error, errors_is, err_fatal, err_rate_limited,
}
use pia_tun.App.Retry.{
  Calls, Outcome, first_delay, rate_limit_delay, next_delay, unless_done, once_up, checked,
  after_attempt, retry_from, retry_with_wan_check,
}

module _ {W : Type 0} (calls : Calls W) where
  open calls use {attempt, cancelled, check, wait_for_up, sleep}

  -- An error of the retry is fatal, or the context was cancelled.
  abbrev pub IsFinal : Outcome W → Type 0
  IsFinal (none, w) = Unit
  IsFinal (some (ok tt), w) = Unit
  IsFinal (some (err e), w) = (errors_is e err_fatal ≡ true) ⊎ (cancelled w ≡ true)

  unless_done-IsFinal :
      (next : W → Outcome W) (r : Bool × W)
      → (r.0 ≡ true → cancelled r.1 ≡ true)
      → ((w : W) → IsFinal (next w))
      → IsFinal (unless_done calls next r)
  unless_done-IsFinal next (true, w) c h = inr (c refl)
  unless_done-IsFinal next (false, w) c h = h w

  abbrev SleepsTell : Type 0
  SleepsTell = (n : ℕ) (w : W) → (sleep n w).0 ≡ true → cancelled (sleep n w).1 ≡ true

  once_up-IsFinal :
      (next : W → Outcome W) (r : Bool × W)
      → ((w : W) → IsFinal (next w))
      → IsFinal (once_up calls next r)
  once_up-IsFinal next (true, w) h = h w
  once_up-IsFinal next (false, w) h = tt

  checked-IsFinal :
      (again : ℕ → W → Outcome W) (delay : ℕ) (r : Bool × W)
      → SleepsTell
      → ((n : ℕ) (w : W) → IsFinal (again n w))
      → IsFinal (checked calls again delay r)
  checked-IsFinal again delay (false, w) c h =
      once_up-IsFinal (again first_delay) (wait_for_up w) (h first_delay)
  checked-IsFinal again delay (true, w) c h =
      unless_done-IsFinal (again (next_delay delay)) (sleep delay w) (c delay w)
        (h (next_delay delay))

  after_error-IsFinal :
      (again : ℕ → W → Outcome W) (delay : ℕ) (e : Error) (w : W) (a b d : Bool)
      → cancelled w ≡ a
      → errors_is e err_fatal ≡ b
      → SleepsTell
      → ((n : ℕ) (w : W) → IsFinal (again n w))
      → IsFinal (
          if a
          then (some (err []), w)
          else if b
          then (some (err e), w)
          else if d
          then unless_done calls (again delay) (sleep rate_limit_delay w)
          else checked calls again delay (check w))
  after_error-IsFinal again delay e w true b d p q c h = inr p
  after_error-IsFinal again delay e w false true d p q c h = inl q
  after_error-IsFinal again delay e w false false true p q c h =
      unless_done-IsFinal (again delay) (sleep rate_limit_delay w) (c rate_limit_delay w) (h delay)
  after_error-IsFinal again delay e w false false false p q c h =
      checked-IsFinal again delay (check w) c h

  after_attempt-IsFinal :
      (again : ℕ → W → Outcome W) (delay : ℕ) (r : Result (Unit {0}) × W)
      → SleepsTell
      → ((n : ℕ) (w : W) → IsFinal (again n w))
      → IsFinal (after_attempt calls again delay r)
  after_attempt-IsFinal again delay (ok tt, w) c h = tt
  after_attempt-IsFinal again delay (err e, w) c h =
      after_error-IsFinal again delay e w _ _ (errors_is e err_rate_limited) refl refl c h

  retry_from-IsFinal :
      (fuel delay : ℕ) (w : W) → SleepsTell → IsFinal (retry_from calls fuel delay w)
  unfolding retry_from
  retry_from-IsFinal zero delay w c = tt
  retry_from-IsFinal (suc fuel) delay w c =
      after_attempt-IsFinal (retry_from calls fuel) delay (attempt w) c
        (λ n v. retry_from-IsFinal fuel n v c)

  -- `retryWithWANCheck` returns an error only if an attempt gave a fatal one or the context is
  -- cancelled, where a sleep that ends early tells that it is: every other error is retried.
  pub retry_with_wan_check-IsFinal :
      (fuel : ℕ) (w : W)
      → ((n : ℕ) (w : W) → (sleep n w).0 ≡ true → cancelled (sleep n w).1 ≡ true)
      → IsFinal (retry_with_wan_check calls fuel w)
  unfolding retry_with_wan_check
  retry_with_wan_check-IsFinal fuel w c = retry_from-IsFinal fuel first_delay w c
