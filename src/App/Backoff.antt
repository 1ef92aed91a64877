-- ===== src/App/Backoff.antt =====
-- `retryWithWANCheck` by what it does: the events of a run, in their order.
use pia_tun.Base.{
  ℕ, zero, suc, List, [], ◌∷◌, Bool, true, false, some, ◌≡◌, refl, ap, arith, ◌==◌, if◌then◌else◌,
  Result, ok, err, Error, errors_is, err_fatal, err_rate_limited,
}
use pia_tun.App.Retry.{
  Calls, Outcome, first_delay, rate_limit_delay, next_delay, unless_done, once_up, checked,
  after_attempt, retry_from, retry_with_wan_check,
}

-- An attempt with its result, a check of the WAN, a wait for it, and a sleep of so many seconds.
pub data Event : Type 0 where
  tried : Result (Unit {0}) → Event
  checks : Bool → Event
  waits : Event
  sleeps : ℕ → Event

-- The delay of the next sleep, when so many have been doubled since the WAN was up at last.
abbrev pub backoff : ℕ → ℕ
backoff zero = 5
backoff (suc zero) = 10
backoff (suc (suc zero)) = 20
backoff (suc (suc (suc zero))) = 40
backoff (suc (suc (suc (suc n)))) = 60

-- Before an attempt; behind one that failed; behind a check that found the WAN up, or down; behind one
-- that succeeded; and where an event came out of turn.
pub data Phase : Type 0 where
  ready : ℕ → Phase
  failed : ℕ → Error → Phase
  reached : ℕ → Phase
  unreached over astray : Phase

abbrev if_slept : ℕ → ℕ → Phase → Phase
if_slept n delay p = if n == delay then p else astray

-- Behind a failure that is neither fatal nor a rate limit.
abbrev pub if_plain : Error → Phase → Phase
if_plain e p =
    if errors_is e err_fatal then astray else if errors_is e err_rate_limited then astray else p

abbrev pub if_limited : Error → Phase → Phase
if_limited e p =
    if errors_is e err_fatal then astray else if errors_is e err_rate_limited then p else astray

abbrev pub step : Phase → Event → Phase
step (ready k) (tried (ok u)) = over
step (ready k) (tried (err e)) = failed k e
step (failed k e) (checks true) = if_plain e (reached k)
step (failed k e) (checks false) = if_plain e unreached
step (failed k e) (sleeps n) = if_limited e (if_slept n 3600 (ready k))
step (reached k) (sleeps n) = if_slept n (backoff k) (ready (suc k))
step unreached waits = ready 0
step p e = astray

-- The last event is the first of the list.
abbrev pub phase : List Event → Phase
phase [] = ready 0
phase (e ∷ log) = step (phase log) e

abbrev pub is_astray : Phase → Bool
is_astray astray = true
is_astray p = false

next_delay-backoff : (k : ℕ) → next_delay (backoff k) ≡ backoff (suc k)
next_delay-backoff zero = refl
next_delay-backoff (suc zero) = refl
next_delay-backoff (suc (suc zero)) = refl
next_delay-backoff (suc (suc (suc zero))) = refl
next_delay-backoff (suc (suc (suc (suc n)))) = refl

==_refl : (n : ℕ) → (n == n) ≡ true
==_refl n = ground arith

module _ (k : ℕ) (e : Error) (log : List Event) (q : phase log ≡ failed k e)
    (f : errors_is e err_fatal ≡ false) where
  down_again : errors_is e err_rate_limited ≡ false → phase (waits ∷ checks false ∷ log) ≡ ready 0
  down_again l = rw (q, f, l) refl

  slept_on :
      errors_is e err_rate_limited ≡ false
      → phase (sleeps (backoff k) ∷ checks true ∷ log) ≡ ready (suc k)
  slept_on l = rw (q, f, l, ==_refl (backoff k)) refl

  slept_off : errors_is e err_rate_limited ≡ true → phase (sleeps 3600 ∷ log) ≡ ready k
  slept_off l = rw (q, f, l) refl

module _ {W : Type 0} (calls : Calls W) where
  open calls use {attempt, cancelled, check, wait_for_up, sleep}

  abbrev pub Logged : Type 0
  Logged = List Event × W

  -- The calls, with a log of them.
  abbrev pub logged : Calls Logged
  logged = record {
    attempt = λ s. let (r, w) = attempt s.1 in (r, (tried r ∷ s.0, w));
    cancelled = λ s. cancelled s.1;
    check = λ s. let (b, w) = check s.1 in (b, (checks b ∷ s.0, w));
    wait_for_up = λ s. let (b, w) = wait_for_up s.1 in (b, (waits ∷ s.0, w));
    sleep = λ n s. let (b, w) = sleep n s.1 in (b, (sleeps n ∷ s.0, w));
  }

  abbrev pub InTurn : Outcome Logged → Type 0
  InTurn o = is_astray (phase o.1.0) ≡ false

  unless_done-InTurn :
      (next : Logged → Outcome Logged) (r : Bool × Logged) (k : ℕ)
      → phase r.1.0 ≡ ready k
      → ((s : Logged) → phase s.0 ≡ ready k → InTurn (next s))
      → InTurn (unless_done logged next r)
  unless_done-InTurn next (true, s) k q h = ap is_astray q
  unless_done-InTurn next (false, s) k q h = h s q

  once_up-InTurn :
      (next : Logged → Outcome Logged) (r : Bool × Logged)
      → phase r.1.0 ≡ ready 0
      → ((s : Logged) → phase s.0 ≡ ready 0 → InTurn (next s))
      → InTurn (once_up logged next r)
  once_up-InTurn next (true, s) q h = h s q
  once_up-InTurn next (false, s) q h = ap is_astray q

  module _ (again : ℕ → Logged → Outcome Logged)
      (h : (k : ℕ) (s : Logged) → phase s.0 ≡ ready k → InTurn (again (backoff k) s)) where
    checked-InTurn :
        (k : ℕ) (e : Error) (b : Bool) (log : List Event) (w : W)
        → phase log ≡ failed k e
        → errors_is e err_fatal ≡ false
        → errors_is e err_rate_limited ≡ false
        → InTurn (checked logged again (backoff k) (b, (checks b ∷ log, w)))
    checked-InTurn k e false log w q f l =
        once_up-InTurn (again first_delay) (logged.wait_for_up (checks false ∷ log, w))
          (down_again k e log q f l) (h 0)
    checked-InTurn k e true log w q f l =
        unless_done-InTurn (again (next_delay (backoff k)))
          (logged.sleep (backoff k) (checks true ∷ log, w)) (suc k) (slept_on k e log q f l)
          (λ s p. rw (next_delay-backoff k) (h (suc k) s p))

    after_error-InTurn :
        (k : ℕ) (e : Error) (log : List Event) (w : W) (a b d : Bool)
        → phase log ≡ failed k e
        → errors_is e err_fatal ≡ b
        → errors_is e err_rate_limited ≡ d
        → InTurn (
            if a
            then (some (err []), (log, w))
            else if b
            then (some (err e), (log, w))
            else if d
            then unless_done logged (again (backoff k)) (logged.sleep rate_limit_delay (log, w))
            else checked logged again (backoff k) (logged.check (log, w)))
    after_error-InTurn k e log w true b d q f l = ap is_astray q
    after_error-InTurn k e log w false true d q f l = ap is_astray q
    after_error-InTurn k e log w false false true q f l =
        unless_done-InTurn (again (backoff k)) (logged.sleep rate_limit_delay (log, w)) k
          (slept_off k e log q f l) (h k)
    after_error-InTurn k e log w false false false q f l =
        checked-InTurn k e (check w).0 log (check w).1 q f l

    after_attempt-InTurn :
        (k : ℕ) (r : Result (Unit {0})) (log : List Event) (w : W)
        → phase log ≡ ready k
        → InTurn (after_attempt logged again (backoff k) (r, (tried r ∷ log, w)))
    after_attempt-InTurn k (ok tt) log w q = rw q refl
    after_attempt-InTurn k (err e) log w q =
        after_error-InTurn k e (tried (err e) ∷ log) w (cancelled w) (errors_is e err_fatal)
          (errors_is e err_rate_limited) (ap (λ p. step p (tried (err e))) q) refl refl

  retry_from-InTurn :
      (fuel k : ℕ) (s : Logged)
      → phase s.0 ≡ ready k
      → InTurn (retry_from logged fuel (backoff k) s)
  unfolding retry_from
  retry_from-InTurn zero k s q = ap is_astray q
  retry_from-InTurn (suc fuel) k s q =
      after_attempt-InTurn (retry_from logged fuel) (retry_from-InTurn fuel) k (attempt s.1).0 s.0
        (attempt s.1).1 q

  -- The calls of `retryWithWANCheck`, in their order, are attempts, and between two of them: behind an
  -- error that is a rate limit a sleep of one hour, which leaves the delay as it is; behind any other a
  -- check of the WAN, and then, if it is down, a wait for it, which sets the delay back to 5 seconds, or,
  -- if it is up, a sleep of the delay, which goes 5, 10, 20, 40, 60, 60 and so on. Nothing comes behind a
  -- success or a fatal error.
  pub retry_with_wan_check-InTurn :
      (fuel : ℕ) (w : W) → InTurn (retry_with_wan_check logged fuel ([], w))
  unfolding retry_with_wan_check
  retry_with_wan_check-InTurn fuel w = retry_from-InTurn fuel 0 ([], w) refl
