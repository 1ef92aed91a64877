-- ===== src/Base/Results.antt =====
-- Go's `error` values as this program uses them (internal/apperrors/errors.go), and code that
-- fails and changes a state.
use mathlib.Core.Bool.{Bool, true, false, ◌||◌}
use mathlib.Core.List.{List, [], ◌∷◌}

-- The sentinels that `errors.Is` is asked about.
pub data Sentinel : Type 0 where
  err_reconnect err_fatal err_rate_limited err_token_rejected : Sentinel

-- An error is kept as the sentinels that it wraps: its text is only logged.
abbrev pub Error : Type 0
Error = List Sentinel

abbrev pub same_sentinel : Sentinel → Sentinel → Bool
same_sentinel err_reconnect err_reconnect = true
same_sentinel err_fatal err_fatal = true
same_sentinel err_rate_limited err_rate_limited = true
same_sentinel err_token_rejected err_token_rejected = true
same_sentinel _ _ = false

-- `errors.Is(err, sentinel)`.
abbrev pub errors_is : Error → Sentinel → Bool
errors_is [] s = false
errors_is (t ∷ e) s = same_sentinel t s || errors_is e s

pub data Result {ℓ} (A : Type ℓ) : Type ℓ where
  ok : A → Result A
  err : Error → Result A

-- Code over the state `S`; an error keeps what was changed before it.
abbrev pub M : Type 0 → Type 0 → Type 0
M S A = S → Result A × S

abbrev pub continue : {S A B : Type 0} → (A → M S B) → Result A × S → Result B × S
continue f (ok a, s) = f a s
continue f (err e, s) = (err e, s)

infixl 5 ◌>>=◌ ◌>>◌
abbrev pub ◌>>=◌ : {S A B : Type 0} → M S A → (A → M S B) → M S B
◌>>=◌ m f s = continue f (m s)

abbrev pub ◌>>◌ : {S B : Type 0} → M S (Unit {0}) → M S B → M S B
m >> k = m >>= λ _. k

abbrev pub pure : {S A : Type 0} → A → M S A
pure a s = (ok a, s)

abbrev pub fail : {S A : Type 0} → Error → M S A
fail e s = (err e, s)

-- A call whose error is not looked at.
abbrev pub ignored : {S A : Type 0} → Result A × S → Result (Unit {0}) × S
ignored (ok a, s) = (ok tt, s)
ignored (err e, s) = (ok tt, s)

abbrev pub ignore : {S A : Type 0} → M S A → M S (Unit {0})
ignore m s = ignored (m s)

-- A call whose error is a value of the code that follows: `x, err := f()`.
abbrev pub returned : {S A : Type 0} → Result A × S → Result (Result A) × S
returned (r, s) = (ok r, s)

abbrev pub attempt : {S A : Type 0} → M S A → M S (Result A)
attempt m s = returned (m s)

-- A call that cannot fail.
abbrev pub total : {S A : Type 0} → (S → A × S) → M S A
total m s = let (a, t) = m s in (ok a, t)

-- A statement about the value and the state that a successful run leaves.
abbrev pub OnOk : {S A : Type 0} → (A → S → Type 0) → Result A × S → Type 0
OnOk Q (ok a, s) = Q a s
OnOk Q (err e, s) = Unit

-- A run leaves the state with the property, whether it failed or not.
pub record Keeps {S A : Type 0} (P : S → Type 0) (m : M S A) : Type 0 where
  pub after : (s : S) → P s → P (m s).1

-- From a state with `P`, a run that succeeds ends with `Q`.
pub record Ensures {S A : Type 0} (P : S → Type 0) (m : M S A) (Q : A → S → Type 0) : Type 0 where
  pub after : (s : S) → P s → OnOk Q (m s)
