-- ===== src/Base/Sequences.antt =====
-- What sequences of calls keep: a property of the state that each call keeps.
use pia_tun.Base.{
  Bool, true, false, M, Result, ok, err, Error, Keeps, Ensures, OnOk, ◌>>=◌, ◌>>◌, continue, ignore,
  ignored, attempt, pure, fail, if◌then◌else◌,
}

module _ {S : Type 0} (P : S → Type 0) where
  continue-Keeps :
      {A B : Type 0} (f : A → M S B) (r : Result A × S)
      → ((a : A) (s : S) → P s → P (f a s).1)
      → P r.1
      → P (continue f r).1
  continue-Keeps f (ok a, s) h p = h a s p
  continue-Keeps f (err e, s) h p = p

  pub bind-Keeps :
      {A B : Type 0} {m : M S A} {f : A → M S B}
      → Keeps P m
      → ((a : A) → Keeps P (f a))
      → Keeps P (m >>= f)
  bind-Keeps {m} {f} h k = record {
    after = λ s p. continue-Keeps f (m s) (λ a. (k a).after) (h.after s p);
  }

  pub then-Keeps :
      {B : Type 0} {m : M S (Unit {0})} {k : M S B} → Keeps P m → Keeps P k → Keeps P (m >> k)
  then-Keeps h k = bind-Keeps h (λ _. k)

  ignored-Keeps : {A : Type 0} (r : Result A × S) → P r.1 → P (ignored r).1
  ignored-Keeps (ok a, s) p = p
  ignored-Keeps (err e, s) p = p

  pub ignore-Keeps : {A : Type 0} {m : M S A} → Keeps P m → Keeps P (ignore m)
  ignore-Keeps {m} h = record { after = λ s p. ignored-Keeps (m s) (h.after s p) }

  pub attempt-Keeps : {A : Type 0} {m : M S A} → Keeps P m → Keeps P (attempt m)
  attempt-Keeps {m} h = record { after = λ s p. h.after s p }

  pub pure-Keeps : {A : Type 0} (a : A) → Keeps P (pure a)
  pure-Keeps a = record { after = λ s p. p }

  pub fail-Keeps : {A : Type 0} (e : Error) → Keeps P (fail {S = S} {A = A} e)
  fail-Keeps e = record { after = λ s p. p }

  pub if-Keeps :
      {A : Type 0} (b : Bool) {m n : M S A} → Keeps P m → Keeps P n → Keeps P (if b then m else n)
  if-Keeps true h k = h
  if-Keeps false h k = k

continue-Ensures :
    {S A B : Type 0} {Q : A → S → Type 0} (R : B → S → Type 0) (f : A → M S B) (r : Result A × S)
    → OnOk Q r
    → ((a : A) (s : S) → Q a s → OnOk R (f a s))
    → OnOk R (continue f r)
continue-Ensures R f (ok a, s) q h = h a s q
continue-Ensures R f (err e, s) q h = tt

pub bind-Ensures :
    {S A B : Type 0} {P : S → Type 0} {Q : A → S → Type 0} {R : B → S → Type 0} {m : M S A}
    {f : A → M S B}
    → Ensures P m Q
    → ((a : A) → Ensures (Q a) (f a) R)
    → Ensures P (m >>= f) R
bind-Ensures {R} {m} {f} h k = record {
  after = λ s p. continue-Ensures R f (m s) (h.after s p) (λ a. (k a).after);
}

kept-Ensures : {S A : Type 0} (P : S → Type 0) (r : Result A × S) → P r.1 → OnOk (λ _ s. P s) r
kept-Ensures P (ok a, s) p = p
kept-Ensures P (err e, s) p = tt

pub Keeps-Ensures :
    {S A : Type 0} {P : S → Type 0} {m : M S A} → Keeps P m → Ensures P m (λ _ s. P s)
Keeps-Ensures {P} {m} h = record { after = λ s p. kept-Ensures P (m s) (h.after s p) }

pub pure-Ensures :
    {S A : Type 0} {P : S → Type 0} (a : A) (Q : A → S → Type 0)
    → ((s : S) → P s → Q a s)
    → Ensures P (pure a) Q
pure-Ensures a Q h = record { after = h }

pub from-Ensures :
    {S A : Type 0} {P P' : S → Type 0} {m : M S A} {Q : A → S → Type 0}
    → ((s : S) → P' s → P s)
    → Ensures P m Q
    → Ensures P' m Q
from-Ensures h k = record { after = λ s p. k.after s (h s p) }

pub OnOk-map :
    {S A : Type 0} (P Q : A → S → Type 0) (r : Result A × S)
    → ((a : A) (s : S) → P a s → Q a s)
    → OnOk P r
    → OnOk Q r
OnOk-map P Q (ok a, s) h p = h a s p
OnOk-map P Q (err e, s) h p = tt
