-- ===== src/Base/Outcomes.antt =====
-- Code with what it leaves on success and what it leaves on an error.
use pia_tun.Base.{
  Bool, true, false, M, Result, ok, err, Error, Keeps, ◌>>=◌, continue, ignore, ignored, attempt,
  pure, fail, ◌≡◌, refl, ap, if◌then◌else◌,
}

abbrev pub OnEither :
    {S A : Type 0} → (A → S → Type 0) → (Error → S → Type 0) → Result A × S → Type 0
OnEither Q R (ok a, s) = Q a s
OnEither Q R (err e, s) = R e s

-- From a state with `P`, a run that succeeds ends with `Q`, and one that fails with `R`.
pub record Leaves {S A : Type 0} (P : S → Type 0) (m : M S A) (Q : A → S → Type 0)
    (R : Error → S → Type 0) : Type 0 where
  pub after : (s : S) → P s → OnEither Q R (m s)

continue-Leaves :
    {S A B : Type 0} (Q : A → S → Type 0) (T : B → S → Type 0) (R : Error → S → Type 0)
    (f : A → M S B) (r : Result A × S)
    → OnEither Q R r
    → ((a : A) (s : S) → Q a s → OnEither T R (f a s))
    → OnEither T R (continue f r)
continue-Leaves Q T R f (ok a, s) q h = h a s q
continue-Leaves Q T R f (err e, s) q h = q

pub ignored-Leaves :
    {S A : Type 0} (T : S → Type 0) (R : Error → S → Type 0) (r : Result A × S)
    → T r.1
    → OnEither (λ _. T) R (ignored r)
ignored-Leaves T R (ok a, s) p = p
ignored-Leaves T R (err e, s) p = p

kept-Leaves :
    {S A : Type 0} (P : S → Type 0) (R : Error → S → Type 0) (r : Result A × S)
    → P r.1
    → ((e : Error) (s : S) → P s → R e s)
    → OnEither (λ _. P) R r
kept-Leaves P R (ok a, s) p h = p
kept-Leaves P R (err e, s) p h = h e s p

module _ {S : Type 0} {P : S → Type 0} {R : Error → S → Type 0} where
  pub bind-Leaves :
      {A B : Type 0} {Q : A → S → Type 0} {T : B → S → Type 0} {m : M S A} {f : A → M S B}
      → Leaves P m Q R
      → ((a : A) → Leaves (Q a) (f a) T R)
      → Leaves P (m >>= f) T R
  bind-Leaves {Q} {T} {m} {f} h k = record {
    after = λ s p. continue-Leaves Q T R f (m s) (h.after s p) (λ a. (k a).after);
  }

  pub pure-Leaves :
      {A : Type 0} (a : A) (Q : A → S → Type 0) → ((s : S) → P s → Q a s) → Leaves P (pure a) Q R
  pure-Leaves a Q h = record { after = h }

  pub fail-Leaves :
      {A : Type 0} (e : Error) (Q : A → S → Type 0)
      → ((s : S) → P s → R e s)
      → Leaves P (fail e) Q R
  fail-Leaves e Q h = record { after = h }

  pub if-Leaves :
      {A : Type 0} {Q : A → S → Type 0} (b : Bool) {m n : M S A}
      → Leaves P m Q R
      → Leaves P n Q R
      → Leaves P (if b then m else n) Q R
  if-Leaves true h k = h
  if-Leaves false h k = k

  -- A call whose error is not looked at never fails.
  pub ignore-Leaves : {A : Type 0} {m : M S A} → Keeps P m → Leaves P (ignore m) (λ _. P) R
  ignore-Leaves {m} h = record { after = λ s p. ignored-Leaves P R (m s) (h.after s p) }

  pub attempt-Leaves :
      {A : Type 0} {m : M S A} (Q : A → S → Type 0) (E : Error → S → Type 0)
      → Leaves P m Q E
      → Leaves P (attempt m) (λ r s. OnEither Q E (r, s)) R
  attempt-Leaves {m} Q E h = record { after = λ s p. h.after s p }

  pub Keeps-Leaves :
      {A : Type 0} {m : M S A}
      → Keeps P m
      → ((e : Error) (s : S) → P s → R e s)
      → Leaves P m (λ _. P) R
  Keeps-Leaves {m} k h = record { after = λ s p. kept-Leaves P R (m s) (k.after s p) h }

pub from-Leaves :
    {S A : Type 0} {P P' : S → Type 0} {m : M S A} {Q : A → S → Type 0} {R : Error → S → Type 0}
    → ((s : S) → P' s → P s)
    → Leaves P m Q R
    → Leaves P' m Q R
from-Leaves h k = record { after = λ s p. k.after s (h s p) }

OnEither-map :
    {S A : Type 0} (Q T : A → S → Type 0) (R : Error → S → Type 0) (r : Result A × S)
    → ((a : A) (s : S) → Q a s → T a s)
    → OnEither Q R r
    → OnEither T R r
OnEither-map Q T R (ok a, s) h q = h a s q
OnEither-map Q T R (err e, s) h q = q

pub to-Leaves :
    {S A : Type 0} {P : S → Type 0} {m : M S A} {Q T : A → S → Type 0} {R : Error → S → Type 0}
    → ((a : A) (s : S) → Q a s → T a s)
    → Leaves P m Q R
    → Leaves P m T R
to-Leaves {m} {Q} {T} {R} h k = record { after = λ s p. OnEither-map Q T R (m s) h (k.after s p) }

OnEither-map_err :
    {S A : Type 0} (Q : A → S → Type 0) (R T : Error → S → Type 0) (r : Result A × S)
    → ((e : Error) (s : S) → R e s → T e s)
    → OnEither Q R r
    → OnEither Q T r
OnEither-map_err Q R T (ok a, s) h q = q
OnEither-map_err Q R T (err e, s) h q = h e s q

pub err-Leaves :
    {S A : Type 0} {P : S → Type 0} {m : M S A} {Q : A → S → Type 0} {R T : Error → S → Type 0}
    → ((e : Error) (s : S) → R e s → T e s)
    → Leaves P m Q R
    → Leaves P m Q T
err-Leaves {m} {Q} {R} {T} h k = record {
  after = λ s p. OnEither-map_err Q R T (m s) h (k.after s p);
}

pub OnEither-either :
    {S A : Type 0} (P : S → Type 0) (r : Result A × S) → OnEither (λ _. P) (λ _. P) r → P r.1
OnEither-either P (ok a, s) h = h
OnEither-either P (err e, s) h = h

continue-ok :
    {S A B : Type 0} (f : A → M S B) (r : Result A × S) (b : B) (s' : S)
    → continue f r ≡ (ok b, s')
    → (a : A) × (v : S) × (r ≡ (ok a, v)) × (f a v ≡ (ok b, s'))
continue-ok f (ok a, v) b s' h = (a, v, refl, h)
continue-ok f (err e, v) b s' h = absurd (apart (ap (λ r. r.0) h))
  where
    apart : err e ≡ ok b → ⊥
    apart q = cc

-- The parts of a sequence that succeeds.
pub bind-ok :
    {S A B : Type 0} (m : M S A) (f : A → M S B) (s s' : S) (b : B)
    → (m >>= f) s ≡ (ok b, s')
    → (a : A) × (v : S) × (m s ≡ (ok a, v)) × (f a v ≡ (ok b, s'))
bind-ok m f s s' b h = continue-ok f (m s) b s' h
