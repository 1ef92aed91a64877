-- ===== src/Base/Unseen.antt =====
-- The idiom `if !seen[k] { seen[k] = true; out = append(out, x) }` over a list, with the map of the
-- keys that were seen as a list, and what it leaves: the first element of each key.
use pia_tun.Base.{
  ℕ, zero, suc, String, List, [], ◌∷◌, ◌++◌, map, Bool, true, false, not, ◌&&◌, ◌||◌, ◌≡◌, refl,
  arith, str_eq, str_eq_iff, str_eq_refl, take,
}

-- `m[k]` of a `map[string]bool`.
abbrev pub has_text : List String → String → Bool
has_text [] k = false
has_text (j ∷ js) k = str_eq j k || has_text js k

module _ {ℓ} {A : Type ℓ} (key : A → String) where
  -- What the loop appends.
  abbrev pub unseen : List String → List A → List A
  unseen seen [] = []
  unseen seen (x ∷ xs) = elim (has_text seen (key x)) [
    | true ↦ unseen seen xs
    | false ↦ x ∷ unseen (key x ∷ seen) xs
  ]

  -- The map after the loop.
  abbrev pub seen_after : List String → List A → List String
  seen_after seen [] = seen
  seen_after seen (x ∷ xs) = elim (has_text seen (key x)) [
    | true ↦ seen_after seen xs
    | false ↦ seen_after (key x ∷ seen) xs
  ]

  -- Two loops over one map are a loop over both lists.
  pub unseen-append :
      (seen : List String) (xs ys : List A)
      → unseen seen (xs ++ ys) ≡ unseen seen xs ++ unseen (seen_after seen xs) ys
  unseen-append seen [] ys = refl
  unseen-append seen (x ∷ xs) ys =
      ground (arith, unseen-append seen xs ys, unseen-append (key x ∷ seen) xs ys)

  -- No two elements have one key.
  abbrev pub Distinct : List A → Type 0
  Distinct [] = Unit
  Distinct (x ∷ xs) = (has_text (map key xs) (key x) ≡ false) × Distinct xs

  -- The loop appends an element of each key that is new, and of no other.
  pub has_text-unseen :
      (seen : List String) (k : String) (xs : List A)
      → has_text (map key (unseen seen xs)) k ≡ (has_text (map key xs) k && not (has_text seen k))
  has_text-unseen seen k [] = refl
  has_text-unseen seen k (x ∷ xs) =
      ground (
        arith,
        has_text-unseen seen k xs,
        has_text-unseen (key x ∷ seen) k xs,
        str_eq_iff (key x) k,
      )

  pub unseen-Distinct : (seen : List String) (xs : List A) → Distinct (unseen seen xs)
  unseen-Distinct seen [] = tt
  unseen-Distinct seen (x ∷ xs) = ground (
    arith,
    unseen-Distinct seen xs,
    unseen-Distinct (key x ∷ seen) xs,
    has_text-unseen (key x ∷ seen) (key x) xs,
    str_eq_refl (key x),
  )

  has_text-take :
      (n : ℕ) (xs : List A) (k : String)
      → has_text (map key xs) k ≡ false
      → has_text (map key (take n xs)) k ≡ false
  has_text-take zero xs k h = refl
  has_text-take (suc n) [] k h = refl
  has_text-take (suc n) (x ∷ xs) k h = ground (arith, has_text-take n xs k)

  pub take-Distinct : (n : ℕ) (xs : List A) → Distinct xs → Distinct (take n xs)
  take-Distinct zero xs h = tt
  take-Distinct (suc n) [] h = tt
  take-Distinct (suc n) (x ∷ xs) h = (has_text-take n xs (key x) h.0, take-Distinct n xs h.1)
