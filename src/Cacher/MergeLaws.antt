-- ===== src/Cacher/MergeLaws.antt =====
-- What the two merges of internal/cacher/cacher.go give.
use pia_tun.Base.{
  ℕ, zero, suc, ◌≤◌, ltb, String, List, [], ◌∷◌, ◌++◌, map, ◌||◌, ◌≡◌, refl, sym, ap, ◌∙◌, arith,
  length, length-take, take, Bool-cases, inl, inr,
}
use pia_tun.Base.Unseen.{
  unseen, seen_after, unseen-append, unseen-Distinct, has_text, has_text-unseen, Distinct,
  take-Distinct,
}
use pia_tun.Cacher.Merge.{itself, merge_ips}

take_all {ℓ} : {A : Type ℓ} (n : ℕ) (xs : List A) → length xs ≤ n → take n xs ≡ xs
take_all zero [] h = refl
take_all zero (x ∷ xs) h = absurd (omega arith)
take_all (suc n) [] h = refl
take_all (suc n) (x ∷ xs) h = ap (◌∷◌ x) (take_all n xs (omega arith))

-- `mergeIPs` is the first `max` of the different addresses, the new ones first.
merge_ips_lem :
    (existing new : List String) (max : ℕ)
    → merge_ips existing new max ≡ take max (unseen itself [] (new ++ existing))
unfolding merge_ips
merge_ips_lem existing new max = elim (Bool-cases (ltb max (length merged))) [
  | inl long ↦ rw long (ap (take max) (sym e))
  | inr short ↦ rw short (sym e ∙ sym (take_all max _ (rw e (ground arith))))
]
  where
    merged : List String
    merged = unseen itself [] new ++ unseen itself (seen_after itself [] new) existing

    e : unseen itself [] (new ++ existing) ≡ merged
    e = unseen-append itself [] new existing

map-itself : (xs : List String) → map itself xs ≡ xs
map-itself [] = refl
map-itself (x ∷ xs) = ap (◌∷◌ x) (map-itself xs)

-- `mergeIPs` returns at most `max` addresses, all different.
pub merge_ips_bounds :
    (existing new : List String) (max : ℕ)
    → (length (merge_ips existing new max) ≤ max) × Distinct itself (merge_ips existing new max)
merge_ips_bounds existing new max = rw (merge_ips_lem existing new max) (
  omega (arith, length-take max (unseen itself [] (new ++ existing))),
  take-Distinct itself max _ (unseen-Distinct itself [] (new ++ existing)),
)

has_text-append :
    (xs ys : List String) (k : String) → has_text (xs ++ ys) k ≡ (has_text xs k || has_text ys k)
has_text-append [] ys k = refl
has_text-append (x ∷ xs) ys k = ground (arith, has_text-append xs ys k)

-- Where the cap is not reached, `mergeIPs` keeps exactly the addresses of both lists.
pub has_text-merge_ips :
    (existing new : List String) (max : ℕ) (ip : String)
    → length (unseen itself [] (new ++ existing)) ≤ max
    → has_text (merge_ips existing new max) ip ≡ (has_text new ip || has_text existing ip)
has_text-merge_ips existing new max ip h =
    rw (merge_ips_lem existing new max, take_all max _ h)
      (ground (
        arith,
        has_text-unseen itself [] ip (new ++ existing),
        map-itself (unseen itself [] (new ++ existing)),
        map-itself (new ++ existing),
        has_text-append new existing ip,
      ))
