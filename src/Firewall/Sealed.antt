-- ===== src/Firewall/Sealed.antt =====
-- A chain that ends in DROP behind its two base rules, and the calls that leave it so.
use pia_tun.Base.{
  ℕ, zero, suc, ◌≤◌, String, List, [], ◌∷◌, ◌++◌, Bool, true, false, ◌&&◌, ◌||◌, Option, some, ◌≡◌,
  refl, ap, ◌∙◌, ◌⊎◌, inl, inr, arith, length, length-append, str_eq_iff, if◌then◌else◌,
}
use pia_tun.Firewall.Os.{Spec, same_spec, drop_rule, insert_at, remove_first}
use pia_tun.Firewall.Chains.{established, loopback}

abbrev pub is_base : String → Spec → Bool
is_base flag s = same_spec s established || same_spec s (loopback flag)

abbrev pub base_count : String → List Spec → ℕ
base_count flag [] = 0
base_count flag (s ∷ ss) = let n = base_count flag ss in if is_base flag s then suc n else n

abbrev pub all_of : (Spec → Bool) → List Spec → Bool
all_of q [] = true
all_of q (s ∷ ss) = q s && all_of q ss

-- The rules are some rules that `q` permits, the two base rules among them, and then the DROP rule.
abbrev pub Sealed : String → (Spec → Bool) → Option (List Spec) → Type 0
Sealed flag q v =
    (pre : List Spec) × (v ≡ some (pre ++ (drop_rule ∷ [])))
    × (2 ≤ base_count flag pre)
    × (all_of q pre ≡ true)

base_count-le : (flag : String) (ss : List Spec) → base_count flag ss ≤ length ss
base_count-le flag [] = omega arith
base_count-le flag (s ∷ ss) = ground (arith, base_count-le flag ss)

insert_at-append :
    (n : ℕ) (s : Spec) (pre rest : List Spec)
    → n ≤ suc (length pre)
    → insert_at n s (pre ++ rest) ≡ insert_at n s pre ++ rest
insert_at-append zero s pre rest h = refl
insert_at-append (suc zero) s pre rest h = refl
insert_at-append (suc (suc n)) s [] rest h = absurd (omega arith)
insert_at-append (suc (suc n)) s (r ∷ pre) rest h =
    ap (◌∷◌ r) (insert_at-append (suc n) s pre rest (omega arith))

base_count-cons-le :
    (flag : String) (s : Spec) (ss : List Spec) → base_count flag ss ≤ base_count flag (s ∷ ss)
base_count-cons-le flag s ss = ground arith

base_count-insert_at :
    (flag : String) (n : ℕ) (s : Spec) (ss : List Spec)
    → base_count flag ss ≤ base_count flag (insert_at n s ss)
base_count-insert_at flag zero s ss = base_count-cons-le flag s ss
base_count-insert_at flag (suc zero) s ss = base_count-cons-le flag s ss
base_count-insert_at flag (suc (suc n)) s [] = omega arith
base_count-insert_at flag (suc (suc n)) s (r ∷ ss) =
    ground (arith, base_count-insert_at flag (suc n) s ss)

all_of-insert_at :
    (q : Spec → Bool) (n : ℕ) (s : Spec) (ss : List Spec)
    → q s ≡ true
    → all_of q ss ≡ true
    → all_of q (insert_at n s ss) ≡ true
all_of-insert_at q zero s ss p h = ground arith
all_of-insert_at q (suc zero) s ss p h = ground arith
all_of-insert_at q (suc (suc n)) s [] p h = ground arith
all_of-insert_at q (suc (suc n)) s (r ∷ ss) p h = ground (arith, all_of-insert_at q (suc n) s ss p)

length-Sealed : (rs pre : List Spec) → rs ≡ pre ++ (drop_rule ∷ []) → length rs ≡ suc (length pre)
length-Sealed rs pre e = omega (arith, ap length e, length-append pre (drop_rule ∷ []))

-- A permitted rule that is put in front of the last one leaves the chain sealed.
pub insert-Sealed :
    (flag : String) (q : Spec → Bool) (n : ℕ) (s : Spec) (rs : List Spec)
    → n ≤ length rs
    → q s ≡ true
    → Sealed flag q (some rs)
    → Sealed flag q (some (insert_at n s rs))
insert-Sealed flag q n s rs h a (pre, e, b, p) =
    let e' : rs ≡ pre ++ (drop_rule ∷ []) = cc in
    (
      insert_at n s pre,
      rw e' (
          ap some
            (insert_at-append n s pre (drop_rule ∷ []) (omega (arith, length-Sealed rs pre e')))),
      omega (arith, base_count-insert_at flag n s pre),
      all_of-insert_at q n s pre a p,
    )

-- A sealed chain has at least three rules.
pub length-le_of_Sealed :
    (flag : String) (q : Spec → Bool) (rs : List Spec) → Sealed flag q (some rs) → 3 ≤ length rs
length-le_of_Sealed flag q rs (pre, e, b, p) =
    let e' : rs ≡ pre ++ (drop_rule ∷ []) = cc in
    omega (arith, length-Sealed rs pre e', base_count-le flag pre)

-- A rule of its own, neither a base rule nor DROP.
abbrev pub IsOwn : String → Spec → Type 0
IsOwn flag s = (is_base flag s ≡ false) × (same_spec s drop_rule ≡ false)

same_spec_sound : (s r : Spec) → same_spec s r ≡ true → s ≡ r
same_spec_sound [] [] h = refl
same_spec_sound [] (y ∷ r) h = cc
same_spec_sound (x ∷ s) [] h = cc
same_spec_sound (x ∷ s) (y ∷ r) h = ground (arith, str_eq_iff x y, same_spec_sound s r)

remove_first_cases :
    (s r : Spec) (rs x : List Spec)
    → remove_first s (r ∷ rs) ≡ some x
    → ((same_spec s r ≡ true) × (x ≡ rs))
      ⊎ ((y : List Spec) × (remove_first s rs ≡ some y) × (x ≡ r ∷ y))
remove_first_cases s r rs x h = ground arith

remove_first-Sealed :
    (flag : String) (q : Spec → Bool) (s : Spec) (pre x : List Spec)
    → IsOwn flag s
    → all_of q pre ≡ true
    → remove_first s (pre ++ (drop_rule ∷ [])) ≡ some x
    → (ps : List Spec) × (x ≡ ps ++ (drop_rule ∷ []))
      × (base_count flag ps ≡ base_count flag pre)
      × (all_of q ps ≡ true)
remove_first-Sealed flag q s [] x own a h = absurd (ground arith)
remove_first-Sealed flag q s (r ∷ pre) x own a h =
    elim (remove_first_cases s r (pre ++ (drop_rule ∷ [])) x h) [
      | inl (same, e) ↦ (pre, e, ground (arith, same_spec_sound s r same), ground arith)
      | inr (y, found, e) ↦
          let (ps, p, b, c) = remove_first-Sealed flag q s pre y own (ground arith) found in
          (r ∷ ps, e ∙ ap (◌∷◌ r) p, ground (arith, b), ground (arith, c))
    ]

pub delete-Sealed :
    (flag : String) (q : Spec → Bool) (s : Spec) (rs x : List Spec)
    → IsOwn flag s
    → remove_first s rs ≡ some x
    → Sealed flag q (some rs)
    → Sealed flag q (some x)
delete-Sealed flag q s rs x own h (pre, e, b, a) =
    let e' : rs ≡ pre ++ (drop_rule ∷ []) = cc in
    let (ps, p, c, d) = remove_first-Sealed flag q s pre x own a (rw e' at h) in
    (ps, ap some p, omega (arith, c, b), d)
