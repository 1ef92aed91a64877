-- ===== src/Firewall/Closed.antt =====
-- The killswitch as a property of the rules, and the calls and methods that never open it.
use pia_tun.Base.{
  ℕ, ◌≤◌, String, List, [], ◌∷◌, Bool, true, not, ◌&&◌, ◌||◌, leb, Option, none, some, ◌≡◌, sym,
  subst, inl, inr, arith, Bool-cases, length,
}
use pia_tun.Firewall.Os.{
  Key, Family, ipv4, ipv6, Table, Chain, input, output, vpn_in, vpn_out, vpn_in6, vpn_out6, Spec,
  same_spec, same_key, family_code, table_code, chain_code, drop_rule, insert_at, remove_first, Op,
  changed, key_of, Left, Rules, put, new_chain, append, insert, delete, clear_and_delete_chain,
}
use pia_tun.Firewall.Chains.{in_filter, jump}
use pia_tun.Firewall.Sealed.{is_base, Sealed, insert-Sealed, delete-Sealed, length-le_of_Sealed}

-- The chain's jump is the first rule of its parent.
abbrev pub IsWired : Chain → Option (List Spec) → Type 0
IsWired c v = (rest : List Spec) × (v ≡ some (jump c ∷ rest))

-- The rules that each chain may have before its DROP.
pub record Policy : Type 0 where
  pub in4 : Spec → Bool
  pub out4 : Spec → Bool
  pub in6 : Spec → Bool
  pub out6 : Spec → Bool

-- All four chains end in DROP behind rules of the policy, and every packet goes through them.
pub record IsClosed (p : Policy) (t : Rules) : Type 0 where
  pub in4 : Sealed "-i" p.in4 (t (in_filter ipv4 vpn_in))
  pub out4 : Sealed "-o" p.out4 (t (in_filter ipv4 vpn_out))
  pub in6 : Sealed "-i" p.in6 (t (in_filter ipv6 vpn_in6))
  pub out6 : Sealed "-o" p.out6 (t (in_filter ipv6 vpn_out6))
  pub in4_wired : IsWired vpn_in (t (in_filter ipv4 input))
  pub out4_wired : IsWired vpn_out (t (in_filter ipv4 output))
  pub in6_wired : IsWired vpn_in6 (t (in_filter ipv6 input))
  pub out6_wired : IsWired vpn_out6 (t (in_filter ipv6 output))

family_code-injective : (f g : Family) → family_code f ≡ family_code g → f ≡ g
family_code-injective f g h = ground arith

table_code-injective : (f g : Table) → table_code f ≡ table_code g → f ≡ g
table_code-injective f g h = ground arith

chain_code-injective : (f g : Chain) → chain_code f ≡ chain_code g → f ≡ g
chain_code-injective f g h = ground arith

pub same_key_sound : (k j : Key) → same_key k j ≡ true → k ≡ j
same_key_sound k j h = ground (
  arith,
  family_code-injective k.family j.family,
  table_code-injective k.table j.table,
  chain_code-injective k.chain j.chain,
)

-- A test that the call leaves the sealed chain `j` sealed.
abbrev pub keeps_chain : String → (Spec → Bool) → Key → Op → Bool
keeps_chain flag q j (new_chain k) = true
keeps_chain flag q j (append k s) = not (same_key k j)
keeps_chain flag q j (insert k n s) = not (same_key k j) || (leb n 3 && q s)
keeps_chain flag q j (delete k s) =
    not (same_key k j) || (not (is_base flag s) && not (same_spec s drop_rule))
keeps_chain flag q j (clear_and_delete_chain k) = not (same_key k j)

-- A test that the call leaves the parent `j` as it is.
abbrev pub keeps_parent : Key → Op → Bool
keeps_parent j op = not (same_key (key_of op) j)

abbrev pub harmless : Policy → Op → Bool
harmless p op =
    keeps_chain "-i" p.in4 (in_filter ipv4 vpn_in) op
    && keeps_chain "-o" p.out4 (in_filter ipv4 vpn_out) op
    && keeps_chain "-i" p.in6 (in_filter ipv6 vpn_in6) op
    && keeps_chain "-o" p.out6 (in_filter ipv6 vpn_out6) op
    && keeps_parent (in_filter ipv4 input) op
    && keeps_parent (in_filter ipv4 output) op
    && keeps_parent (in_filter ipv6 input) op
    && keeps_parent (in_filter ipv6 output) op

pub insert_changed :
    (k : Key) (n : ℕ) (x : Spec) (rs : List Spec) (v : Option (List Spec))
    → changed (insert k n x) (some rs) ≡ some v
    → v ≡ some (insert_at n x rs)
insert_changed k n x rs v c = ground arith

delete_changed :
    (k : Key) (x : Spec) (rs : List Spec) (v : Option (List Spec))
    → changed (delete k x) (some rs) ≡ some v
    → (ys : List Spec) × (remove_first x rs ≡ some ys) × (v ≡ some ys)
delete_changed k x rs v c = ground arith

-- The chain of a call, after it.
changed-Sealed :
    (flag : String) (q : Spec → Bool) (op : Op) (u v : Option (List Spec))
    → same_key (key_of op) (key_of op) ≡ true
    → keeps_chain flag q (key_of op) op ≡ true
    → changed op u ≡ some v
    → Sealed flag q u
    → Sealed flag q v
changed-Sealed flag q (new_chain k) none v r h c s = cc (s.1)
changed-Sealed flag q (new_chain k) (some rs) v r h c s = cc
changed-Sealed flag q (append k x) u v r h c s = let h' = rw r at h in cc
changed-Sealed flag q (insert k n x) none v r h c s = cc
changed-Sealed flag q (insert k n x) (some rs) v r h c s =
    let h' = rw r at h in
    rw (insert_changed k n x rs v c) (
      insert-Sealed flag q n x rs (ground (arith, h', length-le_of_Sealed flag q rs s))
        (ground (arith, h')) s)
changed-Sealed flag q (delete k x) none v r h c s = cc
changed-Sealed flag q (delete k x) (some rs) v r h c s =
    let h' = rw r at h in
    let (ys, e, p) = delete_changed k x rs v c in
    rw p (delete-Sealed flag q x rs ys (ground (arith, h')) e s)
changed-Sealed flag q (clear_and_delete_chain k) u v r h c s = let h' = rw r at h in cc

pub same_key_refl : (k : Key) → same_key k k ≡ true
same_key_refl k = ground arith

-- A chain that the killswitch relies on, after any call that keeps it.
pub put-Sealed :
    (flag : String) (q : Spec → Bool) (j : Key) (op : Op) (t : Rules) (v : Option (List Spec))
    → keeps_chain flag q j op ≡ true
    → changed op (t (key_of op)) ≡ some v
    → Sealed flag q (t j)
    → Sealed flag q (put (key_of op) v t j)
put-Sealed flag q j op t v h c s = elim (Bool-cases (same_key (key_of op) j)) [
  | inl same ↦
      let e = sym (same_key_sound (key_of op) j same) in
      rw same (
        changed-Sealed flag q op (t (key_of op)) v (same_key_refl (key_of op))
          (subst (λ k. keeps_chain flag q k op ≡ true) e h) c
          (subst (λ k. Sealed flag q (t k)) e s))
  | inr other ↦ rw other s
]

put_other :
    (k j : Key) (t : Rules) (v : Option (List Spec)) → not (same_key k j) ≡ true → put k v t j ≡ t j
put_other k j t v h = ground arith

and_parts :
    (a b c d e f g h : Bool)
    → (a && b && c && d && e && f && g && h) ≡ true
    → (a ≡ true)
      × (b ≡ true)
      × (c ≡ true)
      × (d ≡ true)
      × (e ≡ true)
      × (f ≡ true)
      × (g ≡ true)
      × (h ≡ true)
and_parts a b c d e f g h p = ground arith

put-IsWired :
    (c : Chain) (j : Key) (op : Op) (t : Rules) (v : Option (List Spec))
    → keeps_parent j op ≡ true
    → IsWired c (t j)
    → IsWired c (put (key_of op) v t j)
put-IsWired c j op t v h w = rw (put_other (key_of op) j t v h) w

-- A harmless call that succeeds leaves the killswitch closed.
pub put-IsClosed :
    (p : Policy) (op : Op) (t : Rules) (v : Option (List Spec))
    → harmless p op ≡ true
    → changed op (t (key_of op)) ≡ some v
    → IsClosed p t
    → IsClosed p (put (key_of op) v t)
put-IsClosed p op t v h c k =
    let parts = and_parts _ _ _ _ _ _ _ _ h in
    record {
      in4 = put-Sealed "-i" p.in4 (in_filter ipv4 vpn_in) op t v parts.0 c k.in4;
      out4 = put-Sealed "-o" p.out4 (in_filter ipv4 vpn_out) op t v parts.1 c k.out4;
      in6 = put-Sealed "-i" p.in6 (in_filter ipv6 vpn_in6) op t v parts.2 c k.in6;
      out6 = put-Sealed "-o" p.out6 (in_filter ipv6 vpn_out6) op t v parts.3 c k.out6;
      in4_wired = put-IsWired vpn_in (in_filter ipv4 input) op t v parts.4 k.in4_wired;
      out4_wired = put-IsWired vpn_out (in_filter ipv4 output) op t v parts.5 k.out4_wired;
      in6_wired = put-IsWired vpn_in6 (in_filter ipv6 input) op t v parts.6 k.in6_wired;
      out6_wired = put-IsWired vpn_out6 (in_filter ipv6 output) op t v parts.7 k.out6_wired;
    }

-- So does a change of a chain that the killswitch does not rely on.
clear-IsClosed :
    (p : Policy) (x : Key) (t : Rules) (v : Option (List Spec))
    → harmless p (clear_and_delete_chain x) ≡ true
    → IsClosed p t
    → IsClosed p (put x v t)
clear-IsClosed p x t v h k =
    let parts = and_parts _ _ _ _ _ _ _ _ h in
    record {
      in4 = rw (put_other x (in_filter ipv4 vpn_in) t v parts.0) k.in4;
      out4 = rw (put_other x (in_filter ipv4 vpn_out) t v parts.1) k.out4;
      in6 = rw (put_other x (in_filter ipv6 vpn_in6) t v parts.2) k.in6;
      out6 = rw (put_other x (in_filter ipv6 vpn_out6) t v parts.3) k.out6;
      in4_wired = rw (put_other x (in_filter ipv4 input) t v parts.4) k.in4_wired;
      out4_wired = rw (put_other x (in_filter ipv4 output) t v parts.5) k.out4_wired;
      in6_wired = rw (put_other x (in_filter ipv6 input) t v parts.6) k.in6_wired;
      out6_wired = rw (put_other x (in_filter ipv6 output) t v parts.7) k.out6_wired;
    }

-- So does one that fails, whatever it has left of its own chain.
pub Left-IsClosed :
    (p : Policy) (op : Op) (t u : Rules)
    → harmless p op ≡ true
    → Left op t u
    → IsClosed p t
    → IsClosed p u
Left-IsClosed p (new_chain x) t u h e k = rw e k
Left-IsClosed p (append x s) t u h e k = rw e k
Left-IsClosed p (insert x n s) t u h e k = rw e k
Left-IsClosed p (delete x s) t u h e k = rw e k
Left-IsClosed p (clear_and_delete_chain x) t u h (inl e) k = rw e k
Left-IsClosed p (clear_and_delete_chain x) t u h (inr e) k =
    rw e (clear-IsClosed p x t (some []) h k)

put_insert-Sealed :
    (flag : String) (q : Spec → Bool) (j k : Key) (n : ℕ) (s : Spec) (t : Rules) (rs : List Spec)
    → t k ≡ some rs
    → n ≤ length rs
    → (not (same_key k j) || q s) ≡ true
    → Sealed flag q (t j)
    → Sealed flag q (put k (some (insert_at n s rs)) t j)
put_insert-Sealed flag q j k n s t rs e h a c = elim (Bool-cases (same_key k j)) [
  | inl same ↦ rw same (
      insert-Sealed flag q n s rs h (let a' = rw same at a in a') (
        subst (Sealed flag q) e
          (subst (λ i. Sealed flag q (t i)) (sym (same_key_sound k j same)) c)))
  | inr other ↦ rw other c
]

-- A test that `k` is no parent chain.
abbrev pub is_no_parent : Key → Bool
is_no_parent k =
    not (same_key k (in_filter ipv4 input))
    && not (same_key k (in_filter ipv4 output))
    && not (same_key k (in_filter ipv6 input))
    && not (same_key k (in_filter ipv6 output))

four_parts :
    (a b c d : Bool) → (a && b && c && d) ≡ true → (a ≡ true) × (b ≡ true) × (c ≡ true) × (d ≡ true)
four_parts a b c d p = ground arith

-- A test that the policy permits the rule in the chain `k`, if it has a say there.
abbrev pub permits : Policy → Key → Spec → Bool
permits p k s =
    (not (same_key k (in_filter ipv4 vpn_in)) || p.in4 s)
    && (not (same_key k (in_filter ipv4 vpn_out)) || p.out4 s)
    && (not (same_key k (in_filter ipv6 vpn_in6)) || p.in6 s)
    && (not (same_key k (in_filter ipv6 vpn_out6)) || p.out6 s)

-- An insertion in front of the last rule of any chain but the parents.
pub insert-IsClosed :
    (p : Policy) (k : Key) (n : ℕ) (s : Spec) (t : Rules) (rs : List Spec)
    → is_no_parent k ≡ true
    → permits p k s ≡ true
    → t k ≡ some rs
    → n ≤ length rs
    → IsClosed p t
    → IsClosed p (put k (some (insert_at n s rs)) t)
insert-IsClosed p k n s t rs x a e h c =
    let parts = four_parts _ _ _ _ x in
    let q = four_parts _ _ _ _ a in
    record {
      in4 = put_insert-Sealed "-i" p.in4 (in_filter ipv4 vpn_in) k n s t rs e h q.0 c.in4;
      out4 = put_insert-Sealed "-o" p.out4 (in_filter ipv4 vpn_out) k n s t rs e h q.1 c.out4;
      in6 = put_insert-Sealed "-i" p.in6 (in_filter ipv6 vpn_in6) k n s t rs e h q.2 c.in6;
      out6 = put_insert-Sealed "-o" p.out6 (in_filter ipv6 vpn_out6) k n s t rs e h q.3 c.out6;
      in4_wired = rw (put_other k (in_filter ipv4 input) t _ parts.0) c.in4_wired;
      out4_wired = rw (put_other k (in_filter ipv4 output) t _ parts.1) c.out4_wired;
      in6_wired = rw (put_other k (in_filter ipv6 input) t _ parts.2) c.in6_wired;
      out6_wired = rw (put_other k (in_filter ipv6 output) t _ parts.3) c.out6_wired;
    }
