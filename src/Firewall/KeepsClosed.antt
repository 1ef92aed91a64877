-- ===== src/Firewall/KeepsClosed.antt =====
-- The calls that keep the killswitch closed.
use pia_tun.Base.{
  suc, String, List, [], ◌∷◌, map, true, ◌==◌, some, ◌≡◌, refl, sym, ap, ◌∙◌, inl, inr, arith,
  Bool-cases, length, if◌then◌else◌, Result, ok, err, Keeps, pure, fail, continue,
}
use pia_tun.Base.Text.{Bytes}
use pia_tun.Firewall.Os.{Os, Netfilter, Key, Spec, insert_at, Op, insert}
use pia_tun.Firewall.Chains.{count_rules, rule_count, insert_before_drop}
use pia_tun.Firewall.Closed.{
  IsClosed, Policy, harmless, insert_changed, put-IsClosed, Left-IsClosed, is_no_parent, permits,
  insert-IsClosed,
}

module _ (os : Os) (nf : Netfilter os) (p : Policy) where
  open os use {World, iptables, list}

  abbrev pub Closed : World → Type 0
  Closed w = IsClosed p (nf.rules w)

  iptables_result :
      (op : Op) (w : World) (r : Result (Unit {0}) × World)
      → harmless p op ≡ true
      → iptables op w ≡ r
      → Closed w
      → Closed r.1
  iptables_result op w (ok u, w') h e k =
      let (v, c, x) = nf.iptables_ok op w w' e in rw x (put-IsClosed p op (nf.rules w) v h c k)
  iptables_result op w (err x, w') h e k =
      Left-IsClosed p op (nf.rules w) (nf.rules w') h (nf.iptables_err op w w' x e) k

  -- One harmless call, whether it succeeds or not.
  pub iptables-Keeps : (op : Op) → harmless p op ≡ true → Keeps Closed (iptables op)
  iptables-Keeps op h = record { after = λ w k. iptables_result op w (iptables op w) h refl k }

  pub list-Keeps : (k : Key) → Keeps Closed (list k)
  list-Keeps j = record { after = λ w k. rw (nf.list_rules j w) k }

  pub ip-Keeps : (args : List String) → Keeps Closed (os.ip args)
  ip-Keeps args = record { after = λ w k. rw (nf.ip_rules args w) k }

  pub ip_output-Keeps : (args : List String) → Keeps Closed (os.ip_output args)
  ip_output-Keeps args = record { after = λ w k. rw (nf.ip_output_rules args w) k }

  -- The count of a chain's lines is the count of its rules.
  pub count_rules_lem :
      (k : Key) (rs : List Spec) → count_rules (nf.heading k ∷ map (nf.line k) rs) ≡ length rs
  count_rules_lem k rs = rw (nf.heading_append k) (lines rs)
    where
      lines : (rs : List Spec) → count_rules (map (nf.line k) rs) ≡ length rs
      lines [] = refl
      lines (r ∷ rs) = rw (nf.line_append k r) (ap suc (lines rs))

  -- `insertBeforeDrop`: the position that it counts is that of DROP.
  insert_result :
      (k : Key) (s : Spec) (w : World) (rs : List Spec) (r : Result (Unit {0}) × World)
      → is_no_parent k ≡ true
      → permits p k s ≡ true
      → nf.rules w k ≡ some rs
      → iptables (insert k (length rs) s) w ≡ r
      → Closed w
      → Closed r.1
  insert_result k s w rs (ok u, w') a x e q c =
      let (v, h, y) = nf.iptables_ok (insert k (length rs) s) w w' q in
      let z : v ≡ some (insert_at (length rs) s rs) =
        insert_changed k (length rs) s rs v (rw e at h) in
      rw (y, z) (insert-IsClosed p k (length rs) s (nf.rules w) rs a x e (omega arith) c)
  insert_result k s w rs (err y, w') a x e q c = rw (nf.iptables_err _ w w' y q) c

  inserted_result :
      (k : Key) (s : Spec) (w : World) (rs : List Spec)
      → is_no_parent k ≡ true
      → permits p k s ≡ true
      → nf.rules w k ≡ some rs
      → Closed w
      → Closed
          (continue
            (λ pos. iptables (insert k pos s))
            ((if length rs == 0 then fail [] else pure (length rs)) w)).1
  inserted_result k s w rs a x e c = elim (Bool-cases (length rs == 0)) [
    | inl empty ↦ rw empty c
    | inr more ↦ rw more (insert_result k s w rs _ a x e refl c)
  ]

  counted_result :
      (k : Key) (s : Spec) (w : World) (r : Result (List Bytes) × World)
      → is_no_parent k ≡ true
      → permits p k s ≡ true
      → list k w ≡ r
      → Closed w
      → Closed
          (continue
            (λ pos. iptables (insert k pos s))
            (continue
              (λ lines. if count_rules lines == 0 then fail [] else pure (count_rules lines))
              r)).1
  counted_result k s w (ok ls, w') a x q c =
      let (rs, e, y) = nf.list_ok k w w' ls q in
      let same : nf.rules w' ≡ nf.rules w = ap (λ r. nf.rules r.1) (sym q) ∙ nf.list_rules k w in
      let n : count_rules ls ≡ length rs = rw y (count_rules_lem k rs) in
      rw n (inserted_result k s w' rs a x (ap (λ t. t k) same ∙ e) (rw same c))
  counted_result k s w (err y, w') a x q c =
      let same : nf.rules w' ≡ nf.rules w = ap (λ r. nf.rules r.1) (sym q) ∙ nf.list_rules k w in
      rw same c

  pub insert_before_drop-Keeps :
      (k : Key) (s : Spec)
      → is_no_parent k ≡ true
      → permits p k s ≡ true
      → Keeps Closed (insert_before_drop os k s)
  unfolding insert_before_drop rule_count
  insert_before_drop-Keeps k s a x = record {
    after = λ w c. counted_result k s w (list k w) a x refl c;
  }
