-- ===== src/Firewall/Baseline.antt =====
-- `setupBaselineChains` closes the killswitch.
use pia_tun.Base.{
  List, [], ◌∷◌, ◌++◌, false, Option, none, some, ◌≡◌, refl, ap, ◌∙◌, Result, ok, err, Ensures,
  OnOk, arith,
}
use pia_tun.Base.Sequences.{bind-Ensures, Keeps-Ensures, pure-Ensures, OnOk-map}
use pia_tun.Firewall.Os.{
  Os, Netfilter, Key, ipv4, ipv6, input, output, vpn_in, vpn_out, vpn_in6, vpn_out6, Spec, Op,
  Rules, put, changed, key_of, same_key, drop_rule, new_chain, append, insert,
}
use pia_tun.Firewall.Chains.{
  ChainDef, in_filter, established, loopback, jump, setup_chain, setup_chains,
  setup_baseline_chains,
}
use pia_tun.Firewall.Closed.{same_key_refl, IsWired}

-- What a call that succeeds makes of a property of the rules.
module _ (os : Os) (nf : Netfilter os) where
  call_result :
      (P Q : Rules → Type 0) (op : Op) (w : os.World) (r : Result (Unit {0}) × os.World)
      → ((t : Rules) (v : Option (List Spec))
          → P t
          → changed op (t (key_of op)) ≡ some v
          → Q (put (key_of op) v t))
      → os.iptables op w ≡ r
      → P (nf.rules w)
      → OnOk (λ _ s. Q (nf.rules s)) r
  call_result P Q op w (ok u, w') h e p =
      let (v, c, x) = nf.iptables_ok op w w' e in rw x (h (nf.rules w) v p c)
  call_result P Q op w (err x, w') h e p = tt

  call-Ensures :
      (P Q : Rules → Type 0) (op : Op)
      → ((t : Rules) (v : Option (List Spec))
          → P t
          → changed op (t (key_of op)) ≡ some v
          → Q (put (key_of op) v t))
      → Ensures (λ w. P (nf.rules w)) (os.iptables op) (λ _ w. Q (nf.rules w))
  call-Ensures P Q op h = record { after = λ w p. call_result P Q op w (os.iptables op w) h refl p }

  -- The chain `k` has the rules `v`, and the others are those of `t₀`.
  abbrev Has : Key → List Spec → Rules → Rules → Type 0
  Has k v t₀ t = (t k ≡ some v) × ((j : Key) → same_key k j ≡ false → t j ≡ t₀ j)

  put_self : (k : Key) (v : Option (List Spec)) (t : Rules) → put k v t k ≡ v
  put_self k v t = rw (same_key_refl k)

  put_ne :
      (k j : Key) (v : Option (List Spec)) (t : Rules) → same_key k j ≡ false → put k v t j ≡ t j
  put_ne k j v t h = rw h

  new_changed :
      (k : Key) (u v : Option (List Spec)) → changed (new_chain k) u ≡ some v → v ≡ some []
  new_changed k none v c = cc
  new_changed k (some rs) v c = cc

  new-Has :
      (k : Key) (t₀ t : Rules) (v : Option (List Spec))
      → t ≡ t₀
      → changed (new_chain k) (t k) ≡ some v
      → Has k [] t₀ (put k v t)
  new-Has k t₀ t v e c =
      (put_self k v t ∙ new_changed k (t k) v c, λ j h. put_ne k j v t h ∙ ap (λ u. u j) e)

  append_changed :
      (k : Key) (s : Spec) (rs : List Spec) (u v : Option (List Spec))
      → u ≡ some rs
      → changed (append k s) u ≡ some v
      → v ≡ some (rs ++ (s ∷ []))
  append_changed k s rs none v e c = cc
  append_changed k s rs (some x) v e c = cc

  append-Has :
      (k : Key) (s : Spec) (rs : List Spec) (t₀ t : Rules) (v : Option (List Spec))
      → Has k rs t₀ t
      → changed (append k s) (t k) ≡ some v
      → Has k (rs ++ (s ∷ [])) t₀ (put k v t)
  append-Has k s rs t₀ t v (e, o) c =
      (put_self k v t ∙ append_changed k s rs (t k) v e c, λ j h. put_ne k j v t h ∙ o j h)

  insert_changed :
      (k : Key) (s : Spec) (u v : Option (List Spec))
      → changed (insert k 1 s) u ≡ some v
      → (rest : List Spec) × (v ≡ some (s ∷ rest))
  insert_changed k s none v c = cc
  insert_changed k s (some x) v c = (x, ground arith)

  abbrev base_rules : ChainDef → List Spec
  base_rules c = established ∷ loopback c.lo_flag ∷ drop_rule ∷ []

  abbrev own_key : ChainDef → Key
  own_key c = in_filter c.ipt c.name

  abbrev parent_key : ChainDef → Key
  parent_key c = in_filter c.ipt c.parent

  -- What `setupBaselineChains` leaves of one chain.
  pub record IsBase (c : ChainDef) (t : Rules) : Type 0 where
    pub rules : t (own_key c) ≡ some (base_rules c)
    pub wired : IsWired c.name (t (parent_key c))

  abbrev Elsewhere : ChainDef → Rules → Rules → Type 0
  Elsewhere c t₀ t =
      (j : Key) → same_key (own_key c) j ≡ false → same_key (parent_key c) j ≡ false → t j ≡ t₀ j

  wire-IsBase :
      (c : ChainDef) (t₀ t : Rules) (v : Option (List Spec))
      → same_key (parent_key c) (own_key c) ≡ false
      → Has (own_key c) (base_rules c) t₀ t
      → changed (insert (parent_key c) 1 (jump c.name)) (t (parent_key c)) ≡ some v
      → IsBase c (put (parent_key c) v t) × Elsewhere c t₀ (put (parent_key c) v t)
  wire-IsBase c t₀ t v d (e, o) h =
      let (rest, x) = insert_changed (parent_key c) (jump c.name) (t (parent_key c)) v h in
      (
        record {
          rules = put_ne (parent_key c) (own_key c) v t d ∙ e;
          wired = (rest, put_self (parent_key c) v t ∙ x);
        },
        λ j a b. put_ne (parent_key c) j v t b ∙ o j a,
      )

  -- One round of the loop.
  setup_chain_lem :
      (c : ChainDef) (t₀ : Rules)
      → same_key (parent_key c) (own_key c) ≡ false
      → Ensures
          (λ w. nf.rules w ≡ t₀)
          (setup_chain os c)
          (λ _ w. IsBase c (nf.rules w) × Elsewhere c t₀ (nf.rules w))
  unfolding setup_chain
  setup_chain_lem c t₀ d =
      bind-Ensures (call-Ensures (λ t. t ≡ t₀) (Has k [] t₀) (new_chain k) (new-Has k t₀)) (λ _.
        bind-Ensures (step established []) (λ _.
          bind-Ensures (step (loopback c.lo_flag) (established ∷ [])) (λ _.
            bind-Ensures (step drop_rule (established ∷ loopback c.lo_flag ∷ [])) (λ _.
              call-Ensures (Has k (base_rules c) t₀) (λ t. IsBase c t × Elsewhere c t₀ t)
                (insert (parent_key c) 1 (jump c.name)) (λ t v. wire-IsBase c t₀ t v d)))))
    where
      k : Key
      k = own_key c

      step :
          (s : Spec) (rs : List Spec)
          → Ensures
              (λ w. Has k rs t₀ (nf.rules w))
              (os.iptables (append k s))
              (λ _ w. Has k (rs ++ (s ∷ [])) t₀ (nf.rules w))
      step s rs =
          call-Ensures (Has k rs t₀) (Has k (rs ++ (s ∷ [])) t₀) (append k s) (append-Has k s rs t₀)

  chain-Ensures :
      (c : ChainDef) (P Q : Rules → Type 0)
      → same_key (parent_key c) (own_key c) ≡ false
      → ((t₀ t : Rules) → P t₀ → Elsewhere c t₀ t → IsBase c t → Q t)
      → Ensures (λ w. P (nf.rules w)) (setup_chain os c) (λ _ w. Q (nf.rules w))
  chain-Ensures c P Q d h = record {
    after = λ w p.
        OnOk-map _ _ (setup_chain os c w) (λ _ w' (b, e). h (nf.rules w) (nf.rules w') p e b)
          ((setup_chain_lem c (nf.rules w) d).after w refl);
  }

  Elsewhere-IsBase :
      (c d : ChainDef) (t₀ t : Rules)
      → same_key (own_key c) (own_key d) ≡ false
      → same_key (parent_key c) (own_key d) ≡ false
      → same_key (own_key c) (parent_key d) ≡ false
      → same_key (parent_key c) (parent_key d) ≡ false
      → Elsewhere c t₀ t
      → IsBase d t₀
      → IsBase d t
  Elsewhere-IsBase c d t₀ t h i j k e b = record {
    rules = e (own_key d) h i ∙ b.rules;
    wired = (b.wired.0, e (parent_key d) j k ∙ b.wired.1);
  }

  abbrev c1 : ChainDef
  c1 = record { name = vpn_in; parent = input; ipt = ipv4; lo_flag = "-i" }

  abbrev c2 : ChainDef
  c2 = record { name = vpn_out; parent = output; ipt = ipv4; lo_flag = "-o" }

  abbrev c3 : ChainDef
  c3 = record { name = vpn_in6; parent = input; ipt = ipv6; lo_flag = "-i" }

  abbrev c4 : ChainDef
  c4 = record { name = vpn_out6; parent = output; ipt = ipv6; lo_flag = "-o" }

  abbrev pub AllBase : Rules → Type 0
  AllBase t = IsBase c1 t × IsBase c2 t × IsBase c3 t × IsBase c4 t

  away :
      (c d : ChainDef) {t₀ t : Rules}
      → Elsewhere c t₀ t
      → IsBase d t₀
      → ((same_key (own_key c) (own_key d) ≡ false)
          × (same_key (parent_key c) (own_key d) ≡ false)
          × (same_key (own_key c) (parent_key d) ≡ false)
          × (same_key (parent_key c) (parent_key d) ≡ false))
      → IsBase d t
  away c d {t₀} {t} e b (h, i, j, k) = Elsewhere-IsBase c d t₀ t h i j k e b

  pub setup_baseline_chains-AllBase :
      Ensures (λ _. Unit) (setup_baseline_chains os) (λ _ w. AllBase (nf.rules w))
  unfolding setup_baseline_chains setup_chains
  setup_baseline_chains-AllBase = bind-Ensures (Keeps-Ensures (record { after = λ w p. tt })) (λ _.
      bind-Ensures (chain-Ensures c1 (λ _. Unit) (IsBase c1) refl (λ t₀ t p e b. b)) (λ _.
        bind-Ensures
          (chain-Ensures c2 (IsBase c1) (λ t. IsBase c1 t × IsBase c2 t) refl
            (λ t₀ t p e b. (away c2 c1 e p (refl, refl, refl, refl), b)))
          (λ _.
            bind-Ensures
              (chain-Ensures c3 (λ t. IsBase c1 t × IsBase c2 t)
                (λ t. IsBase c1 t × IsBase c2 t × IsBase c3 t) refl
                (λ t₀ t p e b. (
                  away c3 c1 e p.0 (refl, refl, refl, refl),
                  away c3 c2 e p.1 (refl, refl, refl, refl),
                  b,
                )))
              (λ _.
                bind-Ensures
                  (chain-Ensures c4 (λ t. IsBase c1 t × IsBase c2 t × IsBase c3 t) AllBase refl
                    (λ t₀ t p e b. (
                      away c4 c1 e p.0 (refl, refl, refl, refl),
                      away c4 c2 e p.1 (refl, refl, refl, refl),
                      away c4 c3 e p.2 (refl, refl, refl, refl),
                      b,
                    )))
                  (λ _. pure-Ensures tt _ (λ w p. p))))))
