-- ===== src/Firewall/Guards.antt =====
-- An exemption and its removal: with an iptables that does what it can do, no rule is left behind.
use pia_tun.Base.{
  String, List, [], ◌∷◌, ◌++◌, false, Option, none, some, ◌≡◌, refl, sym, ap, ◌∙◌, fun_ext, inl,
  inr, Bool-cases, arith, M, ok, Keeps,
}
use pia_tun.Firewall.Os.{
  Os, Netfilter, Rules, Key, Spec, Op, changed, key_of, put, same_key, vpn_exemptions, new_chain,
  append, insert, delete, clear_and_delete_chain,
}
use pia_tun.Firewall.Chains.{jump}
use pia_tun.Firewall.Exemptions.{
  Exemption, exempt_key, out_key, exempt_rule, create_exempt_chain, add_exemption,
  append_exemptions, add_exemptions, remove_exemptions, guarded,
}
use pia_tun.Firewall.Closed.{same_key_sound}

-- A call that can succeed does.
pub record Reliable (os : Os) (nf : Netfilter os) : Type 0 where
  pub succeeds :
      (op : Op) (w : os.World) (v : Option (List Spec))
      → changed op (nf.rules w (key_of op)) ≡ some v
      → (w' : os.World) × (os.iptables op w ≡ (ok tt, w'))

-- No exemption is in force, and the chain VPN_OUT exists, with these rules.
pub record IsReady (t : Rules) (rs : List Spec) : Type 0 where
  pub no_exemptions : t exempt_key ≡ none
  pub out_rules : t out_key ≡ some rs

-- The call leaves the rules as they are.
abbrev pub Quiet : (os : Os) → Netfilter os → {A : Type 0} → M os.World A → Type 0
Quiet os nf m = (t : Rules) → Keeps (λ w. nf.rules w ≡ t) m

module _ (os : Os) (nf : Netfilter os) (rel : Reliable os nf) (t : Rules) (rs : List Spec) where
  open nf use {rules}

  abbrev pub jump_out : List Spec
  jump_out = jump vpn_exemptions ∷ rs

  -- The exemption chain is there, VPN_OUT begins with its jump, and all else is as before.
  pub record Open (w : os.World) : Type 0 where
    pub exempt : List Spec
    pub own : rules w exempt_key ≡ some exempt
    pub out : rules w out_key ≡ some jump_out
    pub rest :
        (k : Key) → same_key exempt_key k ≡ false → same_key out_key k ≡ false → rules w k ≡ t k

  some_injective : (u v : Option (List Spec)) → some u ≡ some v → u ≡ v
  some_injective u v h = cc

  step :
      (op : Op) (w : os.World) (v : Option (List Spec))
      → changed op (rules w (key_of op)) ≡ some v
      → (w' : os.World) × (os.iptables op w ≡ (ok tt, w'))
        × (rules w' ≡ put (key_of op) v (rules w))
  step op w v h =
      let (w', e) = rel.succeeds op w v h in
      let (u, c, p) = nf.iptables_ok op w w' e in
      (w', e, p ∙ ap (λ x. put (key_of op) x (rules w)) (some_injective u v (sym c ∙ h)))

  -- `createExemptChain` succeeds and opens the chain.
  create_exempt_chain-Open :
      (w : os.World)
      → IsReady t rs
      → rules w ≡ t
      → (w' : os.World) × (create_exempt_chain os w ≡ (ok tt, w')) × Open w'
  unfolding create_exempt_chain
  create_exempt_chain-Open w ready e =
      let (a, ea, ra) =
        step (new_chain exempt_key) w (some []) (rw e (rw ready.no_exemptions refl)) in
      let oa : rules a out_key ≡ some rs =
        ap (λ f. f out_key) ra ∙ ap (λ f. f out_key) e ∙ ready.out_rules in
      let (b, eb, rb) =
        step (insert out_key 1 (jump vpn_exemptions)) a (some jump_out) (rw oa (ground arith)) in
      (
        b,
        rw ea (rw eb refl),
        record {
          exempt = [];
          own = ap (λ f. f exempt_key) rb ∙ ap (λ f. f exempt_key) ra;
          out = ap (λ f. f out_key) rb;
          rest = λ k h g. ap (λ f. f k) rb ∙ rw g (ap (λ f. f k) ra ∙ rw h (ap (λ f. f k) e));
        },
      )

  append-Open :
      (s : Spec) (w : os.World)
      → Open w
      → (w' : os.World) × (os.iptables (append exempt_key s) w ≡ (ok tt, w')) × Open w'
  append-Open s w o =
      let (a, ea, ra) =
        step (append exempt_key s) w (some (o.exempt ++ (s ∷ []))) (rw o.own refl) in
      (
        a,
        ea,
        record {
          exempt = o.exempt ++ (s ∷ []);
          own = ap (λ f. f exempt_key) ra;
          out = ap (λ f. f out_key) ra ∙ o.out;
          rest = λ k h g. ap (λ f. f k) ra ∙ rw h (o.rest k h g);
        },
      )

  append_exemptions-Open :
      (specs : List Exemption) (w : os.World)
      → Open w
      → (w' : os.World) × (append_exemptions os specs w ≡ (ok tt, w')) × Open w'
  unfolding append_exemptions
  append_exemptions-Open [] w o = (w, refl, o)
  append_exemptions-Open (s ∷ specs) w o =
      let (a, ea, oa) = append-Open (exempt_rule s.ip s.port s.proto) w o in
      let (b, eb, ob) = append_exemptions-Open specs a oa in (b, rw ea eb, ob)

  -- `RemoveExemptions` puts everything back.
  remove_exemptions-restores :
      (w : os.World)
      → IsReady t rs
      → Open w
      → (w' : os.World) × (remove_exemptions os w ≡ (ok tt, w')) × (rules w' ≡ t)
  unfolding remove_exemptions
  remove_exemptions-restores w ready o =
      let (a, ea, ra) = step (delete out_key (jump vpn_exemptions)) w (some rs) (rw o.out refl) in
      let (b, eb, rb) = step (clear_and_delete_chain exempt_key) a none refl in
      (b, rw ea (rw eb refl), fun_ext (λ k. ap (λ f. f k) rb ∙ at k a ra))
    where
      at :
          (k : Key) (a : os.World)
          → rules a ≡ put out_key (some rs) (rules w)
          → put exempt_key none (rules a) k ≡ t k
      at k a ra = elim (Bool-cases (same_key exempt_key k)) [
        | inl own ↦ rw own (sym ready.no_exemptions ∙ ap t (same_key_sound exempt_key k own))
        | inr other ↦
            rw (other, ra)
              (elim (Bool-cases (same_key out_key k)) [
                | inl out ↦ rw out (sym ready.out_rules ∙ ap t (same_key_sound out_key k out))
                | inr rest ↦ rw rest (o.rest k other rest)
              ])
      ]

  -- A way to open the exemption chain, which succeeds where no exemption is in force.
  pub record Opens (add : M os.World (Unit {0})) : Type 0 where
    pub opened : (w : os.World) → rules w ≡ t → (w' : os.World) × (add w ≡ (ok tt, w')) × Open w'

  pub add_exemption-Opens :
      (ip port proto : String) → IsReady t rs → Opens (add_exemption os ip port proto)
  unfolding add_exemption
  add_exemption-Opens ip port proto ready = record {
    opened = λ w e.
        let (a, ea, oa) = create_exempt_chain-Open w ready e in
        let (b, eb, ob) = append-Open (exempt_rule ip port proto) a oa in (b, rw ea eb, ob);
  }

  pub add_exemptions-Opens :
      (specs : List Exemption) → IsReady t rs → Opens (add_exemptions os specs)
  unfolding add_exemptions
  add_exemptions-Opens specs ready = record {
    opened = λ w e.
        let (a, ea, oa) = create_exempt_chain-Open w ready e in
        let (b, eb, ob) = append_exemptions-Open specs a oa in (b, rw ea eb, ob);
  }

  same-Open : (w w' : os.World) → rules w' ≡ rules w → Open w → Open w'
  same-Open w w' e o = record {
    exempt = o.exempt;
    own = ap (λ f. f exempt_key) e ∙ o.own;
    out = ap (λ f. f out_key) e ∙ o.out;
    rest = λ k h g. ap (λ f. f k) e ∙ o.rest k h g;
  }

  -- Around a call that leaves the rules alone, an exemption and its removal leave every rule of every
  -- chain as it was.
  pub guarded-restores :
      {A : Type 0} (add : M os.World (Unit {0})) (m : M os.World A)
      → IsReady t rs
      → Opens add
      → Quiet os nf m
      → Keeps (λ w. rules w ≡ t) (guarded os add m)
  unfolding guarded
  guarded-restores add m ready opens quiet = record {
    after = λ w e.
        let (a, ea, oa) = opens.opened w e in
        let b = (m a).1 in
        let same : rules b ≡ rules a = (quiet (rules a)).after a refl in
        let (c, ec, rc) = remove_exemptions-restores b ready (same-Open a b same oa) in
        rw ea (rw ec rc);
  }
