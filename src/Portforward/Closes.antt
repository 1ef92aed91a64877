-- ===== src/Portforward/Closes.antt =====
-- The forwarded port: with an iptables that does what it can do, its two rules are all that
-- internal/portforward adds to the rules, and they are gone when `Run` has ended.
use pia_tun.Base.{
  ℕ, String, List, ◌∷◌, ◌==◌, true, false, Option, none, some, ◌≡◌, refl, sym, ap, ◌∙◌, fun_ext,
  inl, inr, ◌⊎◌, arith, Bool-cases, str_eq_refl, Bool, M, Result, ok, err, ignore, ignored,
  continue,
}
use pia_tun.Firewall.Os.{
  Os, Netfilter, Rules, Spec, Op, same_spec, remove_first, changed, key_of, put, insert, delete,
}
use pia_tun.Firewall.Os.{same_key}
use pia_tun.Firewall.Exemptions.{port_insert_pos}
use pia_tun.Firewall.Killswitch.{
  Firewall, in_key, port_spec, remove_port, remove_forwarded_port, allow_forwarded_port,
}
use pia_tun.Firewall.Closed.{same_key_sound}
use pia_tun.Firewall.Guards.{Reliable}
use pia_tun.Portforward.Ends.{Ports}
use pia_tun.Portforward.Succeeds.{remove_port_succeeds}

-- VPN_IN has the rules `x`, `y` and `rest`, none of which opens a port of the tunnel.
pub record HasNoPort (t : Rules) (x y : Spec) (rest : List Spec) : Type 0 where
  pub rules : t in_key ≡ some (x ∷ y ∷ rest)
  pub first : (proto port : String) → same_spec (port_spec proto port) x ≡ false
  pub second : (proto port : String) → same_spec (port_spec proto port) y ≡ false
  pub others : (proto port : String) → remove_first (port_spec proto port) rest ≡ none

ignored_state : {S A : Type 0} (r : Result A × S) → (ignored r).1 ≡ r.1
ignored_state (ok a, s) = refl
ignored_state (err e, s) = refl

both_state :
    {S A B : Type 0} (m : M S B) (r : Result A × S)
    → (continue (λ _. ignore m) (ignored r)).1 ≡ (m r.1).1
both_state m (ok a, s) = ignored_state (m s)
both_state m (err e, s) = ignored_state (m s)

module _ (os : Os) (nf : Netfilter os) (rel : Reliable os nf) where
  some_injective : (u v : Option (List Spec)) → some u ≡ some v → u ≡ v
  some_injective u v h = cc

  -- A call that can succeed changes the rules of its chain.
  does :
      (op : Op) (w : os.World) (v : Option (List Spec))
      → changed op (nf.rules w (key_of op)) ≡ some v
      → (os.iptables op w ≡ (ok tt, (os.iptables op w).1))
        × (nf.rules (os.iptables op w).1 ≡ put (key_of op) v (nf.rules w))
  does op w v h =
      let (w', e) = rel.succeeds op w v h in
      let (u, c, p) = nf.iptables_ok op w w' e in
      let q : (os.iptables op w).1 ≡ w' = ap (λ r. r.1) e in
      (
        e ∙ ap (λ z. (ok tt, z)) (sym q),
        ap nf.rules q
            ∙ p
            ∙ ap (λ z. put (key_of op) z (nf.rules w)) (some_injective u v (sym c ∙ h)),
      )

  -- A deletion that finds no rule changes nothing.
  deletes_none :
      (s : Spec) (w : os.World) (r : Result (Unit {0}) × os.World)
      → changed (delete in_key s) (nf.rules w in_key) ≡ none
      → os.iptables (delete in_key s) w ≡ r
      → nf.rules r.1 ≡ nf.rules w
  deletes_none s w (err e, w') h q = nf.iptables_err (delete in_key s) w w' e q
  deletes_none s w (ok u, w') h q =
      let (v, c, p) = nf.iptables_ok (delete in_key s) w w' q in absurd (none_some v (sym h ∙ c))
    where
      none_some : (v : Option (List Spec)) → none ≡ some v → ⊥
      none_some v e = cc

  module _ (t : Rules) (x y : Spec) (rest : List Spec) (base : HasNoPort t x y rest)
      (itoa : ℕ → String) where
    abbrev tcp : ℕ → Spec
    tcp port = port_spec "tcp" (itoa port)

    abbrev udp : ℕ → Spec
    udp port = port_spec "udp" (itoa port)

    abbrev with_both : ℕ → Rules
    with_both port = put in_key (some (x ∷ y ∷ udp port ∷ tcp port ∷ rest)) t

    -- No port is open, or the one that the firewall has noted.
    abbrev pub Held : Rules → Bool → ℕ → Type 0
    Held u active port = (u ≡ t) ⊎ (((port == 0) ≡ false) × (u ≡ with_both port))

    abbrev pub Shut : Rules → Bool → ℕ → Type 0
    Shut u active port = u ≡ t

    put-back :
        (u : Rules) (rs : List Spec)
        → u ≡ put in_key (some rs) t
        → put in_key (some (x ∷ y ∷ rest)) u ≡ t
    put-back u rs e = fun_ext (λ k. elim (Bool-cases (same_key in_key k)) [
      | inl own ↦ rw own (sym base.rules ∙ ap t (same_key_sound in_key k own))
      | inr other ↦ rw (other, e) (rw other refl)
    ])

    put-put :
        (u : Rules) (rs qs : List Spec)
        → u ≡ put in_key (some rs) t
        → put in_key (some qs) u ≡ put in_key (some qs) t
    put-put u rs qs e = fun_ext (λ k. elim (Bool-cases (same_key in_key k)) [
      | inl own ↦ rw own refl
      | inr other ↦ rw (other, e) (rw other refl)
    ])

    absent :
        (proto port : String) → changed (delete in_key (port_spec proto port)) (t in_key) ≡ none
    absent proto port = rw base.rules (
        rw (base.first proto port) (rw (base.second proto port) (rw (base.others proto port) refl)))

    found_tcp :
        (port : ℕ)
        → changed (delete in_key (tcp port)) (with_both port in_key)
          ≡ some (some (x ∷ y ∷ udp port ∷ rest))
    found_tcp port =
        rw (base.first "tcp" (itoa port))
          (rw (base.second "tcp" (itoa port)) (rw (str_eq_refl (itoa port)) refl))

    found_udp :
        (port : ℕ)
        → changed (delete in_key (udp port)) (some (x ∷ y ∷ udp port ∷ rest))
          ≡ some (some (x ∷ y ∷ rest))
    found_udp port =
        rw (base.first "udp" (itoa port))
          (rw (base.second "udp" (itoa port)) (rw (str_eq_refl (itoa port)) refl))

    remove_port_shuts :
        (port : ℕ) (w : os.World)
        → (nf.rules w ≡ t) ⊎ (nf.rules w ≡ with_both port)
        → nf.rules (remove_port os itoa port w).1 ≡ t
    remove_port_shuts port w (inl e) =
        let a = (os.iptables (delete in_key (tcp port)) w).1 in
        let ra : nf.rules a ≡ t =
          deletes_none (tcp port) w _ (rw e (absent "tcp" (itoa port))) refl ∙ e in
        ap nf.rules (
          both_state (os.iptables (delete in_key (udp port)))
            (os.iptables (delete in_key (tcp port)) w))
        ∙ deletes_none (udp port) a _ (rw ra (absent "udp" (itoa port))) refl
        ∙ ra
    remove_port_shuts port w (inr e) =
        let a = (os.iptables (delete in_key (tcp port)) w).1 in
        let ra : nf.rules a ≡ put in_key (some (x ∷ y ∷ udp port ∷ rest)) t =
          (does (delete in_key (tcp port)) w _ (rw e (found_tcp port))).1
          ∙ put-put (nf.rules w) _ _ e in
        ap nf.rules (
          both_state (os.iptables (delete in_key (udp port)))
            (os.iptables (delete in_key (tcp port)) w))
        ∙ (does (delete in_key (udp port)) a _ (rw ra (found_udp port))).1
        ∙ put-back (nf.rules a) _ ra

    remove-Shut :
        (fw : Firewall os.World)
        → Held (nf.rules fw.world) fw.active fw.active_port
        → nf.rules (remove_forwarded_port os itoa fw).1.world ≡ t
    unfolding remove_forwarded_port
    remove-Shut fw h = elim (Bool-cases (fw.active_port == 0)) [
      | inl closed ↦ rw closed (not_open h closed)
      | inr open_port ↦ rw open_port (remove_port_shuts fw.active_port fw.world (noted h))
    ]
      where
        not_open :
            Held (nf.rules fw.world) fw.active fw.active_port
            → (fw.active_port == 0) ≡ true
            → nf.rules fw.world ≡ t
        not_open (inl e) c = e
        not_open (inr (n, e)) c = absurd (false_true (sym n ∙ c))
          where
            false_true : ◌≡◌ {A = Bool} false true → ⊥
            false_true q = cc

        noted :
            Held (nf.rules fw.world) fw.active fw.active_port
            → (nf.rules fw.world ≡ t) ⊎ (nf.rules fw.world ≡ with_both fw.active_port)
        noted (inl e) = inl e
        noted (inr (n, e)) = inr e

    inserted :
        (s : Spec) (qs : List Spec)
        → changed (insert in_key port_insert_pos s) (some (x ∷ y ∷ qs))
          ≡ some (some (x ∷ y ∷ s ∷ qs))
    inserted s qs = ground arith

    -- The two rules are in force behind `AllowForwardedPort`, whatever port was open before.
    allow-Held :
        (port : ℕ) (fw : Firewall os.World)
        → (port == 0) ≡ false
        → Held (nf.rules fw.world) fw.active fw.active_port
        → let fw' = (allow_forwarded_port os itoa port fw).1 in
          Held (nf.rules fw'.world) fw'.active fw'.active_port
    unfolding allow_forwarded_port
    allow-Held port fw n h =
        let f = (remove_forwarded_port os itoa fw).1 in
        let ef : remove_forwarded_port os itoa fw ≡ (ok tt, f) =
          ap (λ r. (r, f)) (remove_port_succeeds os itoa fw) in
        let rf : nf.rules f.world ≡ t = remove-Shut fw h in
        let (ea, ra) =
          does (insert in_key port_insert_pos (tcp port)) f.world _
            (rw (rf, base.rules) (inserted (tcp port) rest)) in
        let a = (os.iptables (insert in_key port_insert_pos (tcp port)) f.world).1 in
        let pa : nf.rules a ≡ put in_key (some (x ∷ y ∷ tcp port ∷ rest)) t =
          ra ∙ ap (put in_key (some (x ∷ y ∷ tcp port ∷ rest))) rf in
        let (eb, rb) =
          does (insert in_key port_insert_pos (udp port)) a _
            (rw pa (inserted (udp port) (tcp port ∷ rest))) in
        rw ef (rw ea (rw eb (inr (n, rb ∙ put-put (nf.rules a) _ _ pa))))

    pub ports : Ports os nf itoa Held Shut
    ports = record { shut = λ u active port e. inl e; allow = allow-Held; remove = remove-Shut }
