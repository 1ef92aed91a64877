-- ===== src/Firewall/Blocked.antt =====
-- An exemption where one is in force already.
use pia_tun.Base.{String, List, some, ◌≡◌, refl, M, Result, ok, err, Error}
use pia_tun.Firewall.Os.{Os, Netfilter, Spec, new_chain}
use pia_tun.Firewall.Exemptions.{
  Exemption, exempt_key, create_exempt_chain, add_exemption, add_exemptions,
}

module _ (os : Os) (nf : Netfilter os) where
  -- The call fails and leaves the rules as they are.
  abbrev pub IsRefused : os.World → M os.World (Unit {0}) → Type 0
  IsRefused w m = (e : Error) × (w' : os.World) × (m w ≡ (err e, w')) × (nf.rules w' ≡ nf.rules w)

  new_chain-IsRefused :
      (w : os.World) (rs : List Spec) (r : Result (Unit {0}) × os.World)
      → nf.rules w exempt_key ≡ some rs
      → os.iptables (new_chain exempt_key) w ≡ r
      → (e : Error) × (w' : os.World) × (r ≡ (err e, w')) × (nf.rules w' ≡ nf.rules w)
  new_chain-IsRefused w rs (ok tt, w') h g =
      let (v, c, p) = nf.iptables_ok (new_chain exempt_key) w w' g in let c' = rw h at c in cc
  new_chain-IsRefused w rs (err e, w') h g =
      (e, w', refl, nf.iptables_err (new_chain exempt_key) w w' e g)

  create_exempt_chain-IsRefused :
      (w : os.World) (rs : List Spec)
      → nf.rules w exempt_key ≡ some rs
      → IsRefused w (create_exempt_chain os)
  unfolding create_exempt_chain
  create_exempt_chain-IsRefused w rs h =
      let (e, w', a, p) = new_chain-IsRefused w rs _ h refl in (e, w', rw a refl, p)

  -- While an exemption chain is there, `AddExemption` and `AddExemptions` fail and change nothing: the
  -- exemptions of before are the only ones until `RemoveExemptions`.
  pub exemptions_blocked :
      (w : os.World) (rs : List Spec)
      → nf.rules w exempt_key ≡ some rs
      → ((ip port proto : String) → IsRefused w (add_exemption os ip port proto))
        × ((specs : List Exemption) → IsRefused w (add_exemptions os specs))
  unfolding add_exemption add_exemptions
  exemptions_blocked w rs h =
      let (e, w', a, p) = create_exempt_chain-IsRefused w rs h in
      (λ ip port proto. (e, w', rw a refl, p), λ specs. (e, w', rw a refl, p))
