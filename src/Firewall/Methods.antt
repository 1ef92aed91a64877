-- ===== src/Firewall/Methods.antt =====
-- The methods of `Firewall` that the rest of the program calls between `Setup` and `Cleanup`, in any
-- order and however often.
use pia_tun.Base.{ℕ, String, List, [], ◌∷◌, Keeps, M, refl, ◌==◌}
use pia_tun.Base.Sequences.{then-Keeps, ignore-Keeps, pure-Keeps, if-Keeps}
use pia_tun.Firewall.Os.{Os, Netfilter}
use pia_tun.Firewall.Exemptions.{Exemption, add_exemption, add_exemptions, remove_exemptions}
use pia_tun.Firewall.LocalNetworks.{Lans}
use pia_tun.Firewall.Killswitch.{
  Firewall, remove_forwarded_port, allow_forwarded_port, remove_port, on_world, set_active_port,
  add_pia_dns_routes, remove_pia_routes, add_pf_route, remove_pf_route,
}
use pia_tun.Firewall.Closed.{IsClosed}
use pia_tun.Firewall.KeepsClosed.{Closed, iptables-Keeps}
use pia_tun.Firewall.Policy.{policy}
use pia_tun.Firewall.NeverOpens.{
  add_exemption-Keeps, add_exemptions-Keeps, remove_exemptions-Keeps, add_pia_dns_routes-Keeps,
  remove_pia_routes-Keeps, add_pf_route-Keeps, remove_pf_route-Keeps,
}

pub data Method : Type 0 where
  adds_exemption : String → String → String → Method
  adds_exemptions : List Exemption → Method
  removes_exemptions : Method
  allows_forwarded_port : ℕ → Method
  removes_forwarded_port : Method
  adds_pia_dns_routes : ℕ → List String → Method
  removes_pia_routes : ℕ → Method
  adds_pf_route removes_pf_route : String → Method

module _ (os : Os) (itoa : ℕ → String) where
  pub call : Method → M (Firewall os.World) (Unit {0})
  call (adds_exemption ip port proto) = on_world os (add_exemption os ip port proto)
  call (adds_exemptions specs) = on_world os (add_exemptions os specs)
  call removes_exemptions = on_world os (remove_exemptions os)
  call (allows_forwarded_port port) = allow_forwarded_port os itoa port
  call removes_forwarded_port = remove_forwarded_port os itoa
  call (adds_pia_dns_routes fuel dns) = on_world os (add_pia_dns_routes os fuel dns)
  call (removes_pia_routes fuel) = on_world os (remove_pia_routes os fuel)
  call (adds_pf_route gateway) = on_world os (add_pf_route os gateway)
  call (removes_pf_route gateway) = on_world os (remove_pf_route os gateway)

  -- The state after a sequence of calls, whatever each of them returned.
  pub calls : List Method → Firewall os.World → Firewall os.World
  calls [] fw = fw
  calls (m ∷ ms) fw = calls ms (call m fw).1

module _ (os : Os) (nf : Netfilter os) (itoa : ℕ → String) (lans : Lans) where
  abbrev pub Held : Firewall os.World → Type 0
  Held fw = IsClosed (policy lans) (nf.rules fw.world)

  on_world-Keeps :
      {A : Type 0} {m : M os.World A}
      → Keeps (Closed os nf (policy lans)) m
      → Keeps Held (on_world os m)
  on_world-Keeps h = record { after = λ fw p. h.after fw.world p }

  set_active_port-Keeps : (n : ℕ) → Keeps Held (set_active_port os n)
  set_active_port-Keeps n = record { after = λ fw p. p }

  remove_port-Keeps : (port : ℕ) → Keeps (Closed os nf (policy lans)) (remove_port os itoa port)
  remove_port-Keeps port =
      then-Keeps _ (ignore-Keeps _ (iptables-Keeps os nf (policy lans) _ refl))
        (ignore-Keeps _ (iptables-Keeps os nf (policy lans) _ refl))

  pub remove_forwarded_port-Keeps : Keeps Held (remove_forwarded_port os itoa)
  unfolding remove_forwarded_port
  remove_forwarded_port-Keeps = record {
    after = λ fw p.
        (if-Keeps Held (fw.active_port == 0) (pure-Keeps _ tt)
            (on_world-Keeps (remove_port-Keeps fw.active_port))).after
          fw p;
  }

  pub allow_forwarded_port-Keeps : (port : ℕ) → Keeps Held (allow_forwarded_port os itoa port)
  unfolding allow_forwarded_port
  allow_forwarded_port-Keeps port = then-Keeps _ remove_forwarded_port-Keeps (
      then-Keeps _ (on_world-Keeps (iptables-Keeps os nf (policy lans) _ refl)) (
        then-Keeps _ (on_world-Keeps (iptables-Keeps os nf (policy lans) _ refl))
          (set_active_port-Keeps port)))

  call-Keeps : (m : Method) → Keeps Held (call os itoa m)
  unfolding call
  call-Keeps (adds_exemption ip port proto) =
      on_world-Keeps (add_exemption-Keeps os nf lans ip port proto)
  call-Keeps (adds_exemptions specs) = on_world-Keeps (add_exemptions-Keeps os nf lans specs)
  call-Keeps removes_exemptions = on_world-Keeps (remove_exemptions-Keeps os nf lans)
  call-Keeps (allows_forwarded_port port) = allow_forwarded_port-Keeps port
  call-Keeps removes_forwarded_port = remove_forwarded_port-Keeps
  call-Keeps (adds_pia_dns_routes fuel dns) =
      on_world-Keeps (add_pia_dns_routes-Keeps os nf lans fuel dns)
  call-Keeps (removes_pia_routes fuel) = on_world-Keeps (remove_pia_routes-Keeps os nf lans fuel)
  call-Keeps (adds_pf_route gateway) = on_world-Keeps (add_pf_route-Keeps os nf lans gateway)
  call-Keeps (removes_pf_route gateway) = on_world-Keeps (remove_pf_route-Keeps os nf lans gateway)

  -- A closed killswitch stays closed through any sequence of calls of the methods that add and remove
  -- exemptions, the forwarded port and PIA's routes, whichever of their steps fail.
  pub calls-IsClosed :
      (ms : List Method) (fw : Firewall os.World)
      → IsClosed (policy lans) (nf.rules fw.world)
      → IsClosed (policy lans) (nf.rules (calls os itoa ms fw).world)
  unfolding calls
  calls-IsClosed [] fw h = h
  calls-IsClosed (m ∷ ms) fw h = calls-IsClosed ms (call os itoa m fw).1 ((call-Keeps m).after fw h)
