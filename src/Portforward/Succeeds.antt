-- ===== src/Portforward/Succeeds.antt =====
-- What of internal/firewall port forwarding tears down by never fails.
use pia_tun.Base.{
  ℕ, ◌==◌, String, List, ◌≡◌, refl, ◌∙◌, M, Result, ok, err, Error, arith, ignore, ignored,
  continue, str_eq, Bool-cases, inl, inr,
}
use pia_tun.Base.Sequences.{pure-Keeps, ignore-Keeps, if-Keeps}
use pia_tun.Base.Outcomes.{OnEither}
use pia_tun.Firewall.Os.{Os, Netfilter, delete}
use pia_tun.Firewall.Killswitch.{
  Firewall, in_key, port_spec, add_pf_route, remove_pf_route, remove_forwarded_port,
}
use pia_tun.Firewall.Guards.{Quiet}

pub OnEither-ok :
    {S : Type 0} (T : S → Type 0) (R : Error → S → Type 0) (r : Result (Unit {0}) × S)
    → r.0 ≡ ok tt
    → T r.1
    → OnEither (λ _. T) R r
OnEither-ok T R (ok a, s) e t = t
OnEither-ok T R (err x, s) e t = ground arith

ignored_ok : {S A : Type 0} (r : Result A × S) → (ignored r).0 ≡ ok tt
ignored_ok (ok a, s) = refl
ignored_ok (err e, s) = refl

ignored_twice :
    {S A B : Type 0} (m : M S B) (r : Result A × S)
    → (continue (λ _. ignore m) (ignored r)).0 ≡ ok tt
ignored_twice m (ok a, s) = ignored_ok (m s)
ignored_twice m (err e, s) = ignored_ok (m s)

pub remove_port_succeeds :
    (os : Os) (itoa : ℕ → String) (fw : Firewall os.World)
    → (remove_forwarded_port os itoa fw).0 ≡ ok tt
unfolding remove_forwarded_port
remove_port_succeeds os itoa fw = elim (Bool-cases (fw.active_port == 0)) [
  | inl none_open ↦ rw none_open refl
  | inr one_open ↦ rw one_open (
      ignored_twice (os.iptables (delete in_key (port_spec "udp" (itoa fw.active_port))))
        (os.iptables (delete in_key (port_spec "tcp" (itoa fw.active_port))) fw.world))
]

pub remove_route_succeeds :
    (os : Os) (gateway : String) (w : os.World) → (remove_pf_route os gateway w).0 ≡ ok tt
unfolding remove_pf_route
remove_route_succeeds os gateway w = elim (Bool-cases (str_eq gateway "")) [
  | inl none_set ↦ rw none_set refl
  | inr one_set ↦ rw one_set (ignored_ok _)
]

ip-Quiet : (os : Os) (nf : Netfilter os) (args : List String) → Quiet os nf (os.ip args)
ip-Quiet os nf args t = record { after = λ w e. nf.ip_rules args w ∙ e }

pub remove_route-Quiet :
    (os : Os) (nf : Netfilter os) (gateway : String) → Quiet os nf (remove_pf_route os gateway)
unfolding remove_pf_route
remove_route-Quiet os nf gateway t =
    if-Keeps _ (str_eq gateway "") (pure-Keeps _ tt) (ignore-Keeps _ (ip-Quiet os nf _ t))

pub add_route-Quiet :
    (os : Os) (nf : Netfilter os) (gateway : String) → Quiet os nf (add_pf_route os gateway)
unfolding add_pf_route
add_route-Quiet os nf gateway = ip-Quiet os nf _
