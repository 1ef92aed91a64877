-- ===== src/Firewall/NeverOpens.antt =====
-- Every method that runs after the baseline keeps the killswitch closed, whichever of its calls
-- fail.
use pia_tun.Base.{
  ℕ, zero, suc, String, List, [], ◌∷◌, Bool, true, Result, ok, err, Keeps, M, refl, ◌≡◌, arith,
}
use pia_tun.Base.Sequences.{
  bind-Keeps, then-Keeps, ignore-Keeps, attempt-Keeps, pure-Keeps, if-Keeps,
}
use pia_tun.Firewall.Os.{Os, Netfilter, Op}
use pia_tun.Firewall.Exemptions.{
  Exemption, create_exempt_chain, add_exemption, append_exemptions, add_exemptions,
  remove_exemptions, add_vpn,
}
use pia_tun.Firewall.LocalNetworks.{
  Lans, kernel_routes, detected, while_ok, delete_all, cleanup_local_routes, add_routes,
  setup_local_routes, local_rules_v4, local_rules_v6, source_rule, destination_rule,
  setup_local_rules, detect_kernel_subnets, resolve_local_networks,
}
use pia_tun.Firewall.Killswitch.{
  add_bypass_routes, setup_bypass, setup_bypass_routes, cleanup_bypass_routes, insert_bypass_rules,
  icmpv6_rules, cleanup_mss_clamping, setup_mss_clamping, clamp, remove_pia_routes, add_pia_routes,
  add_pia_dns_routes, add_pf_route, remove_pf_route,
}
use pia_tun.Firewall.Closed.{harmless}
use pia_tun.Firewall.KeepsClosed.{
  Closed, iptables-Keeps, ip-Keeps, ip_output-Keeps, insert_before_drop-Keeps,
}
use pia_tun.Firewall.Policy.{policy, is_one_of-make, AllIn, AllIn-refl}

module _ (os : Os) (nf : Netfilter os) (lans : Lans) where
  abbrev Safe : os.World → Type 0
  Safe = Closed os nf (policy lans)

  call : (op : Op) → harmless (policy lans) op ≡ true → Keeps Safe (os.iptables op)
  call op h = iptables-Keeps os nf (policy lans) op h

  create_exempt_chain-Keeps : Keeps Safe (create_exempt_chain os)
  unfolding create_exempt_chain
  create_exempt_chain-Keeps = then-Keeps _ (call _ refl) (ignore-Keeps _ (call _ refl))

  pub add_exemption-Keeps : (ip port proto : String) → Keeps Safe (add_exemption os ip port proto)
  unfolding add_exemption
  add_exemption-Keeps ip port proto = then-Keeps _ create_exempt_chain-Keeps (call _ refl)

  append_exemptions-Keeps : (specs : List Exemption) → Keeps Safe (append_exemptions os specs)
  unfolding append_exemptions
  append_exemptions-Keeps [] = pure-Keeps _ tt
  append_exemptions-Keeps (s ∷ specs) =
      then-Keeps _ (ignore-Keeps _ (call _ refl)) (append_exemptions-Keeps specs)

  pub add_exemptions-Keeps : (specs : List Exemption) → Keeps Safe (add_exemptions os specs)
  unfolding add_exemptions
  add_exemptions-Keeps specs =
      then-Keeps _ create_exempt_chain-Keeps (append_exemptions-Keeps specs)

  pub remove_exemptions-Keeps : Keeps Safe (remove_exemptions os)
  unfolding remove_exemptions
  remove_exemptions-Keeps =
      then-Keeps _ (ignore-Keeps _ (call _ refl)) (ignore-Keeps _ (call _ refl))

  pub add_vpn-Keeps : (v6 : Bool) → Keeps Safe (add_vpn os v6)
  unfolding add_vpn
  add_vpn-Keeps v6 =
      then-Keeps _ (call _ refl)
        (then-Keeps _ (call _ refl) (if-Keeps _ v6 (call _ refl) (pure-Keeps _ tt)))

  while_ok-Keeps :
      {again : M os.World (Unit {0})}
      → Keeps Safe again
      → (r : Result (Unit {0})) → Keeps Safe (while_ok os again r)
  while_ok-Keeps h (ok _) = h
  while_ok-Keeps h (err e) = pure-Keeps _ tt

  delete_all-Keeps : (fuel : ℕ) (args : List String) → Keeps Safe (delete_all os fuel args)
  unfolding delete_all
  delete_all-Keeps zero args = pure-Keeps _ tt
  delete_all-Keeps (suc fuel) args =
      bind-Keeps _ (attempt-Keeps _ (ip-Keeps os nf (policy lans) args))
        (while_ok-Keeps (delete_all-Keeps fuel args))

  pub cleanup_local_routes-Keeps : (fuel : ℕ) → Keeps Safe (cleanup_local_routes os fuel)
  unfolding cleanup_local_routes
  cleanup_local_routes-Keeps fuel = then-Keeps _ (delete_all-Keeps _ _) (delete_all-Keeps _ _)

  add_routes-Keeps : (flags ns : List String) → Keeps Safe (add_routes os flags ns)
  unfolding add_routes
  add_routes-Keeps flags [] = pure-Keeps _ tt
  add_routes-Keeps flags (n ∷ ns) =
      then-Keeps _ (ip-Keeps os nf (policy lans) _) (add_routes-Keeps flags ns)

  local_rules_v4-Keeps : (ns : List String) → AllIn ns lans.v4 → Keeps Safe (local_rules_v4 os ns)
  unfolding local_rules_v4
  local_rules_v4-Keeps [] h = pure-Keeps _ tt
  local_rules_v4-Keeps (n ∷ ns) h =
      then-Keeps _
        (insert_before_drop-Keeps os nf _ _ _ refl
          (ground (arith, is_one_of-make source_rule n lans.v4)))
        (then-Keeps _
          (insert_before_drop-Keeps os nf _ _ _ refl
            (ground (arith, is_one_of-make destination_rule n lans.v4)))
          (local_rules_v4-Keeps ns h.1))

  local_rules_v6-Keeps : (ns : List String) → AllIn ns lans.v6 → Keeps Safe (local_rules_v6 os ns)
  unfolding local_rules_v6
  local_rules_v6-Keeps [] h = pure-Keeps _ tt
  local_rules_v6-Keeps (n ∷ ns) h =
      then-Keeps _
        (insert_before_drop-Keeps os nf _ _ _ refl
          (ground (arith, is_one_of-make source_rule n lans.v6)))
        (then-Keeps _
          (insert_before_drop-Keeps os nf _ _ _ refl
            (ground (arith, is_one_of-make destination_rule n lans.v6)))
          (local_rules_v6-Keeps ns h.1))

  pub setup_local_rules-Keeps : Keeps Safe (setup_local_rules os lans)
  unfolding setup_local_rules
  setup_local_rules-Keeps =
      then-Keeps _ (local_rules_v4-Keeps lans.v4 (AllIn-refl lans.v4))
        (local_rules_v6-Keeps lans.v6 (AllIn-refl lans.v6))

  pub setup_local_routes-Keeps : (fuel : ℕ) → Keeps Safe (setup_local_routes os fuel lans)
  unfolding setup_local_routes
  setup_local_routes-Keeps fuel =
      then-Keeps _ (cleanup_local_routes-Keeps fuel)
        (then-Keeps _ (add_routes-Keeps _ _) (add_routes-Keeps _ _))

  detect_kernel_subnets-Keeps : Keeps Safe (detect_kernel_subnets os)
  unfolding detect_kernel_subnets
  detect_kernel_subnets-Keeps =
      bind-Keeps _ (attempt-Keeps _ (ip_output-Keeps os nf (policy lans) (kernel_routes "-4")))
        (λ out4.
          bind-Keeps _ (attempt-Keeps _ (ip_output-Keeps os nf (policy lans) (kernel_routes "-6")))
            (λ out6. pure-Keeps _ (detected out4 out6)))

  pub resolve_local_networks-Keeps :
      (is_cidr : String → Bool) (setting : String)
      → Keeps Safe (resolve_local_networks os is_cidr setting)
  unfolding resolve_local_networks
  resolve_local_networks-Keeps is_cidr setting =
      bind-Keeps _ (if-Keeps _ _ (pure-Keeps _ _) detect_kernel_subnets-Keeps)
        (λ found. pure-Keeps _ _)

  bypass_routes-Keeps : (ns : List String) → Keeps Safe (add_bypass_routes os ns)
  unfolding add_bypass_routes
  bypass_routes-Keeps [] = pure-Keeps _ tt
  bypass_routes-Keeps (n ∷ ns) =
      then-Keeps _ (ip-Keeps os nf (policy lans) _) (bypass_routes-Keeps ns)

  pub setup_bypass-Keeps : (fuel : ℕ) → Keeps Safe (setup_bypass os fuel)
  unfolding setup_bypass setup_bypass_routes cleanup_bypass_routes insert_bypass_rules
  setup_bypass-Keeps fuel =
      then-Keeps _ (then-Keeps _ (delete_all-Keeps _ _) (bypass_routes-Keeps _)) (
        then-Keeps _ (insert_before_drop-Keeps os nf _ _ _ refl refl)
          (then-Keeps _ (insert_before_drop-Keeps os nf _ _ _ refl refl) (pure-Keeps _ tt)))

  pub icmpv6_rules-Keeps : Keeps Safe (icmpv6_rules os)
  unfolding icmpv6_rules
  icmpv6_rules-Keeps =
      then-Keeps _ (insert_before_drop-Keeps os nf _ _ _ refl refl)
        (insert_before_drop-Keeps os nf _ _ _ refl refl)

  pub cleanup_mss_clamping-Keeps : Keeps Safe (cleanup_mss_clamping os)
  unfolding cleanup_mss_clamping
  cleanup_mss_clamping-Keeps = then-Keeps _ (ignore-Keeps _ (call _ refl)) (
      then-Keeps _ (ignore-Keeps _ (call _ refl))
        (then-Keeps _ (ignore-Keeps _ (call _ refl)) (ignore-Keeps _ (call _ refl))))

  pub setup_mss_clamping-Keeps : (v6 : Bool) → Keeps Safe (setup_mss_clamping os v6)
  unfolding setup_mss_clamping clamp
  setup_mss_clamping-Keeps v6 = then-Keeps _ cleanup_mss_clamping-Keeps (
      then-Keeps _ (then-Keeps _ (ignore-Keeps _ (call _ refl)) (ignore-Keeps _ (call _ refl))) (
        if-Keeps _ v6 (then-Keeps _ (ignore-Keeps _ (call _ refl)) (ignore-Keeps _ (call _ refl)))
          (pure-Keeps _ tt)))

  pub remove_pia_routes-Keeps : (fuel : ℕ) → Keeps Safe (remove_pia_routes os fuel)
  unfolding remove_pia_routes
  remove_pia_routes-Keeps fuel = then-Keeps _ (delete_all-Keeps _ _) (delete_all-Keeps _ _)

  pia_routes-Keeps : (dns : List String) → Keeps Safe (add_pia_routes os dns)
  unfolding add_pia_routes
  pia_routes-Keeps [] = pure-Keeps _ tt
  pia_routes-Keeps (d ∷ ds) =
      then-Keeps _ (ip-Keeps os nf (policy lans) _)
        (then-Keeps _ (ip-Keeps os nf (policy lans) _) (pia_routes-Keeps ds))

  pub add_pia_dns_routes-Keeps :
      (fuel : ℕ) (dns : List String) → Keeps Safe (add_pia_dns_routes os fuel dns)
  unfolding add_pia_dns_routes
  add_pia_dns_routes-Keeps fuel dns =
      then-Keeps _ (remove_pia_routes-Keeps fuel) (pia_routes-Keeps dns)

  pub add_pf_route-Keeps : (g : String) → Keeps Safe (add_pf_route os g)
  unfolding add_pf_route
  add_pf_route-Keeps g = ip-Keeps os nf (policy lans) _

  pub remove_pf_route-Keeps : (g : String) → Keeps Safe (remove_pf_route os g)
  unfolding remove_pf_route
  remove_pf_route-Keeps g =
      if-Keeps _ _ (pure-Keeps _ tt) (ignore-Keeps _ (ip-Keeps os nf (policy lans) _))
