-- ===== src/Firewall/Killswitch.antt =====
-- internal/firewall/killswitch.go, with bypass.go, mss.go, routing.go and the forwarded port of
-- vpnrules.go: the methods that build the killswitch, and those that open and close a port.
use pia_tun.Base.{
  ℕ, String, List, [], ◌∷◌, Bool, true, false, ◌==◌, if◌then◌else◌, M, ok, ◌>>=◌, ◌>>◌, pure,
  ignore, str_eq,
}
use pia_tun.Base.Text.{codes, contains}
use pia_tun.Firewall.Os.{
  Os, Key, Family, ipv4, ipv6, forward, output, vpn_in, vpn_in6, vpn_out6, mangle, Spec, append,
  insert, delete,
}
use pia_tun.Firewall.Chains.{
  in_filter, chain_defs, setup_baseline_chains, cleanup_chains, insert_before_drop,
  verify_killswitch,
}
use pia_tun.Firewall.Exemptions.{add_vpn, remove_exemptions, out_key, port_insert_pos}
use pia_tun.Firewall.LocalNetworks.{
  Lans, no_lans, setup_local_networks, cleanup_local_routes, delete_all,
}

abbrev pub wan_check_ips : List String
wan_check_ips = "129.6.15.29" ∷ "132.163.97.2" ∷ []

abbrev pub bypass_spec : String → Spec
bypass_spec ip = "-p" ∷ "tcp" ∷ "--dport" ∷ "13" ∷ "-d" ∷ ip ∷ "-j" ∷ "ACCEPT" ∷ []

abbrev pub icmpv6_spec : Spec
icmpv6_spec = "-p" ∷ "ipv6-icmp" ∷ "-j" ∷ "ACCEPT" ∷ []

abbrev pub mss_rule_spec : Spec
mss_rule_spec =
    "-p" ∷ "tcp" ∷ "--tcp-flags" ∷ "SYN,RST" ∷ "SYN" ∷ "-j" ∷ "TCPMSS" ∷ "--clamp-mss-to-pmtu" ∷ []

abbrev pub in_mangle : Family → Key
in_mangle f = record { family = f; table = mangle; chain = forward }

abbrev pub out_mangle : Family → Key
out_mangle f = record { family = f; table = mangle; chain = output }

abbrev pub port_spec : String → String → Spec
port_spec proto port = "-i" ∷ "pia0" ∷ "-p" ∷ proto ∷ "--dport" ∷ port ∷ "-j" ∷ "ACCEPT" ∷ []

abbrev pub in_key : Key
in_key = in_filter ipv4 vpn_in

pub record KillswitchConfig : Type 0 where
  pub lans : String
  pub ipv6_enabled : Bool

-- The fields of `Firewall` that change, over the state of the system. Port 0 is no port.
pub record Firewall (W : Type 0) : Type 0 where
  pub active : Bool
  pub active_port : ℕ
  pub world : W

module _ (os : Os) where
  open os use {World, iptables, ip}

  unfoldable pub cleanup_bypass_routes : ℕ → M World (Unit {0})
  cleanup_bypass_routes fuel = delete_all os fuel ("rule" ∷ "del" ∷ "priority" ∷ "50" ∷ [])

  unfoldable pub add_bypass_routes : List String → M World (Unit {0})
  add_bypass_routes [] = pure tt
  add_bypass_routes (n ∷ ns) = do
    ip ("rule" ∷ "add" ∷ "to" ∷ n ∷ "table" ∷ "main" ∷ "priority" ∷ "50" ∷ [])
    add_bypass_routes ns

  unfoldable pub setup_bypass_routes : ℕ → M World (Unit {0})
  setup_bypass_routes fuel = do cleanup_bypass_routes fuel; add_bypass_routes wan_check_ips

  unfoldable pub insert_bypass_rules : List String → M World (Unit {0})
  insert_bypass_rules [] = pure tt
  insert_bypass_rules (n ∷ ns) = do
    insert_before_drop os out_key (bypass_spec n)
    insert_bypass_rules ns

  unfoldable pub setup_bypass : ℕ → M World (Unit {0})
  setup_bypass fuel = do setup_bypass_routes fuel; insert_bypass_rules wan_check_ips

  unfoldable pub cleanup_mss_clamping : M World (Unit {0})
  cleanup_mss_clamping = do
    ignore (iptables (delete (in_mangle ipv4) mss_rule_spec))
    ignore (iptables (delete (out_mangle ipv4) mss_rule_spec))
    ignore (iptables (delete (in_mangle ipv6) mss_rule_spec))
    ignore (iptables (delete (out_mangle ipv6) mss_rule_spec))

  unfoldable pub clamp : Family → M World (Unit {0})
  clamp f = do
    ignore (iptables (append (in_mangle f) mss_rule_spec))
    ignore (iptables (append (out_mangle f) mss_rule_spec))

  unfoldable pub setup_mss_clamping : Bool → M World (Unit {0})
  setup_mss_clamping ipv6_enabled = do
    cleanup_mss_clamping
    clamp ipv4
    if ipv6_enabled then clamp ipv6 else pure tt

  unfoldable pub remove_pia_routes : ℕ → M World (Unit {0})
  remove_pia_routes fuel = do
    delete_all os fuel ("rule" ∷ "delete" ∷ "prio" ∷ "76" ∷ [])
    delete_all os fuel ("rule" ∷ "delete" ∷ "prio" ∷ "75" ∷ [])

  unfoldable pub add_pia_routes : List String → M World (Unit {0})
  add_pia_routes [] = pure tt
  add_pia_routes (d ∷ ds) = do
    ip ("rule" ∷ "add" ∷ "to" ∷ d ∷ "unreachable" ∷ "priority" ∷ "76" ∷ [])
    ip ("rule" ∷ "add" ∷ "to" ∷ d ∷ "lookup" ∷ "51820" ∷ "priority" ∷ "75" ∷ [])
    add_pia_routes ds

  unfoldable pub add_pia_dns_routes : ℕ → List String → M World (Unit {0})
  add_pia_dns_routes fuel dns = do remove_pia_routes fuel; add_pia_routes dns

  unfoldable pub add_pf_route : String → M World (Unit {0})
  add_pf_route gateway =
      ip ("rule" ∷ "add" ∷ "to" ∷ gateway ∷ "lookup" ∷ "51820" ∷ "priority" ∷ "75" ∷ [])

  unfoldable pub remove_pf_route : String → M World (Unit {0})
  remove_pf_route gateway =
      if str_eq gateway ""
      then pure tt
      else ignore
          (ip ("rule" ∷ "del" ∷ "to" ∷ gateway ∷ "lookup" ∷ "51820" ∷ "priority" ∷ "75" ∷ []))

  unfoldable pub icmpv6_rules : M World (Unit {0})
  icmpv6_rules = do
    insert_before_drop os (in_filter ipv6 vpn_in6) icmpv6_spec
    insert_before_drop os (in_filter ipv6 vpn_out6) icmpv6_spec

  -- `Setup` behind the local networks, which it has logged.
  unfoldable pub setup_rest : ℕ → Bool → Lans → M World Lans
  setup_rest fuel ipv6_enabled lans = do
    add_vpn os ipv6_enabled
    setup_bypass fuel
    if ipv6_enabled then icmpv6_rules else pure tt
    setup_mss_clamping ipv6_enabled
    verify_killswitch os
    pure lans

  unfoldable pub local_networks : (String → Bool) → ℕ → String → M World Lans
  local_networks is_cidr fuel setting =
      if contains (codes setting) (codes "none")
      then pure no_lans
      else setup_local_networks os is_cidr fuel setting

  -- What `Setup` does to the system, all but `fw.active = true`. Its result is the networks.
  unfoldable pub build_killswitch : (String → Bool) → ℕ → KillswitchConfig → M World Lans
  build_killswitch is_cidr fuel cfg = do
    setup_baseline_chains os
    lans ← local_networks is_cidr fuel cfg.lans
    setup_rest fuel cfg.ipv6_enabled lans

  abbrev pub on_world : {A : Type 0} → M World A → M (Firewall World) A
  on_world m fw = let (r, w) = m fw.world in (r, record fw { world = w })

  abbrev pub set_active : Bool → M (Firewall World) (Unit {0})
  set_active b fw = (ok tt, record fw { active = b })

  abbrev pub set_active_port : ℕ → M (Firewall World) (Unit {0})
  set_active_port n fw = (ok tt, record fw { active_port = n })

  unfoldable pub setup : (String → Bool) → ℕ → KillswitchConfig → M (Firewall World) Lans
  setup is_cidr fuel cfg = do
    lans ← on_world (build_killswitch is_cidr fuel cfg)
    set_active true
    pure lans

  unfoldable pub cleanup : ℕ → M (Firewall World) (Unit {0})
  cleanup fuel = do
    set_active false
    on_world (remove_pia_routes fuel)
    on_world (cleanup_local_routes os fuel)
    on_world cleanup_mss_clamping
    on_world (cleanup_bypass_routes fuel)
    on_world (remove_exemptions os)
    on_world (cleanup_chains os chain_defs)

  -- `itoa` is `strconv.Itoa`.
  abbrev pub remove_port : (ℕ → String) → ℕ → M World (Unit {0})
  remove_port itoa port = do
    ignore (iptables (delete in_key (port_spec "tcp" (itoa port))))
    ignore (iptables (delete in_key (port_spec "udp" (itoa port))))

  unfoldable pub remove_forwarded_port : (ℕ → String) → M (Firewall World) (Unit {0})
  remove_forwarded_port itoa fw =
      (if fw.active_port == 0 then pure tt else on_world (remove_port itoa fw.active_port)) fw

  unfoldable pub allow_forwarded_port : (ℕ → String) → ℕ → M (Firewall World) (Unit {0})
  allow_forwarded_port itoa port = do
    remove_forwarded_port itoa
    on_world (iptables (insert in_key port_insert_pos (port_spec "tcp" (itoa port))))
    on_world (iptables (insert in_key port_insert_pos (port_spec "udp" (itoa port))))
    set_active_port port
