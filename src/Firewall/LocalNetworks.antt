-- ===== src/Firewall/LocalNetworks.antt =====
-- internal/firewall/localnetworks.go: networks that stay outside the tunnel.
use pia_tun.Base.{
  ℕ, zero, suc, String, List, [], ◌∷◌, ◌++◌, Bool, true, not, ◌&&◌, str_eq, if◌then◌else◌, M,
  Result, ok, err, ◌>>=◌, ◌>>◌, pure, attempt,
}
use pia_tun.Base.Text.{
  codes, chars, contains, has_prefix, split, split_chars, trim_space, of_chars, fields, trimmed,
  texts,
}
use pia_tun.Firewall.Os.{Os, ipv4, ipv6, vpn_in, vpn_out, vpn_in6, vpn_out6, Spec}
use pia_tun.Firewall.Chains.{in_filter, insert_before_drop}

-- The IPv4 and the IPv6 networks.
pub record Lans : Type 0 where
  pub v4 : List String
  pub v6 : List String

abbrev pub no_lans : Lans
no_lans = record { v4 = []; v6 = [] }

-- The first field of a line of `ip route show`, if it is a subnet that `keep` accepts.
abbrev pub subnet_of : (String → Bool) → List String → List String
subnet_of keep [] = []
subnet_of keep (f ∷ fs) = if contains (codes f) (codes "/") && keep f then f ∷ [] else []

abbrev pub subnets_of : (String → Bool) → List String → List String
subnets_of keep [] = []
subnets_of keep (l ∷ ls) = subnet_of keep (fields l) ++ subnets_of keep ls

abbrev pub kernel_subnets : (String → Bool) → Result String → List String
kernel_subnets keep (err e) = []
kernel_subnets keep (ok out) = subnets_of keep (split b'\n' (of_chars (trim_space (chars out))))

abbrev pub not_link_local : String → Bool
not_link_local f = not (has_prefix (codes f) (codes "fe80"))

abbrev pub kernel_routes : String → List String
kernel_routes flag = flag ∷ "route" ∷ "show" ∷ "proto" ∷ "kernel" ∷ []

-- The subnets of both families; link-local ones are left out.
abbrev pub detected : Result String → Result String → Lans
detected out4 out6 = record {
  v4 = kernel_subnets (λ _. true) out4;
  v6 = kernel_subnets not_link_local out6;
}

-- One entry of LOCAL_NETWORKS; `is_cidr` is `net.ParseCIDR` succeeding.
abbrev pub add_part : (String → Bool) → Lans → String → Lans
add_part is_cidr l part =
    if str_eq part ""
    then l
    else if str_eq part "all"
    then record {
      v4 = l.v4 ++ ("10.0.0.0/8" ∷ "172.16.0.0/12" ∷ "192.168.0.0/16" ∷ []);
      v6 = l.v6 ++ ("fc00::/7" ∷ []);
    }
    else if not (is_cidr part)
    then l
    else if contains (codes part) (codes ":")
    then record { v4 = l.v4; v6 = l.v6 ++ (part ∷ []) }
    else record { v4 = l.v4 ++ (part ∷ []); v6 = l.v6 }

abbrev pub add_parts : (String → Bool) → Lans → List String → Lans
add_parts is_cidr l [] = l
add_parts is_cidr l (p ∷ ps) = add_parts is_cidr (add_part is_cidr l p) ps

-- The comma-separated parts of the setting, trimmed.
abbrev pub parts_of : String → List String
parts_of input = texts (trimmed (split_chars (b',' ∷ []) (chars input)))

-- A rule made by `ip rule add to NETWORK table main priority 100`.
abbrev pub route_args : String → List String
route_args network = "rule" ∷ "add" ∷ "to" ∷ network ∷ "table" ∷ "main" ∷ "priority" ∷ "100" ∷ []

abbrev pub source_rule : String → Spec
source_rule network = "-s" ∷ network ∷ "-j" ∷ "ACCEPT" ∷ []

abbrev pub destination_rule : String → Spec
destination_rule network = "-d" ∷ network ∷ "-j" ∷ "ACCEPT" ∷ []

module _ (os : Os) where
  open os use {World, ip, ip_output}

  -- `for { if err := exec.Command("ip", args...).Run(); err != nil { break } }`, on fuel.
  abbrev pub while_ok : M World (Unit {0}) → Result (Unit {0}) → M World (Unit {0})
  while_ok again (ok _) = again
  while_ok again (err e) = pure tt

  unfoldable pub delete_all : ℕ → List String → M World (Unit {0})
  delete_all zero args = pure tt
  delete_all (suc fuel) args = do r ← attempt (ip args); while_ok (delete_all fuel args) r

  unfoldable pub cleanup_local_routes : ℕ → M World (Unit {0})
  cleanup_local_routes fuel = do
    delete_all fuel ("rule" ∷ "del" ∷ "priority" ∷ "100" ∷ [])
    delete_all fuel ("-6" ∷ "rule" ∷ "del" ∷ "priority" ∷ "100" ∷ [])

  unfoldable pub add_routes : List String → List String → M World (Unit {0})
  add_routes flags [] = pure tt
  add_routes flags (n ∷ ns) = do ip (flags ++ route_args n); add_routes flags ns

  unfoldable pub setup_local_routes : ℕ → Lans → M World (Unit {0})
  setup_local_routes fuel l = do
    cleanup_local_routes fuel
    add_routes [] l.v4
    add_routes ("-6" ∷ []) l.v6

  unfoldable pub local_rules_v4 : List String → M World (Unit {0})
  local_rules_v4 [] = pure tt
  local_rules_v4 (n ∷ ns) = do
    insert_before_drop os (in_filter ipv4 vpn_in) (source_rule n)
    insert_before_drop os (in_filter ipv4 vpn_out) (destination_rule n)
    local_rules_v4 ns

  unfoldable pub local_rules_v6 : List String → M World (Unit {0})
  local_rules_v6 [] = pure tt
  local_rules_v6 (n ∷ ns) = do
    insert_before_drop os (in_filter ipv6 vpn_in6) (source_rule n)
    insert_before_drop os (in_filter ipv6 vpn_out6) (destination_rule n)
    local_rules_v6 ns

  unfoldable pub setup_local_rules : Lans → M World (Unit {0})
  setup_local_rules l = do local_rules_v4 l.v4; local_rules_v6 l.v6

  unfoldable pub detect_kernel_subnets : M World Lans
  detect_kernel_subnets = do
    out4 ← attempt (ip_output (kernel_routes "-4"))
    out6 ← attempt (ip_output (kernel_routes "-6"))
    pure (detected out4 out6)

  unfoldable pub resolve_local_networks : (String → Bool) → String → M World Lans
  resolve_local_networks is_cidr setting = do
    found ← if contains (codes setting) (codes "all") then pure no_lans else detect_kernel_subnets
    pure (add_parts is_cidr found (parts_of setting))

  -- The routes and the rules of the networks, which the code also formats for its log.
  unfoldable pub setup_networks : ℕ → Lans → M World Lans
  setup_networks fuel l = do setup_local_routes fuel l; setup_local_rules l; pure l

  unfoldable pub setup_local_networks : (String → Bool) → ℕ → String → M World Lans
  setup_local_networks is_cidr fuel setting = do
    l ← resolve_local_networks is_cidr setting
    setup_networks fuel l
