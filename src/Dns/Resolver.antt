-- ===== src/Dns/Resolver.antt =====
-- internal/dns/resolver.go: names are resolved by bootstrap servers, under exemptions of the moment.
use pia_tun.Base.{
  String, List, [], ◌∷◌, Bool, true, false, ◌||◌, Option, none, some, str_eq, if◌then◌else◌, M,
  Result, ok, err, ◌>>=◌, pure, fail, attempt, total,
}
use pia_tun.Firewall.Os.{Os}
use pia_tun.Firewall.Exemptions.{Exemption, add_exemptions, guarded}
use pia_tun.Host.{Host, Looked, found, not_found, failed}

pub record HostResult : Type 0 where
  pub ips : List String
  pub nx_domain : Bool

abbrev pub default_servers : List String
default_servers = "149.112.112.9" ∷ "149.112.112.11" ∷ []

-- `NewExemptResolver`: the servers of the resolver.
abbrev pub dns_servers_of : List String → List String
dns_servers_of [] = default_servers
dns_servers_of (d ∷ dns) = d ∷ dns

-- A map from host names, the latest entry first.
abbrev pub HostMap : Type 0
HostMap = List (String × HostResult)

abbrev pub lookup_host : String → HostMap → Option HostResult
lookup_host h [] = none
lookup_host h ((k, r) ∷ m) = if str_eq k h then some r else lookup_host h m

abbrev pub without_host : String → HostMap → HostMap
without_host h [] = []
without_host h ((k, r) ∷ m) =
    let rest = without_host h m in if str_eq k h then rest else (k, r) ∷ rest

-- `results[h] = r`
abbrev pub put_host : String → HostResult → HostMap → HostMap
put_host h r m = (h, r) ∷ without_host h m

-- What one answer adds to `results`.
abbrev pub add_answer : String × Looked → HostMap → HostMap
add_answer (h, found ips) m = put_host h (record { ips = ips; nx_domain = false }) m
add_answer (h, not_found) m = put_host h (record { ips = []; nx_domain = true }) m
add_answer (h, failed) m = m

abbrev pub add_answers : List (String × Looked) → HostMap → HostMap
add_answers [] m = m
add_answers (a ∷ rest) m = add_answers rest (add_answer a m)

abbrev pub dns_exemption : String → String → Exemption
dns_exemption srv proto = record { ip = srv; port = "53"; proto = proto; comment = "dns_resolve" }

-- `if result, ok := m[hostname]; ok && !result.NXDomain`
abbrev pub usable : Option HostResult → Option (List String)
usable none = none
usable (some r) = if r.nx_domain then none else some r.ips

-- `isBootstrapIP`
abbrev pub is_bootstrap_ip : List String → String → Bool
is_bootstrap_ip [] ip = false
is_bootstrap_ip (srv ∷ srvs) ip = str_eq ip srv || is_bootstrap_ip srvs ip

abbrev pub overlaps : List String → List String → Bool
overlaps servers [] = false
overlaps servers (ip ∷ dns) = is_bootstrap_ip servers ip || overlaps servers dns

-- `ValidateDNS`
unfoldable pub validate_dns : List String → List String → String → Result (Unit {0})
validate_dns servers dns mode =
    if str_eq mode "system" || str_eq mode "do53"
    then (if overlaps servers dns then err [] else ok tt)
    else ok tt

-- The map of the answers; the goroutines always give theirs.
abbrev pub results_of : Result (List (String × Looked)) → HostMap
results_of (ok answers) = add_answers answers []
results_of (err e) = []

module _ (os : Os) (host : Host os.World) where
  unfoldable pub query : List String → String → M os.World HostMap
  query hostnames srv = do
    r ←
        guarded os (add_exemptions os (dns_exemption srv "udp" ∷ dns_exemption srv "tcp" ∷ []))
          (total (host.look_up srv hostnames))
    pure (results_of r)

  abbrev pub first_address :
      String → M os.World (List String) → Result HostMap → M os.World (List String)
  first_address hostname next (err e) = next
  first_address hostname next (ok m) = elim (usable (lookup_host hostname m)) [
    | none ↦ next
    | some ips ↦ pure ips
  ]

  -- The loop of `Resolve`, over the servers.
  unfoldable pub resolve_by : String → List String → M os.World (List String)
  resolve_by hostname [] = fail []
  resolve_by hostname (srv ∷ srvs) = do
    r ← attempt (query (hostname ∷ []) srv)
    first_address hostname (resolve_by hostname srvs) r

  unfoldable pub resolve : List String → String → M os.World (List String)
  resolve servers hostname = resolve_by hostname servers

  abbrev pub first_map : M os.World HostMap → Result HostMap → M os.World HostMap
  first_map next (err e) = next
  first_map next (ok []) = next
  first_map next (ok (x ∷ m)) = pure (x ∷ m)

  unfoldable pub resolve_all : List String → List String → M os.World HostMap
  resolve_all [] hostnames = fail []
  resolve_all (srv ∷ srvs) hostnames = do
    r ← attempt (query hostnames srv)
    first_map (resolve_all srvs hostnames) r
