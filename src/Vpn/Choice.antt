-- ===== src/Vpn/Choice.antt =====
-- The parts of internal/vpn/servers.go that make calls: the list of servers, the race, `selectServer`.
use pia_tun.Base.{
  ℕ, String, List, [], ◌∷◌, map, true, false, not, Option, none, some, str_eq, if◌then◌else◌, M,
  Result, ok, err, err_fatal, ◌>>=◌, ◌>>◌, pure, fail, attempt, total,
}
use pia_tun.Firewall.Os.{Os}
use pia_tun.Firewall.Exemptions.{Exemption, add_exemption, add_exemptions, guarded}
use pia_tun.Pia.Types.{Server}
use pia_tun.Pia.Client.{fetch_server_list}
use pia_tun.Host.{Host}
use pia_tun.Cacher.Cache.{
  Cached, on_host, get_cache, merge_server_list_ips, cache_servers, clear_server_list_ips,
  serverlist_hostname,
}
use pia_tun.Dns.Resolver.{resolve}
use pia_tun.Vpn.Servers.{filter_servers, one_per_region, collect, chosen, is_empty}
use pia_tun.Vpn.Login.{Config, returned_value}

abbrev pub race_exemption : Server → Exemption
race_exemption srv = record { ip = srv.ip; port = "1337"; proto = "tcp"; comment = srv.cn }

abbrev pub ip_of : Server → String
ip_of srv = srv.ip

module _ (os : Os) (host : Host os.World) (atoi : String → ℕ) (dns_servers : List String) where
  open os use {World}
  open host use {web, itoa}

  -- `M` over the cache and the system.
  abbrev pub V : Type 0 → Type 0
  V A = M (Cached World) A

  -- One round of `tryServerListIPs`, which goes on to the next address on any error.
  abbrev pub fetch_from : String → V (List Server)
  fetch_from ip = do
    r ← on_host (guarded os (add_exemption os ip "443" "tcp") (fetch_server_list web ip))
    returned_value os host atoi dns_servers r

  abbrev pub or_next : V (List Server) → Result (List Server) → V (List Server)
  or_next next (ok servers) = pure servers
  or_next next (err e) = next

  unfoldable pub try_server_list_ips : List String → V (List Server)
  try_server_list_ips [] = fail []
  try_server_list_ips (ip ∷ ips) = do
    r ← attempt (fetch_from ip)
    or_next (try_server_list_ips ips) r

  abbrev pub known_server_list_ips : List String → V (Unit {0})
  known_server_list_ips [] = do
    ips ← on_host (resolve os host dns_servers serverlist_hostname)
    merge_server_list_ips ips
  known_server_list_ips (ip ∷ ips) = pure tt

  abbrev pub cached_servers : Result (List Server) → V (Unit {0})
  cached_servers (ok servers) = cache_servers servers
  cached_servers (err e) = do clear_server_list_ips; fail e

  unfoldable pub get_servers : V (Unit {0})
  get_servers = do
    c ← get_cache
    known_server_list_ips c.server_list_ips
    d ← get_cache
    r ← attempt (try_server_list_ips d.server_list_ips)
    cached_servers r

  abbrev pub returned_choice : Option (Server × ℕ) → V (Server × ℕ)
  returned_choice none = fail []
  returned_choice (some choice) = pure choice

  unfoldable pub race_servers : List Server → V (Server × ℕ)
  race_servers [] = fail []
  race_servers (srv ∷ srvs) = do
    r ← on_host (
        guarded os (add_exemptions os (map race_exemption (srv ∷ srvs)))
          (total (host.race (map ip_of (srv ∷ srvs)))))
    race ← returned_value os host atoi dns_servers r
    returned_choice (chosen srv (srv ∷ srvs) (collect [] race))

  -- `selectServer`. The first test is of the region, the second of port forwarding.
  abbrev pub candidates_of : Config → List Server → Result (List Server)
  candidates_of cfg servers =
      if str_eq cfg.location "all"
      then ok (one_per_region (filter_servers servers cfg.location cfg.pf_required))
      else if is_empty (filter_servers servers cfg.location false)
      then err (err_fatal ∷ [])
      else if not cfg.pf_required
      then ok (filter_servers servers cfg.location false)
      else if is_empty (filter_servers servers cfg.location true)
      then err (err_fatal ∷ [])
      else ok (filter_servers servers cfg.location true)

  abbrev pub race_among : Result (List Server) → V (Server × ℕ)
  race_among (ok candidates) = race_servers candidates
  race_among (err e) = fail e

  unfoldable pub select_server : Config → V (Server × ℕ)
  select_server cfg = do c ← get_cache; race_among (candidates_of cfg c.servers)
