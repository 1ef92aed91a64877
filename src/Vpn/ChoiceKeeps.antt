-- ===== src/Vpn/ChoiceKeeps.antt =====
-- The steps of Vpn/Choice keep what each exemption and each call keeps.
use pia_tun.Base.{
  ℕ, String, List, [], ◌∷◌, map, Option, none, some, M, Result, ok, err, Keeps, total,
}
use pia_tun.Base.Sequences.{bind-Keeps, then-Keeps, attempt-Keeps, pure-Keeps, fail-Keeps}
use pia_tun.Firewall.Os.{Os, Netfilter}
use pia_tun.Host.{Host}
use pia_tun.Pia.Types.{Server}
use pia_tun.Pia.Client.{fetch_server_list}
use pia_tun.Pia.Requests.{fetch_server_list-Keeps}
use pia_tun.Cacher.Cache.{Cached, on_host, get_cache, serverlist_hostname}
use pia_tun.Vpn.Servers.{collect, chosen}
use pia_tun.Vpn.Login.{Config}
use pia_tun.Vpn.Choice.{
  race_exemption, ip_of, fetch_from, or_next, try_server_list_ips, known_server_list_ips,
  cached_servers, get_servers, returned_choice, race_servers, candidates_of, race_among,
  select_server,
}
use pia_tun.Vpn.Steps.{
  Calm, Bears, Pv, on_host-Keeps, get_cache-Keeps, merge_server_list_ips-Keeps, cache_servers-Keeps,
  clear_server_list_ips-Keeps, resolve-Keeps,
}
use pia_tun.Vpn.LoginKeeps.{returned_value-Keeps}

module _ (os : Os) (nf : Netfilter os) (host : Host os.World) (calm : Calm os nf host)
    (P : os.World → Type 0) (bears : Bears os nf host P) (atoi : String → ℕ)
    (dns : List String) where
  abbrev Pw : Cached os.World → Type 0
  Pw = Pv os nf host calm P bears

  on : {A : Type 0} {m : M os.World A} → Keeps P m → Keeps Pw (on_host m)
  on h = on_host-Keeps os nf host calm P bears h

  cache-Keeps : Keeps Pw get_cache
  cache-Keeps = get_cache-Keeps os nf host calm P bears

  fetch_from-Keeps : (ip : String) → Keeps Pw (fetch_from os host atoi dns ip)
  fetch_from-Keeps ip =
      bind-Keeps Pw
        (on (
          bears.exemption ip "443" "tcp" (fetch_server_list host.web ip)
            (λ t. fetch_server_list-Keeps host.web _ (calm t).send (calm t).get_cert_pool ip)))
        (returned_value-Keeps os nf host calm P bears atoi dns)

  or_next-Keeps :
      (next : M (Cached os.World) (List Server)) (r : Result (List Server))
      → Keeps Pw next
      → Keeps Pw (or_next os host atoi dns next r)
  or_next-Keeps next (ok servers) h = pure-Keeps Pw servers
  or_next-Keeps next (err e) h = h

  try_server_list_ips-Keeps :
      (ips : List String) → Keeps Pw (try_server_list_ips os host atoi dns ips)
  unfolding try_server_list_ips
  try_server_list_ips-Keeps [] = fail-Keeps Pw []
  try_server_list_ips-Keeps (ip ∷ ips) =
      bind-Keeps Pw (attempt-Keeps Pw (fetch_from-Keeps ip)) (λ r.
        or_next-Keeps (try_server_list_ips os host atoi dns ips) r (try_server_list_ips-Keeps ips))

  known_server_list_ips-Keeps :
      (ips : List String) → Keeps Pw (known_server_list_ips os host atoi dns ips)
  known_server_list_ips-Keeps [] =
      bind-Keeps Pw (on (resolve-Keeps os nf host calm P bears dns serverlist_hostname))
        (merge_server_list_ips-Keeps os nf host calm P bears)
  known_server_list_ips-Keeps (ip ∷ ips) = pure-Keeps Pw tt

  cached_servers-Keeps : (r : Result (List Server)) → Keeps Pw (cached_servers os host atoi dns r)
  cached_servers-Keeps (ok servers) = cache_servers-Keeps os nf host calm P bears servers
  cached_servers-Keeps (err e) =
      then-Keeps Pw (clear_server_list_ips-Keeps os nf host calm P bears) (fail-Keeps Pw e)

  pub get_servers-Keeps : Keeps Pw (get_servers os host atoi dns)
  unfolding get_servers
  get_servers-Keeps = bind-Keeps Pw cache-Keeps (λ c.
      then-Keeps Pw (known_server_list_ips-Keeps c.server_list_ips) (
        bind-Keeps Pw cache-Keeps (λ d.
          bind-Keeps Pw (attempt-Keeps Pw (try_server_list_ips-Keeps d.server_list_ips))
            cached_servers-Keeps)))

  returned_choice-Keeps : (o : Option (Server × ℕ)) → Keeps Pw (returned_choice os host atoi dns o)
  returned_choice-Keeps none = fail-Keeps Pw []
  returned_choice-Keeps (some choice) = pure-Keeps Pw choice

  race_servers-Keeps : (srvs : List Server) → Keeps Pw (race_servers os host atoi dns srvs)
  unfolding race_servers
  race_servers-Keeps [] = fail-Keeps Pw []
  race_servers-Keeps (srv ∷ srvs) =
      bind-Keeps Pw
        (on (
          bears.exemptions (map race_exemption (srv ∷ srvs))
            (total (host.race (map ip_of (srv ∷ srvs))))
            (λ t. (calm t).race (map ip_of (srv ∷ srvs)))))
        (λ r.
          bind-Keeps Pw (returned_value-Keeps os nf host calm P bears atoi dns r)
            (λ race. returned_choice-Keeps (chosen srv (srv ∷ srvs) (collect [] race))))

  race_among-Keeps : (r : Result (List Server)) → Keeps Pw (race_among os host atoi dns r)
  race_among-Keeps (ok candidates) = race_servers-Keeps candidates
  race_among-Keeps (err e) = fail-Keeps Pw e

  pub select_server-Keeps : (cfg : Config) → Keeps Pw (select_server os host atoi dns cfg)
  unfolding select_server
  select_server-Keeps cfg =
      bind-Keeps Pw cache-Keeps
        (λ c. race_among-Keeps (candidates_of os host atoi dns cfg c.servers))
