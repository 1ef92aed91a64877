-- ===== src/App/Starting.antt =====
-- internal/app/app.go and network.go: `initialize`, `setupDNS`, `captureRealIP` and `connect`.
use pia_tun.Base.{
  String, List, [], ◌∷◌, ◌++◌, map, Bool, true, false, Option, none, some, str_eq, if◌then◌else◌, M,
  Result, ok, err, err_fatal, ◌>>=◌, ◌>>◌, pure, fail, ignore, attempt, total,
}
use pia_tun.Base.Text.{Bytes, codes}
use pia_tun.Firewall.Os.{Os}
use pia_tun.Firewall.Exemptions.{Exemption, add_exemptions, remove_exemptions}
use pia_tun.Firewall.Backend.{new as new_backend}
use pia_tun.Firewall.Killswitch.{setup, add_pia_dns_routes}
use pia_tun.Cacher.Cache.{Cache}
use pia_tun.Cacher.TokenFile.{new}
use pia_tun.Dns.Resolver.{HostMap, dns_servers_of, resolve_all, validate_dns}
use pia_tun.Dns.Proxy.{parse_upstreams, resolve_hostnames}
use pia_tun.Dns.Resolv.{read, write, clear, backup}
use pia_tun.Wg.Tunnel.{down}
use pia_tun.Vpn.Setup.{ConnectionInfo, setup as connect_vpn}
use pia_tun.Vpn.Verify.{verify_connection}
use pia_tun.Wan
use pia_tun.App.Retry.{Calls, retry_with_wan_check}
use pia_tun.App.Outside.{Config, Outside, Rounds, App, on_fw, on_cached, on_system, world}

abbrev pub ip_services : List String
ip_services = "api.ipify.org" ∷ "icanhazip.com" ∷ []

-- The targets of `captureRealIP`, a host and its first address.
abbrev pub first_target : String → List String → List (String × String)
first_target h [] = []
first_target h (ip ∷ ips) = (h, ip) ∷ []

abbrev pub targets_of : HostMap → List (String × String)
targets_of [] = []
targets_of ((h, r) ∷ m) =
    let rest = targets_of m in if r.nx_domain then rest else first_target h r.ips ++ rest

abbrev pub target_exemption : String × String → Exemption
target_exemption (h, ip) = record { ip = ip; port = "443"; proto = "tcp"; comment = h }

abbrev pub proxy_ip : Bytes
proxy_ip = codes "127.0.0.1"

abbrev pub or_empty : Option String → String
or_empty none = ""
or_empty (some s) = s

module _ (os : Os) (out : Outside os) (rounds : Rounds) (cfg : Config) where
  open os use {World}
  open out use {
    host, disk, tokens, ips, dialer, backends, listen, fetch_ip, cancelled, sleep, atoi, is_cidr,
    is_ip, text,
  }

  abbrev pub A : Type 0 → Type 0
  A X = M (App World) X

  abbrev pub get : A (App World)
  get s = (ok s, s)

  abbrev pub set_dns : List String → A (Unit {0})
  set_dns dns s = (ok tt, record s { dns = dns })

  abbrev pub set_upstreams : List (String × String) → A (Unit {0})
  set_upstreams us s = (ok tt, record s { upstreams = us })

  abbrev pub set_conn : ConnectionInfo → A (Unit {0})
  set_conn conn s = (ok tt, record s { conn = conn })

  abbrev pub set_up : Bool → A (Unit {0})
  set_up b s = (ok tt, record s { connection_up = b })

  abbrev pub set_real_ip : String → A (Unit {0})
  set_real_ip ip s = (ok tt, record s { pre_vpn_ip = ip })

  abbrev pub set_cache : Cache → A (Unit {0})
  set_cache cache s = (ok tt, record s { manager = record s.manager { cache = cache } })

  abbrev pub of_result : {X : Type 0} → Result X → A X
  of_result (ok x) = pure x
  of_result (err e) = fail e

  -- An error that is passed on as a fatal one.
  abbrev pub or_fatal : {X : Type 0} → Result X → A X
  or_fatal (ok x) = pure x
  or_fatal (err e) = fail (err_fatal ∷ [])

  abbrev pub resolvers : List String
  resolvers = dns_servers_of cfg.bootstrap_dns

  -- `dotProxy.Setup` with `start`.
  abbrev pub setup_proxy : A (Unit {0})
  setup_proxy = do
    set_upstreams []
    names ← of_result (parse_upstreams is_ip cfg.dns)
    us ← on_system (resolve_hostnames os host resolvers [] names)
    set_upstreams us
    r ← attempt (on_system (listen >> write disk (proxy_ip ∷ [])))
    or_fatal r

  unfoldable pub setup_dns : A (Unit {0})
  setup_dns =
      if str_eq cfg.dns_mode "pia"
      then pure tt
      else if str_eq cfg.dns_mode "system"
      then (attempt (on_system (read disk)) >>= or_fatal >>= λ servers. set_dns (map text servers))
      else if str_eq cfg.dns_mode "do53"
      then (attempt (on_system (write disk (map codes cfg.dns))) >>= or_fatal)
      else if str_eq cfg.dns_mode "dot"
      then (on_system (down host rounds.deletions) >> setup_proxy)
      else fail []

  abbrev pub fetched : HostMap → A (Unit {0})
  fetched [] = set_real_ip ""
  fetched (x ∷ m) = do
    let targets = targets_of (x ∷ m)
    ignore (on_system (add_exemptions os (map target_exemption targets)))
    ip ← on_system (total (fetch_ip targets))
    on_system (remove_exemptions os)
    set_real_ip (or_empty ip)

  abbrev pub hosts_of : Result HostMap → HostMap
  hosts_of (ok m) = m
  hosts_of (err e) = []

  unfoldable pub capture_real_ip : A (Unit {0})
  capture_real_ip = do
    r ← attempt (on_system (resolve_all os host resolvers ip_services))
    fetched (hosts_of r)

  unfoldable pub connect : A (Unit {0})
  connect = do
    on_system (down host rounds.deletions)
    conn ← on_cached (connect_vpn os host atoi resolvers cfg.vpn)
    set_conn conn
    if str_eq cfg.dns_mode "pia"
        then (on_system (write disk (map codes conn.dns))
            >> on_system (add_pia_dns_routes os rounds.deletions conn.dns))
        else pure tt
    s ← get
    on_system (verify_connection host ips atoi 60 s.pre_vpn_ip)
    set_up true

  abbrev pub on_world_of : {X : Type 0} → (World → X × World) → App World → X × App World
  on_world_of f s =
      let (x, w) = f (world s) in
      (x, record s { manager = record s.manager { fw = record s.manager.fw { world = w } } })

  abbrev pub returned : Option (Result (Unit {0})) → Bool
  returned none = false
  returned (some r) = true

  -- Whether `WaitForUp` has returned, with or without an error, which its callers do not look at.
  abbrev pub waited : World → Bool × World
  waited w = let (r, v) = Wan.wait_for_up dialer rounds.waits w in (returned r, v)

  -- What `retryWithWANCheck` calls to retry a function of the app.
  abbrev pub calls : A (Unit {0}) → Calls (App World)
  calls fn = record {
    attempt = fn;
    cancelled = λ s. cancelled (world s);
    check = on_world_of (Wan.check dialer);
    wait_for_up = on_world_of waited;
    sleep = λ n. on_world_of (sleep n);
  }

  -- A retry that is not over when its rounds, or those of a wait in it, are used up counts as failed.
  abbrev pub over : Option (Result (Unit {0})) × App World → Result (Unit {0}) × App World
  over (none, s) = (err [], s)
  over (some r, s) = (r, s)

  unfoldable pub retry : A (Unit {0}) → A (Unit {0})
  retry fn s = over (retry_with_wan_check (calls fn) rounds.retries s)

  abbrev pub save_dns : A (Unit {0})
  save_dns =
      if str_eq cfg.dns_mode "system"
      then pure tt
      else (on_system (backup disk) >> on_system (clear disk))

  abbrev pub real_ip : A (Unit {0})
  real_ip = if cfg.get_real_ip then capture_real_ip else pure tt

  abbrev pub check_dns : A (Unit {0})
  check_dns = do s ← get; of_result (validate_dns resolvers s.dns cfg.dns_mode)

  unfoldable pub initialize : A (Unit {0})
  initialize = do
    save_dns
    backend ← on_system (new_backend backends cfg.ipt_backend)
    lans ← on_fw (setup os is_cidr rounds.deletions cfg.killswitch)
    retry setup_dns
    check_dns
    real_ip
    cache ← on_system (new host tokens)
    set_cache cache
