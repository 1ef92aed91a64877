-- ===== src/App/StartingKeeps.antt =====
-- Each part of `initialize` and `connect` of internal/app keeps a closed killswitch.
use pia_tun.Base.{
  String, List, [], ◌∷◌, Bool, true, none, some, str_eq, map, M, Result, ok, err, Keeps, ◌>>=◌,
}
use pia_tun.Base.Text.{Bytes, codes}
use pia_tun.Base.Sequences.{
  bind-Keeps, then-Keeps, ignore-Keeps, attempt-Keeps, pure-Keeps, fail-Keeps, if-Keeps,
}
use pia_tun.Firewall.Os.{Os, Netfilter}
use pia_tun.Firewall.LocalNetworks.{Lans}
use pia_tun.Firewall.KeepsClosed.{Closed}
use pia_tun.Firewall.Policy.{policy}
use pia_tun.Firewall.NeverOpens.{
  add_exemptions-Keeps, remove_exemptions-Keeps, add_pia_dns_routes-Keeps,
}
use pia_tun.Cacher.Cache.{Cache}
use pia_tun.Cacher.TokenFile.{new}
use pia_tun.Dns.Proxy.{parse_upstreams}
use pia_tun.Dns.Resolver.{HostMap, validate_dns}
use pia_tun.Wg.Calls.{down-Keeps}
use pia_tun.Vpn.Setup.{ConnectionInfo}
use pia_tun.Vpn.Steps.{Calm, Bears}
use pia_tun.Vpn.SetupKeeps.{setup-Keeps}
use pia_tun.Wg.Tunnel.{down}
use pia_tun.Dns.Resolv.{write}
use pia_tun.App.Retry.{Outcome}
use pia_tun.App.Retrying.{CallsKeep, retry_with_wan_check_keeps}
use pia_tun.App.Outside.{Config, Outside, Rounds, App, on_system, world}
use pia_tun.App.Starting.{
  get, set_dns, set_upstreams, set_conn, set_up, set_real_ip, set_cache, of_result, or_fatal,
  resolvers, setup_proxy, setup_dns, fetched, hosts_of, or_empty, capture_real_ip, connect, calls,
  over, on_world_of, waited, retry, real_ip, check_dns,
}
use pia_tun.App.Up.{Up, on_system-Keeps, on_cached-Keeps}
use pia_tun.App.Parts.{
  OutsideKeeps, new-Keeps, read-Keeps, write-Keeps, resolve_all-Keeps, resolve_hostnames-Keeps,
  verify_connection-Keeps,
}
use pia_tun.App.Checking.{check_wan-keeps, wait_for_up-keeps}

module _ (os : Os) (nf : Netfilter os) (lans : Lans) (out : Outside os) (calm : Calm os nf out.host)
    (bears : Bears os nf out.host (Closed os nf (policy lans)))
    (keeps : OutsideKeeps out (Closed os nf (policy lans))) (rounds : Rounds) (cfg : Config) where
  open out use {host, disk}

  abbrev Safe : os.World → Type 0
  Safe = Closed os nf (policy lans)

  abbrev pub U : App os.World → Type 0
  U = Up os nf lans

  pub get-Keeps : Keeps U (get os out rounds cfg)
  get-Keeps = record { after = λ s p. p }

  pub set_up-Keeps : (b : Bool) → Keeps U (set_up os out rounds cfg b)
  set_up-Keeps b = record { after = λ s p. p }

  set_dns-Keeps : (dns : List String) → Keeps U (set_dns os out rounds cfg dns)
  set_dns-Keeps dns = record { after = λ s p. p }

  set_upstreams-Keeps : (us : List (String × String)) → Keeps U (set_upstreams os out rounds cfg us)
  set_upstreams-Keeps us = record { after = λ s p. p }

  set_conn-Keeps : (conn : ConnectionInfo) → Keeps U (set_conn os out rounds cfg conn)
  set_conn-Keeps conn = record { after = λ s p. p }

  set_real_ip-Keeps : (ip : String) → Keeps U (set_real_ip os out rounds cfg ip)
  set_real_ip-Keeps ip = record { after = λ s p. p }

  set_cache-Keeps : (cache : Cache) → Keeps U (set_cache os out rounds cfg cache)
  set_cache-Keeps cache = record { after = λ s p. p }

  pub of_result-Keeps : {A : Type 0} (r : Result A) → Keeps U (of_result os out rounds cfg r)
  of_result-Keeps (ok x) = pure-Keeps U x
  of_result-Keeps (err e) = fail-Keeps U e

  or_fatal-Keeps : {A : Type 0} (r : Result A) → Keeps U (or_fatal os out rounds cfg r)
  or_fatal-Keeps (ok x) = pure-Keeps U x
  or_fatal-Keeps (err e) = fail-Keeps U _

  pub down_keeps : Keeps U (on_system (down host rounds.deletions))
  down_keeps = on_system-Keeps os nf lans (down-Keeps host Safe bears.calls rounds.deletions)

  write_keeps : (servers : List Bytes) → Keeps U (on_system (write disk servers))
  write_keeps servers =
      on_system-Keeps os nf lans (write-Keeps os nf out calm Safe bears keeps servers)

  pub connect-Keeps : Keeps U (connect os out rounds cfg)
  unfolding connect
  connect-Keeps = then-Keeps U down_keeps (
      bind-Keeps U
        (on_cached-Keeps os nf lans
          (setup-Keeps os nf host calm Safe bears out.atoi (resolvers os out rounds cfg) cfg.vpn))
        (λ conn. then-Keeps U (set_conn-Keeps conn) (
          then-Keeps U
            (if-Keeps U (str_eq cfg.dns_mode "pia")
              (then-Keeps U (write_keeps (map codes conn.dns)) (
                on_system-Keeps os nf lans
                  (add_pia_dns_routes-Keeps os nf lans rounds.deletions conn.dns)))
              (pure-Keeps U tt))
            (bind-Keeps U get-Keeps (λ s.
              then-Keeps U
                (on_system-Keeps os nf lans (
                  verify_connection-Keeps os nf out calm Safe bears keeps out.atoi 60 s.pre_vpn_ip))
                (set_up-Keeps true))))))

  setup_proxy-Keeps : Keeps U (setup_proxy os out rounds cfg)
  setup_proxy-Keeps = then-Keeps U (set_upstreams-Keeps []) (
      bind-Keeps U (of_result-Keeps (parse_upstreams out.is_ip cfg.dns)) (λ names.
        bind-Keeps U
          (on_system-Keeps os nf lans (
            resolve_hostnames-Keeps os nf out calm Safe bears keeps (resolvers os out rounds cfg) []
              names))
          (λ us. then-Keeps U (set_upstreams-Keeps us) (
            bind-Keeps U
              (attempt-Keeps U (
                on_system-Keeps os nf lans
                  (then-Keeps Safe keeps.listen (write-Keeps os nf out calm Safe bears keeps _))))
              or_fatal-Keeps))))

  pub setup_dns-Keeps : Keeps U (setup_dns os out rounds cfg)
  unfolding setup_dns
  setup_dns-Keeps = if-Keeps U _ (pure-Keeps U tt) (
      if-Keeps U _
        (bind-Keeps U
          (bind-Keeps U
            (attempt-Keeps U
              (on_system-Keeps os nf lans (read-Keeps os nf out calm Safe bears keeps)))
            or_fatal-Keeps)
          (λ ss. set_dns-Keeps (map out.text ss)))
        (if-Keeps U _
          (bind-Keeps U (attempt-Keeps U (write_keeps (map codes cfg.dns))) or_fatal-Keeps)
          (if-Keeps U _ (then-Keeps U down_keeps setup_proxy-Keeps) (fail-Keeps U []))))

  fetched-Keeps : (m : HostMap) → Keeps U (fetched os out rounds cfg m)
  fetched-Keeps [] = set_real_ip-Keeps ""
  fetched-Keeps (x ∷ m) =
      then-Keeps U (ignore-Keeps U (on_system-Keeps os nf lans (add_exemptions-Keeps os nf lans _)))
        (bind-Keeps U (on_system-Keeps os nf lans (keeps.fetch_ip _)) (λ ip.
          then-Keeps U (on_system-Keeps os nf lans (remove_exemptions-Keeps os nf lans))
            (set_real_ip-Keeps (or_empty ip))))

  pub capture_real_ip-Keeps : Keeps U (capture_real_ip os out rounds cfg)
  unfolding capture_real_ip
  capture_real_ip-Keeps =
      bind-Keeps U
        (attempt-Keeps U (
          on_system-Keeps os nf lans
            (resolve_all-Keeps os nf out calm Safe bears keeps (resolvers os out rounds cfg) _)))
        (λ r. fetched-Keeps (hosts_of os out rounds cfg r))

  pub waited-keeps :
      (s : App os.World) → U s → U (on_world_of os out rounds cfg (waited os out rounds cfg) s).1
  waited-keeps s p = (wait_for_up-keeps os out Safe keeps rounds.waits (world s) p.0, p.1, p.2)

  calls-CallsKeep :
      (fn : M (App os.World) (Unit {0})) → Keeps U fn → CallsKeep (calls os out rounds cfg fn) U
  calls-CallsKeep fn h = record {
    attempt_keeps = λ s p. h.after s p;
    check_keeps = λ s p. (check_wan-keeps os out Safe keeps (world s) p.0, p.1, p.2);
    wait_keeps = waited-keeps;
    sleep_keeps = λ n s p. ((keeps.sleep n).after (world s) p.0, p.1, p.2);
  }

  over-keeps : (r : Outcome (App os.World)) → U r.1 → U (over os out rounds cfg r).1
  over-keeps (none, s) p = p
  over-keeps (some x, s) p = p

  pub retry-Keeps :
      (fn : M (App os.World) (Unit {0})) → Keeps U fn → Keeps U (retry os out rounds cfg fn)
  unfolding retry
  retry-Keeps fn h = record {
    after = λ s p. over-keeps _ (
        retry_with_wan_check_keeps (calls os out rounds cfg fn) U (calls-CallsKeep fn h)
          rounds.retries s p);
  }

  pub real_ip-Keeps : Keeps U (real_ip os out rounds cfg)
  real_ip-Keeps = if-Keeps U cfg.get_real_ip capture_real_ip-Keeps (pure-Keeps U tt)

  pub check_dns-Keeps : Keeps U (check_dns os out rounds cfg)
  check_dns-Keeps =
      bind-Keeps U get-Keeps
        (λ s. of_result-Keeps (validate_dns (resolvers os out rounds cfg) s.dns cfg.dns_mode))

  pub new_cache-Keeps : Keeps U (on_system (new host out.tokens) >>= set_cache os out rounds cfg)
  new_cache-Keeps =
      bind-Keeps U (on_system-Keeps os nf lans (new-Keeps os nf out calm Safe bears keeps))
        set_cache-Keeps
