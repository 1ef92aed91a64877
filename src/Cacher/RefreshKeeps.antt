-- ===== src/Cacher/RefreshKeeps.antt =====
-- The scheduled refresh of internal/cacher keeps what the calls of the system keep.
use pia_tun.Base.{
  ℕ, zero, suc, ◌*◌, String, List, Option, none, some, M, Result, ok, err, Error, Keeps,
}
use pia_tun.Base.Sequences.{bind-Keeps, then-Keeps, attempt-Keeps, pure-Keeps, fail-Keeps}
use pia_tun.Firewall.Os.{Os, Netfilter}
use pia_tun.Host.{Host}
use pia_tun.Pia.Types.{Server}
use pia_tun.Pia.Requests.{generate_token-Keeps, fetch_server_list-Keeps}
use pia_tun.Cacher.Cache.{
  Cached, on_host, nanoseconds, auth_hostname, serverlist_hostname, refreshed_token, with_auth_ips,
  refreshed_servers, with_server_list_ips, finished, last_err, refresh_all, after_attempt, tick,
}
use pia_tun.Vpn.Steps.{
  Calm, Bears, Pv, on_host-Keeps, merge_auth_ips-Keeps, merge_server_list_ips-Keeps,
  cache_servers-Keeps, set_token-Keeps,
}

module _ (os : Os) (nf : Netfilter os) (host : Host os.World) (calm : Calm os nf host)
    (P : os.World → Type 0) (bears : Bears os nf host P) where
  abbrev Pw : Cached os.World → Type 0
  Pw = Pv os nf host calm P bears

  on : {A : Type 0} {m : M os.World A} → Keeps P m → Keeps Pw (on_host m)
  on h = on_host-Keeps os nf host calm P bears h

  refreshed_token-Keeps : (r : Result String) → Keeps Pw (refreshed_token host r)
  refreshed_token-Keeps (err e) = pure-Keeps Pw _
  refreshed_token-Keeps (ok token) =
      then-Keeps Pw (set_token-Keeps os nf host calm P bears token) (pure-Keeps Pw none)

  with_auth_ips-Keeps :
      (user pass : String) (r : Result (List String)) → Keeps Pw (with_auth_ips host user pass r)
  with_auth_ips-Keeps user pass (err e) = pure-Keeps Pw _
  with_auth_ips-Keeps user pass (ok ips) =
      then-Keeps Pw (merge_auth_ips-Keeps os nf host calm P bears ips) (
        bind-Keeps Pw
          (attempt-Keeps Pw (
            on (
              generate_token-Keeps host.web P bears.calls.send bears.calls.get_cert_pool
                auth_hostname user pass)))
          refreshed_token-Keeps)

  refreshed_servers-Keeps : (r : Result (List Server)) → Keeps Pw (refreshed_servers host r)
  refreshed_servers-Keeps (err e) = pure-Keeps Pw _
  refreshed_servers-Keeps (ok servers) =
      then-Keeps Pw (cache_servers-Keeps os nf host calm P bears servers) (pure-Keeps Pw none)

  with_server_list_ips-Keeps : (r : Result (List String)) → Keeps Pw (with_server_list_ips host r)
  with_server_list_ips-Keeps (err e) = pure-Keeps Pw _
  with_server_list_ips-Keeps (ok ips) =
      then-Keeps Pw (merge_server_list_ips-Keeps os nf host calm P bears ips) (
        bind-Keeps Pw
          (attempt-Keeps Pw (
            on (
              fetch_server_list-Keeps host.web P bears.calls.send bears.calls.get_cert_pool
                serverlist_hostname)))
          refreshed_servers-Keeps)

  finished-Keeps : (o : Option Error) → Keeps Pw (finished host o)
  finished-Keeps none = pure-Keeps Pw tt
  finished-Keeps (some e) = fail-Keeps Pw e

  refresh_all-Keeps : (user pass : String) → Keeps Pw (refresh_all host user pass)
  unfolding refresh_all
  refresh_all-Keeps user pass = then-Keeps Pw (on bears.calls.ctx_err) (
      bind-Keeps Pw (attempt-Keeps Pw (on (bears.calls.look_up_ip4 auth_hostname))) (λ auth.
        bind-Keeps Pw (with_auth_ips-Keeps user pass auth) (λ e.
          then-Keeps Pw (on bears.calls.ctx_err) (
            bind-Keeps Pw (attempt-Keeps Pw (on (bears.calls.look_up_ip4 serverlist_hostname)))
              (λ ips.
                bind-Keeps Pw (with_server_list_ips-Keeps ips)
                  (λ f. finished-Keeps (last_err host e f)))))))

  after_attempt-Keeps :
      (left : ℕ) (again : M (Cached os.World) (Unit {0})) (r : Result (Unit {0}))
      → Keeps Pw again
      → Keeps Pw (after_attempt host left again r)
  after_attempt-Keeps left again (ok _) h = pure-Keeps Pw tt
  after_attempt-Keeps zero again (err e) h = on bears.calls.ctx_err
  after_attempt-Keeps (suc left) again (err e) h =
      then-Keeps Pw (on bears.calls.ctx_err)
        (then-Keeps Pw (on (bears.calls.sleep (60 * nanoseconds))) h)

  pub tick-Keeps : (left : ℕ) (user pass : String) → Keeps Pw (tick host left user pass)
  unfolding tick
  tick-Keeps zero user pass = pure-Keeps Pw tt
  tick-Keeps (suc left) user pass =
      bind-Keeps Pw (attempt-Keeps Pw (refresh_all-Keeps user pass))
        (λ r. after_attempt-Keeps left (tick host left user pass) r (tick-Keeps left user pass))
