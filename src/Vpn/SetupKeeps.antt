-- ===== src/Vpn/SetupKeeps.antt =====
-- The steps of Vpn/Setup keep what each exemption and each call keeps.
use pia_tun.Base.{
  ℕ, String, List, [], ◌∷◌, ◌&&◌, not, M, Result, ok, err, Keeps, errors_is, err_fatal,
  err_token_rejected,
}
use pia_tun.Base.Sequences.{bind-Keeps, then-Keeps, attempt-Keeps, pure-Keeps, fail-Keeps, if-Keeps}
use pia_tun.Firewall.Os.{Os, Netfilter}
use pia_tun.Firewall.Guards.{Quiet}
use pia_tun.Host.{Host}
use pia_tun.Pia.Types.{Server, DipInfo, AddKeyResponse}
use pia_tun.Pia.Client.{resolve_dip}
use pia_tun.Pia.Requests.{resolve_dip-Keeps, add_key-Keeps, add_key_dip-Keeps}
use pia_tun.Cacher.Cache.{Cached, on_host, get_cache}
use pia_tun.Wg.Calls.{generate_key_pair-Keeps, up-Keeps}
use pia_tun.Vpn.Login.{Config}
use pia_tun.Vpn.Setup.{
  has_value, is_manual, dip_or_next, resolve_dip_by, server_of, fatal_value, fatal, accepted,
  registration, register, tunnel_config, need_servers, connect_to, setup, pf_available,
}
use pia_tun.Vpn.Steps.{Calm, Bears, Pv, on_host-Keeps, get_cache-Keeps, clear_token-Keeps}
use pia_tun.Vpn.LoginKeeps.{get_token-Keeps}
use pia_tun.Vpn.ChoiceKeeps.{get_servers-Keeps, select_server-Keeps}

module _ (os : Os) (nf : Netfilter os) (host : Host os.World) (calm : Calm os nf host)
    (P : os.World → Type 0) (bears : Bears os nf host P) (atoi : String → ℕ)
    (dns : List String) where
  abbrev Pw : Cached os.World → Type 0
  Pw = Pv os nf host calm P bears

  on : {A : Type 0} {m : M os.World A} → Keeps P m → Keeps Pw (on_host m)
  on h = on_host-Keeps os nf host calm P bears h

  cache-Keeps : Keeps Pw get_cache
  cache-Keeps = get_cache-Keeps os nf host calm P bears

  dip_or_next-Keeps :
      (next : M (Cached os.World) DipInfo) (r : Result DipInfo)
      → Keeps Pw next
      → Keeps Pw (dip_or_next os host atoi dns next r)
  dip_or_next-Keeps next (ok info) h = pure-Keeps Pw info
  dip_or_next-Keeps next (err e) h = if-Keeps Pw (errors_is e err_fatal) (fail-Keeps Pw e) h

  resolve_dip_by-Keeps :
      (cfg : Config) (token : String) (ips : List String)
      → Keeps Pw (resolve_dip_by os host atoi dns cfg token ips)
  unfolding resolve_dip_by
  resolve_dip_by-Keeps cfg token [] = fail-Keeps Pw []
  resolve_dip_by-Keeps cfg token (ip ∷ ips) =
      bind-Keeps Pw
        (on (
          bears.exemption ip "443" "tcp" (resolve_dip host.web ip token cfg.dip_token) (λ t.
            resolve_dip-Keeps host.web _ (calm t).send (calm t).get_cert_pool ip token
              cfg.dip_token)))
        (λ r.
          dip_or_next-Keeps (resolve_dip_by os host atoi dns cfg token ips) r
            (resolve_dip_by-Keeps cfg token ips))

  server_of-Keeps :
      (cfg : Config) (token : String) → Keeps Pw (server_of os host atoi dns cfg token)
  server_of-Keeps cfg token = if-Keeps Pw (is_manual cfg) (pure-Keeps Pw _) (
      if-Keeps Pw (has_value cfg.dip_token)
        (bind-Keeps Pw cache-Keeps (λ c.
          bind-Keeps Pw (resolve_dip_by-Keeps cfg token c.auth_ips) (λ info.
            bind-Keeps Pw cache-Keeps (λ d.
              if-Keeps Pw (cfg.pf_required && not (pf_available info.region d.servers))
                (fail-Keeps Pw (err_fatal ∷ [])) (pure-Keeps Pw (info.ip, info.cn))))))
        (bind-Keeps Pw (select_server-Keeps os nf host calm P bears atoi dns cfg)
          (λ choice. pure-Keeps Pw (choice.0.ip, choice.0.cn))))

  fatal_value-Keeps : {A : Type 0} (r : Result A) → Keeps Pw (fatal_value os host atoi dns r)
  fatal_value-Keeps (ok a) = pure-Keeps Pw a
  fatal_value-Keeps (err e) = fail-Keeps Pw (err_fatal ∷ [])

  fatal-Keeps : {A : Type 0} {m : M os.World A} → Keeps P m → Keeps Pw (fatal os host atoi dns m)
  fatal-Keeps h = bind-Keeps Pw (attempt-Keeps Pw (on h)) fatal_value-Keeps

  accepted-Keeps : (r : Result AddKeyResponse) → Keeps Pw (accepted os host atoi dns r)
  accepted-Keeps (ok resp) = pure-Keeps Pw resp
  accepted-Keeps (err e) =
      then-Keeps Pw
        (if-Keeps Pw (errors_is e err_token_rejected) (clear_token-Keeps os nf host calm P bears)
          (pure-Keeps Pw tt))
        (fail-Keeps Pw e)

  registration-Quiet :
      (cfg : Config) (token ip cn key : String)
      → Quiet os nf (registration os host atoi dns cfg token ip cn key)
  registration-Quiet cfg token ip cn key t =
      if-Keeps _ (has_value cfg.dip_token)
        (add_key_dip-Keeps host.web _ (calm t).send (calm t).get_cert_pool ip cn cfg.dip_token key)
        (add_key-Keeps host.web _ (calm t).send (calm t).get_cert_pool ip cn token key)

  register-Keeps :
      (cfg : Config) (token ip cn key : String)
      → Keeps Pw (register os host atoi dns cfg token ip cn key)
  unfolding register
  register-Keeps cfg token ip cn key =
      bind-Keeps Pw
        (on (
          bears.exemption ip "1337" "tcp" (registration os host atoi dns cfg token ip cn key)
            (registration-Quiet cfg token ip cn key)))
        accepted-Keeps

  connect_to-Keeps :
      (cfg : Config) (token : String) (server : String × String)
      → Keeps Pw (connect_to os host atoi dns cfg token server)
  unfolding connect_to
  connect_to-Keeps cfg token (ip, cn) =
      bind-Keeps Pw (fatal-Keeps (generate_key_pair-Keeps host P bears.calls)) (λ keys.
        bind-Keeps Pw (register-Keeps cfg token ip cn keys.1) (λ resp.
          bind-Keeps Pw
            (fatal-Keeps (
              up-Keeps host P bears.calls atoi 30
                (tunnel_config os host atoi dns cfg keys.0 ip resp)))
            (λ backend. pure-Keeps Pw _)))

  need_servers-Keeps : (srvs : List Server) → Keeps Pw (need_servers os host atoi dns srvs)
  need_servers-Keeps [] = get_servers-Keeps os nf host calm P bears atoi dns
  need_servers-Keeps (srv ∷ srvs) = pure-Keeps Pw tt

  pub setup-Keeps : (cfg : Config) → Keeps Pw (setup os host atoi dns cfg)
  unfolding setup
  setup-Keeps cfg = bind-Keeps Pw (get_token-Keeps os nf host calm P bears atoi dns cfg) (λ token.
      bind-Keeps Pw cache-Keeps (λ c.
        then-Keeps Pw (need_servers-Keeps c.servers)
          (bind-Keeps Pw (server_of-Keeps cfg token) (connect_to-Keeps cfg token))))
