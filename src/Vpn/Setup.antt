-- ===== src/Vpn/Setup.antt =====
-- internal/vpn/setup.go: `Setup`.
use pia_tun.Base.{
  ℕ, String, List, [], ◌∷◌, Bool, false, ◌&&◌, not, str_eq, if◌then◌else◌, M, Result, ok, err,
  errors_is, err_fatal, err_token_rejected, ◌>>=◌, ◌>>◌, pure, fail, attempt,
}
use pia_tun.Firewall.Os.{Os}
use pia_tun.Firewall.Exemptions.{add_exemption, guarded}
use pia_tun.Pia.Types.{Server, DipInfo, AddKeyResponse}
use pia_tun.Pia.Client.{resolve_dip, add_key, add_key_dip}
use pia_tun.Host.{Host}
use pia_tun.Cacher.Cache.{Cached, on_host, get_cache, clear_token, join}
use pia_tun.Wg.Tunnel.{generate_key_pair, up, Config as TunnelConfig}
use pia_tun.Vpn.Login.{Config, get_token}
use pia_tun.Vpn.Choice.{get_servers, select_server}

pub record ConnectionInfo : Type 0 where
  pub server_ip : String
  pub server_cn : String
  pub client_ip : String
  pub pf_gateway : String
  pub dns : List String

-- Whether port forwarding is available where the dedicated IP is: the first server of its region.
abbrev pub pf_available : String → List Server → Bool
pf_available region [] = false
pf_available region (srv ∷ srvs) =
    let rest = pf_available region srvs in if str_eq srv.region region then srv.pf else rest

abbrev pub has_value : String → Bool
has_value s = not (str_eq s "")

abbrev pub is_manual : Config → Bool
is_manual cfg = has_value cfg.manual_cn && has_value cfg.manual_ip

module _ (os : Os) (host : Host os.World) (atoi : String → ℕ) (dns_servers : List String) where
  open os use {World}
  open host use {web, itoa}

  -- `M` over the cache and the system.
  abbrev pub V : Type 0 → Type 0
  V A = M (Cached World) A

  -- Trying the next address of `resolveDIP`.
  abbrev pub dip_or_next : V DipInfo → Result DipInfo → V DipInfo
  dip_or_next next (ok info) = pure info
  dip_or_next next (err e) = if errors_is e err_fatal then fail e else next

  unfoldable pub resolve_dip_by : Config → String → List String → V DipInfo
  resolve_dip_by cfg token [] = fail []
  resolve_dip_by cfg token (ip ∷ ips) = do
    r ←
        on_host
          (guarded os (add_exemption os ip "443" "tcp") (resolve_dip web ip token cfg.dip_token))
    dip_or_next (resolve_dip_by cfg token ips) r

  -- The address and the name of the server.
  abbrev pub dedicated : Config → DipInfo → List Server → V (String × String)
  dedicated cfg info servers =
      if cfg.pf_required && not (pf_available info.region servers)
      then fail (err_fatal ∷ [])
      else pure (info.ip, info.cn)

  abbrev pub dedicated_server : Config → String → V (String × String)
  dedicated_server cfg token = do
    c ← get_cache
    info ← resolve_dip_by cfg token c.auth_ips
    d ← get_cache
    dedicated cfg info d.servers

  abbrev pub raced_server : Config → V (String × String)
  raced_server cfg = do
    choice ← select_server os host atoi dns_servers cfg
    pure (choice.0.ip, choice.0.cn)

  abbrev pub server_of : Config → String → V (String × String)
  server_of cfg token =
      if is_manual cfg
      then pure (cfg.manual_ip, cfg.manual_cn)
      else if has_value cfg.dip_token
      then dedicated_server cfg token
      else raced_server cfg

  abbrev pub fatal_value : {A : Type 0} → Result A → V A
  fatal_value (ok a) = pure a
  fatal_value (err e) = fail (err_fatal ∷ [])

  abbrev pub fatal : {A : Type 0} → M World A → V A
  fatal m = attempt (on_host m) >>= fatal_value

  abbrev pub accepted : Result AddKeyResponse → V AddKeyResponse
  accepted (ok resp) = pure resp
  accepted (err e) = do if errors_is e err_token_rejected then clear_token host else pure tt; fail e

  abbrev pub registration : Config → String → String → String → String → M World AddKeyResponse
  registration cfg token server_ip server_cn public_key =
      if has_value cfg.dip_token
      then add_key_dip web server_ip server_cn cfg.dip_token public_key
      else add_key web server_ip server_cn token public_key

  unfoldable pub register : Config → String → String → String → String → V AddKeyResponse
  register cfg token server_ip server_cn public_key = do
    r ← on_host (
        guarded os (add_exemption os server_ip "1337" "tcp")
          (registration cfg token server_ip server_cn public_key))
    accepted r

  abbrev pub tunnel_config : Config → String → String → AddKeyResponse → TunnelConfig
  tunnel_config cfg private_key server_ip resp = record {
    private_key = private_key;
    peer_public_key = resp.server_key;
    endpoint = join server_ip (join ":" (itoa resp.server_port));
    peer_ip = resp.peer_ip;
    mtu = cfg.mtu;
    ipv6_enabled = cfg.ipv6;
    backend = cfg.wg_backend;
  }

  abbrev pub need_servers : List Server → V (Unit {0})
  need_servers [] = get_servers os host atoi dns_servers
  need_servers (srv ∷ srvs) = pure tt

  unfoldable pub connect_to : Config → String → String × String → V ConnectionInfo
  connect_to cfg token (server_ip, server_cn) = do
    keys ← fatal (generate_key_pair host)
    resp ← register cfg token server_ip server_cn keys.1
    backend ← fatal (up host atoi 30 (tunnel_config cfg keys.0 server_ip resp))
    pure (record {
      server_ip = server_ip;
      server_cn = server_cn;
      client_ip = resp.peer_ip;
      pf_gateway = resp.server_vip;
      dns = resp.dns_servers;
    })

  unfoldable pub setup : Config → V ConnectionInfo
  setup cfg = do
    token ← get_token os host atoi dns_servers cfg
    c ← get_cache
    need_servers c.servers
    server ← server_of cfg token
    connect_to cfg token server
