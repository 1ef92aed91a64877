-- ===== src/Vpn/Login.antt =====
-- The login token of internal/vpn/setup.go: `getToken` and what it calls.
use pia_tun.Base.{
  ℕ, String, List, [], ◌∷◌, Bool, if◌then◌else◌, M, Result, ok, err, errors_is, err_fatal,
  err_rate_limited, ◌>>=◌, ◌>>◌, pure, fail, attempt,
}
use pia_tun.Firewall.Os.{Os}
use pia_tun.Firewall.Exemptions.{add_exemption, guarded}
use pia_tun.Pia.Client.{generate_token}
use pia_tun.Host.{Host}
use pia_tun.Cacher.Cache.{
  Cached, on_host, get_cache, token_fresh, set_token, merge_auth_ips, auth_hostname,
}
use pia_tun.Dns.Resolver.{resolve}

pub record Config : Type 0 where
  pub pia_user : String
  pub pia_pass : String
  pub location : String
  pub dip_token : String
  pub pf_required : Bool
  pub manual_cn : String
  pub manual_ip : String
  pub mtu : ℕ
  pub ipv6 : Bool
  pub wg_backend : String

module _ (os : Os) (host : Host os.World) (atoi : String → ℕ) (dns_servers : List String) where
  open os use {World}
  open host use {web, itoa}

  -- `M` over the cache and the system.
  abbrev pub V : Type 0 → Type 0
  V A = M (Cached World) A

  abbrev pub returned_value : {A : Type 0} → Result A → V A
  returned_value (ok a) = pure a
  returned_value (err e) = fail e

  abbrev pub try_auth : String → String → String → V String
  try_auth ip user pass = do
    r ← on_host (guarded os (add_exemption os ip "443" "tcp") (generate_token web ip user pass))
    returned_value r

  -- What `authenticate` does with the answer of one address.
  abbrev pub judged : V String → Result String → V String
  judged next (ok token) = pure token
  judged next (err e) =
      if errors_is e err_fatal
      then fail e
      else if errors_is e err_rate_limited
      then fail e
      else next

  unfoldable pub try_auth_ips : Config → List String → V String → V String
  try_auth_ips cfg [] last = last
  try_auth_ips cfg (ip ∷ ips) last = do
    r ← attempt (try_auth ip cfg.pia_user cfg.pia_pass)
    judged (try_auth_ips cfg ips last) r

  abbrev pub resolved_auth : Config → V String
  resolved_auth cfg = do
    ips ← on_host (resolve os host dns_servers auth_hostname)
    merge_auth_ips ips
    try_auth_ips cfg ips (fail [])

  unfoldable pub authenticate : Config → V String
  authenticate cfg = do c ← get_cache; try_auth_ips cfg c.auth_ips (resolved_auth cfg)

  abbrev pub cached_token : V String
  cached_token = do c ← get_cache; pure c.token

  abbrev pub new_token : Config → V String
  new_token cfg = do token ← authenticate cfg; set_token host token; pure token

  unfoldable pub get_token : Config → V String
  get_token cfg = do fresh ← token_fresh host; if fresh then cached_token else new_token cfg
