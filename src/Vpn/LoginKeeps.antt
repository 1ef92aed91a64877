-- ===== src/Vpn/LoginKeeps.antt =====
-- The steps of Vpn/Login keep what each exemption and each call keeps.
use pia_tun.Base.{
  ℕ, String, List, [], ◌∷◌, M, Result, ok, err, Keeps, fail, errors_is, err_fatal, err_rate_limited,
}
use pia_tun.Base.Sequences.{bind-Keeps, then-Keeps, attempt-Keeps, pure-Keeps, fail-Keeps, if-Keeps}
use pia_tun.Firewall.Os.{Os, Netfilter}
use pia_tun.Host.{Host}
use pia_tun.Pia.Client.{generate_token}
use pia_tun.Pia.Requests.{generate_token-Keeps}
use pia_tun.Cacher.Cache.{Cached, on_host, get_cache, auth_hostname}
use pia_tun.Vpn.Login.{
  Config, returned_value, try_auth, judged, try_auth_ips, resolved_auth, authenticate, get_token,
}
use pia_tun.Vpn.Steps.{
  Calm, Bears, Pv, on_host-Keeps, get_cache-Keeps, merge_auth_ips-Keeps, token_fresh-Keeps,
  set_token-Keeps, resolve-Keeps,
}

module _ (os : Os) (nf : Netfilter os) (host : Host os.World) (calm : Calm os nf host)
    (P : os.World → Type 0) (bears : Bears os nf host P) (atoi : String → ℕ)
    (dns : List String) where
  abbrev Pw : Cached os.World → Type 0
  Pw = Pv os nf host calm P bears

  on : {A : Type 0} {m : M os.World A} → Keeps P m → Keeps Pw (on_host m)
  on h = on_host-Keeps os nf host calm P bears h

  cache-Keeps : Keeps Pw get_cache
  cache-Keeps = get_cache-Keeps os nf host calm P bears

  pub returned_value-Keeps :
      {A : Type 0} (r : Result A) → Keeps Pw (returned_value os host atoi dns r)
  returned_value-Keeps (ok a) = pure-Keeps Pw a
  returned_value-Keeps (err e) = fail-Keeps Pw e

  try_auth-Keeps : (ip user pass : String) → Keeps Pw (try_auth os host atoi dns ip user pass)
  try_auth-Keeps ip user pass =
      bind-Keeps Pw
        (on (
          bears.exemption ip "443" "tcp" (generate_token host.web ip user pass) (λ t.
            generate_token-Keeps host.web _ (calm t).send (calm t).get_cert_pool ip user pass)))
        returned_value-Keeps

  judged-Keeps :
      (next : M (Cached os.World) String) (r : Result String)
      → Keeps Pw next
      → Keeps Pw (judged os host atoi dns next r)
  judged-Keeps next (ok token) h = pure-Keeps Pw token
  judged-Keeps next (err e) h =
      if-Keeps Pw (errors_is e err_fatal) (fail-Keeps Pw e)
        (if-Keeps Pw (errors_is e err_rate_limited) (fail-Keeps Pw e) h)

  try_auth_ips-Keeps :
      (cfg : Config) (ips : List String) (last : M (Cached os.World) String)
      → Keeps Pw last
      → Keeps Pw (try_auth_ips os host atoi dns cfg ips last)
  unfolding try_auth_ips
  try_auth_ips-Keeps cfg [] last h = h
  try_auth_ips-Keeps cfg (ip ∷ ips) last h =
      bind-Keeps Pw (attempt-Keeps Pw (try_auth-Keeps ip cfg.pia_user cfg.pia_pass)) (λ r.
        judged-Keeps (try_auth_ips os host atoi dns cfg ips last) r
          (try_auth_ips-Keeps cfg ips last h))

  authenticate-Keeps : (cfg : Config) → Keeps Pw (authenticate os host atoi dns cfg)
  unfolding authenticate
  authenticate-Keeps cfg = bind-Keeps Pw cache-Keeps (λ c.
      try_auth_ips-Keeps cfg c.auth_ips (resolved_auth os host atoi dns cfg) (
        bind-Keeps Pw (on (resolve-Keeps os nf host calm P bears dns auth_hostname)) (λ ips.
          then-Keeps Pw (merge_auth_ips-Keeps os nf host calm P bears ips)
            (try_auth_ips-Keeps cfg ips (fail []) (fail-Keeps Pw [])))))

  pub get_token-Keeps : (cfg : Config) → Keeps Pw (get_token os host atoi dns cfg)
  unfolding get_token
  get_token-Keeps cfg = bind-Keeps Pw (token_fresh-Keeps os nf host calm P bears) (λ fresh.
      if-Keeps Pw fresh (bind-Keeps Pw cache-Keeps (λ c. pure-Keeps Pw c.token)) (
        bind-Keeps Pw (authenticate-Keeps cfg) (λ token.
          then-Keeps Pw (set_token-Keeps os nf host calm P bears token) (pure-Keeps Pw token))))
