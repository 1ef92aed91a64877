-- ===== src/Proxy/Tests.antt =====
-- Runs of the SOCKS5 proxy and the HTTP proxy.
use pia_tun.Base.{
  ℕ, ◌+◌, ◌*◌, [], ◌∷◌, ◌++◌, Bool, true, ◌≡◌, refl, ok, OnOk, ◌≢◌, ◌⊎◌, ◌↔◌, Option, some, All,
  pure, arith,
}
use pia_tun.Base.Text.{Bytes, codes}
use pia_tun.Proxy.Socks5.{Config, Host, domain, reply, handle_socks5}
use pia_tun.Proxy.Authorised.{IsAuthorised, socks5-IsAuthorised}
use pia_tun.Proxy.HttpAuth.{IsBasic, check_auth-IsBasic, serve_http-IsBasic}
use pia_tun.Proxy.Http.{Request, Upstream, auth_required, get, check_auth, serve_http}
use pia_tun.Proxy.Session.{session, socks5-session}

abbrev with_password : Config
with_password = record { user = codes "alice"; pass = codes "secret" }

abbrev every_host : Host × ℕ → Bool
every_host dest = true

abbrev client_bytes : Bytes
client_bytes = session with_password (2 ∷ []) 1 (codes "example.org") 1 187 (codes "hello")

socks5-IsAuthorised_example :
    OnOk
      (λ dest _. (rest : Bytes) × IsAuthorised with_password client_bytes rest)
      (handle_socks5 every_host with_password (record { unread = client_bytes; written = [] }))
socks5-IsAuthorised_example =
    socks5-IsAuthorised every_host with_password (record { unread = client_bytes; written = [] })
      refl

socks5-session_example :
    handle_socks5 every_host with_password (record { unread = client_bytes; written = [] }) ≡ (
      ok (domain (codes "example.org"), 1 * 256 + 187),
      record { unread = codes "hello"; written = (5 ∷ 2 ∷ 1 ∷ 0 ∷ []) ++ reply 0 },
    )
socks5-session_example =
    socks5-session every_host with_password (2 ∷ []) 1 (codes "example.org") 1 187 (codes "hello")
      refl refl

abbrev decode : Bytes → Option Bytes
decode payload = some (codes "alice:secret")

abbrev given : Bytes
given = codes "Basic YWxpY2U6c2VjcmV0"

alice-All : All (λ b. b ≢ b':') (codes "alice")
alice-All = (omega arith, (omega arith, (omega arith, (omega arith, (omega arith, tt)))))

check_auth-IsBasic_example :
    (check_auth decode with_password given ≡ true) ↔ IsBasic decode with_password given
check_auth-IsBasic_example = check_auth-IsBasic decode with_password given alice-All

-- The state is the number of dials and requests.
abbrev upstream : Upstream ℕ
upstream = record {
  dial = λ host n. (ok tt, n + 1);
  hijack = pure tt;
  round_trip = λ r n. (ok (record { status_code = 200; header = []; body = [] }), n + 1);
}

abbrev request : Request
request = record {
  method = "CONNECT";
  host = "example.org:443";
  header = ("Proxy-Authorization", given) ∷ [];
}

serve_http-IsBasic_example :
    IsBasic decode with_password (get "Proxy-Authorization" request.header)
    ⊎ (serve_http upstream decode with_password request 0 ≡ (auth_required, 0))
serve_http-IsBasic_example = serve_http-IsBasic upstream decode with_password request 0 refl refl
