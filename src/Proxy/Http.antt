-- ===== src/Proxy/Http.antt =====
-- internal/proxy/http.go: `ServeHTTP` with `checkAuth`, `handleTunneling` and `handleHTTP`. What net/http
-- reads and writes is a parameter.
use pia_tun.Base.{
  ℕ, String, List, [], ◌∷◌, Bool, false, not, ◌&&◌, ◌==◌, Option, none, some, drop, str_eq,
  if◌then◌else◌, M, Result, ok, err,
}
use pia_tun.Base.Text.{Bytes, codes, has_prefix, same_bytes}
use pia_tun.Proxy.Socks5.{Config, is_set}

-- A header has canonical names, each of which may stand in it several times.
abbrev pub Header : Type 0
Header = List (String × Bytes)

pub record Request : Type 0 where
  pub method : String
  pub host : String
  pub header : Header

pub record Response : Type 0 where
  pub status_code : ℕ
  pub header : Header
  pub body : Bytes

-- `net.DialTimeout`, `Hijack` and `http.DefaultTransport.RoundTrip`.
pub record Upstream (W : Type 0) : Type 0 where
  pub dial : String → M W (Unit {0})
  pub hijack : M W (Unit {0})
  pub round_trip : Request → M W Response

-- What the client gets: the demand for a password with status 407, status 503, a tunnel that could not
-- be taken over behind status 200, a tunnel to a host, or the answer of the server.
pub data Reply : Type 0 where
  auth_required unavailable not_hijacked : Reply
  tunnels : String → Reply
  passes : Response → Reply

-- `Header.Get`, and `Header.Del`.
abbrev pub get : String → Header → Bytes
get key [] = []
get key ((k, v) ∷ h) = let rest = get key h in if str_eq k key then v else rest

abbrev pub del : String → Header → Header
del key [] = []
del key ((k, v) ∷ h) = let rest = del key h in if str_eq k key then rest else (k, v) ∷ rest

abbrev pub basic : Bytes
basic = codes "Basic "

abbrev pub onto_user : ℕ → Option (Bytes × Bytes) → Option (Bytes × Bytes)
onto_user b none = none
onto_user b (some (user, pass)) = some (b ∷ user, pass)

-- `strings.SplitN(s, ":", 2)`, where it has two parts.
abbrev pub split_pair : Bytes → Option (Bytes × Bytes)
split_pair [] = none
split_pair (b ∷ bs) =
    let rest = split_pair bs in if b == b':' then some ([], bs) else onto_user b rest

abbrev pub judge_pair : Config → Option (Bytes × Bytes) → Bool
judge_pair cfg none = false
judge_pair cfg (some (user, pass)) = same_bytes user cfg.user && same_bytes pass cfg.pass

abbrev pub judge_payload : Config → Option Bytes → Bool
judge_payload cfg none = false
judge_payload cfg (some payload) = judge_pair cfg (split_pair payload)

-- `decode` is `base64.StdEncoding.DecodeString`.
unfoldable pub check_auth : (Bytes → Option Bytes) → Config → Bytes → Bool
check_auth decode cfg auth =
    if not (has_prefix auth basic) then false else judge_payload cfg (decode (drop 6 auth))

-- The request that `handleHTTP` sends on.
abbrev pub cleaned : Request → Request
cleaned r = record r { header = del "Proxy-Connection" (del "Proxy-Authorization" r.header) }

module _ {W : Type 0} (upstream : Upstream W) (decode : Bytes → Option Bytes) (cfg : Config) where
  open upstream use {dial, hijack, round_trip}

  abbrev pub hijacked : Request → Result (Unit {0}) × W → Reply × W
  hijacked r (err e, w) = (not_hijacked, w)
  hijacked r (ok _, w) = (tunnels r.host, w)

  abbrev pub dialled : Request → Result (Unit {0}) × W → Reply × W
  dialled r (err e, w) = (unavailable, w)
  dialled r (ok _, w) = hijacked r (hijack w)

  unfoldable pub handle_tunneling : Request → W → Reply × W
  handle_tunneling r w = dialled r (dial r.host w)

  abbrev pub answered : Result Response × W → Reply × W
  answered (err e, w) = (unavailable, w)
  answered (ok resp, w) = (passes resp, w)

  unfoldable pub handle_http : Request → W → Reply × W
  handle_http r w = answered (round_trip (cleaned r) w)

  abbrev pub is_refused : Request → Bool
  is_refused r =
      (is_set cfg.user && is_set cfg.pass)
      && not (check_auth decode cfg (get "Proxy-Authorization" r.header))

  unfoldable pub serve_http : Request → W → Reply × W
  serve_http r w =
      if is_refused r
      then (auth_required, w)
      else if str_eq r.method "CONNECT"
      then handle_tunneling r w
      else handle_http r w
