-- ===== src/Vpn/Verify.antt =====
-- internal/vpn/verify.go: whether traffic goes through the tunnel. The pings that trigger the handshake are
-- left out.
use pia_tun.Base.{
  ℕ, zero, suc, ltb, String, List, [], ◌∷◌, Bool, false, Option, none, some, ◌==◌, str_eq,
  if◌then◌else◌, M, Result, ok, err, ◌>>=◌, ◌>>◌, pure, fail, attempt, total,
}
use pia_tun.Base.Text.{chars, of_chars, trim_space, fields}
use pia_tun.Host.{Host}

-- The answer of a service, whose body is cut behind 64 bytes.
pub record IpAnswer : Type 0 where
  pub status_code : ℕ
  pub body : Result String

-- Requests to all services at once, with their answers in the order in which they come, and
-- `net.ParseIP(ip) != nil`.
pub record IpServices (W : Type 0) : Type 0 where
  pub ask : List String → W → List (Result IpAnswer) × W
  pub is_ip : String → Bool

abbrev pub services : List String
services =
    "https://api.ipify.org" ∷ "https://ifconfig.me/ip" ∷ "https://icanhazip.com"
    ∷ "https://checkip.amazonaws.com" ∷ []

abbrev pub second_field : List String → Option String
second_field (a ∷ b ∷ rest) = some b
second_field _ = none

module _ {W : Type 0} (host : Host W) (ips : IpServices W) (atoi : String → ℕ) where
  open host use {output, sleep, ctx_err}
  open ips use {ask, is_ip}

  -- `ts > 0`; a number that cannot be parsed is 0.
  abbrev pub positive : Option String → Bool
  positive none = false
  positive (some ts) = ltb 0 (atoi ts)

  abbrev pub has_handshake : Result String → Bool
  has_handshake (err e) = false
  has_handshake (ok out) = positive (second_field (fields out))

  -- One poll for each 100 ms before the deadline.
  unfoldable pub wait_for_handshake : ℕ → M W (Unit {0})
  wait_for_handshake zero = fail []
  wait_for_handshake (suc polls) = do
    r ← attempt (output "" ("wg" ∷ "show" ∷ "pia0" ∷ "latest-handshakes" ∷ []))
    let rest = (do ctx_err; sleep 100000000; wait_for_handshake polls)
    if has_handshake r then pure tt else rest

  abbrev pub valid_ip : String → Option String
  valid_ip ip = if is_ip ip then some ip else none

  abbrev pub ip_of_body : ℕ → Result String → Option String
  ip_of_body code (err e) = none
  ip_of_body code (ok body) =
      if code == 200 then valid_ip (of_chars (trim_space (chars body))) else none

  abbrev pub ip_of : Result IpAnswer → Option String
  ip_of (err e) = none
  ip_of (ok a) = ip_of_body a.status_code a.body

  abbrev pub first_ip : List (Result IpAnswer) → Option String
  first_ip [] = none
  first_ip (a ∷ rest) = elim (ip_of a) [ none ↦ first_ip rest | some ip ↦ some ip ]

  unfoldable pub get_public_ip : M W (Option String)
  get_public_ip = do answers ← total (ask services); pure (first_ip answers)

  -- An address that cannot be found out is no error.
  abbrev pub judge_ip : String → Option String → M W (Unit {0})
  judge_ip pre_vpn_ip none = pure tt
  judge_ip pre_vpn_ip (some ip) = if str_eq ip pre_vpn_ip then fail [] else pure tt

  unfoldable pub verify_connection : ℕ → String → M W (Unit {0})
  verify_connection polls pre_vpn_ip = do
    wait_for_handshake polls
    ip ← get_public_ip
    judge_ip pre_vpn_ip ip
