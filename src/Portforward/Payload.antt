-- ===== src/Portforward/Payload.antt =====
-- `parsePayload` of internal/portforward/client.go. base64, `json.Unmarshal` and `time.Parse` are
-- the fields of `Codec`.
use pia_tun.Base.{
  ℕ, [], ◌∷◌, ◌++◌, Bool, false, ◌&&◌, Option, none, some, ltb, ◌==◌, length, if◌then◌else◌, Result,
  ok, err,
}
use pia_tun.Base.Text.{Bytes, codes}

pub record PayloadData : Type 0 where
  pub port : ℕ
  pub expires_at : Bytes

pub record Codec : Type 0 where
  -- `base64.StdEncoding.DecodeString`
  pub decode_base64 : Bytes → Option Bytes
  pub unmarshal : Bytes → Option PayloadData
  -- `time.Parse(time.RFC3339, s)`, in nanoseconds.
  pub parse_time : Bytes → Option ℕ

-- `strings.SplitN(s, ".", 2)[0]`
abbrev pub before_dot : Bytes → Bytes
before_dot [] = []
before_dot (b ∷ bs) = let rest = before_dot bs in if b == b'.' then [] else b ∷ rest

-- `s[len(s)-1] == 'Z'`
abbrev pub ends_in_z : Bytes → Bool
ends_in_z [] = false
ends_in_z (b ∷ []) = b == b'Z'
ends_in_z (b ∷ c ∷ s) = ends_in_z (c ∷ s)

unfoldable pub without_fraction : Bytes → Bytes
without_fraction s = if ltb 20 (length s) && ends_in_z s then before_dot s ++ codes "Z" else s

module _ (codec : Codec) where
  open codec use {decode_base64, unmarshal, parse_time}

  abbrev pub with_time : ℕ → Option ℕ → Result (ℕ × ℕ)
  with_time port none = err []
  with_time port (some t) = ok (port, t)

  abbrev pub with_data : Option PayloadData → Result (ℕ × ℕ)
  with_data none = err []
  with_data (some p) = with_time p.port (parse_time (without_fraction p.expires_at))

  abbrev pub with_text : Option Bytes → Result (ℕ × ℕ)
  with_text none = err []
  with_text (some decoded) = with_data (unmarshal decoded)

  -- The port and the time at which its signature expires.
  unfoldable pub parse_payload : Bytes → Result (ℕ × ℕ)
  parse_payload payload = with_text (decode_base64 payload)
