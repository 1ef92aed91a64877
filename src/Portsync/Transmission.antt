-- ===== src/Portsync/Transmission.antt =====
-- internal/portsync/transmission.go
use pia_tun.Base.{
  ℕ, [], ◌∷◌, ◌++◌, Bool, ◌&&◌, ◌||◌, Option, none, some, ◌==◌, leb, length, drop, if◌then◌else◌, M,
  ◌>>=◌, ◌>>◌,
}
use pia_tun.Base.Text.{Bytes, codes, has_prefix, contains}
use pia_tun.Portsync.Net.{Net, of_result, found, require}
use pia_tun.Portsync.Json.{newline, carriage_return}

-- The text behind the first `marker`: `strings.Index`, and the slice behind what it finds.
abbrev pub after : Bytes → Bytes → Option Bytes
after marker [] = none
after marker (b ∷ s) =
    let rest = after marker s in
    if has_prefix (b ∷ s) marker then some (drop (length marker) (b ∷ s)) else rest

-- `value[:end]` for the first of "<\n\r", where there is one.
abbrev pub up_to_end : Bytes → Bytes
up_to_end [] = []
up_to_end (b ∷ s) =
    let rest = up_to_end s in
    if (b == b'<') || (b == newline) || (b == carriage_return) then [] else b ∷ rest

abbrev pub is_space : ℕ → Bool
is_space b = (leb 9 b && leb b 13) || (b == 32)

abbrev pub trim_left : Bytes → Bytes
trim_left [] = []
trim_left (b ∷ s) = let rest = trim_left s in if is_space b then rest else b ∷ s

abbrev pub onto_trimmed : ℕ → Bytes → Bytes
onto_trimmed b [] = if is_space b then [] else b ∷ []
onto_trimmed b (c ∷ s) = b ∷ c ∷ s

abbrev pub trim_right : Bytes → Bytes
trim_right [] = []
trim_right (b ∷ s) = onto_trimmed b (trim_right s)

-- The session ID in the text of an answer, if it has one that is not empty.
unfoldable pub session_id_in : Bytes → Option Bytes
session_id_in body = elim (after (codes "X-Transmission-Session-Id: ") body) [
  | none ↦ none
  | some s ↦
      let value = trim_right (trim_left (up_to_end s)) in
      if length value == 0 then none else some value
]

module _ {W : Type 0} (net : Net W) (url user pass : Bytes) where
  open net use {send, itoa}

  abbrev pub credentials : Option (Bytes × Bytes)
  credentials = if length user == 0 then none else some (user, pass)

  unfoldable pub get_session_id : M W Bytes
  get_session_id = do
    resp ← send (record {
      method = "GET";
      url = url ++ codes "/transmission/rpc";
      headers = [];
      auth = credentials;
      body = [];
    })
    body ← of_result resp.body
    found (session_id_in body)

  unfoldable pub set_port : Bytes → ℕ → M W (Unit {0})
  set_port session_id port = do
    resp ← send (record {
      method = "POST";
      url = url ++ codes "/transmission/rpc";
      headers =
          ("X-Transmission-Session-Id", session_id)
          ∷ ("Content-Type", codes "application/json")
          ∷ [];
      auth = credentials;
      body =
          codes "{\"method\":\"session-set\",\"arguments\":{\"peer-port\":"
          ++ (itoa port ++ codes "}}");
    })
    body ← of_result resp.body
    require (resp.status_code == 200)
    require (contains body (codes "\"result\":\"success\""))

  unfoldable pub sync_port : ℕ → M W (Unit {0})
  sync_port port = do session_id ← get_session_id; set_port session_id port
