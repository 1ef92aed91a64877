-- ===== src/Portsync/Deluge.antt =====
-- internal/portsync/deluge.go
use pia_tun.Base.{
  ℕ, [], ◌∷◌, ◌++◌, Bool, true, not, ◌&&◌, ◌||◌, Option, none, some, ◌==◌, leb, length, drop, take,
  if◌then◌else◌, M, ◌>>=◌, ◌>>◌, pure,
}
use pia_tun.Base.Text.{Bytes, codes, has_prefix, contains}
use pia_tun.Portsync.Net.{Net, of_result, found, require}
use pia_tun.Portsync.Json.{quote, json_escape}

abbrev pub is_hex : ℕ → Bool
is_hex b = (leb b'a' b && leb b b'f') || (leb b'0' b && leb b b'9')

abbrev pub all_hex : Bytes → Bool
all_hex [] = true
all_hex (b ∷ s) = is_hex b && all_hex s

-- `"([a-f0-9]{32})"` at the start of a text.
abbrev pub host_at : Bytes → Option Bytes
host_at [] = none
host_at (b ∷ s) =
    if (b == quote)
      && (length (take 32 s) == 32)
      && all_hex (take 32 s)
      && has_prefix (drop 32 s) (quote ∷ [])
    then some (take 32 s)
    else none

-- The first host ID: the leftmost match of that regular expression.
unfoldable pub host_in : Bytes → Option Bytes
host_in [] = none
host_in (b ∷ s) = elim (host_at (b ∷ s)) [ none ↦ host_in s | some h ↦ some h ]

module _ {W : Type 0} (net : Net W) (url pass : Bytes) where
  open net use {send, itoa, sleep}

  unfoldable pub rpc : Bytes → M W Bytes
  rpc body = do
    resp ← send (record {
      method = "POST";
      url = url ++ codes "/json";
      headers = ("Content-Type", codes "application/json") ∷ [];
      auth = none;
      body = body;
    })
    text ← of_result resp.body
    require (resp.status_code == 200)
    pure text

  abbrev pub login_body : Bytes
  login_body =
      codes "{\"method\":\"auth.login\",\"params\":[\""
      ++ (json_escape pass ++ codes "\"],\"id\":1}")

  unfoldable pub login : M W (Unit {0})
  login = do
    resp ← rpc login_body
    require (contains resp (codes "\"result\"") && not (contains resp (codes "\"result\": false")))

  abbrev pub is_connected : Bytes → Bool
  is_connected resp =
      contains resp (codes "\"result\": true") || contains resp (codes "\"result\":true")

  abbrev pub connect_body : Bytes → Bytes
  connect_body host_id =
      codes "{\"method\":\"web.connect\",\"params\":[\"" ++ (host_id ++ codes "\"],\"id\":4}")

  abbrev pub connect_first : M W (Unit {0})
  connect_first = do
    hosts ← rpc (codes "{\"method\":\"web.get_hosts\",\"params\":[],\"id\":3}")
    host_id ← found (host_in hosts)
    resp ← rpc (connect_body host_id)
    sleep 1000000000

  unfoldable pub ensure_connected : M W (Unit {0})
  ensure_connected = do
    resp ← rpc (codes "{\"method\":\"web.connected\",\"params\":[],\"id\":2}")
    if is_connected resp then pure tt else connect_first

  abbrev pub is_error : Bytes → Bool
  is_error resp =
      contains resp (codes "\"error\"")
      && not (contains resp (codes "\"error\": null"))
      && not (contains resp (codes "\"error\":null"))

  abbrev pub config_body : ℕ → Bytes
  config_body port =
      codes "{\"method\":\"core.set_config\",\"params\":[{\"listen_ports\":["
      ++ (itoa port ++ (codes "," ++ (itoa port ++ codes "]}],\"id\":5}")))

  unfoldable pub set_port : ℕ → M W (Unit {0})
  set_port port = do resp ← rpc (config_body port); require (not (is_error resp))

  unfoldable pub sync_port : ℕ → M W (Unit {0})
  sync_port port = do login; ensure_connected; set_port port
