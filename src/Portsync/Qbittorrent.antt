-- ===== src/Portsync/Qbittorrent.antt =====
-- internal/portsync/qbittorrent.go
use pia_tun.Base.{ℕ, [], ◌∷◌, ◌++◌, ◌||◌, none, ◌==◌, M, ◌>>=◌, ◌>>◌}
use pia_tun.Base.Text.{Bytes, codes, contains}
use pia_tun.Portsync.Net.{Request, Net, of_result, require, form_post}

module _ {W : Type 0} (net : Net W) (url user pass : Bytes) where
  open net use {send, itoa}

  unfoldable pub login : M W (Unit {0})
  login = do
    resp ← send (
        form_post net (url ++ codes "/api/v2/auth/login")
          ((codes "username", user) ∷ (codes "password", pass) ∷ []))
    require ((resp.status_code == 200) || (resp.status_code == 204))

  unfoldable pub set_port : ℕ → M W (Unit {0})
  set_port port = do
    resp ← send (
        form_post net (url ++ codes "/api/v2/app/setPreferences")
          ((codes "json", codes "{\"listen_port\":" ++ (itoa port ++ codes "}")) ∷ []))
    require (resp.status_code == 200)

  abbrev pub preferences : Request
  preferences = record {
    method = "GET";
    url = url ++ codes "/api/v2/app/preferences";
    headers = [];
    auth = none;
    body = [];
  }

  abbrev pub expected : ℕ → Bytes
  expected port = codes "\"listen_port\":" ++ itoa port

  unfoldable pub verify_port : ℕ → M W (Unit {0})
  verify_port port = do
    resp ← send preferences
    body ← of_result resp.body
    require (contains body (expected port))

  unfoldable pub sync_port : ℕ → M W (Unit {0})
  sync_port port = do login; set_port port; verify_port port
