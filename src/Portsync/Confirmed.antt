-- ===== src/Portsync/Confirmed.antt =====
-- What `SyncPort` of internal/portsync/qbittorrent.go has seen when it succeeds.
use pia_tun.Base.{ℕ, true, ◌≡◌, Result, ok}
use pia_tun.Base.Text.{Bytes, contains}
use pia_tun.Portsync.Net.{Net, Response}
use pia_tun.Portsync.Qbittorrent.{login, set_port, preferences, expected}

module _ {W : Type 0} (net : Net W) (url user pass : Bytes) where
  open net use {send}

  -- An answer whose body has the text `"listen_port":` with the port behind it.
  abbrev pub Shows : ℕ → Result Response × W → W → Type 0
  Shows port r w' =
      (resp : Response) × (body : Bytes) × (r ≡ (ok resp, w'))
      × (resp.body ≡ ok body)
      × (contains body (expected net url user pass port) ≡ true)

  -- The three steps, each from where the one before it ended.
  abbrev pub Confirmed : ℕ → W → W → Type 0
  Confirmed port w w' =
      (v1 : W) × (v2 : W) × (login net url user pass w ≡ (ok tt, v1))
      × (set_port net url user pass port v1 ≡ (ok tt, v2))
      × Shows port (send (preferences net url user pass) v2) w'
