-- ===== src/Portsync/Clients.antt =====
-- The clients of internal/portsync behind `Client`, and the script of internal/portsync/command.go.
use pia_tun.Base.{ℕ, M}
use pia_tun.Base.Text.{Bytes, codes}
use pia_tun.Portsync.Json.{replace_all}
use pia_tun.Portsync.Net.{Net}
use pia_tun.Portsync.Syncer.{Client, qbittorrent, transmission, deluge}
use pia_tun.Portsync.Qbittorrent
use pia_tun.Portsync.Transmission
use pia_tun.Portsync.Deluge

module _ {W : Type 0} (net : Net W) where
  open net use {itoa, shell}

  -- `SyncPort` of each `Client`.
  unfoldable pub sync_port : Client → ℕ → M W (Unit {0})
  sync_port (qbittorrent url user pass) port =
      Qbittorrent.sync_port net (codes url) (codes user) (codes pass) port
  sync_port (transmission url user pass) port =
      Transmission.sync_port net (codes url) (codes user) (codes pass) port
  sync_port (deluge url pass) port = Deluge.sync_port net (codes url) (codes pass) port

  -- A script that fails or runs out of time is an error.
  unfoldable pub execute_script : Bytes → ℕ → M W (Unit {0})
  execute_script script port = shell (replace_all script (codes "{PORT}") (itoa port))
