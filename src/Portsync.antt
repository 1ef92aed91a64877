-- ===== src/Portsync.antt =====
-- internal/portsync: passing the forwarded port on to a torrent client and a script.
pub mod Syncer
pub mod Json
pub mod JsonLaws
pub mod Net
pub mod Qbittorrent
pub mod Transmission
pub mod Deluge
pub mod Clients
pub mod Confirmed
pub mod Latest
mod Tests
