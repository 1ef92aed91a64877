-- ===== src/Wg.antt =====
-- internal/wg: the tunnel.
pub mod Tunnel
pub mod Calls
