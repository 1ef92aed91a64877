-- ===== src/Proxy.antt =====
-- internal/proxy: the SOCKS5 proxy and the HTTP proxy.
pub mod Socks5
pub mod Authorised
pub mod Session
pub mod Http
pub mod HttpAuth
mod Tests
