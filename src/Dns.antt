-- ===== src/Dns.antt =====
-- internal/dns: how names are resolved, and the proxy for DNS over TLS.
pub mod Resolver
pub mod Resolv
pub mod ResolvLaws
pub mod Backups
pub mod Proxy
pub mod Framing
pub mod Dispatching
pub mod Wire
pub mod Connection
mod Tests
