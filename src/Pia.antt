-- ===== src/Pia.antt =====
-- internal/pia: the data of types.go, and the answers that client.go reads.
pub mod Types
pub mod JsonEnd
pub mod JsonEndLaws
pub mod Client
pub mod Requests
mod Tests
