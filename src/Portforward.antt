-- ===== src/Portforward.antt =====
-- internal/portforward: the port that PIA's gateway forwards, from its signature to its teardown.
pub mod Payload
pub mod PayloadLaws
pub mod Client
pub mod Manager
pub mod Keeps
pub mod Succeeds
pub mod Ends
pub mod Retrying
pub mod Closes
pub mod RunCloses
mod Tests
