-- ===== src/Cacher.antt =====
-- internal/cacher: the data that outlives a connection.
pub mod Merge
pub mod MergeLaws
pub mod ServerLaws
pub mod Cache
pub mod TokenFile
pub mod TokenRound
pub mod WellFormed
mod Tests
pub mod RefreshKeeps
