-- ===== src/Vpn.antt =====
-- internal/vpn: the choice of a server and the steps of a connection.
pub mod Servers
pub mod Login
pub mod Choice
pub mod Setup
pub mod Verify
pub mod Steps
pub mod LoginKeeps
pub mod ChoiceKeeps
pub mod SetupKeeps
pub mod LeavesRules
pub mod Selection
pub mod Candidates
pub mod Tokens
mod Tests
