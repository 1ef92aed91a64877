-- ===== src/Firewall.antt =====
-- internal/firewall: the killswitch. `Os` is what the code asks of the system, the next modules
-- are its files, and the rest prove what it keeps.
pub mod Os
pub mod Chains
pub mod Exemptions
pub mod LocalNetworks
pub mod Backend
pub mod BackendLaws
pub mod Killswitch
pub mod Sealed
pub mod Closed
pub mod KeepsClosed
pub mod Policy
pub mod Baseline
pub mod NeverOpens
pub mod SetupCloses
pub mod Methods
pub mod Guards
pub mod Simulated
pub mod Blocked
mod Tests
