-- ===== src/App.antt =====
-- internal/app: the loop around a connection.
pub mod Outside
pub mod Starting
pub mod Running
pub mod Parts
pub mod Backoff
pub mod Checking
pub mod Up
pub mod StartingKeeps
pub mod ForwardKeeps
pub mod RunningKeeps
pub mod Cleaning
pub mod Protected
pub mod Retry
pub mod Retrying
pub mod Ending
mod Simulated
mod Tests
