-- ===== src/Examples.antt =====
-- Concrete inputs on which the theorems apply.
pub mod Policy
pub mod Plans
pub mod Progress
pub mod Worker
pub mod Lane
pub mod Tasks
pub mod Scans
pub mod Chains
pub mod Rpc
pub mod Crash
pub mod EnvFile
pub mod Config
pub mod Pages
pub mod Enrolling
pub mod Inspecting
pub mod Writing
