-- ===== src/Engine.antt =====
-- worker/engine.ts: `WorkerEngine`, one module for each group of its methods, and the proofs.
pub mod Objects
pub mod Marks
pub mod Semantic
pub mod Broadcast
pub mod Confirm
pub mod Envelope
pub mod Claim
pub mod Attempts
pub mod Tasks
pub mod Candidates
pub mod Admission
pub mod Sources
pub mod Scan
pub mod Commands
pub mod Invariants
pub mod Lane
pub mod WriteAhead
pub mod Standing
pub mod Limits
pub mod Simulated
pub mod Lookup
pub mod Finalizing
pub mod Progress
pub mod Sealed
pub mod Sealing
pub mod Crash
