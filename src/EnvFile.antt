-- ===== src/EnvFile.antt =====
-- scripts/lib/env-persistence.ts: private keys in an environment file, which scripts/create-wallets.ts
-- fills. `Text` is what it reads and writes, `Update` what it decides, `Machine` and `Replace` how it
-- touches the disk.
pub mod Text
pub mod Lines
pub mod Trims
pub mod Update
pub mod Entries
pub mod Rereads
pub mod Renders
pub mod Stability
pub mod Disk
pub mod Machine
pub mod Replace
pub mod Prepare
pub mod Triples
pub mod Nodes
pub mod Temporary
pub mod Moved
pub mod Ready
pub mod Looks
pub mod Atomic
pub mod Kept
pub mod Own
pub mod Probe
pub mod Tightened
pub mod Originals
pub mod Seen
pub mod Prepared
pub mod Saving
pub mod Saved
pub mod Generate
pub mod Twice
