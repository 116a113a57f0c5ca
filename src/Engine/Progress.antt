-- ===== src/Engine/Progress.antt =====
-- Methods of worker/engine.ts that return, on chains that answer.
pub mod Presence
pub mod Steady
pub mod Marks
pub mod Semantic
pub mod Release
pub mod Tick
