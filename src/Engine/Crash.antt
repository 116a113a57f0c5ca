-- ===== src/Engine/Crash.antt =====
-- What a process that dies leaves of the worker of worker/engine.ts: the files as the writes before have
-- made them, since each `atomicWriteJson` of worker/state.ts is one rename.
pub mod Replay
pub mod Safety
pub mod Runs
pub mod Life
