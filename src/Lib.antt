-- ===== src/Lib.antt =====
-- Cr3dX: the off-chain worker that carries evidence of payments from a source chain to Creditcoin, and
-- the plans and the page beside it.
--
-- The worker (worker/) reads the source chain window by window, keeps one task file for each enrolled
-- source transaction, submits proofs of it to the destination chain, and applies the evidence that
-- arrives. One signer writes, so one task at most may hold a signed envelope: the global write lane. The
-- scripts (scripts/lib/) plan the token movements of a live run; the page (ui/src/) compares what the
-- chain answers with an accepted snapshot.
--
-- Which file models which part:
--   Types, Types/Names, Types/Port   worker/types.ts, the interfaces of worker/chain.ts and
--                                    scripts/lib/proofs.ts, `WorkerPort` of worker/engine.ts
--   Policy                           worker/policy.ts; Policy/* prove what it decides
--   Exec                             the worker's methods as actions on a world: the state file, the task
--                                    files, the task object that the running method holds, the effects so
--                                    far, and the number of calls made to the outside. Exec/Keeps has the
--                                    rules of invariants, Exec/Triples those of results, Exec/Returning
--                                    those of actions that return.
--   State                            worker/state.ts; State/Directory, State/Reading, State/Values and
--                                    State/Files prove what its reads and writes do;
--                                    State/Bootstrap is `bootstrap` and
--                                    its command, State/Writing is `atomicWriteJson`
--   Engine                           worker/engine.ts, one module for each group of methods: Objects and
--                                    Marks (the small ones), Semantic, Attempts, Claim
--                                    (`persistSignedEnvelope`), Envelope, Broadcast, Confirm, Tasks,
--                                    Candidates, Admission (`ingestReceipt`), Sources
--                                    (`reconcileSourceCanonicality`), Scan, Commands (`tick` and the
--                                    commands of worker/cli.ts)
--   Engine/Invariants                the interface `Rules`: what a predicate has to survive so that every
--                                    method keeps it. Engine/Lane, Engine/WriteAhead and
--                                    Engine/Simulated fill it in; Engine/Sealed, Engine/Sealing,
--                                    Engine/Finalizing, Engine/Limits and Engine/Standing are about
--                                    single methods, Engine/Progress about methods that return,
--                                    Engine/Lookup about
--                                    `findEvidence`.
--   Engine/Crash                     lives of the worker: bootstrap, commands that end or are cut off
--                                    behind any of their effects, and starts on what is left
--   Chain                            the fees, the log query and the event decoder of worker/chain.ts;
--                                    Chain/Reads and Chain/Destination its other reads, the requests, and
--                                    the check of the deployment
--   Config                           worker/config.ts
--   Rpc                              `withRetry` and the SCALE numbers of scripts/lib/rpc.ts, and
--                                    `runtimeIntervals` of worker/chain.ts
--   Enrollment                       worker/enrollment.ts, and the command `enroll` of worker/cli.ts
--   Inspection                       the commands of worker/cli.ts that only print, and `summarizeState`
--   LivePlan, S5Plan                 scripts/lib/live-plan.ts, scripts/lib/s5-plan.ts
--   EnvFile                          scripts/lib/env-persistence.ts and scripts/create-wallets.ts: Text and
--                                    Update what is read and decided, Disk and Machine the calls of
--                                    node:fs, Replace and Prepare what is done with them, Generate the
--                                    new keys; the other modules prove what a run leaves
--   LiveState                        ui/src/live-state.ts; LiveState/Reading is `readLiveState` of
--                                    ui/src/rpc.ts
--   Examples                         concrete inputs
--
-- The chains, the clocks, the random source, the hashes and ethers' ABI decoder are parameters: an
-- environment `Env`, whose chain answers each call by the number of calls before it, with a value or an
-- exception. Nothing is assumed of the answers, except where a theorem names it among its hypotheses. A
-- method that throws leaves what it has written, so an action returns its world beside the error. A process
-- that dies within a command leaves what the effects up to there have made; Engine/Crash replays them.
-- There, a write of a file has happened whole or not at all; State/Writing is about the write itself.
-- The disk of EnvFile is a POSIX one that only this process changes; any call may fail, and a failing
-- write may leave a part of the text. Each call records the disk it began with, where a process may die.
-- Times are milliseconds, decimal strings the numbers in them, and amounts do not wrap (`bigint`).
-- Math.random() is a multiple of 2^-53, so the jitter of a retry is an exact fraction; the source
-- computes it in floating point.
--
-- The loop over scan windows is recursion on fuel, with one round for each block from the start to the
-- head, which is enough. Links of the disk are followed forty times, as systems do. All other loops are
-- structural.
--
-- Not modelled: the network calls behind worker/chain.ts, the modes of the worker's files, what a power
-- loss makes of data that is not synchronized, log output, the network access of scripts/lib and its files
-- but the environment file, the drawing of the page, the one-off scripts, the contracts.
pub mod Base
pub mod Types
pub mod Policy
pub mod Exec
pub mod State
pub mod Engine
pub mod Chain
pub mod Config
pub mod Rpc
pub mod EnvFile
pub mod LivePlan
pub mod S5Plan
pub mod LiveState
pub mod Enrollment
pub mod Inspection
pub mod Examples
