-- ===== src/Engine/Crash/Replay.antt =====
-- The files of worker/state.ts, from the writes alone.
use cr3d_x.Base.{◌≡◌, String, Option, none, some, List, [], ◌∷◌, ◌++◌, All}
use cr3d_x.Types.{WorkerState, WorkerTask}
use cr3d_x.Exec.{World, Effect, wrote_state, wrote_task, signed, broadcast}
use cr3d_x.State.{put_task}
use cr3d_x.State.Directory.{Distinct, Owns}

-- The task files that the effects leave, the newest effect first.
abbrev pub replay : List Effect → List WorkerTask
replay [] = []
replay (wrote_task t ∷ trace) = put_task t (replay trace)
replay (wrote_state s ∷ trace) = replay trace
replay (signed request ∷ trace) = replay trace
replay (broadcast raw ∷ trace) = replay trace

-- The state file that they leave.
abbrev pub replay_state : List Effect → Option WorkerState
replay_state [] = none
replay_state (wrote_state s ∷ trace) = some s
replay_state (wrote_task t ∷ trace) = replay_state trace
replay_state (signed request ∷ trace) = replay_state trace
replay_state (broadcast raw ∷ trace) = replay_state trace

-- The files have different names, and one at most holds an envelope.
abbrev pub HasOneOwner : List WorkerTask → Type 0
HasOneOwner tasks = (owner : String) × All (Owns owner) tasks × Distinct tasks

-- So it is after each effect.
abbrev pub IsSafeTrace : List Effect → Type 0
IsSafeTrace [] = HasOneOwner []
IsSafeTrace (e ∷ trace) = HasOneOwner (replay (e ∷ trace)) × IsSafeTrace trace

-- The directory is what its writes have made it, and was sound after each.
pub record IsCrashSafe (w : World) : Type 0 where
  pub tasks_stored : w.tasks ≡ replay w.trace
  pub state_stored : replay_state w.trace ≡ some w.state
  pub safe : IsSafeTrace w.trace

pub IsSafeTrace-head : (trace : List Effect) → IsSafeTrace trace → HasOneOwner (replay trace)
IsSafeTrace-head [] h = h
IsSafeTrace-head (e ∷ trace) h = h.0

pub IsSafeTrace-append :
    (later trace : List Effect) → IsSafeTrace (later ++ trace) → IsSafeTrace trace
IsSafeTrace-append [] trace h = h
IsSafeTrace-append (e ∷ later) trace h = IsSafeTrace-append later trace h.1
