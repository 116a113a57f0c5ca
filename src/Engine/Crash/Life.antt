-- ===== src/Engine/Crash/Life.antt =====
-- The whole life of a worker: worker/cli.ts bootstraps a directory, runs commands on it, dies at any
-- point, and is started again on the files that it has left.
use cr3d_x.Base.{ℕ, ◌≡◌, ◌≤◌, refl, subst, some, List, [], ◌∷◌, ◌++◌, length, true}
use cr3d_x.Types.{Hex, WorkerState, WorkerTask}
use cr3d_x.Types.Port.{Result, ok, Env}
use cr3d_x.Exec.{World, Effect, wrote_state, wrote_task, signed, broadcast}
use cr3d_x.State.Directory.{IsIdle}
use cr3d_x.State.Bootstrap.{StateDirectory, bootstrap_command}
use cr3d_x.Engine.Commands.{Command, run}
use cr3d_x.Engine.Lane.Run.{owners, Owns-idle, one_owner}
use cr3d_x.Engine.WriteAhead.{SendsWritten, run-SendsWritten}
use cr3d_x.Engine.Crash.Replay.{
  replay, replay_state, IsSafeTrace, IsSafeTrace-head, IsSafeTrace-append,
}
use cr3d_x.Engine.Crash.Runs.{IsRecoverable, run-IsRecoverable}

-- A new process on files: no method has run, and the trace is the history of the files. The answers of
-- the outside go on at any call.
abbrev pub process : WorkerState → List Effect → WorkerTask → ℕ → World
process state trace task calls = record {
  established = true;
  state = state;
  tasks = replay trace;
  task = task;
  trace = trace;
  calls = calls;
}

SendsWritten-append :
    (later trace : List Effect) → SendsWritten (later ++ trace) → SendsWritten trace
SendsWritten-append [] trace h = h
SendsWritten-append (wrote_state s ∷ later) trace h = SendsWritten-append later trace h
SendsWritten-append (wrote_task t ∷ later) trace h = SendsWritten-append later trace h
SendsWritten-append (signed request ∷ later) trace h = SendsWritten-append later trace h
SendsWritten-append (broadcast raw ∷ later) trace h = SendsWritten-append later trace h.1

-- What holds of every world of a life.
pub record IsLaneSafe (w : World) : Type 0 where
  pub one_owner : length (owners w) ≤ 1
  pub durable : (w.tasks ≡ replay w.trace) × (replay_state w.trace ≡ some w.state)
  pub sends : SendsWritten w.trace

module _ (env : Env) (get_address : Hex → Result Hex) where
  -- The worlds that a worker comes to. `killed` cuts the effects of a run at any point behind its start.
  pub data Life : World → Type 0 where
    born :
        (d d' : StateDirectory) (n calls : ℕ) (state : WorkerState) (task : WorkerTask)
        → bootstrap_command env get_address d n ≡ (ok state, d')
        → IsIdle task
        → Life (process state (wrote_state state ∷ []) task calls)
    ran : {w : World} → Life w → (commands : List Command) → Life (run env w commands)
    killed :
        {w : World}
        → Life w
        → (commands : List Command) (lost kept : List Effect) (state : WorkerState)
          (task : WorkerTask) (calls : ℕ)
        → (run env w commands).trace ≡ lost ++ (kept ++ w.trace)
        → replay_state (kept ++ w.trace) ≡ some state
        → IsIdle task
        → Life (process state (kept ++ w.trace) task calls)

  process-IsRecoverable :
      (state : WorkerState) (trace : List Effect) (task : WorkerTask) (calls : ℕ)
      → replay_state trace ≡ some state
      → IsSafeTrace trace
      → IsIdle task
      → IsRecoverable (process state trace task calls)
  process-IsRecoverable state trace task calls stored safe idle =
      let (owner, owns, distinct) = IsSafeTrace-head trace safe in
      (
        owner,
        record {
          lane = record { held = Owns-idle owner task idle; stored = owns; distinct = distinct };
          crash = record { tasks_stored = refl; state_stored = stored; safe = safe };
        },
      )

  Life-IsRecoverable : {w : World} → Life w → IsRecoverable w
  Life-IsRecoverable (born d d' n calls state task made idle) =
      process-IsRecoverable state _ task calls refl (("", tt, tt), ("", tt, tt)) idle
  Life-IsRecoverable (ran {w} life commands) =
      run-IsRecoverable env commands w (Life-IsRecoverable life)
  Life-IsRecoverable (killed {w} life commands lost kept state task calls cut stored idle) =
      let after = run-IsRecoverable env commands w (Life-IsRecoverable life) in
      process-IsRecoverable state _ task calls stored
        (IsSafeTrace-append lost _ (subst IsSafeTrace cut after.1.crash.safe)) idle

  Life-SendsWritten : {w : World} → Life w → SendsWritten w.trace
  Life-SendsWritten (born d d' n calls state task made idle) = tt
  Life-SendsWritten (ran {w} life commands) =
      run-SendsWritten env commands w (Life-SendsWritten life)
  Life-SendsWritten (killed {w} life commands lost kept state task calls cut stored idle) =
      SendsWritten-append lost _
        (subst SendsWritten cut (run-SendsWritten env commands w (Life-SendsWritten life)))

  -- Over a life of bootstrap, commands, deaths at any point and new starts, with any answers of the chains:
  -- one task file at most holds an envelope, the files are what the writes so far have made them, and
  -- every broadcast of signed bytes follows at once on a durable write of an envelope with these bytes.
  pub Life-IsLaneSafe : {w : World} → Life w → IsLaneSafe w
  Life-IsLaneSafe {w} life =
      let (owner, sound) = Life-IsRecoverable life in
      record {
        one_owner = one_owner owner w.tasks sound.lane.stored sound.lane.distinct;
        durable = (sound.crash.tasks_stored, sound.crash.state_stored);
        sends = Life-SendsWritten life;
      }
