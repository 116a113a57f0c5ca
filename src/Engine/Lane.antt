-- ===== src/Engine/Lane.antt =====
-- The global write lane of worker/engine.ts, as an invariant of the methods: who may hold an envelope.
pub mod Claims
pub mod Run
use cr3d_x.Base.{ℕ, String, Bool, Option, arith, All}
use cr3d_x.Types.{Hex, WorkerTask, InFlightReceipt}
use cr3d_x.Types.Port.{Env}
use cr3d_x.Policy.{is_some}
use cr3d_x.Exec.{Exec, World, modify_logical, note_receipt, release, open_task}
use cr3d_x.Exec.Keeps.{Keeps, IsCallProof}
use cr3d_x.State.{save_state, touch_task, save_task}
use cr3d_x.State.Directory.{Distinct, IsIdle, Owns, All-put_task, Distinct-put_task}
use cr3d_x.Engine.Broadcast.{
  stamp_envelope, check_broadcast_hash, send, send_written, broadcast_exact,
}
use cr3d_x.Engine.Invariants.{Rules}
use cr3d_x.Engine.Invariants.Semantic.{semantic_rules}
use cr3d_x.Engine.Invariants.Envelope.{the_envelope-Keeps}

-- No envelope is held but by the task `owner`, in the directory or by the running method.
pub record HeldBy (owner : String) (w : World) : Type 0 where
  pub held : Owns owner w.task
  pub stored : All (Owns owner) w.tasks
  pub distinct : Distinct w.tasks

-- There is one owner at most.
abbrev pub HasLane : World → Type 0
HasLane w = (owner : String) × HeldBy owner w

HeldBy-note_receipt :
    (owner : String) (r : Option InFlightReceipt) → Keeps (HeldBy owner) (note_receipt r)
unfolding note_receipt is_some
HeldBy-note_receipt owner r = record {
  at = λ w h. record { held = ground (arith, h.held); stored = h.stored; distinct = h.distinct };
}

HeldBy-release : (owner : String) → Keeps (HeldBy owner) release
unfolding release is_some
HeldBy-release owner = record {
  at = λ w h. record { held = λ e. cc; stored = h.stored; distinct = h.distinct };
}

HeldBy-save_task : (owner : String) → Keeps (HeldBy owner) save_task
unfolding save_task
HeldBy-save_task owner = record {
  at = λ w h. record {
    held = h.held;
    stored = All-put_task (Owns owner) w.task w.tasks h.held h.stored;
    distinct = Distinct-put_task w.task w.tasks h.distinct;
  };
}

pub HeldBy-Rules : (owner : String) → Rules (HeldBy owner)
unfolding modify_logical save_state touch_task
HeldBy-Rules owner = record {
  calls = record { at = λ w h. record { held = h.held; stored = h.stored; distinct = h.distinct } };
  logical = λ f. record {
    at = λ w h. record { held = h.held; stored = h.stored; distinct = h.distinct };
  };
  receipt = HeldBy-note_receipt owner;
  released = HeldBy-release owner;
  state_saved = λ state. record {
    at = λ w h. record { held = h.held; stored = h.stored; distinct = h.distinct };
  };
  touched = λ at. record {
    at = λ w h. record { held = h.held; stored = h.stored; distinct = h.distinct };
  };
  task_saved = HeldBy-save_task owner;
}

-- A method goes on with a task that holds no envelope, or is the owner.
pub HeldBy-open_task :
    (owner : String) (t : WorkerTask) → Owns owner t → Keeps (HeldBy owner) (open_task t)
unfolding open_task
HeldBy-open_task owner t owns = record {
  at = λ w h. record { held = owns; stored = h.stored; distinct = h.distinct };
}

-- What keeps every owner keeps that there is one.
pub HasLane-Keeps :
    {A : Type 0} {m : Exec A} → ((owner : String) → Keeps (HeldBy owner) m) → Keeps HasLane m
HasLane-Keeps keeps = record { at = λ w h. (h.0, (keeps h.0).at w h.1) }

HasLane-calls : IsCallProof HasLane
HasLane-calls = record { at = λ w h. (h.0, (HeldBy-Rules h.0).calls.at w h.1) }

pub HasLane-Rules : Rules HasLane
HasLane-Rules = record {
  calls = HasLane-calls;
  logical = λ f. HasLane-Keeps (λ o. (HeldBy-Rules o).logical f);
  receipt = λ r. HasLane-Keeps (λ o. (HeldBy-Rules o).receipt r);
  released = HasLane-Keeps (λ o. (HeldBy-Rules o).released);
  state_saved = λ state. HasLane-Keeps (λ o. (HeldBy-Rules o).state_saved state);
  touched = λ at. HasLane-Keeps (λ o. (HeldBy-Rules o).touched at);
  task_saved = HasLane-Keeps (λ o. (HeldBy-Rules o).task_saved);
}

pub HeldBy-stamp_envelope :
    (owner : String) (at deadline : ℕ) → Keeps (HeldBy owner) (stamp_envelope at deadline)
unfolding stamp_envelope is_some
HeldBy-stamp_envelope owner at deadline = record {
  at = λ w h. record { held = ground (arith, h.held); stored = h.stored; distinct = h.distinct };
}

module _ (env : Env) where
  pub HeldBy-send : (owner : String) (raw : Hex) → Keeps (HeldBy owner) (send env raw)
  unfolding send
  HeldBy-send owner raw = record {
    at = λ w h. record { held = h.held; stored = h.stored; distinct = h.distinct };
  }

  -- A broadcast sends the envelope that is held, and leaves it with its owner.
  HeldBy-broadcast_exact :
      (owner : String) (operator_requested : Bool)
      → Keeps (HeldBy owner) (broadcast_exact env operator_requested)
  unfolding broadcast_exact send_written check_broadcast_hash
  HeldBy-broadcast_exact owner operator_requested =
      let rules = HeldBy-Rules owner in
      search (semantic_rules, the_envelope-Keeps, HeldBy-stamp_envelope, HeldBy-send) depth 20

  pub HasLane-broadcast_exact :
      (operator_requested : Bool) → Keeps HasLane (broadcast_exact env operator_requested)
  HasLane-broadcast_exact operator_requested =
      HasLane-Keeps (λ o. HeldBy-broadcast_exact o operator_requested)
