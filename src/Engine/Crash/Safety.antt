-- ===== src/Engine/Crash/Safety.antt =====
-- Every method of worker/engine.ts leaves a directory that is sound after each of its effects.
use cr3d_x.Base.{ℕ, String, ◌≡◌, refl, sym, ap, subst, Bool, All}
use cr3d_x.Types.{Hex, WorkerState, WorkerTask, InFlightEnvelope, InFlightPurpose}
use cr3d_x.Types.Port.{TransactionRequest, Result, Env}
use cr3d_x.Policy.{PolicyVerdict, allowed, refused}
use cr3d_x.Exec.{World, Exec, modify_logical, note_receipt, release, open_task, call}
use cr3d_x.Exec.Keeps.{Keeps, IsCallProof, keeps_rules}
use cr3d_x.State
use cr3d_x.State.{save_state, write_state, touch_task, save_task}
use cr3d_x.State.Directory.{Owns, Distinct}
use cr3d_x.State.Reading.{read_state-Keeps, unresolved_lane-Keeps, list_tasks-Keeps}
use cr3d_x.Engine.Broadcast.{
  stamp_envelope, send, check_broadcast_hash, send_written, broadcast_exact,
}
use cr3d_x.Engine.Claim.{put_envelope, sign, permit, admit, seal, claim_behind, claim_lane}
use cr3d_x.Engine.Invariants.{Rules}
use cr3d_x.Engine.Invariants.Marks.{expected_next_nonce-Keeps}
use cr3d_x.Engine.Invariants.Semantic.{semantic_rules}
use cr3d_x.Engine.Invariants.Envelope.{the_envelope-Keeps}
use cr3d_x.Engine.Lane.{HeldBy, HeldBy-Rules, HeldBy-open_task, HeldBy-send, HeldBy-stamp_envelope}
use cr3d_x.Engine.Marks.{global_attention, now}
use cr3d_x.Engine.Crash.Replay.{IsCrashSafe, IsSafeTrace, IsSafeTrace-head}

-- Some task owns the lane, and a crash at any point so far would have been safe.
pub record IsSound (owner : String) (w : World) : Type 0 where
  pub lane : HeldBy owner w
  pub crash : IsCrashSafe w

Keeps-both :
    {A : Type 0} (owner : String) (m : Exec A)
    → Keeps (HeldBy owner) m
    → Keeps IsCrashSafe m
    → Keeps (IsSound owner) m
Keeps-both owner m kl kc = record {
  at = λ w h. record { lane = kl.at w h.lane; crash = kc.at w h.crash };
}

-- Where the files and the effects are the same, so is their safety.
IsCrashSafe-same :
    (w v : World)
    → v.tasks ≡ w.tasks
    → v.state ≡ w.state
    → v.trace ≡ w.trace
    → IsCrashSafe w
    → IsCrashSafe v
IsCrashSafe-same w v tasks state trace h = record {
  tasks_stored = cc (tasks, trace, h.tasks_stored);
  state_stored = cc (state, trace, h.state_stored);
  safe = subst IsSafeTrace (sym trace) h.safe;
}

crash-save_state : (state : WorkerState) → Keeps IsCrashSafe (save_state state)
unfolding save_state
crash-save_state state = record {
  at = λ w h. record {
    tasks_stored = h.tasks_stored;
    state_stored = refl;
    safe = (IsSafeTrace-head w.trace h.safe, h.safe);
  };
}

-- A write of the running task is sound where the lane has its owner.
IsSound-save_task : (owner : String) → Keeps (IsSound owner) save_task
unfolding save_task
IsSound-save_task owner = record {
  at = λ w h.
      let lane = (HeldBy-Rules owner).task_saved.at w h.lane in
      let written = ap (State.put_task w.task) h.crash.tasks_stored in
      record {
        lane = unfold save_task in lane;
        crash = record {
          tasks_stored = written;
          state_stored = h.crash.state_stored;
          safe = (
            (
              owner,
              subst (All (Owns owner)) written lane.stored,
              subst Distinct written lane.distinct,
            ),
            h.crash.safe,
          );
        };
      };
}

module _ (owner : String) where
  pub IsSound-calls : IsCallProof (IsSound owner)
  IsSound-calls = record {
    at = λ w h. record {
      lane = (HeldBy-Rules owner).calls.at w h.lane;
      crash = IsCrashSafe-same w _ refl refl refl h.crash;
    };
  }

  unwritten :
      {A : Type 0} (m : Exec A)
      → Keeps (HeldBy owner) m
      → ((w : World) → IsCrashSafe w → IsCrashSafe (m w).1)
      → Keeps (IsSound owner) m
  unwritten m kl kc = Keeps-both owner m kl (record { at = kc })

  pub IsSound-Rules : Rules (IsSound owner)
  unfolding modify_logical note_receipt release touch_task
  IsSound-Rules = record {
    calls = IsSound-calls;
    logical = λ f.
        unwritten _ ((HeldBy-Rules owner).logical f) (λ w. IsCrashSafe-same w _ refl refl refl);
    receipt = λ r.
        unwritten _ ((HeldBy-Rules owner).receipt r) (λ w. IsCrashSafe-same w _ refl refl refl);
    released = unwritten _ (HeldBy-Rules owner).released (λ w. IsCrashSafe-same w _ refl refl refl);
    state_saved = λ state.
        Keeps-both owner _ ((HeldBy-Rules owner).state_saved state) (crash-save_state state);
    touched = λ at.
        unwritten _ ((HeldBy-Rules owner).touched at) (λ w. IsCrashSafe-same w _ refl refl refl);
    task_saved = IsSound-save_task owner;
  }

crash-put_envelope : (envelope : InFlightEnvelope) → Keeps IsCrashSafe (put_envelope envelope)
unfolding put_envelope
crash-put_envelope envelope = record { at = λ w. IsCrashSafe-same w _ refl refl refl }

crash-call : {A : Type 0} (f : ℕ → Result A) → Keeps IsCrashSafe (call f)
unfolding call
crash-call f = record { at = λ w. IsCrashSafe-same w _ refl refl refl }

crash-global_attention : (reason : String) → Keeps IsCrashSafe (global_attention reason)
unfolding global_attention write_state
crash-global_attention reason = search (keeps_rules, read_state-Keeps, crash-save_state) depth 12

module _ (env : Env) where
  crash-sign : (request : TransactionRequest) → Keeps IsCrashSafe (sign env request)
  unfolding sign
  crash-sign request = record {
    at = λ w h. record {
      tasks_stored = h.tasks_stored;
      state_stored = h.state_stored;
      safe = (IsSafeTrace-head w.trace h.safe, h.safe);
    };
  }

  crash-permit : (verdict : PolicyVerdict) → Keeps IsCrashSafe (permit env verdict)
  unfolding permit
  crash-permit (allowed liability) = search keeps_rules
  crash-permit (refused message) = search keeps_rules

  -- A claim of the lane writes no task.
  pub crash-claim_lane :
      (purpose : InFlightPurpose) (request : TransactionRequest)
      → Keeps IsCrashSafe (claim_lane env purpose request)
  unfolding claim_lane claim_behind seal admit now
  crash-claim_lane purpose request =
      search
        (
          keeps_rules, crash-call, crash-sign, crash-permit, crash-put_envelope,
          crash-global_attention, unresolved_lane-Keeps, list_tasks-Keeps,
          expected_next_nonce-Keeps,
        )
        depth 20

  IsSound-send : (owner : String) (raw : Hex) → Keeps (IsSound owner) (send env raw)
  unfolding send
  IsSound-send owner raw = Keeps-both owner _ (HeldBy-send env owner raw) (record {
    at = λ w h. record {
      tasks_stored = h.tasks_stored;
      state_stored = h.state_stored;
      safe = (IsSafeTrace-head w.trace h.safe, h.safe);
    };
  })

  IsSound-stamp_envelope :
      (owner : String) (at deadline : ℕ) → Keeps (IsSound owner) (stamp_envelope at deadline)
  unfolding stamp_envelope
  IsSound-stamp_envelope owner at deadline =
      unwritten owner _ (HeldBy-stamp_envelope owner at deadline)
        (λ w. IsCrashSafe-same w _ refl refl refl)

  pub IsSound-broadcast_exact :
      (owner : String) (operator_requested : Bool)
      → Keeps (IsSound owner) (broadcast_exact env operator_requested)
  unfolding broadcast_exact send_written check_broadcast_hash
  IsSound-broadcast_exact owner operator_requested =
      let rules = IsSound-Rules owner in
      search (semantic_rules, the_envelope-Keeps, IsSound-stamp_envelope, IsSound-send) depth 20

pub IsSound-open_task :
    (owner : String) (t : WorkerTask) → Owns owner t → Keeps (IsSound owner) (open_task t)
unfolding open_task
IsSound-open_task owner t owns =
    unwritten owner _ (HeldBy-open_task owner t owns) (λ w. IsCrashSafe-same w _ refl refl refl)
