-- ===== src/Engine/Invariants/Marks.antt =====
-- The store and the small methods of worker/engine.ts keep what survives the rules.
use cr3d_x.Base.{ℕ, String, Bool, Option}
use cr3d_x.Types.{
  WorkerState, AttemptEpoch, EvidenceRecord, SubmissionState, EvidenceAutomationState, LogicalTask,
  InFlightReceipt,
}
use cr3d_x.Types.Port.{Result, Env}
use cr3d_x.Exec.{World, call, modify_logical, note_receipt, release, get_envelope, get_logical}
use cr3d_x.Exec.Keeps.{Keeps, Keeps-gets, Keeps-call, keeps_rules}
use cr3d_x.State.{write_state, write_task, save_state, touch_task, save_task}
use cr3d_x.State.Reading.{
  assert_established-Keeps, read_state-Keeps, check_task_path-Keeps, list_tasks-Keeps,
}
use cr3d_x.Engine.Objects.{EvidenceRef, fetch, assign, EpochOwner, of_task, of_evidence}
use cr3d_x.Engine.Marks.{
  global_attention, now, fresh_epoch, set_submission_state, set_evidence_state, set_task_attention,
  set_evidence_attention, set_owner_attention, epoch_eligible, mark_retry, schedule_retry,
  expected_next_nonce,
}
use cr3d_x.Engine.Invariants.{Rules}

module _ {P : World → Type 0} where
  pub get_logical-Keeps : Keeps P get_logical
  unfolding get_logical
  get_logical-Keeps = Keeps-gets _

  pub get_envelope-Keeps : Keeps P get_envelope
  unfolding get_envelope
  get_envelope-Keeps = Keeps-gets _

module _ {P : World → Type 0} (env : Env) where
  pub expected_next_nonce-Keeps : Keeps P (expected_next_nonce env)
  unfolding expected_next_nonce
  expected_next_nonce-Keeps = search (keeps_rules, read_state-Keeps, list_tasks-Keeps) depth 12

module _ {P : World → Type 0} (rules : Rules P) where
  pub call-Keeps : {A : Type 0} (f : ℕ → Result A) → Keeps P (call f)
  call-Keeps f = Keeps-call rules.calls f

  pub modify_logical-Keeps : (f : LogicalTask → LogicalTask) → Keeps P (modify_logical f)
  modify_logical-Keeps f = rules.logical f

  pub note_receipt-Keeps : (r : Option InFlightReceipt) → Keeps P (note_receipt r)
  note_receipt-Keeps r = rules.receipt r

  pub release-Keeps : Keeps P release
  release-Keeps = rules.released

  save_state-Keeps : (state : WorkerState) → Keeps P (save_state state)
  save_state-Keeps state = rules.state_saved state

  touch_task-Keeps : (at : ℕ) → Keeps P (touch_task at)
  touch_task-Keeps at = rules.touched at

  save_task-Keeps : Keeps P save_task
  save_task-Keeps = rules.task_saved

  pub write_state-Keeps : (state : WorkerState) → Keeps P (write_state state)
  unfolding write_state
  write_state-Keeps state = search (keeps_rules, save_state-Keeps) depth 12

  pub global_attention-Keeps : (reason : String) → Keeps P (global_attention reason)
  unfolding global_attention
  global_attention-Keeps reason = search (keeps_rules, read_state-Keeps, write_state-Keeps) depth 12

  pub fetch-Keeps : (r : EvidenceRef) → Keeps P (fetch r)
  unfolding fetch
  fetch-Keeps r = search (keeps_rules, get_logical-Keeps) depth 12

  pub assign-Keeps : (r : EvidenceRef) (f : EvidenceRecord → EvidenceRecord) → Keeps P (assign r f)
  unfolding assign
  assign-Keeps r f = rules.logical _

  pub ruleset base_rules = (
    keeps_rules, call-Keeps, modify_logical-Keeps, get_logical-Keeps, get_envelope-Keeps,
    read_state-Keeps, fetch-Keeps, assign-Keeps, global_attention-Keeps,
  )

  module _ (env : Env) where
    pub now-Keeps : Keeps P (now env)
    unfolding now
    now-Keeps = call-Keeps _

    pub fresh_epoch-Keeps : (resumed : Bool) → Keeps P (fresh_epoch env resumed)
    unfolding fresh_epoch
    fresh_epoch-Keeps resumed = search (keeps_rules, now-Keeps) depth 12

    pub write_task-Keeps : Keeps P (write_task env)
    unfolding write_task
    write_task-Keeps =
        search
          (
            keeps_rules, assert_established-Keeps, check_task_path-Keeps, call-Keeps,
            touch_task-Keeps, save_task-Keeps,
          )
          depth 15

    pub set_submission_state-Keeps :
        (to : SubmissionState) (reason : String) → Keeps P (set_submission_state env to reason)
    unfolding set_submission_state
    set_submission_state-Keeps to reason = search (base_rules, now-Keeps) depth 15

    pub set_evidence_state-Keeps :
        (r : EvidenceRef) (to : EvidenceAutomationState) (reason : String)
        → Keeps P (set_evidence_state env r to reason)
    unfolding set_evidence_state
    set_evidence_state-Keeps r to reason = search (base_rules, now-Keeps) depth 15

    pub set_task_attention-Keeps : (reason : String) → Keeps P (set_task_attention env reason)
    unfolding set_task_attention
    set_task_attention-Keeps reason = search (base_rules, set_submission_state-Keeps) depth 15

    pub set_evidence_attention-Keeps :
        (r : EvidenceRef) (reason : String) → Keeps P (set_evidence_attention env r reason)
    unfolding set_evidence_attention
    set_evidence_attention-Keeps r reason = search (base_rules, set_evidence_state-Keeps) depth 15

    pub set_owner_attention-Keeps :
        (owner : EpochOwner) (reason : String) → Keeps P (set_owner_attention env owner reason)
    unfolding set_owner_attention
    set_owner_attention-Keeps of_task reason = set_task_attention-Keeps reason
    set_owner_attention-Keeps (of_evidence r) reason = set_evidence_attention-Keeps r reason

    pub epoch_eligible-Keeps :
        (epoch : AttemptEpoch) (label : String) (owner : EpochOwner)
        → Keeps P (epoch_eligible env epoch label owner)
    unfolding epoch_eligible
    epoch_eligible-Keeps epoch label owner =
        search (base_rules, now-Keeps, set_owner_attention-Keeps, write_task-Keeps) depth 15

    mark_retry-Keeps :
        (owner : EpochOwner) (reason : String) → Keeps P (mark_retry env owner reason)
    unfolding mark_retry
    mark_retry-Keeps of_task reason = set_submission_state-Keeps _ reason
    mark_retry-Keeps (of_evidence r) reason = search keeps_rules

    pub schedule_retry-Keeps :
        (epoch : AttemptEpoch) (reason : String) (owner : EpochOwner)
        → Keeps P (schedule_retry env epoch reason owner)
    unfolding schedule_retry
    schedule_retry-Keeps epoch reason owner =
        search
          (base_rules, now-Keeps, set_owner_attention-Keeps, mark_retry-Keeps, write_task-Keeps)
          depth 20

    pub ruleset mark_rules = (
      base_rules, now-Keeps, fresh_epoch-Keeps, write_task-Keeps, set_submission_state-Keeps,
      set_evidence_state-Keeps, set_task_attention-Keeps, set_evidence_attention-Keeps,
      set_owner_attention-Keeps, epoch_eligible-Keeps, schedule_retry-Keeps,
    )
