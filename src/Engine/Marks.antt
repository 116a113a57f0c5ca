-- ===== src/Engine/Marks.antt =====
-- worker/engine.ts: the small methods that every other one calls, which move the states, record the
-- transitions, and time the attempts. What they print to the log is not modelled.
use cr3d_x.Base.{
  ℕ, suc, ◌+◌, String, ◌<>◌, str_eq, Bool, true, false, not, ◌||◌, Option, none, some, List, [],
  ◌∷◌, ◌++◌, map, leb, ◌==◌, if◌then◌else◌, any, maximum, redact, decimal,
}
use mathlib.Core.List.{flat_map}
use cr3d_x.Types.{
  Transition, AttemptEpoch, EvidenceRecord, LogicalTask, WorkerTask, WorkerState, SubmissionState,
  EvidenceAutomationState,
}
use cr3d_x.Types.Names.{submission_name, automation_name}
use cr3d_x.Types.Port.{ok, Env}
use cr3d_x.Policy.{new_epoch, retry_delay_ms}
use cr3d_x.Exec.{Exec, pure, gets, call, ◌>>=◌, ◌>>◌, when, modify_logical, get_logical}
use cr3d_x.State.{read_state, write_state, write_task, list_tasks}
use cr3d_x.Engine.Objects.{
  EvidenceRef, fetch, assign, EpochOwner, of_task, of_evidence, assign_epoch,
}

unfoldable pub transition : ℕ → Option String → String → String → Transition
transition at_ms from to reason = record { at = at_ms; from = from; to = to; reason = reason }

-- safeError: the message, with long hexadecimal runs taken out
unfoldable pub safe_error : String → String
safe_error message = redact message

unfoldable pub is_resource_stop : String → Bool
is_resource_stop message =
    str_eq message "GAS_CAP_EXCEEDED"
    || str_eq message "FEE_CAP_EXCEEDED"
    || str_eq message "ROLLING_BUDGET_EXCEEDED"
    || str_eq message "BALANCE_RESERVE_EXCEEDED"

unfoldable pub push_transition : Transition → LogicalTask → LogicalTask
push_transition t l = record l { transitions = l.transitions ++ t ∷ [] }

unfoldable pub put_submission : SubmissionState → LogicalTask → LogicalTask
put_submission to l = record l { source_submission_state = to }

unfoldable pub push_evidence_transition : Transition → EvidenceRecord → EvidenceRecord
push_evidence_transition t e = record e { transitions = e.transitions ++ t ∷ [] }

unfoldable pub put_automation : EvidenceAutomationState → EvidenceRecord → EvidenceRecord
put_automation to e = record e { automation_state = to }

unfoldable pub put_rejection : String → EvidenceRecord → EvidenceRecord
put_rejection reason e = record e { rejection_reason = reason }

unfoldable pub put_attention : String → LogicalTask → LogicalTask
put_attention reason l = record l { source_attention_reason = some reason }

-- The nonces of all confirmed operations of all tasks.
unfoldable pub confirmed_nonces : List WorkerTask → List ℕ
confirmed_nonces tasks =
    flat_map (λ t. map (λ operation. operation.nonce) t.logical.operation_history) tasks

unfoldable pub next_nonce : WorkerState → List ℕ → ℕ
next_nonce state [] = state.bootstrap_latest_nonce
next_nonce state (n ∷ confirmed) = suc (maximum (n ∷ confirmed))

unfoldable pub add_reason : String → WorkerState → WorkerState
add_reason reason state =
    if any (λ known. str_eq known reason) state.global_attention_reasons
    then state
    else record state { global_attention_reasons = state.global_attention_reasons ++ reason ∷ [] }

-- globalAttention
unfoldable pub global_attention : String → Exec Unit
global_attention reason = do state ← read_state; write_state (add_reason reason state)

module _ (env : Env) where
  -- this.now()
  unfoldable pub now : Exec ℕ
  now = call (λ n. ok (env.now n))

  -- newEpoch(this.now()): the object is told apart by when it was made
  unfoldable pub fresh_epoch : Bool → Exec AttemptEpoch
  fresh_epoch resumed = do
    object ← gets (λ w. w.calls)
    at ← now
    pure (new_epoch object at resumed)

  unfoldable pub set_submission_state : SubmissionState → String → Exec Unit
  set_submission_state to reason = do
    l ← get_logical
    let from = submission_name l.source_submission_state
    when (not (str_eq from (submission_name to))) do
      at ← now
      modify_logical (push_transition (transition at (some from) (submission_name to) reason))
    modify_logical (put_submission to)

  unfoldable pub set_evidence_state : EvidenceRef → EvidenceAutomationState → String → Exec Unit
  set_evidence_state r to reason = do
    event ← fetch r
    let from = automation_name event.automation_state
    when (not (str_eq from (automation_name to))) do
      at ← now
      assign r (push_evidence_transition (transition at (some from) (automation_name to) reason))
    assign r (put_automation to)

  unfoldable pub set_task_attention : String → Exec Unit
  set_task_attention reason = do
    modify_logical (put_attention reason)
    set_submission_state SubmissionState.attention_required reason

  unfoldable pub set_evidence_attention : EvidenceRef → String → Exec Unit
  set_evidence_attention r reason = do
    assign r (put_rejection reason)
    set_evidence_state r EvidenceAutomationState.attention_required reason

  -- The attention of the evidence if one is given, and else of the task.
  unfoldable pub set_owner_attention : EpochOwner → String → Exec Unit
  set_owner_attention of_task reason = set_task_attention reason
  set_owner_attention (of_evidence r) reason = set_evidence_attention r reason

  unfoldable pub is_due : AttemptEpoch → ℕ → Bool
  is_due epoch at = elim epoch.next_attempt_at [ none ↦ true | some next ↦ leb next at ]

  unfoldable pub epoch_eligible : AttemptEpoch → String → EpochOwner → Exec Bool
  epoch_eligible epoch label owner = do
    at ← now
    if leb epoch.deadline_at at
        then (do set_owner_attention owner (label <> " epoch expired"); write_task env; pure false)
        else (do later ← now; pure (is_due epoch later))

  unfoldable pub retried : AttemptEpoch → ℕ → ℕ → AttemptEpoch
  retried epoch last next = record epoch {
    last_attempt_at = some last;
    next_attempt_at = some next;
    retry_index = suc epoch.retry_index;
  }

  unfoldable pub mark_retry : EpochOwner → String → Exec Unit
  mark_retry of_task reason = set_submission_state SubmissionState.ready_for_proof reason
  mark_retry (of_evidence r) reason = pure tt

  unfoldable pub schedule_retry : AttemptEpoch → String → EpochOwner → Exec Unit
  schedule_retry epoch reason owner = do
    at ← now
    draw ← call (λ n. ok (env.random n))
    let delay = retry_delay_ms epoch at draw
    if delay == 0 then set_owner_attention owner (reason <> ": epoch expired") else (do
      last ← now
      next ← now
      modify_logical (assign_epoch owner (retried epoch last (next + delay)))
      mark_retry owner reason
      at_retry ← now
      modify_logical (
          push_transition (
            transition at_retry (some "RETRY") "RETRY"
              (reason <> "; next in " <> decimal delay <> "ms"))))
    write_task env

  -- expectedNextNonce
  unfoldable pub expected_next_nonce : Exec ℕ
  expected_next_nonce = do
    state ← read_state
    tasks ← list_tasks env
    pure (next_nonce state (confirmed_nonces tasks))
