-- ===== src/Engine/Commands.antt =====
-- worker/engine.ts `startupChecks`, `tick`, `advanceTask`, `resume`, `resumeBroadcast`, and the
-- commands of worker/cli.ts that run them, as steps of the worker on its world.
use cr3d_x.Base.{
  ℕ, String, ◌<>◌, str_eq, Bool, true, false, not, ◌&&◌, ◌||◌, Option, none, some, List, [], ◌∷◌,
  ◌==◌, if◌then◌else◌, any, same_hex, decimal,
}
use cr3d_x.Types.{LogicalTask, WorkerTask, WorkerState, SubmissionState, EvidenceAutomationState}
use cr3d_x.Types.Names.{submission_name, contract_is_unseen, contract_is_pending, is_attention}
use cr3d_x.Types.Port.{RuntimeIntervals, Env}
use cr3d_x.Policy.{is_some, new_epoch}
use cr3d_x.Exec.{
  World, Exec, pure, gets, call, ◌>>=◌, ◌>>◌, on_option, traverse, when, require, modify_logical,
  open_task,
}
use cr3d_x.State.{
  assert_established, read_state, write_state, read_task, write_task, list_tasks, unresolved_lane,
}
use cr3d_x.Engine.Objects.{EvidenceRef, inclusion_events, current_refs, fetch, assign}
use cr3d_x.Engine.Marks.{transition, push_transition, now, set_submission_state, set_evidence_state}
use cr3d_x.Engine.Envelope.{reconcile_envelope}
use cr3d_x.Engine.Tasks.{process_task}
use cr3d_x.Engine.Scan.{scan_once}

unfoldable pub runtime_warning : RuntimeIntervals → Option String
runtime_warning runtime =
    if (runtime.attestation_interval == 10) && (runtime.checkpoint_interval == 10)
    then none
    else some (
        "runtime drift: expected 10/10, observed "
        <> decimal runtime.attestation_interval
        <> "/"
        <> decimal runtime.checkpoint_interval)

unfoldable pub has_attention : WorkerState → Bool
has_attention state = any (λ _. true) state.global_attention_reasons

unfoldable pub lane_message : WorkerTask → String
lane_message owner =
    "BLOCKED_BY_GLOBAL_LANE("
    <> owner.task_id
    <> ", "
    <> elim owner.in_flight [ none ↦ "undefined" | some envelope ↦ decimal envelope.nonce ]
    <> ")"

-- The commands of worker/cli.ts that move the worker: `run` is a sequence of `step`s, and a command
-- that throws leaves what it has written.
pub data Command : Type 0 where
  start step : Command
  advance resumes rebroadcast : String → Command

module _ (env : Env) where
  unfoldable pub startup_checks : Exec Unit
  startup_checks = do
    assert_established
    unresolved_lane env
    call env.chain.assert_deployment_configuration
    state ← read_state
    signer ← call env.chain.signer_address
    require (same_hex state.signer_address signer)
        "Configured signer differs from the signer that established this state directory"
    runtime ← call env.chain.runtime_intervals
    at ← now env
    write_state (record state {
      runtime_observation = some (record {
        observed_at = at;
        attestation_interval = runtime.attestation_interval;
        checkpoint_interval = runtime.checkpoint_interval;
        warning = runtime_warning runtime;
      });
    })

  -- The loop of tick: the first task that holds the lane ends it.
  unfoldable pub process_all : List WorkerTask → Exec Unit
  process_all [] = pure tt
  process_all (task ∷ tasks) = do
    open_task task
    in_lane ← process_task env
    if in_lane then pure tt else process_all tasks

  unfoldable pub pursue_lane : WorkerTask → Exec Unit
  pursue_lane owner = do open_task owner; reconcile_envelope env false

  -- tick on a free lane
  unfoldable pub tick_free : Exec Unit
  tick_free = do
    state ← read_state
    when (not (has_attention state)) do tasks ← list_tasks env; process_all tasks

  unfoldable pub tick : Exec Unit
  tick = do lane ← unresolved_lane env; on_option lane tick_free pursue_lane

  -- advanceTask on a free lane
  unfoldable pub advance_free : String → Exec Unit
  advance_free task_id = do task ← read_task env task_id; open_task task; process_task env; pure tt

  unfoldable pub advance_owner : String → WorkerTask → Exec Unit
  advance_owner task_id owner = do
    require (str_eq owner.task_id task_id) (lane_message owner)
    pursue_lane owner

  unfoldable pub advance_task : String → Exec Unit
  advance_task task_id = do
    lane ← unresolved_lane env
    on_option lane (advance_free task_id) (advance_owner task_id)

  unfoldable pub resume_event : ℕ → EvidenceRef → Exec Bool
  resume_event at r = do
    event ← fetch r
    let retryable = contract_is_pending event.contract_state || is_attention event.automation_state
    when retryable do
      object ← gets (λ w. w.calls)
      assign r (λ e. record e { application_epoch = some (new_epoch object at true) })
      set_evidence_state env r EvidenceAutomationState.ready_to_apply "manual operator resume"
    pure retryable

  unfoldable pub resume_submission : ℕ → LogicalTask → Exec Bool
  resume_submission at l = do
    let unseen = any (λ e. contract_is_unseen e.contract_state) (inclusion_events l)
    when unseen do
      object ← gets (λ w. w.calls)
      modify_logical (λ m. record m { submission_epoch = some (new_epoch object at true) })
      set_submission_state env SubmissionState.ready_for_proof "manual operator resume"
    pure unseen

  unfoldable pub resume : String → Exec Unit
  resume task_id = do
    task ← read_task env task_id
    open_task task
    require (not (is_some task.in_flight))
        "resume refuses a task with an unresolved envelope; use resume-broadcast"
    at ← now env
    submission ← resume_submission at task.logical
    events ← traverse (resume_event at) (current_refs task.logical)
    require (submission || any (λ b. b) events) "Task has no eligible retryable operation"
    write_task env

  unfoldable pub resume_broadcast : String → Exec Unit
  resume_broadcast task_id = do
    task ← read_task env task_id
    open_task task
    require (is_some task.in_flight) "Task has no unresolved exact envelope"
    let state = submission_name task.logical.source_submission_state
    at ← now env
    modify_logical
        (push_transition (transition at (some state) state "manual operator resume-broadcast"))
    write_task env
    reconcile_envelope env true

  unfoldable pub perform : Command → Exec Unit
  perform start = startup_checks
  perform step = do scan_once env; tick
  perform (advance task_id) = advance_task task_id
  perform (resumes task_id) = resume task_id
  perform (rebroadcast task_id) = resume_broadcast task_id

  unfoldable pub run : World → List Command → World
  run w [] = w
  run w (c ∷ commands) = run (perform c w).1 commands
