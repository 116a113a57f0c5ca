-- ===== src/Engine/Tasks.antt =====
-- worker/engine.ts `processTask`: the next operation of one task, if it has one.
use cr3d_x.Base.{Bool, true, false, some, ltb, if◌then◌else◌, any, find_index}
use cr3d_x.Types.{InclusionSnapshot, LogicalTask, SubmissionState}
use cr3d_x.Types.Names.{
  submission_is_attention, submission_is_orphaned, contract_is_unseen, is_ready,
}
use cr3d_x.Types.Port.{Env}
use cr3d_x.Policy.{is_some}
use cr3d_x.Exec.{
  Exec, pure, call, ◌>>=◌, ◌>>◌, on_option, modify_logical, get_logical, get_envelope,
}
use cr3d_x.State.{write_task}
use cr3d_x.Engine.Objects.{in_current, inclusion_events}
use cr3d_x.Engine.Marks.{fresh_epoch, set_submission_state}
use cr3d_x.Engine.Semantic.{reconcile_semantic}
use cr3d_x.Engine.Attempts.{attempt_submission, attempt_application}

module _ (env : Env) where
  unfoldable pub is_in_lane : Exec Bool
  is_in_lane = do envelope ← get_envelope; pure (is_some envelope)

  unfoldable pub start_epoch : Exec Unit
  start_epoch = do
    l ← get_logical
    on_option l.submission_epoch
        (do
          epoch ← fresh_epoch env false
          modify_logical (λ m. record m { submission_epoch = some epoch }))
        (λ _. pure tt)

  unfoldable pub process_unseen : InclusionSnapshot → Exec Bool
  process_unseen inclusion = do
    attested ← call env.chain.attested_height
    if ltb attested inclusion.source_block_number
        then (do
          set_submission_state env SubmissionState.waiting_attestation
              "proof builder has not reached source height"
          write_task env
          pure false)
        else (do
          start_epoch
          set_submission_state env SubmissionState.ready_for_proof "source inclusion is attestable"
          write_task env
          attempt_submission env
          is_in_lane)

  unfoldable pub process_ready : LogicalTask → Exec Bool
  process_ready l =
      on_option (find_index (λ e. is_ready e.automation_state) 0 (inclusion_events l)) (pure false)
        λ i. do attempt_application env (in_current i); is_in_lane

  -- processTask behind reconcileSemantic
  unfoldable pub process_reconciled : LogicalTask → InclusionSnapshot → Exec Bool
  process_reconciled l inclusion =
      if submission_is_attention l.source_submission_state
      then pure false
      else if any (λ e. contract_is_unseen e.contract_state) (inclusion_events l)
      then process_unseen inclusion
      else process_ready l

  unfoldable pub process_included : InclusionSnapshot → Exec Bool
  process_included inclusion = do
    reconcile_semantic env
    in_lane ← is_in_lane
    if in_lane then pure true else (do l ← get_logical; process_reconciled l inclusion)

  -- processTask: whether the task holds the lane afterwards
  unfoldable pub process_task : Exec Bool
  process_task = do
    l ← get_logical
    on_option l.current_inclusion (pure false) λ inclusion.
        if submission_is_orphaned l.source_submission_state
        then pure false
        else process_included inclusion
