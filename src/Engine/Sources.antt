-- ===== src/Engine/Sources.antt =====
-- worker/engine.ts `reconcileSourceCanonicality`: a task whose inclusion has gone from the source chain
-- is taken back, or follows its transaction into another block.
use cr3d_x.Base.{String, ◌<>◌, Bool, true, not, ◌||◌, Option, none, some, if◌then◌else◌, same_hex}
use cr3d_x.Types.{InclusionState, InclusionSnapshot, WorkerTask, SubmissionState}
use cr3d_x.Types.Names.{submission_is_orphaned}
use cr3d_x.Types.Port.{RawSourceReceipt, Env}
use cr3d_x.Policy.{is_some}
use cr3d_x.Exec.{
  Exec, pure, call, try_catch, ◌>>=◌, ◌>>◌, on_option, for_each, when, modify_logical, open_task,
}
use cr3d_x.State.{read_task, write_task, list_tasks}
use cr3d_x.Engine.Objects.{expected_ids}
use cr3d_x.Engine.Marks.{safe_error, now, set_submission_state, set_task_attention}
use cr3d_x.Engine.Semantic.{any_evidence_seen}
use cr3d_x.Engine.Candidates.{retire}
use cr3d_x.Engine.Admission.{ingest_receipt}

module _ (env : Env) where
  -- The source transaction is in no canonical block any more.
  unfoldable pub source_removed : WorkerTask → InclusionSnapshot → Exec Unit
  source_removed task current = do
    seen ← any_evidence_seen env (expected_ids task.logical)
    at ← now env
    if is_some task.in_flight || seen
        then (do
          modify_logical (
              retire InclusionState.orphaned_inclusion at
                "source inclusion removed after destination activity")
          set_task_attention env (
              if is_some task.in_flight
              then "SOURCE_REORG_WITH_IN_FLIGHT_ENVELOPE"
              else "SOURCE_REORG_AFTER_DESTINATION_RECORDING"))
        else (do
          modify_logical (retire InclusionState.orphaned_inclusion at "source inclusion removed")
          set_submission_state env SubmissionState.orphaned
              "source inclusion removed before signing")
    write_task env

  -- The transaction was included again, in another block.
  unfoldable pub readmit : String → Bool → RawSourceReceipt → Exec Unit
  readmit task_id old_seen receipt = do
    ingest_receipt env receipt true
    when old_seen do
      updated ← read_task env task_id
      open_task updated
      set_task_attention env "SOURCE_REORG_AFTER_DESTINATION_RECORDING"
      write_task env

  unfoldable pub readmission_failed : String → String → Exec Unit
  readmission_failed task_id message = do
    failed ← read_task env task_id
    open_task failed
    at ← now env
    modify_logical (
        retire InclusionState.superseded at
          ("re-inclusion admission failed:" <> safe_error message))
    set_task_attention env ("SOURCE_REORG_READMISSION_FAILED:" <> safe_error message)
    write_task env

  unfoldable pub source_receipt_changed :
      WorkerTask → InclusionSnapshot → Option RawSourceReceipt → Exec Unit
  source_receipt_changed task current none = source_removed task current
  source_receipt_changed task current (some receipt) =
      if same_hex receipt.block_hash current.source_block_hash then pure tt else (do
        old_seen ← any_evidence_seen env (expected_ids task.logical)
        try_catch (readmit task.task_id old_seen receipt) (readmission_failed task.task_id))

  unfoldable pub reconcile_source_of : WorkerTask → Exec Unit
  reconcile_source_of task = do
    open_task task
    on_option task.logical.current_inclusion (pure tt) λ current.
        when (not (submission_is_orphaned task.logical.source_submission_state)) do
          receipt ← call (λ n. env.chain.source_receipt n task.logical.transaction_hash)
          source_receipt_changed task current receipt

  unfoldable pub reconcile_source_canonicality : Exec Unit
  reconcile_source_canonicality = do tasks ← list_tasks env; for_each reconcile_source_of tasks
