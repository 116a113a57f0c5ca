-- ===== src/Engine/Scan.antt =====
-- worker/engine.ts `scanOnce`: the source chain is read window by window from behind the cursor.
pub mod Windows
pub mod Tiles
pub mod Groups
use cr3d_x.Base.{
  ℕ, suc, ◌+◌, ◌-◌, ◌≤◌, min, max, String, ◌<>◌, str_eq, Bool, true, false, not, ◌&&◌, ◌||◌, Option,
  none, some, List, [], ◌∷◌, ◌++◌, map, ltb, leb, ◌==◌, if◌then◌else◌, same_hex, lower, decimal,
  keep_if, any, all, find, length,
}
use cr3d_x.Types.{
  Hex, worker_schema_version, InclusionState, DecodedGatewayEvent, EvidenceRecord,
  InclusionSnapshot, LogicalTask, WorkerTask, Enrollment, SourceCursor, WorkerState,
  SubmissionState, ContractEvidenceState, EvidenceAutomationState,
}
use cr3d_x.Types.Names.{submission_name, submission_is_orphaned}
use cr3d_x.Types.Port.{ok, CandidateLogRef, SourceLog, RawSourceReceipt, Env}
use cr3d_x.Policy.{is_some, is_non_terminal_task}
use cr3d_x.Exec.{
  World, Exec, pure, throw, gets, call, try_catch, ◌>>=◌, ◌>>◌, on_option, traverse, for_each, when,
  require, modify_logical, open_task, get_logical,
}
use cr3d_x.State.{task_id_of, read_state, write_state, read_task, write_task, list_tasks}
use cr3d_x.Engine.Objects.{inclusion_events, expected_ids, in_inclusion}
use cr3d_x.Engine.Marks.{
  transition, safe_error, global_attention, now, set_submission_state, set_task_attention,
}
use cr3d_x.Engine.Semantic.{any_evidence_seen}
use cr3d_x.Engine.Candidates.{
  is_enrolled, candidate_refs_match_receipt, by_transaction, retire, put_inclusion, admission_state,
}
use cr3d_x.Engine.Admission.{ingest_receipt}
use cr3d_x.Engine.Sources.{reconcile_source_canonicality}
use Windows.{windows}

module _ (env : Env) where
  unfoldable pub contradicted : Hex → Exec Bool
  contradicted hash = do global_attention ("SOURCE_RECEIPT_CONTRADICTION:" <> hash); pure false

  unfoldable pub admission_failed : String → Exec Bool
  admission_failed message = do
    global_attention ("SOURCE_ADMISSION_FAILURE:" <> safe_error message)
    pure false

  -- One transaction of a window: whether the scan goes on.
  unfoldable pub scan_group : List CandidateLogRef → Exec Bool
  scan_group [] = pure true
  scan_group (ref ∷ refs) = do
    found ← call (λ n. env.chain.source_receipt n ref.transaction_hash)
    on_option found (contradicted ref.transaction_hash) λ receipt.
        if candidate_refs_match_receipt env.config.gateway_address (ref ∷ refs) receipt
        then try_catch (ingest_receipt env receipt false) admission_failed
        else contradicted ref.transaction_hash

  unfoldable pub scan_groups : List (String × List CandidateLogRef) → Exec Bool
  scan_groups [] = pure true
  scan_groups ((key, refs) ∷ groups) = do
    accepted ← scan_group refs
    if accepted then scan_groups groups else pure false

  unfoldable pub move_cursor : ℕ → Exec Unit
  move_cursor to = do
    current ← read_state
    at ← now env
    write_state (record current {
      source_cursor = some (record { block_number = to; block_hash = none; updated_at = at });
    })

  -- The loop over the windows, left at the first group that is not accepted.
  unfoldable pub scan_windows : List (ℕ × ℕ) → Exec Unit
  scan_windows [] = pure tt
  scan_windows ((from, to) ∷ rest) = do
    candidates ← call (λ n. env.chain.candidate_logs n from to)
    accepted ← scan_groups (by_transaction candidates)
    when accepted do move_cursor to; scan_windows rest

  -- Math.max(sourceStartBlock, cursor - 100), or the start block without a cursor
  unfoldable pub scan_start : Option SourceCursor → ℕ
  scan_start none = env.config.source_start_block
  scan_start (some cursor) = max env.config.source_start_block (cursor.block_number - 100)

  -- scanOnce
  unfoldable pub scan_once : Exec Unit
  scan_once = do
    reconcile_source_canonicality env
    state ← read_state
    when (not (any (λ _. true) state.global_attention_reasons)) do
      head ← call env.chain.source_head
      scan_windows (windows (scan_start state.source_cursor) head)
