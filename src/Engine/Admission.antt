-- ===== src/Engine/Admission.antt =====
-- worker/engine.ts `ingestReceipt`: a receipt with enrolled events becomes a task, or the new inclusion
-- of the task that its transaction has.
use cr3d_x.Base.{
  ℕ, String, ◌<>◌, str_eq, Bool, true, false, not, ◌||◌, Option, none, some, List, [], ◌∷◌, ltb,
  leb, ◌==◌, if◌then◌else◌, same_hex, lower, decimal, keep_if, any, all, find, length,
}
use cr3d_x.Types.{
  Hex, worker_schema_version, InclusionState, DecodedGatewayEvent, EvidenceRecord,
  InclusionSnapshot, WorkerTask, ContractEvidenceState, EvidenceAutomationState,
}
use cr3d_x.Types.Names.{submission_name}
use cr3d_x.Types.Port.{RawSourceReceipt, Env}
use cr3d_x.Policy.{is_some, is_non_terminal_task}
use cr3d_x.Exec.{
  Exec, pure, call, ◌>>=◌, ◌>>◌, on_option, traverse, require, modify_logical, open_task,
}
use cr3d_x.State.{task_id_of, read_state, write_task, list_tasks}
use cr3d_x.Engine.Objects.{expected_ids}
use cr3d_x.Engine.Marks.{transition, now, set_submission_state, set_task_attention}
use cr3d_x.Engine.Semantic.{any_evidence_seen}
use cr3d_x.Engine.Candidates.{is_enrolled, retire, put_inclusion, admission_state}

module _ (env : Env) where
  unfoldable pub new_evidence_record : DecodedGatewayEvent → Exec EvidenceRecord
  new_evidence_record event = do
    observed ← now env
    id ← call (λ n. env.chain.evidence_id n event)
    at ← now env
    pure (record {
      event = event;
      identity =
          decimal event.source_chain_id
          <> ":"
          <> lower event.transaction_hash
          <> ":"
          <> lower event.source_block_hash
          <> ":"
          <> decimal event.transaction_log_ordinal;
      expected_evidence_id = id;
      inclusion_state = InclusionState.current_inclusion;
      contract_state = ContractEvidenceState.unseen;
      automation_state = EvidenceAutomationState.unseen;
      rejection_reason = "NONE";
      application_epoch = none;
      application_attempt_count = 0;
      prerequisite_snapshot = none;
      first_observed_at = observed;
      transitions = transition at none "UNSEEN" "canonical source event admitted" ∷ [];
    })

  unfoldable pub inclusion_of : RawSourceReceipt → List EvidenceRecord → ℕ → InclusionSnapshot
  inclusion_of receipt records at = record {
    source_block_number = receipt.block_number;
    source_block_hash = receipt.block_hash;
    transaction_index = receipt.transaction_index;
    receipt_status = receipt.status;
    events = records;
    observed_at = at;
    superseded_at = none;
    superseded_reason = none;
  }

  -- The object of a task that is admitted for the first time.
  unfoldable pub new_task :
      String → RawSourceReceipt → InclusionSnapshot → Bool → ℕ → ℕ → WorkerTask
  new_task id receipt inclusion mixed at at_transition = record {
    schema_version = worker_schema_version;
    task_id = id;
    created_at = at;
    updated_at = at;
    logical = record {
      source_chain_id = env.config.source_chain_id;
      transaction_hash = receipt.transaction_hash;
      source_submission_state = admission_state mixed;
      current_inclusion = some inclusion;
      inclusion_history = [];
      submission_epoch = none;
      submission_attempt_count = 0;
      source_attention_reason = if mixed then some "MIXED_ADMISSION" else none;
      failed_reason = none;
      transitions =
          transition at_transition none (submission_name (admission_state mixed))
            (if mixed then "MIXED_ADMISSION" else "admitted canonical source receipt")
          ∷ [];
      operation_history = [];
    };
    in_flight = none;
  }

  unfoldable pub admit_new : String → RawSourceReceipt → InclusionSnapshot → Bool → ℕ → Exec Bool
  admit_new id receipt inclusion mixed at = do
    at_transition ← now env
    open_task (new_task id receipt inclusion mixed at at_transition)
    write_task env
    pure (not mixed)

  unfoldable pub re_include : InclusionSnapshot → Bool → ℕ → Option String → Exec Bool
  re_include inclusion mixed at attention = do
    modify_logical (retire InclusionState.superseded at "canonical same-hash re-inclusion")
    modify_logical (put_inclusion inclusion)
    set_submission_state env (admission_state (is_some attention))
        (elim attention [ none ↦ "canonical same-hash re-inclusion" | some reason ↦ reason ])
    modify_logical (λ l. record l { source_attention_reason = attention })
    write_task env
    pure (not mixed)

  -- reorg || !anyEvidenceSeen(…)
  unfoldable pub may_re_include : Bool → List Hex → Exec Bool
  may_re_include true ids = pure true
  may_re_include false ids = do seen ← any_evidence_seen env ids; pure (not seen)

  unfoldable pub admit_existing :
      Bool → WorkerTask → RawSourceReceipt → InclusionSnapshot → Bool → ℕ → Exec Bool
  admit_existing reorg task receipt inclusion mixed at = do
    open_task task
    if elim task.logical.current_inclusion [
      | none ↦ false
      | some current ↦ same_hex current.source_block_hash receipt.block_hash
    ]
        then pure true
        else (do
          allowed ← may_re_include reorg (expected_ids task.logical)
          if not allowed
              then (do
                set_task_attention env "SOURCE_REORG_AFTER_DESTINATION_RECORDING"
                write_task env
                pure false)
              else re_include inclusion mixed at (
                  if is_some task.in_flight
                  then some "SOURCE_REORG_WITH_IN_FLIGHT_ENVELOPE"
                  else if mixed
                  then some "MIXED_ADMISSION"
                  else none))

  -- ingestReceipt behind the admission by enrollment
  unfoldable pub admit_enrolled :
      Bool → RawSourceReceipt → List DecodedGatewayEvent → Bool → Exec Bool
  admit_enrolled reorg receipt events mixed = do
    require (leb (length events) env.config.limits.max_events_per_transaction) "EVENT_LIMIT_REACHED"
    let id = task_id_of env.sha256 env.config.source_chain_id receipt.transaction_hash
    tasks ← list_tasks env
    let existing = find (λ t. str_eq t.task_id id) tasks
    again ← if is_some existing then pure [] else list_tasks env
    require
        (is_some existing
          || ltb (length (keep_if is_non_terminal_task again))
              env.config.limits.max_non_terminal_tasks)
        "TASK_LIMIT_REACHED"
    records ← traverse new_evidence_record events
    at ← now env
    let inclusion = inclusion_of receipt records at
    on_option existing (admit_new id receipt inclusion mixed at)
        λ task. admit_existing reorg task receipt inclusion mixed at

  -- ingestReceipt: false asks the scan to stop
  unfoldable pub ingest_receipt : RawSourceReceipt → Bool → Exec Bool
  ingest_receipt receipt reorg = do
    require (receipt.status == 1) "SOURCE_RECEIPT_STATUS_NOT_SUCCESS"
    events ← call (λ n. env.chain.decode_gateway_events n receipt)
    require (any (λ _. true) events) "CANDIDATE_RECEIPT_HAS_NO_MATCHING_EVENT"
    state ← read_state
    if all (λ e. not (is_enrolled state e)) events
        then pure true
        else admit_enrolled reorg receipt events (any (λ e. not (is_enrolled state e)) events)
