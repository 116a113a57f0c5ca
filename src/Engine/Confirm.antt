-- ===== src/Engine/Confirm.antt =====
-- worker/engine.ts `finalizeEnvelope`: a receipt that is deep enough ends the operation, and the lane is
-- released.
use cr3d_x.Base.{
  ℕ, ◌*◌, ◌<>◌, Bool, true, false, not, ◌&&◌, ◌||◌, none, [], ◌∷◌, ◌++◌, ◌==◌, if◌then◌else◌,
}
use cr3d_x.Types.{
  ConfirmedOperation, InFlightPurpose, submission, application, InFlightEnvelope, LogicalTask,
}
use cr3d_x.Types.Names.{contract_is_unseen, contract_is_pending}
use cr3d_x.Types.Port.{DestinationReceipt, Env}
use cr3d_x.Policy.{
  Visibility, all_false, all_true, mixed, reconcile_seen, automation_from_contract, is_terminal,
  actual_fee,
}
use cr3d_x.Exec.{
  Exec, pure, gets, call, ◌>>=◌, ◌>>◌, on_option, when, modify_logical, release, get_logical,
}
use cr3d_x.State.{write_task}
use cr3d_x.Engine.Objects.{EvidenceRef, fetch, assign, find_evidence}
use cr3d_x.Engine.Marks.{
  global_attention, set_evidence_state, set_task_attention, set_evidence_attention,
}
use cr3d_x.Engine.Semantic.{put_status, seen_values, snapshot_deal, reconcile_semantic}
use cr3d_x.Engine.Broadcast.{the_envelope}

unfoldable pub push_operation : ConfirmedOperation → LogicalTask → LogicalTask
push_operation operation l = record l { operation_history = l.operation_history ++ operation ∷ [] }

unfoldable pub is_submission : InFlightPurpose → Bool
is_submission (submission ids hash) = true
is_submission (application id) = false

unfoldable pub operation_of : InFlightEnvelope → DestinationReceipt → ℕ → ConfirmedOperation
operation_of envelope receipt timestamp = record {
  purpose = envelope.purpose;
  transaction_hash = envelope.transaction_hash;
  nonce = envelope.nonce;
  receipt_status = receipt.status;
  receipt_block_number = receipt.block_number;
  receipt_block_hash = receipt.block_hash;
  confirmed_at = timestamp * 1000;
  gas_used = receipt.gas_used;
  effective_gas_price = receipt.effective_gas_price;
  actual_fee = actual_fee receipt.gas_used receipt.effective_gas_price;
}

module _ (env : Env) where
  unfoldable pub confirmed_visibility : ℕ → Visibility → Exec Unit
  confirmed_visibility status mixed = do
    set_task_attention env "MIXED_EXPECTED_ID_VISIBILITY_AFTER_RECEIPT"
    task ← gets (λ w. w.task)
    global_attention ("MIXED_EXPECTED_ID_VISIBILITY:" <> task.task_id)
  confirmed_visibility status all_true = pure tt
  confirmed_visibility status all_false = set_task_attention env (
      if status == 0
      then "MINED_REVERT_WITHOUT_SEMANTIC_SUCCESS"
      else "SUCCESS_RECEIPT_WITHOUT_COMPLETE_EVIDENCE")

  unfoldable pub confirmed_application : ℕ → EvidenceRef → Exec Unit
  confirmed_application receipt_status r = do
    event ← fetch r
    status ← call (λ n. env.chain.evidence_state n event.expected_evidence_id)
    assign r (put_status status)
    let settled = automation_from_contract status.state
    if (receipt_status == 1) && not (contract_is_unseen status.state)
        then (do
          set_evidence_state env r settled "confirmed successful application receipt"
          when (contract_is_pending status.state)
              do snapshot_deal env r; assign r (λ e. record e { application_epoch = none }))
        else if (receipt_status == 0) && is_terminal settled
        then set_evidence_state env r settled
            "confirmed revert but semantic application is terminal"
        else set_evidence_attention env r (
            if receipt_status == 0
            then "MINED_REVERT_WITHOUT_TERMINAL_APPLICATION"
            else "SUCCESS_APPLICATION_RETURNED_UNSEEN")

  unfoldable pub confirmed_purpose : ℕ → InFlightPurpose → Exec Unit
  confirmed_purpose status (submission ids hash) = do
    values ← seen_values env ids
    confirmed_visibility status (reconcile_seen values)
  confirmed_purpose status (application id) = do
    l ← get_logical
    on_option (find_evidence id l) (set_task_attention env "APPLICATION_ENVELOPE_EVIDENCE_MISSING")
        (confirmed_application status)

  -- finalizeEnvelope: the lane is released with the operation recorded
  unfoldable pub finalize_envelope : DestinationReceipt → Exec Unit
  finalize_envelope receipt = do
    envelope ← the_envelope
    confirmed_purpose receipt.status envelope.purpose
    timestamp ← call (λ n. env.chain.destination_block_timestamp n receipt.block_number)
    modify_logical (push_operation (operation_of envelope receipt timestamp))
    release
    write_task env
    when ((receipt.status == 1) || is_submission envelope.purpose) (reconcile_semantic env)
