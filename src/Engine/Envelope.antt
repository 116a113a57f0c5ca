-- ===== src/Engine/Envelope.antt =====
-- worker/engine.ts `reconcileEnvelope` and its parts: what happens to the one signed envelope until it
-- is confirmed.
use cr3d_x.Base.{
  ℕ, ◌+◌, ◌-◌, ◌<>◌, str_eq, Bool, true, false, not, ◌&&◌, ◌||◌, Option, none, some, leb, ◌==◌,
  if◌then◌else◌, same_hex,
}
use cr3d_x.Types.{
  Hex, InFlightPurpose, submission, application, InFlightEnvelope, InclusionSnapshot,
  SubmissionState,
}
use cr3d_x.Types.Names.{submission_is_attention, contract_is_pending}
use cr3d_x.Types.Port.{DestinationReceipt, Env}
use cr3d_x.Policy.{is_some, Visibility, all_false, all_true, mixed, reconcile_seen}
use cr3d_x.Exec.{
  Exec, pure, gets, call, ◌>>=◌, ◌>>◌, on_option, when, note_receipt, get_envelope, get_logical,
}
use cr3d_x.State.{write_task}
use cr3d_x.Engine.Objects.{EvidenceRef, assign, find_evidence}
use cr3d_x.Engine.Marks.{global_attention, now, set_submission_state, set_task_attention}
use cr3d_x.Engine.Semantic.{put_status, seen_values, snapshot_deal}
use cr3d_x.Engine.Broadcast.{broadcast_if_compatible}
use cr3d_x.Engine.Confirm.{finalize_envelope}

-- An existing block hash that is the receipt's.
unfoldable pub is_canonical : Option Hex → Hex → Bool
is_canonical none block_hash = false
is_canonical (some hash) block_hash = not (str_eq hash "") && same_hex hash block_hash

unfoldable pub same_inclusion : Option InclusionSnapshot → Hex → Bool
same_inclusion none block_hash = false
same_inclusion (some inclusion) block_hash = same_hex inclusion.source_block_hash block_hash

unfoldable pub is_expired : InFlightEnvelope → ℕ → Bool
is_expired envelope at = elim envelope.resolution_deadline_at [
  | none ↦ false
  | some deadline ↦ leb deadline at
]

unfoldable pub last_sent : InFlightEnvelope → ℕ
last_sent envelope = elim envelope.last_broadcast_at [ none ↦ envelope.created_at | some at ↦ at ]

module _ (env : Env) where
  unfoldable pub submission_visibility : Hex → Visibility → Exec Unit
  submission_visibility source_block_hash mixed = do
    set_task_attention env "MIXED_ENVELOPE_EVIDENCE_VISIBILITY"
    task ← gets (λ w. w.task)
    global_attention ("MIXED_ENVELOPE_EVIDENCE_VISIBILITY:" <> task.task_id)
  submission_visibility source_block_hash all_true = do
    l ← get_logical
    when
        (same_inclusion l.current_inclusion source_block_hash
          && not (submission_is_attention l.source_submission_state))
        (set_submission_state env SubmissionState.submitted
          "signed envelope semantic submission is already satisfied")
  submission_visibility source_block_hash all_false = pure tt

  unfoldable pub application_status : Hex → EvidenceRef → Exec Unit
  application_status id r = do
    status ← call (λ n. env.chain.evidence_state n id)
    assign r (put_status status)
    when (contract_is_pending status.state) (snapshot_deal env r)

  unfoldable pub purpose_semantic : InFlightPurpose → Exec Unit
  purpose_semantic (submission ids source_block_hash) = do
    values ← seen_values env ids
    submission_visibility source_block_hash (reconcile_seen values)
  purpose_semantic (application id) = do
    l ← get_logical
    on_option (find_evidence id l) (set_task_attention env "APPLICATION_ENVELOPE_EVIDENCE_MISSING")
        (application_status id)

  -- reconcileEnvelopeSemantic
  unfoldable pub reconcile_envelope_semantic : Exec Unit
  reconcile_envelope_semantic = do
    envelope ← get_envelope
    on_option envelope (pure tt) λ held. do purpose_semantic held.purpose; write_task env

  -- The part of reconcileEnvelope that looks for a receipt: whether it returns there.
  unfoldable pub settle : Option DestinationReceipt → InFlightEnvelope → Exec Bool
  settle none envelope = do
    when (is_some envelope.receipt) do note_receipt none; write_task env
    pure false
  settle (some receipt) envelope = do
    canonical ← call (λ n. env.chain.canonical_destination_block_hash n receipt.block_number)
    if is_canonical canonical receipt.block_hash
        then (do
          note_receipt (
              some (record {
                receipt_block_number = receipt.block_number;
                receipt_block_hash = receipt.block_hash;
                receipt_status = receipt.status;
              }))
          write_task env
          head ← call env.chain.destination_head
          when (leb (receipt.block_number + 2) head) (finalize_envelope env receipt)
          pure true)
        else (do note_receipt none; write_task env; pure false)

  -- The rest: the first broadcast, the expiry of the window, or another broadcast.
  unfoldable pub pursue : Bool → InFlightEnvelope → Exec Unit
  pursue operator_requested envelope =
      if envelope.broadcast_count == 0 then broadcast_if_compatible env operator_requested else (do
        at ← now env
        if is_expired envelope at && not operator_requested
            then (do set_task_attention env "IN_FLIGHT_RESOLUTION_WINDOW_EXPIRED"; write_task env)
            else (do
              later ← now env
              when (operator_requested || leb 5000 (later - last_sent envelope))
                  (broadcast_if_compatible env operator_requested)))

  -- reconcileEnvelope
  unfoldable pub reconcile_envelope : Bool → Exec Unit
  reconcile_envelope operator_requested = do
    envelope ← get_envelope
    on_option envelope (pure tt) λ held. do
      receipt ← call (λ n. env.chain.destination_receipt n held.transaction_hash)
      settled ← settle receipt held
      when (not settled) do
        reconcile_envelope_semantic
        remaining ← get_envelope
        on_option remaining (pure tt) (pursue operator_requested)
