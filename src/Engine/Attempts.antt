-- ===== src/Engine/Attempts.antt =====
-- worker/engine.ts `attemptSubmission` and `attemptApplication`: one attempt of the next operation.
use cr3d_x.Base.{
  String, ◌<>◌, str_eq, Bool, false, ◌&&◌, Option, none, some, ◌==◌, if◌then◌else◌, same_hex,
}
use cr3d_x.Types.{
  Hex, AttemptEpoch, InclusionSnapshot, InFlightPurpose, submission, application, LogicalTask,
  SubmissionState,
}
use cr3d_x.Types.Port.{SingleProof, TransactionRequest, Simulation, succeeded, reverted, Env}
use cr3d_x.Policy.{
  SimulationClass, success, already_recorded, refresh_proof, source_inconsistency,
  decoder_inconsistency, unknown_evidence, fail_closed, classify_simulation, Visibility, all_false,
  all_true, mixed, reconcile_seen,
}
use cr3d_x.Exec.{Exec, pure, gets, call, try_catch, ◌>>=◌, ◌>>◌, on_option, when, get_logical}
use cr3d_x.State.{write_task}
use cr3d_x.Engine.Objects.{EvidenceRef, expected_ids, fetch, EpochOwner, of_task, of_evidence}
use cr3d_x.Engine.Marks.{
  safe_error, is_resource_stop, global_attention, set_submission_state, set_task_attention,
  set_evidence_attention, set_owner_attention, epoch_eligible, schedule_retry,
}
use cr3d_x.Engine.Semantic.{seen_values, reconcile_semantic}
use cr3d_x.Engine.Claim.{persist_signed_envelope}

unfoldable pub class_name : SimulationClass → String
class_name success = "SUCCESS"
class_name already_recorded = "ALREADY_RECORDED"
class_name refresh_proof = "REFRESH_PROOF"
class_name source_inconsistency = "SOURCE_INCONSISTENCY"
class_name decoder_inconsistency = "DECODER_INCONSISTENCY"
class_name unknown_evidence = "UNKNOWN_EVIDENCE"
class_name fail_closed = "FAIL_CLOSED"

-- The proof is of the source inclusion that the task holds.
unfoldable pub proof_matches : SingleProof → LogicalTask → Option InclusionSnapshot → Bool
proof_matches proof l none = false
proof_matches proof l (some inclusion) =
    same_hex proof.tx_hash l.transaction_hash
    && (proof.header_number == inclusion.source_block_number)
    && (proof.tx_index == inclusion.transaction_index)

unfoldable pub submission_purpose : LogicalTask → InclusionSnapshot → InFlightPurpose
submission_purpose l inclusion = submission (expected_ids l) inclusion.source_block_hash

module _ (env : Env) where
  -- simulation.ok ? 'SUCCESS' : revertData ? classifySimulation(revertData) : 'FAIL_CLOSED'
  unfoldable pub class_of : Simulation → SimulationClass
  class_of succeeded = success
  class_of (reverted none) = fail_closed
  class_of (reverted (some revert_data)) =
      if str_eq revert_data ""
      then fail_closed
      else classify_simulation env.parse_error (some revert_data)

  unfoldable pub recorded_visibility : Visibility → Exec Unit
  recorded_visibility all_true = reconcile_semantic env
  recorded_visibility all_false = do
    set_task_attention env "ALREADY_RECORDED_WITH_ALL_FALSE_VISIBILITY"
    write_task env
  recorded_visibility mixed = do
    set_task_attention env "ALREADY_RECORDED_WITH_MIXED_VISIBILITY"
    task ← gets (λ w. w.task)
    global_attention ("MIXED_EXPECTED_ID_VISIBILITY:" <> task.task_id)
    write_task env

  unfoldable pub submission_outcome :
      AttemptEpoch → InFlightPurpose → TransactionRequest → SimulationClass → Exec Unit
  submission_outcome epoch purpose request success = persist_signed_envelope env purpose request
  submission_outcome epoch purpose request already_recorded = do
    l ← get_logical
    values ← seen_values env (expected_ids l)
    recorded_visibility (reconcile_seen values)
  submission_outcome epoch purpose request refresh_proof =
      schedule_retry env epoch "refreshable continuity proof simulation" of_task
  submission_outcome epoch purpose request other = do
    set_task_attention env ("SUBMISSION_SIMULATION_" <> class_name other)
    write_task env

  unfoldable pub submit_proof :
      AttemptEpoch → SingleProof → LogicalTask → InclusionSnapshot → Exec Unit
  submit_proof epoch proof l inclusion = do
    request ← call (λ n. env.chain.submission_request n proof)
    simulation ← call (λ n. env.chain.simulate n request)
    submission_outcome epoch (submission_purpose l inclusion) request (class_of simulation)

  unfoldable pub submit_fresh : AttemptEpoch → Exec Unit
  submit_fresh epoch = do
    l ← get_logical
    proof ← call (λ n. env.chain.fresh_proof n l.transaction_hash)
    if proof_matches proof l l.current_inclusion
        then on_option l.current_inclusion (pure tt) (submit_proof epoch proof l)
        else (do set_task_attention env "PROOF_SOURCE_INCLUSION_MISMATCH"; write_task env)

  -- The `catch` of both attempts: a refusal of the resource policy stops, all else is retried.
  unfoldable pub attempt_failed : AttemptEpoch → String → EpochOwner → String → Exec Unit
  attempt_failed epoch label owner message =
      if is_resource_stop message
      then (do set_owner_attention env owner (safe_error message); write_task env)
      else schedule_retry env epoch (label <> safe_error message) owner

  -- attemptSubmission
  unfoldable pub attempt_submission : Exec Unit
  attempt_submission = do
    l ← get_logical
    on_option l.submission_epoch (pure tt) λ epoch. do
      eligible ← epoch_eligible env epoch "submission" of_task
      when eligible do
        set_submission_state env SubmissionState.submitting "fresh proof attempt started"
        write_task env
        try_catch (submit_fresh epoch)
            (attempt_failed epoch "submission transport failure:" of_task)

  unfoldable pub application_outcome :
      EvidenceRef → Hex → TransactionRequest → SimulationClass → Exec Unit
  application_outcome r id request success = persist_signed_envelope env (application id) request
  application_outcome r id request other = do
    set_evidence_attention env r ("APPLICATION_SIMULATION_" <> class_name other)
    write_task env

  unfoldable pub apply_fresh : EvidenceRef → Hex → Exec Unit
  apply_fresh r id = do
    request ← call (λ n. env.chain.application_request n id)
    simulation ← call (λ n. env.chain.simulate n request)
    application_outcome r id request (class_of simulation)

  -- attemptApplication
  unfoldable pub attempt_application : EvidenceRef → Exec Unit
  attempt_application r = do
    event ← fetch r
    on_option event.application_epoch (pure tt) λ epoch. do
      eligible ←
          epoch_eligible env epoch ("application:" <> event.expected_evidence_id) (of_evidence r)
      when eligible (
          try_catch (apply_fresh r event.expected_evidence_id)
            (attempt_failed epoch "application transport failure:" (of_evidence r)))
