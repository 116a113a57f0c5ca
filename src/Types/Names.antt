-- ===== src/Types/Names.antt =====
-- The literals of the string unions of worker/types.ts, as they stand in transitions and reasons.
use cr3d_x.Base.{String, Bool, true, false}
use cr3d_x.Types.{ContractEvidenceState, EvidenceAutomationState, SubmissionState}

unfoldable pub submission_name : SubmissionState → String
submission_name SubmissionState.observed = "OBSERVED"
submission_name SubmissionState.waiting_attestation = "WAITING_ATTESTATION"
submission_name SubmissionState.ready_for_proof = "READY_FOR_PROOF"
submission_name SubmissionState.submitting = "SUBMITTING"
submission_name SubmissionState.submission_in_flight = "SUBMISSION_IN_FLIGHT"
submission_name SubmissionState.submitted = "SUBMITTED"
submission_name SubmissionState.orphaned = "ORPHANED"
submission_name SubmissionState.attention_required = "ATTENTION_REQUIRED"
submission_name SubmissionState.failed = "FAILED"

unfoldable pub automation_name : EvidenceAutomationState → String
automation_name EvidenceAutomationState.unseen = "UNSEEN"
automation_name EvidenceAutomationState.verified_pending = "VERIFIED_PENDING"
automation_name EvidenceAutomationState.ready_to_apply = "READY_TO_APPLY"
automation_name EvidenceAutomationState.application_in_flight = "APPLICATION_IN_FLIGHT"
automation_name EvidenceAutomationState.applied = "APPLIED"
automation_name EvidenceAutomationState.rejected_permanent = "REJECTED_PERMANENT"
automation_name EvidenceAutomationState.attention_required = "ATTENTION_REQUIRED"

-- The tests `state === 'LITERAL'` that the source makes.
unfoldable pub submission_is_attention : SubmissionState → Bool
submission_is_attention SubmissionState.attention_required = true
submission_is_attention _ = false

unfoldable pub submission_is_orphaned : SubmissionState → Bool
submission_is_orphaned SubmissionState.orphaned = true
submission_is_orphaned _ = false

unfoldable pub submission_is_failed : SubmissionState → Bool
submission_is_failed SubmissionState.failed = true
submission_is_failed _ = false

unfoldable pub contract_is_unseen : ContractEvidenceState → Bool
contract_is_unseen ContractEvidenceState.unseen = true
contract_is_unseen _ = false

unfoldable pub contract_is_pending : ContractEvidenceState → Bool
contract_is_pending ContractEvidenceState.verified_pending = true
contract_is_pending _ = false

unfoldable pub is_attention : EvidenceAutomationState → Bool
is_attention EvidenceAutomationState.attention_required = true
is_attention _ = false

unfoldable pub is_ready : EvidenceAutomationState → Bool
is_ready EvidenceAutomationState.ready_to_apply = true
is_ready _ = false

unfoldable pub is_pending : EvidenceAutomationState → Bool
is_pending EvidenceAutomationState.verified_pending = true
is_pending _ = false

unfoldable pub is_rejected : EvidenceAutomationState → Bool
is_rejected EvidenceAutomationState.rejected_permanent = true
is_rejected _ = false

unfoldable pub is_in_flight : EvidenceAutomationState → Bool
is_in_flight EvidenceAutomationState.application_in_flight = true
is_in_flight _ = false
