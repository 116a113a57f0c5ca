-- ===== src/Engine/Candidates.antt =====
-- worker/engine.ts: the tests of `scanOnce` and `ingestReceipt` on what the source chain shows, and the
-- moves of an inclusion between a task and its history.
use cr3d_x.Base.{
  ℕ, String, str_eq, Bool, false, not, ◌&&◌, ◌||◌, Option, none, some, List, [], ◌∷◌, ◌++◌, map,
  leb, ◌==◌, if◌then◌else◌, same_hex, lower, any, all,
}
use cr3d_x.Types.{
  Hex, InclusionState, DecodedGatewayEvent, EvidenceRecord, InclusionSnapshot, LogicalTask,
  Enrollment, WorkerState, SubmissionState,
}
use cr3d_x.Types.Port.{CandidateLogRef, SourceLog, RawSourceReceipt}
use cr3d_x.Engine.Objects.{in_inclusion}

-- state.enrollments[key]
unfoldable pub enrollment_of : String → List (String × Enrollment) → Option Enrollment
enrollment_of key [] = none
enrollment_of key ((k, enrollment) ∷ rest) =
    if str_eq k key then some enrollment else enrollment_of key rest

unfoldable pub is_enrolled : WorkerState → DecodedGatewayEvent → Bool
is_enrolled state event = elim (enrollment_of (lower event.deal_id) state.enrollments) [
  | none ↦ false
  | some enrollment ↦ leb enrollment.effective_from_source_block event.source_block_number
]

-- log.topics[0]?.toLowerCase() === ref.topic0.toLowerCase()
unfoldable pub topic_matches : List Hex → Hex → Bool
topic_matches [] topic = false
topic_matches (t ∷ topics) topic = same_hex t topic

unfoldable pub log_matches : Hex → CandidateLogRef → SourceLog → Bool
log_matches gateway ref log =
    (log.log_index == ref.log_index)
    && same_hex log.address gateway
    && topic_matches log.topics ref.topic0

unfoldable pub ref_agrees : RawSourceReceipt → CandidateLogRef → Bool
ref_agrees receipt ref =
    same_hex ref.transaction_hash receipt.transaction_hash
    && (ref.block_number == receipt.block_number)
    && same_hex ref.block_hash receipt.block_hash

-- candidateRefsMatchReceipt
unfoldable pub candidate_refs_match_receipt : Hex → List CandidateLogRef → RawSourceReceipt → Bool
candidate_refs_match_receipt gateway refs receipt =
    if not (receipt.status == 1) || any (λ ref. not (ref_agrees receipt ref)) refs
    then false
    else all (λ ref. any (log_matches gateway ref) receipt.logs) refs

-- The Map of a window's candidates by transaction, in the order of the first candidate of each.
unfoldable pub add_candidate :
    CandidateLogRef → List (String × List CandidateLogRef) → List (String × List CandidateLogRef)
add_candidate c [] = (lower c.transaction_hash, c ∷ []) ∷ []
add_candidate c ((key, refs) ∷ groups) =
    let rest = add_candidate c groups in
    if str_eq key (lower c.transaction_hash)
    then (key, refs ++ c ∷ []) ∷ groups
    else (key, refs) ∷ rest

unfoldable pub group_from :
    List (String × List CandidateLogRef)
    → List CandidateLogRef
    → List (String × List CandidateLogRef)
group_from groups [] = groups
group_from groups (c ∷ candidates) = group_from (add_candidate c groups) candidates

unfoldable pub by_transaction : List CandidateLogRef → List (String × List CandidateLogRef)
by_transaction candidates = group_from [] candidates

unfoldable pub set_inclusion_state : InclusionState → EvidenceRecord → EvidenceRecord
set_inclusion_state s e = record e { inclusion_state = s }

-- The current inclusion is moved to the history, its events marked.
unfoldable pub retire : InclusionState → ℕ → String → LogicalTask → LogicalTask
retire s at reason l = elim l.current_inclusion [
  | none ↦ l
  | some old ↦ record l {
    current_inclusion = none;
    inclusion_history =
        l.inclusion_history
        ++ (record (in_inclusion (map (set_inclusion_state s)) old) {
          superseded_at = some at;
          superseded_reason = some reason;
        }
            ∷ []);
  }
]

unfoldable pub put_inclusion : InclusionSnapshot → LogicalTask → LogicalTask
put_inclusion inclusion l = record l { current_inclusion = some inclusion; submission_epoch = none }

unfoldable pub admission_state : Bool → SubmissionState
admission_state mixed =
    if mixed then SubmissionState.attention_required else SubmissionState.waiting_attestation
