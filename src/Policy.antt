-- ===== src/Policy.antt =====
-- worker/policy.ts: the pure decisions of the worker. Amounts are `bigint`s, so they do not wrap.
pub mod Retry
pub mod Resources
pub mod Aggregates
pub mod Simulation
use cr3d_x.Base.{
  ℕ, suc, ◌+◌, ◌-◌, ◌*◌, ◌/◌, ◌^◌, min, String, str_eq, Bool, true, false, not, ◌&&◌, ◌||◌, Option,
  none, some, List, [], ◌∷◌, ltb, leb, if◌then◌else◌, any, all, keep_if, sum, map,
}
use cr3d_x.Types.{
  Hex, six_hours_ms, InclusionState, ContractEvidenceState, EvidenceAutomationState,
  SubmissionState, AttemptEpoch, EvidenceRecord, InFlightEnvelope, WorkerTask, WorkerLimits,
  AggregateTaskState,
}
use cr3d_x.Types.Names.{
  submission_is_attention, submission_is_orphaned, submission_is_failed, contract_is_unseen,
  is_attention, is_ready, is_pending, is_rejected,
}

-- The three closed ABIs, and what `Interface.parseError` answers: it may throw on malformed data,
-- return null, or name the error with its arguments, of which the first is read.
pub data ErrorAbi : Type 0 where
  verifier_errors deal_errors error_string : ErrorAbi

pub data ParsedError : Type 0 where
  threw no_match : ParsedError
  parsed : String → String → ParsedError

pub data SimulationClass : Type 0 where
  success already_recorded refresh_proof source_inconsistency : SimulationClass
  decoder_inconsistency unknown_evidence fail_closed : SimulationClass

abbrev pub refreshable_continuity_error : String
refreshable_continuity_error = "Continuity proof does not match attestation or checkpoint"

-- The chain of tests on a parsed error.
unfoldable pub classify_error : String → String → SimulationClass
classify_error name argument =
    if str_eq name "EvidenceAlreadyRecorded"
    then already_recorded
    else if str_eq name "SourceTransactionFailed"
    then source_inconsistency
    else if str_eq name "NoRelevantEvidence" || str_eq name "MalformedGatewayLog"
    then decoder_inconsistency
    else if str_eq name "UnknownEvidence"
    then unknown_evidence
    else if str_eq name "Error" && str_eq argument refreshable_continuity_error
    then refresh_proof
    else fail_closed

-- The loop over the ABIs: the first that parses decides.
unfoldable pub classify_with :
    (ErrorAbi → Hex → ParsedError) → Hex → List ErrorAbi → SimulationClass
unfolding classify_error
classify_with parse_error revert_data [] = fail_closed
classify_with parse_error revert_data (abi ∷ rest) = elim (parse_error abi revert_data) [
  | threw ↦ classify_with parse_error revert_data rest
  | no_match ↦ classify_with parse_error revert_data rest
  | parsed name argument ↦ classify_error name argument
]

-- An empty string is falsy too.
unfoldable pub classify_simulation : (ErrorAbi → Hex → ParsedError) → Option Hex → SimulationClass
unfolding classify_with
classify_simulation parse_error none = success
classify_simulation parse_error (some revert_data) =
    if str_eq revert_data ""
    then success
    else classify_with parse_error revert_data (verifier_errors ∷ deal_errors ∷ error_string ∷ [])

pub data Visibility : Type 0 where
  all_false all_true mixed : Visibility

unfoldable pub reconcile_seen : List Bool → Visibility
reconcile_seen [] = mixed
reconcile_seen (v ∷ values) =
    if all (λ b. b) (v ∷ values)
    then all_true
    else if all not (v ∷ values)
    then all_false
    else mixed

unfoldable pub automation_from_contract : ContractEvidenceState → EvidenceAutomationState
automation_from_contract ContractEvidenceState.unseen = EvidenceAutomationState.unseen
automation_from_contract ContractEvidenceState.verified_pending =
    EvidenceAutomationState.verified_pending
automation_from_contract ContractEvidenceState.applied = EvidenceAutomationState.applied
automation_from_contract ContractEvidenceState.rejected_permanent =
    EvidenceAutomationState.rejected_permanent

unfoldable pub is_terminal : EvidenceAutomationState → Bool
is_terminal EvidenceAutomationState.applied = true
is_terminal EvidenceAutomationState.rejected_permanent = true
is_terminal _ = false

inclusion_is_current : InclusionState → Bool
inclusion_is_current InclusionState.current_inclusion = true
inclusion_is_current _ = false

-- currentInclusion?.events.filter(inclusionState === 'CURRENT') ?? []
unfoldable pub current_events : WorkerTask → List EvidenceRecord
unfolding inclusion_is_current
current_events task = elim task.logical.current_inclusion [
  | none ↦ []
  | some inclusion ↦ keep_if (λ event. inclusion_is_current event.inclusion_state) inclusion.events
]

unfoldable pub is_some {ℓ} : {A : Type ℓ} → Option A → Bool
is_some none = false
is_some (some a) = true

-- A reason is truthy when it is present and not empty.
unfoldable pub is_truthy : Option String → Bool
is_truthy none = false
is_truthy (some reason) = not (str_eq reason "")

-- The last three branches: what the evidence of a task with all its evidence seen says.
unfoldable pub aggregate_seen : SubmissionState → List EvidenceRecord → AggregateTaskState
unfolding is_terminal is_ready is_pending is_rejected
aggregate_seen fallback events =
    if any (λ event. is_ready event.automation_state) events
    then AggregateTaskState.ready_to_apply
    else if any (λ event. is_pending event.automation_state) events
    then AggregateTaskState.verified_pending
    else if any (λ event. true) events && all (λ event. is_terminal event.automation_state) events
    then (if any (λ event. is_rejected event.automation_state) events
        then AggregateTaskState.completed_with_rejections
        else AggregateTaskState.completed)
    else AggregateTaskState.of_submission fallback

-- aggregateTask(task).state
unfoldable pub aggregate_state : WorkerTask → AggregateTaskState
unfolding current_events is_some is_truthy aggregate_seen submission_is_attention
    submission_is_orphaned submission_is_failed contract_is_unseen is_attention
aggregate_state task =
    let events = current_events task in
    let state = task.logical.source_submission_state in
    if submission_is_failed state || is_truthy task.logical.failed_reason
    then AggregateTaskState.of_submission SubmissionState.failed
    else if submission_is_attention state
        || any (λ event. is_attention event.automation_state) events
    then AggregateTaskState.of_submission SubmissionState.attention_required
    else if is_some task.in_flight
    then AggregateTaskState.waiting_receipt
    else if not (is_some task.logical.current_inclusion) || submission_is_orphaned state
    then AggregateTaskState.of_submission SubmissionState.orphaned
    else if any (λ event. contract_is_unseen event.contract_state) events
    then AggregateTaskState.of_submission state
    else aggregate_seen state events

-- aggregateTask(task).counts, as the count of one state
unfoldable pub aggregate_count : (EvidenceAutomationState → Bool) → WorkerTask → ℕ
unfolding current_events
aggregate_count is_state task =
    sum (map (λ event. if is_state event.automation_state then 1 else 0) (current_events task))

is_finished : AggregateTaskState → Bool
is_finished AggregateTaskState.completed = true
is_finished AggregateTaskState.completed_with_rejections = true
is_finished (AggregateTaskState.of_submission SubmissionState.orphaned) = true
is_finished _ = false

unfoldable pub is_non_terminal_task : WorkerTask → Bool
unfolding is_finished
is_non_terminal_task task = not (is_finished (aggregate_state task))

-- `object` is the identity that the caller gives to the new object.
unfoldable pub new_epoch : ℕ → ℕ → Bool → AttemptEpoch
new_epoch object now_ms resumed_by_operator = record {
  object = object;
  started_at = now_ms;
  deadline_at = now_ms + six_hours_ms;
  retry_index = 0;
  last_attempt_at = none;
  next_attempt_at = none;
  resumed_by_operator = resumed_by_operator;
}

-- Math.random() is a multiple of 2^-53; a draw is its number of such units.
pub random_unit : ℕ
random_unit = 2 ^ 53

-- Math.min(5_000 * 2 ** epoch.retryIndex, 300_000)
unfoldable pub retry_base : ℕ → ℕ
retry_base retry_index = min (5000 * 2 ^ retry_index) 300000

-- The jitter is 0.9 + min(1, max(0, random())) * 0.2, here an exact fraction over 10 units.
unfoldable pub retry_delay_ms : AttemptEpoch → ℕ → ℕ → ℕ
unfolding retry_base
retry_delay_ms epoch now_ms draw =
    if leb epoch.deadline_at now_ms
    then 0
    else min
        (retry_base epoch.retry_index
          * (9 * random_unit + 2 * min random_unit draw)
          / (10 * random_unit))
        (epoch.deadline_at - now_ms)

unfoldable pub maximum_liability : ℕ → ℕ → ℕ
maximum_liability gas_limit price = gas_limit * price

unfoldable pub actual_fee : ℕ → ℕ → ℕ
actual_fee gas_used effective_gas_price = gas_used * effective_gas_price

pub record ResourceInput : Type 0 where
  pub limits : WorkerLimits
  pub estimated_gas : ℕ
  pub final_gas_limit : ℕ
  pub final_price : ℕ
  pub signer_balance : ℕ
  pub rolling_actual_fees : ℕ
  pub unresolved_reservations : ℕ

pub data PolicyVerdict : Type 0 where
  allowed : ℕ → PolicyVerdict
  refused : String → PolicyVerdict

-- The thrown message is the refusal.
unfoldable pub assert_resource_policy : ResourceInput → PolicyVerdict
unfolding maximum_liability
assert_resource_policy input =
    let liability = maximum_liability input.final_gas_limit input.final_price in
    if ltb input.limits.transaction_gas_cap input.estimated_gas
      || ltb input.limits.transaction_gas_cap input.final_gas_limit
    then refused "GAS_CAP_EXCEEDED"
    else if ltb input.limits.max_fee_per_gas_cap input.final_price
    then refused "FEE_CAP_EXCEEDED"
    else if ltb input.limits.rolling_24_hour_fee_budget
        (input.rolling_actual_fees + input.unresolved_reservations + liability)
    then refused "ROLLING_BUDGET_EXCEEDED"
    else if ltb input.signer_balance (liability + input.limits.minimum_signer_balance_reserve)
    then refused "BALANCE_RESERVE_EXCEEDED"
    else allowed liability

unfoldable pub unresolved_reservation : List InFlightEnvelope → ℕ
unresolved_reservation envelopes = sum (map (λ envelope. envelope.maximum_liability) envelopes)
