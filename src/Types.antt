-- ===== src/Types.antt =====
-- worker/types.ts and the interfaces of worker/chain.ts: the records that the worker keeps on disk and
-- exchanges with the two chains. An ISO timestamp is its number of milliseconds; a decimal string
-- that holds an integer is that integer; an optional field is an `Option`.
pub mod Names
pub mod Port
pub mod Fallible
use cr3d_x.Base.{ℕ, ◌*◌, String, Bool, Option, none, some, List, [], ◌∷◌}

abbrev pub Hex : Type 0
Hex = String

abbrev pub worker_schema_version : ℕ
worker_schema_version = 1

abbrev pub six_hours_ms : ℕ
six_hours_ms = 6 * 60 * 60 * 1000

pub data InclusionState : Type 0 where
  current_inclusion superseded orphaned_inclusion : InclusionState

pub data ContractEvidenceState : Type 0 where
  unseen verified_pending applied rejected_permanent : ContractEvidenceState

pub data EvidenceAutomationState : Type 0 where
  unseen verified_pending ready_to_apply application_in_flight applied : EvidenceAutomationState
  rejected_permanent attention_required : EvidenceAutomationState

pub data SubmissionState : Type 0 where
  observed waiting_attestation ready_for_proof submitting submission_in_flight : SubmissionState
  submitted orphaned attention_required failed : SubmissionState

pub data EvidenceKind : Type 0 where
  funding repayment : EvidenceKind

pub record Transition : Type 0 where
  pub at : ℕ
  pub from : Option String
  pub to : String
  pub reason : String

-- `object` is the identity of the object: two references are the same object when it is the same.
pub record AttemptEpoch : Type 0 where
  pub object : ℕ
  pub started_at : ℕ
  pub deadline_at : ℕ
  pub retry_index : ℕ
  pub last_attempt_at : Option ℕ
  pub next_attempt_at : Option ℕ
  pub resumed_by_operator : Bool

pub record DecodedGatewayEvent : Type 0 where
  pub source_chain_id : ℕ
  pub transaction_hash : Hex
  pub source_block_number : ℕ
  pub source_block_hash : Hex
  pub transaction_index : ℕ
  pub transaction_log_ordinal : ℕ
  pub rpc_log_index : ℕ
  pub emitter : Hex
  pub kind : EvidenceKind
  pub deal_id : Hex
  pub counterparty : Hex
  pub recipient : Hex
  pub amount : ℕ
  pub event_nonce : ℕ

pub record PrerequisiteSnapshot : Type 0 where
  pub deal_status : ℕ
  pub designated_investor : Hex

pub record EvidenceRecord : Type 0 where
  pub event : DecodedGatewayEvent
  pub open event use *
  pub identity : String
  pub expected_evidence_id : Hex
  pub inclusion_state : InclusionState
  pub contract_state : ContractEvidenceState
  pub automation_state : EvidenceAutomationState
  pub rejection_reason : String
  pub application_epoch : Option AttemptEpoch
  pub application_attempt_count : ℕ
  pub prerequisite_snapshot : Option PrerequisiteSnapshot
  pub first_observed_at : ℕ
  pub transitions : List Transition

pub record InclusionSnapshot : Type 0 where
  pub source_block_number : ℕ
  pub source_block_hash : Hex
  pub transaction_index : ℕ
  pub receipt_status : ℕ
  pub events : List EvidenceRecord
  pub observed_at : ℕ
  pub superseded_at : Option ℕ
  pub superseded_reason : Option String

pub data InFlightPurpose : Type 0 where
  submission : List Hex → Hex → InFlightPurpose
  application : Hex → InFlightPurpose

pub record ConfirmedOperation : Type 0 where
  pub purpose : InFlightPurpose
  pub transaction_hash : Hex
  pub nonce : ℕ
  pub receipt_status : ℕ
  pub receipt_block_number : ℕ
  pub receipt_block_hash : Hex
  pub confirmed_at : ℕ
  pub gas_used : ℕ
  pub effective_gas_price : ℕ
  pub actual_fee : ℕ

-- The three optional receipt fields are set and deleted together.
pub record InFlightReceipt : Type 0 where
  pub receipt_block_number : ℕ
  pub receipt_block_hash : Hex
  pub receipt_status : ℕ

pub record InFlightEnvelope : Type 0 where
  pub purpose : InFlightPurpose
  pub transaction_hash : Hex
  pub raw_transaction : Hex
  pub nonce : ℕ
  pub chain_id : ℕ
  pub destination : Hex
  pub maximum_liability : ℕ
  pub created_at : ℕ
  pub first_broadcast_at : Option ℕ
  pub last_broadcast_at : Option ℕ
  pub resolution_deadline_at : Option ℕ
  pub broadcast_count : ℕ
  pub receipt : Option InFlightReceipt

pub record LogicalTask : Type 0 where
  pub source_chain_id : ℕ
  pub transaction_hash : Hex
  pub source_submission_state : SubmissionState
  pub current_inclusion : Option InclusionSnapshot
  pub inclusion_history : List InclusionSnapshot
  pub submission_epoch : Option AttemptEpoch
  pub submission_attempt_count : ℕ
  pub source_attention_reason : Option String
  pub failed_reason : Option String
  pub transitions : List Transition
  pub operation_history : List ConfirmedOperation

pub record WorkerTask : Type 0 where
  pub schema_version : ℕ
  pub task_id : String
  pub created_at : ℕ
  pub updated_at : ℕ
  pub logical : LogicalTask
  pub in_flight : Option InFlightEnvelope

pub record EnrollmentAuditEntry : Type 0 where
  pub at : ℕ
  pub deal_id : Hex
  pub effective_from_source_block : ℕ
  pub observed_source_head : ℕ
  pub retroactive : Bool
  pub reason : String

pub record Enrollment : Type 0 where
  pub deal_id : Hex
  pub effective_from_source_block : ℕ
  pub enrolled_at : ℕ

pub record SourceCursor : Type 0 where
  pub block_number : ℕ
  pub block_hash : Option Hex
  pub updated_at : ℕ

pub record RuntimeObservation : Type 0 where
  pub observed_at : ℕ
  pub attestation_interval : ℕ
  pub checkpoint_interval : ℕ
  pub warning : Option String

pub record WorkerState : Type 0 where
  pub schema_version : ℕ
  pub initialized_at : ℕ
  pub signer_address : Hex
  pub bootstrap_latest_nonce : ℕ
  pub source_cursor : Option SourceCursor
  pub enrollments : List (String × Enrollment)
  pub enrollment_history : List EnrollmentAuditEntry
  pub global_attention_reasons : List String
  pub runtime_observation : Option RuntimeObservation

pub record WorkerLimits : Type 0 where
  pub max_non_terminal_tasks : ℕ
  pub max_events_per_transaction : ℕ
  pub transaction_gas_cap : ℕ
  pub max_fee_per_gas_cap : ℕ
  pub rolling_24_hour_fee_budget : ℕ
  pub minimum_signer_balance_reserve : ℕ

pub record WorkerConfig : Type 0 where
  pub state_dir : String
  pub source_rpc_url : String
  pub destination_rpc_url : String
  pub destination_substrate_rpc_url : String
  pub proof_builder_url : String
  pub source_chain_id : ℕ
  pub source_chain_key : ℕ
  pub destination_chain_id : ℕ
  pub source_start_block : ℕ
  pub gateway_address : Hex
  pub verifier_address : Hex
  pub deals_address : Hex
  pub funding_topic : Hex
  pub repayment_topic : Hex
  pub poll_interval_ms : ℕ
  pub limits : WorkerLimits

-- FAILED, ATTENTION_REQUIRED and ORPHANED are among the submission states.
pub data AggregateTaskState : Type 0 where
  of_submission : SubmissionState → AggregateTaskState
  waiting_receipt ready_to_apply verified_pending : AggregateTaskState
  completed_with_rejections completed : AggregateTaskState
