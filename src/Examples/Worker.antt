-- ===== src/Examples/Worker.antt =====
-- A worker on two small chains: one pending evidence of one task may be applied.
use cr3d_x.Base.{true, false, none, some, [], ◌∷◌}
use cr3d_x.Types.{
  Hex, WorkerConfig, WorkerState, WorkerTask, InFlightEnvelope, application, EvidenceRecord,
  EvidenceKind, InclusionState, ContractEvidenceState, EvidenceAutomationState, SubmissionState,
  worker_schema_version,
}
use cr3d_x.Types.Port.{
  ok, threw, TransactionRequest, succeeded, SingleProof, apply_evidence, WorkerPort, Env,
  DestinationReceipt,
}
use cr3d_x.Policy.{no_match, new_epoch}
use cr3d_x.Exec.{World}

abbrev pub deal : Hex
deal = "0x5cf1f030363c28c3fa1862759ccc63b338d0a57fd682d9a6965a61acf93706fc"

abbrev pub source_hash : Hex
source_hash = "0xe90b91457786d4e89104e157c746b2d8ec8d91b9462321602c96591a6c2d72ec"

abbrev pub evidence : Hex
evidence = "0x65f1d8a980b49ec20510b047473785ebcfd6648c0d4cfafd3857241b9c8df213"

abbrev pub operation_hash : Hex
operation_hash = "0xa0c24a107398af5c99cc8cfaab0ea50f4542caff45c34bc8f539afbfa55b13b6"

abbrev account : Hex
account = "0x00000000000000000000000000000000000000aa"

abbrev pub small_config : WorkerConfig
small_config = record {
  state_dir = "/var/lib/cr3dx";
  source_rpc_url = "https://source";
  destination_rpc_url = "https://destination";
  destination_substrate_rpc_url = "wss://destination";
  proof_builder_url = "https://proofs";
  source_chain_key = 1;
  verifier_address = "0x5d2c4d0c9ae8a0cd26ef91e4d4a2c43dd98c3c09";
  funding_topic = "0xf1";
  repayment_topic = "0xf2";
  poll_interval_ms = 5000;
  source_chain_id = 11155111;
  destination_chain_id = 102031;
  source_start_block = 100;
  gateway_address = "0x11dd8a4c790939dea8ced631db27afe54334a749";
  deals_address = "0x8f7b944653063f43bb213ce49517f9bf9fc6a3cc";
  limits = record {
    max_non_terminal_tasks = 8;
    max_events_per_transaction = 4;
    transaction_gas_cap = 600000;
    max_fee_per_gas_cap = 50;
    rolling_24_hour_fee_budget = 30000000;
    minimum_signer_balance_reserve = 1000000;
  };
}

abbrev pub request : TransactionRequest
request = record {
  destination = small_config.deals_address;
  calldata = apply_evidence evidence;
  nonce = none;
  gas_limit = none;
  fees = none;
}

abbrev no_proof : SingleProof
no_proof = record {
  header_number = 0;
  tx_index = 0;
  tx_hash = "0x";
  tx_bytes = "0x";
  root = "0x";
  siblings = [];
  lower_endpoint_digest = "0x";
  roots = [];
}

abbrev small_chain : WorkerPort
small_chain = record {
  signer_address = λ n. ok account;
  source_head = λ n. ok 150;
  candidate_logs = λ n from to. ok [];
  source_receipt = λ n hash. threw "source unavailable";
  decode_gateway_events = λ n receipt. ok [];
  evidence_id = λ n event. ok evidence;
  seen = λ n id. ok true;
  evidence_state =
      λ n id. ok (record { state = ContractEvidenceState.verified_pending; reason = "NONE" });
  deal_view = λ n id. ok (record { status = 1; designated_investor = account });
  attested_height = λ n. ok 150;
  fresh_proof = λ n hash. ok no_proof;
  submission_request = λ n proof. ok request;
  application_request = λ n id. ok request;
  simulate = λ n r. ok succeeded;
  prepare = λ n r nonce. ok (record {
    request = record r { nonce = some nonce };
    estimate = 300000;
    gas_limit = 360000;
    price = 40;
  });
  sign = λ n r. ok (record { raw = "0x02f8"; hash = operation_hash });
  broadcast = λ n raw. ok operation_hash;
  destination_receipt = λ n hash. ok none;
  destination_head = λ n. ok 900;
  canonical_destination_block_hash = λ n block. ok none;
  destination_block_timestamp = λ n block. ok 1700000000;
  nonces = λ n. ok (record { latest = 7; pending = 7 });
  signer_balance = λ n. ok 20000000;
  runtime_intervals = λ n. ok (record { attestation_interval = 10; checkpoint_interval = 10 });
  assert_deployment_configuration = λ n. ok tt;
}

abbrev pub small_env : Env
small_env = record {
  config = small_config;
  chain = small_chain;
  now = λ n. 1000000000;
  wall_clock = λ n. 1000000000;
  random = λ n. 5;
  keccak256 = λ raw. operation_hash;
  sha256 = λ text. "b7bf02c15afd864f4274428e9be186344e0191e616bc45b25ec2fab4d709d4d5";
  parse_error = λ abi revert_data. no_match;
}

abbrev pub ready_event : EvidenceRecord
ready_event = record {
  event = record {
    source_chain_id = 11155111;
    transaction_hash = source_hash;
    source_block_number = 120;
    source_block_hash = operation_hash;
    transaction_index = 0;
    transaction_log_ordinal = 0;
    rpc_log_index = 0;
    emitter = small_config.gateway_address;
    kind = EvidenceKind.repayment;
    deal_id = deal;
    counterparty = account;
    recipient = account;
    amount = 1100000;
    event_nonce = 1;
  };
  identity = "11155111:0";
  expected_evidence_id = evidence;
  inclusion_state = InclusionState.current_inclusion;
  contract_state = ContractEvidenceState.verified_pending;
  automation_state = EvidenceAutomationState.ready_to_apply;
  rejection_reason = "NONE";
  application_epoch = some (new_epoch 0 1000000000 false);
  application_attempt_count = 0;
  prerequisite_snapshot = some (record { deal_status = 1; designated_investor = account });
  first_observed_at = 1000000000;
  transitions = [];
}

abbrev pub ready_task : WorkerTask
ready_task = record {
  schema_version = worker_schema_version;
  task_id = "b7bf02c15afd864f4274428e9be186344e0191e616bc45b25ec2fab4d709d4d5";
  created_at = 1000000000;
  updated_at = 1000000000;
  logical = record {
    source_chain_id = 11155111;
    transaction_hash = source_hash;
    source_submission_state = SubmissionState.submitted;
    current_inclusion = some (record {
      source_block_number = 120;
      source_block_hash = operation_hash;
      transaction_index = 0;
      receipt_status = 1;
      events = ready_event ∷ [];
      observed_at = 1000000000;
      superseded_at = none;
      superseded_reason = none;
    });
    inclusion_history = [];
    submission_epoch = none;
    submission_attempt_count = 1;
    source_attention_reason = none;
    failed_reason = none;
    transitions = [];
    operation_history = [];
  };
  in_flight = none;
}

abbrev pub small_state : WorkerState
small_state = record {
  schema_version = worker_schema_version;
  initialized_at = 0;
  signer_address = account;
  bootstrap_latest_nonce = 7;
  source_cursor = none;
  enrollments = [];
  enrollment_history = [];
  global_attention_reasons = [];
  runtime_observation = none;
}

abbrev pub small_world : World
small_world = record {
  established = true;
  state = small_state;
  tasks = ready_task ∷ [];
  task = ready_task;
  trace = [];
  calls = 0;
}

abbrev pub held_envelope : InFlightEnvelope
held_envelope = record {
  purpose = application evidence;
  transaction_hash = operation_hash;
  raw_transaction = "0x02f8";
  nonce = 7;
  chain_id = 102031;
  destination = small_config.deals_address;
  maximum_liability = 14400000;
  created_at = 1000000000;
  first_broadcast_at = none;
  last_broadcast_at = none;
  resolution_deadline_at = none;
  broadcast_count = 0;
  receipt = none;
}

abbrev pub held_task : WorkerTask
held_task = record ready_task { in_flight = some held_envelope }

-- The same worker while its task holds the lane.
abbrev pub held_world : World
held_world = record small_world { tasks = held_task ∷ []; task = held_task }

abbrev pub reverted_receipt : DestinationReceipt
reverted_receipt = record {
  hash = operation_hash;
  status = 0;
  block_number = 880;
  block_hash = source_hash;
  gas_used = 292348;
  effective_gas_price = 40;
}

-- A worker that waits for its operator.
abbrev pub stopped_world : World
stopped_world = record small_world {
  state = record small_state { global_attention_reasons = "SOURCE_ADMISSION_FAILURE:x" ∷ [] };
}
