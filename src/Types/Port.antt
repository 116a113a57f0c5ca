-- ===== src/Types/Port.antt =====
-- What the engine exchanges with the two chains (worker/chain.ts, `WorkerPort` of worker/engine.ts,
-- scripts/lib/proofs.ts), and the environment that it runs in. The chains, the clocks and the random
-- source answer each call on their own: an answer may depend on how many calls were made before.
use cr3d_x.Base.{ℕ, String, Bool, Option, List}
use cr3d_x.Types.{Hex, ContractEvidenceState, DecodedGatewayEvent, WorkerConfig}
use cr3d_x.Policy.{ErrorAbi, ParsedError}

-- A function that may throw an `Error` with its message.
pub data Result {ℓ} (A : Type ℓ) : Type ℓ where
  ok : A → Result A
  threw : String → Result A

pub record CandidateLogRef : Type 0 where
  pub transaction_hash : Hex
  pub block_number : ℕ
  pub block_hash : Hex
  pub log_index : ℕ
  pub topic0 : Hex

pub record SourceLog : Type 0 where
  pub address : Hex
  pub topics : List Hex
  pub payload : Hex
  pub log_index : ℕ

pub record RawSourceReceipt : Type 0 where
  pub transaction_hash : Hex
  pub block_number : ℕ
  pub block_hash : Hex
  pub transaction_index : ℕ
  pub status : ℕ
  pub logs : List SourceLog

pub record DestinationReceipt : Type 0 where
  pub hash : Hex
  pub status : ℕ
  pub block_number : ℕ
  pub block_hash : Hex
  pub gas_used : ℕ
  pub effective_gas_price : ℕ

pub record DealView : Type 0 where
  pub status : ℕ
  pub designated_investor : Hex

pub record MerkleSibling : Type 0 where
  pub hash : Hex
  pub is_left : Bool

pub record SingleProof : Type 0 where
  pub header_number : ℕ
  pub tx_index : ℕ
  pub tx_hash : Hex
  pub tx_bytes : Hex
  pub root : Hex
  pub siblings : List MerkleSibling
  pub lower_endpoint_digest : Hex
  pub roots : List Hex

pub data Calldata : Type 0 where
  submit_and_apply : SingleProof → Calldata
  apply_evidence : Hex → Calldata

pub data FeeTerms : Type 0 where
  eip1559 : ℕ → ℕ → FeeTerms
  legacy : ℕ → FeeTerms

-- The last three fields are absent until `prepare` fills them in.
pub record TransactionRequest : Type 0 where
  pub destination : Hex
  pub calldata : Calldata
  pub nonce : Option ℕ
  pub gas_limit : Option ℕ
  pub fees : Option FeeTerms

pub record PreparedTransaction : Type 0 where
  pub request : TransactionRequest
  pub estimate : ℕ
  pub gas_limit : ℕ
  pub price : ℕ

pub data Simulation : Type 0 where
  succeeded : Simulation
  reverted : Option Hex → Simulation

pub record EvidenceStatus : Type 0 where
  pub state : ContractEvidenceState
  pub reason : String

pub record SignedTransaction : Type 0 where
  pub raw : Hex
  pub hash : Hex

pub record Nonces : Type 0 where
  pub latest : ℕ
  pub pending : ℕ

pub record RuntimeIntervals : Type 0 where
  pub attestation_interval : ℕ
  pub checkpoint_interval : ℕ

-- The first argument of each operation is the number of calls that were made before.
pub record WorkerPort : Type 0 where
  pub signer_address : ℕ → Result Hex
  pub source_head : ℕ → Result ℕ
  pub candidate_logs : ℕ → ℕ → ℕ → Result (List CandidateLogRef)
  pub source_receipt : ℕ → Hex → Result (Option RawSourceReceipt)
  pub decode_gateway_events : ℕ → RawSourceReceipt → Result (List DecodedGatewayEvent)
  pub evidence_id : ℕ → DecodedGatewayEvent → Result Hex
  pub seen : ℕ → Hex → Result Bool
  pub evidence_state : ℕ → Hex → Result EvidenceStatus
  pub deal_view : ℕ → Hex → Result DealView
  pub attested_height : ℕ → Result ℕ
  pub fresh_proof : ℕ → Hex → Result SingleProof
  pub submission_request : ℕ → SingleProof → Result TransactionRequest
  pub application_request : ℕ → Hex → Result TransactionRequest
  pub simulate : ℕ → TransactionRequest → Result Simulation
  pub prepare : ℕ → TransactionRequest → ℕ → Result PreparedTransaction
  pub sign : ℕ → TransactionRequest → Result SignedTransaction
  pub broadcast : ℕ → Hex → Result Hex
  pub destination_receipt : ℕ → Hex → Result (Option DestinationReceipt)
  pub destination_head : ℕ → Result ℕ
  pub canonical_destination_block_hash : ℕ → ℕ → Result (Option Hex)
  pub destination_block_timestamp : ℕ → ℕ → Result ℕ
  pub nonces : ℕ → Result Nonces
  pub signer_balance : ℕ → Result ℕ
  pub runtime_intervals : ℕ → Result RuntimeIntervals
  pub assert_deployment_configuration : ℕ → Result (Unit {0})

-- `now` and `random` are the engine's options, `wall_clock` is `new Date()` of worker/state.ts.
pub record Env : Type 0 where
  pub config : WorkerConfig
  pub chain : WorkerPort
  pub now : ℕ → ℕ
  pub wall_clock : ℕ → ℕ
  pub random : ℕ → ℕ
  pub keccak256 : Hex → Hex
  pub sha256 : String → String
  pub parse_error : ErrorAbi → Hex → ParsedError
