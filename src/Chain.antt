-- ===== src/Chain.antt =====
-- worker/chain.ts: what `WorkerChain` makes of the answers of ethers and of the two nodes. The answers
-- themselves, the ABI decoder and the address checksum are parameters.
pub mod Preparation
pub mod Decoding
pub mod Reads
pub mod Deployed
pub mod Destination
use Prim.Native.String.{count}
use cr3d_x.Base.{
  ℕ, suc, ◌+◌, ◌-◌, ◌*◌, ◌/◌, String, ◌<>◌, str_eq, Bool, true, false, not, ◌&&◌, ◌||◌, Option,
  none, some, List, [], ◌∷◌, map, ltb, ◌==◌, if◌then◌else◌, length, same_hex, lower, decimal,
}
use cr3d_x.Types.{Hex, EvidenceKind, ContractEvidenceState, DecodedGatewayEvent, WorkerConfig}
use cr3d_x.Types.Port.{
  Result, ok, threw, CandidateLogRef, SourceLog, RawSourceReceipt, TransactionRequest,
  PreparedTransaction, FeeTerms, eip1559, legacy, EvidenceStatus,
}

-- ethers' FeeData
pub record FeeData : Type 0 where
  pub gas_price : Option ℕ
  pub max_fee_per_gas : Option ℕ
  pub max_priority_fee_per_gas : Option ℕ

-- (estimate * 120n + 99n) / 100n
unfoldable pub gas_limit_of : ℕ → ℕ
gas_limit_of estimate = (estimate * 120 + 99) / 100

-- The request that `prepare` returns. `type` is the constructor of the fees; `chainId` is the destination of
-- the configuration in every request, and is left out.
unfoldable pub filled_request : TransactionRequest → ℕ → ℕ → FeeTerms → TransactionRequest
filled_request request nonce estimate fees = record request {
  nonce = some nonce;
  gas_limit = some (gas_limit_of estimate);
  fees = some fees;
}

unfoldable pub prepared_with : TransactionRequest → ℕ → ℕ → FeeTerms → ℕ → PreparedTransaction
prepared_with request nonce estimate fees price = record {
  request = filled_request request nonce estimate fees;
  estimate = estimate;
  gas_limit = gas_limit_of estimate;
  price = price;
}

unfoldable pub legacy_prepared : TransactionRequest → ℕ → ℕ → Option ℕ → Result PreparedTransaction
legacy_prepared request nonce estimate none = threw "Destination RPC returned no usable fee data"
legacy_prepared request nonce estimate (some price) =
    ok (prepared_with request nonce estimate (legacy price) price)

-- The branches of prepare on the fee data.
unfoldable pub priced :
    TransactionRequest → ℕ → ℕ → Option ℕ → Option ℕ → Option ℕ → Result PreparedTransaction
priced request nonce estimate (some max_fee) (some priority) gas_price =
    ok (prepared_with request nonce estimate (eip1559 max_fee priority) max_fee)
priced request nonce estimate none priority gas_price =
    legacy_prepared request nonce estimate gas_price
priced request nonce estimate (some max_fee) none gas_price =
    legacy_prepared request nonce estimate gas_price

-- The two answers of the node, the second asked for after the first.
unfoldable pub quoted :
    TransactionRequest → ℕ → Result ℕ → Result FeeData → Result PreparedTransaction
quoted request nonce (threw message) fees = threw message
quoted request nonce (ok estimate) (threw message) = threw message
quoted request nonce (ok estimate) (ok fees) =
    priced request nonce estimate fees.max_fee_per_gas fees.max_priority_fee_per_gas fees.gas_price

-- prepare, with whether a wallet is there, what the node estimates, and what it quotes
unfoldable pub prepare :
    Bool → TransactionRequest → ℕ → Result ℕ → Result FeeData → Result PreparedTransaction
prepare false request nonce estimate fees = threw "Signing key is not available"
prepare true request nonce estimate fees = quoted request nonce estimate fees

-- candidateLogs: the guard `toBlock - fromBlock + 1 > 1_000`, and the normalised hashes
unfoldable pub exceeds_window : ℕ → ℕ → Bool
exceeds_window from_block to_block = ltb 1000 (suc to_block - from_block)

unfoldable pub lower_hash : CandidateLogRef → CandidateLogRef
lower_hash ref = record ref { transaction_hash = lower ref.transaction_hash }

unfoldable pub candidate_logs :
    (ℕ → ℕ → Result (List CandidateLogRef)) → ℕ → ℕ → Result (List CandidateLogRef)
candidate_logs get_logs from_block to_block =
    if exceeds_window from_block to_block
    then threw "Source query exceeds the 1,000-block window"
    else elim (get_logs from_block to_block) [
      | threw message ↦ threw message
      | ok logs ↦ ok (map lower_hash logs)
    ]

-- What `Interface.parseLog` returns, by the positions of its arguments.
pub record ParsedLog : Type 0 where
  pub name : String
  pub deal_id : Hex
  pub counterparty : Hex
  pub recipient : Hex
  pub amount : ℕ
  pub event_nonce : ℕ

-- `parse_log` answers none where parseLog throws or returns null; `get_address` is ethers' checksum on the
-- well-formed addresses of a receipt.
module _ (config : WorkerConfig) (parse_log : List Hex → Hex → Option ParsedLog)
    (get_address : Hex → Hex) where
  unfoldable pub is_evidence_topic : List Hex → Bool
  is_evidence_topic [] = false
  is_evidence_topic (topic ∷ topics) =
      same_hex topic config.funding_topic || same_hex topic config.repayment_topic

  -- The two `continue`s of the loop, negated.
  unfoldable pub is_gateway_event : SourceLog → Bool
  is_gateway_event log = same_hex log.address config.gateway_address && is_evidence_topic log.topics

  unfoldable pub has_event_shape : SourceLog → Bool
  has_event_shape log = (length log.topics == 4) && (count log.payload == 130)

  unfoldable pub event_of : RawSourceReceipt → ℕ → SourceLog → ParsedLog → DecodedGatewayEvent
  event_of receipt ordinal log parsed = record {
    source_chain_id = config.source_chain_id;
    transaction_hash = receipt.transaction_hash;
    source_block_number = receipt.block_number;
    source_block_hash = receipt.block_hash;
    transaction_index = receipt.transaction_index;
    transaction_log_ordinal = ordinal;
    rpc_log_index = log.log_index;
    emitter = get_address log.address;
    kind =
        if str_eq parsed.name "FundingMade" then EvidenceKind.funding else EvidenceKind.repayment;
    deal_id = parsed.deal_id;
    counterparty = get_address parsed.counterparty;
    recipient = get_address parsed.recipient;
    amount = parsed.amount;
    event_nonce = parsed.event_nonce;
  }

  unfoldable pub decode_log : RawSourceReceipt → ℕ → SourceLog → Result DecodedGatewayEvent
  decode_log receipt ordinal log =
      if not (has_event_shape log)
      then threw "MATCHING_LOG_SHAPE_MISMATCH"
      else elim (parse_log log.topics log.payload) [
        | none ↦ threw "MATCHING_LOG_ABI_MISMATCH"
        | some parsed ↦ ok (event_of receipt ordinal log parsed)
      ]

  unfoldable pub push_event :
      Result DecodedGatewayEvent
      → Result (List DecodedGatewayEvent)
      → Result (List DecodedGatewayEvent)
  push_event (threw message) rest = threw message
  push_event (ok event) (threw message) = threw message
  push_event (ok event) (ok events) = ok (event ∷ events)

  -- The loop from one ordinal on.
  unfoldable pub decode_logs :
      RawSourceReceipt → ℕ → List SourceLog → Result (List DecodedGatewayEvent)
  decode_logs receipt ordinal [] = ok []
  decode_logs receipt ordinal (log ∷ logs) =
      let rest = decode_logs receipt (suc ordinal) logs in
      if is_gateway_event log then push_event (decode_log receipt ordinal log) rest else rest

  -- decodeGatewayEvents
  unfoldable pub decode_gateway_events : RawSourceReceipt → Result (List DecodedGatewayEvent)
  decode_gateway_events receipt = decode_logs receipt 0 receipt.logs
