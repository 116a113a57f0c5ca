-- ===== src/Chain/Reads.antt =====
-- worker/chain.ts: the reads of the two chains, the requests for writes and the check of the deployment.
-- What ethers and the nodes answer is a parameter of each, where quantities are read as numbers.
use text.Mathlib.Text.{starts_with}
use cr3d_x.Base.{
  ℕ, zero, suc, String, ◌<>◌, str_eq, Bool, true, false, not, ◌&&◌, Option, none, some, List, [],
  ◌∷◌, ◌==◌, if◌then◌else◌, same_hex, decimal,
}
use cr3d_x.Types.{Hex, EvidenceKind, ContractEvidenceState, WorkerConfig}
use cr3d_x.Types.Port.{
  Result, ok, threw, RawSourceReceipt, DealView, SingleProof, Calldata, submit_and_apply,
  apply_evidence, TransactionRequest, Simulation, succeeded, reverted, EvidenceStatus,
  SignedTransaction, Nonces,
}
use cr3d_x.Types.Fallible.{◌>>=◌}

-- A field of a caught error: a text, an object by its field `data` where that is a text, or anything else.
pub data ErrorField : Type 0 where
  plain : String → ErrorField
  nested : Option String → ErrorField
  other : ErrorField

-- `data`, and `error` of `info`
pub record CaughtError : Type 0 where
  pub payload : ErrorField
  pub info_error : ErrorField

unfoldable pub hex_text : String → Option String
hex_text value = if starts_with value "0x" then some value else none

unfoldable pub field_data : ErrorField → Option String
field_data (plain value) = hex_text value
field_data (nested none) = none
field_data (nested (some value)) = hex_text value
field_data other = none

unfoldable pub first_of : Option String → Option String → Option String
first_of none second = second
first_of (some value) second = some value

-- extractRevertData, where none is an error that is no object
unfoldable pub extract_revert_data : Option CaughtError → Option String
extract_revert_data none = none
extract_revert_data (some error) = first_of (field_data error.payload) (field_data error.info_error)

-- The source node: receipts and the hashes of its blocks.
pub record SourceNode : Type 0 where
  pub receipt : Hex → Result (Option RawSourceReceipt)
  pub block_hash : ℕ → Result (Option Hex)

unfoldable pub is_canonical_block : Hex → Option Hex → Bool
is_canonical_block block_hash none = false
is_canonical_block block_hash (some canonical) =
    not (str_eq canonical "") && same_hex canonical block_hash

unfoldable pub canonical_receipt :
    RawSourceReceipt → Result (Option Hex) → Result (Option RawSourceReceipt)
canonical_receipt receipt (threw message) = threw message
canonical_receipt receipt (ok canonical) =
    if is_canonical_block receipt.block_hash canonical then ok (some receipt) else ok none

unfoldable pub found_receipt :
    SourceNode → Option RawSourceReceipt → Result (Option RawSourceReceipt)
found_receipt node none = ok none
found_receipt node (some receipt) = canonical_receipt receipt (node.block_hash receipt.block_number)

-- sourceReceipt
unfoldable pub source_receipt : SourceNode → Hex → Result (Option RawSourceReceipt)
source_receipt node transaction_hash = do
  raw ← node.receipt transaction_hash
  found_receipt node raw

-- The third argument of evidenceIdOf.
unfoldable pub kind_index : EvidenceKind → ℕ
kind_index EvidenceKind.funding = 0
kind_index EvidenceKind.repayment = 1

unfoldable pub contract_state : ℕ → Option ContractEvidenceState
contract_state zero = some ContractEvidenceState.unseen
contract_state (suc zero) = some ContractEvidenceState.verified_pending
contract_state (suc (suc zero)) = some ContractEvidenceState.applied
contract_state (suc (suc (suc zero))) = some ContractEvidenceState.rejected_permanent
contract_state (suc (suc (suc (suc n)))) = none

unfoldable pub reason_name : ℕ → String
reason_name zero = "NONE"
reason_name (suc zero) = "WRONG_INVESTOR"
reason_name (suc (suc zero)) = "WRONG_RECIPIENT"
reason_name (suc (suc (suc n))) = "UNKNOWN_" <> decimal (suc (suc (suc n)))

-- evidenceState on the two numbers that evidenceStateOf answers
unfoldable pub evidence_state : ℕ → ℕ → Result EvidenceStatus
evidence_state state reason = elim (contract_state state) [
  | none ↦ threw ("Unknown on-chain evidence state " <> decimal state)
  | some known ↦ ok (record { state = known; reason = reason_name reason })
]

-- dealView on the fields that getDeal answers
unfoldable pub deal_view : (Hex → Hex) → ℕ → Hex → DealView
deal_view get_address status investor = record {
  status = status;
  designated_investor = get_address investor;
}

module _ (config : WorkerConfig) where
  unfoldable pub request_for : Calldata → TransactionRequest
  request_for calldata = record {
    destination = config.deals_address;
    calldata = calldata;
    nonce = none;
    gas_limit = none;
    fees = none;
  }

  unfoldable pub submission_request : SingleProof → TransactionRequest
  submission_request proof = request_for (submit_and_apply proof)

  unfoldable pub application_request : Hex → TransactionRequest
  application_request evidence_id = request_for (apply_evidence evidence_id)

-- The call of `simulate` answers none where it returns, and what it threw otherwise.
unfoldable pub simulated : Option (Option CaughtError) → Simulation
simulated none = succeeded
simulated (some error) = reverted (extract_revert_data error)

-- if (!this.wallet) throw new Error(...)
unfoldable pub with_wallet : {A : Type 0} → Bool → Result A → Result A
with_wallet true io = io
with_wallet false io = threw "Signing key is not available"

unfoldable pub simulate : Bool → Option (Option CaughtError) → Result Simulation
simulate has_wallet answer = with_wallet has_wallet (ok (simulated answer))

unfoldable pub sign_request : Bool → (Hex → Hex) → Result Hex → Result SignedTransaction
sign_request has_wallet keccak256 signature =
    with_wallet has_wallet (do raw ← signature; ok (record { raw = raw; hash = keccak256 raw }))

-- Both counts are asked for at once.
unfoldable pub nonces : Bool → Result ℕ → Result ℕ → Result Nonces
nonces has_wallet latest_count pending_count = with_wallet has_wallet (do
  latest ← latest_count
  pending ← pending_count
  ok (record { latest = latest; pending = pending }))

unfoldable pub signer_balance : Bool → Result ℕ → Result ℕ
signer_balance has_wallet balance = with_wallet has_wallet balance

-- destinationBlockTimestamp on what getBlock answers
unfoldable pub destination_block_timestamp : ℕ → Option ℕ → Result ℕ
destination_block_timestamp block_number none =
    threw ("Destination block " <> (decimal block_number <> " is unavailable"))
destination_block_timestamp block_number (some timestamp) = ok timestamp

-- What the two chains and the two contracts answer about the deployment.
pub record Deployment : Type 0 where
  pub source_chain_id : ℕ
  pub destination_chain_id : ℕ
  pub verifier_chain_key : ℕ
  pub gateway : Hex
  pub funding_topic : Hex
  pub repayment_topic : Hex
  pub deals_verifier : Hex
  pub deals_chain_key : ℕ

-- if (!test) mismatches.push(name), in front of the later ones
unfoldable pub note_mismatch : Bool → String → List String → List String
note_mismatch true name later = later
note_mismatch false name later = name ∷ later

unfoldable pub joined : String → List String → String
joined first [] = first
joined first (second ∷ names) = (first <> ", ") <> joined second names

unfoldable pub refuse_mismatches : List String → Result (Unit {0})
refuse_mismatches [] = ok tt
refuse_mismatches (first ∷ names) =
    threw ("Deployment/configuration mismatch: " <> joined first names)

module _ (config : WorkerConfig) (get_address : Hex → Hex) where
  unfoldable pub mismatches : Deployment → List String
  mismatches d = note_mismatch (d.source_chain_id == config.source_chain_id) "source chain ID" (
      note_mismatch (d.destination_chain_id == config.destination_chain_id) "destination chain ID" (
        note_mismatch (d.verifier_chain_key == config.source_chain_key) "verifier chainKey" (
          note_mismatch (d.deals_chain_key == config.source_chain_key) "deals chainKey" (
            note_mismatch (str_eq (get_address d.gateway) (get_address config.gateway_address))
              "gateway"
              (note_mismatch (same_hex d.funding_topic config.funding_topic) "funding topic" (
                note_mismatch (same_hex d.repayment_topic config.repayment_topic) "repayment topic"
                  (note_mismatch
                    (str_eq (get_address d.deals_verifier) (get_address config.verifier_address))
                    "deals verifier" [])))))))

  -- assertDeploymentConfiguration, behind the eight answers
  unfoldable pub assert_deployment_configuration : Result Deployment → Result (Unit {0})
  assert_deployment_configuration (threw message) = threw message
  assert_deployment_configuration (ok d) = refuse_mismatches (mismatches d)
