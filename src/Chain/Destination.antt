-- ===== src/Chain/Destination.antt =====
-- worker/chain.ts: what `WorkerChain` hands on of the destination node's receipts and blocks, and the
-- signer's address.
use cr3d_x.Base.{ℕ, Bool, Option, none, some}
use cr3d_x.Types.{Hex}
use cr3d_x.Types.Port.{Result, ok, DestinationReceipt}
use cr3d_x.Types.Fallible.{◌>>=◌}
use cr3d_x.Chain.Reads.{with_wallet}

-- A receipt of ethers; receipts of old chains have no status.
pub record NodeReceipt : Type 0 where
  pub hash : Hex
  pub status : Option ℕ
  pub block_number : ℕ
  pub block_hash : Hex
  pub gas_used : ℕ
  pub gas_price : ℕ

-- receipt.status ?? 0
unfoldable pub status_of : Option ℕ → ℕ
status_of none = 0
status_of (some status) = status

unfoldable pub receipt_of_node : NodeReceipt → DestinationReceipt
receipt_of_node receipt = record {
  hash = receipt.hash;
  status = status_of receipt.status;
  block_number = receipt.block_number;
  block_hash = receipt.block_hash;
  gas_used = receipt.gas_used;
  effective_gas_price = receipt.gas_price;
}

unfoldable pub known_receipt : Option NodeReceipt → Option DestinationReceipt
known_receipt none = none
known_receipt (some receipt) = some (receipt_of_node receipt)

-- destinationReceipt on what getTransactionReceipt answers
unfoldable pub destination_receipt :
    Result (Option NodeReceipt) → Result (Option DestinationReceipt)
destination_receipt answer = do receipt ← answer; ok (known_receipt receipt)

-- (block)?.hash ?? null, for a block whose hash may be missing
unfoldable pub hash_of_block : Option (Option Hex) → Option Hex
hash_of_block none = none
hash_of_block (some hash) = hash

-- canonicalDestinationBlockHash on what getBlock answers
unfoldable pub canonical_destination_block_hash : Result (Option (Option Hex)) → Result (Option Hex)
canonical_destination_block_hash answer = do block ← answer; ok (hash_of_block block)

-- signerAddress
unfoldable pub signer_address : Bool → Hex → Result Hex
signer_address has_wallet address = with_wallet has_wallet (ok address)
