-- ===== src/Config.antt =====
-- worker/config.ts: the configuration of the worker from the process environment. Number, ethers'
-- getAddress and id, and path.resolve are parameters.
pub mod Bounds
use Prim.Native.Char.{code}
use cr3d_x.Base.{
  ℕ, zero, ◌+◌, ◌*◌, ◌-◌, String, ◌<>◌, str_eq, Bool, true, false, not, ◌&&◌, ◌||◌, Option, none,
  some, ltb, leb, ◌==◌, is_hex, if◌then◌else◌,
}
use cr3d_x.Types.{Hex, WorkerLimits, WorkerConfig}
use cr3d_x.Types.Port.{Result, ok, threw}
use cr3d_x.Types.Fallible.{◌>>=◌, ◌>>◌, guard}

-- process.env[name]; `number` is the safe integer that Number reads, where that is one and not negative.
pub record Process : Type 0 where
  pub env : String → Option String
  pub number : String → Option ℕ
  pub get_address : String → Result Hex
  pub id : String → Hex
  pub resolve : String → String

unfoldable pub missing_message : String → String
missing_message name = "Missing required environment variable " <> name

unfoldable pub present : String → Option String → Result String
present name none = threw (missing_message name)
present name (some value) = if str_eq value "" then threw (missing_message name) else ok value

unfoldable pub positive : String → Option ℕ → Result ℕ
positive name none = threw (name <> " must be a positive safe integer")
positive name (some n) =
    if ltb 0 n then ok n else threw (name <> " must be a positive safe integer")

unfoldable pub non_negative : String → Option ℕ → Result ℕ
non_negative name none = threw (name <> " must be a non-negative safe integer")
non_negative name (some n) = ok n

-- The number that decimal digits read, behind those that were read before: /^\d+$/ and BigInt
unfoldable pub digits_from : ℕ → String → Option ℕ
digits_from n String.[] = some n
digits_from n (String.◌∷◌ c text) =
    let rest = digits_from (n * 10 + (code c - 48)) text in
    if leb 48 (code c) && leb (code c) 57 then rest else none

unfoldable pub big_int : String → Option ℕ
big_int text = if str_eq text "" then none else digits_from 0 text

unfoldable pub non_zero : String → Option ℕ → Result ℕ
non_zero name none = threw (name <> " must be a non-zero base-10 integer")
non_zero name (some n) =
    if ltb 0 n then ok n else threw (name <> " must be a non-zero base-10 integer")

unfoldable pub is_absolute : String → Bool
is_absolute String.[] = false
is_absolute (String.◌∷◌ c text) = code c == 47

-- url.replace(/\/+$/, '')
unfoldable pub without_slashes : String → String
without_slashes String.[] = String.[]
without_slashes (String.◌∷◌ c text) =
    let rest = without_slashes text in
    if (code c == 47) && str_eq rest "" then String.[] else String.◌∷◌ c rest

-- raw.startsWith('0x') ? raw : `0x${raw}`
unfoldable pub with_prefix : String → String
with_prefix (String.◌∷◌ first (String.◌∷◌ x text)) =
    if (code first == 48) && (code x == 120)
    then String.◌∷◌ first (String.◌∷◌ x text)
    else "0x" <> String.◌∷◌ first (String.◌∷◌ x text)
with_prefix text = "0x" <> text

unfoldable pub checked_private_key_of : String → Result Hex
checked_private_key_of key =
    if is_hex 64 key then ok key else threw "CR3DX_WORKER_PRIVATE_KEY is not a 32-byte hex key"

unfoldable pub injected_key : Option String → Result Hex
injected_key none = threw "CR3DX_WORKER_PRIVATE_KEY is not injected"
injected_key (some raw) =
    if str_eq raw ""
    then threw "CR3DX_WORKER_PRIVATE_KEY is not injected"
    else checked_private_key_of (with_prefix raw)

unfoldable pub is_secret_mode : Option String → Bool
is_secret_mode none = false
is_secret_mode (some mode) = str_eq mode "file" || str_eq mode "manager"

unfoldable pub is_zero_text : Option String → Bool
is_zero_text none = false
is_zero_text (some text) = str_eq text "0"

pub record Endpoints : Type 0 where
  pub state_dir : String
  pub source : String
  pub destination : String
  pub destination_substrate : String
  pub proof_builder : String

pub record ChainNumbers : Type 0 where
  pub source_id : ℕ
  pub source_key : ℕ
  pub destination_id : ℕ
  pub start_block : ℕ

pub record Addresses : Type 0 where
  pub gateway : Hex
  pub verifier : Hex
  pub deals : Hex

module _ (process : Process) where
  unfoldable pub required_env : String → Result String
  required_env name = present name (process.env name)

  -- positiveInteger on what the variable holds
  unfoldable pub positive_or : String → Option ℕ → Option String → Result ℕ
  positive_or name none none = positive name none
  positive_or name (some fallback) none = ok fallback
  positive_or name none (some raw) = positive name (process.number raw)
  positive_or name (some fallback) (some raw) =
      if str_eq raw "" then ok fallback else positive name (process.number raw)

  unfoldable pub positive_integer : String → Option ℕ → Result ℕ
  positive_integer name fallback = positive_or name fallback (process.env name)

  unfoldable pub non_negative_integer : String → Result ℕ
  non_negative_integer name = do value ← required_env name; non_negative name (process.number value)

  unfoldable pub positive_big_int : String → Result ℕ
  positive_big_int name = do raw ← required_env name; non_zero name (big_int raw)

  unfoldable pub address : String → Result Hex
  address name = do value ← required_env name; process.get_address value

  unfoldable pub load_endpoints : Result Endpoints
  load_endpoints = do
    state_dir ← required_env "CR3DX_WORKER_STATE_DIR"
    guard (is_absolute state_dir) "CR3DX_WORKER_STATE_DIR must be absolute"
    source ← required_env "CR3DX_WORKER_SOURCE_RPC_URL"
    destination ← required_env "CR3DX_WORKER_DESTINATION_RPC_URL"
    destination_substrate ← required_env "CR3DX_WORKER_DESTINATION_SUBSTRATE_RPC_URL"
    proof_builder ← required_env "CR3DX_WORKER_PROOF_BUILDER_URL"
    ok (record {
      state_dir = process.resolve state_dir;
      source = source;
      destination = destination;
      destination_substrate = destination_substrate;
      proof_builder = without_slashes proof_builder;
    })

  unfoldable pub load_chain_numbers : Result ChainNumbers
  load_chain_numbers = do
    source_id ← positive_integer "CR3DX_WORKER_SOURCE_CHAIN_ID" none
    source_key ← positive_integer "CR3DX_WORKER_SOURCE_CHAIN_KEY" none
    destination_id ← positive_integer "CR3DX_WORKER_DESTINATION_CHAIN_ID" none
    start_block ← non_negative_integer "CR3DX_WORKER_SOURCE_START_BLOCK"
    ok (record {
      source_id = source_id;
      source_key = source_key;
      destination_id = destination_id;
      start_block = start_block;
    })

  unfoldable pub load_addresses : Result Addresses
  load_addresses = do
    gateway ← address "CR3DX_WORKER_GATEWAY_ADDRESS"
    verifier ← address "CR3DX_WORKER_VERIFIER_ADDRESS"
    deals ← address "CR3DX_WORKER_DEALS_ADDRESS"
    ok (record { gateway = gateway; verifier = verifier; deals = deals })

  unfoldable pub load_limits : Result WorkerLimits
  load_limits = do
    gas_cap ← positive_big_int "CR3DX_WORKER_TRANSACTION_GAS_CAP"
    fee_cap ← positive_big_int "CR3DX_WORKER_MAX_FEE_PER_GAS"
    budget ← positive_big_int "CR3DX_WORKER_ROLLING_24H_FEE_BUDGET"
    reserve ← positive_big_int "CR3DX_WORKER_MINIMUM_BALANCE_RESERVE"
    ok (record {
      max_non_terminal_tasks = 1000;
      max_events_per_transaction = 32;
      transaction_gas_cap = gas_cap;
      max_fee_per_gas_cap = fee_cap;
      rolling_24_hour_fee_budget = budget;
      minimum_signer_balance_reserve = reserve;
    })

  -- loadWorkerConfig, part by part in the order in which it reads the environment
  unfoldable pub load_worker_config : Result WorkerConfig
  load_worker_config = do
    guard (not (is_zero_text (process.env "NODE_TLS_REJECT_UNAUTHORIZED")))
        "Refusing S6 worker with NODE_TLS_REJECT_UNAUTHORIZED=0"
    endpoints ← load_endpoints
    numbers ← load_chain_numbers
    addresses ← load_addresses
    poll_interval_ms ← positive_integer "CR3DX_WORKER_POLL_INTERVAL_MS" (some 5000)
    limits ← load_limits
    ok (record {
      state_dir = endpoints.state_dir;
      source_rpc_url = endpoints.source;
      destination_rpc_url = endpoints.destination;
      destination_substrate_rpc_url = endpoints.destination_substrate;
      proof_builder_url = endpoints.proof_builder;
      source_chain_id = numbers.source_id;
      source_chain_key = numbers.source_key;
      destination_chain_id = numbers.destination_id;
      source_start_block = numbers.start_block;
      gateway_address = addresses.gateway;
      verifier_address = addresses.verifier;
      deals_address = addresses.deals;
      funding_topic = process.id "FundingMade(bytes32,address,address,uint256,uint256)";
      repayment_topic = process.id "RepaymentMade(bytes32,address,address,uint256,uint256)";
      poll_interval_ms = poll_interval_ms;
      limits = limits;
    })

  -- privateKeyFromEnvironment
  unfoldable pub private_key_from_environment : Result Hex
  private_key_from_environment = do
    guard (is_secret_mode (process.env "CR3DX_WORKER_SECRET_MODE"))
        "CR3DX_WORKER_SECRET_MODE must be file or manager"
    injected_key (process.env "CR3DX_WORKER_PRIVATE_KEY")
