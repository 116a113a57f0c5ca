-- ===== src/Examples/Config.antt =====
-- A process environment that loads.
use cr3d_x.Base.{String, str_eq, ◌≡◌, refl, Option, none, some, List, [], ◌∷◌, if◌then◌else◌}
use cr3d_x.Types.{WorkerConfig}
use cr3d_x.Types.Port.{ok}
use cr3d_x.Config.{
  Process, missing_message, present, positive, non_negative, digits_from, big_int, non_zero,
  is_absolute, without_slashes, is_zero_text, required_env, positive_or, positive_integer,
  non_negative_integer, positive_big_int, address, load_endpoints, load_chain_numbers,
  load_addresses, load_limits, load_worker_config, with_prefix,
}
use cr3d_x.Config.Bounds.{IsUsable, load_worker_config-IsUsable}

abbrev env_value : String → List (String × String) → Option String
env_value name [] = none
env_value name ((key, value) ∷ rest) = if str_eq name key then some value else env_value name rest

abbrev process : Process
process = record {
  env = λ name. env_value name (
      ("CR3DX_WORKER_STATE_DIR", "/var/lib/cr3dx")
      ∷ ("CR3DX_WORKER_SOURCE_RPC_URL", "https://source")
      ∷ ("CR3DX_WORKER_DESTINATION_RPC_URL", "https://destination")
      ∷ ("CR3DX_WORKER_DESTINATION_SUBSTRATE_RPC_URL", "wss://destination")
      ∷ ("CR3DX_WORKER_PROOF_BUILDER_URL", "https://proofs//")
      ∷ ("CR3DX_WORKER_SOURCE_CHAIN_ID", "1")
      ∷ ("CR3DX_WORKER_SOURCE_CHAIN_KEY", "1")
      ∷ ("CR3DX_WORKER_DESTINATION_CHAIN_ID", "1")
      ∷ ("CR3DX_WORKER_SOURCE_START_BLOCK", "1")
      ∷ ("CR3DX_WORKER_GATEWAY_ADDRESS", "0xa1")
      ∷ ("CR3DX_WORKER_VERIFIER_ADDRESS", "0xa2")
      ∷ ("CR3DX_WORKER_DEALS_ADDRESS", "0xa3")
      ∷ ("CR3DX_WORKER_POLL_INTERVAL_MS", "")
      ∷ ("CR3DX_WORKER_TRANSACTION_GAS_CAP", "600000")
      ∷ ("CR3DX_WORKER_MAX_FEE_PER_GAS", "40")
      ∷ ("CR3DX_WORKER_ROLLING_24H_FEE_BUDGET", "90")
      ∷ ("CR3DX_WORKER_MINIMUM_BALANCE_RESERVE", "007")
      ∷ []);
  number = λ text. some 1;
  get_address = λ text. ok text;
  id = λ text. text;
  resolve = λ text. text;
}

abbrev config : WorkerConfig
config = record {
  state_dir = "/var/lib/cr3dx";
  source_rpc_url = "https://source";
  destination_rpc_url = "https://destination";
  destination_substrate_rpc_url = "wss://destination";
  proof_builder_url = "https://proofs";
  source_chain_id = 1;
  source_chain_key = 1;
  destination_chain_id = 1;
  source_start_block = 1;
  gateway_address = "0xa1";
  verifier_address = "0xa2";
  deals_address = "0xa3";
  funding_topic = "FundingMade(bytes32,address,address,uint256,uint256)";
  repayment_topic = "RepaymentMade(bytes32,address,address,uint256,uint256)";
  poll_interval_ms = 5000;
  limits = record {
    max_non_terminal_tasks = 1000;
    max_events_per_transaction = 32;
    transaction_gas_cap = 600000;
    max_fee_per_gas_cap = 40;
    rolling_24_hour_fee_budget = 90;
    minimum_signer_balance_reserve = 7;
  };
}

with_prefix-once : (with_prefix "ab" ≡ "0xab") × (with_prefix "0xab" ≡ "0xab")
unfolding with_prefix
with_prefix-once = (refl, refl)

load_worker_config-IsUsable_example : IsUsable process config
unfolding missing_message present positive non_negative digits_from big_int non_zero is_absolute
    without_slashes is_zero_text required_env positive_or positive_integer non_negative_integer
    positive_big_int address load_endpoints load_chain_numbers load_addresses load_limits
    load_worker_config
load_worker_config-IsUsable_example = load_worker_config-IsUsable process {config = config} refl
