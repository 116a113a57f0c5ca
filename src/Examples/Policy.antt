-- ===== src/Examples/Policy.antt =====
-- Concrete runs of the decisions of worker/policy.ts and of the scan's windows.
use cr3d_x.Base.{◌+◌, arith, ◌≤◌, ◌<◌, ◌≡◌, ◌↔◌, refl, false}
use cr3d_x.Types.{Hex, AttemptEpoch, WorkerLimits}
use cr3d_x.Policy.{
  ErrorAbi, ParsedError, error_string, no_match, parsed, refreshable_continuity_error,
  classify_error, classify_with, classify_simulation, new_epoch, retry_delay_ms, ResourceInput,
  allowed, assert_resource_policy,
}
use cr3d_x.Policy.Retry.{retry_delay_ms-bounds}
use cr3d_x.Policy.Resources.{IsWithinLimits, assert_resource_policy-IsWithinLimits}
use cr3d_x.Policy.Simulation.{ReadsAsError, classify_simulation-refresh}
use cr3d_x.Engine.Scan.Windows.{windows}
use cr3d_x.Engine.Scan.Tiles.{Tiles, windows-Tiles}

abbrev small_limits : WorkerLimits
small_limits = record {
  max_non_terminal_tasks = 8;
  max_events_per_transaction = 4;
  transaction_gas_cap = 600000;
  max_fee_per_gas_cap = 50;
  rolling_24_hour_fee_budget = 30000000;
  minimum_signer_balance_reserve = 1000000;
}

abbrev small_input : ResourceInput
small_input = record {
  limits = small_limits;
  estimated_gas = 300000;
  final_gas_limit = 360000;
  final_price = 40;
  signer_balance = 20000000;
  rolling_actual_fees = 9000000;
  unresolved_reservations = 0;
}

assert_resource_policy-IsWithinLimits_example :
    (assert_resource_policy small_input ≡ allowed 14400000) ↔ IsWithinLimits small_input 14400000
assert_resource_policy-IsWithinLimits_example =
    assert_resource_policy-IsWithinLimits small_input 14400000

abbrev third_attempt : AttemptEpoch
third_attempt = record (new_epoch 0 1000 false) { retry_index = 2; deadline_at = 30000 }

retry_delay_ms-bounds_example :
    let delay = retry_delay_ms third_attempt 15000 12345 in
    (0 < delay) × (delay ≤ 330000) × (15000 + delay ≤ 30000)
retry_delay_ms-bounds_example = retry_delay_ms-bounds third_attempt 15000 12345 (ground arith)

abbrev standard_errors : ErrorAbi → Hex → ParsedError
standard_errors error_string revert_data = parsed "Error" refreshable_continuity_error
standard_errors _ revert_data = no_match

classify_simulation-refresh_example :
    ReadsAsError standard_errors "0x08c379a0" refreshable_continuity_error
unfolding classify_simulation classify_with classify_error
classify_simulation-refresh_example = classify_simulation-refresh standard_errors "0x08c379a0" refl

windows-Tiles_example : Tiles 100 2500 (windows 100 2500)
windows-Tiles_example = windows-Tiles 100 2500
