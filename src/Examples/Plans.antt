-- ===== src/Examples/Plans.antt =====
-- Concrete balances, arguments and enrollments.
use cr3d_x.Base.{ℕ, ◌+◌, ◌≤◌, ◌≡◌, ◌↔◌, refl, String, true, Option, none, some, [], ◌∷◌, All}
use cr3d_x.Types.{WorkerState, worker_schema_version}
use cr3d_x.Policy.{is_some}
use cr3d_x.LivePlan.{funding, face_value, UsdcState, project_usdc}
use cr3d_x.LivePlan.Balances.{HasTotal, project_usdc-HasTotal}
use cr3d_x.LivePlan.Remedies.{ready, diagnose, total_of}
use cr3d_x.LivePlan.Verdicts.{diagnose-ready, IsDiagnosed, diagnose-IsDiagnosed}
use cr3d_x.S5Plan.{
  fresh, LiveOptions, read_arguments, take_value, take_mode, take_runs, runs_of, mode_of,
  set_preflight, and_then, check_options, is_continue, parse_live_options,
}
use cr3d_x.S5Plan.Options.{IsUsable, parse_live_options-IsUsable}

abbrev spread : UsdcState
spread = record { a = 1000000; b = 90000; helper = 7 }

project_usdc-HasTotal_example : All (HasTotal (total_of spread)) (project_usdc spread).rows
project_usdc-HasTotal_example = project_usdc-HasTotal spread

abbrev plain_units : ℕ → ℕ → String
plain_units value decimals = "1.0"

diagnose-ready_example :
    ((diagnose plain_units spread).verdict ≡ ready)
    ↔ ((funding ≤ spread.a) × (face_value ≤ spread.b + funding))
diagnose-ready_example = diagnose-ready plain_units spread

abbrev remainder : UsdcState
remainder = record { a = 0; b = 0; helper = 1 }

diagnose-IsDiagnosed_example : IsDiagnosed plain_units remainder (diagnose plain_units remainder)
diagnose-IsDiagnosed_example = diagnose-IsDiagnosed plain_units remainder

abbrev three_only : String → Option ℕ
three_only text = some 3

abbrev fresh_options : LiveOptions
fresh_options = record { mode = some fresh; runs = 3; preflight_only = true; resume_deal = none }

parse_live_options-IsUsable_example : IsUsable three_only fresh_options
unfolding parse_live_options read_arguments take_value take_mode take_runs runs_of mode_of
    set_preflight and_then check_options is_continue is_some
parse_live_options-IsUsable_example =
    parse_live_options-IsUsable three_only
      ("--mode" ∷ "fresh" ∷ "--preflight-only" ∷ "--runs" ∷ "3" ∷ []) refl

abbrev fresh_state : WorkerState
fresh_state = record {
  schema_version = worker_schema_version;
  initialized_at = 0;
  signer_address = "0x00000000000000000000000000000000000000aa";
  bootstrap_latest_nonce = 7;
  source_cursor = none;
  enrollments = [];
  enrollment_history = [];
  global_attention_reasons = [];
  runtime_observation = none;
}
