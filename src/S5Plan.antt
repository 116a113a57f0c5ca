-- ===== src/S5Plan.antt =====
-- scripts/lib/s5-plan.ts: the options of the live run, and how many runs a balance covers.
pub mod Options
use cr3d_x.Base.{
  ℕ, zero, suc, ◌-◌, ◌*◌, ◌/◌, ◌^◌, String, ◌<>◌, str_eq, Bool, true, false, not, ◌&&◌, ◌||◌,
  Option, none, some, List, [], ◌∷◌, ltb, leb, ◌==◌, if◌then◌else◌, is_hex,
}
use cr3d_x.Types.{Hex}
use cr3d_x.Types.Port.{Result, ok, threw}
use cr3d_x.Policy.{is_some}
use cr3d_x.LivePlan.{funding, face_value}

pub data LiveMode : Type 0 where
  fresh continue : LiveMode

-- The variables of parseLiveOptions; `mode` starts undefined.
pub record LiveOptions : Type 0 where
  pub mode : Option LiveMode
  pub runs : ℕ
  pub preflight_only : Bool
  pub resume_deal : Option Hex

abbrev pub initial_options : LiveOptions
initial_options = record { mode = none; runs = 1; preflight_only = false; resume_deal = none }

abbrev pub borrower_usdc_per_run : ℕ
borrower_usdc_per_run = face_value - funding

-- value ?? 'nothing'
unfoldable pub or_nothing : Option String → String
or_nothing none = "nothing"
or_nothing (some value) = value

unfoldable pub mode_of : Option String → Option LiveMode
mode_of none = none
mode_of (some value) =
    if str_eq value "fresh"
    then some fresh
    else if str_eq value "continue"
    then some continue
    else none

unfoldable pub is_deal_id : Option String → Bool
is_deal_id none = false
is_deal_id (some value) = is_hex 64 value

-- `safe_integer` reads an argument as `Number` does, and answers it where it is a safe integer that is
-- not negative.
module _ (safe_integer : String → Option ℕ) where
  unfoldable pub runs_of : Option String → Option ℕ
  runs_of none = none
  runs_of (some value) = elim (safe_integer value) [
    | none ↦ none
    | some n ↦ if ltb n 1 then none else some n
  ]

  unfoldable pub take_mode : LiveOptions → Option String → Result LiveOptions
  take_mode o value = elim (mode_of value) [
    | none ↦ threw ("--mode must be fresh or continue, got " <> or_nothing value)
    | some mode ↦ ok (record o { mode = some mode })
  ]

  unfoldable pub take_runs : LiveOptions → Option String → Result LiveOptions
  take_runs o value = elim (runs_of value) [
    | none ↦ threw ("--runs must be a positive integer, got " <> or_nothing value)
    | some runs ↦ ok (record o { runs = runs })
  ]

  unfoldable pub take_deal : LiveOptions → Option String → Result LiveOptions
  take_deal o value =
      if is_deal_id value
      then ok (record o { resume_deal = value })
      else threw ("--resume-deal must be a bytes32 deal id, got " <> or_nothing value)

  -- The branches of the loop that are not `--preflight-only`, with the argument that follows.
  unfoldable pub take_value : LiveOptions → String → Option String → Result LiveOptions
  take_value o arg value =
      if str_eq arg "--mode"
      then take_mode o value
      else if str_eq arg "--runs"
      then take_runs o value
      else if str_eq arg "--resume-deal"
      then take_deal o value
      else threw ("Unknown argument " <> arg)

  unfoldable pub set_preflight : LiveOptions → LiveOptions
  set_preflight o = record o { preflight_only = true }

  unfoldable pub and_then :
      Result LiveOptions → (LiveOptions → Result LiveOptions) → Result LiveOptions
  and_then (ok o) f = f o
  and_then (threw message) f = threw message

  -- The loop over the arguments.
  unfoldable pub read_arguments : LiveOptions → List String → Result LiveOptions
  read_arguments o [] = ok o
  read_arguments o (arg ∷ []) =
      if str_eq arg "--preflight-only" then ok (set_preflight o) else take_value o arg none
  read_arguments o (arg ∷ value ∷ rest) =
      let flag = read_arguments (set_preflight o) (value ∷ rest) in
      let valued = and_then (take_value o arg (some value)) (λ p. read_arguments p rest) in
      if str_eq arg "--preflight-only" then flag else valued

  unfoldable pub is_continue : Option LiveMode → Bool
  is_continue (some continue) = true
  is_continue _ = false

  -- The tests behind the loop.
  unfoldable pub check_options : LiveOptions → Result LiveOptions
  check_options o =
      if not (is_some o.mode)
      then threw "Choose an explicit mode: --mode fresh or --mode continue"
      else if is_some o.resume_deal && not (is_continue o.mode)
      then threw "--resume-deal is only valid with --mode continue"
      else if is_some o.resume_deal && not (o.runs == 1)
      then threw "--resume-deal cannot be combined with multiple runs"
      else ok o

  -- parseLiveOptions
  unfoldable pub parse_live_options : List String → Result LiveOptions
  parse_live_options argv = and_then (read_arguments initial_options argv) check_options

unfoldable pub run_capacity : ℕ → ℕ → Result ℕ
run_capacity balance zero = threw "per-run amount must be positive"
run_capacity balance (suc per_run) = ok (balance / suc per_run)

-- The caller's `runs` is a `number`; the test that it is a safe integer stays.
unfoldable pub required_borrower_usdc : ℕ → Result ℕ
required_borrower_usdc runs =
    if not (ltb runs (2 ^ 53)) || ltb runs 1
    then threw "runs must be a positive integer"
    else ok (borrower_usdc_per_run * runs)
