-- ===== src/LivePlan.antt =====
-- scripts/lib/live-plan.ts: the token arithmetic of the live capture, in base units of test USDC.
-- Balances and amounts are `bigint`s that no code makes negative.
pub mod Balances
pub mod Remedies
pub mod Verdicts
use cr3d_x.Base.{
  ℕ, ◌+◌, ◌-◌, ◌*◌, String, ◌<>◌, Bool, true, false, not, ◌&&◌, ◌||◌, Option, none, some, List, [],
  ◌∷◌, ◌++◌, ltb, leb, ◌==◌, if◌then◌else◌, find,
}
use cr3d_x.Types.Port.{Result, ok, threw}
use cr3d_x.Policy.{is_some}

abbrev pub funding : ℕ
funding = 1000000

abbrev pub face_value : ℕ
face_value = 1100000

abbrev pub partial_a : ℕ
partial_a = 400000

abbrev pub partial_b : ℕ
partial_b = 600000

abbrev pub initial_usdc_a : ℕ
initial_usdc_a = funding

abbrev pub initial_usdc_b : ℕ
initial_usdc_b = face_value - funding

abbrev pub minimum_total : ℕ
minimum_total = initial_usdc_a + initial_usdc_b

pub record UsdcState : Type 0 where
  pub a : ℕ
  pub b : ℕ
  pub helper : ℕ

abbrev pub minimum_start : UsdcState
minimum_start = record { a = initial_usdc_a; b = initial_usdc_b; helper = 0 }

-- keyof UsdcState
pub data Holder : Type 0 where
  wallet_a wallet_b fixture_helper : Holder

abbrev pub names : Holder → String
names wallet_a = "wallet A"
names wallet_b = "wallet B"
names fixture_helper = "the fixture helper"

-- state[who], and an assignment to it
abbrev pub held : Holder → UsdcState → ℕ
held wallet_a state = state.a
held wallet_b state = state.b
held fixture_helper state = state.helper

abbrev pub put_held : Holder → ℕ → UsdcState → UsdcState
put_held wallet_a amount state = record state { a = amount }
put_held wallet_b amount state = record state { b = amount }
put_held fixture_helper amount state = record state { helper = amount }

pub record Movement : Type 0 where
  pub label : String
  pub from : Holder
  pub to : Holder
  pub amount : ℕ

abbrev pub live_movements : List Movement
live_movements =
    record { label = "fund: A pays B"; from = wallet_a; to = wallet_b; amount = funding }
    ∷ record { label = "repay: B pays A"; from = wallet_b; to = wallet_a; amount = face_value }
    ∷ record {
      label = "double funding: A supplies the helper";
      from = wallet_a;
      to = fixture_helper;
      amount = partial_a + partial_b;
    }
    ∷ record {
      label = "double funding: helper pays B twice";
      from = fixture_helper;
      to = wallet_b;
      amount = partial_a + partial_b;
    }
    ∷ []

pub record ProjectionRow : Type 0 where
  pub label : String
  pub state : UsdcState
  pub affordable : Bool
  pub missing : ℕ
  pub holder : Option Holder

pub record Projection : Type 0 where
  pub rows : List ProjectionRow
  pub is_ok : Bool
  pub first_shortfall : Option ProjectionRow

-- The two assignments of a movement that is affordable.
unfoldable pub move : Movement → UsdcState → UsdcState
move m current =
    let paid = put_held m.from (held m.from current - m.amount) current in
    put_held m.to (held m.to paid + m.amount) paid

unfoldable pub affords : Movement → UsdcState → Bool
affords m current = leb m.amount (held m.from current)

unfoldable pub row_of : Movement → UsdcState → ProjectionRow
row_of m current = record {
  label = m.label;
  state = if affords m current then move m current else current;
  affordable = affords m current;
  missing = if affords m current then 0 else m.amount - held m.from current;
  holder = some m.from;
}

-- The loop over the movements, left at the first that is not affordable.
unfoldable pub project_rows : UsdcState → List Movement → Projection
project_rows current [] = record { rows = []; is_ok = true; first_shortfall = none }
project_rows current (m ∷ rest) =
    let row = row_of m current in
    let later = project_rows row.state rest in
    if row.affordable
    then record later { rows = row ∷ later.rows }
    else record { rows = row ∷ []; is_ok = false; first_shortfall = some row }

unfoldable pub start_row : UsdcState → ProjectionRow
start_row start = record {
  label = "start";
  state = start;
  affordable = true;
  missing = 0;
  holder = none;
}

-- projectUsdc
unfoldable pub project_usdc : UsdcState → Projection
project_usdc start =
    let later = project_rows start live_movements in
    record later { rows = start_row start ∷ later.rows }

-- What wallet B needs beyond the capture run, for a deal run.
abbrev pub deal_run_usdc_b : ℕ
deal_run_usdc_b = face_value - funding + 1
