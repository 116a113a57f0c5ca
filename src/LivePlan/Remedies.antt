-- ===== src/LivePlan/Remedies.antt =====
-- scripts/lib/live-plan.ts `diagnose`: whether the run can start from given balances, and the advice
-- where it cannot.
use cr3d_x.Base.{
  ℕ, ◌+◌, ◌-◌, String, ◌<>◌, Bool, false, not, ◌&&◌, ◌||◌, Option, none, some, List, [], ◌∷◌, ◌++◌,
  ltb, leb, ◌==◌, if◌then◌else◌, find,
}
use cr3d_x.Types.Port.{Result, ok, threw}
use cr3d_x.Policy.{is_some}
use cr3d_x.LivePlan.{
  face_value, partial_a, partial_b, initial_usdc_a, initial_usdc_b, minimum_start, UsdcState,
  Holder, wallet_a, wallet_b, fixture_helper, names, ProjectionRow, Projection, project_usdc,
}

pub data Verdict : Type 0 where
  ready underfunded skewed : Verdict

pub record Diagnosis : Type 0 where
  pub projection : Projection
  pub verdict : Verdict
  pub total_held : ℕ
  pub stage : Option String
  pub summary : String
  pub actions : List String

abbrev pub clean_start : String
clean_start = "a clean start"

abbrev pub canonical_stages : List (String × UsdcState)
canonical_stages =
    (clean_start, minimum_start)
    ∷ ("the fund transaction, before repay", record { a = 0; b = face_value; helper = 0 })
    ∷ (
      "the repay transaction, before the double funding",
      record { a = face_value; b = 0; helper = 0 },
    )
    ∷ (
      "a completed run",
      record { a = face_value - (partial_a + partial_b); b = initial_usdc_a; helper = 0 },
    )
    ∷ []

unfoldable pub same_state : UsdcState → UsdcState → Bool
same_state s t = (s.a == t.a) && (s.b == t.b) && (s.helper == t.helper)

unfoldable pub matched_stage : UsdcState → Option (String × UsdcState)
matched_stage actual = find (λ candidate. same_state candidate.1 actual) canonical_stages

unfoldable pub total_of : UsdcState → ℕ
total_of state = state.a + state.b + state.helper

-- stage !== null && matched !== CANONICAL_STAGES[0] || actual.helper > 0n; the stages differ.
unfoldable pub is_partial : UsdcState → Bool
is_partial actual =
    elim (matched_stage actual) [
      | none ↦ false
      | some stage ↦ not (same_state stage.1 minimum_start)
    ]
    || ltb 0 actual.helper

-- shortfall.holder!, which only the first row has not
unfoldable pub holder_of : ProjectionRow → Holder
holder_of row = elim row.holder [ none ↦ wallet_a | some who ↦ who ]

-- `format_units` is the one of ethers.
module _ (format_units : ℕ → ℕ → String) where
  usdc : ℕ → String
  usdc value = format_units value 6 <> " USDC"

  -- The first of A and B that is not the holder and has what is missing.
  unfoldable pub donor : Holder → ℕ → UsdcState → Option Holder
  donor wallet_a missing at = if leb missing at.b then some wallet_b else none
  donor wallet_b missing at = if leb missing at.a then some wallet_a else none
  donor fixture_helper missing at =
      if leb missing at.a then some wallet_a else if leb missing at.b then some wallet_b else none

  unfoldable pub faucet_action : Bool → ℕ → Holder → String
  unfolding usdc
  faucet_action has_other missing who =
      (if has_other then "or faucet" else "faucet") <> " " <> usdc missing <> " to " <> names who

  unfoldable pub move_action : ℕ → Holder → Holder → String
  unfolding usdc
  move_action missing from to =
      "move " <> usdc missing <> " from " <> names from <> " to " <> names to

  unfoldable pub partial_actions : Holder → ℕ → UsdcState → List String
  partial_actions holder missing at =
      let from = donor holder missing at in
      elim from [ none ↦ [] | some who ↦ move_action missing who holder ∷ [] ] ++ elim holder [
        | fixture_helper ↦ []
        | wallet_a ↦ faucet_action (is_some from) missing wallet_a ∷ []
        | wallet_b ↦ faucet_action (is_some from) missing wallet_b ∷ []
      ]

  -- The advice on one of A and B against the documented minimum.
  unfoldable pub gap_actions : Holder → ℕ → ℕ → Holder → ℕ → ℕ → List String
  gap_actions who balance minimum other other_balance other_minimum =
      let missing = minimum - balance in
      let has_surplus = leb missing (other_balance - other_minimum) in
      if missing == 0
      then []
      else (if has_surplus then move_action missing other who ∷ [] else [])
        ++ faucet_action has_surplus missing who ∷ []

  unfoldable pub funding_actions : UsdcState → List String
  funding_actions actual =
      gap_actions wallet_a actual.a initial_usdc_a wallet_b actual.b initial_usdc_b
      ++ gap_actions wallet_b actual.b initial_usdc_b wallet_a actual.a initial_usdc_a

  unfoldable pub helper_actions : UsdcState → List String
  unfolding usdc
  helper_actions actual =
      if ltb 0 actual.helper
      then ("the fixture helper is holding "
          <> usdc actual.helper
          <> ", which it never should between runs: it forwards "
          <> "everything within one transaction, so a balance there means a run died mid-transaction")
        ∷ []
      else []

  unfoldable pub shortfall_actions : UsdcState → ProjectionRow → Holder → List String
  shortfall_actions actual shortfall holder =
      (if is_partial actual
        then partial_actions holder shortfall.missing shortfall.state
        else funding_actions actual)
      ++ helper_actions actual

  unfoldable pub shortfall_summary : UsdcState → ProjectionRow → Holder → String
  unfolding usdc
  shortfall_summary actual shortfall holder =
      if is_partial actual
      then "the wallets hold "
        <> usdc (total_of actual)
        <> " between them, enough for the run, but not on the account the next "
        <> "step spends from. This is what a partially executed run leaves behind"
      else names holder <> " cannot cover \"" <> shortfall.label <> "\""

  unfoldable pub stage_of : UsdcState → Option String
  stage_of actual = elim (matched_stage actual) [ none ↦ none | some stage ↦ some stage.0 ]

  -- diagnose; a projection that is not ok has a shortfall, and that row a holder
  unfoldable pub diagnose : UsdcState → Diagnosis
  diagnose actual =
      let projection = project_usdc actual in
      elim projection.first_shortfall [
        | none ↦ record {
          projection = projection;
          verdict = ready;
          total_held = total_of actual;
          stage = stage_of actual;
          summary = "balances cover every step of the ordered run";
          actions = [];
        }
        | some shortfall ↦
            let holder = holder_of shortfall in
            record {
              projection = projection;
              verdict = if is_partial actual then skewed else underfunded;
              total_held = total_of actual;
              stage = stage_of actual;
              summary = shortfall_summary actual shortfall holder;
              actions = shortfall_actions actual shortfall holder;
            }
      ]

  -- validateLiveUsdcPlan
  unfoldable pub validate_live_usdc_plan : Result Projection
  validate_live_usdc_plan =
      let projection = project_usdc minimum_start in
      elim projection.first_shortfall [
        | none ↦ ok projection
        | some row ↦ threw (
            "Live USDC plan is internally inconsistent: \""
            <> row.label
            <> "\" is short by "
            <> format_units row.missing 6
            <> " USDC "
            <> "when starting from the documented minimum balances")
      ]
