-- ===== src/LivePlan/Verdicts.antt =====
-- The verdicts of `diagnose` in scripts/lib/live-plan.ts.
use cr3d_x.Base.{
  ℕ, ◌+◌, ◌≤◌, ◌<◌, ◌<>◌, ◌⊎◌, inl, inr, Option-cases, Bool-cases, none, some, [], true, String,
  ◌≡◌, ◌↔◌, arith,
}
use cr3d_x.LivePlan.{
  funding, face_value, UsdcState, ProjectionRow, project_usdc, project_rows, row_of, affords, move,
}
use cr3d_x.LivePlan.Remedies.{
  ready, skewed, underfunded, Diagnosis, diagnose, shortfall_summary, total_of, is_partial,
  matched_stage, same_state,
}

-- The balances carry the whole run.
abbrev pub CarriesRun : UsdcState → Type 0
CarriesRun actual = (funding ≤ actual.a) × (face_value ≤ actual.b + funding)

-- The helper holds something, or the wallets hold what a run leaves behind: the face value on one of them
-- alone, or the balances of a completed run.
abbrev pub IsLeftOver : UsdcState → Type 0
IsLeftOver actual =
    (0 < actual.helper)
    ⊎ (((actual.a ≡ 0) × (actual.b ≡ 1100000))
        ⊎ (((actual.a ≡ 1100000) × (actual.b ≡ 0)) ⊎ ((actual.a ≡ 100000) × (actual.b ≡ 1000000))))

IsLeftOver-is_partial : (actual : UsdcState) → IsLeftOver actual → is_partial actual ≡ true
unfolding is_partial matched_stage same_state
IsLeftOver-is_partial actual (inl held) = ground arith
IsLeftOver-is_partial actual (inr (inl (a, b))) = ground arith
IsLeftOver-is_partial actual (inr (inr (inl (a, b)))) = ground arith
IsLeftOver-is_partial actual (inr (inr (inr (a, b)))) = ground arith

is_partial-IsLeftOver : (actual : UsdcState) → is_partial actual ≡ true → IsLeftOver actual
unfolding is_partial matched_stage same_state
is_partial-IsLeftOver actual e = ground arith

covers-CarriesRun :
    (actual : UsdcState) → (project_usdc actual).first_shortfall ≡ none → CarriesRun actual
unfolding project_usdc project_rows row_of affords move
covers-CarriesRun actual e = ground arith

CarriesRun-covers :
    (actual : UsdcState) → CarriesRun actual → (project_usdc actual).first_shortfall ≡ none
unfolding project_usdc project_rows row_of affords move
CarriesRun-covers actual (a, b) = ground arith

module _ (format_units : ℕ → ℕ → String) where
  -- The verdict is `ready` exactly when the balances carry the whole run.
  pub diagnose-ready :
      (actual : UsdcState)
      → ((diagnose format_units actual).verdict ≡ ready)
        ↔ ((funding ≤ actual.a) × (face_value ≤ actual.b + funding))
  unfolding diagnose project_usdc project_rows row_of affords move
  diagnose-ready actual = ground arith

  -- A sentence that `diagnose` prints of balances.
  abbrev pub enough_message : UsdcState → String
  enough_message actual =
      "the wallets hold "
      <> (format_units (actual.a + actual.b + actual.helper) 6 <> " USDC")
      <> " between them, enough for the run, but not on the account the next "
      <> "step spends from. This is what a partially executed run leaves behind"

  -- What is said of balances, in the three cases.
  pub data IsDiagnosed (actual : UsdcState) (d : Diagnosis) : Type 0 where
    carries : CarriesRun actual → d.verdict ≡ ready → d.actions ≡ [] → IsDiagnosed actual d
    leaves :
        ¬ CarriesRun actual
        → IsLeftOver actual
        → d.verdict ≡ skewed
        → d.summary ≡ enough_message actual
        → IsDiagnosed actual d
    lacks :
        ¬ CarriesRun actual → ¬ IsLeftOver actual → d.verdict ≡ underfunded → IsDiagnosed actual d

  short-IsDiagnosed :
      (actual : UsdcState) (row : ProjectionRow)
      → (project_usdc actual).first_shortfall ≡ some row
      → IsDiagnosed actual (diagnose format_units actual)
  unfolding diagnose total_of shortfall_summary
  short-IsDiagnosed actual row short =
      let lacking : ¬ CarriesRun actual = λ enough. cc (CarriesRun-covers actual enough, short) in
      elim (Bool-cases (is_partial actual)) [
        | inl partly ↦
            leaves lacking (is_partial-IsLeftOver actual partly) (ground (arith, short, partly))
              (ground (arith, short, partly))
        | inr whole ↦
            lacks lacking (λ left. cc (IsLeftOver-is_partial actual left, whole))
              (ground (arith, short, whole))
      ]

  -- `diagnose` says `ready`, with no advice, exactly to balances that carry the whole run. To others it says
  -- `skewed`, and prints that the wallets hold enough for the run, exactly where the helper holds something,
  -- whatever the total, or one wallet alone holds the face value, or the balances are those of a completed
  -- run; and `underfunded` to all the rest.
  pub diagnose-IsDiagnosed :
      (actual : UsdcState) → IsDiagnosed actual (diagnose format_units actual)
  unfolding diagnose
  diagnose-IsDiagnosed actual = elim (Option-cases (project_usdc actual).first_shortfall) [
    | inl enough ↦
        carries (covers-CarriesRun actual enough) (ground (arith, enough)) (ground (arith, enough))
    | inr (row, short) ↦ short-IsDiagnosed actual row short
  ]
