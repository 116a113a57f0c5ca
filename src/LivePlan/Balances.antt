-- ===== src/LivePlan/Balances.antt =====
-- What the projection and the diagnosis of scripts/lib/live-plan.ts say of balances.
use cr3d_x.Base.{
  ℕ, ◌+◌, ◌-◌, ◌≤◌, ◌≡◌, refl, ◌∙◌, true, not, ◌↔◌, inl, inr, List, [], ◌∷◌, arith, All, Bool-cases,
}
use cr3d_x.Policy.{is_some}
use cr3d_x.LivePlan.{
  funding, face_value, UsdcState, Holder, wallet_a, wallet_b, fixture_helper, held, put_held,
  Movement, live_movements, ProjectionRow, move, affords, row_of, project_rows, start_row,
  project_usdc,
}
use cr3d_x.LivePlan.Remedies.{total_of}

total-put_held :
    (from to : Holder) (amount : ℕ) (s : UsdcState)
    → amount ≤ held from s
    → let paid = put_held from (held from s - amount) s in
      total_of (put_held to (held to paid + amount) paid) ≡ total_of s
unfolding total_of
total-put_held wallet_a wallet_a amount s e = omega arith
total-put_held wallet_a wallet_b amount s e = omega arith
total-put_held wallet_a fixture_helper amount s e = omega arith
total-put_held wallet_b wallet_a amount s e = omega arith
total-put_held wallet_b wallet_b amount s e = omega arith
total-put_held wallet_b fixture_helper amount s e = omega arith
total-put_held fixture_helper wallet_a amount s e = omega arith
total-put_held fixture_helper wallet_b amount s e = omega arith
total-put_held fixture_helper fixture_helper amount s e = omega arith

total-move : (m : Movement) (s : UsdcState) → affords m s ≡ true → total_of (move m s) ≡ total_of s
unfolding move affords
total-move m s e = total-put_held m.from m.to m.amount s (ground arith)

-- The row holds as many tokens as `total`.
abbrev pub HasTotal : ℕ → ProjectionRow → Type 0
HasTotal total row = total_of row.state ≡ total

row_of-HasTotal : (m : Movement) (s : UsdcState) → HasTotal (total_of s) (row_of m s)
unfolding row_of
row_of-HasTotal m s = elim (Bool-cases (affords m s)) [
  | inl enough ↦ rw enough (total-move m s enough)
  | inr short ↦ rw short refl
]

project_rows-HasTotal :
    (ms : List Movement) (s : UsdcState) (total : ℕ)
    → total_of s ≡ total
    → All (HasTotal total) (project_rows s ms).rows
unfolding project_rows
project_rows-HasTotal [] s total e = tt
project_rows-HasTotal (m ∷ ms) s total e =
    let here = row_of-HasTotal m s ∙ e in
    elim (Bool-cases (row_of m s).affordable) [
      | inl enough ↦ rw enough (here, project_rows-HasTotal ms (row_of m s).state total here)
      | inr short ↦ rw short (here, tt)
    ]

-- No row of a projection creates or loses tokens: each holds what the start holds.
pub project_usdc-HasTotal :
    (start : UsdcState) → All (HasTotal (total_of start)) (project_usdc start).rows
unfolding project_usdc start_row
project_usdc-HasTotal start =
    (refl, project_rows-HasTotal live_movements start (total_of start) refl)

-- The projection succeeds exactly when A holds the funding and B the margin that it pays over it.
project_usdc-is_ok :
    (start : UsdcState)
    → ((project_usdc start).is_ok ≡ true) ↔ ((funding ≤ start.a) × (face_value ≤ start.b + funding))
unfolding project_usdc project_rows row_of affords move
project_usdc-is_ok start = ground arith

project_rows-agree :
    (ms : List Movement) (s : UsdcState)
    → (project_rows s ms).is_ok ≡ not (is_some (project_rows s ms).first_shortfall)
unfolding project_rows is_some
project_rows-agree [] s = refl
project_rows-agree (m ∷ ms) s = elim (Bool-cases (row_of m s).affordable) [
  | inl enough ↦ rw enough (project_rows-agree ms (row_of m s).state)
  | inr short ↦ rw short refl
]
