-- ===== src/LiveState/Refresh.antt =====
-- What the states of ui/src/live-state.ts say, over all interleavings of refreshes.
use cr3d_x.Base.{
  String, ◌≡◌, refl, sym, subst, ◌≢◌, ◌↔◌, true, false, Option, none, some, List, [], ◌∷◌, All,
  Bool-cases, ◌⊎◌, inl, inr,
}
use mathlib.Core.Bool.{false≢true}
use cr3d_x.Policy.{is_some}
use cr3d_x.LiveState.{
  LiveState, SuccessfulLiveRead, LiveObservationState, idle, loading, fresh, stale, unavailable,
  same_value, ComparedField, compared_fields, differences_of, compare_live_to_accepted_snapshot,
  last_successful, begin_live_read, complete_live_read, fail_live_read, RefreshStep, begins,
  resolves, rejects, Steps, done, then_step,
}

-- A read that is shown has the differences of its own value.
abbrev pub IsHonest : Option SuccessfulLiveRead → Type 0
IsHonest none = Unit {0}
IsHonest (some read) = read.differences ≡ compare_live_to_accepted_snapshot read.value

failed-same :
    (s : LiveObservationState) (error : String)
    → last_successful (fail_live_read s error) ≡ last_successful s
unfolding fail_live_read last_successful
failed-same idle error = refl
failed-same (loading none) error = refl
failed-same (loading (some read)) error = refl
failed-same (fresh read) error = refl
failed-same (stale read e) error = refl
failed-same (unavailable e) error = refl

-- A step keeps the last successful read, or puts the new one in its place.
step-last_successful :
    (s t : LiveObservationState)
    → RefreshStep s t
    → (last_successful t ≡ last_successful s)
      ⊎ ((value : LiveState) × (t ≡ complete_live_read value))
unfolding begin_live_read last_successful
step-last_successful _ _ (begins s) = inl refl
step-last_successful _ _ (resolves s value) = inr (value, refl)
step-last_successful _ _ (rejects s error) = inl (failed-same s error)

completed-IsHonest : (value : LiveState) → IsHonest (last_successful (complete_live_read value))
unfolding complete_live_read last_successful
completed-IsHonest value = refl

-- Whatever the interleaving of refreshes, the read that the page shows comes with the differences of
-- exactly its own value.
pub steps-IsHonest : (s : LiveObservationState) → Steps idle s → IsHonest (last_successful s)
unfolding last_successful
steps-IsHonest _ (done _) = tt
steps-IsHonest _ (then_step _ t u steps step) = elim (step-last_successful t u step) [
  | inl same ↦ subst IsHonest (sym same) (steps-IsHonest t steps)
  | inr (value, same) ↦
      subst (λ v. IsHonest (last_successful v)) (sym same) (completed-IsHonest value)
]

completed-is_some :
    (value : LiveState) → is_some (last_successful (complete_live_read value)) ≡ true
unfolding complete_live_read last_successful is_some
completed-is_some value = refl

unavailable-lost :
    (t : LiveObservationState) (error : String)
    → t ≡ unavailable error
    → is_some (last_successful t) ≡ false
unfolding last_successful is_some
unavailable-lost t error e = subst (λ u. is_some (last_successful u) ≡ false) (sym e) refl

-- Once a read has succeeded, no later interleaving of refreshes loses it: there is always a last successful
-- read to show, and the page is never unavailable again.
pub steps-last_successful :
    (s t : LiveObservationState)
    → Steps s t
    → is_some (last_successful s) ≡ true
    → (is_some (last_successful t) ≡ true) × ((error : String) → t ≢ unavailable error)
steps-last_successful s t steps h =
    (kept s t steps h, λ error e. cc (kept s t steps h, unavailable-lost t error e))
  where
    kept :
        (s t : LiveObservationState)
        → Steps s t
        → is_some (last_successful s) ≡ true
        → is_some (last_successful t) ≡ true
    kept s _ (done _) h = h
    kept s _ (then_step _ t u steps step) h = elim (step-last_successful t u step) [
      | inl same ↦ subst (λ o. is_some o ≡ true) (sym same) (kept s t steps h)
      | inr (value, same) ↦
          subst (λ v. is_some (last_successful v) ≡ true) (sym same) (completed-is_some value)
    ]

-- The field was observed as accepted.
abbrev pub IsSame : ComparedField → Type 0
IsSame f = same_value f.accepted f.observed ≡ true

differences_of-none :
    (fields : List ComparedField) → (differences_of fields ≡ []) ↔ All IsSame fields
unfolding differences_of
differences_of-none [] = (λ e. tt, λ h. refl)
differences_of-none (f ∷ fields) = elim (Bool-cases (same_value f.accepted f.observed)) [
  | inl same ↦
      rw same
        ((λ e. (refl, (differences_of-none fields).0 e)), (λ h. (differences_of-none fields).1 h.1))
  | inr other ↦ rw other ((λ e. cc), (λ h. absurd (false≢true h.0)))
]

-- The page shows no difference exactly when every compared field was observed as it was accepted.
pub compare-none :
    (value : LiveState)
    → (compare_live_to_accepted_snapshot value ≡ []) ↔ All IsSame (compared_fields value)
unfolding compare_live_to_accepted_snapshot
compare-none value = differences_of-none (compared_fields value)
