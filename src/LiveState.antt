-- ===== src/LiveState.antt =====
-- ui/src/live-state.ts: what the page knows of the chain, and the refresh that moves it. The numbers of
-- `LiveState` (ui/src/rpc.ts) are unsigned on the chain; `observedAt` is opaque to this code.
pub mod Refresh
pub mod Reading
pub mod Accepted
use cr3d_x.Base.{
  ℕ, String, str_eq, Bool, true, false, Option, none, some, List, [], ◌∷◌, ◌++◌, ◌==◌,
  if◌then◌else◌, decimal,
}

pub record LiveState : Type 0 where
  pub chain_id : ℕ
  pub block_number : ℕ
  pub observed_at : ℕ
  pub borrower : String
  pub designated_investor : String
  pub status : String
  pub funded_amount : ℕ
  pub repaid_amount : ℕ
  pub on_time_repaid : ℕ
  pub outstanding : ℕ
  pub score : ℕ
  pub limit : ℕ
  pub available_limit : ℕ
  pub reserved : ℕ
  pub exposure : ℕ
  pub repayment_evidence : String
  pub race_evidence : String

-- The fields of ACCEPTED_SNAPSHOT that are compared.
pub record AcceptedSnapshot : Type 0 where
  pub status : String
  pub funded_amount : ℕ
  pub repaid_amount : ℕ
  pub on_time_repaid : ℕ
  pub outstanding : ℕ
  pub exposure : ℕ
  pub reserved : ℕ
  pub score_after : ℕ
  pub limit_after : ℕ

abbrev pub accepted_snapshot : AcceptedSnapshot
accepted_snapshot = record {
  status = "PAID_ON_TIME";
  funded_amount = 1000001;
  repaid_amount = 1100000;
  on_time_repaid = 1100000;
  outstanding = 0;
  exposure = 0;
  reserved = 0;
  score_after = 525;
  limit_after = 5250000000;
}

pub record LiveDifference : Type 0 where
  pub field : String
  pub accepted : String
  pub observed : String

pub record SuccessfulLiveRead : Type 0 where
  pub value : LiveState
  pub differences : List LiveDifference

pub data LiveObservationState : Type 0 where
  idle : LiveObservationState
  loading : Option SuccessfulLiveRead → LiveObservationState
  fresh : SuccessfulLiveRead → LiveObservationState
  stale : SuccessfulLiveRead → String → LiveObservationState
  unavailable : String → LiveObservationState

-- ComparableValue: a number and a bigint are told apart by no row of the table.
pub data ComparableValue : Type 0 where
  of_text : String → ComparableValue
  of_number : ℕ → ComparableValue

unfoldable pub text : ComparableValue → String
text (of_text value) = value
text (of_number value) = decimal value

-- accepted === observed
unfoldable pub same_value : ComparableValue → ComparableValue → Bool
same_value (of_text v) (of_text w) = str_eq v w
same_value (of_number v) (of_number w) = v == w
same_value _ _ = false

pub record ComparedField : Type 0 where
  pub field : String
  pub accepted : ComparableValue
  pub observed : ComparableValue

unfoldable pub text_field : String → String → String → ComparedField
text_field field accepted observed = record {
  field = field;
  accepted = of_text accepted;
  observed = of_text observed;
}

unfoldable pub number_field : String → ℕ → ℕ → ComparedField
number_field field accepted observed = record {
  field = field;
  accepted = of_number accepted;
  observed = of_number observed;
}

unfoldable pub compared_fields : LiveState → List ComparedField
compared_fields value =
    text_field "status" accepted_snapshot.status value.status
    ∷ number_field "score" accepted_snapshot.score_after value.score
    ∷ number_field "fundedAmount" accepted_snapshot.funded_amount value.funded_amount
    ∷ number_field "repaidAmount" accepted_snapshot.repaid_amount value.repaid_amount
    ∷ number_field "onTimeRepaid" accepted_snapshot.on_time_repaid value.on_time_repaid
    ∷ number_field "outstanding" accepted_snapshot.outstanding value.outstanding
    ∷ number_field "reserved" accepted_snapshot.reserved value.reserved
    ∷ number_field "exposure" accepted_snapshot.exposure value.exposure
    ∷ number_field "limit" accepted_snapshot.limit_after value.limit
    ∷ number_field "availableLimit" accepted_snapshot.limit_after value.available_limit
    ∷ text_field "repaymentEvidence" "APPLIED" value.repayment_evidence
    ∷ text_field "raceEvidence" "APPLIED" value.race_evidence
    ∷ []

-- fields.flatMap(…)
unfoldable pub differences_of : List ComparedField → List LiveDifference
differences_of [] = []
differences_of (f ∷ fields) =
    let rest = differences_of fields in
    if same_value f.accepted f.observed
    then rest
    else record { field = f.field; accepted = text f.accepted; observed = text f.observed } ∷ rest

unfoldable pub compare_live_to_accepted_snapshot : LiveState → List LiveDifference
compare_live_to_accepted_snapshot value = differences_of (compared_fields value)

unfoldable pub last_successful : LiveObservationState → Option SuccessfulLiveRead
last_successful idle = none
last_successful (loading previous) = previous
last_successful (fresh read) = some read
last_successful (stale read error) = some read
last_successful (unavailable error) = none

unfoldable pub begin_live_read : LiveObservationState → LiveObservationState
begin_live_read state = loading (last_successful state)

unfoldable pub complete_live_read : LiveState → LiveObservationState
complete_live_read value =
    fresh (record { value = value; differences = compare_live_to_accepted_snapshot value })

unfoldable pub fail_live_read : LiveObservationState → String → LiveObservationState
fail_live_read state error = elim (last_successful state) [
  | none ↦ unavailable error
  | some previous ↦ stale previous error
]

-- The steps of the controller's state. Each `refresh` begins, and later resolves or is rejected; where two
-- overlap, their steps interleave.
pub data RefreshStep : LiveObservationState → LiveObservationState → Type 0 where
  begins : (s : LiveObservationState) → RefreshStep s (begin_live_read s)
  resolves :
      (s : LiveObservationState) (value : LiveState) → RefreshStep s (complete_live_read value)
  rejects : (s : LiveObservationState) (error : String) → RefreshStep s (fail_live_read s error)

pub data Steps : LiveObservationState → LiveObservationState → Type 0 where
  done : (s : LiveObservationState) → Steps s s
  then_step : (s t u : LiveObservationState) → Steps s t → RefreshStep t u → Steps s u
