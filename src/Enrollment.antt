-- ===== src/Enrollment.antt =====
-- worker/enrollment.ts: a deal is enrolled from a source block on. The call changes the state object and
-- returns the entry; the record of enrollments is an association list by lower-case deal id.
pub mod Entries
pub mod Enrolling
use cr3d_x.Base.{
  ℕ, ◌+◌, String, str_eq, Bool, true, false, not, ◌&&◌, ◌||◌, Option, none, some, List, [], ◌∷◌,
  ◌++◌, leb, ◌==◌, if◌then◌else◌, lower, is_hex, keep_if, trim,
}
use cr3d_x.Types.{Hex, EnrollmentAuditEntry, Enrollment, WorkerState}
use cr3d_x.Types.Port.{Result, ok, threw}
use cr3d_x.Policy.{is_some}
use cr3d_x.State.{is_safe_integer}

pub record EnrollmentInput : Type 0 where
  pub state : WorkerState
  pub deal_id : Hex
  pub observed_source_head : ℕ
  pub effective_from_source_block : Option ℕ
  pub reason : Option String
  pub now : ℕ

-- input.reason?.trim() is not empty
unfoldable pub has_reason : Option String → Bool
has_reason none = false
has_reason (some reason) = not (str_eq (trim reason) "")

unfoldable pub effective_block : EnrollmentInput → ℕ
effective_block input = elim input.effective_from_source_block [
  | none ↦ input.observed_source_head + 1
  | some block ↦ block
]

-- enrollments[key] = enrollment
unfoldable pub put_enrollment :
    String → Enrollment → List (String × Enrollment) → List (String × Enrollment)
put_enrollment key enrollment [] = (key, enrollment) ∷ []
put_enrollment key enrollment ((k, old) ∷ rest) =
    let later = put_enrollment key enrollment rest in
    if str_eq k key then (k, enrollment) ∷ rest else (k, old) ∷ later

unfoldable pub enrollment_of_input : EnrollmentInput → Enrollment
enrollment_of_input input = record {
  deal_id = input.deal_id;
  effective_from_source_block = effective_block input;
  enrolled_at = input.now;
}

unfoldable pub audit_reason : EnrollmentInput → String
audit_reason input = elim input.effective_from_source_block [
  | none ↦ "ordinary enrollment effective after observed canonical head"
  | some block ↦ elim input.reason [ none ↦ "" | some reason ↦ trim reason ]
]

unfoldable pub audit_entry : EnrollmentInput → EnrollmentAuditEntry
audit_entry input = record {
  at = input.now;
  deal_id = input.deal_id;
  effective_from_source_block = effective_block input;
  observed_source_head = input.observed_source_head;
  retroactive = is_some input.effective_from_source_block;
  reason = audit_reason input;
}

unfoldable pub enrolled_state : EnrollmentInput → WorkerState
enrolled_state input = record (input.state) {
  enrollments =
      put_enrollment (lower input.deal_id) (enrollment_of_input input) input.state.enrollments;
  enrollment_history = input.state.enrollment_history ++ audit_entry input ∷ [];
}

-- enrollDeal, with the state as it leaves it
unfoldable pub enroll_deal : EnrollmentInput → Result (Enrollment × WorkerState)
enroll_deal input =
    if not (is_hex 64 input.deal_id)
    then threw "Enrollment requires a bytes32 dealId"
    else if not (is_safe_integer input.observed_source_head)
    then threw "Invalid canonical source head"
    else if not (is_safe_integer (effective_block input))
    then threw "Invalid effective source block"
    else if is_some input.effective_from_source_block && not (has_reason input.reason)
    then threw "Explicit --effective-from enrollment requires an operator reason"
    else ok (enrollment_of_input input, enrolled_state input)
