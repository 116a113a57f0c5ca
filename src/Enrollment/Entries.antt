-- ===== src/Enrollment/Entries.antt =====
-- What worker/enrollment.ts leaves in the state, and the scan of worker/engine.ts finds there.
use cr3d_x.Base.{
  ℕ, ◌+◌, String, str_eq, str_eq-false, eq_iff, ◌≡◌, ◌≢◌, refl, sym, subst, ◌∙◌, true, false, none,
  some, List, [], ◌∷◌, ◌++◌, arith, Bool-cases, inl, inr, lower, is_hex,
}
use cr3d_x.Types.{Enrollment, WorkerState}
use cr3d_x.Types.Port.{ok}
use cr3d_x.Policy.{is_some}
use cr3d_x.Engine.Candidates.{enrollment_of}
use cr3d_x.Enrollment.{
  EnrollmentInput, has_reason, effective_block, put_enrollment, enrollment_of_input, audit_entry,
  enrolled_state, enroll_deal,
}

enrollment_of-put :
    (key : String) (e : Enrollment) (es : List (String × Enrollment))
    → enrollment_of key (put_enrollment key e es) ≡ some e
unfolding enrollment_of put_enrollment
enrollment_of-put key e [] = rw ((eq_iff key key).1 refl) refl
enrollment_of-put key e ((k, old) ∷ es) = elim (Bool-cases (str_eq k key)) [
  | inl same ↦ ground (arith, same)
  | inr other ↦ ground (arith, other, enrollment_of-put key e es)
]

enrollment_of-put_other :
    (key other : String) (e : Enrollment) (es : List (String × Enrollment))
    → other ≢ key
    → enrollment_of other (put_enrollment key e es) ≡ enrollment_of other es
unfolding enrollment_of put_enrollment
enrollment_of-put_other key other e [] n = rw (str_eq-false key other (λ same. n (sym same))) refl
enrollment_of-put_other key other e ((k, old) ∷ es) n = elim (Bool-cases (str_eq k key)) [
  | inl same ↦
      let differs : str_eq k other ≡ false =
        str_eq-false k other (λ e. n (sym e ∙ (eq_iff k key).0 same)) in
      ground (arith, same, differs)
  | inr differs ↦ ground (arith, differs, enrollment_of-put_other key other e es n)
]

-- What a call of enrollDeal that returns has done.
pub record IsEnrolled (input : EnrollmentInput) (r : Enrollment × WorkerState) : Type 0 where
  pub valid : is_hex 64 input.deal_id ≡ true
  pub found : enrollment_of (lower input.deal_id) r.1.enrollments ≡ some r.0
  pub others :
      (key : String)
      → key ≢ lower input.deal_id
      → enrollment_of key r.1.enrollments ≡ enrollment_of key input.state.enrollments
  pub audited : r.1.enrollment_history ≡ input.state.enrollment_history ++ audit_entry input ∷ []
  pub rest : r.1 ≡ record (input.state) {
    enrollments = r.1.enrollments;
    enrollment_history = r.1.enrollment_history;
  }
  pub named : r.0.deal_id ≡ input.deal_id
  pub stamped : r.0.enrolled_at ≡ input.now
  pub ordinary :
      input.effective_from_source_block ≡ none
      → r.0.effective_from_source_block ≡ input.observed_source_head + 1
  pub explicit :
      (block : ℕ)
      → input.effective_from_source_block ≡ some block
      → r.0.effective_from_source_block ≡ block
  pub reasoned : is_some input.effective_from_source_block ≡ true → has_reason input.reason ≡ true

enrolled_state-IsEnrolled :
    (input : EnrollmentInput)
    → is_hex 64 input.deal_id ≡ true
    → (is_some input.effective_from_source_block ≡ true → has_reason input.reason ≡ true)
    → IsEnrolled input (enrollment_of_input input, enrolled_state input)
unfolding enrolled_state enrollment_of_input effective_block
enrolled_state-IsEnrolled input valid reasoned = record {
  valid = valid;
  found =
      enrollment_of-put (lower input.deal_id) (enrollment_of_input input) input.state.enrollments;
  others = λ key n.
      enrollment_of-put_other (lower input.deal_id) key (enrollment_of_input input)
        input.state.enrollments n;
  audited = refl;
  rest = refl;
  named = refl;
  stamped = refl;
  ordinary = λ e. rw e refl;
  explicit = λ block e. rw e refl;
  reasoned = reasoned;
}

-- A call that returns has a bytes32 deal, leaves under its key the entry that it returns, changes no other
-- entry and nothing else of the state, and appends one audit record; without an explicit block the entry takes effect from the block behind
-- the observed head, and with one it takes effect there and has a reason that is not blank.
pub enroll_deal-IsEnrolled :
    (input : EnrollmentInput) {r : Enrollment × WorkerState}
    → enroll_deal input ≡ ok r
    → IsEnrolled input r
unfolding enroll_deal is_some
enroll_deal-IsEnrolled input {r = r} e =
    let valid : is_hex 64 input.deal_id ≡ true = ground arith in
    let reasoned : is_some input.effective_from_source_block ≡ true
        → has_reason input.reason ≡ true =
      ground arith in
    let same : r ≡ (enrollment_of_input input, enrolled_state input) = ground arith in
    subst (IsEnrolled input) (sym same) (enrolled_state-IsEnrolled input valid reasoned)
