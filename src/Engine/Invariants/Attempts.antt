-- ===== src/Engine/Invariants/Attempts.antt =====
-- `processTask` of worker/engine.ts, and the attempts below it, keep what survives the rules.
use cr3d_x.Base.{ℕ, String, ◌≡◌, refl, none, some, Bool-cases, inl, inr, str_eq, arith}
use cr3d_x.Types.{
  Hex, AttemptEpoch, LogicalTask, InclusionSnapshot, InFlightPurpose, submission, application,
}
use cr3d_x.Types.Port.{ok, SingleProof, TransactionRequest, Simulation, succeeded, reverted, Env}
use cr3d_x.Policy.{SimulationClass, success, already_recorded, Visibility, all_true}
use cr3d_x.Policy.Simulation.{classify_simulation-fails}
use cr3d_x.Exec.{World}
use cr3d_x.Exec.Keeps.{Keeps, Keeps-call, Keeps-bind, Keeps-answer}
use cr3d_x.Engine.Objects.{EvidenceRef, EpochOwner}
use cr3d_x.Engine.Claim.{claim_lane, mark_in_flight, persist_signed_envelope}
use cr3d_x.Engine.Attempts.{
  class_of, recorded_visibility, submission_outcome, submit_proof, submit_fresh, attempt_failed,
  attempt_submission, application_outcome, apply_fresh, attempt_application,
}
use cr3d_x.Engine.Tasks.{
  is_in_lane, start_epoch, process_unseen, process_ready, process_reconciled, process_included,
  process_task,
}
use cr3d_x.Engine.Invariants.{Rules, LaneRules, IsSimulated}
use cr3d_x.Engine.Invariants.Semantic.{semantic_rules}
use cr3d_x.Engine.Invariants.Envelope.{reconcile_envelope-Keeps}

module _ {P : World → Type 0} (rules : Rules P) (env : Env) where
  mark_in_flight-Keeps : (purpose : InFlightPurpose) → Keeps P (mark_in_flight env purpose)
  unfolding mark_in_flight
  mark_in_flight-Keeps (submission ids hash) = search semantic_rules depth 12
  mark_in_flight-Keeps (application id) = search semantic_rules depth 12

  recorded_visibility-Keeps : (v : Visibility) → Keeps P (recorded_visibility env v)
  unfolding recorded_visibility
  recorded_visibility-Keeps all_true = search semantic_rules
  recorded_visibility-Keeps _ = search semantic_rules depth 12

  attempt_failed-Keeps :
      (epoch : AttemptEpoch) (label : String) (owner : EpochOwner) (message : String)
      → Keeps P (attempt_failed env epoch label owner message)
  unfolding attempt_failed
  attempt_failed-Keeps epoch label owner message = search semantic_rules depth 12

  is_in_lane-Keeps : Keeps P (is_in_lane env)
  unfolding is_in_lane
  is_in_lane-Keeps = search semantic_rules depth 12

  start_epoch-Keeps : Keeps P (start_epoch env)
  unfolding start_epoch
  start_epoch-Keeps = search semantic_rules depth 12

  -- Only a simulation that succeeded counts as a success.
  class_of-success :
      (request : TransactionRequest) (simulation : Simulation) (n : ℕ)
      → env.chain.simulate n request ≡ ok simulation
      → class_of env simulation ≡ success
      → IsSimulated env request
  unfolding class_of
  class_of-success request succeeded n answered e = (n, answered)
  class_of-success request (reverted none) n answered e = cc
  class_of-success request (reverted (some revert_data)) n answered e =
      elim (Bool-cases (str_eq revert_data "")) [
        | inl blank ↦ ground (arith, blank)
        | inr full ↦
            absurd
              (classify_simulation-fails env.parse_error revert_data full (ground (arith, full)))
      ]

  module _ (lane : LaneRules env P) where
    claim_lane-Keeps :
        (purpose : InFlightPurpose) (request : TransactionRequest)
        → IsSimulated env request
        → Keeps P (claim_lane env purpose request)
    claim_lane-Keeps purpose request simulated = lane.claimed purpose request simulated

    persist_signed_envelope-Keeps :
        (purpose : InFlightPurpose) (request : TransactionRequest)
        → IsSimulated env request
        → Keeps P (persist_signed_envelope env purpose request)
    unfolding persist_signed_envelope
    persist_signed_envelope-Keeps purpose request simulated =
        search (semantic_rules, claim_lane-Keeps, mark_in_flight-Keeps, reconcile_envelope-Keeps)
          depth 12

    submission_outcome-Keeps :
        (epoch : AttemptEpoch) (purpose : InFlightPurpose) (request : TransactionRequest)
        (c : SimulationClass)
        → (c ≡ success → IsSimulated env request)
        → Keeps P (submission_outcome env epoch purpose request c)
    unfolding submission_outcome
    submission_outcome-Keeps epoch purpose request success simulated =
        persist_signed_envelope-Keeps purpose request (simulated refl)
    submission_outcome-Keeps epoch purpose request already_recorded simulated =
        search (semantic_rules, recorded_visibility-Keeps) depth 12
    submission_outcome-Keeps epoch purpose request _ simulated = search semantic_rules depth 12

    submit_proof-Keeps :
        (epoch : AttemptEpoch) (proof : SingleProof) (l : LogicalTask)
        (inclusion : InclusionSnapshot)
        → Keeps P (submit_proof env epoch proof l inclusion)
    unfolding submit_proof
    submit_proof-Keeps epoch proof l inclusion =
        Keeps-bind _ _ (Keeps-call rules.calls _) λ request.
          Keeps-answer _ _ rules.calls λ simulation n answered.
            submission_outcome-Keeps epoch _ request (class_of env simulation)
              (class_of-success request simulation n answered)

    submit_fresh-Keeps : (epoch : AttemptEpoch) → Keeps P (submit_fresh env epoch)
    unfolding submit_fresh
    submit_fresh-Keeps epoch = search (semantic_rules, submit_proof-Keeps) depth 12

    attempt_submission-Keeps : Keeps P (attempt_submission env)
    unfolding attempt_submission
    attempt_submission-Keeps =
        search (semantic_rules, submit_fresh-Keeps, attempt_failed-Keeps) depth 15

    application_outcome-Keeps :
        (r : EvidenceRef) (id : Hex) (request : TransactionRequest) (c : SimulationClass)
        → (c ≡ success → IsSimulated env request)
        → Keeps P (application_outcome env r id request c)
    unfolding application_outcome
    application_outcome-Keeps r id request success simulated =
        persist_signed_envelope-Keeps (application id) request (simulated refl)
    application_outcome-Keeps r id request _ simulated = search semantic_rules depth 12

    apply_fresh-Keeps : (r : EvidenceRef) (id : Hex) → Keeps P (apply_fresh env r id)
    unfolding apply_fresh
    apply_fresh-Keeps r id = Keeps-bind _ _ (Keeps-call rules.calls _) λ request.
        Keeps-answer _ _ rules.calls λ simulation n answered.
          application_outcome-Keeps r id request (class_of env simulation)
            (class_of-success request simulation n answered)

    attempt_application-Keeps : (r : EvidenceRef) → Keeps P (attempt_application env r)
    unfolding attempt_application
    attempt_application-Keeps r =
        search (semantic_rules, apply_fresh-Keeps, attempt_failed-Keeps) depth 15

    process_unseen-Keeps : (inclusion : InclusionSnapshot) → Keeps P (process_unseen env inclusion)
    unfolding process_unseen
    process_unseen-Keeps inclusion =
        search (semantic_rules, start_epoch-Keeps, attempt_submission-Keeps, is_in_lane-Keeps) depth
          15

    process_ready-Keeps : (l : LogicalTask) → Keeps P (process_ready env l)
    unfolding process_ready
    process_ready-Keeps l =
        search (semantic_rules, attempt_application-Keeps, is_in_lane-Keeps) depth 12

    process_reconciled-Keeps :
        (l : LogicalTask) (inclusion : InclusionSnapshot)
        → Keeps P (process_reconciled env l inclusion)
    unfolding process_reconciled
    process_reconciled-Keeps l inclusion =
        search (semantic_rules, process_unseen-Keeps, process_ready-Keeps) depth 12

    process_included-Keeps :
        (inclusion : InclusionSnapshot) → Keeps P (process_included env inclusion)
    unfolding process_included
    process_included-Keeps inclusion =
        search (semantic_rules, is_in_lane-Keeps, process_reconciled-Keeps) depth 12

    pub process_task-Keeps : Keeps P (process_task env)
    unfolding process_task
    process_task-Keeps = search (semantic_rules, process_included-Keeps) depth 12
