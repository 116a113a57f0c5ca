-- ===== src/Engine/Invariants/Envelope.antt =====
-- `reconcileEnvelope` of worker/engine.ts keeps what survives the rules.
use cr3d_x.Base.{ℕ, Bool, Option, none, some}
use cr3d_x.Types.{Hex, InFlightPurpose, submission, application, InFlightEnvelope}
use cr3d_x.Types.Port.{DestinationReceipt, Env}
use cr3d_x.Policy.{Visibility, all_true, mixed}
use cr3d_x.Exec.{World}
use cr3d_x.Exec.Keeps.{Keeps, keeps_rules}
use cr3d_x.Engine.Objects.{EvidenceRef}
use cr3d_x.Engine.Broadcast.{
  the_envelope, broadcast_exact, envelope_nonce_is_compatible, broadcast_if_compatible,
}
use cr3d_x.Engine.Confirm.{
  confirmed_visibility, confirmed_application, confirmed_purpose, finalize_envelope,
}
use cr3d_x.Engine.Envelope.{
  submission_visibility, application_status, purpose_semantic, reconcile_envelope_semantic, settle,
  pursue, reconcile_envelope,
}
use cr3d_x.Engine.Invariants.{Rules, LaneRules}
use cr3d_x.Engine.Invariants.Marks.{get_envelope-Keeps, note_receipt-Keeps, release-Keeps}
use cr3d_x.Engine.Invariants.Semantic.{semantic_rules}

pub the_envelope-Keeps : {P : World → Type 0} → Keeps P the_envelope
unfolding the_envelope
the_envelope-Keeps = search (keeps_rules, get_envelope-Keeps) depth 12

module _ {P : World → Type 0} (rules : Rules P) (env : Env) where
  confirmed_visibility-Keeps :
      (status : ℕ) (v : Visibility) → Keeps P (confirmed_visibility env status v)
  unfolding confirmed_visibility
  confirmed_visibility-Keeps status all_true = search semantic_rules
  confirmed_visibility-Keeps status _ = search semantic_rules depth 12

  confirmed_application-Keeps :
      (status : ℕ) (r : EvidenceRef) → Keeps P (confirmed_application env status r)
  unfolding confirmed_application
  confirmed_application-Keeps status r = search semantic_rules depth 15

  pub confirmed_purpose-Keeps :
      (status : ℕ) (purpose : InFlightPurpose) → Keeps P (confirmed_purpose env status purpose)
  unfolding confirmed_purpose
  confirmed_purpose-Keeps status (submission ids hash) =
      search (semantic_rules, confirmed_visibility-Keeps) depth 12
  confirmed_purpose-Keeps status (application id) =
      search (semantic_rules, confirmed_application-Keeps) depth 12

  finalize_envelope-Keeps : (receipt : DestinationReceipt) → Keeps P (finalize_envelope env receipt)
  unfolding finalize_envelope
  finalize_envelope-Keeps receipt =
      search (semantic_rules, the_envelope-Keeps, confirmed_purpose-Keeps, release-Keeps) depth 15

  settle-Keeps :
      (receipt : Option DestinationReceipt) (envelope : InFlightEnvelope)
      → Keeps P (settle env receipt envelope)
  unfolding settle
  settle-Keeps none envelope = search (semantic_rules, note_receipt-Keeps) depth 12
  settle-Keeps (some receipt) envelope =
      search (semantic_rules, note_receipt-Keeps, finalize_envelope-Keeps) depth 15

  submission_visibility-Keeps :
      (hash : Hex) (v : Visibility) → Keeps P (submission_visibility env hash v)
  unfolding submission_visibility
  submission_visibility-Keeps hash mixed = search semantic_rules depth 12
  submission_visibility-Keeps hash _ = search semantic_rules depth 12

  application_status-Keeps : (id : Hex) (r : EvidenceRef) → Keeps P (application_status env id r)
  unfolding application_status
  application_status-Keeps id r = search semantic_rules depth 12

  purpose_semantic-Keeps : (purpose : InFlightPurpose) → Keeps P (purpose_semantic env purpose)
  unfolding purpose_semantic
  purpose_semantic-Keeps (submission ids hash) =
      search (semantic_rules, submission_visibility-Keeps) depth 12
  purpose_semantic-Keeps (application id) =
      search (semantic_rules, application_status-Keeps) depth 12

  reconcile_envelope_semantic-Keeps : Keeps P (reconcile_envelope_semantic env)
  unfolding reconcile_envelope_semantic
  reconcile_envelope_semantic-Keeps = search (semantic_rules, purpose_semantic-Keeps) depth 12

  envelope_nonce_is_compatible-Keeps : Keeps P (envelope_nonce_is_compatible env)
  unfolding envelope_nonce_is_compatible
  envelope_nonce_is_compatible-Keeps = search (semantic_rules, the_envelope-Keeps) depth 12

  module _ (lane : LaneRules env P) where
    broadcast_exact-Keeps :
        (operator_requested : Bool) → Keeps P (broadcast_exact env operator_requested)
    broadcast_exact-Keeps operator_requested = lane.sent operator_requested

    broadcast_if_compatible-Keeps :
        (operator_requested : Bool) → Keeps P (broadcast_if_compatible env operator_requested)
    unfolding broadcast_if_compatible
    broadcast_if_compatible-Keeps operator_requested =
        search (semantic_rules, envelope_nonce_is_compatible-Keeps, broadcast_exact-Keeps) depth 12

    pursue-Keeps :
        (operator_requested : Bool) (envelope : InFlightEnvelope)
        → Keeps P (pursue env operator_requested envelope)
    unfolding pursue
    pursue-Keeps operator_requested envelope =
        search (semantic_rules, broadcast_if_compatible-Keeps) depth 15

    pub reconcile_envelope-Keeps :
        (operator_requested : Bool) → Keeps P (reconcile_envelope env operator_requested)
    unfolding reconcile_envelope
    reconcile_envelope-Keeps operator_requested =
        search (semantic_rules, settle-Keeps, reconcile_envelope_semantic-Keeps, pursue-Keeps) depth
          15
