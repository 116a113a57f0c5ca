-- ===== src/Engine/Progress/Semantic.antt =====
-- `reconcileSemantic` and `finalizeEnvelope` of worker/engine.ts return on chains that answer.
use cr3d_x.Base.{ℕ, Bool, true, ◌≡◌, sym, ◌∙◌, Option, List}
use cr3d_x.Types.{Hex, ContractEvidenceState, InFlightPurpose, submission, application}
use cr3d_x.Types.Port.{DealView, Env}
use cr3d_x.Policy.{Visibility, all_false, all_true, mixed}
use cr3d_x.Exec.Returning.{IsOk, Returns, Returns-after, Returns-for_each, Returns-on_option}
use cr3d_x.Engine.Objects.{EvidenceRef}
use cr3d_x.Engine.Semantic.{
  seen_values, snapshot_deal, look_again, reconcile_pending, reconcile_status, reconcile_event,
  reconcile_visible, reconcile_semantic,
}
use cr3d_x.Engine.Confirm.{confirmed_visibility, confirmed_application, confirmed_purpose}
use cr3d_x.Engine.Progress.Presence.{KeepsEvents-reset_unseen, current_refs-have, find_evidence-has}
use cr3d_x.Engine.Progress.Marks.{set_task_attention-Returns, progress_rules}
use cr3d_x.Engine.Progress.Steady.{IsSteady, get_logical-Reaches}

-- What a finalization asks of the destination chain is answered, by a value and not by an error.
pub record Answers (env : Env) : Type 0 where
  pub seen : (n : ℕ) (id : Hex) → IsOk (env.chain.seen n id)
  pub evidence_state : (n : ℕ) (id : Hex) → IsOk (env.chain.evidence_state n id)
  pub deal_view : (n : ℕ) (id : Hex) → IsOk (env.chain.deal_view n id)
  pub timestamp : (n block : ℕ) → IsOk (env.chain.destination_block_timestamp n block)

module _ {s : EvidenceRef → Bool} {env : Env} (answers : Answers env) where
  pub seen_values-Returns : (ids : List Hex) → Returns (IsSteady s) (seen_values env ids)
  unfolding seen_values
  seen_values-Returns ids = search (progress_rules, answers.seen) depth 12

  pub snapshot_deal-Returns :
      (r : EvidenceRef) → s r ≡ true → Returns (IsSteady s) (snapshot_deal env r)
  unfolding snapshot_deal
  snapshot_deal-Returns r here = search (progress_rules, answers.deal_view) depth 12

  look_again-Returns :
      (r : EvidenceRef) (deal : DealView)
      → s r ≡ true
      → Returns (IsSteady s) (look_again env r deal)
  unfolding look_again
  look_again-Returns r deal here = search progress_rules depth 15

  reconcile_pending-Returns :
      (r : EvidenceRef) → s r ≡ true → Returns (IsSteady s) (reconcile_pending env r)
  unfolding reconcile_pending
  reconcile_pending-Returns r here =
      search (progress_rules, answers.deal_view, look_again-Returns) depth 15

  reconcile_status-Returns :
      (preserve : Bool) (r : EvidenceRef) (state : ContractEvidenceState)
      → s r ≡ true
      → Returns (IsSteady s) (reconcile_status env preserve r state)
  unfolding reconcile_status
  reconcile_status-Returns preserve r ContractEvidenceState.verified_pending here =
      search (progress_rules, snapshot_deal-Returns, reconcile_pending-Returns)
  reconcile_status-Returns preserve r _ here = search progress_rules

  reconcile_event-Returns :
      (id : Option Hex) (r : EvidenceRef)
      → s r ≡ true
      → Returns (IsSteady s) (reconcile_event env id r)
  unfolding reconcile_event
  reconcile_event-Returns id r here =
      search (progress_rules, answers.evidence_state, reconcile_status-Returns) depth 15

  reconcile_visible-Returns : (v : Visibility) → Returns (IsSteady s) (reconcile_visible env v)
  unfolding reconcile_visible
  reconcile_visible-Returns all_true = Returns-after _ _ get_logical-Reaches λ l present.
      let refs = current_refs-have l present in
      search (progress_rules, Returns-for_each, reconcile_event-Returns) depth 15
  reconcile_visible-Returns all_false = search (progress_rules, KeepsEvents-reset_unseen) depth 15
  reconcile_visible-Returns mixed = search progress_rules depth 15

  pub reconcile_semantic-Returns : Returns (IsSteady s) (reconcile_semantic env)
  unfolding reconcile_semantic
  reconcile_semantic-Returns =
      search (progress_rules, seen_values-Returns, reconcile_visible-Returns) depth 15

  confirmed_visibility-Returns :
      (status : ℕ) (v : Visibility) → Returns (IsSteady s) (confirmed_visibility env status v)
  unfolding confirmed_visibility
  confirmed_visibility-Returns status mixed = search progress_rules depth 15
  confirmed_visibility-Returns status all_true = search progress_rules depth 15
  confirmed_visibility-Returns status all_false = search progress_rules depth 15

  confirmed_application-Returns :
      (status : ℕ) (r : EvidenceRef)
      → s r ≡ true
      → Returns (IsSteady s) (confirmed_application env status r)
  unfolding confirmed_application
  confirmed_application-Returns status r here =
      search (progress_rules, answers.evidence_state, snapshot_deal-Returns) depth 20

  pub confirmed_purpose-Returns :
      (status : ℕ) (purpose : InFlightPurpose)
      → Returns (IsSteady s) (confirmed_purpose env status purpose)
  unfolding confirmed_purpose
  confirmed_purpose-Returns status (submission ids hash) =
      search (progress_rules, seen_values-Returns, confirmed_visibility-Returns) depth 15
  confirmed_purpose-Returns status (application id) =
      Returns-after _ _ get_logical-Reaches λ l present.
        Returns-on_option _ _ _ (set_task_attention-Returns env _) λ r found.
          confirmed_application-Returns status r (sym (present r) ∙ find_evidence-has id l r found)
