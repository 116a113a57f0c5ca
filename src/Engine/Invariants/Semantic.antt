-- ===== src/Engine/Invariants/Semantic.antt =====
-- `reconcileSemantic` of worker/engine.ts keeps what survives the rules.
use cr3d_x.Base.{Bool, Option, List}
use cr3d_x.Types.{Hex, ContractEvidenceState}
use cr3d_x.Types.Port.{DealView, Env}
use cr3d_x.Policy.{Visibility, all_true}
use cr3d_x.Exec.{World}
use cr3d_x.Exec.Keeps.{Keeps}
use cr3d_x.Engine.Objects.{EvidenceRef}
use cr3d_x.Engine.Semantic.{
  seen_values, any_evidence_seen, snapshot_deal, look_again, reconcile_pending, reconcile_status,
  reconcile_event, reconcile_visible, reconcile_semantic,
}
use cr3d_x.Engine.Invariants.{Rules}
use cr3d_x.Engine.Invariants.Marks.{mark_rules}

module _ {P : World → Type 0} (rules : Rules P) (env : Env) where
  pub seen_values-Keeps : (ids : List Hex) → Keeps P (seen_values env ids)
  unfolding seen_values
  seen_values-Keeps ids = search mark_rules depth 12

  pub any_evidence_seen-Keeps : (ids : List Hex) → Keeps P (any_evidence_seen env ids)
  unfolding any_evidence_seen
  any_evidence_seen-Keeps ids = search (mark_rules, seen_values-Keeps) depth 12

  pub snapshot_deal-Keeps : (r : EvidenceRef) → Keeps P (snapshot_deal env r)
  unfolding snapshot_deal
  snapshot_deal-Keeps r = search mark_rules depth 12

  look_again-Keeps : (r : EvidenceRef) (deal : DealView) → Keeps P (look_again env r deal)
  unfolding look_again
  look_again-Keeps r deal = search mark_rules depth 15

  reconcile_pending-Keeps : (r : EvidenceRef) → Keeps P (reconcile_pending env r)
  unfolding reconcile_pending
  reconcile_pending-Keeps r = search (mark_rules, look_again-Keeps) depth 15

  reconcile_status-Keeps :
      (preserve : Bool) (r : EvidenceRef) (state : ContractEvidenceState)
      → Keeps P (reconcile_status env preserve r state)
  unfolding reconcile_status
  reconcile_status-Keeps preserve r ContractEvidenceState.verified_pending =
      search (mark_rules, snapshot_deal-Keeps, reconcile_pending-Keeps)
  reconcile_status-Keeps preserve r _ = search mark_rules

  reconcile_event-Keeps : (id : Option Hex) (r : EvidenceRef) → Keeps P (reconcile_event env id r)
  unfolding reconcile_event
  reconcile_event-Keeps id r = search (mark_rules, reconcile_status-Keeps) depth 15

  reconcile_visible-Keeps : (v : Visibility) → Keeps P (reconcile_visible env v)
  unfolding reconcile_visible
  reconcile_visible-Keeps all_true = search (mark_rules, reconcile_event-Keeps) depth 15
  reconcile_visible-Keeps _ = search mark_rules depth 15

  pub reconcile_semantic-Keeps : Keeps P (reconcile_semantic env)
  unfolding reconcile_semantic
  reconcile_semantic-Keeps =
      search (mark_rules, seen_values-Keeps, reconcile_visible-Keeps) depth 15

  pub ruleset semantic_rules = (
    mark_rules, seen_values-Keeps, any_evidence_seen-Keeps, snapshot_deal-Keeps,
    reconcile_semantic-Keeps,
  )
