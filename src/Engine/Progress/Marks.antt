-- ===== src/Engine/Progress/Marks.antt =====
-- The small methods of worker/engine.ts on a state directory that is as it should be.
use cr3d_x.Base.{String, Bool, true, ◌≡◌}
use cr3d_x.Types.{SubmissionState, EvidenceAutomationState}
use cr3d_x.Types.Port.{Env}
use cr3d_x.Exec.Returning.{IsOk-ok, Returns}
use cr3d_x.Engine.Objects.{EvidenceRef}
use cr3d_x.Engine.Marks.{
  now, fresh_epoch, set_submission_state, set_evidence_state, set_task_attention,
  set_evidence_attention,
}
use cr3d_x.Engine.Progress.Steady.{IsSteady, call-Returns, steady_rules}

module _ {s : EvidenceRef → Bool} (env : Env) where
  pub now-Returns : Returns (IsSteady s) (now env)
  unfolding now
  now-Returns = call-Returns _ (λ n. IsOk-ok _)

  pub fresh_epoch-Returns : (resumed : Bool) → Returns (IsSteady s) (fresh_epoch env resumed)
  unfolding fresh_epoch
  fresh_epoch-Returns resumed = search (steady_rules, now-Returns) depth 12

  pub set_submission_state-Returns :
      (to : SubmissionState) (reason : String)
      → Returns (IsSteady s) (set_submission_state env to reason)
  unfolding set_submission_state
  set_submission_state-Returns to reason = search (steady_rules, now-Returns) depth 15

  pub set_evidence_state-Returns :
      (r : EvidenceRef) (to : EvidenceAutomationState) (reason : String)
      → s r ≡ true
      → Returns (IsSteady s) (set_evidence_state env r to reason)
  unfolding set_evidence_state
  set_evidence_state-Returns r to reason here = search (steady_rules, now-Returns) depth 15

  pub set_task_attention-Returns :
      (reason : String) → Returns (IsSteady s) (set_task_attention env reason)
  unfolding set_task_attention
  set_task_attention-Returns reason = search (steady_rules, set_submission_state-Returns) depth 15

  pub set_evidence_attention-Returns :
      (r : EvidenceRef) (reason : String)
      → s r ≡ true
      → Returns (IsSteady s) (set_evidence_attention env r reason)
  unfolding set_evidence_attention
  set_evidence_attention-Returns r reason here =
      search (steady_rules, set_evidence_state-Returns) depth 15

  pub ruleset progress_rules = (
    steady_rules, now-Returns, fresh_epoch-Returns, set_submission_state-Returns,
    set_evidence_state-Returns, set_task_attention-Returns, set_evidence_attention-Returns,
  )
