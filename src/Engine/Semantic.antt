-- ===== src/Engine/Semantic.antt =====
-- worker/engine.ts `reconcileSemantic`: what the destination chain says of a task's evidence decides
-- the states of the task and of each of its evidence records.
use cr3d_x.Base.{
  ◌<>◌, Bool, true, false, not, ◌&&◌, ◌||◌, Option, none, some, List, map, ◌==◌, if◌then◌else◌, any,
  same_hex,
}
use cr3d_x.Types.{
  Hex, PrerequisiteSnapshot, EvidenceRecord, funding, repayment, SubmissionState,
  ContractEvidenceState, EvidenceAutomationState,
}
use cr3d_x.Types.Names.{submission_is_attention, is_ready, is_in_flight}
use cr3d_x.Types.Port.{DealView, EvidenceStatus, Env}
use cr3d_x.Policy.{
  is_some, Visibility, all_false, all_true, mixed, reconcile_seen, automation_from_contract,
}
use cr3d_x.Exec.{
  Exec, pure, gets, call, ◌>>=◌, ◌>>◌, traverse, for_each, when, modify_logical, get_logical,
  get_envelope,
}
use cr3d_x.State.{write_task}
use cr3d_x.Engine.Objects.{
  EvidenceRef, expected_ids, in_current_events, fetch, assign, current_refs, application_id,
}
use cr3d_x.Engine.Marks.{
  global_attention, fresh_epoch, set_submission_state, set_evidence_state, set_task_attention,
  set_evidence_attention,
}

-- isApplicationReady
unfoldable pub is_application_ready : EvidenceRecord → DealView → Bool
is_application_ready event deal = if deal.status == 0 then false else elim event.kind [
  | funding ↦ true
  | repayment ↦
      if not (same_hex event.recipient deal.designated_investor)
      then true
      else not (deal.status == 1)
]

unfoldable pub snapshot_of : DealView → PrerequisiteSnapshot
snapshot_of deal = record {
  deal_status = deal.status;
  designated_investor = deal.designated_investor;
}

-- Whether the prerequisite differs from the one of the last look, or there was none.
unfoldable pub has_changed : Option PrerequisiteSnapshot → PrerequisiteSnapshot → Bool
has_changed none snapshot = true
has_changed (some old) snapshot =
    not (old.deal_status == snapshot.deal_status)
    || not (same_hex old.designated_investor snapshot.designated_investor)

unfoldable pub put_status : EvidenceStatus → EvidenceRecord → EvidenceRecord
put_status status e = record e { contract_state = status.state; rejection_reason = status.reason }

unfoldable pub put_snapshot : PrerequisiteSnapshot → EvidenceRecord → EvidenceRecord
put_snapshot snapshot e = record e { prerequisite_snapshot = some snapshot }

-- Nothing of the task is on the destination chain: an application in flight keeps its mark.
unfoldable pub reset_unseen : EvidenceRecord → EvidenceRecord
reset_unseen e = record e {
  contract_state = ContractEvidenceState.unseen;
  automation_state =
      if is_in_flight e.automation_state
      then e.automation_state
      else EvidenceAutomationState.unseen;
}

unfoldable pub matches_in_flight : Option Hex → EvidenceRecord → Bool
matches_in_flight none e = false
matches_in_flight (some id) e = same_hex id e.expected_evidence_id

module _ (env : Env) where
  -- chain.seen of each id
  unfoldable pub seen_values : List Hex → Exec (List Bool)
  seen_values ids = traverse (λ id. call (λ n. env.chain.seen n id)) ids

  -- anyEvidenceSeen of the task's current events
  unfoldable pub any_evidence_seen : List Hex → Exec Bool
  any_evidence_seen ids = do values ← seen_values ids; pure (any (λ b. b) values)

  -- event.prerequisiteSnapshot = {dealStatus, designatedInvestor} of the deal as it is now
  unfoldable pub snapshot_deal : EvidenceRef → Exec Unit
  snapshot_deal r = do
    event ← fetch r
    deal ← call (λ n. env.chain.deal_view n event.deal_id)
    assign r (put_snapshot (snapshot_of deal))

  -- The evidence is pending, and its prerequisite has changed since the last look.
  unfoldable pub look_again : EvidenceRef → DealView → Exec Unit
  look_again r deal = do
    event ← fetch r
    let ready = is_application_ready event deal
    set_evidence_state env r
        (if ready
          then EvidenceAutomationState.ready_to_apply
          else EvidenceAutomationState.verified_pending)
        (if ready
          then "application prerequisite is now present"
          else "application prerequisite remains absent")
    assign r (put_snapshot (snapshot_of deal))
    when (ready && not (is_some event.application_epoch)) do
      epoch ← fresh_epoch env false
      assign r (λ e. record e { application_epoch = some epoch })

  unfoldable pub reconcile_pending : EvidenceRef → Exec Unit
  reconcile_pending r = do
    event ← fetch r
    deal ← call (λ n. env.chain.deal_view n event.deal_id)
    let already_ready = is_ready event.automation_state && is_some event.application_epoch
    let changed = has_changed event.prerequisite_snapshot (snapshot_of deal)
    if not already_ready && changed
        then look_again r deal
        else when (not already_ready) (
            set_evidence_state env r EvidenceAutomationState.verified_pending
              "application prerequisite unchanged")

  -- The four contract states of one evidence record. `preserve` says that its application is in
  -- flight, in which case its automation state is left to the envelope.
  unfoldable pub reconcile_status : Bool → EvidenceRef → ContractEvidenceState → Exec Unit
  reconcile_status preserve r ContractEvidenceState.unseen =
      when (not preserve) (set_evidence_attention env r "VERIFIER_SEEN_BUT_DEALS_REPORTS_UNSEEN")
  reconcile_status preserve r ContractEvidenceState.verified_pending =
      if preserve then snapshot_deal r else reconcile_pending r
  reconcile_status preserve r state = when (not preserve) (
      set_evidence_state env r (automation_from_contract state)
        "canonical evidence state reconciliation")

  unfoldable pub reconcile_event : Option Hex → EvidenceRef → Exec Unit
  reconcile_event in_flight_id r = do
    event ← fetch r
    status ← call (λ n. env.chain.evidence_state n event.expected_evidence_id)
    assign r (put_status status)
    reconcile_status (matches_in_flight in_flight_id event) r status.state

  -- reconcileSeen(…): the three answers
  unfoldable pub reconcile_visible : Visibility → Exec Unit
  reconcile_visible mixed = do
    set_task_attention env "MIXED_EXPECTED_ID_VISIBILITY"
    task ← gets (λ w. w.task)
    global_attention ("MIXED_EXPECTED_ID_VISIBILITY:" <> task.task_id)
    write_task env
  reconcile_visible all_false = do
    modify_logical (in_current_events (map reset_unseen))
    write_task env
  reconcile_visible all_true = do
    l ← get_logical
    when (not (submission_is_attention l.source_submission_state)) (
        set_submission_state env SubmissionState.submitted
          "complete expected evidence set is present")
    envelope ← get_envelope
    for_each (reconcile_event (application_id envelope)) (current_refs l)
    write_task env

  -- reconcileSemantic; a task with no current events is left alone
  unfoldable pub reconcile_semantic : Exec Unit
  reconcile_semantic = do
    l ← get_logical
    when (any (λ _. true) (expected_ids l))
        do values ← seen_values (expected_ids l); reconcile_visible (reconcile_seen values)
