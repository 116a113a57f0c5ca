-- ===== src/Examples/Tasks.antt =====
-- Concrete tasks, files and observations of the page.
use cr3d_x.Base.{◌≡◌, ◌≢◌, refl, String, true, none, some, [], ◌∷◌}
use cr3d_x.Types.{WorkerTask, EvidenceRecord, ContractEvidenceState, EvidenceAutomationState}
use cr3d_x.Policy.{is_some, is_truthy, current_events, is_terminal, aggregate_seen, aggregate_state}
use cr3d_x.Policy.Aggregates.{IsDone, aggregate_state-completed}
use cr3d_x.Types.Names.{
  submission_is_attention, submission_is_orphaned, submission_is_failed, contract_is_unseen,
  is_attention, is_ready, is_pending, is_rejected,
}
use cr3d_x.LiveState.{
  LiveState, LiveObservationState, idle, unavailable, Steps, done, then_step, begins, resolves,
  rejects, last_successful, complete_live_read, fail_live_read,
}
use cr3d_x.LiveState.Refresh.{IsHonest, steps-IsHonest, steps-last_successful}
use cr3d_x.Examples.Worker.{ready_event, ready_task}

abbrev applied_event : EvidenceRecord
applied_event = record ready_event {
  contract_state = ContractEvidenceState.applied;
  automation_state = EvidenceAutomationState.applied;
}

abbrev completed_task : WorkerTask
completed_task = record ready_task {
  logical = record (ready_task.logical) {
    current_inclusion = some (record {
      source_block_number = 120;
      source_block_hash = "0xab";
      transaction_index = 0;
      receipt_status = 1;
      events = applied_event ∷ [];
      observed_at = 0;
      superseded_at = none;
      superseded_reason = none;
    });
  };
}

aggregate_state-completed_example : IsDone completed_task
unfolding aggregate_state aggregate_seen current_events is_some is_truthy is_terminal
    submission_is_attention submission_is_orphaned submission_is_failed contract_is_unseen
    is_attention is_ready is_pending is_rejected
aggregate_state-completed_example = aggregate_state-completed completed_task refl

abbrev observed : LiveState
observed = record {
  chain_id = 102031;
  block_number = 5;
  observed_at = 0;
  borrower = "0xaa";
  designated_investor = "0xbb";
  status = "PAID_ON_TIME";
  funded_amount = 1000001;
  repaid_amount = 1100000;
  on_time_repaid = 1100000;
  outstanding = 0;
  score = 530;
  limit = 5250000000;
  available_limit = 5250000000;
  reserved = 0;
  exposure = 0;
  repayment_evidence = "APPLIED";
  race_evidence = "APPLIED";
}

-- Two refreshes overlap: the second resolves, and then the first is rejected.
abbrev overlapped : LiveObservationState
overlapped = fail_live_read (complete_live_read observed) "timeout"

abbrev overlap : Steps (complete_live_read observed) overlapped
overlap = then_step _ _ _ (done _) (rejects _ "timeout")

steps-IsHonest_example : IsHonest (last_successful overlapped)
steps-IsHonest_example = steps-IsHonest overlapped (
    then_step idle _ _
      (then_step idle _ _
        (then_step idle _ _ (then_step idle _ _ (done idle) (begins _)) (begins _))
        (resolves _ observed))
      (rejects _ "timeout"))

steps-last_successful_example :
    (is_some (last_successful overlapped) ≡ true)
    × ((error : String) → overlapped ≢ unavailable error)
unfolding complete_live_read last_successful is_some
steps-last_successful_example =
    steps-last_successful (complete_live_read observed) overlapped overlap refl
