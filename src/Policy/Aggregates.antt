-- ===== src/Policy/Aggregates.antt =====
-- What the aggregate state of worker/policy.ts says of a task.
use cr3d_x.Base.{◌≡◌, true, false, any, all, arith}
use cr3d_x.Types.{WorkerTask, AggregateTaskState}
use cr3d_x.Types.Names.{submission_is_attention, contract_is_unseen, is_rejected}
use cr3d_x.Policy.{is_some, is_terminal, current_events, aggregate_seen, aggregate_state}

-- A task is completed only where nothing is left to do.
pub record IsDone (task : WorkerTask) : Type 0 where
  pub released : is_some task.in_flight ≡ false
  pub included : is_some task.logical.current_inclusion ≡ true
  pub has_events : any (λ event. true) (current_events task) ≡ true
  pub seen : any (λ event. contract_is_unseen event.contract_state) (current_events task) ≡ false
  pub settled : all (λ event. is_terminal event.automation_state) (current_events task) ≡ true
  pub unrejected : any (λ event. is_rejected event.automation_state) (current_events task) ≡ false
  pub calm : submission_is_attention task.logical.source_submission_state ≡ false

-- A task that counts as completed holds no envelope, has an inclusion with evidence, all of it seen on the
-- chain and in a terminal state, none of it rejected, and asks for no attention.
pub aggregate_state-completed :
    (task : WorkerTask) → aggregate_state task ≡ AggregateTaskState.completed → IsDone task
unfolding aggregate_state aggregate_seen
aggregate_state-completed task e = record {
  released = ground arith;
  included = ground arith;
  has_events = ground arith;
  seen = ground arith;
  settled = ground arith;
  unrejected = ground arith;
  calm = ground arith;
}
