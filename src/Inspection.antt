-- ===== src/Inspection.antt =====
-- The commands of worker/cli.ts that only print (`status`, `list`, `enrollments`, `attention`, `inspect`),
-- with `summarizeState` of worker/engine.ts and `aggregateTask` of worker/policy.ts: what they read, and the
-- value that they print.
pub mod Redaction
use cr3d_x.Base.{
  ℕ, String, ◌<>◌, str_eq, Bool, false, not, Option, none, some, List, [], ◌∷◌, map, find, keep_if,
  decimal,
}
use cr3d_x.Types.{
  Hex, EvidenceAutomationState, AggregateTaskState, SubmissionState, InFlightEnvelope, LogicalTask,
  WorkerTask, Enrollment, EnrollmentAuditEntry, SourceCursor, WorkerState,
}
use cr3d_x.Types.Names.{automation_name, submission_is_attention}
use cr3d_x.Types.Port.{Env}
use cr3d_x.Policy.{is_some, is_truthy, aggregate_state, aggregate_count}
use cr3d_x.Exec.{Exec, pure, throw, ◌>>=◌, ◌>>◌, require}
use cr3d_x.State.{read_state, read_task, list_tasks}
use cr3d_x.Engine.Commands.{lane_message}

unfoldable pub automation_states : List EvidenceAutomationState
automation_states =
    EvidenceAutomationState.unseen ∷ EvidenceAutomationState.verified_pending
    ∷ EvidenceAutomationState.ready_to_apply ∷ EvidenceAutomationState.application_in_flight
    ∷ EvidenceAutomationState.applied ∷ EvidenceAutomationState.rejected_permanent
    ∷ EvidenceAutomationState.attention_required ∷ []

-- The counts are an object with the automation states as keys.
pub record AggregateTaskView : Type 0 where
  pub state : AggregateTaskState
  pub counts : List (String × ℕ)

unfoldable pub count_of : WorkerTask → EvidenceAutomationState → String × ℕ
count_of task state = (
  automation_name state,
  aggregate_count (λ other. str_eq (automation_name other) (automation_name state)) task,
)

unfoldable pub aggregate_task : WorkerTask → AggregateTaskView
aggregate_task task = record {
  state = aggregate_state task;
  counts = map (count_of task) automation_states;
}

-- One line of `status` and `list`.
pub record TaskLine : Type 0 where
  pub task_id : String
  pub transaction_hash : Hex
  pub aggregate : AggregateTaskView

unfoldable pub task_line : WorkerTask → TaskLine
task_line task = record {
  task_id = task.task_id;
  transaction_hash = task.logical.transaction_hash;
  aggregate = aggregate_task task;
}

pub record StateSummary : Type 0 where
  pub schema_version : ℕ
  pub signer_address : Hex
  pub source_cursor : Option SourceCursor
  pub enrollments : List Enrollment
  pub global_attention_reasons : List String
  pub global_lane : String
  pub tasks : List TaskLine

unfoldable pub global_lane_of : Option WorkerTask → String
global_lane_of none = "OPEN"
global_lane_of (some lane) = lane_message lane

-- summarizeState
unfoldable pub summarize_state : WorkerState → List WorkerTask → StateSummary
summarize_state state tasks = record {
  schema_version = state.schema_version;
  signer_address = state.signer_address;
  source_cursor = state.source_cursor;
  enrollments = map (λ e. e.1) state.enrollments;
  global_attention_reasons = state.global_attention_reasons;
  global_lane = global_lane_of (find (λ task. is_some task.in_flight) tasks);
  tasks = map task_line tasks;
}

pub record TaskView : Type 0 where
  pub schema_version : ℕ
  pub task_id : String
  pub created_at : ℕ
  pub updated_at : ℕ
  pub aggregate : AggregateTaskView
  pub logical : LogicalTask
  pub in_flight : Option InFlightEnvelope

abbrev pub redacted_bytes : Hex
redacted_bytes = "<redacted exact signed envelope>"

unfoldable pub redacted_envelope : Option InFlightEnvelope → Option InFlightEnvelope
redacted_envelope none = none
redacted_envelope (some envelope) = some (record envelope { raw_transaction = redacted_bytes })

-- taskForInspection
unfoldable pub task_for_inspection : WorkerTask → TaskView
task_for_inspection task = record {
  schema_version = task.schema_version;
  task_id = task.task_id;
  created_at = task.created_at;
  updated_at = task.updated_at;
  aggregate = aggregate_task task;
  logical = task.logical;
  in_flight = redacted_envelope task.in_flight;
}

unfoldable pub needs_attention : WorkerTask → Bool
needs_attention task = elim (aggregate_state task) [
  | AggregateTaskState.of_submission state ↦ submission_is_attention state
  | _ ↦ false
]

pub data Query : Type 0 where
  show_status show_list show_enrollments show_attention : Query
  inspect : Option String → Query

-- What is printed, before JSON.stringify.
pub data Printed : Type 0 where
  summary : StateSummary → Printed
  lines : List TaskLine → Printed
  enrolled : List Enrollment → List EnrollmentAuditEntry → Printed
  attention : List String → List TaskView → Printed
  inspected : TaskView → Printed

module _ (env : Env) where
  -- The branches behind the two reads. An empty task id is missing.
  unfoldable pub answer_query : WorkerState → List WorkerTask → Query → Exec Printed
  answer_query state tasks show_status = pure (summary (summarize_state state tasks))
  answer_query state tasks show_list = pure (lines (map task_line tasks))
  answer_query state tasks show_enrollments =
      pure (enrolled (map (λ e. e.1) state.enrollments) state.enrollment_history)
  answer_query state tasks show_attention = pure (
      attention state.global_attention_reasons
        (map task_for_inspection (keep_if needs_attention tasks)))
  answer_query state tasks (inspect none) = throw "inspect requires <taskId>"
  answer_query state tasks (inspect (some task_id)) = do
    require (not (str_eq task_id "")) "inspect requires <taskId>"
    task ← read_task env task_id
    pure (inspected (task_for_inspection task))

  -- The first argument is CR3DX_WORKER_STATE_DIR, which stateStoreOnly reads.
  unfoldable pub run_query : Option String → Query → Exec Printed
  run_query state_dir query = do
    require (is_truthy state_dir) "CR3DX_WORKER_STATE_DIR is required"
    state ← read_state
    tasks ← list_tasks env
    answer_query state tasks query
