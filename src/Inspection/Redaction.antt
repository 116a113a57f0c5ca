-- ===== src/Inspection/Redaction.antt =====
-- What the printing commands of worker/cli.ts show and leave.
use cr3d_x.Base.{String, ◌≡◌, refl, Option, none, some, List, [], ◌∷◌, All, map}
use cr3d_x.Types.{InFlightEnvelope, WorkerTask, WorkerState}
use cr3d_x.Types.Port.{ok, Env}
use cr3d_x.Exec.{World}
use cr3d_x.Exec.Keeps.{Keeps, keeps_rules}
use cr3d_x.Exec.Triples.{Ensures, Ensures-bind, Ensures-any, Ensures-throw, Ensures-pure}
use cr3d_x.State.Reading.{read_state-Keeps, list_tasks-Keeps, read_task-Keeps}
use cr3d_x.Inspection.{
  TaskView, redacted_bytes, redacted_envelope, task_for_inspection, Query, show_status, show_list,
  show_enrollments, show_attention, inspect, Printed, summary, lines, enrolled, attention,
  inspected, answer_query, run_query,
}

-- The signed bytes of the envelope do not show.
abbrev HidesBytes : Option InFlightEnvelope → Type 0
HidesBytes none = Unit {0}
HidesBytes (some envelope) = envelope.raw_transaction ≡ redacted_bytes

-- The views of tasks, whole tasks with their envelopes, in what is printed.
abbrev pub views_of : Printed → List TaskView
views_of (summary s) = []
views_of (lines ls) = []
views_of (enrolled es history) = []
views_of (attention reasons views) = views
views_of (inspected view) = view ∷ []

abbrev pub IsRedacted : Printed → Type 0
IsRedacted printed = All (λ view. HidesBytes view.in_flight) (views_of printed)

HidesBytes-redacted : (o : Option InFlightEnvelope) → HidesBytes (redacted_envelope o)
unfolding redacted_envelope
HidesBytes-redacted none = tt
HidesBytes-redacted (some envelope) = refl

HidesBytes-map :
    (ts : List WorkerTask) → All (λ view. HidesBytes view.in_flight) (map task_for_inspection ts)
unfolding task_for_inspection
HidesBytes-map [] = tt
HidesBytes-map (t ∷ ts) = (HidesBytes-redacted t.in_flight, HidesBytes-map ts)

module _ (env : Env) where
  answer_query-Ensures :
      {P : World → Type 0} (state : WorkerState) (tasks : List WorkerTask) (query : Query)
      → Ensures P (answer_query env state tasks query) (λ printed _. IsRedacted printed)
  unfolding answer_query task_for_inspection
  answer_query-Ensures state tasks show_status = Ensures-pure _ (λ w p. tt)
  answer_query-Ensures state tasks show_list = Ensures-pure _ (λ w p. tt)
  answer_query-Ensures state tasks show_enrollments = Ensures-pure _ (λ w p. tt)
  answer_query-Ensures state tasks show_attention = Ensures-pure _ (λ w p. HidesBytes-map _)
  answer_query-Ensures state tasks (inspect none) = Ensures-throw _
  answer_query-Ensures state tasks (inspect (some id)) = Ensures-bind _ _ (Ensures-any _) λ _.
      Ensures-bind _ _ (Ensures-any _)
        λ task. Ensures-pure _ (λ w p. (HidesBytes-redacted task.in_flight, tt))

  answer_query-Keeps :
      {P : World → Type 0} (state : WorkerState) (tasks : List WorkerTask) (query : Query)
      → Keeps P (answer_query env state tasks query)
  unfolding answer_query
  answer_query-Keeps state tasks (inspect none) = search keeps_rules
  answer_query-Keeps state tasks (inspect (some id)) =
      search (keeps_rules, read_task-Keeps) depth 12
  answer_query-Keeps state tasks _ = search keeps_rules

  run_query-Keeps :
      {P : World → Type 0} (dir : Option String) (query : Query) → Keeps P (run_query env dir query)
  unfolding run_query
  run_query-Keeps dir query =
      search (keeps_rules, read_state-Keeps, list_tasks-Keeps, answer_query-Keeps) depth 12

  run_query-Ensures :
      (dir : Option String) (query : Query)
      → Ensures (λ _. Unit {0}) (run_query env dir query) (λ printed _. IsRedacted printed)
  unfolding run_query
  run_query-Ensures dir query = Ensures-bind _ _ (Ensures-any _) λ _.
      Ensures-bind _ _ (Ensures-any _)
        λ state. Ensures-bind _ _ (Ensures-any _) λ tasks. answer_query-Ensures state tasks query

  -- A printing command that returns has changed nothing, and no task that it shows shows the signed bytes of
  -- its envelope.
  pub run_query-IsRedacted :
      (dir : Option String) (query : Query) (w : World) (printed : Printed)
      → (run_query env dir query w).0 ≡ ok printed
      → ((run_query env dir query w).1 ≡ w) × IsRedacted printed
  run_query-IsRedacted dir query w printed e = (
    (run_query-Keeps {P = λ v. v ≡ w} dir query).at w refl,
    (run_query-Ensures dir query).at w tt printed e,
  )
