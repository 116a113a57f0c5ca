-- ===== src/Examples/Inspecting.antt =====
-- The small worker inspected while its task holds the lane.
use cr3d_x.Base.{◌≡◌, refl, some, is_hex, same_hex, lower, is_lower_hex_run}
use cr3d_x.Policy.{is_some, is_truthy}
use cr3d_x.Exec.{◌>>=◌, pure, throw, gets, on_option, traverse, require}
use cr3d_x.State.{
  assert_established, read_state, read_task, check_task_path, check_envelope, check_task,
  list_tasks, envelope_fault, purpose_fault, is_hex_bytes, is_safe_integer,
}
use cr3d_x.Inspection.{Query, inspect, inspected, task_for_inspection, answer_query, run_query}
use cr3d_x.Inspection.Redaction.{IsRedacted, run_query-IsRedacted}
use cr3d_x.Examples.Worker.{small_env, held_world, held_task}

abbrev the_query : Query
the_query = inspect (some held_task.task_id)

run_query-IsRedacted_example :
    ((run_query small_env (some "/var/lib/cr3dx") the_query held_world).1 ≡ held_world)
    × IsRedacted (inspected (task_for_inspection held_task))
unfolding ◌>>=◌ pure throw gets on_option traverse require is_some is_truthy assert_established
    read_state read_task check_task_path check_envelope check_task list_tasks envelope_fault
    purpose_fault is_hex_bytes is_hex same_hex lower is_safe_integer is_lower_hex_run answer_query
    run_query
run_query-IsRedacted_example =
    run_query-IsRedacted small_env (some "/var/lib/cr3dx") the_query held_world
      (inspected (task_for_inspection held_task)) refl
