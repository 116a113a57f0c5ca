-- ===== src/Examples/Lane.antt =====
-- The lane, its order of effects and its claims, on the small worker.
use cr3d_x.Base.{◌≤◌, ◌≡◌, refl, List, [], ◌∷◌, length, is_hex, same_hex, lower}
use cr3d_x.Types.Port.{threw}
use cr3d_x.Exec.{◌>>=◌, pure, throw, gets, on_option, traverse, require}
use cr3d_x.State.{
  assert_established, check_envelope, check_task, list_tasks, in_flight_tasks, single_owner,
  unresolved_lane, envelope_fault, purpose_fault, is_hex_bytes, is_safe_integer,
}
use cr3d_x.Policy.{is_some}
use cr3d_x.Engine.Commands.{
  Command, start, step, advance, rebroadcast, run, lane_message, tick, advance_task, has_attention,
}
use cr3d_x.Engine.Lane.Run.{owners, run-owners}
use cr3d_x.Engine.WriteAhead.{SendsWritten, run-SendsWritten}
use cr3d_x.Engine.Simulated.{SignsPrepared, run-SignsPrepared}
use cr3d_x.Engine.Standing.{tick-attention, advance_task-blocked}
use cr3d_x.Examples.Worker.{small_env, small_world, held_world, held_task, stopped_world}

abbrev one_day : List Command
one_day = start ∷ step ∷ advance held_task.task_id ∷ rebroadcast held_task.task_id ∷ []

run-owners_example : length (owners (run small_env held_world one_day)) ≤ 1
run-owners_example = run-owners small_env one_day held_world (
  held_task.task_id,
  record { held = λ e. refl; stored = ((λ e. refl), tt); distinct = (tt, tt) },
)

run-SendsWritten_example : SendsWritten (run small_env small_world one_day).trace
run-SendsWritten_example = run-SendsWritten small_env one_day small_world tt

run-SignsPrepared_example : SignsPrepared small_env (run small_env small_world one_day).trace
run-SignsPrepared_example = run-SignsPrepared small_env one_day small_world tt

tick-attention_example : (tick small_env stopped_world).1 ≡ stopped_world
unfolding ◌>>=◌ pure gets on_option traverse require is_some assert_established check_envelope
    check_task list_tasks in_flight_tasks single_owner unresolved_lane has_attention
tick-attention_example = tick-attention small_env stopped_world refl refl

advance_task-blocked_example :
    advance_task small_env "other" held_world ≡ (threw (lane_message held_task), held_world)
unfolding ◌>>=◌ pure throw gets on_option traverse require is_some assert_established check_envelope
    check_task list_tasks in_flight_tasks single_owner unresolved_lane envelope_fault purpose_fault
    is_hex_bytes is_hex same_hex lower is_safe_integer
advance_task-blocked_example = advance_task-blocked small_env "other" held_task held_world refl refl
