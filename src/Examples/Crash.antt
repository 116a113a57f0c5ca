-- ===== src/Examples/Crash.antt =====
-- A worker that is bootstrapped, dies behind the first write of its start, and is started again.
use cr3d_x.Base.{◌≡◌, refl, true, false, none, some, [], ◌∷◌, same_hex, lower}
use cr3d_x.Types.{WorkerState, Hex}
use cr3d_x.Types.Port.{Result, ok}
use cr3d_x.Policy.{is_some}
use cr3d_x.Exec.{World, wrote_state, ◌>>=◌, pure, throw, gets, call, require, traverse}
use cr3d_x.State.{
  assert_established, read_state, write_state, save_state, list_tasks, in_flight_tasks,
  single_owner, unresolved_lane,
}
use cr3d_x.State.Bootstrap.{
  StateDirectory, made_directory, first_state, write_first, fill_directory, bootstrap, bootstrap_as,
  bootstrap_at, bootstrap_checked, bootstrap_command, IsFirstStart, bootstrap_command-IsFirstStart,
}
use cr3d_x.Engine.Marks.{now}
use cr3d_x.Engine.Commands.{start, step, run, perform, startup_checks, runtime_warning}
use cr3d_x.Engine.Crash.Life.{process, born, ran, killed, IsLaneSafe, Life-IsLaneSafe}
use cr3d_x.Examples.Worker.{small_env, ready_task, small_state}

abbrev new_directory : StateDirectory
new_directory = record {
  made = false;
  is_private = false;
  has_tasks_dir = false;
  state_file = none;
}

abbrev new_state : WorkerState
new_state = record small_state { initialized_at = 1000000000 }

abbrev filled_directory : StateDirectory
filled_directory = record {
  made = true;
  is_private = true;
  has_tasks_dir = true;
  state_file = some new_state;
}

abbrev keep_case : Hex → Result Hex
keep_case address = ok address

bootstrapped :
    bootstrap_command small_env keep_case new_directory 0 ≡ (ok new_state, filled_directory)
unfolding is_some made_directory first_state write_first fill_directory bootstrap bootstrap_as
    bootstrap_at bootstrap_checked bootstrap_command
bootstrapped = refl

bootstrap_command-IsFirstStart_example :
    IsFirstStart small_env keep_case new_directory 0 new_state filled_directory
bootstrap_command-IsFirstStart_example =
    bootstrap_command-IsFirstStart small_env keep_case new_directory 0 bootstrapped

abbrev newborn : World
newborn = process new_state (wrote_state new_state ∷ []) ready_task 4

abbrev started_state : WorkerState
started_state = record new_state {
  runtime_observation = some (record {
    observed_at = 1000000000;
    attestation_interval = 10;
    checkpoint_interval = 10;
    warning = none;
  });
}

started :
    (run small_env newborn (start ∷ [])).trace
    ≡ wrote_state started_state ∷ wrote_state new_state ∷ []
unfolding ◌>>=◌ pure throw gets call require traverse is_some assert_established read_state
    write_state save_state list_tasks in_flight_tasks single_owner unresolved_lane now run perform
    startup_checks runtime_warning same_hex lower
started = refl

Life-IsLaneSafe_example : IsLaneSafe (
    run small_env
      (process new_state (wrote_state new_state ∷ []) ready_task 40)
      (start ∷ step ∷ []))
unfolding is_some
Life-IsLaneSafe_example = Life-IsLaneSafe small_env keep_case (
    ran
      (killed (born new_directory filled_directory 0 4 new_state ready_task bootstrapped refl)
        (start ∷ []) (wrote_state started_state ∷ []) [] new_state ready_task 40 started refl refl)
      (start ∷ step ∷ []))
