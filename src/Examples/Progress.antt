-- ===== src/Examples/Progress.antt =====
-- A lane that comes free, on the small worker.
use cr3d_x.Base.{◌≡◌, refl, some, All, find, arith, is_hex, same_hex, lower, is_lower_hex_run}
use cr3d_x.Types.Port.{ok, Env}
use cr3d_x.Policy.{is_some}
use cr3d_x.Exec.{◌>>=◌, pure, throw, gets, on_option, traverse, require}
use cr3d_x.Exec.Returning.{IsOk-ok}
use cr3d_x.State.{
  assert_established, check_envelope, check_task, list_tasks, in_flight_tasks, single_owner,
  unresolved_lane, envelope_fault, purpose_fault, is_hex_bytes, is_safe_integer,
}
use cr3d_x.State.Directory.{IsIdle}
use cr3d_x.Engine.Envelope.{is_canonical}
use cr3d_x.Engine.Commands.{tick}
use cr3d_x.Engine.Lookup.{has_id, all_events, found_event, find_evidence-eq-find}
use cr3d_x.Engine.Progress.Semantic.{Answers}
use cr3d_x.Engine.Progress.Tick.{IsMined, IsInOrder, tick-releases}
use cr3d_x.Examples.Worker.{
  small_env, held_world, held_task, held_envelope, reverted_receipt, evidence,
}

-- The small worker's transaction is mined, twenty blocks behind the head.
abbrev mined_env : Env
mined_env = record small_env {
  chain = record small_env.chain {
    destination_receipt = λ n hash. ok (some reverted_receipt);
    canonical_destination_block_hash = λ n block. ok (some reverted_receipt.block_hash);
  };
}

mined_env-Answers : Answers mined_env
mined_env-Answers = record {
  seen = λ n id. IsOk-ok _;
  evidence_state = λ n id. IsOk-ok _;
  deal_view = λ n id. IsOk-ok _;
  timestamp = λ n block. IsOk-ok _;
}

mined_env-IsMined : IsMined mined_env held_envelope reverted_receipt
unfolding is_canonical same_hex lower
mined_env-IsMined = record {
  found = λ n. refl;
  canonical = λ n. (some reverted_receipt.block_hash, refl, refl);
  deep = λ n. (900, refl, omega arith);
}

held_world-IsInOrder : IsInOrder held_task held_world
unfolding is_lower_hex_run
held_world-IsInOrder = record {
  established = refl;
  state_schema = refl;
  task_schema = refl;
  named = refl;
}

tick-releases_example :
    ((tick mined_env held_world).0 ≡ ok tt) × All IsIdle (tick mined_env held_world).1.tasks
unfolding ◌>>=◌ pure throw gets on_option traverse require is_some assert_established check_envelope
    check_task list_tasks in_flight_tasks single_owner unresolved_lane envelope_fault purpose_fault
    is_hex_bytes is_hex same_hex lower is_safe_integer
tick-releases_example =
    tick-releases mined_env-Answers held_world held_task held_envelope reverted_receipt refl refl
      held_world-IsInOrder mined_env-IsMined

find_evidence-eq-find_example :
    found_event evidence held_task.logical ≡ find (has_id evidence) (all_events held_task.logical)
find_evidence-eq-find_example = find_evidence-eq-find evidence held_task.logical
