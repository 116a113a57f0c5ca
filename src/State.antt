-- ===== src/State.antt =====
-- worker/state.ts: the durable state of the worker. A file is its parsed contents, a write replaces
-- one file whole, and the task directory is the list of the tasks whose files have a task's name, in
-- the order of the sorted names.
-- Beyond what `assertEstablished` tests, the file system does not fail.
pub mod Directory
pub mod Reading
pub mod Values
pub mod Files
pub mod Bootstrap
pub mod Writing
use Prim.Native.String.{compare, count}
use Prim.Native.Nat.{Ordering}
use text.Mathlib.Text.{is_lt}
use cr3d_x.Base.{
  ℕ, suc, ◌-◌, ◌%◌, ◌^◌, String, ◌<>◌, str_eq, Bool, true, false, not, ◌&&◌, ◌||◌, Option, none,
  some, List, [], ◌∷◌, map, ltb, leb, ◌==◌, if◌then◌else◌, length, all, any, keep_if, find, lower,
  same_hex, is_hex, is_lower_hex_run, decimal,
}
use cr3d_x.Types.{
  Hex, worker_schema_version, WorkerState, WorkerTask, InFlightEnvelope, InFlightPurpose,
  submission, application,
}
use cr3d_x.Types.Port.{Result, ok, threw, Env}
use cr3d_x.Policy.{is_some}
use cr3d_x.Exec.{
  World, Exec, wrote_state, wrote_task, pure, throw, gets, call, ◌>>=◌, ◌>>◌, on_option, traverse,
  require,
}

-- /^0x[0-9a-fA-F]+$/ with an even length
unfoldable pub is_hex_bytes : String → Bool
is_hex_bytes text = ltb 2 (count text) && (count text % 2 == 0) && is_hex (count text - 2) text

-- new Set(ids.map(lower)).size === ids.length
unfoldable pub distinct_ids : List Hex → Bool
distinct_ids [] = true
distinct_ids (id ∷ ids) = all (λ other. not (same_hex id other)) ids && distinct_ids ids

-- Number.isSafeInteger of a number that is not negative
unfoldable pub is_safe_integer : ℕ → Bool
is_safe_integer n = ltb n (2 ^ 53)

-- The message behind `Corrupt task …: ` that assertEnvelope throws on a purpose, if any.
unfoldable pub purpose_fault : InFlightPurpose → Option String
purpose_fault (submission ids source_block_hash) =
    if (length ids == 0)
      || any (λ id. not (is_hex 64 id)) ids
      || not (distinct_ids ids)
      || not (is_hex 64 source_block_hash)
    then some "invalid submission purpose"
    else none
purpose_fault (application id) = if is_hex 64 id then none else some "invalid application purpose"

unfoldable pub envelope_fault : (Hex → Hex) → InFlightEnvelope → Option String
envelope_fault keccak256 envelope =
    if not (is_hex_bytes envelope.raw_transaction)
      || not (is_hex 64 envelope.transaction_hash)
      || not (is_hex 40 envelope.destination)
    then some "malformed exact envelope bytes"
    else if not (same_hex (keccak256 envelope.raw_transaction) envelope.transaction_hash)
    then some "exact envelope hash mismatch"
    else if not (is_safe_integer envelope.nonce)
        || not (is_safe_integer envelope.chain_id)
        || (envelope.chain_id == 0)
        || not (is_safe_integer envelope.broadcast_count)
        || (envelope.maximum_liability == 0)
    then some "invalid exact envelope metadata"
    else purpose_fault envelope.purpose

-- createHash('sha256').update(`${sourceChainId}:${transactionHash.toLowerCase()}`).digest('hex')
unfoldable pub task_id_of : (String → String) → ℕ → Hex → String
task_id_of sha256 source_chain_id transaction_hash =
    sha256 (decimal source_chain_id <> ":" <> lower transaction_hash)

-- The directory without one task's file.
unfoldable pub without : String → List WorkerTask → List WorkerTask
without id tasks = keep_if (λ t. not (str_eq t.task_id id)) tasks

unfoldable pub insert_sorted : WorkerTask → List WorkerTask → List WorkerTask
insert_sorted t [] = t ∷ []
insert_sorted t (u ∷ us) =
    let rest = insert_sorted t us in
    if is_lt (compare t.task_id u.task_id) then t ∷ u ∷ us else u ∷ rest

-- The directory with one task's file written.
unfoldable pub put_task : WorkerTask → List WorkerTask → List WorkerTask
put_task t tasks = insert_sorted t (without t.task_id tasks)

unfoldable pub assert_established : Exec Unit
assert_established = do
  established ← gets (λ w. w.established)
  require established
      "Established worker state is missing; explicit bootstrap and nonce reconciliation are required"

unfoldable pub read_state : Exec WorkerState
read_state = do
  assert_established
  state ← gets (λ w. w.state)
  require (state.schema_version == worker_schema_version)
      ("Unsupported worker state schema " <> decimal state.schema_version)
  pure state

-- atomicWriteJson(stateFile, state)
unfoldable pub save_state : WorkerState → Exec Unit
save_state state w = (ok tt, record w { state = state; trace = wrote_state state ∷ w.trace })

unfoldable pub write_state : WorkerState → Exec Unit
write_state state = do
  require (state.schema_version == worker_schema_version)
      "Refusing to write an unsupported state schema"
  save_state state

-- taskPath: only the test
unfoldable pub check_task_path : String → Exec Unit
check_task_path task_id = require (is_lower_hex_run 64 task_id) ("Invalid task id " <> task_id)

-- atomicWriteJson(taskPath, task) of the task object that the method holds
unfoldable pub save_task : Exec Unit
save_task w =
    (ok tt, record w { tasks = put_task w.task w.tasks; trace = wrote_task w.task ∷ w.trace })

unfoldable pub touch_task : ℕ → Exec Unit
touch_task at w = (ok tt, record w { task = record w.task { updated_at = at } })

module _ (env : Env) where
  -- store.writeTask(task)
  unfoldable pub write_task : Exec Unit
  write_task = do
    assert_established
    task ← gets (λ w. w.task)
    require (task.schema_version == worker_schema_version)
        "Refusing to write an unsupported task schema"
    at ← call (λ n. ok (env.wall_clock n))
    touch_task at
    check_task_path task.task_id
    save_task

  unfoldable pub check_envelope : WorkerTask → Exec WorkerTask
  check_envelope task = on_option task.in_flight (pure task) λ envelope.
      on_option (envelope_fault env.keccak256 envelope) (pure task)
        λ fault. throw ("Corrupt task " <> task.task_id <> ": " <> fault)

  unfoldable pub check_task : WorkerTask → Exec WorkerTask
  check_task task = do
    require (task.schema_version == worker_schema_version) ("Corrupt task " <> task.task_id)
    check_envelope task

  unfoldable pub read_task : String → Exec WorkerTask
  read_task task_id = do
    check_task_path task_id
    tasks ← gets (λ w. w.tasks)
    on_option (find (λ t. str_eq t.task_id task_id) tasks) (throw "ENOENT") check_task

  unfoldable pub list_tasks : Exec (List WorkerTask)
  list_tasks = do assert_established; tasks ← gets (λ w. w.tasks); traverse check_task tasks

  unfoldable pub in_flight_tasks : Exec (List WorkerTask)
  in_flight_tasks = do tasks ← list_tasks; pure (keep_if (λ t. is_some t.in_flight) tasks)

  unfoldable pub single_owner : List WorkerTask → Exec (Option WorkerTask)
  single_owner [] = pure none
  single_owner (owner ∷ []) = pure (some owner)
  single_owner _ = throw "More than one unresolved in-flight envelope: state corruption"

  unfoldable pub unresolved_lane : Exec (Option WorkerTask)
  unresolved_lane = do owners ← in_flight_tasks; single_owner owners
