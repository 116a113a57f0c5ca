-- ===== src/Engine/Progress/Steady.antt =====
-- The store and the task object of worker/engine.ts on a state directory that is as it should be.
use cr3d_x.Base.{
  ℕ, String, Bool, true, ◌≡◌, refl, sym, ap, ◌∙◌, ◌==◌, Option, none, some, arith, is_lower_hex_run,
}
use cr3d_x.Types.{worker_schema_version, WorkerState, EvidenceRecord, LogicalTask, InFlightReceipt}
use cr3d_x.Types.Port.{Result, Env}
use cr3d_x.Policy.{is_some}
use cr3d_x.Exec.{
  World, Exec, pure, on_option, call, ◌>>=◌, gets, require, modify_logical, note_receipt, release,
  get_logical, get_envelope,
}
use cr3d_x.Exec.Keeps.{IsCallProof}
use cr3d_x.Exec.Returning.{
  IsOk, IsOk-ok, Returns, Returns-gets, Returns-call, Returns-bind, Returns-read, Reaches,
  Returns-after, Returns-require, Returns-on_option, Returns-pure, returns_rules,
}
use cr3d_x.State.{
  assert_established, read_state, write_state, save_state, check_task_path, touch_task, save_task,
  write_task,
}
use cr3d_x.State.Reading.{read_state-Keeps}
use cr3d_x.Engine.Objects.{EvidenceRef, fetch, assign, event_at}
use cr3d_x.Engine.Marks.{add_reason, global_attention}
use cr3d_x.Engine.Progress.Presence.{
  has_event, KeepsEvents, KeepsEvents-push_transition, KeepsEvents-put_submission,
  KeepsEvents-put_attention, KeepsEvents-update_event,
}

-- The directory is established and of the current schema, and the running task has the records that
-- `s` tells of.
pub record IsSteady (s : EvidenceRef → Bool) (w : World) : Type 0 where
  pub established : w.established ≡ true
  pub state_schema : w.state.schema_version ≡ worker_schema_version
  pub task_schema : w.task.schema_version ≡ worker_schema_version
  pub named : is_lower_hex_run 64 w.task.task_id ≡ true
  pub present : (r : EvidenceRef) → has_event r w.task.logical ≡ s r

add_reason-schema :
    (reason : String) (state : WorkerState)
    → (add_reason reason state).schema_version ≡ state.schema_version
unfolding add_reason
add_reason-schema reason state = ground arith

same_version : (n : ℕ) → n ≡ worker_schema_version → (n == worker_schema_version) ≡ true
same_version n e = ground (arith, e)

module _ {s : EvidenceRef → Bool} where
  IsSteady-same :
      {v w : World}
      → IsSteady s w
      → v.established ≡ w.established
      → v.state.schema_version ≡ w.state.schema_version
      → v.task.schema_version ≡ w.task.schema_version
      → v.task.task_id ≡ w.task.task_id
      → ((r : EvidenceRef) → has_event r v.task.logical ≡ has_event r w.task.logical)
      → IsSteady s v
  IsSteady-same h established state task named events = record {
    established = established ∙ h.established;
    state_schema = state ∙ h.state_schema;
    task_schema = task ∙ h.task_schema;
    named = ap (λ id. is_lower_hex_run 64 id) named ∙ h.named;
    present = λ r. events r ∙ h.present r;
  }

  pub IsSteady-calls : IsCallProof (IsSteady s)
  IsSteady-calls = record { at = λ w h. IsSteady-same h refl refl refl refl (λ r. refl) }

  pub call-Returns :
      {A : Type 0} (f : ℕ → Result A) → ((n : ℕ) → IsOk (f n)) → Returns (IsSteady s) (call f)
  call-Returns f answers = Returns-call IsSteady-calls f answers

  pub modify_logical-Returns :
      (f : LogicalTask → LogicalTask) → KeepsEvents f → Returns (IsSteady s) (modify_logical f)
  unfolding modify_logical
  modify_logical-Returns f k = record {
    at = λ w h. (tt, refl, IsSteady-same h refl refl refl refl (λ r. k.at w.task.logical r));
  }

  pub release-Returns : Returns (IsSteady s) release
  unfolding release
  release-Returns = record {
    at = λ w h. (tt, refl, IsSteady-same h refl refl refl refl (λ r. refl));
  }

  pub note_receipt-Returns :
      (receipt : Option InFlightReceipt) → Returns (IsSteady s) (note_receipt receipt)
  unfolding note_receipt
  note_receipt-Returns receipt = record {
    at = λ w h. (tt, refl, IsSteady-same h refl refl refl refl (λ r. refl));
  }

  touch_task-Returns : (at : ℕ) → Returns (IsSteady s) (touch_task at)
  unfolding touch_task
  touch_task-Returns at = record {
    at = λ w h. (tt, refl, IsSteady-same h refl refl refl refl (λ r. refl));
  }

  save_task-Returns : Returns (IsSteady s) save_task
  unfolding save_task
  save_task-Returns = record {
    at = λ w h. (tt, refl, IsSteady-same h refl refl refl refl (λ r. refl));
  }

  save_state-Returns :
      (state : WorkerState)
      → state.schema_version ≡ worker_schema_version
      → Returns (IsSteady s) (save_state state)
  unfolding save_state
  save_state-Returns state e = record {
    at = λ w h. (tt, refl, IsSteady-same h refl (e ∙ sym h.state_schema) refl refl (λ r. refl));
  }

  pub assert_established-Returns : Returns (IsSteady s) assert_established
  unfolding assert_established
  assert_established-Returns = Returns-read _ _ (λ w h. Returns-require _ _ h.established)

  read_state-Reaches :
      Reaches
        (IsSteady s)
        read_state
        (λ state w. (state.schema_version ≡ worker_schema_version) × IsSteady s w)
  unfolding read_state assert_established ◌>>=◌ gets require pure
  read_state-Reaches = record {
    at = λ w h. (
      w.state,
      rw (h.established, h.state_schema) refl,
      (h.state_schema, (read_state-Keeps {P = IsSteady s}).at w h),
    );
  }

  pub global_attention-Returns : (reason : String) → Returns (IsSteady s) (global_attention reason)
  unfolding global_attention write_state
  global_attention-Returns reason = Returns-after _ _ read_state-Reaches λ state e.
      let kept = add_reason-schema reason state ∙ e in
      Returns-bind _ _ (Returns-require _ _ (same_version _ kept)) λ _. save_state-Returns _ kept

  pub write_task-Returns : (env : Env) → Returns (IsSteady s) (write_task env)
  unfolding write_task check_task_path
  write_task-Returns env = Returns-bind _ _ assert_established-Returns λ _. Returns-read _ _ λ w h.
      Returns-bind _ _ (Returns-require _ _ (same_version _ h.task_schema)) λ _.
        Returns-bind _ _ (call-Returns _ (λ n. IsOk-ok _)) λ at.
          Returns-bind _ _ (touch_task-Returns at)
            λ _. Returns-bind _ _ (Returns-require _ _ h.named) λ _. save_task-Returns

  pub fetch-Returns : (r : EvidenceRef) → s r ≡ true → Returns (IsSteady s) (fetch r)
  unfolding fetch get_logical on_option is_some
  fetch-Returns r here =
      Returns-read _ _ λ w h. Returns-here _ (event_at r w.task.logical) (h.present r ∙ here)
    where
      Returns-here :
          (m : Exec EvidenceRecord) (o : Option EvidenceRecord)
          → is_some o ≡ true
          → Returns (IsSteady s) (on_option o m pure)
      Returns-here m none e = cc
      Returns-here m (some event) e = Returns-pure event

  pub assign-Returns :
      (r : EvidenceRef) (f : EvidenceRecord → EvidenceRecord) → Returns (IsSteady s) (assign r f)
  unfolding assign
  assign-Returns r f = modify_logical-Returns _ (KeepsEvents-update_event r f)

  pub get_logical-Returns : Returns (IsSteady s) get_logical
  unfolding get_logical
  get_logical-Returns = Returns-gets _

  pub get_envelope-Returns : Returns (IsSteady s) get_envelope
  unfolding get_envelope
  get_envelope-Returns = Returns-gets _

  pub get_logical-Reaches :
      Reaches
        (IsSteady s)
        get_logical
        (λ l w. ((r : EvidenceRef) → has_event r l ≡ s r) × IsSteady s w)
  unfolding get_logical gets
  get_logical-Reaches = record { at = λ w h. (w.task.logical, refl, (h.present, h)) }

  pub ruleset steady_rules = (
    returns_rules, call-Returns, modify_logical-Returns, write_task-Returns,
    global_attention-Returns, fetch-Returns, assign-Returns, get_logical-Returns,
    get_envelope-Returns, KeepsEvents-push_transition, KeepsEvents-put_submission,
    KeepsEvents-put_attention,
  )
