-- ===== src/Engine/WriteAhead.antt =====
-- The order of the writes and the broadcasts of worker/engine.ts.
use cr3d_x.Base.{ℕ, ◌≡◌, refl, sym, ap, subst, ◌∙◌, Bool, some, List, [], ◌∷◌, arith, All}
use cr3d_x.Types.{Hex, WorkerState, WorkerTask, InFlightEnvelope, InFlightPurpose}
use cr3d_x.Types.Port.{TransactionRequest, ok, Env}
use cr3d_x.Policy.{PolicyVerdict, allowed, refused}
use cr3d_x.Exec.{
  World, Effect, wrote_task, broadcast, open_task, modify_logical, note_receipt, release, ◌>>=◌,
  pure, throw, gets, on_option, get_envelope,
}
use cr3d_x.Exec.Keeps.{Keeps, Keeps-bind, Keeps-continue, Keeps-pure, try_catch-keeps, keeps_rules}
use cr3d_x.Exec.Outcomes.{Leaves, Leaves-bind}
use cr3d_x.State.{save_state, touch_task, save_task, write_task}
use cr3d_x.State.Reading.{unresolved_lane-Keeps, list_tasks-Keeps}
use cr3d_x.Engine.Broadcast.{
  stamp_envelope, the_envelope, send, check_broadcast_hash, send_written, broadcast_exact,
}
use cr3d_x.Engine.Claim.{put_envelope, sign, permit, admit, seal, claim_behind, claim_lane}
use cr3d_x.Engine.Commands.{Command, run}
use cr3d_x.Engine.Invariants.{Rules, LaneRules}
use cr3d_x.Engine.Invariants.Marks.{expected_next_nonce-Keeps, write_task-Keeps}
use cr3d_x.Engine.Invariants.Semantic.{semantic_rules}
use cr3d_x.Engine.Invariants.Envelope.{the_envelope-Keeps}
use cr3d_x.Engine.Invariants.Scan.{scan_once-Keeps}
use cr3d_x.Engine.Invariants.Commands.{OpenRules, run-keeps}

-- The last effect is the write of a task whose envelope has these bytes.
abbrev pub JustWritten : Hex → List Effect → Type 0
JustWritten raw (wrote_task t ∷ trace) =
    (envelope : InFlightEnvelope) × (t.in_flight ≡ some envelope) × (envelope.raw_transaction ≡ raw)
JustWritten raw _ = ⊥

-- Every broadcast follows at once on such a write.
abbrev pub SendsWritten : List Effect → Type 0
SendsWritten [] = Unit {0}
SendsWritten (broadcast raw ∷ trace) = JustWritten raw trace × SendsWritten trace
SendsWritten (_ ∷ trace) = SendsWritten trace

pub record IsWriteAhead (w : World) : Type 0 where
  pub sends : SendsWritten w.trace

ahead-save_state : (state : WorkerState) → Keeps IsWriteAhead (save_state state)
unfolding save_state
ahead-save_state state = record { at = λ w h. record { sends = h.sends } }

ahead-Rules : Rules IsWriteAhead
unfolding modify_logical note_receipt release touch_task save_task
ahead-Rules = record {
  calls = record { at = λ w h. record { sends = h.sends } };
  logical = λ f. record { at = λ w h. record { sends = h.sends } };
  receipt = λ r. record { at = λ w h. record { sends = h.sends } };
  released = record { at = λ w h. record { sends = h.sends } };
  state_saved = ahead-save_state;
  touched = λ at. record { at = λ w h. record { sends = h.sends } };
  task_saved = record { at = λ w h. record { sends = h.sends } };
}

ahead-open_task : (t : WorkerTask) → Keeps IsWriteAhead (open_task t)
unfolding open_task
ahead-open_task t = record { at = λ w h. record { sends = h.sends } }

ahead-stamp_envelope : (at deadline : ℕ) → Keeps IsWriteAhead (stamp_envelope at deadline)
unfolding stamp_envelope
ahead-stamp_envelope at deadline = record { at = λ w h. record { sends = h.sends } }

ahead-put_envelope : (envelope : InFlightEnvelope) → Keeps IsWriteAhead (put_envelope envelope)
unfolding put_envelope
ahead-put_envelope envelope = record { at = λ w h. record { sends = h.sends } }

-- The running task is as it was last written, by the last effect.
record IsFresh (w : World) : Type 0 where
  rest : List Effect
  written : w.trace ≡ wrote_task w.task ∷ rest

save_task-Leaves : Leaves IsFresh save_task
unfolding save_task
save_task-Leaves = record { at = λ w a e. record { rest = w.trace; written = refl } }

pub All-Unit : (ts : List WorkerTask) → All (λ _. Unit {0}) ts
All-Unit [] = tt
All-Unit (t ∷ ts) = (tt, All-Unit ts)

-- The envelope that is sent is the one of the running task.
pub the_envelope-same :
    (w : World) (envelope : InFlightEnvelope)
    → (the_envelope w).0 ≡ ok envelope
    → w.task.in_flight ≡ some envelope
unfolding the_envelope get_envelope gets ◌>>=◌ on_option throw pure
the_envelope-same w envelope e = ground arith

module _ (env : Env) where
  write_task-Leaves : Leaves IsFresh (write_task env)
  unfolding write_task
  write_task-Leaves = search (Leaves-bind, save_task-Leaves) depth 10

  ahead-sign : (request : TransactionRequest) → Keeps IsWriteAhead (sign env request)
  unfolding sign
  ahead-sign request = record { at = λ w h. record { sends = h.sends } }

  ahead-permit : (verdict : PolicyVerdict) → Keeps IsWriteAhead (permit env verdict)
  unfolding permit
  ahead-permit (allowed liability) = search keeps_rules
  ahead-permit (refused message) = search keeps_rules

  ahead-claim_lane :
      (purpose : InFlightPurpose) (request : TransactionRequest)
      → Keeps IsWriteAhead (claim_lane env purpose request)
  unfolding claim_lane claim_behind seal admit
  ahead-claim_lane purpose request =
      let rules = ahead-Rules in
      search
        (
          semantic_rules, ahead-sign, ahead-permit, ahead-put_envelope, unresolved_lane-Keeps,
          list_tasks-Keeps, expected_next_nonce-Keeps,
        )
        depth 20

  ahead-check_broadcast_hash :
      (envelope : InFlightEnvelope) (hash : Hex)
      → Keeps IsWriteAhead (check_broadcast_hash env envelope hash)
  unfolding check_broadcast_hash
  ahead-check_broadcast_hash envelope hash =
      let rules = ahead-Rules in search semantic_rules depth 12

  -- The bytes of an envelope that was just written may be sent.
  ahead-send :
      (envelope : InFlightEnvelope) (w : World)
      → IsWriteAhead w
      → IsFresh w
      → w.task.in_flight ≡ some envelope
      → IsWriteAhead (send env envelope.raw_transaction w).1
  unfolding send
  ahead-send envelope w h fresh held = record {
    sends = (
      subst (JustWritten envelope.raw_transaction) (sym fresh.written) (envelope, held, refl),
      h.sends,
    );
  }

  ahead-send_envelope :
      (envelope : InFlightEnvelope) (w : World)
      → IsWriteAhead w
      → IsFresh w
      → w.task.in_flight ≡ some envelope
      → IsWriteAhead ((send env envelope.raw_transaction >>= check_broadcast_hash env envelope) w).1
  unfolding ◌>>=◌
  ahead-send_envelope envelope w h fresh held =
      let sent = ahead-send envelope w h fresh held in
      Keeps-continue IsWriteAhead (send env envelope.raw_transaction w).0 _
        (send env envelope.raw_transaction w).1 sent
        λ hash _. (ahead-check_broadcast_hash envelope hash).at _ sent

  ahead-send_written :
      (w : World) → IsWriteAhead w → IsFresh w → IsWriteAhead (send_written env w).1
  unfolding send_written ◌>>=◌
  ahead-send_written w h fresh =
      let same = (the_envelope-Keeps {P = λ v. v ≡ w}).at w refl in
      Keeps-continue IsWriteAhead (the_envelope w).0 _ (the_envelope w).1
        (subst IsWriteAhead (sym same) h)
        λ envelope e.
          try_catch-keeps {P = IsWriteAhead}
            (send env envelope.raw_transaction >>= check_broadcast_hash env envelope) _
            (the_envelope w).1
            (ahead-send_envelope envelope (the_envelope w).1 (subst IsWriteAhead (sym same) h)
              (subst IsFresh (sym same) fresh)
              (ap (λ (v : World). v.task.in_flight) same ∙ the_envelope-same w envelope e))
            (λ message. Keeps-pure tt)

  ahead-write_and_send : Keeps IsWriteAhead (write_task env >>= λ _. send_written env)
  unfolding ◌>>=◌
  ahead-write_and_send = record {
    at = λ w h.
        let kept = (write_task-Keeps ahead-Rules env).at w h in
        Keeps-continue IsWriteAhead (write_task env w).0 _ (write_task env w).1 kept
          λ a e. ahead-send_written (write_task env w).1 kept (write_task-Leaves.at w a e);
  }

  ahead-broadcast_exact :
      (operator_requested : Bool) → Keeps IsWriteAhead (broadcast_exact env operator_requested)
  unfolding broadcast_exact
  ahead-broadcast_exact operator_requested =
      let rules = ahead-Rules in
      Keeps-bind _ _ (search semantic_rules) λ at. Keeps-bind _ _ (search semantic_rules) λ later.
        Keeps-bind _ _ (ahead-stamp_envelope _ _) λ _.
          Keeps-bind _ _ (search semantic_rules)
            λ pushed. Keeps-bind _ _ (search semantic_rules) λ _. ahead-write_and_send

  ahead-LaneRules : LaneRules env IsWriteAhead
  ahead-LaneRules = record {
    claimed = λ purpose request _. ahead-claim_lane purpose request;
    sent = ahead-broadcast_exact;
  }

  ahead-OpenRules : OpenRules env IsWriteAhead
  ahead-OpenRules = record {
    scanned =
        scan_once-Keeps {Good = λ _. Unit {0}}
          (record {
            opened = λ t _. ahead-open_task t;
            stored = λ w h. All-Unit w.tasks;
            idle = λ t _. tt;
          })
          env ahead-Rules;
    opened_idle = λ t _. ahead-open_task t;
    opened_file = λ t w h _. (ahead-open_task t).at w h;
  }

  -- Over any commands and answers, every broadcast of signed bytes follows at once on a durable write of
  -- a task whose envelope has exactly these bytes.
  pub run-SendsWritten :
      (commands : List Command) (w : World)
      → SendsWritten w.trace
      → SendsWritten (run env w commands).trace
  run-SendsWritten commands w h =
      (run-keeps env ahead-OpenRules ahead-Rules ahead-LaneRules commands w
        (record { sends = h })).sends
