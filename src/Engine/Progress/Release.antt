-- ===== src/Engine/Progress/Release.antt =====
-- The lane of worker/engine.ts comes free: `finalizeEnvelope` returns, and no file holds an envelope then.
use mathlib.Core.Bool.{false≢true}
use cr3d_x.Base.{
  ℕ, String, ◌≡◌, refl, sym, subst, ◌∙◌, Bool, true, false, Option, none, some, List, [], ◌∷◌,
  arith, All, str_eq, eq_iff, Bool-cases, inl, inr,
}
use cr3d_x.Types.{WorkerTask, InFlightEnvelope}
use cr3d_x.Types.Port.{DestinationReceipt, ok, Env}
use cr3d_x.Policy.{is_some}
use cr3d_x.Exec.{
  World, throw, ◌>>=◌, modify_logical, note_receipt, release, when, pure, on_option, gets,
  get_envelope,
}
use cr3d_x.Exec.Keeps.{Keeps, IsCallProof, Keeps-call, Keeps-gets, Keeps-require}
use cr3d_x.Exec.Triples.{Ensures, Ensures-bind, Ensures-kept}
use cr3d_x.Exec.Returning.{Reaches, Reaches-bind, Reaches-ensures, Reaches-returns}
use cr3d_x.State.{save_state, touch_task, save_task, write_task, put_task, without}
use cr3d_x.State.Directory.{IsIdle, Owns, All-insert_sorted, All-put_task}
use cr3d_x.State.Reading.{assert_established-Keeps, check_task_path-Keeps}
use cr3d_x.Engine.Objects.{EvidenceRef}
use cr3d_x.Engine.Semantic.{reconcile_semantic}
use cr3d_x.Engine.Broadcast.{the_envelope}
use cr3d_x.Engine.Confirm.{finalize_envelope}
use cr3d_x.Engine.Progress.Presence.{KeepsEvents-push_operation}
use cr3d_x.Engine.Progress.Marks.{progress_rules}
use cr3d_x.Engine.Progress.Steady.{IsSteady, release-Returns}
use cr3d_x.Engine.Progress.Semantic.{Answers, confirmed_purpose-Returns, reconcile_semantic-Returns}
use cr3d_x.Engine.Invariants.{Rules}
use cr3d_x.Engine.Invariants.Semantic.{semantic_rules}
use cr3d_x.Engine.Invariants.Envelope.{the_envelope-Keeps, confirmed_purpose-Keeps}

-- The running task is `owner`, and no other file holds an envelope.
pub record OwnedBy (owner : String) (w : World) : Type 0 where
  pub running : w.task.task_id ≡ owner
  pub stored : All (Owns owner) w.tasks

-- Neither a file nor the running task holds an envelope.
pub record IsFreed (w : World) : Type 0 where
  pub released : IsIdle w.task
  pub idle : All IsIdle w.tasks

pub OwnedBy-Rules : (owner : String) → Rules (OwnedBy owner)
unfolding modify_logical note_receipt release save_state touch_task save_task
OwnedBy-Rules owner = record {
  calls = record { at = λ w h. record { running = h.running; stored = h.stored } };
  logical = λ f. record { at = λ w h. record { running = h.running; stored = h.stored } };
  receipt = λ r. record { at = λ w h. record { running = h.running; stored = h.stored } };
  released = record { at = λ w h. record { running = h.running; stored = h.stored } };
  state_saved = λ state. record { at = λ w h. record { running = h.running; stored = h.stored } };
  touched = λ at. record { at = λ w h. record { running = h.running; stored = h.stored } };
  task_saved = record {
    at = λ w h. record {
      running = h.running;
      stored = All-put_task (Owns owner) w.task w.tasks (λ e. h.running) h.stored;
    };
  };
}

IsFreed-Rules : Rules IsFreed
unfolding modify_logical note_receipt release save_state touch_task save_task is_some
IsFreed-Rules = record {
  calls = record { at = λ w h. record { released = h.released; idle = h.idle } };
  logical = λ f. record { at = λ w h. record { released = h.released; idle = h.idle } };
  receipt =
      λ r. record { at = λ w h. record { released = ground (arith, h.released); idle = h.idle } };
  released = record { at = λ w h. record { released = refl; idle = h.idle } };
  state_saved = λ state. record { at = λ w h. record { released = h.released; idle = h.idle } };
  touched = λ at. record { at = λ w h. record { released = h.released; idle = h.idle } };
  task_saved = record {
    at = λ w h. record {
      released = h.released;
      idle = All-put_task IsIdle w.task w.tasks h.released h.idle;
    };
  };
}

-- Without the owner's file, all are idle.
All-without-owner :
    (owner : String) (ts : List WorkerTask) → All (Owns owner) ts → All IsIdle (without owner ts)
unfolding without
All-without-owner owner [] h = tt
All-without-owner owner (t ∷ ts) h = elim (Bool-cases (str_eq t.task_id owner)) [
  | inl same ↦ rw same (All-without-owner owner ts h.1)
  | inr other ↦ rw other (idle (is_some t.in_flight) h.0 other, All-without-owner owner ts h.1)
]
  where
    idle : (b : Bool) → (b ≡ true → t.task_id ≡ owner) → str_eq t.task_id owner ≡ false → b ≡ false
    idle false owns other = refl
    idle true owns other = absurd (false≢true (sym other ∙ (eq_iff t.task_id owner).1 (owns refl)))

-- The running task is `owner`, without an envelope that the files do not know of yet.
abbrev IsLetGo : String → World → Type 0
IsLetGo owner w = OwnedBy owner w × IsIdle w.task

module _ (owner : String) where
  release-Ensures : Ensures (OwnedBy owner) release (λ _. IsLetGo owner)
  unfolding release is_some
  release-Ensures = record {
    at = λ w h a e. (record { running = h.running; stored = h.stored }, refl);
  }

  IsLetGo-calls : IsCallProof (IsLetGo owner)
  IsLetGo-calls = record {
    at = λ w h. (record { running = h.0.running; stored = h.0.stored }, h.1);
  }

  IsLetGo-touch_task : (at : ℕ) → Keeps (IsLetGo owner) (touch_task at)
  unfolding touch_task
  IsLetGo-touch_task at = record {
    at = λ w h. (record { running = h.0.running; stored = h.0.stored }, h.1);
  }

  save_task-Ensures : Ensures (IsLetGo owner) save_task (λ _. IsFreed)
  unfolding save_task put_task
  save_task-Ensures = record {
    at = λ w h a e. record {
      released = h.1;
      idle = All-insert_sorted IsIdle w.task (without w.task.task_id w.tasks) h.1 (
          subst (λ o. All IsIdle (without o w.tasks)) (sym h.0.running)
            (All-without-owner owner w.tasks h.0.stored));
    };
  }

  module _ (env : Env) where
    write_task-Ensures : Ensures (IsLetGo owner) (write_task env) (λ _. IsFreed)
    unfolding write_task
    write_task-Ensures = Ensures-bind _ _ (Ensures-kept _ assert_established-Keeps) λ _.
        Ensures-bind _ _ (Ensures-kept _ (Keeps-gets _)) λ task.
          Ensures-bind _ _ (Ensures-kept _ (Keeps-require _ _)) λ _.
            Ensures-bind _ _ (Ensures-kept _ (Keeps-call IsLetGo-calls _)) λ at.
              Ensures-bind _ _ (Ensures-kept _ (IsLetGo-touch_task at)) λ _.
                Ensures-bind _ _ (Ensures-kept _ (check_task_path-Keeps _)) λ _. save_task-Ensures

    IsFreed-semantic : (b : Bool) → Keeps IsFreed (when b (reconcile_semantic env))
    IsFreed-semantic b = let rules = IsFreed-Rules in search semantic_rules depth 12

    pub finalize_envelope-Ensures :
        (receipt : DestinationReceipt)
        → Ensures (OwnedBy owner) (finalize_envelope env receipt) (λ _. IsFreed)
    unfolding finalize_envelope
    finalize_envelope-Ensures receipt =
        let rules = OwnedBy-Rules owner in
        Ensures-bind _ _ (Ensures-kept _ the_envelope-Keeps) λ held.
          Ensures-bind _ _ (Ensures-kept _ (confirmed_purpose-Keeps rules env _ _)) λ _.
            Ensures-bind _ _ (Ensures-kept _ (Keeps-call rules.calls _)) λ timestamp.
              Ensures-bind _ _ (Ensures-kept _ (rules.logical _)) λ _.
                Ensures-bind _ _ release-Ensures
                  λ _. Ensures-bind _ _ write_task-Ensures λ _. Ensures-kept _ (IsFreed-semantic _)

-- The running task holds an envelope.
abbrev pub IsHolding : World → Type 0
IsHolding w = is_some w.task.in_flight ≡ true

module _ (s : EvidenceRef → Bool) where
  the_envelope-Reaches : Reaches (λ w. IsSteady s w × IsHolding w) the_envelope (λ _. IsSteady s)
  unfolding the_envelope get_envelope gets on_option ◌>>=◌ is_some pure
  the_envelope-Reaches = record { at = λ w h. held w h.0 w.task.in_flight h.1 }
    where
      held :
          (w : World)
          → IsSteady s w
          → (o : Option InFlightEnvelope) → is_some o ≡ true
          → (e : InFlightEnvelope) × ((on_option o
                (throw "Cannot read properties of undefined")
                pure
                w).0
              ≡ ok e)
            × IsSteady s (on_option o (throw "Cannot read properties of undefined") pure w).1
      held w h none e = cc
      held w h (some envelope) e = (envelope, refl, h)

  module _ {env : Env} (answers : Answers env) where
    finalize_envelope-Reaches :
        (receipt : DestinationReceipt)
        → Reaches
            (λ w. IsSteady s w × IsHolding w)
            (finalize_envelope env receipt)
            (λ _ _. Unit {0})
    unfolding finalize_envelope
    finalize_envelope-Reaches receipt = Reaches-bind _ _ the_envelope-Reaches λ envelope.
        Reaches-returns (
          search
            (
              progress_rules, answers.timestamp, confirmed_purpose-Returns, release-Returns,
              KeepsEvents-push_operation, reconcile_semantic-Returns,
            )
            depth 15)

    -- The lane is freed by a finalization, which returns.
    pub finalize_envelope-frees :
        (owner : String) (receipt : DestinationReceipt)
        → Reaches
            (λ w. (IsSteady s w × IsHolding w) × OwnedBy owner w)
            (finalize_envelope env receipt)
            (λ _. IsFreed)
    finalize_envelope-frees owner receipt =
        Reaches-ensures (finalize_envelope-Reaches receipt)
          (finalize_envelope-Ensures owner env receipt)
