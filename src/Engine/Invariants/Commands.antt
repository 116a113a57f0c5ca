-- ===== src/Engine/Invariants/Commands.antt =====
-- The commands of worker/cli.ts keep what survives the rules.
use cr3d_x.Base.{
  ℕ, String, str_eq, ◌≡◌, refl, sym, subst, inl, inr, not, Bool-cases, false, Option, none, some,
  List, [], ◌∷◌, All,
}
use cr3d_x.Types.{LogicalTask, WorkerTask}
use cr3d_x.Types.Port.{ok, Env}
use cr3d_x.Exec.{World, Exec, ◌>>=◌, on_option, open_task, when, pure, throw, require}
use cr3d_x.Exec.Keeps.{Keeps, Keeps-bind, Keeps-pure, Keeps-continue, Keeps-if}
use cr3d_x.State.{read_state, read_task, list_tasks, unresolved_lane}
use cr3d_x.State.Directory.{IsIdle}
use cr3d_x.State.Reading.{
  assert_established-Keeps, read_state-Keeps, read_task-Keeps, list_tasks-Keeps,
  unresolved_lane-Keeps, list_tasks-same, read_task-some, unresolved_lane-none,
  unresolved_lane-some,
}
use cr3d_x.Engine.Objects.{EvidenceRef}
use cr3d_x.Engine.Scan.{scan_once}
use cr3d_x.Engine.Commands.{
  startup_checks, has_attention, process_all, pursue_lane, tick_free, tick, advance_free,
  advance_owner, advance_task, resume_event, resume_submission, resume, resume_broadcast, Command,
  start, step, advance, resumes, rebroadcast, perform, run,
}
use cr3d_x.Engine.Invariants.{Rules, LaneRules}
use cr3d_x.Engine.Invariants.Marks.{write_state-Keeps}
use cr3d_x.Engine.Invariants.Semantic.{semantic_rules}
use cr3d_x.Engine.Invariants.Envelope.{reconcile_envelope-Keeps}
use cr3d_x.Engine.Invariants.Attempts.{process_task-Keeps}

-- The task is a file of the directory: what all files have, it has.
abbrev pub IsFile : WorkerTask → World → Type 1
IsFile t w = (Q : WorkerTask → Type 0) → All Q w.tasks → Q t

-- A command opens a file, or an idle task.
pub record OpenRules (env : Env) (P : World → Type 0) : Type 1 where
  pub scanned : Keeps P (scan_once env)
  pub opened_idle : (t : WorkerTask) → IsIdle t → Keeps P (open_task t)
  pub opened_file : (t : WorkerTask) (w : World) → P w → IsFile t w → P (open_task t w).1

module _ {P : World → Type 0} (env : Env) where
  opened_then :
      {A : Type 0} (t : WorkerTask) (f : Unit → Exec A) (w : World)
      → P (open_task t w).1
      → Keeps P (f tt)
      → P ((open_task t >>= f) w).1
  unfolding ◌>>=◌ open_task
  opened_then t f w h kf = kf.at _ h

module _ {P : World → Type 0} (env : Env) (opens : OpenRules env P) where
  Keeps-open_read :
      {A : Type 0} (id : String) (f : WorkerTask → Unit → Exec A)
      → ((t : WorkerTask) → Keeps P (f t tt))
      → Keeps P (read_task env id >>= λ t. open_task t >>= f t)
  unfolding ◌>>=◌ open_task
  Keeps-open_read id f kf = record {
    at = λ w h.
        let same = (read_task-Keeps {P = λ v. v ≡ w} env id).at w refl in
        Keeps-continue P (read_task env id w).0 _ (read_task env id w).1 (subst P (sym same) h)
          λ t e. (kf t).at _ (
            opens.opened_file t _ (subst P (sym same) h)
              (subst (IsFile t) (sym same) (λ Q files. read_task-some env Q id w e files)));
  }

  opened_idle-Keeps : (t : WorkerTask) → IsIdle t → Keeps P (open_task t)
  opened_idle-Keeps t idle = opens.opened_idle t idle

  module _ (rules : Rules P) (lane : LaneRules env P) where
    process_all-Keeps : (ts : List WorkerTask) → All IsIdle ts → Keeps P (process_all env ts)
    unfolding process_all
    process_all-Keeps [] idle = Keeps-pure tt
    process_all-Keeps (t ∷ ts) idle = Keeps-bind _ _ (opens.opened_idle t idle.0) λ _.
        Keeps-bind _ _ (process_task-Keeps rules env lane)
          λ in_lane. Keeps-if in_lane _ _ (Keeps-pure tt) (process_all-Keeps ts idle.1)

    -- A command looks at the lane, and goes on with its owner or with the files, all idle.
    Keeps-lane :
        (m : Exec Unit) (f : WorkerTask → Exec Unit)
        → ((w : World) → All IsIdle w.tasks → P w → P (m w).1)
        → ((t : WorkerTask) (w : World) → P w → IsFile t w → P (f t w).1)
        → Keeps P (unresolved_lane env >>= λ o. on_option o m f)
    unfolding ◌>>=◌ on_option
    Keeps-lane m f km kf = record {
      at = λ w h.
          let same = (unresolved_lane-Keeps {P = λ v. v ≡ w} env).at w refl in
          Keeps-continue P (unresolved_lane env w).0 _ (unresolved_lane env w).1
            (subst P (sym same) h) (λ o e. behind o w e (unresolved_lane env w).1 same h);
    }
      where
        behind :
            (o : Option WorkerTask) (w : World)
            → (unresolved_lane env w).0 ≡ ok o
            → (v : World) → v ≡ w
            → P w
            → P (on_option o m f v).1
        behind none w e v same h =
            km v
              (subst (λ (u : World). All IsIdle u.tasks) (sym same) (unresolved_lane-none env w e))
              (subst P (sym same) h)
        behind (some t) w e v same h =
            kf t v (subst P (sym same) h)
              (subst (IsFile t) (sym same) (λ Q files. unresolved_lane-some env Q w e files))

    pursue_lane-at : (t : WorkerTask) (w : World) → P w → IsFile t w → P (pursue_lane env t w).1
    unfolding pursue_lane
    pursue_lane-at t w h file =
        opened_then env t _ w (opens.opened_file t w h file)
          (reconcile_envelope-Keeps rules env lane false)

    idle_files :
        (w : World) → All IsIdle w.tasks → P w → P ((list_tasks env >>= process_all env) w).1
    unfolding ◌>>=◌
    idle_files w idle h =
        let same = (list_tasks-Keeps {P = λ v. v ≡ w} env).at w refl in
        Keeps-continue P (list_tasks env w).0 _ (list_tasks env w).1 (subst P (sym same) h) λ ts e.
          (process_all-Keeps ts (subst (All IsIdle) (sym (list_tasks-same env w e)) idle)).at _
            (subst P (sym same) h)

    tick_free-at : (w : World) → All IsIdle w.tasks → P w → P (tick_free env w).1
    unfolding tick_free ◌>>=◌ when pure
    tick_free-at w idle h =
        let idle' = (read_state-Keeps {P = λ v. All IsIdle v.tasks}).at w idle in
        let kept = (read_state-Keeps {P = P}).at w h in
        Keeps-continue P (read_state w).0 _ (read_state w).1 kept λ state e.
          elim (Bool-cases (not (has_attention state))) [
            | inl on ↦ rw on (idle_files (read_state w).1 idle' kept)
            | inr off ↦ rw off kept
          ]

    pub tick-Keeps : Keeps P (tick env)
    unfolding tick
    tick-Keeps = Keeps-lane (tick_free env) (pursue_lane env) tick_free-at pursue_lane-at

    advance_free-Keeps : (id : String) → Keeps P (advance_free env id)
    unfolding advance_free
    advance_free-Keeps id =
        Keeps-open_read id _
          λ t. Keeps-bind _ _ (process_task-Keeps rules env lane) (λ _. Keeps-pure tt)

    advance_owner-at :
        (id : String) (t : WorkerTask) (w : World)
        → P w
        → IsFile t w
        → P (advance_owner env id t w).1
    unfolding advance_owner ◌>>=◌ require pure throw
    advance_owner-at id t w h file = elim (Bool-cases (str_eq t.task_id id)) [
      | inl same ↦ rw same (pursue_lane-at t w h file)
      | inr other ↦ rw other h
    ]

    pub advance_task-Keeps : (id : String) → Keeps P (advance_task env id)
    unfolding advance_task
    advance_task-Keeps id =
        Keeps-lane (advance_free env id) (advance_owner env id)
          (λ w _ h. (advance_free-Keeps id).at w h) (advance_owner-at id)

    resume_event-Keeps : (at : ℕ) (r : EvidenceRef) → Keeps P (resume_event env at r)
    unfolding resume_event
    resume_event-Keeps at r = search semantic_rules depth 15

    resume_submission-Keeps : (at : ℕ) (l : LogicalTask) → Keeps P (resume_submission env at l)
    unfolding resume_submission
    resume_submission-Keeps at l = search semantic_rules depth 15

    resume-Keeps : (id : String) → Keeps P (resume env id)
    unfolding resume
    resume-Keeps id =
        Keeps-open_read id _
          λ t. search (semantic_rules, resume_submission-Keeps, resume_event-Keeps) depth 15

    resume_broadcast-Keeps : (id : String) → Keeps P (resume_broadcast env id)
    unfolding resume_broadcast
    resume_broadcast-Keeps id =
        Keeps-open_read id _ λ t. search (semantic_rules, reconcile_envelope-Keeps) depth 15

    startup_checks-Keeps : Keeps P (startup_checks env)
    unfolding startup_checks
    startup_checks-Keeps =
        search
          (
            semantic_rules, read_state-Keeps, write_state-Keeps, assert_established-Keeps,
            unresolved_lane-Keeps,
          )
          depth 20

    pub perform-Keeps : (c : Command) → Keeps P (perform env c)
    unfolding perform
    perform-Keeps start = startup_checks-Keeps
    perform-Keeps step = Keeps-bind _ _ opens.scanned (λ _. tick-Keeps)
    perform-Keeps (advance id) = advance_task-Keeps id
    perform-Keeps (resumes id) = resume-Keeps id
    perform-Keeps (rebroadcast id) = resume_broadcast-Keeps id

    -- What a world has before the commands it has after them.
    pub run-keeps : (commands : List Command) (w : World) → P w → P (run env w commands)
    unfolding run
    run-keeps [] w h = h
    run-keeps (c ∷ commands) w h = run-keeps commands (perform env c w).1 ((perform-Keeps c).at w h)
