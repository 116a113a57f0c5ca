-- ===== src/Engine/Invariants/Scan.antt =====
-- `scanOnce` of worker/engine.ts keeps what survives the rules, where the tasks that it opens are ones
-- that the store holds, or new ones without an envelope.
use cr3d_x.Base.{
  ℕ, String, ◌≡◌, refl, sym, subst, Bool, true, false, Option, none, some, List, [], ◌∷◌, All, find,
}
use cr3d_x.Types.{Hex, DecodedGatewayEvent, InclusionSnapshot, WorkerTask}
use cr3d_x.Types.Port.{CandidateLogRef, RawSourceReceipt, Env}
use cr3d_x.Policy.{is_some}
use cr3d_x.Exec.{World, Exec, ◌>>=◌, open_task, for_each, on_option}
use cr3d_x.Exec.Keeps.{Keeps, Keeps-bind, Keeps-pure, Keeps-continue, Keeps-if, Keeps-when}
use cr3d_x.State.{read_task, list_tasks}
use cr3d_x.State.Directory.{IsIdle, All-find}
use cr3d_x.State.Reading.{
  read_state-Keeps, read_task-Keeps, list_tasks-Keeps, list_tasks-same, read_task-some,
}
use cr3d_x.Engine.Candidates.{by_transaction}
use cr3d_x.Engine.Invariants.Marks.{write_state-Keeps}
use cr3d_x.Engine.Admission.{
  new_evidence_record, new_task, admit_new, re_include, may_re_include, admit_existing,
  admit_enrolled, ingest_receipt,
}
use cr3d_x.Engine.Sources.{
  source_removed, readmit, readmission_failed, source_receipt_changed, reconcile_source_of,
  reconcile_source_canonicality,
}
use cr3d_x.Engine.Scan.{
  contradicted, admission_failed, scan_group, scan_groups, move_cursor, scan_windows, scan_once,
}
use cr3d_x.Engine.Invariants.{Rules}
use cr3d_x.Engine.Invariants.Semantic.{semantic_rules}

-- The tasks that a method may go on with, and that the store holds.
pub record StoreRules (P : World → Type 0) (Good : WorkerTask → Type 0) : Type 0 where
  pub opened : (t : WorkerTask) → Good t → Keeps P (open_task t)
  pub stored : (w : World) → P w → All Good w.tasks
  pub idle : (t : WorkerTask) → IsIdle t → Good t

module _ {P : World → Type 0} {Good : WorkerTask → Type 0} (store : StoreRules P Good)
    (env : Env) where
  Keeps-list_tasks :
      {A : Type 0} (f : List WorkerTask → Exec A)
      → ((ts : List WorkerTask) → All Good ts → Keeps P (f ts))
      → Keeps P (list_tasks env >>= f)
  unfolding ◌>>=◌
  Keeps-list_tasks f kf = record {
    at = λ w h.
        let kept = (list_tasks-Keeps {P = P} env).at w h in
        Keeps-continue P (list_tasks env w).0 f (list_tasks env w).1 kept λ ts e.
          (kf ts (subst (All Good) (sym (list_tasks-same env w e)) (store.stored w h))).at _ kept;
  }

  Keeps-read_task :
      {A : Type 0} (id : String) (f : WorkerTask → Exec A)
      → ((t : WorkerTask) → Good t → Keeps P (f t))
      → Keeps P (read_task env id >>= f)
  unfolding ◌>>=◌
  Keeps-read_task id f kf = record {
    at = λ w h.
        let kept = (read_task-Keeps {P = P} env id).at w h in
        Keeps-continue P (read_task env id w).0 f (read_task env id w).1 kept
          λ t e. (kf t (read_task-some env Good id w e (store.stored w h))).at _ kept;
  }

  Keeps-on_find :
      {A : Type 0} (test : WorkerTask → Bool) (ts : List WorkerTask) (m : Exec A)
      (f : WorkerTask → Exec A)
      → All Good ts
      → Keeps P m
      → ((t : WorkerTask) → Good t → Keeps P (f t))
      → Keeps P (on_option (find test ts) m f)
  unfolding on_option
  Keeps-on_find test ts m f good km kf =
      on_found (find test ts) (λ t e. All-find Good test ts t good e)
    where
      on_found :
          (o : Option WorkerTask)
          → ((t : WorkerTask) → o ≡ some t → Good t)
          → Keeps P (on_option o m f)
      on_found none g = km
      on_found (some t) g = kf t (g t refl)

  Keeps-for_each-All :
      (f : WorkerTask → Exec Unit) (ts : List WorkerTask)
      → ((t : WorkerTask) → Good t → Keeps P (f t))
      → All Good ts
      → Keeps P (for_each f ts)
  unfolding for_each
  Keeps-for_each-All f [] kf good = Keeps-pure tt
  Keeps-for_each-All f (t ∷ ts) kf good =
      Keeps-bind (f t) _ (kf t good.0) (λ _. Keeps-for_each-All f ts kf good.1)

  open_task-Keeps : (t : WorkerTask) → Good t → Keeps P (open_task t)
  open_task-Keeps t good = store.opened t good

  module _ (rules : Rules P) where
    new_evidence_record-Keeps :
        (event : DecodedGatewayEvent) → Keeps P (new_evidence_record env event)
    unfolding new_evidence_record
    new_evidence_record-Keeps event = search semantic_rules depth 12

    new_task-Good :
        (id : String) (receipt : RawSourceReceipt) (inclusion : InclusionSnapshot) (mixed : Bool)
        (at later : ℕ)
        → Good (new_task env id receipt inclusion mixed at later)
    unfolding new_task is_some
    new_task-Good id receipt inclusion mixed at later =
        store.idle (new_task env id receipt inclusion mixed at later) refl

    admit_new-Keeps :
        (id : String) (receipt : RawSourceReceipt) (inclusion : InclusionSnapshot) (mixed : Bool)
        (at : ℕ)
        → Keeps P (admit_new env id receipt inclusion mixed at)
    unfolding admit_new
    admit_new-Keeps id receipt inclusion mixed at =
        search (semantic_rules, open_task-Keeps, new_task-Good) depth 12

    re_include-Keeps :
        (inclusion : InclusionSnapshot) (mixed : Bool) (at : ℕ) (attention : Option String)
        → Keeps P (re_include env inclusion mixed at attention)
    unfolding re_include
    re_include-Keeps inclusion mixed at attention = search semantic_rules depth 12

    may_re_include-Keeps : (reorg : Bool) (ids : List Hex) → Keeps P (may_re_include env reorg ids)
    unfolding may_re_include
    may_re_include-Keeps true ids = search semantic_rules
    may_re_include-Keeps false ids = search semantic_rules depth 12

    admit_existing-Keeps :
        (reorg : Bool) (task : WorkerTask) (receipt : RawSourceReceipt)
        (inclusion : InclusionSnapshot) (mixed : Bool) (at : ℕ)
        → Good task
        → Keeps P (admit_existing env reorg task receipt inclusion mixed at)
    unfolding admit_existing
    admit_existing-Keeps reorg task receipt inclusion mixed at good =
        search (semantic_rules, open_task-Keeps, may_re_include-Keeps, re_include-Keeps) depth 15

    admit_enrolled-Keeps :
        (reorg : Bool) (receipt : RawSourceReceipt) (events : List DecodedGatewayEvent)
        (mixed : Bool)
        → Keeps P (admit_enrolled env reorg receipt events mixed)
    unfolding admit_enrolled
    admit_enrolled-Keeps reorg receipt events mixed = Keeps-bind _ _ (search semantic_rules) λ _.
        Keeps-list_tasks _ λ ts good.
          Keeps-bind _ _ (search (semantic_rules, list_tasks-Keeps) depth 5) λ again.
            Keeps-bind _ _ (search semantic_rules) λ _.
              Keeps-bind _ _ (search (semantic_rules, new_evidence_record-Keeps) depth 5) λ records.
                Keeps-bind _ _ (search semantic_rules) λ at.
                  Keeps-on_find _ ts _ _ good (admit_new-Keeps _ receipt _ mixed at)
                    λ task owned. admit_existing-Keeps reorg task receipt _ mixed at owned

    ingest_receipt-Keeps :
        (receipt : RawSourceReceipt) (reorg : Bool) → Keeps P (ingest_receipt env receipt reorg)
    unfolding ingest_receipt
    ingest_receipt-Keeps receipt reorg = search (semantic_rules, admit_enrolled-Keeps) depth 15

    source_removed-Keeps :
        (task : WorkerTask) (current : InclusionSnapshot)
        → Keeps P (source_removed env task current)
    unfolding source_removed
    source_removed-Keeps task current = search semantic_rules depth 15

    readmit-Keeps :
        (id : String) (old_seen : Bool) (receipt : RawSourceReceipt)
        → Keeps P (readmit env id old_seen receipt)
    unfolding readmit
    readmit-Keeps id old_seen receipt =
        search (semantic_rules, ingest_receipt-Keeps, Keeps-read_task, open_task-Keeps) depth 15

    readmission_failed-Keeps : (id message : String) → Keeps P (readmission_failed env id message)
    unfolding readmission_failed
    readmission_failed-Keeps id message =
        Keeps-read_task id _ λ t good. search (semantic_rules, open_task-Keeps) depth 15

    source_receipt_changed-Keeps :
        (task : WorkerTask) (current : InclusionSnapshot) (found : Option RawSourceReceipt)
        → Keeps P (source_receipt_changed env task current found)
    unfolding source_receipt_changed
    source_receipt_changed-Keeps task current none = source_removed-Keeps task current
    source_receipt_changed-Keeps task current (some receipt) =
        search (semantic_rules, readmit-Keeps, readmission_failed-Keeps) depth 15

    reconcile_source_of-Keeps : (t : WorkerTask) → Good t → Keeps P (reconcile_source_of env t)
    unfolding reconcile_source_of
    reconcile_source_of-Keeps t good =
        search (semantic_rules, open_task-Keeps, source_receipt_changed-Keeps) depth 15

    reconcile_source_canonicality-Keeps : Keeps P (reconcile_source_canonicality env)
    unfolding reconcile_source_canonicality
    reconcile_source_canonicality-Keeps =
        Keeps-list_tasks _ λ ts good. Keeps-for_each-All _ ts reconcile_source_of-Keeps good

    contradicted-Keeps : (hash : Hex) → Keeps P (contradicted env hash)
    unfolding contradicted
    contradicted-Keeps hash = search semantic_rules depth 12

    admission_failed-Keeps : (message : String) → Keeps P (admission_failed env message)
    unfolding admission_failed
    admission_failed-Keeps message = search semantic_rules depth 12

    scan_group-Keeps : (refs : List CandidateLogRef) → Keeps P (scan_group env refs)
    unfolding scan_group
    scan_group-Keeps [] = search semantic_rules
    scan_group-Keeps (ref ∷ refs) =
        search (semantic_rules, contradicted-Keeps, admission_failed-Keeps, ingest_receipt-Keeps)
          depth 15

    scan_groups-Keeps :
        (groups : List (String × List CandidateLogRef)) → Keeps P (scan_groups env groups)
    unfolding scan_groups
    scan_groups-Keeps [] = search semantic_rules
    scan_groups-Keeps ((key, refs) ∷ groups) =
        Keeps-bind _ _ (scan_group-Keeps refs)
          λ accepted. Keeps-if accepted _ _ (scan_groups-Keeps groups) (Keeps-pure false)

    move_cursor-Keeps : (to : ℕ) → Keeps P (move_cursor env to)
    unfolding move_cursor
    move_cursor-Keeps to = search (semantic_rules, read_state-Keeps, write_state-Keeps) depth 12

    scan_windows-Keeps : (windows : List (ℕ × ℕ)) → Keeps P (scan_windows env windows)
    unfolding scan_windows
    scan_windows-Keeps [] = search semantic_rules
    scan_windows-Keeps ((from, to) ∷ rest) = Keeps-bind _ _ (search semantic_rules) λ candidates.
        Keeps-bind _ _ (scan_groups-Keeps (by_transaction candidates)) λ accepted.
          Keeps-when accepted _
            (Keeps-bind _ _ (move_cursor-Keeps to) (λ _. scan_windows-Keeps rest))

    pub scan_once-Keeps : Keeps P (scan_once env)
    unfolding scan_once
    scan_once-Keeps =
        search
          (
            semantic_rules, read_state-Keeps, reconcile_source_canonicality-Keeps,
            scan_windows-Keeps,
          )
          depth 15
