-- ===== src/Engine/Limits.antt =====
-- The limits that `ingestReceipt` of worker/engine.ts puts on what it admits.
use cr3d_x.Base.{
  ℕ, str_eq, ◌≡◌, refl, ◌≤◌, ◌<◌, Bool, true, false, ◌||◌, Option, List, [], subst, ◌⊎◌, inl, inr,
  arith, length, keep_if, find, ltb, if◌then◌else◌,
}
use cr3d_x.Types.{WorkerTask, DecodedGatewayEvent}
use cr3d_x.Types.Port.{RawSourceReceipt, ok, Env}
use cr3d_x.Policy.{is_some, is_non_terminal_task}
use cr3d_x.Exec.{World, pure}
use cr3d_x.Exec.Triples.{Ensures, Ensures-bind, Ensures-given, Ensures-pure, Ensures-require}
use cr3d_x.State.{task_id_of, list_tasks}
use cr3d_x.Engine.Admission.{admit_enrolled}
use cr3d_x.State.Values.{HasFiles, files_self, list_tasks-Ensures}

module _ (env : Env) where
  -- The file of the receipt's transaction, where there is one.
  abbrev pub file_in : RawSourceReceipt → List WorkerTask → Option WorkerTask
  file_in receipt tasks =
      find
        (λ t.
          str_eq t.task_id
            (task_id_of env.sha256 env.config.source_chain_id receipt.transaction_hash))
        tasks

  -- The events fit in one task, and there is a task already or room for one more.
  pub record IsWithinTaskLimits (receipt : RawSourceReceipt) (events : List DecodedGatewayEvent)
      (w : World) : Type 0 where
    pub few_events : length events ≤ env.config.limits.max_events_per_transaction
    pub has_room :
        (is_some (file_in receipt w.tasks) ≡ true)
        ⊎ (length (keep_if is_non_terminal_task w.tasks) < env.config.limits.max_non_terminal_tasks)

  again-Ensures :
      (w : World) (known : Bool)
      → Ensures
          (HasFiles w)
          (if known then pure [] else list_tasks env)
          (λ again v. HasFiles w v × (known ≡ false → again ≡ w.tasks))
  again-Ensures w true = Ensures-pure [] λ v h. (h, λ e. cc)
  again-Ensures w false = record {
    at = λ v h again e.
        let (kept, same) = (list_tasks-Ensures env w).at v h again e in (kept, λ _. same);
  }

  room :
      (known : Bool) (tasks again : List WorkerTask) (limit : ℕ)
      → (known ≡ false → again ≡ tasks)
      → known || ltb (length (keep_if is_non_terminal_task again)) limit ≡ true
      → (known ≡ true) ⊎ (length (keep_if is_non_terminal_task tasks) < limit)
  room true tasks again limit same e = inl refl
  room false tasks again limit same e =
      inr
        (subst (λ ts. length (keep_if is_non_terminal_task ts) < limit) (same refl) (ground arith))

  limits_kept :
      (receipt : RawSourceReceipt) (events : List DecodedGatewayEvent) (w : World)
      (tasks again : List WorkerTask)
      → length events ≤ env.config.limits.max_events_per_transaction
      → tasks ≡ w.tasks
      → (is_some (file_in receipt tasks) ≡ false → again ≡ w.tasks)
      → is_some (file_in receipt tasks)
          || ltb
              (length (keep_if is_non_terminal_task again))
              env.config.limits.max_non_terminal_tasks
        ≡ true
      → IsWithinTaskLimits receipt events w
  limits_kept receipt events w tasks again few same listed free = record {
    few_events = few;
    has_room =
        subst
          (λ ts.
            (is_some (file_in receipt ts) ≡ true)
            ⊎ (length (keep_if is_non_terminal_task w.tasks)
                < env.config.limits.max_non_terminal_tasks))
          same (room _ w.tasks again _ listed free);
  }

  admit_enrolled-Ensures :
      (w : World) (reorg : Bool) (receipt : RawSourceReceipt) (events : List DecodedGatewayEvent)
      (mixed : Bool)
      → Ensures
          (HasFiles w)
          (admit_enrolled env reorg receipt events mixed)
          (λ _ _. IsWithinTaskLimits receipt events w)
  unfolding admit_enrolled
  admit_enrolled-Ensures w reorg receipt events mixed = Ensures-bind _ _ (Ensures-require _ _) λ _.
      Ensures-given _ λ few. Ensures-bind _ _ (list_tasks-Ensures env w) λ tasks.
        Ensures-given _ λ same. Ensures-bind _ _ (again-Ensures w _) λ again.
          Ensures-given _ λ listed. Ensures-bind _ _ (Ensures-require _ _) λ _.
            Ensures-given _ λ free. record {
              at = λ v h b e.
                  limits_kept receipt events w tasks again (ground arith) same listed free;
            }

  -- A receipt with enrolled events that is admitted has no more events than a task may have, and belongs to a
  -- known task, or there were fewer unfinished tasks than the limit.
  pub admit_enrolled-IsWithinTaskLimits :
      (reorg : Bool) (receipt : RawSourceReceipt) (events : List DecodedGatewayEvent) (mixed : Bool)
      (w : World) {accepted : Bool}
      → (admit_enrolled env reorg receipt events mixed w).0 ≡ ok accepted
      → IsWithinTaskLimits receipt events w
  admit_enrolled-IsWithinTaskLimits reorg receipt events mixed w e =
      (admit_enrolled-Ensures w reorg receipt events mixed).at w (files_self w) _ e
