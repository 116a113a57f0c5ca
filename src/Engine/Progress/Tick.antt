-- ===== src/Engine/Progress/Tick.antt =====
-- `reconcileEnvelope` and `tick` of worker/engine.ts once the transaction in flight is confirmed.
use mathlib.Core.Bool.{false≢true}
use cr3d_x.Base.{
  ℕ, ◌+◌, ◌≤◌, String, ◌≡◌, refl, sym, subst, ◌∙◌, Bool, true, false, Option, some, List, [], ◌∷◌,
  arith, All, leb, keep_if, Bool-cases, inl, inr, is_lower_hex_run,
}
use cr3d_x.Types.{Hex, worker_schema_version, WorkerTask, InFlightEnvelope, InFlightReceipt}
use cr3d_x.Types.Port.{DestinationReceipt, ok, Env}
use cr3d_x.Policy.{is_some}
use cr3d_x.Exec.{World, ◌>>=◌, note_receipt, get_envelope, on_option, when, open_task}
use cr3d_x.Exec.Keeps.{Keeps, IsCallProof, keeps_rules}
use cr3d_x.Exec.Returning.{
  Returns, Reaches, Reaches-bind, Reaches-kept, Reaches-given, Reaches-pure, Reaches-read,
  Reaches-call, Returns-keeps,
}
use cr3d_x.State.{write_task, touch_task, save_task, unresolved_lane}
use cr3d_x.State.Directory.{IsIdle, Owns}
use cr3d_x.State.Reading.{
  assert_established-Keeps, check_task_path-Keeps, unresolved_lane-Keeps, unresolved_lane-owner,
}
use cr3d_x.Engine.Objects.{EvidenceRef}
use cr3d_x.Engine.Confirm.{finalize_envelope}
use cr3d_x.Engine.Envelope.{is_canonical, settle, reconcile_envelope}
use cr3d_x.Engine.Commands.{pursue_lane, tick}
use cr3d_x.Engine.Invariants.Marks.{write_task-Keeps}
use cr3d_x.Engine.Progress.Presence.{has_event}
use cr3d_x.Engine.Progress.Steady.{
  IsSteady, IsSteady-calls, note_receipt-Returns, write_task-Returns,
}
use cr3d_x.Engine.Progress.Semantic.{Answers}
use cr3d_x.Engine.Progress.Release.{
  OwnedBy, OwnedBy-Rules, IsFreed, IsHolding, finalize_envelope-frees,
}

-- Whenever the destination chain is asked, the envelope's transaction has this receipt, on a block of the
-- canonical chain that is two blocks deep.
pub record IsMined (env : Env) (envelope : InFlightEnvelope) (receipt : DestinationReceipt)
    : Type 0 where
  pub found :
      (n : ℕ) → env.chain.destination_receipt n envelope.transaction_hash ≡ ok (some receipt)
  pub canonical :
      (n : ℕ)
      → (hash : Option Hex) × (env.chain.canonical_destination_block_hash n receipt.block_number
          ≡ ok hash)
        × (is_canonical hash receipt.block_hash ≡ true)
  pub deep :
      (n : ℕ)
      → (head : ℕ) × (env.chain.destination_head n ≡ ok head) × (receipt.block_number + 2 ≤ head)

-- The running task is the one owner of the lane, and the directory is in order.
abbrev IsReady : (EvidenceRef → Bool) → String → World → Type 0
IsReady s owner w = (IsSteady s w × IsHolding w) × OwnedBy owner w

IsHolding-touch_task : (at : ℕ) → Keeps IsHolding (touch_task at)
unfolding touch_task
IsHolding-touch_task at = record { at = λ w h. h }

IsHolding-save_task : Keeps IsHolding save_task
unfolding save_task
IsHolding-save_task = record { at = λ w h. h }

IsHolding-calls : IsCallProof IsHolding
IsHolding-calls = record { at = λ w h. h }

IsHolding-note_receipt : (r : Option InFlightReceipt) → Keeps IsHolding (note_receipt r)
unfolding note_receipt is_some
IsHolding-note_receipt r = record { at = λ w h. ground (arith, h) }

IsHolding-write_task : (env : Env) → Keeps IsHolding (write_task env)
unfolding write_task
IsHolding-write_task env =
    search
      (
        keeps_rules, IsHolding-calls, IsHolding-touch_task, IsHolding-save_task,
        assert_established-Keeps, check_task_path-Keeps,
      )
      depth 15

module _ (s : EvidenceRef → Bool) (owner : String) where
  IsReady-calls : IsCallProof (IsReady s owner)
  IsReady-calls = record {
    at = λ w h. ((IsSteady-calls.at w h.0.0, h.0.1), (OwnedBy-Rules owner).calls.at w h.1);
  }

  IsReady-note_receipt : (r : Option InFlightReceipt) → Returns (IsReady s owner) (note_receipt r)
  IsReady-note_receipt r =
      Returns-keeps (Returns-keeps (note_receipt-Returns r) (IsHolding-note_receipt r))
        ((OwnedBy-Rules owner).receipt r)

  IsReady-write_task : (env : Env) → Returns (IsReady s owner) (write_task env)
  IsReady-write_task env =
      let rules = OwnedBy-Rules owner in
      Returns-keeps (Returns-keeps (write_task-Returns env) (IsHolding-write_task env))
        (write_task-Keeps rules env)

  module _ {env : Env} (answers : Answers env) (envelope : InFlightEnvelope)
      (receipt : DestinationReceipt) (mined : IsMined env envelope receipt) where
    settle-frees :
        Reaches
          (IsReady s owner)
          (settle env (some receipt) envelope)
          (λ settled w. (settled ≡ true) × IsFreed w)
    unfolding settle when
    settle-frees = Reaches-call (IsReady-calls) _ _ mined.canonical λ hash same. rw same (
        Reaches-bind _ _ (Reaches-kept (IsReady-note_receipt _)) λ _.
          Reaches-bind _ _ (Reaches-kept (IsReady-write_task env)) λ _.
            Reaches-call IsReady-calls _ _ mined.deep λ head deep.
              Reaches-bind _ _ (finalize_when head deep) λ _. Reaches-pure true (λ w h. (refl, h)))
      where
        finalize_when :
            (head : ℕ)
            → receipt.block_number + 2 ≤ head
            → Reaches
                (IsReady s owner)
                (when (leb (receipt.block_number + 2) head) (finalize_envelope env receipt))
                (λ _. IsFreed)
        finalize_when head deep =
            let here : leb (receipt.block_number + 2) head ≡ true = ground (arith, deep) in
            rw here (finalize_envelope-frees s answers owner receipt)

    reconcile_envelope-frees :
        (b : Bool)
        → Reaches
            (λ w. IsReady s owner w × (w.task.in_flight ≡ some envelope))
            (reconcile_envelope env b)
            (λ _. IsFreed)
    unfolding reconcile_envelope get_envelope on_option when
    reconcile_envelope-frees b =
        Reaches-read _ _ (some envelope) (λ w h. (h.1, h.0))
          (Reaches-call IsReady-calls _ _ (λ n. (some receipt, mined.found n, refl))
            λ answer e.
              Reaches-bind _ _
                (subst
                  (λ o.
                    Reaches (IsReady s owner) (settle env o envelope)
                      (λ settled w. (settled ≡ true) × IsFreed w))
                  (sym e) settle-frees)
                λ settled. Reaches-given λ done. rw done (Reaches-pure tt (λ w h. h)))

-- The directory is established and of the current schema, and the owner's file has a task's name.
pub record IsInOrder (owner : WorkerTask) (w : World) : Type 0 where
  pub established : w.established ≡ true
  pub state_schema : w.state.schema_version ≡ worker_schema_version
  pub task_schema : owner.schema_version ≡ worker_schema_version
  pub named : is_lower_hex_run 64 owner.task_id ≡ true

Owns_of_keep_if :
    (owner : String) (ts : List WorkerTask)
    → All (λ t. t.task_id ≡ owner) (keep_if (λ t. is_some t.in_flight) ts)
    → All (Owns owner) ts
Owns_of_keep_if owner [] h = tt
Owns_of_keep_if owner (t ∷ ts) h = elim (Bool-cases (is_some t.in_flight)) [
  | inl held ↦ let all = rw held at h in (λ _. all.0, Owns_of_keep_if owner ts all.1)
  | inr idle ↦
      let all = rw idle at h in
      (λ e. absurd (false≢true (sym idle ∙ e)), Owns_of_keep_if owner ts all)
]

opened-IsSteady :
    (w : World) (owner : WorkerTask)
    → IsInOrder owner w
    → IsSteady (λ r. has_event r owner.logical) (record w { task = owner })
opened-IsSteady w owner order = record {
  established = order.established;
  state_schema = order.state_schema;
  task_schema = order.task_schema;
  named = order.named;
  present = λ r. refl;
}

module _ (env : Env) where
  owned_by :
      (w : World) (owner : WorkerTask)
      → (unresolved_lane env w).0 ≡ ok (some owner)
      → OwnedBy owner.task_id (record w { task = owner })
  owned_by w owner lane = record {
    running = refl;
    stored = Owns_of_keep_if owner.task_id w.tasks (
        subst (λ us. All (λ u. u.task_id ≡ owner.task_id) us)
          (sym (unresolved_lane-owner env w lane)) (refl, tt));
  }

module _ {env : Env} (answers : Answers env) where
  -- Once the transaction in flight is confirmed, a tick returns, and no file holds an envelope after it.
  pub tick-releases :
      (w : World) (owner : WorkerTask) (envelope : InFlightEnvelope) (receipt : DestinationReceipt)
      → (unresolved_lane env w).0 ≡ ok (some owner)
      → owner.in_flight ≡ some envelope
      → IsInOrder owner w
      → IsMined env envelope receipt
      → ((tick env w).0 ≡ ok tt) × All IsIdle (tick env w).1.tasks
  unfolding tick pursue_lane open_task ◌>>=◌ on_option is_some
  tick-releases w owner envelope receipt lane held order mined =
      let same = (unresolved_lane-Keeps {P = λ v. v ≡ w} env).at w refl in
      let s : EvidenceRef → Bool = λ r. has_event r owner.logical in
      let opened = record w { task = owner } in
      let (a, e, freed) =
        (reconcile_envelope-frees s owner.task_id answers envelope receipt mined false).at opened
          (((opened-IsSteady w owner order, rw held refl), owned_by env w owner lane), held) in
      rw lane (rw same (e, freed.idle))
