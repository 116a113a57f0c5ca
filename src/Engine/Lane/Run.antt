-- ===== src/Engine/Lane/Run.antt =====
-- The lane over whole runs of worker/cli.ts.
use cr3d_x.Base.{
  String, ◌≡◌, ◌≢◌, ◌≤◌, refl, subst, inl, inr, Bool-cases, List, [], ◌∷◌, arith, All, length,
  keep_if,
}
use cr3d_x.Types.{WorkerTask}
use cr3d_x.Types.Port.{Env}
use cr3d_x.Policy.{is_some}
use cr3d_x.Exec.{World}
use cr3d_x.State.Directory.{Distinct, IsIdle, Owns}
use cr3d_x.Engine.Commands.{Command, run}
use cr3d_x.Engine.Invariants.{LaneRules}
use cr3d_x.Engine.Invariants.Scan.{StoreRules, scan_once-Keeps}
use cr3d_x.Engine.Invariants.Commands.{OpenRules, run-keeps}
use cr3d_x.Engine.Lane.{
  HeldBy, HasLane, HeldBy-Rules, HeldBy-open_task, HasLane-Keeps, HasLane-Rules,
  HasLane-broadcast_exact,
}
use cr3d_x.Engine.Lane.Claims.{HasLane-claim_lane}

pub Owns-idle : (owner : String) (t : WorkerTask) → IsIdle t → Owns owner t
Owns-idle owner t idle e = cc

HeldBy-StoreRules : (owner : String) → StoreRules (HeldBy owner) (Owns owner)
HeldBy-StoreRules owner = record {
  opened = HeldBy-open_task owner;
  stored = λ w h. h.stored;
  idle = Owns-idle owner;
}

-- The files that hold an envelope.
abbrev pub owners : World → List WorkerTask
owners w = keep_if (λ t. is_some t.in_flight) w.tasks

no_owner :
    (owner : String) (ts : List WorkerTask)
    → All (Owns owner) ts
    → All (λ u. u.task_id ≢ owner) ts
    → keep_if (λ t. is_some t.in_flight) ts ≡ []
no_owner owner [] owns other = refl
no_owner owner (t ∷ ts) owns other = ground (arith, no_owner owner ts owns.1 other.1)

pub one_owner :
    (owner : String) (ts : List WorkerTask)
    → All (Owns owner) ts
    → Distinct ts
    → length (keep_if (λ t. is_some t.in_flight) ts) ≤ 1
one_owner owner [] owns distinct = ground arith
one_owner owner (t ∷ ts) owns distinct = elim (Bool-cases (is_some t.in_flight)) [
  | inl held ↦
      let other = subst (λ id. All (λ u. u.task_id ≢ id) ts) (owns.0 held) distinct.0 in
      rw held (rw (no_owner owner ts owns.1 other) (ground arith))
  | inr idle ↦ rw idle (one_owner owner ts owns.1 distinct.1)
]

module _ (env : Env) where
  HasLane-LaneRules : LaneRules env HasLane
  HasLane-LaneRules = record {
    claimed = λ purpose request _. HasLane-claim_lane env purpose request;
    sent = HasLane-broadcast_exact env;
  }

  HasLane-OpenRules : OpenRules env HasLane
  HasLane-OpenRules = record {
    scanned = HasLane-Keeps (λ o. scan_once-Keeps (HeldBy-StoreRules o) env (HeldBy-Rules o));
    opened_idle = λ t idle. HasLane-Keeps (λ o. HeldBy-open_task o t (Owns-idle o t idle));
    opened_file =
        λ t w h file. (h.0, (HeldBy-open_task h.0 t (file (Owns h.0) h.1.stored)).at w h.1);
  }

  -- From a world whose files have different names and at most one of which holds an envelope, no
  -- commands and no answers of the chains lead to two files that hold one.
  pub run-owners :
      (commands : List Command) (w : World) → HasLane w → length (owners (run env w commands)) ≤ 1
  run-owners commands w h =
      let kept = run-keeps env HasLane-OpenRules HasLane-Rules HasLane-LaneRules commands w h in
      one_owner kept.0 _ kept.1.stored kept.1.distinct
