-- ===== src/Engine/Lane/Claims.antt =====
-- The lane where `persistSignedEnvelope` of worker/engine.ts claims it.
use cr3d_x.Base.{ℕ, List, [], ◌∷◌, String, ◌≡◌, refl, sym, subst, Option, none, some, All}
use cr3d_x.Types.{WorkerState, WorkerTask, InFlightPurpose, InFlightEnvelope}
use cr3d_x.Types.Port.{TransactionRequest, Result, ok, Env}
use cr3d_x.Policy.{is_some, PolicyVerdict, allowed, refused}
use cr3d_x.Exec.{World, ◌>>=◌, call, require}
use cr3d_x.Exec.Keeps.{Keeps, Keeps-continue, keeps_rules}
use cr3d_x.State.{save_state, write_state, unresolved_lane}
use cr3d_x.State.Directory.{Distinct, IsIdle, Owns}
use cr3d_x.State.Reading.{
  read_state-Keeps, list_tasks-Keeps, unresolved_lane-Keeps, unresolved_lane-none,
}
use cr3d_x.Engine.Marks.{global_attention, now}
use cr3d_x.Engine.Claim.{put_envelope, sign, permit, admit, seal, claim_behind, claim_lane}
use cr3d_x.Engine.Invariants.Marks.{expected_next_nonce-Keeps}
use cr3d_x.Engine.Lane.{HasLane}

-- No file holds an envelope.
record IsFree (w : World) : Type 0 where
  idle : All IsIdle w.tasks
  distinct : Distinct w.tasks

Owns_of_idle : (owner : String) (ts : List WorkerTask) → All IsIdle ts → All (Owns owner) ts
Owns_of_idle owner [] h = tt
Owns_of_idle owner (t ∷ ts) h = (λ e. cc (h.0), Owns_of_idle owner ts h.1)

-- Then the running method may hold one.
HasLane-of_free : (w : World) → IsFree w → HasLane w
HasLane-of_free w f = (
  w.task.task_id,
  record {
    held = λ e. refl;
    stored = Owns_of_idle w.task.task_id w.tasks f.idle;
    distinct = f.distinct;
  },
)

IsFree-call : {A : Type 0} (f : ℕ → Result A) → Keeps IsFree (call f)
unfolding call
IsFree-call f = record { at = λ w h. record { idle = h.idle; distinct = h.distinct } }

IsFree-save_state : (state : WorkerState) → Keeps IsFree (save_state state)
unfolding save_state
IsFree-save_state state = record { at = λ w h. record { idle = h.idle; distinct = h.distinct } }

IsFree-put_envelope : (envelope : InFlightEnvelope) → Keeps IsFree (put_envelope envelope)
unfolding put_envelope
IsFree-put_envelope envelope = record {
  at = λ w h. record { idle = h.idle; distinct = h.distinct };
}

IsFree-global_attention : (reason : String) → Keeps IsFree (global_attention reason)
unfolding global_attention write_state
IsFree-global_attention reason = search (keeps_rules, read_state-Keeps, IsFree-save_state) depth 12

module _ (env : Env) where
  IsFree-sign : (request : TransactionRequest) → Keeps IsFree (sign env request)
  unfolding sign
  IsFree-sign request = record { at = λ w h. record { idle = h.idle; distinct = h.distinct } }

  IsFree-permit : (verdict : PolicyVerdict) → Keeps IsFree (permit env verdict)
  unfolding permit
  IsFree-permit (allowed liability) = search keeps_rules
  IsFree-permit (refused message) = search keeps_rules

  IsFree-seal :
      (purpose : InFlightPurpose) (request : TransactionRequest) (nonce : ℕ)
      → Keeps IsFree (seal env purpose request nonce)
  unfolding seal admit now
  IsFree-seal purpose request nonce =
      search
        (
          keeps_rules, IsFree-call, IsFree-sign, IsFree-permit, IsFree-put_envelope,
          list_tasks-Keeps,
        )
        depth 20

  IsFree-claim :
      (purpose : InFlightPurpose) (request : TransactionRequest) (lane : Option WorkerTask)
      → Keeps IsFree (claim_behind env purpose request lane)
  unfolding claim_behind
  IsFree-claim purpose request lane =
      search
        (keeps_rules, IsFree-call, IsFree-seal, IsFree-global_attention, expected_next_nonce-Keeps)
        depth 20

  HasLane-claim :
      (purpose : InFlightPurpose) (request : TransactionRequest) (lane : Option WorkerTask)
      (w v : World)
      → (unresolved_lane env w).0 ≡ ok lane
      → v ≡ w
      → HasLane w
      → HasLane (claim_behind env purpose request lane v).1
  unfolding claim_behind ◌>>=◌ require is_some
  HasLane-claim purpose request (some t) w v e same h = subst HasLane (sym same) h
  HasLane-claim purpose request none w v e same h = HasLane-of_free _ (
      (IsFree-claim purpose request none).at v (
        subst IsFree (sym same)
          (record { idle = unresolved_lane-none env w e; distinct = h.1.distinct })))

  -- Claiming the lane keeps that it has one owner at most.
  pub HasLane-claim_lane :
      (purpose : InFlightPurpose) (request : TransactionRequest)
      → Keeps HasLane (claim_lane env purpose request)
  unfolding claim_lane ◌>>=◌
  HasLane-claim_lane purpose request = record {
    at = λ w h.
        let same = (unresolved_lane-Keeps {P = λ v. v ≡ w} env).at w refl in
        Keeps-continue HasLane (unresolved_lane env w).0 _ (unresolved_lane env w).1
          ((unresolved_lane-Keeps {P = HasLane} env).at w h)
          (λ lane e. HasLane-claim purpose request lane w (unresolved_lane env w).1 e same h);
  }
