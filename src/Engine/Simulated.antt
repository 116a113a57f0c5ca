-- ===== src/Engine/Simulated.antt =====
-- What worker/engine.ts signs, against the simulations and preparations that the chain answered.
use cr3d_x.Base.{ℕ, Bool, ◌≡◌, refl, List, [], ◌∷◌}
use cr3d_x.Types.{Hex, WorkerState, WorkerTask, InFlightEnvelope, InFlightPurpose}
use cr3d_x.Types.Port.{TransactionRequest, PreparedTransaction, ok, Env}
use cr3d_x.Policy.{PolicyVerdict, allowed, refused}
use cr3d_x.Exec.{
  World, Effect, signed, open_task, modify_logical, note_receipt, release, call, ◌>>=◌,
}
use cr3d_x.Exec.Keeps.{Keeps, Keeps-bind, Keeps-continue, keeps_rules}
use cr3d_x.Exec.Triples.{Ensures, Ensures-bind, Ensures-given, Ensures-any, Ensures-pure}
use cr3d_x.State.{save_state, touch_task, save_task}
use cr3d_x.State.Reading.{unresolved_lane-Keeps, list_tasks-Keeps}
use cr3d_x.Engine.Broadcast.{
  stamp_envelope, send, check_broadcast_hash, send_written, broadcast_exact,
}
use cr3d_x.Engine.Claim.{
  put_envelope, sign, permit, envelope_of, admit, seal, claim_behind, claim_lane,
}
use cr3d_x.Engine.Commands.{Command, run}
use cr3d_x.Engine.Marks.{now}
use cr3d_x.Engine.WriteAhead.{All-Unit}
use cr3d_x.Engine.Invariants.{Rules, LaneRules, IsSimulated}
use cr3d_x.Engine.Invariants.Marks.{expected_next_nonce-Keeps}
use cr3d_x.Engine.Invariants.Semantic.{semantic_rules}
use cr3d_x.Engine.Invariants.Envelope.{the_envelope-Keeps}
use cr3d_x.Engine.Invariants.Scan.{scan_once-Keeps}
use cr3d_x.Engine.Invariants.Commands.{OpenRules, run-keeps}

module _ (env : Env) where
  -- The transaction was prepared for a request that a simulation has accepted.
  abbrev pub IsPrepared : TransactionRequest → Type 0
  IsPrepared transaction =
      (request : TransactionRequest) × (nonce n : ℕ) × (prepared : PreparedTransaction)
      × IsSimulated env request
      × (env.chain.prepare n request nonce ≡ ok prepared)
      × (transaction ≡ prepared.request)

  -- Every transaction that was signed is one of these.
  abbrev pub SignsPrepared : List Effect → Type 0
  SignsPrepared [] = Unit {0}
  SignsPrepared (signed transaction ∷ trace) = IsPrepared transaction × SignsPrepared trace
  SignsPrepared (_ ∷ trace) = SignsPrepared trace

  record IsCareful (w : World) : Type 0 where
    signs : SignsPrepared w.trace

  IsCareful-save_state : (state : WorkerState) → Keeps IsCareful (save_state state)
  unfolding save_state
  IsCareful-save_state state = record { at = λ w h. record { signs = h.signs } }

  IsCareful-Rules : Rules IsCareful
  unfolding modify_logical note_receipt release touch_task save_task
  IsCareful-Rules = record {
    calls = record { at = λ w h. record { signs = h.signs } };
    logical = λ f. record { at = λ w h. record { signs = h.signs } };
    receipt = λ r. record { at = λ w h. record { signs = h.signs } };
    released = record { at = λ w h. record { signs = h.signs } };
    state_saved = IsCareful-save_state;
    touched = λ at. record { at = λ w h. record { signs = h.signs } };
    task_saved = record { at = λ w h. record { signs = h.signs } };
  }

  IsCareful-open_task : (t : WorkerTask) → Keeps IsCareful (open_task t)
  unfolding open_task
  IsCareful-open_task t = record { at = λ w h. record { signs = h.signs } }

  IsCareful-stamp_envelope : (at deadline : ℕ) → Keeps IsCareful (stamp_envelope at deadline)
  unfolding stamp_envelope
  IsCareful-stamp_envelope at deadline = record { at = λ w h. record { signs = h.signs } }

  IsCareful-put_envelope : (envelope : InFlightEnvelope) → Keeps IsCareful (put_envelope envelope)
  unfolding put_envelope
  IsCareful-put_envelope envelope = record { at = λ w h. record { signs = h.signs } }

  IsCareful-send : (raw : Hex) → Keeps IsCareful (send env raw)
  unfolding send
  IsCareful-send raw = record { at = λ w h. record { signs = h.signs } }

  IsCareful-broadcast_exact : (requested : Bool) → Keeps IsCareful (broadcast_exact env requested)
  unfolding broadcast_exact send_written check_broadcast_hash
  IsCareful-broadcast_exact requested =
      let rules = IsCareful-Rules in
      search (semantic_rules, the_envelope-Keeps, IsCareful-stamp_envelope, IsCareful-send) depth 20

  IsCareful-sign :
      (transaction : TransactionRequest)
      → IsPrepared transaction
      → Keeps IsCareful (sign env transaction)
  unfolding sign
  IsCareful-sign transaction prepared = record {
    at = λ w h. record { signs = (prepared, h.signs) };
  }

  IsCareful-permit : (verdict : PolicyVerdict) → Keeps IsCareful (permit env verdict)
  unfolding permit
  IsCareful-permit (allowed liability) = search keeps_rules
  IsCareful-permit (refused message) = search keeps_rules

  -- The preparation that the chain answered for a request and a nonce.
  abbrev IsAnswer : TransactionRequest → ℕ → PreparedTransaction → Type 0
  IsAnswer request nonce prepared = (n : ℕ) × (env.chain.prepare n request nonce ≡ ok prepared)

  prepare-Ensures :
      (request : TransactionRequest) (nonce : ℕ)
      → Ensures
          (λ w. Unit {0})
          (call (λ n. env.chain.prepare n request nonce))
          (λ prepared w. Unit {0} × IsAnswer request nonce prepared)
  unfolding call
  prepare-Ensures request nonce = record { at = λ w h prepared e. (tt, (w.calls, e)) }

  admit-IsAnswer :
      (request : TransactionRequest) (nonce : ℕ)
      → Ensures (λ w. Unit {0}) (admit env request nonce) (λ r w. IsAnswer request nonce r.1)
  unfolding admit
  admit-IsAnswer request nonce = Ensures-bind _ _ (prepare-Ensures request nonce) λ prepared.
      Ensures-given _ λ answer. Ensures-bind _ _ (Ensures-any _) λ tasks.
        Ensures-bind _ _ (Ensures-any _) λ at.
          Ensures-bind _ _ (Ensures-any _)
            λ balance. Ensures-bind _ _ (Ensures-any _) λ liability. Ensures-pure _ λ w h. answer

  IsCareful-admit :
      (request : TransactionRequest) (nonce : ℕ) → Keeps IsCareful (admit env request nonce)
  unfolding admit
  IsCareful-admit request nonce =
      let rules = IsCareful-Rules in
      search (semantic_rules, list_tasks-Keeps, IsCareful-permit) depth 20

  IsCareful-sealed :
      (purpose : InFlightPurpose) (nonce liability : ℕ) (transaction : TransactionRequest)
      → IsPrepared transaction
      → Keeps IsCareful (
          sign env transaction >>= λ signature.
          now env >>= λ at. put_envelope (envelope_of env purpose nonce liability signature at))
  IsCareful-sealed purpose nonce liability transaction prepared =
      let rules = IsCareful-Rules in
      Keeps-bind _ _ (IsCareful-sign transaction prepared)
        λ signature. search (semantic_rules, IsCareful-put_envelope) depth 12

  IsCareful-seal :
      (purpose : InFlightPurpose) (request : TransactionRequest) (nonce : ℕ)
      → IsSimulated env request
      → Keeps IsCareful (seal env purpose request nonce)
  unfolding seal ◌>>=◌
  IsCareful-seal purpose request nonce simulated = record {
    at = λ w h.
        let kept = (IsCareful-admit request nonce).at w h in
        Keeps-continue IsCareful (admit env request nonce w).0 _ (admit env request nonce w).1 kept
          λ r e.
            let answer = (admit-IsAnswer request nonce).at w tt r e in
            (IsCareful-sealed purpose nonce r.0 r.1.request
                (request, nonce, answer.0, r.1, simulated, answer.1, refl)).at
              _ kept;
  }

  IsCareful-claim_lane :
      (purpose : InFlightPurpose) (request : TransactionRequest)
      → IsSimulated env request
      → Keeps IsCareful (claim_lane env purpose request)
  unfolding claim_lane claim_behind
  IsCareful-claim_lane purpose request simulated =
      let rules = IsCareful-Rules in
      search (semantic_rules, IsCareful-seal, unresolved_lane-Keeps, expected_next_nonce-Keeps)
        depth 20

  IsCareful-LaneRules : LaneRules env IsCareful
  IsCareful-LaneRules = record { claimed = IsCareful-claim_lane; sent = IsCareful-broadcast_exact }

  IsCareful-OpenRules : OpenRules env IsCareful
  IsCareful-OpenRules = record {
    scanned =
        scan_once-Keeps {Good = λ _. Unit {0}}
          (record {
            opened = λ t _. IsCareful-open_task t;
            stored = λ w h. All-Unit w.tasks;
            idle = λ t _. tt;
          })
          env IsCareful-Rules;
    opened_idle = λ t _. IsCareful-open_task t;
    opened_file = λ t w h _. (IsCareful-open_task t).at w h;
  }

  -- Over any commands and answers, every transaction that is signed was prepared by the chain for a request
  -- of which a simulation has succeeded.
  pub run-SignsPrepared :
      (commands : List Command) (w : World)
      → SignsPrepared w.trace
      → SignsPrepared (run env w commands).trace
  run-SignsPrepared commands w h =
      (run-keeps env IsCareful-OpenRules IsCareful-Rules IsCareful-LaneRules commands w
        (record { signs = h })).signs
