-- ===== src/Engine/Broadcast.antt =====
-- worker/engine.ts `broadcastExact` and `envelopeNonceIsCompatible`: the exact signed bytes are sent, and
-- sent again, under the nonce that they were signed for.
use cr3d_x.Base.{
  ℕ, suc, ◌+◌, ◌<>◌, Bool, not, ◌&&◌, ◌||◌, Option, none, some, ◌∷◌, ◌==◌, if◌then◌else◌, same_hex,
  decimal,
}
use cr3d_x.Types.{Hex, six_hours_ms, InFlightEnvelope}
use cr3d_x.Types.Port.{ok, Nonces, Env}
use cr3d_x.Exec.{
  Exec, broadcast, pure, throw, gets, call, try_catch, ◌>>=◌, ◌>>◌, on_option, when, modify_logical,
  get_envelope,
}
use cr3d_x.State.{write_task}
use cr3d_x.Engine.Marks.{transition, push_transition, global_attention, now}

unfoldable pub or_now : Option ℕ → ℕ → Option ℕ
or_now none at = some at
or_now (some earlier) at = some earlier

-- The assignments of broadcastExact to the envelope.
unfoldable pub stamp : ℕ → ℕ → InFlightEnvelope → InFlightEnvelope
stamp at deadline envelope = record envelope {
  first_broadcast_at = or_now envelope.first_broadcast_at at;
  resolution_deadline_at = or_now envelope.resolution_deadline_at deadline;
  last_broadcast_at = some at;
  broadcast_count = suc envelope.broadcast_count;
}

unfoldable pub stamp_envelope : ℕ → ℕ → Exec Unit
stamp_envelope at deadline w = (
  ok tt,
  record w {
    task = record w.task {
      in_flight = elim w.task.in_flight [
        | none ↦ none
        | some envelope ↦ some (stamp at deadline envelope)
      ];
    };
  },
)

-- task.inFlight!
unfoldable pub the_envelope : Exec InFlightEnvelope
the_envelope = do
  envelope ← get_envelope
  on_option envelope (throw "Cannot read properties of undefined") pure

unfoldable pub nonce_is_compatible : InFlightEnvelope → Nonces → Bool
nonce_is_compatible envelope nonces =
    (nonces.latest == envelope.nonce)
    && ((nonces.pending == envelope.nonce) || (nonces.pending == envelope.nonce + 1))

module _ (env : Env) where
  -- chain.broadcast(raw), which may throw after the bytes went out
  unfoldable pub send : Hex → Exec Hex
  send raw w = (
    env.chain.broadcast w.calls raw,
    record w { calls = suc w.calls; trace = broadcast raw ∷ w.trace },
  )

  -- A hash that differs from the envelope's stops the worker.
  unfoldable pub check_broadcast_hash : InFlightEnvelope → Hex → Exec Unit
  check_broadcast_hash envelope hash =
      when (not (same_hex hash envelope.transaction_hash))
        do task ← gets (λ w. w.task); global_attention ("BROADCAST_HASH_MISMATCH:" <> task.task_id)

  -- broadcastExact behind its write: the bytes are sent, whatever comes of it
  unfoldable pub send_written : Exec Unit
  send_written = do
    envelope ← the_envelope
    try_catch (do hash ← send envelope.raw_transaction; check_broadcast_hash envelope hash)
        (λ _. pure tt)

  unfoldable pub broadcast_exact : Bool → Exec Unit
  broadcast_exact operator_requested = do
    at ← now env
    later ← now env
    stamp_envelope at (later + six_hours_ms)
    pushed ← now env
    modify_logical (
        push_transition (
          transition pushed (some "IN_FLIGHT") "IN_FLIGHT" (
            if operator_requested
            then "manual exact-byte rebroadcast"
            else "exact-byte broadcast attempt")))
    write_task env
    send_written

  unfoldable pub envelope_nonce_is_compatible : Exec Bool
  envelope_nonce_is_compatible = do
    envelope ← the_envelope
    nonces ← call env.chain.nonces
    when (not (nonce_is_compatible envelope nonces)) (
        global_attention (
          "UNEXPECTED_SIGNER_NONCE:envelope="
          <> decimal envelope.nonce
          <> ",latest="
          <> decimal nonces.latest
          <> ",pending="
          <> decimal nonces.pending))
    pure (nonce_is_compatible envelope nonces)

  unfoldable pub broadcast_if_compatible : Bool → Exec Unit
  broadcast_if_compatible operator_requested = do
    compatible ← envelope_nonce_is_compatible
    when compatible (broadcast_exact operator_requested)
