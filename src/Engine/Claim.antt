-- ===== src/Engine/Claim.antt =====
-- worker/engine.ts `persistSignedEnvelope`: the global write lane is claimed, the resource policy asked,
-- the transaction signed, and its envelope written.
use mathlib.Core.List.{flat_map}
use cr3d_x.Base.{
  ℕ, suc, ◌-◌, ◌*◌, ◌<>◌, str_eq, Bool, true, false, not, ◌&&◌, Option, none, some, List, ◌∷◌, map,
  leb, ◌==◌, if◌then◌else◌, decimal, sum, keep_if, find_index,
}
use cr3d_x.Types.{
  EvidenceRecord, InFlightPurpose, submission, application, InFlightEnvelope, LogicalTask,
  WorkerTask, SubmissionState, EvidenceAutomationState,
}
use cr3d_x.Types.Port.{ok, TransactionRequest, PreparedTransaction, SignedTransaction, Nonces, Env}
use cr3d_x.Policy.{is_some, PolicyVerdict, allowed, refused, ResourceInput, assert_resource_policy}
use cr3d_x.Exec.{
  Exec, signed, pure, throw, call, ◌>>=◌, ◌>>◌, on_option, when, require, modify_logical,
  get_logical,
}
use cr3d_x.State.{write_task, list_tasks, unresolved_lane}
use cr3d_x.Engine.Objects.{in_current, inclusion_events, assign}
use cr3d_x.Engine.Marks.{
  global_attention, now, set_submission_state, set_evidence_state, expected_next_nonce,
}
use cr3d_x.Engine.Envelope.{reconcile_envelope}

-- The actual fees confirmed since the cutoff, over all tasks.
unfoldable pub rolling_actual : ℕ → List WorkerTask → ℕ
rolling_actual cutoff tasks = sum (
    map (λ operation. operation.actual_fee)
      (keep_if (λ operation. leb cutoff operation.confirmed_at)
        (flat_map (λ t. t.logical.operation_history) tasks)))

unfoldable pub liability_of : Option InFlightEnvelope → ℕ
liability_of none = 0
liability_of (some envelope) = envelope.maximum_liability

unfoldable pub reservations : List WorkerTask → ℕ
reservations tasks = sum (map (λ t. liability_of t.in_flight) tasks)

-- task.inFlight = {…}
unfoldable pub put_envelope : InFlightEnvelope → Exec Unit
put_envelope envelope w = (ok tt, record w { task = record w.task { in_flight = some envelope } })

unfoldable pub day_ms : ℕ
day_ms = 24 * 60 * 60 * 1000

unfoldable pub count_submission : LogicalTask → LogicalTask
count_submission l = record l { submission_attempt_count = suc l.submission_attempt_count }

unfoldable pub count_application : EvidenceRecord → EvidenceRecord
count_application e = record e { application_attempt_count = suc e.application_attempt_count }

module _ (env : Env) where
  -- chain.sign(request)
  unfoldable pub sign : TransactionRequest → Exec SignedTransaction
  sign request w = (
    env.chain.sign w.calls request,
    record w { calls = suc w.calls; trace = signed request ∷ w.trace },
  )

  unfoldable pub permit : PolicyVerdict → Exec ℕ
  permit (allowed liability) = pure liability
  permit (refused message) = throw message

  -- What the resource policy is asked about a prepared transaction.
  unfoldable pub resource_input : PreparedTransaction → List WorkerTask → ℕ → ℕ → ResourceInput
  resource_input prepared tasks at balance = record {
    limits = env.config.limits;
    estimated_gas = prepared.estimate;
    final_gas_limit = prepared.gas_limit;
    final_price = prepared.price;
    signer_balance = balance;
    rolling_actual_fees = rolling_actual (at - day_ms) tasks;
    unresolved_reservations = reservations tasks;
  }

  -- The transaction is prepared and admitted by the resource policy.
  unfoldable pub admit : TransactionRequest → ℕ → Exec (ℕ × PreparedTransaction)
  admit request nonce = do
    prepared ← call (λ n. env.chain.prepare n request nonce)
    tasks ← list_tasks env
    at ← now env
    balance ← call env.chain.signer_balance
    liability ← permit (assert_resource_policy (resource_input prepared tasks at balance))
    pure (liability, prepared)

  unfoldable pub envelope_of : InFlightPurpose → ℕ → ℕ → SignedTransaction → ℕ → InFlightEnvelope
  envelope_of purpose nonce liability signature at = record {
    purpose = purpose;
    transaction_hash = signature.hash;
    raw_transaction = signature.raw;
    nonce = nonce;
    chain_id = env.config.destination_chain_id;
    destination = env.config.deals_address;
    maximum_liability = liability;
    created_at = at;
    first_broadcast_at = none;
    last_broadcast_at = none;
    resolution_deadline_at = none;
    broadcast_count = 0;
    receipt = none;
  }

  unfoldable pub mark_in_flight : InFlightPurpose → Exec Unit
  mark_in_flight (submission ids hash) = do
    set_submission_state env SubmissionState.submission_in_flight
        "exact signed envelope persisted before broadcast"
    modify_logical count_submission
  mark_in_flight (application id) = do
    l ← get_logical
    on_option (find_index (λ e. str_eq e.expected_evidence_id id) 0 (inclusion_events l))
        (throw "Cannot read properties of undefined")
        λ i. do
          set_evidence_state env (in_current i) EvidenceAutomationState.application_in_flight
              "exact signed envelope persisted before broadcast"
          assign (in_current i) count_application

  -- The transaction is signed, and its envelope stands in the task object.
  unfoldable pub seal : InFlightPurpose → TransactionRequest → ℕ → Exec Unit
  seal purpose request nonce = do
    (liability, prepared) ← admit request nonce
    signature ← sign prepared.request
    at ← now env
    put_envelope (envelope_of purpose nonce liability signature at)

  unfoldable pub nonces_agree : ℕ → Nonces → Bool
  nonces_agree expected nonces = (nonces.latest == expected) && (nonces.pending == expected)

  -- persistSignedEnvelope behind its first look at the lane, up to the assignment of `task.inFlight`:
  -- false where it returns early.
  unfoldable pub claim_behind : InFlightPurpose → TransactionRequest → Option WorkerTask → Exec Bool
  claim_behind purpose request lane = do
    require (not (is_some lane)) "Global write lane is occupied"
    expected ← expected_next_nonce env
    nonces ← call env.chain.nonces
    if nonces_agree expected nonces then (do seal purpose request expected; pure true) else (do
      global_attention (
          "UNEXPECTED_SIGNER_NONCE:expected="
          <> decimal expected
          <> ",latest="
          <> decimal nonces.latest
          <> ",pending="
          <> decimal nonces.pending)
      pure false)

  unfoldable pub claim_lane : InFlightPurpose → TransactionRequest → Exec Bool
  claim_lane purpose request = do lane ← unresolved_lane env; claim_behind purpose request lane

  unfoldable pub persist_signed_envelope : InFlightPurpose → TransactionRequest → Exec Unit
  persist_signed_envelope purpose request = do
    sealed ← claim_lane purpose request
    when sealed do mark_in_flight purpose; write_task env; reconcile_envelope env false
