-- ===== src/Chain/Decoding.antt =====
-- Which events worker/chain.ts decodes from a receipt.
use Prim.Native.String.{count}
use text.Mathlib.TextEquality.{eq_iff}
use cr3d_x.Base.{
  ℕ, suc, ◌≡◌, ◌≢◌, refl, subst, true, Option, some, List, [], ◌∷◌, ◌⊎◌, arith, Bool-cases, inl,
  inr, length, lower, same_hex, both_true, either_true, str_eq-false, Option-cases,
}
use cr3d_x.Types.{Hex, EvidenceKind, DecodedGatewayEvent, WorkerConfig}
use cr3d_x.Types.Port.{Result, ok, threw, SourceLog, RawSourceReceipt}
use cr3d_x.Chain.{
  ParsedLog, is_evidence_topic, is_gateway_event, has_event_shape, event_of, decode_log, push_event,
  decode_logs, decode_gateway_events,
}

module _ (config : WorkerConfig) (parse_log : List Hex → Hex → Option ParsedLog)
    (get_address : Hex → Hex) where
  -- The log is one of the gateway, whose first topic is one of the two evidence topics, in any case.
  pub record IsEvidenceLog (log : SourceLog) : Type 0 where
    pub first : Hex
    pub others : List Hex
    pub emitter : lower log.address ≡ lower config.gateway_address
    pub topics : log.topics ≡ first ∷ others
    pub kind :
        (lower first ≡ lower config.funding_topic) ⊎ (lower first ≡ lower config.repayment_topic)

  -- The event is what the ABI reads in the log, and it says where the log stands on the source chain.
  pub record IsEventOf (receipt : RawSourceReceipt) (ordinal : ℕ) (log : SourceLog)
      (e : DecodedGatewayEvent) : Type 0 where
    pub parsed : ParsedLog
    pub reads : parse_log log.topics log.payload ≡ some parsed
    pub four_topics : length log.topics ≡ 4
    pub two_words : count log.payload ≡ 130
    pub chain : e.source_chain_id ≡ config.source_chain_id
    pub transaction : e.transaction_hash ≡ receipt.transaction_hash
    pub number : e.source_block_number ≡ receipt.block_number
    pub block : e.source_block_hash ≡ receipt.block_hash
    pub index : e.transaction_index ≡ receipt.transaction_index
    pub position : e.transaction_log_ordinal ≡ ordinal
    pub rpc_index : e.rpc_log_index ≡ log.log_index
    pub emitter : e.emitter ≡ get_address log.address
    pub funds : parsed.name ≡ "FundingMade" → e.kind ≡ EvidenceKind.funding
    pub repays : parsed.name ≢ "FundingMade" → e.kind ≡ EvidenceKind.repayment
    pub deal : e.deal_id ≡ parsed.deal_id
    pub counterparty : e.counterparty ≡ get_address parsed.counterparty
    pub recipient : e.recipient ≡ get_address parsed.recipient
    pub amount : e.amount ≡ parsed.amount
    pub nonce : e.event_nonce ≡ parsed.event_nonce

  -- The events of logs from an ordinal on: one for each evidence log, and none for any other.
  pub data AreEvents (receipt : RawSourceReceipt)
      : ℕ → List SourceLog → List DecodedGatewayEvent → Type 0 where
    done : {ordinal : ℕ} → AreEvents receipt ordinal [] []
    skipped :
        {ordinal : ℕ} {log : SourceLog} {logs : List SourceLog} {events : List DecodedGatewayEvent}
        → ¬ IsEvidenceLog log
        → AreEvents receipt (suc ordinal) logs events
        → AreEvents receipt ordinal (log ∷ logs) events
    decoded :
        {ordinal : ℕ} {log : SourceLog} {logs : List SourceLog} {event : DecodedGatewayEvent}
        {events : List DecodedGatewayEvent}
        → IsEvidenceLog log
        → IsEventOf receipt ordinal log event
        → AreEvents receipt (suc ordinal) logs events
        → AreEvents receipt ordinal (log ∷ logs) (event ∷ events)

  topics-IsEvidenceLog :
      (log : SourceLog) (topics : List Hex)
      → log.topics ≡ topics
      → same_hex log.address config.gateway_address ≡ true
      → is_evidence_topic config parse_log get_address topics ≡ true
      → IsEvidenceLog log
  unfolding is_evidence_topic same_hex
  topics-IsEvidenceLog log [] same from kind = cc
  topics-IsEvidenceLog log (first ∷ others) same from kind = record {
    first = first;
    others = others;
    emitter = (eq_iff _ _).0 from;
    topics = same;
    kind = elim (either_true _ _ kind) [
      | inl funding ↦ inl ((eq_iff _ _).0 funding)
      | inr repayment ↦ inr ((eq_iff _ _).0 repayment)
    ];
  }

  gateway-IsEvidenceLog :
      (log : SourceLog)
      → is_gateway_event config parse_log get_address log ≡ true
      → IsEvidenceLog log
  unfolding is_gateway_event
  gateway-IsEvidenceLog log hit =
      let (from, kind) = both_true _ _ hit in topics-IsEvidenceLog log log.topics refl from kind

  evidence-is_gateway_event :
      (log : SourceLog)
      → IsEvidenceLog log
      → is_gateway_event config parse_log get_address log ≡ true
  unfolding is_gateway_event is_evidence_topic same_hex
  evidence-is_gateway_event log e =
      rw (e.topics, (eq_iff _ _).1 e.emitter)
        (elim e.kind [
          | inl funding ↦ rw ((eq_iff _ _).1 funding) refl
          | inr repayment ↦ rw ((eq_iff _ _).1 repayment) (ground arith)
        ])

  event_of-IsEventOf :
      (receipt : RawSourceReceipt) (ordinal : ℕ) (log : SourceLog) (parsed : ParsedLog)
      → has_event_shape config parse_log get_address log ≡ true
      → parse_log log.topics log.payload ≡ some parsed
      → IsEventOf receipt ordinal log
          (event_of config parse_log get_address receipt ordinal log parsed)
  unfolding event_of has_event_shape
  event_of-IsEventOf receipt ordinal log parsed shape reads = record {
    parsed = parsed;
    reads = reads;
    four_topics = ground arith;
    two_words = ground arith;
    chain = refl;
    transaction = refl;
    number = refl;
    block = refl;
    index = refl;
    position = refl;
    rpc_index = refl;
    emitter = refl;
    funds = λ named. rw ((eq_iff _ _).1 named) refl;
    repays = λ other. rw (str_eq-false _ _ other) refl;
    deal = refl;
    counterparty = refl;
    recipient = refl;
    amount = refl;
    nonce = refl;
  }

  decode_log-IsEventOf :
      (receipt : RawSourceReceipt) (ordinal : ℕ) (log : SourceLog) {e : DecodedGatewayEvent}
      → decode_log config parse_log get_address receipt ordinal log ≡ ok e
      → IsEventOf receipt ordinal log e
  unfolding decode_log
  decode_log-IsEventOf receipt ordinal log {e = e} r =
      let shape : has_event_shape config parse_log get_address log ≡ true = ground arith in
      elim (Option-cases (parse_log log.topics log.payload)) [
        | inl nothing ↦ absurd (ground (arith, nothing))
        | inr (parsed, reads) ↦
            let same : event_of config parse_log get_address receipt ordinal log parsed ≡ e =
              ground (arith, reads) in
            subst (IsEventOf receipt ordinal log) same
              (event_of-IsEventOf receipt ordinal log parsed shape reads)
      ]

  push-AreEvents :
      (receipt : RawSourceReceipt) (ordinal : ℕ) (log : SourceLog) (logs : List SourceLog)
      (first : Result DecodedGatewayEvent) (rest : Result (List DecodedGatewayEvent))
      {events : List DecodedGatewayEvent}
      → IsEvidenceLog log
      → decode_log config parse_log get_address receipt ordinal log ≡ first
      → ((es : List DecodedGatewayEvent) → rest ≡ ok es → AreEvents receipt (suc ordinal) logs es)
      → push_event config parse_log get_address first rest ≡ ok events
      → AreEvents receipt ordinal (log ∷ logs) events
  unfolding push_event
  push-AreEvents receipt ordinal log logs (threw message) rest evidence first_is later e = cc
  push-AreEvents receipt ordinal log logs (ok event) (threw message) evidence first_is later e = cc
  push-AreEvents receipt ordinal log logs (ok event) (ok es) {events = events} evidence first_is
        later e =
      let same : event ∷ es ≡ events = cc in
      subst (AreEvents receipt ordinal (log ∷ logs)) same
        (decoded evidence (decode_log-IsEventOf receipt ordinal log first_is) (later es refl))

  decode_logs-AreEvents :
      (receipt : RawSourceReceipt) (logs : List SourceLog) (ordinal : ℕ)
      {events : List DecodedGatewayEvent}
      → decode_logs config parse_log get_address receipt ordinal logs ≡ ok events
      → AreEvents receipt ordinal logs events
  unfolding decode_logs
  decode_logs-AreEvents receipt [] ordinal {events = events} e =
      let same : [] ≡ events = cc in subst (AreEvents receipt ordinal []) same done
  decode_logs-AreEvents receipt (log ∷ logs) ordinal e =
      elim (Bool-cases (is_gateway_event config parse_log get_address log)) [
        | inl hit ↦
            push-AreEvents receipt ordinal log logs _ _ (gateway-IsEvidenceLog log hit) refl
              (λ es r. decode_logs-AreEvents receipt logs (suc ordinal) r) (ground (arith, hit))
        | inr miss ↦
            skipped (λ evidence. cc (evidence-is_gateway_event log evidence, miss))
              (decode_logs-AreEvents receipt logs (suc ordinal) (ground (arith, miss)))
      ]

  -- Where a receipt is decoded, the events are one for each log of the gateway that has one of the two
  -- evidence topics first, and none for any other log, in their order. Such a log has four topics and two
  -- words, and its event is what the ABI reads in it, at the place in the receipt where the log stands.
  pub decode_gateway_events-AreEvents :
      (receipt : RawSourceReceipt) {events : List DecodedGatewayEvent}
      → decode_gateway_events config parse_log get_address receipt ≡ ok events
      → AreEvents receipt 0 receipt.logs events
  unfolding decode_gateway_events
  decode_gateway_events-AreEvents receipt e = decode_logs-AreEvents receipt receipt.logs 0 e
