-- ===== src/Examples/Chains.antt =====
-- Concrete fee data, windows and receipts of the worker's chain client.
use cr3d_x.Base.{◌↔◌, ◌≡◌, refl, true, Option, some, List, [], ◌∷◌, same_hex, lower}
use cr3d_x.Types.{Hex, DecodedGatewayEvent}
use cr3d_x.Types.Port.{ok, SourceLog, RawSourceReceipt, eip1559}
use cr3d_x.Chain.{
  FeeData, ParsedLog, prepared_with, priced, quoted, prepare, is_evidence_topic, is_gateway_event,
  has_event_shape, event_of, decode_log, push_event, decode_logs, decode_gateway_events,
}
use cr3d_x.Chain.Preparation.{IsPriced, prepare-IsPriced}
use cr3d_x.Chain.Reads.{
  Deployment, note_mismatch, refuse_mismatches, mismatches, assert_deployment_configuration, nested,
  other, hex_text, field_data, first_of, extract_revert_data,
}
use cr3d_x.Chain.Deployed.{IsConfigured, assert_deployment_configuration-IsConfigured}
use cr3d_x.Chain.Decoding.{AreEvents, decode_gateway_events-AreEvents}
use cr3d_x.Examples.Worker.{small_config, request, source_hash, operation_hash}

abbrev quote : FeeData
quote = record { gas_price = some 7; max_fee_per_gas = some 30; max_priority_fee_per_gas = some 2 }

prepare-IsPriced_example :
    IsPriced request 5 (ok 1001) (ok quote) (prepared_with request 5 1001 (eip1559 30 2) 30)
unfolding prepare quoted priced prepared_with
prepare-IsPriced_example = prepare-IsPriced true request 5 (ok 1001) (ok quote) refl

abbrev other_log : SourceLog
other_log = record { address = "0x11"; topics = "0x01" ∷ []; payload = "0x"; log_index = 8 }

-- 0x and 64 bytes
abbrev word_pair : Hex
word_pair =
    "0x00000000000000000000000000000000000000000000000000000000000000050000000000000000000000000000000000000000000000000000000000000001"

abbrev funding_log : SourceLog
funding_log = record {
  address = small_config.gateway_address;
  topics = "0xF1" ∷ "0x02" ∷ "0x03" ∷ "0x04" ∷ [];
  payload = word_pair;
  log_index = 9;
}

abbrev receipt : RawSourceReceipt
receipt = record {
  transaction_hash = source_hash;
  block_number = 121;
  block_hash = operation_hash;
  transaction_index = 3;
  status = 1;
  logs = other_log ∷ funding_log ∷ [];
}

abbrev parse : List Hex → Hex → Option ParsedLog
parse topics payload = some (record {
  name = "FundingMade";
  deal_id = "0x02";
  counterparty = "0x03";
  recipient = "0x04";
  amount = 5;
  event_nonce = 1;
})

abbrev checksum : Hex → Hex
checksum address = address

abbrev only_event : DecodedGatewayEvent
only_event = event_of small_config parse checksum receipt 1 funding_log (record {
  name = "FundingMade";
  deal_id = "0x02";
  counterparty = "0x03";
  recipient = "0x04";
  amount = 5;
  event_nonce = 1;
})

decode_gateway_events-AreEvents_example :
    AreEvents small_config parse checksum receipt 0 (other_log ∷ funding_log ∷ []) (only_event ∷ [])
unfolding decode_gateway_events decode_logs push_event decode_log has_event_shape is_gateway_event
    is_evidence_topic same_hex
decode_gateway_events-AreEvents_example =
    decode_gateway_events-AreEvents small_config parse checksum receipt refl

-- The addresses in other cases.
abbrev deployment : Deployment
deployment = record {
  source_chain_id = 11155111;
  destination_chain_id = 102031;
  verifier_chain_key = 1;
  gateway = "0x11DD8a4c790939dea8ced631db27afe54334a749";
  funding_topic = "0xF1";
  repayment_topic = "0xf2";
  deals_verifier = "0x5D2c4d0c9ae8a0cd26ef91e4d4a2c43dd98c3c09";
  deals_chain_key = 1;
}

assert_deployment_configuration-IsConfigured_example :
    (assert_deployment_configuration small_config lower (ok deployment) ≡ ok tt)
    ↔ IsConfigured small_config lower deployment
assert_deployment_configuration-IsConfigured_example =
    assert_deployment_configuration-IsConfigured small_config lower deployment

deployment-passes : assert_deployment_configuration small_config lower (ok deployment) ≡ ok tt
unfolding assert_deployment_configuration mismatches note_mismatch refuse_mismatches same_hex lower
deployment-passes = refl

revert_data-found :
    extract_revert_data (some (record { payload = other; info_error = nested (some "0x08c379a0") }))
    ≡ some "0x08c379a0"
unfolding extract_revert_data field_data hex_text first_of
revert_data-found = refl
