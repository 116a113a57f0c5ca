-- ===== src/Examples/Pages.antt =====
-- A node that answers what was accepted.
use cr3d_x.Base.{refl}
use cr3d_x.Types.Port.{ok}
use cr3d_x.LiveState.{
  LiveState, compare_live_to_accepted_snapshot, compared_fields, differences_of, text_field,
  number_field, same_value,
}
use cr3d_x.LiveState.Reading.{
  label_at, known_label, enum_label, LiveNode, read_credit, live_state_of, read_live_state,
}
use cr3d_x.LiveState.Accepted.{IsAccepted, read_live_state-IsAccepted}

abbrev node : LiveNode
node = record {
  chain_id = ok 102031;
  block_number = ok 77;
  deal = λ id. ok (record {
    borrower = "0xb0";
    designated_investor = "0xa0";
    status = 5;
    funded_amount = 1000001;
    repaid_amount = 1100000;
    on_time_repaid = 1100000;
  });
  outstanding = λ id. ok 0;
  score = λ who. ok 525;
  limit = λ who. ok 5250000000;
  available_limit = λ who. ok 5250000000;
  reserved = λ who. ok 0;
  exposure = λ who. ok 0;
  evidence_state = λ id. ok 2;
  get_address = λ text. ok text;
}

abbrev value : LiveState
value = record {
  chain_id = 102031;
  block_number = 77;
  observed_at = 9;
  borrower = "0xb0";
  designated_investor = "0xa0";
  status = "PAID_ON_TIME";
  funded_amount = 1000001;
  repaid_amount = 1100000;
  on_time_repaid = 1100000;
  outstanding = 0;
  score = 525;
  limit = 5250000000;
  available_limit = 5250000000;
  reserved = 0;
  exposure = 0;
  repayment_evidence = "APPLIED";
  race_evidence = "APPLIED";
}

read_live_state-IsAccepted_example : IsAccepted node
unfolding label_at known_label enum_label read_credit live_state_of read_live_state
    compare_live_to_accepted_snapshot compared_fields differences_of text_field number_field
    same_value
read_live_state-IsAccepted_example = read_live_state-IsAccepted node 9 {value = value} refl refl
