-- ===== src/LiveState/Reading.antt =====
-- ui/src/rpc.ts `readLiveState`: what the page reads. The node and ethers' getAddress are parameters; of
-- calls that run at once, the first in the order of the source that throws is the one that is reported.
use cr3d_x.Base.{ℕ, zero, suc, String, ◌<>◌, Option, none, some, List, [], ◌∷◌, ◌==◌, decimal}
use cr3d_x.Types.Port.{Result, ok, threw}
use cr3d_x.Types.Fallible.{◌>>=◌, ◌>>◌, guard}
use cr3d_x.LiveState.{LiveState}

abbrev pub deal_statuses : List String
deal_statuses = "NONE" ∷ "CREATED" ∷ "FINANCED" ∷ "DEFAULTED" ∷ "PAID_LATE" ∷ "PAID_ON_TIME" ∷ []

abbrev pub evidence_states : List String
evidence_states = "UNSEEN" ∷ "VERIFIED_PENDING" ∷ "APPLIED" ∷ "REJECTED_PERMANENT" ∷ []

-- DEPLOYMENT.chainId, ACCEPTED_SNAPSHOT.dealId and EVIDENCE
abbrev pub deployment_chain_id : ℕ
deployment_chain_id = 102031

abbrev pub accepted_deal_id : String
accepted_deal_id = "0x5cf1f030363c28c3fa1862759ccc63b338d0a57fd682d9a6965a61acf93706fc"

abbrev pub repayment_id : String
repayment_id = "0x65f1d8a980b49ec20510b047473785ebcfd6648c0d4cfafd3857241b9c8df213"

abbrev pub race_id : String
race_id = "0xb7bf02c15afd864f4274428e9be186344e0191e616bc45b25ec2fab4d709d4d5"

unfoldable pub label_at : List String → ℕ → Option String
label_at [] n = none
label_at (label ∷ labels) zero = some label
label_at (label ∷ labels) (suc n) = label_at labels n

unfoldable pub known_label : Option String → ℕ → String → Result String
known_label none value kind = threw ("Unknown " <> (kind <> (" value " <> decimal value)))
known_label (some label) value kind = ok label

unfoldable pub enum_label : List String → ℕ → String → Result String
enum_label labels value kind = known_label (label_at labels value) value kind

pub record DealResult : Type 0 where
  pub borrower : String
  pub designated_investor : String
  pub status : ℕ
  pub funded_amount : ℕ
  pub repaid_amount : ℕ
  pub on_time_repaid : ℕ

-- `evidence_state` answers the first of the two numbers.
pub record LiveNode : Type 0 where
  pub chain_id : Result ℕ
  pub block_number : Result ℕ
  pub deal : String → Result DealResult
  pub outstanding : String → Result ℕ
  pub score : String → Result ℕ
  pub limit : String → Result ℕ
  pub available_limit : String → Result ℕ
  pub reserved : String → Result ℕ
  pub exposure : String → Result ℕ
  pub evidence_state : String → Result ℕ
  pub get_address : String → Result String

-- What the second round of calls answers.
pub record CreditReads : Type 0 where
  pub outstanding : ℕ
  pub score : ℕ
  pub limit : ℕ
  pub available_limit : ℕ
  pub reserved : ℕ
  pub exposure : ℕ
  pub repayment : ℕ
  pub race : ℕ

module _ (node : LiveNode) where
  unfoldable pub read_credit : String → Result CreditReads
  read_credit borrower = do
    outstanding ← node.outstanding accepted_deal_id
    score ← node.score borrower
    limit ← node.limit borrower
    available_limit ← node.available_limit borrower
    reserved ← node.reserved borrower
    exposure ← node.exposure borrower
    repayment ← node.evidence_state repayment_id
    race ← node.evidence_state race_id
    ok (record {
      outstanding = outstanding;
      score = score;
      limit = limit;
      available_limit = available_limit;
      reserved = reserved;
      exposure = exposure;
      repayment = repayment;
      race = race;
    })

  -- The object that is returned.
  unfoldable pub live_state_of :
      ℕ → ℕ → ℕ → String → String → DealResult → CreditReads → Result LiveState
  live_state_of chain_id block_number observed_at borrower investor deal credit = do
    status ← enum_label deal_statuses deal.status "deal status"
    repayment ← enum_label evidence_states credit.repayment "evidence state"
    race ← enum_label evidence_states credit.race "evidence state"
    ok (record {
      chain_id = chain_id;
      block_number = block_number;
      observed_at = observed_at;
      borrower = borrower;
      designated_investor = investor;
      status = status;
      funded_amount = deal.funded_amount;
      repaid_amount = deal.repaid_amount;
      on_time_repaid = deal.on_time_repaid;
      outstanding = credit.outstanding;
      score = credit.score;
      limit = credit.limit;
      available_limit = credit.available_limit;
      reserved = credit.reserved;
      exposure = credit.exposure;
      repayment_evidence = repayment;
      race_evidence = race;
    })

  -- readLiveState, at the time `observed_at`
  unfoldable pub read_live_state : ℕ → Result LiveState
  read_live_state observed_at = do
    chain_id ← node.chain_id
    block_number ← node.block_number
    deal ← node.deal accepted_deal_id
    guard (chain_id == deployment_chain_id)
        ("Expected chain " <> (decimal deployment_chain_id <> (", received " <> decimal chain_id)))
    borrower ← node.get_address deal.borrower
    investor ← node.get_address deal.designated_investor
    credit ← read_credit borrower
    live_state_of chain_id block_number observed_at borrower investor deal credit
