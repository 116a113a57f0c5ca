-- ===== src/LiveState/Accepted.antt =====
-- What a read of the page that shows no difference has read.
use mathlib.Core.Bool.{false≢true}
use cr3d_x.Base.{
  ℕ, zero, suc, String, ◌<>◌, decimal, str_eq, ◌≡◌, refl, sym, ap, ◌∙◌, subst, Bool, true, false,
  Option, none, some, List, [], ◌==◌, All, arith,
}
use cr3d_x.Types.Port.{ok}
use cr3d_x.Types.Fallible.{guard, ok-eq, bind-eq-ok, guard-eq-ok}
use cr3d_x.LiveState.{
  LiveState, accepted_snapshot, compare_live_to_accepted_snapshot, compared_fields, text_field,
  number_field, same_value,
}
use cr3d_x.LiveState.Reading.{
  deal_statuses, evidence_states, deployment_chain_id, accepted_deal_id, repayment_id, race_id,
  label_at, known_label, enum_label, DealResult, LiveNode, CreditReads, read_credit, live_state_of,
  read_live_state,
}
use cr3d_x.LiveState.Refresh.{IsSame, compare-none}

-- The answers of the node are the accepted ones: the deal is paid on time, both pieces of evidence are
-- applied, and the amounts, score and limits are those of the snapshot, on the chain of the deployment.
pub record IsAccepted (node : LiveNode) : Type 0 where
  pub chain : node.chain_id ≡ ok deployment_chain_id
  pub deal : DealResult
  pub read_deal : node.deal accepted_deal_id ≡ ok deal
  pub paid_on_time : deal.status ≡ 5
  pub funded : deal.funded_amount ≡ accepted_snapshot.funded_amount
  pub repaid : deal.repaid_amount ≡ accepted_snapshot.repaid_amount
  pub on_time : deal.on_time_repaid ≡ accepted_snapshot.on_time_repaid
  pub borrower : String
  pub checksum : node.get_address deal.borrower ≡ ok borrower
  pub outstanding : node.outstanding accepted_deal_id ≡ ok accepted_snapshot.outstanding
  pub score : node.score borrower ≡ ok accepted_snapshot.score_after
  pub limit : node.limit borrower ≡ ok accepted_snapshot.limit_after
  pub available : node.available_limit borrower ≡ ok accepted_snapshot.limit_after
  pub reserved : node.reserved borrower ≡ ok accepted_snapshot.reserved
  pub exposure : node.exposure borrower ≡ ok accepted_snapshot.exposure
  pub repayment : node.evidence_state repayment_id ≡ ok 2
  pub race : node.evidence_state race_id ≡ ok 2

is_named : Option String → String → Bool
is_named none name = false
is_named (some label) name = str_eq name label

status-paid : (n : ℕ) → is_named (label_at deal_statuses n) "PAID_ON_TIME" ≡ true → n ≡ 5
unfolding is_named label_at
status-paid zero e = absurd (false≢true e)
status-paid (suc zero) e = absurd (false≢true e)
status-paid (suc (suc zero)) e = absurd (false≢true e)
status-paid (suc (suc (suc zero))) e = absurd (false≢true e)
status-paid (suc (suc (suc (suc zero)))) e = absurd (false≢true e)
status-paid (suc (suc (suc (suc (suc zero))))) e = refl
status-paid (suc (suc (suc (suc (suc (suc n)))))) e = absurd (false≢true e)

state-applied : (n : ℕ) → is_named (label_at evidence_states n) "APPLIED" ≡ true → n ≡ 2
unfolding is_named label_at
state-applied zero e = absurd (false≢true e)
state-applied (suc zero) e = absurd (false≢true e)
state-applied (suc (suc zero)) e = refl
state-applied (suc (suc (suc zero))) e = absurd (false≢true e)
state-applied (suc (suc (suc (suc n)))) e = absurd (false≢true e)

enum_label-named :
    (labels : List String) (n : ℕ) (kind name : String) {label : String}
    → enum_label labels n kind ≡ ok label
    → str_eq name label ≡ true
    → is_named (label_at labels n) name ≡ true
unfolding enum_label is_named known_label
enum_label-named labels n kind name e same = named (label_at labels n) e same
  where
    named :
        (found : Option String) {label : String}
        → known_label found n kind ≡ ok label
        → str_eq name label ≡ true
        → is_named found name ≡ true
    named none e same = cc
    named (some l) e same = ap (str_eq name) (ok-eq e) ∙ same

same_numbers : (m n : ℕ) → (m == n) ≡ true → n ≡ m
same_numbers m n e = ground arith

module _ (node : LiveNode) where
  -- The answers behind a read, and the value that they make.
  accepted :
      (chain_id block_number observed_at : ℕ) (borrower investor : String) (deal : DealResult)
      (credit : CreditReads) {value : LiveState}
      → live_state_of node chain_id block_number observed_at borrower investor deal credit
        ≡ ok value
      → compare_live_to_accepted_snapshot value ≡ []
      → node.chain_id ≡ ok deployment_chain_id
      → node.deal accepted_deal_id ≡ ok deal
      → node.get_address deal.borrower ≡ ok borrower
      → read_credit node borrower ≡ ok credit
      → IsAccepted node
  unfolding live_state_of read_credit compared_fields text_field number_field same_value
  accepted chain_id block_number observed_at borrower investor deal credit {value} e shown chain
        deal_read checksum credit_read =
      let (status, s0, e1) = bind-eq-ok (enum_label deal_statuses deal.status "deal status") _ e in
      let (repayment, s1, e2) =
        bind-eq-ok (enum_label evidence_states credit.repayment "evidence state") _ e1 in
      let (race, s2, e3) =
        bind-eq-ok (enum_label evidence_states credit.race "evidence state") _ e2 in
      let (c0, (c1, (c2, (c3, (c4, (c5, (c6, (c7, (c8, (c9, (c10, (c11, done)))))))))))) =
        subst (λ v. All IsSame (compared_fields v)) (sym (ok-eq e3))
          ((compare-none value).0 shown) in
      let (n0, r0, f0) = bind-eq-ok (node.outstanding accepted_deal_id) _ credit_read in
      let (n1, r1, f1) = bind-eq-ok (node.score borrower) _ f0 in
      let (n2, r2, f2) = bind-eq-ok (node.limit borrower) _ f1 in
      let (n3, r3, f3) = bind-eq-ok (node.available_limit borrower) _ f2 in
      let (n4, r4, f4) = bind-eq-ok (node.reserved borrower) _ f3 in
      let (n5, r5, f5) = bind-eq-ok (node.exposure borrower) _ f4 in
      let (n6, r6, f6) = bind-eq-ok (node.evidence_state repayment_id) _ f5 in
      let (n7, r7, f7) = bind-eq-ok (node.evidence_state race_id) _ f6 in
      let made = ok-eq f7 in
      record {
        chain = chain;
        deal = deal;
        read_deal = deal_read;
        paid_on_time =
            status-paid deal.status
              (enum_label-named deal_statuses deal.status _ "PAID_ON_TIME" s0 c0);
        funded = same_numbers accepted_snapshot.funded_amount deal.funded_amount c2;
        repaid = same_numbers accepted_snapshot.repaid_amount deal.repaid_amount c3;
        on_time = same_numbers accepted_snapshot.on_time_repaid deal.on_time_repaid c4;
        borrower = borrower;
        checksum = checksum;
        outstanding =
            r0
            ∙ ap ok (
                ap (λ (c : CreditReads). c.outstanding) made
                ∙ same_numbers accepted_snapshot.outstanding _ c5);
        score =
            r1
            ∙ ap ok (
                ap (λ (c : CreditReads). c.score) made
                ∙ same_numbers accepted_snapshot.score_after _ c1);
        limit =
            r2
            ∙ ap ok (
                ap (λ (c : CreditReads). c.limit) made
                ∙ same_numbers accepted_snapshot.limit_after _ c8);
        available =
            r3
            ∙ ap ok (
                ap (λ (c : CreditReads). c.available_limit) made
                ∙ same_numbers accepted_snapshot.limit_after _ c9);
        reserved =
            r4
            ∙ ap ok (
                ap (λ (c : CreditReads). c.reserved) made
                ∙ same_numbers accepted_snapshot.reserved _ c6);
        exposure =
            r5
            ∙ ap ok (
                ap (λ (c : CreditReads). c.exposure) made
                ∙ same_numbers accepted_snapshot.exposure _ c7);
        repayment =
            r6
            ∙ ap ok (
                ap (λ (c : CreditReads). c.repayment) made
                ∙ state-applied credit.repayment
                    (enum_label-named evidence_states credit.repayment _ "APPLIED" s1 c10));
        race =
            r7
            ∙ ap ok (
                ap (λ (c : CreditReads). c.race) made
                ∙ state-applied credit.race
                    (enum_label-named evidence_states credit.race _ "APPLIED" s2 c11));
      }

  -- A read that returns, and on which the page shows no difference, has read the accepted answers: the chain
  -- of the deployment, a deal that is paid on time, both pieces of evidence applied, and the amounts, score
  -- and limits of the snapshot.
  pub read_live_state-IsAccepted :
      (observed_at : ℕ) {value : LiveState}
      → read_live_state node observed_at ≡ ok value
      → compare_live_to_accepted_snapshot value ≡ []
      → IsAccepted node
  unfolding read_live_state
  read_live_state-IsAccepted observed_at e shown =
      let (chain_id, chain, e1) = bind-eq-ok node.chain_id _ e in
      let (block_number, block, e2) = bind-eq-ok node.block_number _ e1 in
      let (deal, deal_read, e3) = bind-eq-ok (node.deal accepted_deal_id) _ e2 in
      let (u, guarded, e4) =
        bind-eq-ok
          (guard (chain_id == deployment_chain_id) (
            "Expected chain "
            <> (decimal deployment_chain_id <> (", received " <> decimal chain_id))))
          _ e3 in
      let (borrower, checksum, e5) = bind-eq-ok (node.get_address deal.borrower) _ e4 in
      let (investor, checksum', e6) = bind-eq-ok (node.get_address deal.designated_investor) _ e5 in
      let (credit, credit_read, e7) = bind-eq-ok (read_credit node borrower) _ e6 in
      let same_chain =
        guard-eq-ok (chain_id == deployment_chain_id)
          ("Expected chain "
            <> (decimal deployment_chain_id <> (", received " <> decimal chain_id)))
          guarded in
      accepted chain_id block_number observed_at borrower investor deal credit e7 shown
        (chain ∙ ap ok (sym (same_numbers chain_id deployment_chain_id same_chain))) deal_read
        checksum credit_read
