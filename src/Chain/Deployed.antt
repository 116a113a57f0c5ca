-- ===== src/Chain/Deployed.antt =====
-- What `assertDeploymentConfiguration` of worker/chain.ts lets pass.
use cr3d_x.Base.{
  ℕ, String, ◌≡◌, refl, str_eq, Bool, true, false, ◌↔◌, List, [], ◌∷◌, ◌==◌, same_hex, arith,
  same_number,
}
use cr3d_x.Types.{Hex, WorkerConfig}
use cr3d_x.Types.Port.{ok}
use cr3d_x.Chain.Reads.{
  Deployment, note_mismatch, refuse_mismatches, mismatches, assert_deployment_configuration,
}

note_mismatch-none :
    (test : Bool) (name : String) (later : List String)
    → note_mismatch test name later ≡ []
    → (test ≡ true) × (later ≡ [])
unfolding note_mismatch
note_mismatch-none true name later e = (refl, e)
note_mismatch-none false name later e = cc

refuse_mismatches-none : (names : List String) → refuse_mismatches names ≡ ok tt → names ≡ []
unfolding refuse_mismatches
refuse_mismatches-none [] e = refl
refuse_mismatches-none (first ∷ names) e = cc

number_eq : (m n : ℕ) → (m == n) ≡ true → m ≡ n
number_eq m n e = ground arith

module _ (config : WorkerConfig) (get_address : Hex → Hex) where
  -- Every answer is the configured one, addresses up to their checksum and topics up to case.
  pub record IsConfigured (d : Deployment) : Type 0 where
    pub source_chain : d.source_chain_id ≡ config.source_chain_id
    pub destination_chain : d.destination_chain_id ≡ config.destination_chain_id
    pub verifier_key : d.verifier_chain_key ≡ config.source_chain_key
    pub deals_key : d.deals_chain_key ≡ config.source_chain_key
    pub gateway : str_eq (get_address d.gateway) (get_address config.gateway_address) ≡ true
    pub funding : same_hex d.funding_topic config.funding_topic ≡ true
    pub repayment : same_hex d.repayment_topic config.repayment_topic ≡ true
    pub verifier :
        str_eq (get_address d.deals_verifier) (get_address config.verifier_address) ≡ true

  passed :
      (d : Deployment)
      → assert_deployment_configuration config get_address (ok d) ≡ ok tt
      → IsConfigured d
  unfolding assert_deployment_configuration mismatches
  passed d e =
      let (source, r0) = note_mismatch-none _ _ _ (refuse_mismatches-none _ e) in
      let (destination, r1) = note_mismatch-none _ _ _ r0 in
      let (verifier_key, r2) = note_mismatch-none _ _ _ r1 in
      let (deals_key, r3) = note_mismatch-none _ _ _ r2 in
      let (gateway, r4) = note_mismatch-none _ _ _ r3 in
      let (funding, r5) = note_mismatch-none _ _ _ r4 in
      let (repayment, r6) = note_mismatch-none _ _ _ r5 in
      let (verifier, r7) = note_mismatch-none _ _ _ r6 in
      record {
        source_chain = number_eq _ _ source;
        destination_chain = number_eq _ _ destination;
        verifier_key = number_eq _ _ verifier_key;
        deals_key = number_eq _ _ deals_key;
        gateway = gateway;
        funding = funding;
        repayment = repayment;
        verifier = verifier;
      }

  passes :
      (d : Deployment)
      → IsConfigured d
      → assert_deployment_configuration config get_address (ok d) ≡ ok tt
  unfolding assert_deployment_configuration mismatches note_mismatch refuse_mismatches
  passes d c =
      rw
        (
          c.source_chain,
          c.destination_chain,
          c.verifier_key,
          c.deals_key,
          same_number config.source_chain_id,
          same_number config.destination_chain_id,
          same_number config.source_chain_key,
          c.gateway,
          c.funding,
          c.repayment,
          c.verifier,
        )
        refl

  -- The check passes exactly when all eight answers are the configured ones: the two chain ids, the chain
  -- keys of the verifier and of the deals contract, the gateway and the deals contract's verifier up to
  -- their checksum, and the two topics up to case.
  pub assert_deployment_configuration-IsConfigured :
      (d : Deployment)
      → (assert_deployment_configuration config get_address (ok d) ≡ ok tt) ↔ IsConfigured d
  assert_deployment_configuration-IsConfigured d = (passed d, passes d)
