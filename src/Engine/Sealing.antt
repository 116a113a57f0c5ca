-- ===== src/Engine/Sealing.antt =====
-- What `persistSignedEnvelope` of worker/engine.ts has done when it claims the lane.
use cr3d_x.Base.{ℕ, ◌<◌, ◌≡◌, All}
use cr3d_x.Types.{InFlightPurpose}
use cr3d_x.Types.Port.{TransactionRequest, Nonces, Env}
use cr3d_x.Exec.{World}
use cr3d_x.State.Directory.{IsIdle}
use cr3d_x.Engine.Marks.{confirmed_nonces, next_nonce}
use cr3d_x.State.Values.{AnswersSince}
use cr3d_x.Engine.Sealed.{IsSealed}

module _ (env : Env) where
  -- The signer's nonces, latest and pending, were answered as the expected one.
  abbrev pub AnswersNonce : World → ℕ → Type 0
  AnswersNonce w expected =
      (nonces : Nonces) × AnswersSince w env.chain.nonces nonces
      × (nonces.latest ≡ expected)
      × (nonces.pending ≡ expected)

  -- What holds after a claim.
  pub record IsClaimed (w : World) (purpose : InFlightPurpose) (request : TransactionRequest)
      (v : World) : Type 0 where
    pub free : All IsIdle w.tasks
    pub claim : IsSealed env w purpose request (next_nonce w.state (confirmed_nonces w.tasks)) v
    pub fresh :
        All (λ n. n < next_nonce w.state (confirmed_nonces w.tasks)) (confirmed_nonces w.tasks)
    pub agreed : AnswersNonce w (next_nonce w.state (confirmed_nonces w.tasks))
