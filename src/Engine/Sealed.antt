-- ===== src/Engine/Sealed.antt =====
-- The part of `persistSignedEnvelope` of worker/engine.ts that admits, signs and holds a transaction.
use cr3d_x.Base.{ℕ, ◌≡◌, refl, subst, some}
use cr3d_x.Types.{InFlightPurpose, InFlightEnvelope}
use cr3d_x.Types.Port.{ok, TransactionRequest, PreparedTransaction, SignedTransaction, Env}
use cr3d_x.Policy.{PolicyVerdict, allowed, refused, assert_resource_policy}
use cr3d_x.Policy.Resources.{IsWithinLimits, assert_resource_policy-allowed}
use cr3d_x.Exec.{World, pure, throw}
use cr3d_x.Exec.Triples.{Ensures, Ensures-bind, Ensures-pure, Ensures-given}
use cr3d_x.Engine.Marks.{now}
use cr3d_x.Engine.Claim.{put_envelope, sign, permit, resource_input, admit, envelope_of, seal}
use cr3d_x.State.Values.{HasFiles, files-calls, AnswersSince, answer-Ensures, list_tasks-Ensures}

module _ (env : Env) where
  -- The chain has prepared this request under this nonce, and the policy has allowed the liability beside
  -- the tasks of the directory, at a time that the clock told and with the balance that the chain answered.
  pub record IsAdmitted (w : World) (request : TransactionRequest) (nonce liability : ℕ)
      (prepared : PreparedTransaction) : Type 0 where
    pub at : ℕ
    pub balance : ℕ
    pub prepares : AnswersSince w (λ n. env.chain.prepare n request nonce) prepared
    pub tells : AnswersSince w (λ n. ok (env.now n)) at
    pub owns : AnswersSince w env.chain.signer_balance balance
    pub within : IsWithinLimits (resource_input env prepared w.tasks at balance) liability

  permit-allowed :
      {P : World → Type 0} (verdict : PolicyVerdict)
      → Ensures P (permit env verdict) (λ liability v. P v × (verdict ≡ allowed liability))
  unfolding permit pure throw
  permit-allowed (allowed liability) = record { at = λ w p a e. (p, cc) }
  permit-allowed (refused message) = record { at = λ w p a e. cc }

  now-Ensures :
      (w : World)
      → Ensures
          (HasFiles w)
          (now env)
          (λ at v. HasFiles w v × AnswersSince w (λ n. ok (env.now n)) at)
  unfolding now
  now-Ensures w = answer-Ensures w _

  admit-IsAdmitted :
      (w : World) (request : TransactionRequest) (nonce : ℕ)
      → Ensures
          (HasFiles w)
          (admit env request nonce)
          (λ r v. HasFiles w v × IsAdmitted w request nonce r.0 r.1)
  unfolding admit
  admit-IsAdmitted w request nonce = Ensures-bind _ _ (answer-Ensures w _) λ prepared.
      Ensures-given _ λ prepares. Ensures-bind _ _ (list_tasks-Ensures env w) λ tasks.
        Ensures-given _ λ same. Ensures-bind _ _ (now-Ensures w) λ at. Ensures-given _ λ tells.
          Ensures-bind _ _ (answer-Ensures w _) λ balance. Ensures-given _ λ owns.
            Ensures-bind _ _
              (permit-allowed
                (assert_resource_policy (resource_input env prepared tasks at balance)))
              λ liability. Ensures-given _ λ verdict. Ensures-pure _ λ v h. (
                h,
                record {
                  at = at;
                  balance = balance;
                  prepares = prepares;
                  tells = tells;
                  owns = owns;
                  within =
                      subst
                        (λ ts. IsWithinLimits (resource_input env prepared ts at balance) liability)
                        same (assert_resource_policy-allowed _ liability verdict);
                },
              )

  -- The running task holds an unsent envelope for the purpose, under the nonce, with an admitted liability
  -- and the signature that was answered for the transaction that was prepared and admitted.
  pub record IsSealed (w : World) (purpose : InFlightPurpose) (request : TransactionRequest)
      (nonce : ℕ) (v : World) : Type 0 where
    pub envelope : InFlightEnvelope
    pub prepared : PreparedTransaction
    pub signature : SignedTransaction
    pub held : v.task.in_flight ≡ some envelope
    pub same_purpose : envelope.purpose ≡ purpose
    pub same_nonce : envelope.nonce ≡ nonce
    pub unsent : envelope.broadcast_count ≡ 0
    pub admitted : IsAdmitted w request nonce envelope.maximum_liability prepared
    pub signs : AnswersSince w (λ n. env.chain.sign n prepared.request) signature
    pub same_hash : envelope.transaction_hash ≡ signature.hash
    pub same_raw : envelope.raw_transaction ≡ signature.raw

  sign-Ensures :
      (w : World) (request : TransactionRequest)
      → Ensures
          (HasFiles w)
          (sign env request)
          (λ s v. HasFiles w v × AnswersSince w (λ n. env.chain.sign n request) s)
  unfolding sign
  sign-Ensures w request = record {
    at = λ v h s e. (
      record { state = h.state; tasks = h.tasks; later = ((files-calls w).at v h).later },
      record { at = v.calls; later = h.later; answered = e },
    );
  }

  put_envelope-Ensures :
      (w : World) (purpose : InFlightPurpose) (request : TransactionRequest)
      (nonce liability at : ℕ) (prepared : PreparedTransaction) (signature : SignedTransaction)
      → IsAdmitted w request nonce liability prepared
      → AnswersSince w (λ n. env.chain.sign n prepared.request) signature
      → Ensures
          (HasFiles w)
          (put_envelope (envelope_of env purpose nonce liability signature at))
          (λ _ v. IsSealed w purpose request nonce v)
  unfolding put_envelope envelope_of
  put_envelope-Ensures w purpose request nonce liability at prepared signature admitted signs =
      record {
        at = λ v h a e. record {
          envelope = envelope_of env purpose nonce liability signature at;
          prepared = prepared;
          signature = signature;
          held = refl;
          same_purpose = refl;
          same_nonce = refl;
          unsent = refl;
          admitted = admitted;
          signs = signs;
          same_hash = refl;
          same_raw = refl;
        };
      }

  pub seal-IsSealed :
      (w : World) (purpose : InFlightPurpose) (request : TransactionRequest) (nonce : ℕ)
      → Ensures
          (HasFiles w)
          (seal env purpose request nonce)
          (λ _. IsSealed w purpose request nonce)
  unfolding seal
  seal-IsSealed w purpose request nonce = Ensures-bind _ _ (admit-IsAdmitted w request nonce) λ r.
      Ensures-given _ λ admitted. Ensures-bind _ _ (sign-Ensures w r.1.request) λ signature.
        Ensures-given _ λ signs. Ensures-bind _ _ (now-Ensures w) λ at.
          Ensures-given _
            λ told. put_envelope-Ensures w purpose request nonce r.0 at r.1 signature admitted signs
