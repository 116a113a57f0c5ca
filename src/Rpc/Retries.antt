-- ===== src/Rpc/Retries.antt =====
-- Which attempt scripts/lib/rpc.ts `withRetry` answers, and how long it waits.
use cr3d_x.Base.{
  ℕ, zero, suc, ◌+◌, ◌-◌, ◌*◌, ◌^◌, ◌≤◌, ◌<◌, String, ◌<>◌, ◌≡◌, refl, sym, ap, ◌∙◌, subst, ◌⊎◌,
  inl, inr, ltb, decimal, arith, sum, Bool-cases, ltb→lt,
}
use native.Mathlib.Nat.{eq-or-lt_of_le}
use cr3d_x.Types.Port.{Result, ok, threw}
use cr3d_x.Rpc.{Retried, backoff, gave_up, round, retry_loop, with_retry}

module _ {ℓ} {A : Type ℓ} (label : String) (attempts : ℕ) (fn : ℕ → Result A) where
  -- The attempts from one on and below another have thrown.
  abbrev pub AllThrew : ℕ → ℕ → Type ℓ
  AllThrew first next = (j : ℕ) → first ≤ j → j < next → (message : String) × (fn j ≡ threw message)

  -- The message that stands before the next attempt is the one of the attempt before it.
  abbrev pub IsLast : ℕ → String → Type ℓ
  IsLast next last = ((next ≡ 1) × (last ≡ "undefined")) ⊎ (fn (next - 1) ≡ threw last)

  -- The first attempt that does not throw decides; where all throw, the message has their number and the
  -- last one's message.
  pub data IsOutcome (first next : ℕ) : Result A → Type ℓ where
    succeeded :
        (i : ℕ) (value : A)
        → first ≤ i
        → i < next
        → AllThrew first i
        → fn i ≡ ok value
        → IsOutcome first next (ok value)
    exhausted :
        (last : String)
        → AllThrew first next
        → IsLast next last
        → IsOutcome first next
            (threw (label <> " failed after " <> decimal attempts <> " attempts: " <> last))

  threw-AllThrew :
      (first next : ℕ) (message : String)
      → fn first ≡ threw message
      → AllThrew (suc first) next
      → AllThrew first next
  threw-AllThrew first next message at rest j low high = elim (eq-or-lt_of_le low) [
    | inl same ↦ (message, ap fn (sym same) ∙ at)
    | inr above ↦ rest j above high
  ]

  earlier-IsOutcome :
      (first next : ℕ) (message : String) {result : Result A}
      → fn first ≡ threw message
      → IsOutcome (suc first) next result
      → IsOutcome first next result
  earlier-IsOutcome first next message at (succeeded i value low high threw_before here) =
      succeeded i value (omega arith) high (threw-AllThrew first i message at threw_before) here
  earlier-IsOutcome first next message at (exhausted last all_threw known) =
      exhausted last (threw-AllThrew first next message at all_threw) known

  round-IsOutcome :
      (i next : ℕ) (answer : Result A) (rest : String → Retried A)
      → fn i ≡ answer
      → i < next
      → ((message : String) → fn i ≡ threw message → IsOutcome (suc i) next (rest message).result)
      → IsOutcome i next (round label attempts fn i answer rest).result
  unfolding round
  round-IsOutcome i next (ok value) rest at below later =
      succeeded i value (omega arith) below
        (λ j low high. let never : ⊥ = omega arith in elim never [ ]) at
  round-IsOutcome i next (threw message) rest at below later =
      earlier-IsOutcome i next message at (later message at)

  plus_nothing : (i : ℕ) → i ≡ i + 0
  plus_nothing i = omega arith

  one_less : (i : ℕ) → suc i - 1 ≡ i
  one_less i = omega arith

  retry_loop-IsOutcome :
      (remaining i : ℕ) (last : String)
      → IsLast i last
      → IsOutcome i (i + remaining) (retry_loop label attempts fn remaining i last).result
  unfolding retry_loop gave_up
  retry_loop-IsOutcome zero i last known =
      subst (λ n. IsOutcome i n (gave_up label attempts fn last).result) (plus_nothing i)
        (exhausted last (λ j low high. let never : ⊥ = omega arith in elim never [ ]) known)
  retry_loop-IsOutcome (suc remaining) i last known =
      round-IsOutcome i (i + suc remaining) (fn i) _ refl (omega arith) (λ message at.
        subst
          (λ n. IsOutcome (suc i) n (retry_loop label attempts fn remaining (suc i) message).result)
          (omega arith)
          (retry_loop-IsOutcome remaining (suc i) message (inr (ap fn (one_less i) ∙ at))))

  -- The result of `withRetry` is that of the first attempt that does not throw, after all attempts before
  -- it have thrown, or, where every one has thrown, the error with their number and the last one's message.
  pub with_retry-IsOutcome : IsOutcome 1 (1 + attempts) (with_retry label attempts fn).result
  unfolding with_retry
  with_retry-IsOutcome = retry_loop-IsOutcome attempts 1 "undefined" (inl (refl, refl))

  round-pauses :
      (k : ℕ) (answer : Result A) (rest : String → Retried A) (bound : ℕ)
      → 1000 * 2 ^ k ≤ bound
      → (suc k < attempts
          → (message : String) → sum (rest message).pauses + 1000 * 2 ^ suc k ≤ bound)
      → (attempts ≤ suc k → (message : String) → sum (rest message).pauses ≡ 0)
      → sum (round label attempts fn (suc k) answer rest).pauses + 1000 * 2 ^ k ≤ bound
  unfolding round backoff
  round-pauses k (ok value) rest bound small more none_left = omega arith
  round-pauses k (threw message) rest bound small more none_left =
      elim (Bool-cases (ltb (suc k) attempts)) [
        | inl again ↦
            let later = more (ltb→lt (suc k) attempts again) message in ground (arith, again)
        | inr last ↦
            let stop : attempts ≤ suc k = ground (arith, last) in
            let nothing = none_left stop message in ground (arith, last)
      ]

  retry_loop-pauses :
      (remaining k : ℕ) (last : String)
      → suc k + remaining ≡ attempts
      → sum (retry_loop label attempts fn (suc remaining) (suc k) last).pauses + 1000 * 2 ^ k
        ≤ 1000 * 2 ^ (attempts - 1)
  unfolding retry_loop gave_up
  retry_loop-pauses zero k last here =
      let same : k ≡ attempts - 1 = omega arith in
      let power : 2 ^ k ≡ 2 ^ (attempts - 1) = ap (λ n. 2 ^ n) same in
      round-pauses k (fn (suc k)) (gave_up label attempts fn) _ (omega arith)
        (λ again message. let never : ⊥ = omega arith in elim never [ ]) (λ stop message. refl)
  retry_loop-pauses (suc remaining) k last here =
      let later = λ (message : String). retry_loop-pauses remaining (suc k) message (omega arith) in
      let enough = later last in
      round-pauses k (fn (suc k)) _ _ (omega arith) (λ again. later)
        (λ stop message. let never : ⊥ = omega arith in elim never [ ])

  -- With at least one attempt, all pauses of `withRetry` together are a second less than 2 ^ (attempts - 1)
  -- seconds at most.
  pub with_retry-pauses :
      0 < attempts → sum (with_retry label attempts fn).pauses + 1000 ≤ 1000 * 2 ^ (attempts - 1)
  unfolding with_retry
  with_retry-pauses some_attempt =
      let all : suc (attempts - 1) ≡ attempts = omega arith in
      let one_first : 1 + (attempts - 1) ≡ attempts = omega arith in
      subst
        (λ n.
          sum (retry_loop label attempts fn n 1 "undefined").pauses + 1000
          ≤ 1000 * 2 ^ (attempts - 1))
        all (retry_loop-pauses (attempts - 1) 0 "undefined" one_first)
