-- ===== src/Policy/Retry.antt =====
-- The delays of worker/policy.ts `retryDelayMs`.
use native.Mathlib.Nat.{le-div_iff_mul-le, div-le_of_le-mul, mul-le-mul}
use cr3d_x.Base.{ℕ, zero, suc, ◌+◌, ◌*◌, ◌/◌, ◌^◌, ◌≤◌, ◌<◌, min, arith}
use cr3d_x.Types.{AttemptEpoch}
use cr3d_x.Policy.{random_unit, retry_base, retry_delay_ms}

-- The jittered delay, with the unit of the random source as a variable.
jittered : ℕ → ℕ → ℕ → ℕ
jittered unit base draw = base * (9 * unit + 2 * min unit draw) / (10 * unit)

jittered-positive : (unit base draw : ℕ) → 0 < unit → 5000 ≤ base → 1 ≤ jittered unit base draw
unfolding jittered
jittered-positive unit base draw pos large =
    let nine : 9 * unit ≤ 9 * unit + 2 * min unit draw = ground arith in
    (le-div_iff_mul-le (ground arith)).1 (omega (arith, mul-le-mul large nine))

jittered-bounded : (unit base draw : ℕ) → base ≤ 300000 → jittered unit base draw ≤ 330000
unfolding jittered
jittered-bounded unit base draw small =
    let eleven : 9 * unit + 2 * min unit draw ≤ 11 * unit = ground arith in
    div-le_of_le-mul (10 * unit) (omega (arith, mul-le-mul small eleven))

power-positive : (n : ℕ) → 1 ≤ 2 ^ n
power-positive zero = ground arith
power-positive (suc n) = omega (arith, power-positive n)

retry_base-large : (retry_index : ℕ) → 5000 ≤ retry_base retry_index
unfolding retry_base
retry_base-large retry_index = ground (arith, power-positive retry_index)

retry_base-small : (retry_index : ℕ) → retry_base retry_index ≤ 300000
unfolding retry_base
retry_base-small retry_index = ground arith

random_unit-positive : 0 < random_unit
unfolding random_unit
random_unit-positive = ground arith

-- Before the deadline of its epoch, a retry waits some time, 5.5 minutes at most, and not beyond the
-- deadline, whatever the index of the retry and the draw.
pub retry_delay_ms-bounds :
    (epoch : AttemptEpoch) (now_ms draw : ℕ)
    → now_ms < epoch.deadline_at
    → let delay = retry_delay_ms epoch now_ms draw in
      (0 < delay) × (delay ≤ 330000) × (now_ms + delay ≤ epoch.deadline_at)
unfolding retry_delay_ms jittered
retry_delay_ms-bounds epoch now_ms draw early =
    let base = retry_base epoch.retry_index in
    let low =
      jittered-positive random_unit base draw random_unit-positive
        (retry_base-large epoch.retry_index) in
    let high = jittered-bounded random_unit base draw (retry_base-small epoch.retry_index) in
    ground (arith, low, high)
