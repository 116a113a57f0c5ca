-- ===== src/Policy/Resources.antt =====
-- The resource policy of worker/policy.ts: what a transaction that it allows may cost.
use cr3d_x.Base.{ℕ, ◌+◌, ◌*◌, ◌≤◌, ◌≡◌, ◌↔◌, arith}
use cr3d_x.Policy.{ResourceInput, allowed, maximum_liability, assert_resource_policy}

-- The limits hold for the worst case of the transaction, whose liability is the whole gas limit at the
-- whole price, beside what the last day and the envelopes in flight have cost.
pub record IsWithinLimits (input : ResourceInput) (liability : ℕ) : Type 0 where
  pub worst_case : liability ≡ input.final_gas_limit * input.final_price
  pub estimate : input.estimated_gas ≤ input.limits.transaction_gas_cap
  pub gas_limit : input.final_gas_limit ≤ input.limits.transaction_gas_cap
  pub price : input.final_price ≤ input.limits.max_fee_per_gas_cap
  pub budget :
      input.rolling_actual_fees + input.unresolved_reservations + liability
      ≤ input.limits.rolling_24_hour_fee_budget
  pub reserve : liability + input.limits.minimum_signer_balance_reserve ≤ input.signer_balance

pub assert_resource_policy-allowed :
    (input : ResourceInput) (liability : ℕ)
    → assert_resource_policy input ≡ allowed liability
    → IsWithinLimits input liability
unfolding assert_resource_policy maximum_liability
assert_resource_policy-allowed input liability e = record {
  worst_case = ground arith;
  estimate = ground arith;
  gas_limit = ground arith;
  price = ground arith;
  budget = ground arith;
  reserve = ground arith;
}

assert_resource_policy_complete :
    (input : ResourceInput) (liability : ℕ)
    → IsWithinLimits input liability
    → assert_resource_policy input ≡ allowed liability
unfolding assert_resource_policy maximum_liability
assert_resource_policy_complete input liability h =
    ground (arith, h.worst_case, h.estimate, h.gas_limit, h.price, h.budget, h.reserve)

-- The policy allows exactly the transactions that are within every limit, and it answers their worst-case
-- cost as liability.
pub assert_resource_policy-IsWithinLimits :
    (input : ResourceInput) (liability : ℕ)
    → (assert_resource_policy input ≡ allowed liability) ↔ IsWithinLimits input liability
assert_resource_policy-IsWithinLimits input liability = (
  assert_resource_policy-allowed input liability,
  assert_resource_policy_complete input liability,
)
