-- ===== src/Chain/Preparation.antt =====
-- What worker/chain.ts prepares, and what it asks the source node.
use cr3d_x.Base.{
  ℕ, subst, ◌⊎◌, inl, inr, ◌+◌, ◌*◌, ◌≤◌, ◌<◌, ◌≡◌, refl, Bool, true, false, Option, none, some,
  List, [], ◌∷◌, All, arith,
}
use cr3d_x.Types.Port.{
  Result, ok, threw, TransactionRequest, PreparedTransaction, FeeTerms, eip1559, legacy,
}
use cr3d_x.Chain.{
  FeeData, gas_limit_of, filled_request, prepared_with, legacy_prepared, priced, quoted, prepare,
  exceeds_window,
}
use cr3d_x.Engine.Scan.Windows.{windows}
use cr3d_x.Engine.Scan.Tiles.{Tiles, windows-Tiles}

-- The terms are those of the quote, its maximum fee and priority where it has both and else its gas price, and
-- a unit of gas costs the price at most.
abbrev pub CapsPrice : FeeData → FeeTerms → ℕ → Type 0
CapsPrice quote (eip1559 max_fee priority) price =
    (quote.max_fee_per_gas ≡ some max_fee)
    × (quote.max_priority_fee_per_gas ≡ some priority)
    × (max_fee ≡ price)
CapsPrice quote (legacy gas_price) price =
    ((quote.max_fee_per_gas ≡ none) ⊎ (quote.max_priority_fee_per_gas ≡ none))
    × (quote.gas_price ≡ some gas_price)
    × (gas_price ≡ price)

pub record IsPricedBy (request : TransactionRequest) (nonce estimate : ℕ) (quote : FeeData)
    (p : PreparedTransaction) : Type 0 where
  pub fees : FeeTerms
  pub same_call :
      p.request
      ≡ record request { nonce = some nonce; gas_limit = some p.gas_limit; fees = some fees }
  pub same_estimate : p.estimate ≡ estimate
  pub capped : CapsPrice quote fees p.price
  pub enough : estimate * 120 ≤ p.gas_limit * 100
  pub tight : p.gas_limit * 100 < estimate * 120 + 100

prepared_with-IsPricedBy :
    (request : TransactionRequest) (nonce estimate : ℕ) (quote : FeeData) (fees : FeeTerms)
    (price : ℕ)
    → CapsPrice quote fees price
    → IsPricedBy request nonce estimate quote (prepared_with request nonce estimate fees price)
unfolding prepared_with filled_request gas_limit_of
prepared_with-IsPricedBy request nonce estimate quote fees price capped = record {
  fees = fees;
  same_call = refl;
  same_estimate = refl;
  capped = capped;
  enough = omega arith;
  tight = omega arith;
}

module _ (request : TransactionRequest) (nonce estimate : ℕ) (quote : FeeData)
    {p : PreparedTransaction} where
  legacy-IsPricedBy :
      (quote.max_fee_per_gas ≡ none) ⊎ (quote.max_priority_fee_per_gas ≡ none)
      → (gas_price : Option ℕ) → quote.gas_price ≡ gas_price
      → legacy_prepared request nonce estimate gas_price ≡ ok p
      → IsPricedBy request nonce estimate quote p
  unfolding legacy_prepared
  legacy-IsPricedBy partly none quoted e = cc
  legacy-IsPricedBy partly (some price) quoted e =
      let same : prepared_with request nonce estimate (legacy price) price ≡ p = cc in
      subst (IsPricedBy request nonce estimate quote) same (
        prepared_with-IsPricedBy request nonce estimate quote (legacy price) price
          (partly, quoted, refl))

  priced-IsPricedBy :
      (max_fee priority : Option ℕ)
      → quote.max_fee_per_gas ≡ max_fee
      → quote.max_priority_fee_per_gas ≡ priority
      → priced request nonce estimate max_fee priority quote.gas_price ≡ ok p
      → IsPricedBy request nonce estimate quote p
  unfolding priced
  priced-IsPricedBy (some fee) (some tip) has_fee has_tip e =
      let same : prepared_with request nonce estimate (eip1559 fee tip) fee ≡ p = cc in
      subst (IsPricedBy request nonce estimate quote) same (
        prepared_with-IsPricedBy request nonce estimate quote (eip1559 fee tip) fee
          (has_fee, has_tip, refl))
  priced-IsPricedBy none priority has_fee has_tip e = legacy-IsPricedBy (inl has_fee) _ refl e
  priced-IsPricedBy (some fee) none has_fee has_tip e = legacy-IsPricedBy (inr has_tip) _ refl e

-- The node has answered both questions, and the transaction is priced by these answers.
pub record IsPriced (request : TransactionRequest) (nonce : ℕ) (estimate : Result ℕ)
    (fees : Result FeeData) (p : PreparedTransaction) : Type 0 where
  pub gas : ℕ
  pub quote : FeeData
  pub estimated : estimate ≡ ok gas
  pub told : fees ≡ ok quote
  pub priced : IsPricedBy request nonce gas quote p

quoted-IsPriced :
    (request : TransactionRequest) (nonce : ℕ) (estimate : Result ℕ) (fees : Result FeeData)
    {p : PreparedTransaction}
    → quoted request nonce estimate fees ≡ ok p
    → IsPriced request nonce estimate fees p
unfolding quoted
quoted-IsPriced request nonce (threw message) fees e = cc
quoted-IsPriced request nonce (ok estimate) (threw message) e = cc
quoted-IsPriced request nonce (ok estimate) (ok fees) e = record {
  gas = estimate;
  quote = fees;
  estimated = refl;
  told = refl;
  priced = priced-IsPricedBy request nonce estimate fees _ _ refl refl e;
}

-- Where `prepare` returns, the node has answered an estimate and a quote, and the transaction is the request
-- under the nonce, with this estimate, the smallest gas limit that is not below 120 % of it, and the fees of
-- the quote: maximum fee and priority where both are quoted and else the gas price. They cap the price of
-- gas at exactly the price that is handed on.
pub prepare-IsPriced :
    (wallet : Bool) (request : TransactionRequest) (nonce : ℕ) (estimate : Result ℕ)
    (fees : Result FeeData) {p : PreparedTransaction}
    → prepare wallet request nonce estimate fees ≡ ok p
    → IsPriced request nonce estimate fees p
unfolding prepare
prepare-IsPriced false request nonce estimate fees e = cc
prepare-IsPriced true request nonce estimate fees e = quoted-IsPriced request nonce estimate fees e

-- The window passes the guard of `candidateLogs`.
abbrev pub IsQueryable : ℕ × ℕ → Type 0
IsQueryable window = exceeds_window window.0 window.1 ≡ false

Tiles-IsQueryable : (ws : List (ℕ × ℕ)) (from head : ℕ) → Tiles from head ws → All IsQueryable ws
unfolding exceeds_window
Tiles-IsQueryable [] from head t = tt
Tiles-IsQueryable ((first, last) ∷ ws) from head (same, ordered, below, small, rest) =
    (ground arith, Tiles-IsQueryable ws (last + 1) head rest)

-- No window that a scan asks for is refused as too large.
pub windows-IsQueryable : (from head : ℕ) → All IsQueryable (windows from head)
windows-IsQueryable from head =
    Tiles-IsQueryable (windows from head) from head (windows-Tiles from head)
