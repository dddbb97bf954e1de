-- ===== src/Gas/Fees.antt =====
-- Fees of a transaction (blockchain/gas/calculator.go and estimator.go), without wrapping.
use hybridblockchain.Common.{ℕ, zero, suc, ◌+◌, ◌*◌, ◌≤◌, ◌<◌, ◌≡◌, true, ℤ, pos, arith}
use hybridblockchain.Gas.{
  GasModel, TxGasInfo, calculate_base_fee, calculate_priority_fee, calculate_transaction_gas,
  validate_gas_info, estimate_gas,
}

calculate_base_fee-exact :
    (size : ℕ) → size ≤ 1125899906842624 → calculate_base_fee (pos size) ≡ 23000 + 16 * size
unfolding calculate_base_fee
calculate_base_fee-exact size h = omega (arith, h)

validate_gas_info-bounds :
    (info : TxGasInfo)
    → validate_gas_info info ≡ true
    → (10 ≤ info.gas_price) × (info.gas_price ≤ 100)
unfolding validate_gas_info
validate_gas_info-bounds info h = ground (arith, h)

calculate_priority_fee-le :
    (priority : ℤ) (g : GasModel)
    → g.current_gas_price ≤ 100
    → calculate_priority_fee priority g ≤ 200
unfolding calculate_priority_fee
calculate_priority_fee-le priority g h = ground (arith, h)

mul_bounds : (a p : ℕ) → 10 ≤ p → p ≤ 100 → (10 * a ≤ a * p) × (a * p ≤ 100 * a)
mul_bounds zero p h k = omega arith
mul_bounds (suc a) p h k = omega (arith, mul_bounds a p h k)

-- For a transaction of at most 2 ^ 50 bytes and gas information that ValidateGas accepts, the fee is
-- 23000 and 16 for each byte, at the gas price, and the priority fee, and nothing wraps.
pub calculate_transaction_gas-exact :
    (size : ℕ) (priority : ℤ) (g : GasModel)
    → size ≤ 1125899906842624
    → validate_gas_info (calculate_transaction_gas (pos size) priority g) ≡ true
    → (calculate_transaction_gas (pos size) priority g).total_fee
      ≡ (23000 + 16 * size) * g.current_gas_price + calculate_priority_fee priority g
unfolding calculate_transaction_gas
calculate_transaction_gas-exact size priority g h v =
    let price = validate_gas_info-bounds (calculate_transaction_gas (pos size) priority g) v in
    let fee = mul_bounds (23000 + 16 * size) g.current_gas_price price.0 price.1 in
    rw (calculate_base_fee-exact size h)
      (omega (arith, h, fee, calculate_priority_fee-le priority g price.1))

-- EstimateGas leaves the gas price out of the fee: for the same transaction of at most 2 ^ 50 bytes, the fee that
-- CalculateTransactionGas asks for is more, wherever ValidateGas accepts it.
pub estimate_gas-lt :
    (size : ℕ) (priority : ℤ) (g : GasModel)
    → size ≤ 1125899906842624
    → validate_gas_info (calculate_transaction_gas (pos size) priority g) ≡ true
    → (estimate_gas (pos size) priority g).total_fee
      < (calculate_transaction_gas (pos size) priority g).total_fee
unfolding estimate_gas calculate_transaction_gas
estimate_gas-lt size priority g h v =
    let price = validate_gas_info-bounds (calculate_transaction_gas (pos size) priority g) v in
    let fee = mul_bounds (23000 + 16 * size) g.current_gas_price price.0 price.1 in
    rw (calculate_base_fee-exact size h)
      (omega (arith, h, fee, calculate_priority_fee-le priority g price.1))
