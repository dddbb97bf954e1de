-- ===== src/Gas.antt =====
-- blockchain/gas: GasModel (model.go), GasCalculator (calculator.go), GasEstimator (estimator.go, its
-- texts aside) and BlockGasTracker (tracker.go). uint64 arithmetic wraps. The tracker's model, which
-- no code of the tracker reads, is left out. Each mutex guards a whole call.
pub mod Tracker
pub mod Fees
use hybridblockchain.Common.{
  ℕ, ◌+◌, ◌-◌, ◌*◌, ◌/◌, ◌%◌, Bool, true, false, not, ◌||◌, ltb, ◌==◌, if◌then◌else◌, ℤ, pos,
  negsuc, ltb_ℤ, eq_ℤ, ◌+ℤ◌, add64, sub64, mul64, u64_mod, Float64, float, List, [], ◌∷◌, suc,
}
use hybridblockchain.Tx.{base_tx_gas, min_gas_price, max_gas_price}

abbrev pub tx_data_byte_gas : ℕ
tx_data_byte_gas = 16

abbrev pub tx_sig_gas : ℕ
tx_sig_gas = 2000

abbrev pub priority_low : ℤ
priority_low = pos 0

abbrev pub priority_normal : ℤ
priority_normal = pos 1

abbrev pub priority_high : ℤ
priority_high = pos 2

pub record GasModel : Type 0 where
  pub current_gas_price : ℕ
  pub block_gas_used : ℕ
  pub block_gas_limit : ℕ

pub record TxGasInfo : Type 0 where
  pub gas_used : ℕ
  pub gas_price : ℕ
  pub total_fee : ℕ
  pub priority : ℤ

-- `EstimationResult`, its texts aside.
pub record EstimationResult : Type 0 where
  pub base_fee : ℕ
  pub priority_fee : ℕ
  pub total_fee : ℕ

pub record BlockGasTracker : Type 0 where
  pub gas_used : ℕ
  pub gas_limit : ℕ
  pub tx_count : ℤ

-- uint64(n) of an int
abbrev pub to_u64 : ℤ → ℕ
to_u64 (pos n) = n % u64_mod
to_u64 (negsuc n) = u64_mod - 1 - n % u64_mod

-- NewGasModel
abbrev pub new_gas_model : ℕ → ℕ → GasModel
new_gas_model initial limit = record {
  current_gas_price = if ltb initial min_gas_price then 20 else initial;
  block_gas_used = 0;
  block_gas_limit = limit;
}

-- CalculateBaseFee
unfoldable pub calculate_base_fee : ℤ → ℕ
calculate_base_fee size =
    add64 (add64 base_tx_gas (mul64 (to_u64 size) tx_data_byte_gas)) tx_sig_gas

-- CalculatePriorityFee
unfoldable pub calculate_priority_fee : ℤ → GasModel → ℕ
calculate_priority_fee priority g =
    if eq_ℤ priority priority_high
    then mul64 g.current_gas_price 2
    else if eq_ℤ priority priority_normal
    then g.current_gas_price
    else g.current_gas_price / 2

-- CalculateTransactionGas
unfoldable pub calculate_transaction_gas : ℤ → ℤ → GasModel → TxGasInfo
unfolding calculate_base_fee calculate_priority_fee
calculate_transaction_gas size priority g = record {
  gas_used = calculate_base_fee size;
  gas_price = g.current_gas_price;
  total_fee =
      add64 (mul64 (calculate_base_fee size) g.current_gas_price)
        (calculate_priority_fee priority g);
  priority = priority;
}

-- GasCalculator.ValidateGas
unfoldable pub validate_gas_info : TxGasInfo → Bool
validate_gas_info info =
    if ltb info.gas_price min_gas_price || ltb max_gas_price info.gas_price
    then false
    else not (ltb_ℤ info.priority priority_low || ltb_ℤ priority_high info.priority)

-- EstimateGas
unfoldable pub estimate_gas : ℤ → ℤ → GasModel → EstimationResult
unfolding calculate_base_fee calculate_priority_fee
estimate_gas size priority g = record {
  base_fee = calculate_base_fee size;
  priority_fee = calculate_priority_fee priority g;
  total_fee = add64 (calculate_base_fee size) (calculate_priority_fee priority g);
}

-- NewBlockGasTracker, AddTransaction (whether it has no error), and Reset
abbrev pub new_block_gas_tracker : ℕ → BlockGasTracker
new_block_gas_tracker limit = record { gas_used = 0; gas_limit = limit; tx_count = pos 0 }

unfoldable pub track_transaction : TxGasInfo → BlockGasTracker → BlockGasTracker × Bool
track_transaction info bt =
    if ltb bt.gas_limit (add64 bt.gas_used info.gas_used) then (bt, false) else (
      record bt { gas_used = add64 bt.gas_used info.gas_used; tx_count = bt.tx_count +ℤ pos 1 },
      true,
    )

unfoldable pub reset_tracker : BlockGasTracker → BlockGasTracker
reset_tracker bt = record bt { gas_used = 0; tx_count = pos 0 }

module _ {F : Type 0} ⦃fl : Float64 F⦄ where
  -- GetUtilization
  unfoldable pub get_utilization : BlockGasTracker → F
  get_utilization bt = fl.div (float bt.gas_used) (float bt.gas_limit)
