-- ===== src/Payments.antt =====
-- Making a transaction: the constructors of blockchain/transaction.go, and SelectUTXOs, which chooses
-- the outputs that it spends. `now` is time.Now() in seconds. SelectUTXOs sorts by sort.Slice, which
-- leaves the order of equal amounts open: so does the order in which the run ranges over the pool's
-- map, in which the sort of this model keeps them.
pub mod Selection
use hybridblockchain.Common.{
  ℕ, ◌+◌, ◌-◌, ◌*◌, ◌==◌, ◌&&◌, Bool, true, false, Option, none, some, List, [], ◌∷◌, ◌++◌, Text,
  codes, decimal, int_text, text_eq, hex_encode, ltb, add64, mul64, u64_mod, if◌then◌else◌,
  sort_stable, ℤ, pos, eq_ℤ, Float64, float, Crypto, length,
}
use hybridblockchain.Tx.{
  Transaction, TransactionInput, TransactionOutput, Utxo, GasError, tx_coinbase,
  tx_validator_reward, tx_stake, min_gas_price, validate_gas, convert_gas_to_tokens,
}
use hybridblockchain.Gas.{priority_normal}
use hybridblockchain.Utxo.{UtxoPool}
use hybridblockchain.Utxo.Sets.{utxos_for_address}

pub data BuildError : Type 0 where
  price_below_minimum fee_above_maximum : BuildError
  invalid_gas : GasError → BuildError

pub data SelectError : Type 0 where
  no_pool no_utxos insufficient_funds : SelectError

-- DefaultGasLimit
abbrev pub default_gas_limit : ℕ
default_gas_limit = 21000

module _ {F : Type 0} where
  -- The fields that every constructor leaves or sets alike, and one output to the receiver.
  abbrev pub bare_transaction : ℤ → Text → Text → F → F → ℤ → Text → Transaction F
  bare_transaction now sender receiver amount gas_fee tx_type script = record {
    transaction_id = [];
    sender = sender;
    receiver = receiver;
    amount = amount;
    timestamp = now;
    nonce = 0;
    gas_fee = gas_fee;
    inputs = [];
    outputs = (record { receiver = receiver; amount = amount; script_pub_key = script }) ∷ [];
    tx_type = tx_type;
    gas_limit = 0;
    gas_price = 0;
    gas_used = 0;
    priority = pos 0;
    max_fee_per_gas = 0;
    tx_data = [];
    signature = [];
    sender_pub_key = [];
  }

  abbrev pub with_id : Text → Transaction F → Transaction F
  with_id txid tx = record tx { transaction_id = txid }

  -- AddInput
  abbrev pub add_input : Text → ℤ → Text → Transaction F → Transaction F
  add_input txid index signature tx = record tx {
    inputs =
        tx.inputs
        ++ (record { transaction_id = txid; output_index = index; signature = signature }) ∷ [];
  }

  -- The loop of SelectUTXOs that adds the inputs.
  unfoldable pub add_inputs : List (Utxo F) → Transaction F → Transaction F
  add_inputs [] tx = tx
  add_inputs (u ∷ us) tx = add_inputs us (add_input u.transaction_id u.output_index [] tx)

module _ {F : Type 0} ⦃fl : Float64 F⦄ where
  -- AddChangeOutput
  unfoldable pub add_change_output : F → Transaction F → Transaction F
  add_change_output change tx =
      if fl.lt (float 0) change
      then record tx {
        outputs =
            tx.outputs
            ++ (record { receiver = tx.sender; amount = change; script_pub_key = [] }) ∷ [];
      }
      else tx

  -- The loop of SelectUTXOs that chooses: what it takes, and their total.
  unfoldable pub select_from : F → F → List (Utxo F) → List (Utxo F) × F
  select_from needed total [] = ([], total)
  select_from needed total (u ∷ us) =
      let total' = if u.spent then total else fl.add total u.amount in
      let later = select_from needed total' us in
      if u.spent
      then later
      else if fl.le needed total'
      then (u ∷ [], total')
      else (u ∷ later.0, later.1)

  -- `senderUTXOs[i].Amount > senderUTXOs[j].Amount`
  abbrev pub larger_amount : Utxo F → Utxo F → Bool
  larger_amount a b = fl.lt b.amount a.amount

  abbrev pub total_needed : Transaction F → F
  total_needed tx = fl.add tx.amount tx.gas_fee

  -- SelectUTXOs
  unfoldable pub select_utxos :
      {D : Type 0} → Option (UtxoPool F D) → Transaction F → Transaction F × Option SelectError
  unfolding select_from add_inputs add_change_output
  select_utxos none tx = (tx, some no_pool)
  select_utxos (some pool) tx =
      let owned = utxos_for_address tx.sender pool.utxos in
      let chosen = select_from (total_needed tx) (float 0) (sort_stable larger_amount owned) in
      if length owned == 0
      then (tx, some no_utxos)
      else if fl.lt chosen.1 (total_needed tx)
      then (tx, some insufficient_funds)
      else (add_change_output (fl.sub chosen.1 (total_needed tx)) (add_inputs chosen.0 tx), none)

module _ {F : Type 0} (crypto : Crypto F) where
  abbrev sha256_hex : Text → Text
  sha256_hex text = hex_encode (crypto.sha256 text)

  -- GenerateTransactionID
  unfoldable pub generate_transaction_id : Transaction F → Text
  generate_transaction_id tx = sha256_hex (
      tx.sender
      ++ (tx.receiver
          ++ (crypto.format_f6 tx.amount
              ++ (decimal tx.gas_price
                  ++ (decimal tx.gas_limit ++ (int_text tx.priority ++ int_text tx.timestamp))))))

  -- GenerateCoinbaseID and GenerateValidatorRewardID differ in the word they start with.
  unfoldable pub generate_reward_id : Text → ℕ → Transaction F → Text
  generate_reward_id word height tx = sha256_hex (
      word
      ++ (tx.receiver
          ++ 45 ∷ crypto.format_f6 tx.amount
          ++ 45 ∷ int_text tx.timestamp
          ++ 45 ∷ decimal height))

  -- NewCoinbaseTransaction and NewValidatorRewardTransaction
  unfoldable pub new_coinbase_transaction : ⦃fl : Float64 F⦄ → ℤ → Text → F → ℕ → Transaction F
  unfolding generate_reward_id
  new_coinbase_transaction now miner reward height =
      let tx =
        record (bare_transaction now (codes "coinbase") miner reward (float 0) tx_coinbase []) {
          tx_data = codes "Block Reward " ++ decimal height;
        } in
      with_id (generate_reward_id (codes "coinbase-") height tx) tx

  unfoldable pub new_validator_reward_transaction :
      ⦃fl : Float64 F⦄ → ℤ → Text → F → ℕ → Transaction F
  unfolding generate_reward_id
  new_validator_reward_transaction now validator reward height =
      let tx =
        record (bare_transaction now (codes "system") validator reward (float 0) tx_validator_reward
          []) { tx_data = codes "Validator Reward " ++ decimal (add64 height (u64_mod - 1)) } in
      with_id (generate_reward_id (codes "validator-reward-") height tx) tx

  -- NewTransaction
  unfoldable pub new_transaction :
      ⦃fl : Float64 F⦄ → ℤ → Text → Text → F → ℕ → ℕ → Option (Transaction F) × Option BuildError
  unfolding generate_transaction_id
  new_transaction ⦃fl⦄ now sender receiver amount gas_price gas_limit =
      let limit = if gas_limit == 0 then default_gas_limit else gas_limit in
      let fee : F = convert_gas_to_tokens (mul64 limit gas_price) in
      let tx = record (bare_transaction now sender receiver amount fee (pos 0) []) {
        gas_limit = limit;
        gas_price = gas_price;
        priority = priority_normal;
        max_fee_per_gas = mul64 gas_price 2;
      } in
      if ltb gas_price min_gas_price
      then (none, some price_below_minimum)
      else if fl.lt (float 2) fee
      then (none, some fee_above_maximum)
      else elim (validate_gas tx) [
        | some e ↦ (none, some (invalid_gas e))
        | none ↦ (some (with_id (generate_transaction_id tx) tx), none)
      ]

  -- NewStakeTransaction. `format_f4` is `%.4f`.
  unfoldable pub new_stake_transaction :
      ⦃fl : Float64 F⦄ → (F → Text) → ℤ → Text → F → Text → Option (Transaction F)
  new_stake_transaction ⦃fl⦄ format_f4 now sender amount public_key =
      let tx =
        record (bare_transaction now sender sender amount (float 0) tx_stake (codes "STAKE")) {
          priority = pos 10;
          tx_data = codes "Stake " ++ format_f4 amount;
          sender_pub_key = public_key;
        } in
      if fl.le amount (float 0)
      then none
      else some (
          with_id
            (sha256_hex (
              codes "STAKE-"
              ++ (sender
                  ++ (sender ++ (crypto.format_f8 amount ++ (int_text now ++ int_text tx_stake))))))
            tx)
