-- ===== src/Chain/Rewards.antt =====
-- The rewards for a block: calculateBlockReward, calculateValidatorReward and calculateMinerReward of
-- blockchain/blockchain.go, and the gas and the size of a block in blockchain/block.go.
use hybridblockchain.Common.{
  ℕ, zero, suc, ◌+◌, ◌*◌, ◌/◌, List, [], ◌∷◌, ◌++◌, Text, decimal, length, ◌==◌, ltb, if◌then◌else◌,
  add64, mul64, eq_ℤ, Float64, float, decimal_literal, Crypto,
}
use hybridblockchain.Tx.{Transaction, tx_coinbase}
use hybridblockchain.Trie.{get_all}
use hybridblockchain.Chain.{Block, block_hash}

abbrev pub reward_halving_blocks : ℕ
reward_halving_blocks = 210000

abbrev pub empty_block_size : ℕ
empty_block_size = 10 * 1024

module _ {F : Type 0} ⦃fl : Float64 F⦄ where
  -- The lower bound 0.00000001 of every reward
  abbrev pub at_least_minimum : F → F
  at_least_minimum reward =
      if fl.lt reward (decimal_literal 1 100000000) then decimal_literal 1 100000000 else reward

  unfoldable pub halve_times : ℕ → F → F
  halve_times zero reward = reward
  halve_times (suc n) reward = halve_times n (fl.div reward (float 2))

  unfoldable pub sum_fees : F → List (Transaction F) → F
  sum_fees fees [] = fees
  sum_fees fees (tx ∷ txs) =
      sum_fees (if eq_ℤ tx.tx_type tx_coinbase then fees else fl.add fees tx.gas_fee) txs

  -- calculateBlockReward
  unfoldable pub calculate_block_reward : Block F → F
  unfolding halve_times sum_fees
  calculate_block_reward b =
      if b.header.block_number == 0
      then float 50
      else at_least_minimum (
          fl.add (halve_times (b.header.block_number / reward_halving_blocks) (float 50))
            (sum_fees (float 0) (get_all b.transactions)))

  -- calculateValidatorReward and calculateMinerReward
  unfoldable pub calculate_validator_reward : F → F
  calculate_validator_reward reward = at_least_minimum (fl.mul reward (decimal_literal 3 10))

  unfoldable pub calculate_miner_reward : F → F
  calculate_miner_reward reward = at_least_minimum (fl.mul reward (decimal_literal 7 10))

module _ {F : Type 0} where
  -- Transaction.GetData and calculateGas
  unfoldable pub get_data : Crypto F → Transaction F → Text
  get_data crypto tx =
      tx.sender
      ++ (tx.receiver
          ++ (crypto.format_f6 tx.amount ++ (decimal tx.gas_price ++ decimal tx.gas_limit)))

  unfoldable pub calculate_gas : Crypto F → Transaction F → ℕ
  unfolding get_data
  calculate_gas crypto tx =
      let bytes = length (get_data crypto tx) in
      add64 (if ltb 0 bytes then add64 21000 (mul64 bytes 16) else 21000) 2000

  -- calculateBlockSize
  unfoldable pub calculate_block_size : Crypto F → Block F → ℕ
  unfolding block_hash
  calculate_block_size crypto b =
      add64 (length b.header.previous_hash + length (block_hash crypto b) + 16) empty_block_size
