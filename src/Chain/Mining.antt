-- ===== src/Chain/Mining.antt =====
-- MineBlock, requestValidation and ValidateBlock of blockchain/block.go. What the validators answer is
-- an argument: `none` where the request fails. The loop over nonces takes fuel.
pub mod Search
use hybridblockchain.Common.{
  Call, returns, panics, ℕ, zero, suc, ◌+◌, ◌/◌, Bool, true, false, not, ◌&&◌, Option, none, some,
  List, [], ◌∷◌, Text, codes, text_eq, ◌==◌, ltb, if◌then◌else◌, Crypto, add64, length, GoMap,
  Float64,
}
use hybridblockchain.Tx.{Transaction, is_coinbase, is_validator_reward, tx_verify_signature}
use hybridblockchain.Trie.{get_all}
use hybridblockchain.Chain.{Block, calculate_hash, is_hash_valid}

pub data MiningError : Type 0 where
  no_validators insufficient_validations : MiningError

-- A reply: the validator's address, its verdict, and its signature where that can be decoded.
pub record Answer : Type 0 where
  pub address : Text
  pub valid : Bool
  pub signature : Option Text

module _ {F : Type 0} where
  abbrev pub with_difficulty : ℕ → Block F → Block F
  with_difficulty difficulty b = record b { header = record b.header { difficulty = difficulty } }

  abbrev pub with_nonce : ℕ → Block F → Block F
  with_nonce nonce b = record b { header = record b.header { nonce = nonce } }

  abbrev pub with_validator : Text → Text → Block F → Block F
  with_validator address signature b = record b {
    header = record b.header { validated_by = address; validator_sig = signature };
  }

  -- requestValidation, after the reply: a positive one is noted in the header.
  unfoldable pub note_answer : Answer → Block F → Block F
  note_answer answer b =
      if answer.valid
      then with_validator answer.address
          (elim answer.signature [ none ↦ b.header.validator_sig | some signature ↦ signature ]) b
      else b

  -- The loop of MineBlock over the validators: the block, and the number of positive answers.
  unfoldable pub ask_validators : List (Option Answer) → Block F → ℕ → Block F × ℕ
  unfolding note_answer
  ask_validators [] b count = (b, count)
  ask_validators (none ∷ answers) b count = ask_validators answers b count
  ask_validators (some answer ∷ answers) b count =
      ask_validators answers (note_answer answer b) (if answer.valid then suc count else count)

module _ {F : Type 0} (crypto : Crypto F) where
  -- The loop of MineBlock: the block with its hash, or `none` where the fuel ends.
  unfoldable pub mine_loop : ℕ → ℕ → Block F → Option (Block F)
  unfolding calculate_hash is_hash_valid
  mine_loop zero difficulty b = none
  mine_loop (suc fuel) difficulty b =
      let later = mine_loop fuel difficulty (with_nonce (add64 b.header.nonce 1) b) in
      if is_hash_valid (calculate_hash crypto b) difficulty
      then some (record b { hash = calculate_hash crypto b })
      else later

  -- MineBlock: the answers of the validators that GetValidators(3) names, or `none` for its error.
  unfoldable pub mine_block :
      ℕ → ℕ → Option (List (Option Answer)) → Block F → Option (Block F × Option MiningError)
  unfolding mine_loop ask_validators
  mine_block fuel difficulty answers b =
      elim (mine_loop fuel difficulty (with_difficulty difficulty b)) [
        | none ↦ none
        | some mined ↦ elim answers [
          | none ↦ some (mined, some no_validators)
          | some given ↦
              let asked = ask_validators given mined 0 in
              if ltb asked.1 (length given / 2 + 1)
              then some (asked.0, some insufficient_validations)
              else some (asked.0, none)
        ]
      ]

  -- The body of the loop of ValidateBlock.
  unfoldable pub valid_in_block : GoMap Text → Transaction F → Call Bool
  valid_in_block keys tx =
      if is_coinbase tx
      then returns (text_eq tx.sender (codes "coinbase") && length tx.outputs == 1)
      else if is_validator_reward tx
      then returns (text_eq tx.sender (codes "system") && length tx.outputs == 1)
      else tx_verify_signature crypto keys tx

  unfoldable pub all_valid : GoMap Text → List (Transaction F) → Call Bool
  unfolding valid_in_block
  all_valid keys [] = returns true
  all_valid keys (tx ∷ txs) =
      let rest = all_valid keys txs in
      elim (valid_in_block keys tx) [
        | panics ↦ panics
        | returns false ↦ returns false
        | returns true ↦ rest
      ]

  -- ValidateBlock, over the public keys that are registered. It reads the stored hashes.
  unfoldable pub accepts_block : GoMap Text → Block F → Block F → Call Bool
  unfolding is_hash_valid all_valid
  accepts_block keys b previous =
      if b.header.block_number == add64 previous.header.block_number 1
        && (text_eq b.header.previous_hash previous.hash
            && is_hash_valid b.hash b.header.difficulty)
      then all_valid keys (get_all b.transactions)
      else returns false
