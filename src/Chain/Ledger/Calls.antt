-- ===== src/Chain/Ledger/Calls.antt =====
-- The calls of Blockchain in blockchain/blockchain.go that join validating, appending and the UTXO
-- pool, and those that look for a block.
use hybridblockchain.Common.{
  ℕ, zero, suc, not, Option, none, some, List, [], ◌∷◌, ◌++◌, Text, text_eq, decimal, ◌==◌, ltb,
  if◌then◌else◌, Crypto, add64, length, ℤ, Float64,
}
use hybridblockchain.Tx.{Transaction}
use hybridblockchain.Trie.{get_all}
use hybridblockchain.Storage.{Call, returns, panics, Storage}
use hybridblockchain.Utxo.Sets.{PoolError}
use hybridblockchain.Utxo.Calls.{process_block_transactions}
use hybridblockchain.Chain.{Block, block_hash, calculate_hash}
use hybridblockchain.Chain.Json.{BlockJson, unmarshal_block}
use hybridblockchain.Chain.Ledger.{
  Blockchain, ChainError, invalid_block_hash, invalid_previous_hash, invalid_block_number,
  block_not_found, number_mismatch, block_key, chain_sees, get_latest_block, validate_block_hash,
  accept_transaction, add_block_without_validation,
}

-- `%020d` of a height
abbrev pad_to : ℕ → Text → Text
pad_to zero text = text
pad_to (suc n) text = if ltb n (length text) then text else 48 ∷ pad_to n text

abbrev pub height_key : ℕ → Text
height_key h = block_key (pad_to 20 (decimal h))

module _ {F : Type 0} where
  unfoldable pub first_error : List (Transaction F) → Option ChainError
  unfolding accept_transaction
  first_error [] = none
  first_error (tx ∷ txs) = elim (accept_transaction tx) [ some e ↦ some e | none ↦ first_error txs ]

module _ {F : Type 0} (crypto : Crypto F) where
  -- The tests of ValidateBlock against the latest block, and those of the transactions.
  unfoldable pub link_error : Block F → Block F → Option ChainError
  unfolding block_hash first_error
  link_error b latest =
      if not (text_eq b.header.previous_hash (block_hash crypto latest))
      then some invalid_previous_hash
      else if not (b.header.block_number == add64 latest.header.block_number 1)
      then some invalid_block_number
      else first_error (get_all b.transactions)

  -- The loop of GetBlock over the chain.
  unfoldable pub find_block : Text → List (Block F) → Option (Block F)
  unfolding block_hash
  find_block hash [] = none
  find_block hash (b ∷ bs) =
      if text_eq (block_hash crypto b) hash then some b else find_block hash bs

  -- The loop of GetBlockByHeight over the chain. The hash is stored in the chain's block, too.
  unfoldable pub find_number : ℕ → List (Block F) → Option (Block F)
  unfolding block_hash
  find_number h [] = none
  find_number h (b ∷ bs) =
      if b.header.block_number == h
      then some (record b { hash = block_hash crypto b })
      else find_number h bs

module _ {F D : Type 0} (crypto : Crypto F) (js : BlockJson F) (st : Storage F D) where
  -- ValidateBlock of Blockchain: it panics where there is no block to compare with.
  unfoldable pub validate_block : Block F → Blockchain F D → Call (Option ChainError)
  unfolding validate_block_hash get_latest_block link_error
  validate_block b bc =
      if not (validate_block_hash crypto b)
      then returns (some invalid_block_hash)
      else elim (get_latest_block crypto js st bc) [
        | none ↦ panics
        | some latest ↦ returns (link_error crypto b latest)
      ]

  abbrev read_block : Text → Option D → Option (Block F)
  read_block key none = none
  read_block key (some d) = elim (st.get key d) [
    | none ↦ none
    | some bytes ↦ unmarshal_block crypto js bytes
  ]

  -- GetBlock: in memory, and then in the database; both kinds of error are one here.
  unfoldable pub get_block : Text → Blockchain F D → Option (Block F)
  unfolding find_block unmarshal_block
  get_block hash bc = elim (find_block crypto hash bc.chain) [
    | some b ↦ some b
    | none ↦ read_block (block_key hash) bc.db
  ]

  -- CalculateCumulativeDifficulty: the parent is looked for before the test for a first block.
  unfoldable pub calculate_cumulative_difficulty : Block F → Blockchain F D → ℕ × Option ChainError
  unfolding get_block
  calculate_cumulative_difficulty b bc = elim (get_block b.header.previous_hash bc) [
    | none ↦ (0, some block_not_found)
    | some parent ↦
        if b.header.block_number == 0
        then (b.header.difficulty, none)
        else if not (add64 parent.header.block_number 1 == b.header.block_number)
        then (0, some number_mismatch)
        else (add64 parent.cumulative_difficulty b.header.difficulty, none)
  ]

  -- GetBlockByHeight. A block from the database has its hash computed anew.
  unfoldable pub get_block_by_height : ℕ → Blockchain F D → Option (Block F)
  unfolding find_number unmarshal_block calculate_hash
  get_block_by_height h bc = elim (find_number crypto h bc.chain) [
    | some b ↦ some b
    | none ↦ elim (read_block (height_key h) bc.db) [
      | none ↦ none
      | some b ↦ some (record b { hash = calculate_hash crypto b })
    ]
  ]

  module _ ⦃fl : Float64 F⦄ where
    -- ProcessBlockUTXOs of a block that is not nil: the pool's change, and its error.
    unfoldable pub process_block_utxos :
        ℤ → Block F → Blockchain F D → Call (Blockchain F D × Option PoolError)
    unfolding process_block_transactions block_hash
    process_block_utxos now b bc = elim bc.utxo_pool [
      | none ↦ returns (bc, none)
      | some pool ↦
          elim (process_block_transactions crypto st now
            (some (b.header.block_number, block_hash crypto b, get_all b.transactions)) pool) [
              | panics ↦ panics
              | returns (pool', e) ↦
                  returns (record bc { utxo_pool = some pool'; db = chain_sees pool' bc.db }, e)
            ]
    ]

    -- AddBlockWithUTXOProcessing: the error of the pool is only logged.
    unfoldable pub add_block_with_utxo_processing :
        ℤ → Block F → Blockchain F D → Call (Blockchain F D × Option ChainError)
    unfolding validate_block add_block_without_validation process_block_utxos
    add_block_with_utxo_processing now b bc = elim (validate_block b bc) [
      | panics ↦ panics
      | returns (some e) ↦ returns (bc, some e)
      | returns none ↦
          let added = add_block_without_validation crypto js st b bc in
          elim added.1 [
            | some e ↦ returns added
            | none ↦ elim (process_block_utxos now b added.0) [
              | panics ↦ panics
              | returns (processed, _) ↦ returns (processed, none)
            ]
          ]
    ]

    -- AddBlockWithoutValidation
    unfoldable pub add_synced_block : ℤ → Block F → Blockchain F D → Call (Blockchain F D)
    unfolding process_block_utxos
    add_synced_block now b bc =
        let appended = record bc { chain = bc.chain ++ b ∷ []; current_hash = b.hash } in
        elim (process_block_utxos now b appended) [
          | panics ↦ panics
          | returns (processed, _) ↦ returns processed
        ]
