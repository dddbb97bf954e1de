-- ===== src/Chain/Ledger.antt =====
-- Blockchain of blockchain/blockchain.go: validating, appending, finding and dropping blocks. The
-- fields are those that these functions touch. bc.db and the pool's db are one database: a write
-- through either is seen through both. The node, by which they only broadcast, and the mutex are left
-- out.
pub mod Calls
pub mod Append
pub mod Heights
use hybridblockchain.Common.{
  ℕ, suc, ◌%◌, Bool, true, false, not, Option, none, some, List, [], ◌∷◌, ◌++◌, Text, codes,
  text_eq, decimal, ◌==◌, leb, ltb, if◌then◌else◌, Crypto, add64, u64_mod, length, take, ℤ, Float64,
  GoMap, lookup, insert, float,
}
use hybridblockchain.Tx.{Transaction}
use hybridblockchain.Trie.{get_all}
use hybridblockchain.Storage.{Call, returns, panics, Storage}
use hybridblockchain.Utxo.{UtxoPool}
use hybridblockchain.Utxo.Sets.{PoolError}
use hybridblockchain.Utxo.Calls.{process_block_transactions}
use hybridblockchain.Chain.{Block, block_hash, calculate_hash}
use hybridblockchain.Chain.Json.{BlockJson, unmarshal_block, serialize}
use hybridblockchain.Chain.Forks.{last_block}

pub record Blockchain (F D : Type 0) : Type 0 where
  pub chain : List (Block F)
  pub current_hash : Text
  pub db : Option D
  pub utxo_pool : Option (UtxoPool F D)
  pub last_validator_address : Text
  pub balances : GoMap F

pub data ChainError : Type 0 where
  invalid_block_hash invalid_previous_hash invalid_block_number : ChainError
  serialize_failed store_failed latest_failed : ChainError
  invalid_rollback_height block_not_found number_mismatch : ChainError

-- db.CreateKey with db.BlockPrefix, and the key of the latest block
abbrev pub block_key : Text → Text
block_key hash = 1 ∷ hash

abbrev pub latest_key : Text
latest_key = codes "latest_block"

module _ {F D : Type 0} where
  -- The database as the pool sees it, and the pool's as the chain sees it.
  abbrev pub pool_sees : Option D → Option (UtxoPool F D) → Option (UtxoPool F D)
  pool_sees db none = none
  pool_sees db (some pool) = some (record pool { db = elim pool.db [ none ↦ none | some _ ↦ db ] })

  abbrev pub chain_sees : UtxoPool F D → Option D → Option D
  chain_sees pool none = none
  chain_sees pool (some d) = elim pool.db [ none ↦ some d | some e ↦ some e ]

  -- AddBalance, GetBalance and VerifyBalance
  unfoldable pub add_balance : ⦃fl : Float64 F⦄ → Text → F → Blockchain F D → Blockchain F D
  add_balance ⦃fl⦄ address amount bc =
      let old : F = elim (lookup address bc.balances) [ none ↦ float 0 | some b ↦ b ] in
      record bc { balances = insert address (fl.add old amount) bc.balances }

  -- RollbackToHeight: `height+1` wraps only where the guard has returned.
  unfoldable pub rollback_to_height : ℕ → Blockchain F D → Blockchain F D × Option ChainError
  rollback_to_height height bc =
      if leb (length bc.chain) height
      then (bc, some invalid_rollback_height)
      else (record bc { chain = take (suc height) bc.chain }, none)

module _ {F : Type 0} where
  -- GetHeight
  unfoldable pub get_height : List (Block F) → ℕ
  unfolding last_block
  get_height bs = elim (last_block bs) [ none ↦ 0 | some b ↦ b.header.block_number ]

  -- ValidateTransaction, which accepts all transactions
  unfoldable pub accept_transaction : Transaction F → Option ChainError
  accept_transaction tx = none

module _ {F : Type 0} (crypto : Crypto F) where
  -- The block after Hash(), which stores what it computes.
  unfoldable pub hash_stored : Block F → Block F
  unfolding calculate_hash
  hash_stored b =
      if text_eq b.original_hash []
      then record b { hash = calculate_hash crypto b; original_hash = calculate_hash crypto b }
      else b

  -- What addBlockWithoutValidation requires of the block. Go leaves open whether `block.Hash() !=
  -- block.hash` reads the field before the call; its compiler reads it after.
  unfoldable pub append_error : Block F → List (Block F) → Option ChainError
  unfolding block_hash last_block hash_stored
  append_error b chain =
      if not (text_eq (block_hash crypto b) (hash_stored b).hash)
      then some invalid_block_hash
      else if not (b.header.block_number == length chain % u64_mod)
      then some invalid_block_number
      else elim (last_block chain) [
        | none ↦ none
        | some latest ↦
            if text_eq b.header.previous_hash (block_hash crypto latest)
            then none
            else some invalid_previous_hash
      ]

  -- ValidateBlockHash
  unfoldable pub validate_block_hash : Block F → Bool
  validate_block_hash b = text_eq (calculate_hash crypto b) (block_hash crypto b)

module _ {F D : Type 0} (crypto : Crypto F) (js : BlockJson F) (st : Storage F D) where
  -- The last step of addBlockWithoutValidation: the block, and then the pointer to it, are written.
  unfoldable pub store_block : Block F → D → D × Option ChainError
  unfolding serialize block_hash
  store_block b d = elim (serialize js b) [
    | none ↦ (d, some serialize_failed)
    | some bytes ↦ elim (st.put (block_key (block_hash crypto b)) bytes d) [
      | none ↦ (d, some store_failed)
      | some d' ↦ elim (st.put latest_key (block_hash crypto b) d') [
        | none ↦ (d', some latest_failed)
        | some d'' ↦ (d'', none)
      ]
    ]
  ]

  -- addBlockWithoutValidation: what fails in the database leaves the block in the chain.
  unfoldable pub add_block_without_validation :
      Block F → Blockchain F D → Blockchain F D × Option ChainError
  unfolding append_error hash_stored store_block
  add_block_without_validation b bc = elim (append_error crypto b bc.chain) [
    | some e ↦ (bc, some e)
    | none ↦
        let stored_block = hash_stored crypto b in
        let appended = record bc {
          chain = bc.chain ++ stored_block ∷ [];
          current_hash = block_hash crypto b;
          last_validator_address =
              if text_eq b.header.validated_by []
              then bc.last_validator_address
              else b.header.validated_by;
        } in
        elim bc.db [
          | none ↦ (appended, none)
          | some d ↦
              let stored = store_block stored_block d in
              (
                record appended {
                  db = some stored.0;
                  utxo_pool = pool_sees (some stored.0) bc.utxo_pool;
                },
                stored.1,
              )
        ]
  ]

  -- GetLatestBlock; `none` is the empty Block{}.
  unfoldable pub get_latest_block : Blockchain F D → Option (Block F)
  unfolding last_block unmarshal_block
  get_latest_block bc = elim (last_block bc.chain) [
    | some b ↦ some b
    | none ↦ elim bc.db [
      | none ↦ none
      | some d ↦ elim (st.get latest_key d) [
        | none ↦ none
        | some hash ↦ if text_eq hash [] then none else elim (st.get (block_key hash) d) [
          | none ↦ none
          | some bytes ↦ unmarshal_block crypto js bytes
        ]
      ]
    ]
  ]
