-- ===== src/Examples/Chain.antt =====
-- Examples for the trie, the Merkle roots and the UTXO pool.
use hybridblockchain.Common.{
  ℕ, ◌≡◌, refl, List, [], ◌∷◌, ◌++◌, pos, true, none, some, Text, codes, Option, arith, lookup,
  GoMap, map, insert, ℤ,
}
use hybridblockchain.Tx.{Transaction, Utxo, utxo_key}
use hybridblockchain.Storage.{returns}
use hybridblockchain.Trie.{root, insert_batch, search_trie}
use hybridblockchain.Trie.Search.{latest, search_trie-insert_batch}
use hybridblockchain.Merkle.{merkle_loop, block_merkle_root}
use hybridblockchain.Merkle.Root.{block_merkle_root-merkle_loop}
use hybridblockchain.Utxo.{UtxoPool, DeltaUpdate, calculate_merkle_root, mark_inputs}
use hybridblockchain.Utxo.Sets.{PoolError, update_utxo_set, unspent_only, validate_transaction}
use hybridblockchain.Utxo.Calls.{
  add_utxo, process_block_transactions, apply_delta_update, verify_delta_update, create_snapshot,
  load_snapshot_at_height,
}
use hybridblockchain.Utxo.Refinement.{Agrees, add_utxo-Agrees}
use hybridblockchain.Utxo.Outputs.{add_utxo-output}
use hybridblockchain.Utxo.Block.{SameMaps, add_each, process_block_transactions-add_each}
use hybridblockchain.Utxo.Delta.{Applied, apply_delta_update-Applied}
use hybridblockchain.Utxo.Snapshots.{load_snapshot-create_snapshot}
use hybridblockchain.Utxo.Spent.{validate_transaction-mark_inputs}
use hybridblockchain.Examples.{
  whole, plain, memory, memory-StorageLaws, alice, bob, reward_tx, payment_tx, alice_utxo, one_utxo,
  small_pool,
}

abbrev both : List (Transaction ℕ)
both = reward_tx ∷ payment_tx ∷ []

search_trie-insert_batch_example :
    search_trie plain (codes "b") (insert_batch plain both root)
    ≡ latest plain (codes "b") both (search_trie plain (codes "b") root)
search_trie-insert_batch_example = search_trie-insert_batch plain (codes "b") both root

block_merkle_root-merkle_loop_example :
    (r : Text) × (merkle_loop plain 3 (alice ∷ bob ∷ codes "carol" ∷ []) ≡ some r)
    × (block_merkle_root plain (alice ∷ bob ∷ codes "carol" ∷ []) ≡ some (codes "0x" ++ r))
block_merkle_root-merkle_loop_example =
    block_merkle_root-merkle_loop plain alice (bob ∷ codes "carol" ∷ [])

one_utxo-Agrees : Agrees one_utxo one_utxo
unfolding lookup
one_utxo-Agrees k = ground arith

add_utxo-Agrees_example :
    (pool' : UtxoPool ℕ (GoMap Text)) × (add_utxo plain memory (pos 9) 1 payment_tx small_pool
      ≡ returns pool')
    × Agrees pool'.utxos (update_utxo_set payment_tx one_utxo)
add_utxo-Agrees_example =
    add_utxo-Agrees plain memory (pos 9) 1 payment_tx small_pool one_utxo refl one_utxo-Agrees

add_utxo-output_example :
    (pool' : UtxoPool ℕ (GoMap Text)) × (add_utxo plain memory (pos 9) 1 payment_tx small_pool
      ≡ returns pool')
    × (lookup (utxo_key (codes "b") (pos 1)) pool'.utxos
        ≡ some (record alice_utxo {
          transaction_id = codes "b";
          output_index = pos 1;
          amount = 20;
          block_height = 1;
          timestamp = pos 2;
        }))
add_utxo-output_example =
    add_utxo-output plain memory (pos 9) 1 payment_tx small_pool 1
      (record { receiver = alice; amount = 20; script_pub_key = [] }) refl refl

abbrev timed : List (ℤ × Transaction ℕ)
timed = (pos 3, reward_tx) ∷ (pos 4, payment_tx) ∷ []

process_block_transactions-add_each_example :
    (p : UtxoPool ℕ (GoMap Text)) × (error : Option PoolError) × (q : UtxoPool ℕ (GoMap Text))
    × (process_block_transactions plain memory
          (pos 9)
          (some (100, codes "h", map (λ t. t.1) timed))
          small_pool
        ≡ returns (p, error))
    × (add_each plain memory 100 timed small_pool ≡ returns q)
    × SameMaps p q
    × (p.merkle_root ≡ calculate_merkle_root plain q.utxos)
process_block_transactions-add_each_example =
    process_block_transactions-add_each plain memory (pos 9) 100 (codes "h") timed small_pool refl

abbrev given : GoMap (Utxo ℕ)
given = (codes "c-0", record alice_utxo { transaction_id = codes "c"; owner = bob }) ∷ []

abbrev small_delta : DeltaUpdate ℕ
small_delta = record {
  last_sync_time = pos 0;
  utxo_updates = given;
  utxo_deletions = codes "a-0" ∷ [];
  state_root = calculate_merkle_root plain given;
  update_timestamp = pos 8;
}

apply_delta_update-Applied_example :
    (outcome : UtxoPool ℕ (GoMap Text) × Option PoolError) × (apply_delta_update plain memory
        small_delta small_pool
      ≡ returns outcome)
    × Applied plain memory small_delta small_pool outcome
    × (outcome.1 ≡ verify_delta_update plain memory small_delta small_pool)
apply_delta_update-Applied_example =
    apply_delta_update-Applied plain memory small_delta small_pool refl

abbrev spent_pool : UtxoPool ℕ (GoMap Text)
spent_pool = record small_pool { utxos = (codes "a-0", record alice_utxo { spent = true }) ∷ [] }

abbrev saved_pool : UtxoPool ℕ (GoMap Text)
saved_pool = (create_snapshot plain memory (pos 7) 100 (codes "h") spent_pool).0

created : create_snapshot plain memory (pos 7) 100 (codes "h") spent_pool ≡ (saved_pool, none)
unfolding create_snapshot unspent_only insert
created = refl

load_snapshot-create_snapshot_example : load_snapshot_at_height plain memory 100 saved_pool ≡ (
  record saved_pool {
    utxos = unspent_only spent_pool.utxos;
    merkle_root = codes "root";
    last_update_time = pos 7;
  },
  none,
)
load_snapshot-create_snapshot_example =
    load_snapshot-create_snapshot plain memory memory-StorageLaws (pos 7) 100 (codes "h") spent_pool
      saved_pool saved_pool created refl

validate_transaction-mark_inputs_example :
    validate_transaction payment_tx (mark_inputs payment_tx.inputs small_pool).utxos
    ≡ validate_transaction payment_tx one_utxo
validate_transaction-mark_inputs_example =
    validate_transaction-mark_inputs payment_tx payment_tx.inputs small_pool
