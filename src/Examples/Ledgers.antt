-- ===== src/Examples/Ledgers.antt =====
-- Examples for appending, storing and dropping blocks.
use hybridblockchain.Common.{
  ℕ, ◌≡◌, ◌⊎◌, refl, true, none, some, [], ◌∷◌, Text, codes, length, pos, arith, GoMap, text_eq,
}
use hybridblockchain.Chain.{Block, block_hash, calculate_hash}
use hybridblockchain.Storage.{returns}
use hybridblockchain.Chain.Json.{BlockJson}
use hybridblockchain.Chain.Forks.{
  last_block, validate_candidate_chain, genesis_ok, links_from, follows,
}
use hybridblockchain.Chain.Ledger.{
  Blockchain, ChainError, get_height, rollback_to_height, add_block_without_validation,
}
use hybridblockchain.Chain.Ledger.Calls.{add_block_with_utxo_processing}
use hybridblockchain.Chain.Ledger.Append.{
  Refused, Appended, add_block_with_utxo_processing-Appended,
}
use hybridblockchain.Chain.Ledger.Heights.{rollback_to_height-Valid}
use hybridblockchain.Chain.Checkpoints.{
  Checkpoint, checkpoint_block, verify_checkpoint, fast_forward_to_checkpoint,
  add_block_without_validation-fast_forward,
}
use hybridblockchain.Examples.{whole, plain, memory, small_pool}
use hybridblockchain.Examples.Forks.{block_of, genesis, first}

-- JSON that is never read back: every block is written as the empty text.
abbrev json : BlockJson ℕ
json = record {
  marshal_simplified = λ s. none;
  marshal_struct = λ b. some [];
  unmarshal_simplified = λ t. none;
}

-- A block after genesis with its hash.
abbrev unhashed : Block ℕ
unhashed = record first { header = record first.header { state_root = [] }; original_hash = [] }

abbrev hashed : Block ℕ
hashed = record unhashed { hash = calculate_hash plain unhashed }

abbrev ledger : Blockchain ℕ (GoMap Text)
ledger = record {
  chain = genesis ∷ [];
  current_hash = codes "g";
  db = some [];
  utxo_pool = some small_pool;
  last_validator_address = [];
  balances = [];
}

add_block_with_utxo_processing-Appended_example :
    Refused ledger (add_block_with_utxo_processing plain json memory (pos 1) hashed ledger)
    ⊎ Appended plain memory
        (pos 1)
        hashed
        genesis
        small_pool
        ledger
        (add_block_with_utxo_processing plain json memory (pos 1) hashed ledger)
add_block_with_utxo_processing-Appended_example =
    add_block_with_utxo_processing-Appended plain json memory (pos 1) hashed genesis ledger
      small_pool [] [] (unfold last_block in refl) refl refl refl

-- A chain of two blocks, cut back to its first.
abbrev two_blocks : Blockchain ℕ (GoMap Text)
two_blocks = record ledger { chain = genesis ∷ first ∷ [] }

accepts_two : validate_candidate_chain plain (genesis ∷ first ∷ []) ≡ true
unfolding validate_candidate_chain genesis_ok links_from follows block_hash text_eq
accepts_two = refl

rollback_to_height-Valid_example :
    ((rollback_to_height 0 two_blocks).1 ≡ none)
    × (validate_candidate_chain plain (rollback_to_height 0 two_blocks).0.chain ≡ true)
    × (length (rollback_to_height 0 two_blocks).0.chain ≡ 1)
    × (get_height (rollback_to_height 0 two_blocks).0.chain ≡ 0)
rollback_to_height-Valid_example =
    rollback_to_height-Valid plain 0 genesis (first ∷ []) two_blocks refl refl (omega arith)
      accepts_two (omega arith) (omega arith)

-- A checkpoint at height 2, and the block after it.
abbrev checkpoint : Checkpoint
checkpoint = record {
  height = 2;
  hash = codes "b2";
  state_root = codes "root";
  utxo_root = codes "root";
  timestamp = pos 2;
  validator_set_hash = [];
}

abbrev forwarded : Blockchain ℕ (GoMap Text)
forwarded = record two_blocks {
  chain = checkpoint_block checkpoint ∷ [];
  current_hash = codes "b2";
}

forwards :
    fast_forward_to_checkpoint (λ n. true) (some checkpoint) two_blocks ≡ returns (forwarded, none)
unfolding fast_forward_to_checkpoint verify_checkpoint checkpoint_block
forwards = refl

add_block_without_validation-fast_forward_example :
    (e : ChainError) × (add_block_without_validation plain json memory
        (block_of 3 (codes "b3") (codes "b2") 2 7)
        forwarded
      ≡ (forwarded, some e))
add_block_without_validation-fast_forward_example =
    add_block_without_validation-fast_forward plain json memory (λ n. true) checkpoint two_blocks
      forwarded (block_of 3 (codes "b3") (codes "b2") 2 7) forwards (λ e. ground (arith, e)) refl
