-- ===== src/Examples/Forks.antt =====
-- Examples for the choice between chains and for checkpoints, mining and the state.
use hybridblockchain.Common.{
  ℕ, ◌≡◌, ◌<◌, ◌⊎◌, ◌↔◌, ◌+◌, ◌-◌, ◌/◌, ◌==◌, ltb, leb, Float64, All, refl, ◌*◌, true, false, none,
  some, is_some, List, [], ◌∷◌, Text, codes, pos, arith, text_eq, Option,
}
use hybridblockchain.Trie.{root, get_all}
use hybridblockchain.Chain.{Block, block_hash, calculate_hash, is_hash_valid}
use hybridblockchain.Chain.Forks.{
  genesis_parent, resolve_fork, find_common_ancestor, last_index, validate_chain_segment,
  links_from, follows, last_difficulty, last_block, reorganize_chain, validate_candidate_chain,
  genesis_ok,
}
use hybridblockchain.Chain.Forks.Adoption.{Adopted, resolve_fork-Adopted}
use hybridblockchain.Chain.Forks.Extension.{resolve_fork-extension}
use hybridblockchain.Chain.Work.{total_difficulty, resolve_fork-heavier}
use hybridblockchain.Chain.Mining.{
  MiningError, with_difficulty, with_nonce, mine_block, Answer, accepts_block, all_valid,
}
use hybridblockchain.Chain.Mining.Search.{Mined, Noted, count_valid, mine_block-Mined}
use hybridblockchain.Chain.State.{
  State, new_state, validate_state, update_with_blocks, LowUse, validate_state-LowUse,
}
use hybridblockchain.Examples.{whole, plain, alice, bob}

-- A block with its number, the hash it has and the one it names, its difficulty and the sum of them.
abbrev pub block_of : ℕ → Text → Text → ℕ → ℕ → Block ℕ
block_of number hash parent difficulty total = record {
  header = record {
    version = 1;
    block_number = number;
    previous_hash = parent;
    timestamp = pos number;
    merkle_root = [];
    state_root = codes "root";
    receipts_root = [];
    difficulty = difficulty;
    nonce = 0;
    gas_limit = 10;
    gas_used = 0;
    mined_by = [];
    validated_by = [];
    extra_data = [];
    validator_proof = none;
    validator_address = [];
    validator_sig = [];
  };
  transactions = root;
  receipts = [];
  hash = hash;
  original_hash = hash;
  cumulative_difficulty = total;
}

abbrev pub genesis : Block ℕ
genesis = block_of 0 (codes "g") genesis_parent 1 1

abbrev pub first : Block ℕ
first = block_of 1 (codes "b1") (codes "g") 2 3

abbrev second : Block ℕ
second = block_of 2 (codes "b2") (codes "b1") 2 5

-- A longer and heavier chain from the same genesis block.
abbrev rivals : List (Block ℕ)
rivals =
    genesis
    ∷ block_of 1 (codes "c1") (codes "g") 4 5
    ∷ block_of 2 (codes "c2") (codes "c1") 4 9
    ∷ []

resolve_fork-Adopted_example :
    (resolve_fork plain rivals (genesis ∷ first ∷ []) ≡ (genesis ∷ first ∷ [], false))
    ⊎ (((resolve_fork plain rivals (genesis ∷ first ∷ [])).1 ≡ true)
        × Adopted plain rivals
            (genesis ∷ first ∷ [])
            (resolve_fork plain rivals (genesis ∷ first ∷ [])).0)
resolve_fork-Adopted_example = resolve_fork-Adopted plain rivals (genesis ∷ first ∷ [])

adopts_rivals : resolve_fork plain rivals (genesis ∷ first ∷ []) ≡ (rivals, true)
unfolding resolve_fork find_common_ancestor last_index block_hash text_eq validate_chain_segment
    links_from follows last_difficulty last_block reorganize_chain validate_candidate_chain
    genesis_ok
adopts_rivals = refl

accepts_first : validate_candidate_chain plain (genesis ∷ first ∷ []) ≡ true
unfolding validate_candidate_chain genesis_ok links_from follows block_hash text_eq
accepts_first = refl

resolve_fork-heavier_example :
    total_difficulty (genesis ∷ first ∷ [])
    < total_difficulty (resolve_fork plain rivals (genesis ∷ first ∷ [])).0
resolve_fork-heavier_example =
    resolve_fork-heavier plain rivals (first ∷ []) genesis refl accepts_first (omega arith)
      (rw adopts_rivals (omega arith)) (rw adopts_rivals refl)

accepts_second : validate_candidate_chain plain (genesis ∷ first ∷ second ∷ []) ≡ true
unfolding validate_candidate_chain genesis_ok links_from follows block_hash text_eq
accepts_second = refl

second_new : last_index plain (block_hash plain second) (genesis ∷ first ∷ []) ≡ none
unfolding last_index block_hash text_eq
second_new = refl

second_heavier :
    last_difficulty (genesis ∷ first ∷ []) < last_difficulty (genesis ∷ first ∷ second ∷ [])
unfolding last_difficulty last_block
second_heavier = omega arith

resolve_fork-extension_example :
    resolve_fork plain (genesis ∷ first ∷ second ∷ []) (genesis ∷ first ∷ [])
    ≡ (genesis ∷ first ∷ second ∷ [], true)
resolve_fork-extension_example =
    resolve_fork-extension plain genesis second (first ∷ []) [] accepts_second (second_new, tt)
      second_heavier

-- A block after genesis to be mined with no zeros, one of three validators answering no.
abbrev answers : List (Option Answer)
answers =
    some (record { address = alice; valid = true; signature = some (codes "s") })
    ∷ some (record { address = bob; valid = false; signature = none })
    ∷ some (record { address = bob; valid = true; signature = none })
    ∷ []

any_hash : is_hash_valid (calculate_hash plain (with_nonce 0 (with_difficulty 0 first))) 0 ≡ true
unfolding is_hash_valid text_eq
any_hash = refl

mine_block-Mined_example :
    (mined : Block ℕ) × (noted : Block ℕ) × (e : Option MiningError) × (mine_block plain 1 0
        (some answers)
        first
      ≡ some (noted, e))
    × Mined plain 0 (with_difficulty 0 first) mined
    × Noted mined noted
    × ((e ≡ none) ↔ (3 < 2 * count_valid answers))
    × (accepts_block plain [] noted genesis ≡ all_valid plain [] (get_all first.transactions))
mine_block-Mined_example =
    mine_block-Mined plain 0 0 answers [] first genesis (omega arith) any_hash refl refl

-- Floats in hundredths, so that 0.8 and 0.3 are 80 and 30.
abbrev cents : Float64 ℕ
cents = record {
  add = λ a b. a + b;
  sub = λ a b. a - b;
  mul = λ a b. a * b / 100;
  div = λ a b. a * 100 / b;
  lt = ltb;
  le = leb;
  eq = λ a b. a == b;
  is_nan = λ a. false;
  of_uint64 = λ n. n * 100;
  to_uint64 = λ n. n / 100;
}

-- A price of 2 for gas, and two blocks that use a tenth of theirs.
abbrev cheap : State
cheap = record (new_state (pos 0)) { gas_price = 2 }

abbrev idle : Block ℕ
idle = record first { header = record first.header { gas_used = 1 } }

idle-LowUse : All (LowUse ⦃fl = cents⦄) ((pos 1, idle) ∷ (pos 2, idle) ∷ [])
idle-LowUse = ((omega arith, refl, refl), ((omega arith, refl, refl), tt))

validate_state-LowUse_example :
    ((update_with_blocks ⦃fl = cents⦄ plain ((pos 1, idle) ∷ (pos 2, idle) ∷ []) cheap).gas_price
      ≡ 0)
    × (is_some (
          validate_state
            (update_with_blocks ⦃fl = cents⦄ plain ((pos 1, idle) ∷ (pos 2, idle) ∷ []) cheap))
        ≡ true)
validate_state-LowUse_example =
    validate_state-LowUse ⦃fl = cents⦄ plain ((pos 1, idle) ∷ (pos 2, idle) ∷ []) cheap idle-LowUse
      (omega arith) (omega arith)
