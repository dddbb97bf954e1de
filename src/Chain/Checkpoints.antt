-- ===== src/Chain/Checkpoints.antt =====
-- Checkpoints: CreateCheckpoint of blockchain/block.go, `Checkpoint` of blockchain/types.go, and
-- verifyCheckpoint, FastForwardToCheckpoint and GetCheckpoints of blockchain/blockchain.go.
use hybridblockchain.Common.{
  Bool, Bool-cases, Call, returns, panics, add64, ℕ, zero, suc, ◌-◌, ◌%◌, ◌≡◌, ◌≢◌, refl, sym, ◌∙◌,
  ap, true, not, ◌||◌, Option, none, some, is_some, List, [], ◌∷◌, Text, ◌==◌, if◌then◌else◌,
  Crypto, length, ℤ, Option-cases, inl, inr, arith,
}
use hybridblockchain.Storage.{Storage}
use hybridblockchain.Trie.{root}
use hybridblockchain.Chain.{Block, BlockHeader, block_hash}
use hybridblockchain.Chain.Json.{BlockJson}
use hybridblockchain.Chain.Forks.{genesis_parent}
use hybridblockchain.Chain.Ledger.{
  Blockchain, ChainError, append_error, add_block_without_validation,
}
use hybridblockchain.Chain.Ledger.Calls.{get_block_by_height}

pub record Checkpoint : Type 0 where
  pub height : ℕ
  pub hash : Text
  pub state_root : Text
  pub utxo_root : Text
  pub timestamp : ℤ
  pub validator_set_hash : Text

pub data CheckpointError : Type 0 where
  nil_checkpoint invalid_checkpoint_height missing_state_roots : CheckpointError

abbrev pub checkpoint_interval : ℕ
checkpoint_interval = 2

-- verifyCheckpoint; `none` is a nil pointer.
unfoldable pub verify_checkpoint : Option Checkpoint → Option CheckpointError
verify_checkpoint none = some nil_checkpoint
verify_checkpoint (some cp) =
    if not (cp.height % checkpoint_interval == 0)
    then some invalid_checkpoint_height
    else if length cp.state_root == 0 || length cp.utxo_root == 0
    then some missing_state_roots
    else none

-- The header of the block that FastForwardToCheckpoint makes; what it does not set is zero.
abbrev checkpoint_header : Checkpoint → BlockHeader
checkpoint_header cp = record {
  version = 1;
  block_number = cp.height;
  previous_hash = genesis_parent;
  timestamp = cp.timestamp;
  merkle_root = [];
  state_root = [];
  receipts_root = [];
  difficulty = 0;
  nonce = 0;
  gas_limit = 0;
  gas_used = 0;
  mined_by = [];
  validated_by = [];
  extra_data = [];
  validator_proof = none;
  validator_address = [];
  validator_sig = [];
}

module _ {F : Type 0} where
  unfoldable pub checkpoint_block : Checkpoint → Block F
  checkpoint_block cp = record {
    header = checkpoint_header cp;
    transactions = root;
    receipts = [];
    hash = [];
    original_hash = [];
    cumulative_difficulty = 0;
  }

  -- CreateCheckpoint
  unfoldable pub create_checkpoint : Crypto F → Block F → Checkpoint
  unfolding block_hash
  create_checkpoint crypto b = record {
    height = b.header.block_number;
    hash = block_hash crypto b;
    state_root = b.header.state_root;
    utxo_root = b.header.state_root;
    timestamp = b.header.timestamp;
    validator_set_hash = [];
  }

module _ {F D : Type 0} where
  -- FastForwardToCheckpoint. `can_make` says for which capacities `make` does not panic.
  unfoldable pub fast_forward_to_checkpoint :
      (ℕ → Bool)
      → Option Checkpoint
      → Blockchain F D
      → Call (Blockchain F D × Option CheckpointError)
  unfolding verify_checkpoint checkpoint_block
  fast_forward_to_checkpoint can_make none bc = returns (bc, some nil_checkpoint)
  fast_forward_to_checkpoint can_make (some cp) bc = elim (verify_checkpoint (some cp)) [
    | some e ↦ returns (bc, some e)
    | none ↦
        if can_make (add64 cp.height 1)
        then returns (record bc { chain = checkpoint_block cp ∷ []; current_hash = cp.hash }, none)
        else panics
  ]

module _ {F D : Type 0} (crypto : Crypto F) (js : BlockJson F) (st : Storage F D) where
  -- The loop of GetCheckpoints for `count` heights from `height` on.
  unfoldable pub checkpoints_from : ℕ → ℕ → Blockchain F D → List Checkpoint
  unfolding get_block_by_height create_checkpoint
  checkpoints_from zero height bc = []
  checkpoints_from (suc count) height bc =
      let rest = checkpoints_from count (suc height) bc in
      elim (get_block_by_height crypto js st height bc) [
        | none ↦ rest
        | some b ↦
            if height % checkpoint_interval == 0 then create_checkpoint crypto b ∷ rest else rest
      ]

  -- GetCheckpoints, for an end below the largest uint64, at which Go's loop never ends.
  unfoldable pub get_checkpoints : ℕ → ℕ → Blockchain F D → List Checkpoint
  unfolding checkpoints_from
  get_checkpoints start_height end_height bc =
      checkpoints_from (suc end_height - start_height) start_height bc

  refuses_number :
      (b c : Block F) → c.header.block_number ≢ 1 → is_some (append_error crypto c (b ∷ [])) ≡ true
  unfolding append_error
  refuses_number b c n = ground (arith, n)

  single-refuses :
      (bc : Blockchain F D) (b c : Block F)
      → bc.chain ≡ b ∷ []
      → c.header.block_number ≢ 1
      → (e : ChainError) × (add_block_without_validation crypto js st c bc ≡ (bc, some e))
  unfolding add_block_without_validation
  single-refuses bc b c h n = elim (Option-cases (append_error crypto c bc.chain)) [
    | inr (e, g) ↦ (e, rw (add_block_without_validation, g) refl)
    | inl g ↦ ground (arith, refuses_number b c n, ap (append_error crypto c) (sym h) ∙ g)
  ]

  -- After fast-forwarding to a checkpoint that is accepted and whose height is not 0, the block that comes
  -- after the checkpoint is refused by addBlockWithoutValidation, which leaves the chain as it is.
  pub add_block_without_validation-fast_forward :
      (can_make : ℕ → Bool) (cp : Checkpoint) (bc forwarded : Blockchain F D) (b : Block F)
      → fast_forward_to_checkpoint can_make (some cp) bc ≡ returns (forwarded, none)
      → cp.height ≢ 0
      → b.header.block_number ≡ suc cp.height
      → (e : ChainError) × (add_block_without_validation crypto js st b forwarded
          ≡ (forwarded, some e))
  unfolding fast_forward_to_checkpoint
  add_block_without_validation-fast_forward can_make cp bc forwarded b ok n next =
      elim (Option-cases (verify_checkpoint (some cp))) [
        | inr (e, f) ↦ ground (arith, ok, f)
        | inl f ↦ elim (Bool-cases (can_make (add64 cp.height 1))) [
          | inr g ↦ ground (arith, ok, f, g)
          | inl g ↦
              single-refuses forwarded (checkpoint_block cp) b (ground (arith, ok, f, g))
                (ground (arith, n, next))
        ]
      ]
