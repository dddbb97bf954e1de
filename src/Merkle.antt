-- ===== src/Merkle.antt =====
-- Merkle roots: the loop of UTXOPool.CalculateMerkleRoot in blockchain/utxo.go, and
-- calculateMerkleRoot and generateMerkleProofForIndex of blockchain/block.go.
-- Each `while` takes fuel; `none` means that it ran out.
pub mod Root
use hybridblockchain.Common.{
  ℕ, zero, suc, ◌+◌, ◌%◌, ◌/◌, Bool, true, false, Option, none, some, List, [], ◌∷◌, ◌++◌, Text,
  codes, hex_encode, length, ltb, ◌==◌, if◌then◌else◌, Crypto,
}

-- block.go: an odd level is padded with its last hash, and then taken in pairs.
abbrev pub last_or : Text → List Text → Text
last_or d [] = d
last_or d (x ∷ xs) = last_or x xs

abbrev pub head_text : List Text → Option Text
head_text [] = none
head_text (x ∷ _) = some x

unfoldable pub pad_level : List Text → List Text
pad_level hashes = if length hashes % 2 == 0 then hashes else hashes ++ last_or [] hashes ∷ []

abbrev pub zero_root : Text
zero_root = codes "0x0000000000000000000000000000000000000000000000000000000000000000"

module _ {F : Type 0} (crypto : Crypto F) where
  abbrev pub hash_pair : Text → Text → Text
  hash_pair left right = hex_encode (crypto.sha256 (left ++ right))

  -- The inner loop of CalculateMerkleRoot: a last hash with no partner is paired with itself.
  unfoldable pub next_level : List Text → List Text
  next_level [] = []
  next_level (x ∷ []) = hash_pair x x ∷ []
  next_level (x ∷ y ∷ rest) = hash_pair x y ∷ next_level rest

  -- `for len(hashes) > 1 { ... }; return hashes[0]`
  unfoldable pub merkle_loop : ℕ → List Text → Option Text
  unfolding next_level
  merkle_loop zero hashes = none
  merkle_loop (suc fuel) [] = none
  merkle_loop (suc fuel) (x ∷ []) = some x
  merkle_loop (suc fuel) (x ∷ y ∷ rest) = merkle_loop fuel (next_level (x ∷ y ∷ rest))

  unfoldable pub pair_level : List Text → List Text
  pair_level [] = []
  pair_level (x ∷ []) = []
  pair_level (x ∷ y ∷ rest) = hash_pair x y ∷ pair_level rest

  unfoldable pub block_merkle_loop : ℕ → List Text → Option Text
  unfolding pad_level pair_level
  block_merkle_loop zero hashes = none
  block_merkle_loop (suc fuel) hashes =
      let next = block_merkle_loop fuel (pair_level (pad_level hashes)) in
      if ltb 1 (length hashes) then next else head_text hashes

  -- calculateMerkleRoot
  unfoldable pub block_merkle_root : List Text → Option Text
  unfolding block_merkle_loop
  block_merkle_root [] = some zero_root
  block_merkle_root (x ∷ xs) = elim (block_merkle_loop (suc (length xs)) (x ∷ xs)) [
    | none ↦ none
    | some root ↦ some (codes "0x" ++ root)
  ]
