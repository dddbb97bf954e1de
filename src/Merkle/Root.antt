-- ===== src/Merkle/Root.antt =====
-- The two ways of computing a Merkle root, in blockchain/utxo.go and blockchain/block.go.
use hybridblockchain.Common.{
  ℕ, zero, suc, ◌%◌, ◌≤◌, ◌<◌, ◌≡◌, refl, ◌∙◌, ap, some, List, [], ◌∷◌, ◌++◌, Text, codes, length,
  ◌==◌, Bool-cases, inl, inr, Crypto, arith,
}
use hybridblockchain.Merkle.{
  hash_pair, next_level, merkle_loop, pad_level, pair_level, block_merkle_loop, block_merkle_root,
}

two_more : (n : ℕ) → suc (suc n) % 2 ≡ n % 2
two_more n = omega arith

same_parity : (n : ℕ) → (suc (suc n) % 2 == 0) ≡ (n % 2 == 0)
same_parity n = ground (arith, two_more n)

module _ {F : Type 0} (crypto : Crypto F) where
  length-next_level :
      (x y : Text) (rest : List Text)
      → length (next_level crypto (x ∷ y ∷ rest)) ≤ suc (length rest)
  unfolding next_level
  length-next_level x y [] = omega arith
  length-next_level x y (z ∷ []) = omega arith
  length-next_level x y (z ∷ w ∷ rest) = omega (arith, length-next_level z w rest)

  next_level-cons :
      (x y : Text) (rest : List Text)
      → next_level crypto (x ∷ y ∷ rest) ≡ hash_pair crypto x y ∷ next_level crypto rest
  unfolding next_level
  next_level-cons x y rest = refl

  -- Fuel equal to the number of hashes is enough: each round leaves fewer.
  pub merkle_loop-total :
      (fuel : ℕ) (x : Text) (xs : List Text)
      → length xs < fuel
      → (root : Text) × (merkle_loop crypto fuel (x ∷ xs) ≡ some root)
  unfolding merkle_loop
  merkle_loop-total zero x xs h = elim h [ ]
  merkle_loop-total (suc fuel) x [] h = (x, refl)
  merkle_loop-total (suc fuel) x (y ∷ rest) h = rw (next_level-cons x y rest) (
      merkle_loop-total fuel (hash_pair crypto x y) (next_level crypto rest)
        (omega (arith, ap length (next_level-cons x y rest), length-next_level x y rest, h)))

  pad_level-pair :
      (x y z : Text) (rest : List Text)
      → pad_level (x ∷ y ∷ z ∷ rest) ≡ x ∷ y ∷ pad_level (z ∷ rest)
  unfolding pad_level
  pad_level-pair x y z rest = elim (Bool-cases (length (z ∷ rest) % 2 == 0)) [
    | inl e ↦ rw (e, same_parity (length (z ∷ rest)) ∙ e) refl
    | inr e ↦ rw (e, same_parity (length (z ∷ rest)) ∙ e) refl
  ]

  -- Padding an odd level and pairing it is pairing its last hash with itself.
  pair_level-pad_level :
      (hashes : List Text) → pair_level crypto (pad_level hashes) ≡ next_level crypto hashes
  unfolding pair_level next_level
  pair_level-pad_level [] = unfold pad_level in refl
  pair_level-pad_level (x ∷ []) = unfold pad_level in refl
  pair_level-pad_level (x ∷ y ∷ []) = unfold pad_level in refl
  pair_level-pad_level (x ∷ y ∷ z ∷ rest) =
      rw (pad_level-pair x y z rest)
        (ap (◌∷◌ (hash_pair crypto x y)) (pair_level-pad_level (z ∷ rest)))

  block_merkle_loop-merkle_loop :
      (fuel : ℕ) (hashes : List Text)
      → block_merkle_loop crypto fuel hashes ≡ merkle_loop crypto fuel hashes
  unfolding block_merkle_loop merkle_loop
  block_merkle_loop-merkle_loop zero hashes = refl
  block_merkle_loop-merkle_loop (suc fuel) [] = ground arith
  block_merkle_loop-merkle_loop (suc fuel) (x ∷ []) = ground arith
  block_merkle_loop-merkle_loop (suc fuel) (x ∷ y ∷ rest) = ground (
    arith,
    pair_level-pad_level (x ∷ y ∷ rest),
    block_merkle_loop-merkle_loop fuel (next_level crypto (x ∷ y ∷ rest)),
  )

  -- For every list of hashes that is not empty both loops end, and calculateMerkleRoot of block.go
  -- returns "0x" followed by the root that CalculateMerkleRoot of the UTXO pool computes.
  pub block_merkle_root-merkle_loop :
      (x : Text) (xs : List Text)
      → (root : Text) × (merkle_loop crypto (suc (length xs)) (x ∷ xs) ≡ some root)
        × (block_merkle_root crypto (x ∷ xs) ≡ some (codes "0x" ++ root))
  unfolding block_merkle_root
  block_merkle_root-merkle_loop x xs =
      let (root, e) = merkle_loop-total (suc (length xs)) x xs (omega arith) in
      (root, e, ground (arith, block_merkle_loop-merkle_loop (suc (length xs)) (x ∷ xs), e))
