-- ===== src/Chain.antt =====
-- Block of blockchain/block.go and the chain of blocks of blockchain/blockchain.go: headers, hashes,
-- and the questions that Blockchain asks of its list of blocks. The pointer to a header is not nil.
-- Hash() stores what it returns in the block; as no function here changes the header of a block that
-- has been hashed, the stored text is the one that a later call computes, and is left out.
pub mod Forks
pub mod Work
pub mod Json
pub mod Ledger
pub mod Checkpoints
pub mod Mining
pub mod State
pub mod Rewards
use hybridblockchain.Common.{
  ℕ, zero, suc, ◌+◌, ◌%◌, Bool, true, false, Option, none, some, List, [], ◌∷◌, ◌++◌, Text, codes,
  text_eq, decimal, int_text, hex_encode, ◌==◌, if◌then◌else◌, ℤ, pos, Crypto, add64, ltb, length,
  take,
}
use hybridblockchain.Trie.{PatriciaNode, root, get_all, insert_tx, generate_root_hash}

-- `SelectionProof` of validator_selection.go.
pub record SelectionProof : Type 0 where
  pub seed : Text
  pub timestamp : ℤ
  pub weight : ℕ
  pub score : ℕ

pub record BlockHeader : Type 0 where
  pub version : ℕ
  pub block_number : ℕ
  pub previous_hash : Text
  pub timestamp : ℤ
  pub merkle_root : Text
  pub state_root : Text
  pub receipts_root : Text
  pub difficulty : ℕ
  pub nonce : ℕ
  pub gas_limit : ℕ
  pub gas_used : ℕ
  pub mined_by : Text
  pub validated_by : Text
  pub extra_data : Text
  pub validator_proof : Option SelectionProof
  pub validator_address : Text
  pub validator_sig : Text

pub record TxReceipt : Type 0 where
  pub tx_hash : Text
  pub block_hash : Text
  pub block_number : ℕ
  pub gas_used : ℕ
  pub status : ℕ
  pub cumulative_gas : ℕ

-- A block with its body. The lock, and the cached size and number of transactions, are left out.
pub record Block (F : Type 0) : Type 0 where
  pub header : BlockHeader
  pub transactions : PatriciaNode F
  pub receipts : List TxReceipt
  pub hash : Text
  pub original_hash : Text
  pub cumulative_difficulty : ℕ

-- `%v` of a byte slice: the numbers in brackets.
abbrev spaced : Text → Text
spaced [] = []
spaced (b ∷ bs) = (32 ∷ decimal b) ++ spaced bs

abbrev pub show_bytes : Text → Text
show_bytes [] = codes "[]"
show_bytes (b ∷ bs) = 91 ∷ decimal b ++ (spaced bs ++ codes "]")

-- The text that is hashed: the fields, each followed by a bar. The validator fields are not in it.
unfoldable pub hash_input : BlockHeader → Text
hash_input h =
    decimal h.version
    ++ 124
      ∷ (decimal h.block_number
          ++ 124
            ∷ (h.previous_hash
                ++ 124
                  ∷ (int_text h.timestamp
                      ++ 124
                        ∷ (h.merkle_root
                            ++ 124
                              ∷ (h.state_root
                                  ++ 124
                                    ∷ (h.receipts_root
                                        ++ 124
                                          ∷ (decimal h.nonce
                                              ++ 124
                                                ∷ (decimal h.gas_used
                                                    ++ 124
                                                      ∷ (decimal h.difficulty
                                                          ++ 124
                                                            ∷ (decimal h.gas_limit
                                                            ++ 124
                                                            ∷ (h.mined_by
                                                            ++ 124
                                                            ∷ show_bytes h.extra_data)))))))))))

module _ {F : Type 0} (crypto : Crypto F) where
  -- calculateHash and Block.CalculateHash
  unfoldable pub calculate_hash : Block F → Text
  calculate_hash b = hex_encode (crypto.sha256 (hash_input b.header))

  -- Block.Hash
  unfoldable pub block_hash : Block F → Text
  unfolding calculate_hash
  block_hash b = if text_eq b.original_hash [] then calculate_hash b else b.original_hash

abbrev zeros : ℕ → Text
zeros zero = []
zeros (suc n) = 48 ∷ zeros n

-- isHashValid: the hash starts with `difficulty` zeros.
unfoldable pub is_hash_valid : Text → ℕ → Bool
is_hash_valid hash difficulty = text_eq (take difficulty hash) (zeros difficulty)
