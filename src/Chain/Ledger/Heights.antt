-- ===== src/Chain/Ledger/Heights.antt =====
-- RollbackToHeight and GetHeight of blockchain/blockchain.go.
use hybridblockchain.Common.{
  ℕ, zero, suc, ◌≤◌, ◌<◌, ◌≡◌, refl, true, false, none, List, [], ◌∷◌, leb, Crypto, u64_mod, length,
  take, length-take, arith,
}
use hybridblockchain.Chain.{Block}
use hybridblockchain.Chain.Forks.{last_block, links_from, validate_candidate_chain}
use hybridblockchain.Chain.Work.{validate_candidate_chain-work}
use hybridblockchain.Chain.Ledger.{Blockchain, get_height, rollback_to_height}

module _ {F : Type 0} (crypto : Crypto F) where
  links_from-take :
      (n : ℕ) (b : Block F) (bs : List (Block F))
      → links_from crypto b bs ≡ true
      → links_from crypto b (take n bs) ≡ true
  unfolding links_from
  links_from-take zero b bs h = refl
  links_from-take (suc n) b [] h = refl
  links_from-take (suc n) b (c ∷ cs) h = ground (arith, h, links_from-take n c cs)

  validate_candidate_chain-take :
      (n : ℕ) (b : Block F) (bs : List (Block F))
      → validate_candidate_chain crypto (b ∷ bs) ≡ true
      → validate_candidate_chain crypto (b ∷ take n bs) ≡ true
  unfolding validate_candidate_chain
  validate_candidate_chain-take n b bs h = ground (arith, h, links_from-take n b bs)

  -- A chain that starts with a block of number 0 and a uint64 difficulty, that ValidateCandidateChain
  -- accepts, and that has at most 2^64 blocks, is cut by RollbackToHeight to a height below its length:
  -- there is no error, ValidateCandidateChain accepts the result, and GetHeight gives that height.
  pub rollback_to_height-Valid :
      {D : Type 0} (height : ℕ) (b : Block F) (bs : List (Block F)) (bc : Blockchain F D)
      → bc.chain ≡ b ∷ bs
      → b.header.block_number ≡ 0
      → b.header.difficulty < u64_mod
      → validate_candidate_chain crypto (b ∷ bs) ≡ true
      → height < length (b ∷ bs)
      → length (b ∷ bs) ≤ u64_mod
      → let called = rollback_to_height height bc in
        (called.1 ≡ none)
        × (validate_candidate_chain crypto called.0.chain ≡ true)
        × (length called.0.chain ≡ suc height)
        × (get_height called.0.chain ≡ height)
  unfolding rollback_to_height get_height last_block
  rollback_to_height-Valid height b bs bc same z d v h small =
      let long : leb (length (b ∷ bs)) height ≡ false = ground (arith, h) in
      let kept = validate_candidate_chain-take height b bs v in
      let work = validate_candidate_chain-work crypto b (take height bs) z d kept in
      rw (same, long)
        (
          refl,
          kept,
          omega (arith, length-take height bs, h),
          omega (arith, work, length-take height bs, h, small),
        )
