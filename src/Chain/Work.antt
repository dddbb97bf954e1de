-- ===== src/Chain/Work.antt =====
-- Cumulative difficulty and block numbers along a chain that ValidateCandidateChain of
-- blockchain/blockchain.go accepts.
use hybridblockchain.Common.{
  ℕ, suc, ◌+◌, ◌%◌, ◌<◌, ◌≡◌, refl, Bool, true, false, ◌&&◌, List, [], ◌∷◌, ==_iff, Crypto, length,
  take, add64, u64_mod, inl, inr, arith,
}
use hybridblockchain.Chain.{Block}
use hybridblockchain.Chain.Forks.{
  last_from, last_block, last_difficulty, genesis_ok, follows, links_from, validate_candidate_chain,
  resolve_fork,
}
use hybridblockchain.Chain.Forks.Adoption.{resolve_fork-Adopted}

module _ {F : Type 0} where
  -- The difficulties of the blocks, added as natural numbers.
  abbrev pub total_difficulty : List (Block F) → ℕ
  total_difficulty [] = 0
  total_difficulty (b ∷ bs) = b.header.difficulty + total_difficulty bs

  module _ (crypto : Crypto F) where
    and_both : (a b : Bool) → (a && b) ≡ true → (a ≡ true) × (b ≡ true)
    and_both true true h = (refl, refl)
    and_both true false h = ground (arith, h)
    and_both false b h = ground (arith, h)

    pub follows-numbers :
        (p c : Block F)
        → follows crypto p c ≡ true
        → (c.header.block_number ≡ add64 p.header.block_number 1)
          × (c.cumulative_difficulty ≡ add64 p.cumulative_difficulty c.header.difficulty)
    unfolding follows
    follows-numbers p c h =
        let both = (and_both _ _ (and_both _ _ h).1) in
        ((==_iff _ _).0 both.0, (==_iff _ _).0 both.1)

    genesis_ok-difficulty :
        (b : Block F)
        → b.header.block_number ≡ 0
        → genesis_ok b ≡ true
        → b.cumulative_difficulty ≡ b.header.difficulty
    unfolding genesis_ok
    genesis_ok-difficulty b z h = ground (arith, z, h)

    links_from-work :
        (b : Block F) (bs : List (Block F))
        → links_from crypto b bs ≡ true
        → b.cumulative_difficulty < u64_mod
        → b.header.block_number < u64_mod
        → ((last_from b bs).cumulative_difficulty
            ≡ (b.cumulative_difficulty + total_difficulty bs) % u64_mod)
          × ((last_from b bs).header.block_number ≡ (b.header.block_number + length bs) % u64_mod)
    unfolding links_from
    links_from-work b [] h w n = (omega (arith, w), omega (arith, n))
    links_from-work b (c ∷ cs) h w n =
        let both = and_both _ _ h in
        let here = follows-numbers b c both.0 in
        let later = links_from-work c cs both.1 (omega (arith, here)) (omega (arith, here)) in
        (omega (arith, here, later), omega (arith, here, later))

    -- In a chain that ValidateCandidateChain accepts and that starts with a block of number 0, whose
    -- difficulty is a uint64, the last block has the sum of the difficulties of all blocks as its
    -- cumulative difficulty, and the number of blocks before it as its number, both modulo 2^64.
    pub validate_candidate_chain-work :
        (b : Block F) (bs : List (Block F))
        → b.header.block_number ≡ 0
        → b.header.difficulty < u64_mod
        → validate_candidate_chain crypto (b ∷ bs) ≡ true
        → ((last_from b bs).cumulative_difficulty ≡ total_difficulty (b ∷ bs) % u64_mod)
          × ((last_from b bs).header.block_number ≡ length bs % u64_mod)
    unfolding validate_candidate_chain
    validate_candidate_chain-work b bs z d h =
        let both = and_both _ _ h in
        let first = genesis_ok-difficulty b z both.0 in
        let work = links_from-work b bs both.1 (omega (arith, first, d)) (omega (arith, z)) in
        (omega (arith, work, first), omega (arith, work, z))

    -- Two accepted chains from a block of number 0 compare as their last blocks do.
    valid-heavier :
        (b c : Block F) (bs cs : List (Block F))
        → b.header.block_number ≡ 0
        → c.header.block_number ≡ 0
        → validate_candidate_chain crypto (b ∷ bs) ≡ true
        → validate_candidate_chain crypto (c ∷ cs) ≡ true
        → total_difficulty (b ∷ bs) < u64_mod
        → total_difficulty (c ∷ cs) < u64_mod
        → last_difficulty (b ∷ bs) < last_difficulty (c ∷ cs)
        → total_difficulty (b ∷ bs) < total_difficulty (c ∷ cs)
    unfolding last_difficulty last_block
    valid-heavier b c bs cs z y v w small small' h =
        let old = validate_candidate_chain-work b bs z (omega (arith, small)) v in
        let new = validate_candidate_chain-work c cs y (omega (arith, small')) w in
        omega (arith, old, new, small, small', h)

    Adopted-heavier :
        (k : ℕ) (b : Block F) (bs result : List (Block F))
        → take (suc k) result ≡ take (suc k) (b ∷ bs)
        → b.header.block_number ≡ 0
        → validate_candidate_chain crypto (b ∷ bs) ≡ true
        → validate_candidate_chain crypto result ≡ true
        → total_difficulty (b ∷ bs) < u64_mod
        → total_difficulty result < u64_mod
        → last_difficulty (b ∷ bs) < last_difficulty result
        → total_difficulty (b ∷ bs) < total_difficulty result
    Adopted-heavier k b bs [] p z v w small small' h = ground (arith, p)
    Adopted-heavier k b bs (c ∷ cs) p z v w small small' h =
        let same : c ≡ b = ground (arith, p) in
        valid-heavier b c bs cs z (rw same z) v w small small' h

    -- Where the chain starts with a block of number 0 and ValidateCandidateChain accepts it, and neither it
    -- nor the chain that ResolveFork leaves has a total difficulty of 2^64 or more, a fork that is adopted
    -- has a larger total difficulty, its difficulties added as natural numbers.
    pub resolve_fork-heavier :
        (candidate bs : List (Block F)) (b : Block F)
        → b.header.block_number ≡ 0
        → validate_candidate_chain crypto (b ∷ bs) ≡ true
        → total_difficulty (b ∷ bs) < u64_mod
        → total_difficulty (resolve_fork crypto candidate (b ∷ bs)).0 < u64_mod
        → (resolve_fork crypto candidate (b ∷ bs)).1 ≡ true
        → total_difficulty (b ∷ bs) < total_difficulty (resolve_fork crypto candidate (b ∷ bs)).0
    resolve_fork-heavier candidate bs b z v small small' t =
        elim (resolve_fork-Adopted crypto candidate (b ∷ bs)) [
          | inl e ↦ ground (arith, e, t)
          | inr (_, (valid, _, _, more, k, _, prefix)) ↦
              Adopted-heavier k b bs _ prefix z v valid small small' more
        ]
