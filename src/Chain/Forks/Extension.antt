-- ===== src/Chain/Forks/Extension.antt =====
-- ResolveFork of blockchain/blockchain.go given a candidate that extends the chain.
use hybridblockchain.Common.{
  ℕ, ◌<◌, ◌≡◌, refl, ap, true, false, none, some, List, [], ◌∷◌, ◌++◌, text_eq_refl, leb, Crypto,
  length, take, drop, All, arith, length-append,
}
use hybridblockchain.Chain.{Block, block_hash}
use hybridblockchain.Chain.Forks.{
  last_from, last_difficulty, links_from, validate_candidate_chain, validate_chain_segment,
  last_index, find_common_ancestor, reorganize_chain, resolve_fork,
}

module _ {F : Type 0} where
  take-whole : (xs : List (Block F)) → take (length xs) xs ≡ xs
  take-whole [] = refl
  take-whole (x ∷ xs) = ap (λ zs. x ∷ zs) (take-whole xs)

  drop-whole : (xs ys : List (Block F)) → drop (length xs) (xs ++ ys) ≡ ys
  drop-whole [] ys = refl
  drop-whole (x ∷ xs) ys = drop-whole xs ys

  module _ (crypto : Crypto F) where
    -- None of the new blocks has the hash of a block of the chain.
    abbrev pub NewTo : List (Block F) → List (Block F) → Type 0
    NewTo chain extra = All (λ c. last_index crypto (block_hash crypto c) chain ≡ none) extra

    last_index-last :
        (b : Block F) (bs : List (Block F))
        → last_index crypto (block_hash crypto (last_from b bs)) (b ∷ bs) ≡ some (length bs)
    unfolding last_index
    last_index-last b [] = rw (text_eq_refl (block_hash crypto b)) refl
    last_index-last b (c ∷ bs) = rw (last_index-last c bs) refl

    find_common_ancestor-new :
        (chain extra : List (Block F))
        → NewTo chain extra
        → find_common_ancestor crypto chain extra ≡ none
    unfolding find_common_ancestor
    find_common_ancestor-new chain [] h = refl
    find_common_ancestor-new chain (c ∷ cs) h = rw (find_common_ancestor-new chain cs h.1) h.0

    -- The last block of the first part is found where nothing of the second is.
    find_common_ancestor-extension :
        (chain : List (Block F)) (b : Block F) (bs extra : List (Block F)) (k : ℕ)
        → NewTo chain extra
        → last_index crypto (block_hash crypto (last_from b bs)) chain ≡ some k
        → find_common_ancestor crypto chain (b ∷ bs ++ extra) ≡ some k
    unfolding find_common_ancestor
    find_common_ancestor-extension chain b [] extra k h e =
        rw (find_common_ancestor-new chain extra h) e
    find_common_ancestor-extension chain b (c ∷ bs) extra k h e =
        rw (find_common_ancestor-extension chain c bs extra k h e) refl

    links_from-suffix :
        (b : Block F) (bs extra : List (Block F))
        → links_from crypto b (bs ++ extra) ≡ true
        → validate_chain_segment crypto (drop (length bs) (b ∷ bs ++ extra)) ≡ true
    unfolding links_from validate_chain_segment
    links_from-suffix b [] extra h = h
    links_from-suffix b (c ∷ bs) extra h = links_from-suffix c bs extra (ground (arith, h))

    -- A candidate that is the chain, which is not empty, with more blocks after it is adopted as it is,
    -- where ValidateCandidateChain accepts it, none of the new blocks has the hash of a block of the
    -- chain, and its last block has a larger cumulative difficulty than the chain's.
    pub resolve_fork-extension :
        (b e : Block F) (bs es : List (Block F))
        → validate_candidate_chain crypto (b ∷ bs ++ e ∷ es) ≡ true
        → NewTo (b ∷ bs) (e ∷ es)
        → last_difficulty (b ∷ bs) < last_difficulty (b ∷ bs ++ e ∷ es)
        → resolve_fork crypto (b ∷ bs ++ e ∷ es) (b ∷ bs) ≡ (b ∷ bs ++ e ∷ es, true)
    unfolding resolve_fork reorganize_chain
    resolve_fork-extension b e bs es v n d =
        let found =
          find_common_ancestor-extension (b ∷ bs) b bs (e ∷ es) (length bs) n
            (last_index-last b bs) in
        let longer : leb (length (b ∷ bs ++ e ∷ es)) (length (b ∷ bs)) ≡ false =
          ground (arith, length-append bs (e ∷ es)) in
        let heavier : leb (last_difficulty (b ∷ bs ++ e ∷ es)) (last_difficulty (b ∷ bs)) ≡ false =
          ground (arith, d) in
        rw
          (
            longer,
            found,
            links_from-suffix b bs (e ∷ es) (unfold validate_candidate_chain in ground (arith, v)),
            heavier,
            take-whole bs,
            drop-whole bs (e ∷ es),
            v,
          )
          refl
