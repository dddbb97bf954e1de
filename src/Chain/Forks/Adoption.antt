-- ===== src/Chain/Forks/Adoption.antt =====
-- What ResolveFork of blockchain/blockchain.go leaves behind.
use hybridblockchain.Common.{
  ℕ, zero, suc, ◌-◌, ◌≤◌, ◌<◌, ◌≡◌, refl, ◌∙◌, ap, true, false, some, List, [], ◌∷◌, ◌++◌, Text,
  leb, Crypto, length, take, drop, Bool-cases, Option-cases, inl, inr, ◌⊎◌, arith, length-append,
  length-take,
}
use hybridblockchain.Chain.{Block, block_hash}
use hybridblockchain.Chain.Forks.{
  last_block, last_from, last_difficulty, validate_candidate_chain, validate_chain_segment,
  last_index, find_common_ancestor, reorganize_chain, resolve_fork,
}

module _ {F : Type 0} where
  pub length-drop : (n : ℕ) (xs : List (Block F)) → length (drop n xs) ≡ length xs - n
  length-drop zero xs = omega arith
  length-drop (suc n) [] = omega arith
  length-drop (suc n) (x ∷ xs) = omega (arith, length-drop n xs)

  last_from-append :
      (a b : Block F) (bs cs : List (Block F)) → last_from a (bs ++ b ∷ cs) ≡ last_from b cs
  last_from-append a b [] cs = refl
  last_from-append a b (c ∷ bs) cs = last_from-append c b bs cs

  -- The last block of an append whose second part is not empty.
  pub last_block-append :
      (bs cs : List (Block F)) → 0 < length cs → last_block (bs ++ cs) ≡ last_block cs
  unfolding last_block
  last_block-append bs [] h = ground (arith, h)
  last_block-append [] (c ∷ cs) h = refl
  last_block-append (b ∷ bs) (c ∷ cs) h = ap some (last_from-append b c bs cs)

  last_block-drop :
      (n : ℕ) (bs : List (Block F)) → n < length bs → last_block (drop n bs) ≡ last_block bs
  unfolding last_block
  last_block-drop zero bs h = refl
  last_block-drop (suc n) [] h = ground (arith, h)
  last_block-drop (suc n) (b ∷ []) h = ground (arith, h)
  last_block-drop (suc n) (b ∷ c ∷ bs) h = last_block-drop n (c ∷ bs) (omega (arith, h))

  module _ (crypto : Crypto F) where
    last_index-lt :
        (h : Text) (chain : List (Block F)) (j : ℕ)
        → last_index crypto h chain ≡ some j
        → j < length chain
    unfolding last_index
    last_index-lt h [] j e = ground (arith, e)
    last_index-lt h (b ∷ bs) j e = elim (Option-cases (last_index crypto h bs)) [
      | inl n ↦ ground (arith, e, n)
      | inr (i, s) ↦ ground (arith, e, s, last_index-lt h bs i s)
    ]

    pub find_common_ancestor-lt :
        (chain candidate : List (Block F)) (j : ℕ)
        → find_common_ancestor crypto chain candidate ≡ some j
        → j < length chain
    unfolding find_common_ancestor
    find_common_ancestor-lt chain [] j e = ground (arith, e)
    find_common_ancestor-lt chain (c ∷ cs) j e =
        elim (Option-cases (find_common_ancestor crypto chain cs)) [
          | inl n ↦ last_index-lt (block_hash crypto c) chain j (ground (arith, e, n))
          | inr (i, s) ↦ ground (arith, e, s, find_common_ancestor-lt chain cs i s)
        ]

  take-take_append :
      (n : ℕ) (xs ys : List (Block F)) → n ≤ length xs → take n (take n xs ++ ys) ≡ take n xs
  take-take_append zero xs ys h = refl
  take-take_append (suc n) [] ys h = ground (arith, h)
  take-take_append (suc n) (x ∷ xs) ys h =
      ap (λ zs. x ∷ zs) (take-take_append n xs ys (omega (arith, h)))

  -- A chain taken over from a candidate: it validates, it is as long as the candidate and ends with its
  -- last block, which has the larger cumulative difficulty, and it keeps a part of the old chain.
  abbrev pub Adopted : Crypto F → List (Block F) → List (Block F) → List (Block F) → Type 0
  Adopted crypto candidate chain result =
      (validate_candidate_chain crypto result ≡ true)
      × (length result ≡ length candidate)
      × (last_block result ≡ last_block candidate)
      × (last_difficulty chain < last_difficulty result)
      × (k : ℕ) × (k < length chain)
      × (take (suc k) result ≡ take (suc k) chain)

  module _ (crypto : Crypto F) where
    reorganize_chain-Adopted :
        (candidate chain : List (Block F)) (k : ℕ)
        → k < length chain
        → length chain < length candidate
        → last_difficulty chain < last_difficulty candidate
        → (reorganize_chain crypto candidate k chain ≡ (chain, false))
          ⊎ (((reorganize_chain crypto candidate k chain).1 ≡ true)
              × Adopted crypto candidate chain (reorganize_chain crypto candidate k chain).0)
    unfolding reorganize_chain last_difficulty
    reorganize_chain-Adopted candidate chain k h l d =
        let joined = take (suc k) chain ++ drop (suc k) candidate in
        let same_last : last_block joined ≡ last_block candidate =
          last_block-append (take (suc k) chain) (drop (suc k) candidate)
            (omega (arith, length-drop (suc k) candidate, h, l))
          ∙ last_block-drop (suc k) candidate (omega (arith, h, l)) in
        elim (Bool-cases (validate_candidate_chain crypto joined)) [
          | inr e ↦ rw e (inl refl)
          | inl e ↦ rw e (
              inr (
                refl,
                (
                  e,
                  omega (
                    arith,
                    length-append (take (suc k) chain) (drop (suc k) candidate),
                    length-take (suc k) chain,
                    length-drop (suc k) candidate,
                    h,
                    l,
                  ),
                  same_last,
                  rw same_last d,
                  k,
                  h,
                  take-take_append (suc k) chain (drop (suc k) candidate) (omega (arith, h)),
                ),
              ))
        ]

    -- ResolveFork either refuses and leaves the chain as it is, or it returns true and the chain is then
    -- one that ValidateCandidateChain accepts, as long as the candidate, ending with the candidate's last
    -- block, of a larger cumulative difficulty than before, and equal to the old chain up to some block.
    pub resolve_fork-Adopted :
        (candidate chain : List (Block F))
        → (resolve_fork crypto candidate chain ≡ (chain, false))
          ⊎ (((resolve_fork crypto candidate chain).1 ≡ true)
              × Adopted crypto candidate chain (resolve_fork crypto candidate chain).0)
    unfolding resolve_fork
    resolve_fork-Adopted candidate chain =
        elim (Bool-cases (leb (length candidate) (length chain))) [
          | inl e ↦ rw e (inl refl)
          | inr e ↦ elim (Option-cases (find_common_ancestor crypto chain candidate)) [
            | inl n ↦ rw (e, n) (inl refl)
            | inr (k, s) ↦ elim (Bool-cases (validate_chain_segment crypto (drop k candidate))) [
              | inr f ↦ rw (e, s, f) (inl refl)
              | inl f ↦
                  elim (Bool-cases (leb (last_difficulty candidate) (last_difficulty chain))) [
                    | inl g ↦ rw (e, s, f, g) (inl refl)
                    | inr g ↦
                        rw (e, s, f, g)
                          (reorganize_chain-Adopted candidate chain k
                            (find_common_ancestor-lt crypto chain candidate k s) (ground (arith, e))
                            (ground (arith, g)))
                  ]
            ]
          ]
        ]
