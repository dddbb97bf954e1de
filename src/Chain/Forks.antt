-- ===== src/Chain/Forks.antt =====
-- The choice between chains in blockchain/blockchain.go: ResolveFork and its helpers,
-- ValidateCandidateChain, ReplaceChain and ResolveChainConflict. Each takes bc.Chain and returns it as
-- it is afterwards. No lock is taken there, so that a call is modelled as running alone; the current
-- hash, the outputs and the database, which none of them touches, are left out.
pub mod Adoption
pub mod Extension
use hybridblockchain.Common.{
  ℕ, suc, Bool, true, false, ◌&&◌, Option, none, some, List, [], ◌∷◌, ◌++◌, Text, codes, text_eq,
  ◌==◌, leb, ltb, if◌then◌else◌, Crypto, add64, length, take, drop,
}
use hybridblockchain.Storage.{Call, returns, panics}
use hybridblockchain.Chain.{Block, block_hash}

abbrev pub genesis_parent : Text
genesis_parent = codes "0x00000000000000000000000000000000"

module _ {F : Type 0} where
  abbrev pub last_from : Block F → List (Block F) → Block F
  last_from b [] = b
  last_from b (c ∷ cs) = last_from c cs

  -- `chain[len(chain)-1]`: `none` where Go panics at the index -1.
  unfoldable pub last_block : List (Block F) → Option (Block F)
  last_block [] = none
  last_block (b ∷ bs) = some (last_from b bs)

  -- The cumulative difficulty of the last block; ResolveFork reads it of chains that have one.
  abbrev pub difficulty_of : Option (Block F) → ℕ
  difficulty_of none = 0
  difficulty_of (some b) = b.cumulative_difficulty

  unfoldable pub last_difficulty : List (Block F) → ℕ
  unfolding last_block
  last_difficulty bs = difficulty_of (last_block bs)

  -- The test of the first block in ValidateCandidateChain.
  unfoldable pub genesis_ok : Block F → Bool
  genesis_ok b =
      if b.header.block_number == 0
      then text_eq b.header.previous_hash genesis_parent
        && b.cumulative_difficulty == b.header.difficulty
      else true

  module _ (crypto : Crypto F) where
    -- The tests of a block against the one before it, in both loops.
    unfoldable pub follows : Block F → Block F → Bool
    follows previous current =
        text_eq current.header.previous_hash (block_hash crypto previous)
        && (current.header.block_number == add64 previous.header.block_number 1
            && current.cumulative_difficulty
              == add64 previous.cumulative_difficulty current.header.difficulty)

    unfoldable pub links_from : Block F → List (Block F) → Bool
    unfolding follows
    links_from b [] = true
    links_from b (c ∷ cs) = follows b c && links_from c cs

    -- validateChainSegment
    unfoldable pub validate_chain_segment : List (Block F) → Bool
    unfolding links_from
    validate_chain_segment [] = true
    validate_chain_segment (b ∷ bs) = links_from b bs

    -- ValidateCandidateChain
    unfoldable pub validate_candidate_chain : List (Block F) → Bool
    unfolding genesis_ok links_from
    validate_candidate_chain [] = false
    validate_candidate_chain (b ∷ bs) = genesis_ok b && links_from b bs

    -- The inner loop of findCommonAncestor, which runs from the end: the last index with the hash.
    unfoldable pub last_index : Text → List (Block F) → Option ℕ
    last_index h [] = none
    last_index h (b ∷ bs) = elim (last_index h bs) [
      | some j ↦ some (suc j)
      | none ↦ if text_eq (block_hash crypto b) h then some 0 else none
    ]

    -- findCommonAncestor, whose -1 is `none`: the candidate's blocks from the last to the first.
    unfoldable pub find_common_ancestor : List (Block F) → List (Block F) → Option ℕ
    unfolding last_index
    find_common_ancestor chain [] = none
    find_common_ancestor chain (c ∷ cs) = elim (find_common_ancestor chain cs) [
      | some j ↦ some j
      | none ↦ last_index (block_hash crypto c) chain
    ]

    -- reorganizeChain. `append` may write into the array of bc.Chain; the backup is a copy.
    unfoldable pub reorganize_chain : List (Block F) → ℕ → List (Block F) → List (Block F) × Bool
    unfolding validate_candidate_chain
    reorganize_chain new_chain k chain =
        let joined = take (suc k) chain ++ drop (suc k) new_chain in
        if validate_candidate_chain joined then (joined, true) else (chain, false)

    -- ResolveFork
    unfoldable pub resolve_fork : List (Block F) → List (Block F) → List (Block F) × Bool
    unfolding find_common_ancestor validate_chain_segment last_difficulty reorganize_chain
    resolve_fork candidate chain =
        if leb (length candidate) (length chain)
        then (chain, false)
        else elim (find_common_ancestor chain candidate) [
          | none ↦ (chain, false)
          | some k ↦
              if validate_chain_segment (drop k candidate)
              then if leb (last_difficulty candidate) (last_difficulty chain)
                then (chain, false)
                else reorganize_chain candidate k chain
              else (chain, false)
        ]

    -- ReplaceChain
    unfoldable pub replace_chain : List (Block F) → List (Block F) → List (Block F)
    unfolding validate_candidate_chain
    replace_chain new_chain chain =
        if leb (length new_chain) (length chain)
        then chain
        else if validate_candidate_chain new_chain
        then new_chain
        else chain

  -- ResolveChainConflict, which does not validate what it adopts
  unfoldable pub resolve_chain_conflict :
      List (Block F) → List (Block F) → Call (List (Block F) × Bool)
  unfolding last_block
  resolve_chain_conflict received chain = elim (last_block chain) [
    | none ↦ panics
    | some local ↦ elim (last_block received) [
      | none ↦ panics
      | some remote ↦ returns (
          if ltb local.cumulative_difficulty remote.cumulative_difficulty
          then (received, true)
          else (chain, false))
    ]
  ]
