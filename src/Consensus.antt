-- ===== src/Consensus.antt =====
-- ConsensusEngine of blockchain/consensus.go. `B` is the type of blocks. The calls of
-- blockchain.AddBlock, which finalizeBlock makes, are listed in `added`, in order, with the proposed
-- block that each is given; what AddBlock does with it and the broadcasts are left out, and so are
-- SubmitVote and IsConsensusReached, which lock the engine's mutex twice. The outcome of the selector
-- is an argument. Each mutex guards a whole call.
pub mod Rounds
use hybridblockchain.Common.{
  ℕ, suc, ◌+◌, ◌*◌, Bool, true, false, not, ◌&&◌, Option, none, some, List, [], ◌∷◌, ◌++◌, Text,
  ◌==◌, if◌then◌else◌, length, ℤ, GoMap, lookup, insert, Float64, float, decimal_literal, add64,
}

-- Of `Validator` (validator.go) the fields that IsReady and IsSlashed read.
pub record Voter : Type 0 where
  pub status : ℕ
  pub is_validating : Bool
  pub slashed : Bool

abbrev pub status_active : ℕ
status_active = 1

abbrev pub status_slashed : ℕ
status_slashed = 3

pub record ConsensusState (B : Type 0) : Type 0 where
  pub round : ℕ
  pub current_validator : Text
  pub proposed_block : Option B
  pub validator_votes : GoMap Bool
  pub voting_start_time : ℤ
  pub consensus_reached : Bool

pub record ConsensusEngine (B : Type 0) : Type 0 where
  pub validators : GoMap Voter
  pub state : ConsensusState B
  pub added : List (Option B)

pub data ConsensusError : Type 0 where
  selection_error broadcast_error ineligible_validator : ConsensusError

-- IsReady, IsSlashed and isEligibleVoter
unfoldable pub is_ready : Voter → Bool
is_ready v = v.is_validating && not v.slashed && v.status == status_active

unfoldable pub is_slashed : Voter → Bool
is_slashed v = v.status == status_slashed

unfoldable pub is_eligible_voter : Text → GoMap Voter → Bool
unfolding is_ready is_slashed
is_eligible_voter addr validators = elim (lookup addr validators) [
  | none ↦ false
  | some v ↦ is_ready v && not (is_slashed v)
]

unfoldable pub positive_votes : GoMap Bool → ℕ
positive_votes [] = 0
positive_votes ((addr, vote) ∷ votes) =
    if vote then suc (positive_votes votes) else positive_votes votes

-- hasReachedConsensus: the votes that have come in are counted, not the validators.
unfoldable pub has_reached_consensus : {F : Type 0} → Float64 F → GoMap Bool → Bool
unfolding positive_votes
has_reached_consensus fl votes =
    fl.le (fl.mul (fl.of_uint64 (length votes)) (fl.div (fl.of_uint64 2) (fl.of_uint64 3)))
      (fl.of_uint64 (positive_votes votes))

module _ {B : Type 0} where
  -- newConsensusState
  abbrev pub new_consensus_state : ℤ → ConsensusState B
  new_consensus_state now = record {
    round = 0;
    current_validator = [];
    proposed_block = none;
    validator_votes = [];
    voting_start_time = now;
    consensus_reached = false;
  }

  -- newRound
  unfoldable pub new_round : ℤ → Option B → Text → ConsensusState B → ConsensusState B
  new_round now block validator cs = record {
    round = add64 cs.round 1;
    current_validator = validator;
    proposed_block = block;
    validator_votes = [];
    voting_start_time = now;
    consensus_reached = false;
  }

  -- StartConsensusRound: the selector's choice or its error, and whether the broadcast succeeds.
  unfoldable pub start_consensus_round :
      ℤ
      → Option B
      → Option Text
      → Bool
      → ConsensusEngine B
      → ConsensusEngine B × Option ConsensusError
  unfolding new_round
  start_consensus_round now block none sent ce = (ce, some selection_error)
  start_consensus_round now block (some validator) sent ce = (
    record ce { state = new_round now block validator ce.state },
    (if sent then none else some broadcast_error),
  )

  -- finalizeBlock
  unfoldable pub finalize_block : ConsensusEngine B → ConsensusEngine B
  finalize_block ce =
      if ce.state.consensus_reached
      then record ce { added = ce.added ++ ce.state.proposed_block ∷ [] }
      else ce

  -- handleConsensusTimeout
  unfoldable pub handle_consensus_timeout : ℤ → ConsensusEngine B → ConsensusEngine B
  handle_consensus_timeout now ce =
      if ce.state.consensus_reached then ce else record ce { state = new_consensus_state now }

  module _ {F : Type 0} (fl : Float64 F) where
    -- ProcessValidatorVote
    unfoldable pub process_validator_vote :
        Text → Bool → ConsensusEngine B → ConsensusEngine B × Option ConsensusError
    unfolding is_eligible_voter has_reached_consensus finalize_block
    process_validator_vote addr vote ce =
        if not (is_eligible_voter addr ce.validators)
        then (ce, some ineligible_validator)
        else let votes = insert addr vote ce.state.validator_votes in
          let voted = record ce { state = record (ce.state) { validator_votes = votes } } in
          if has_reached_consensus fl votes
          then (
            finalize_block
                (record voted { state = record (voted.state) { consensus_reached = true } }),
            none,
          )
          else (voted, none)

    -- The default branch of collectValidatorVotes, and whether the collection ends with it.
    unfoldable pub collect_validator_votes : ConsensusEngine B → ConsensusEngine B × Bool
    unfolding has_reached_consensus finalize_block
    collect_validator_votes ce =
        if has_reached_consensus fl ce.state.validator_votes
        then (finalize_block ce, true)
        else (ce, false)
