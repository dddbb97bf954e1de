-- ===== src/Examples/Votes.antt =====
-- Examples for blockchain/consensus.go.
use hybridblockchain.Common.{ℕ, true, false, some, [], ◌∷◌, codes, pos}
use hybridblockchain.Consensus.{ConsensusEngine, Voter, new_consensus_state, start_consensus_round}
use hybridblockchain.Examples.{alice, bob}

abbrev voter : Voter
voter = record { status = 1; is_validating = true; slashed = false }

-- Three validators, and no round yet.
abbrev engine : ConsensusEngine ℕ
engine = record {
  validators = (alice, voter) ∷ (bob, voter) ∷ (codes "carol", voter) ∷ [];
  state = new_consensus_state (pos 0);
  added = [];
}

abbrev round : ConsensusEngine ℕ
round = (start_consensus_round (pos 1) (some 7) (some bob) true engine).0
