-- ===== src/Examples/Rewards.antt =====
-- Examples for blockchain/rewards.go.
use hybridblockchain.Common.{
  ℕ, refl, [], ◌∷◌, ◌^◌, pos, pos_part, true, false, none, some, Text, lookup, GoMap, min, ◌/◌, ltb,
  if◌then◌else◌,
}
use hybridblockchain.StakePool.Calls.{stake_entry}
use hybridblockchain.Validators.{Validator}
use hybridblockchain.Rewards.{GoMath, RewardCalculator, distribute_rewards, get_reward_history}
use hybridblockchain.Rewards.History.{Recorded, distribute_rewards-Recorded}
use hybridblockchain.Examples.{whole, alice, bob}

abbrev whole_math : GoMath ℕ
whole_math = record {
  pow = λ a b. a ^ b;
  max = λ a b. if ltb a b then b else a;
  min = λ a b. min a b;
  hours = λ d. pos_part d / 3600000000000;
}

abbrev proposer : Validator ℕ
proposer = record {
  address = alice;
  public_key = [];
  status = 1;
  score = 150;
  last_active = pos 0;
  performance = none;
  violations = pos 0;
  timeouts = pos 0;
  probation_end_time = pos 0;
  consensus_failures = pos 0;
  config = record {
    stake = 10;
    min_stake = 1;
    reward_rate = 1;
    slashing_rate = 1;
    block_timeout = pos 30;
    max_missed = pos 10;
  };
  is_validating = true;
  missed_blocks = pos 0;
  rewards = 0;
  slashed = false;
  is_selected = false;
  selection_proof = none;
}

abbrev calculator : RewardCalculator ℕ (GoMap Text)
calculator = record {
  blockchain = record {
    chain = [];
    current_hash = [];
    db = none;
    utxo_pool = none;
    last_validator_address = [];
    balances = [];
  };
  stake_pool = record {
    stakes = (bob, record (stake_entry (pos 0) bob 0) { amount = 1000 }) ∷ [];
    wallet_to_host = [];
    state_root = [];
  };
  reward_history = [];
}

nothing_paid : Recorded calculator
unfolding get_reward_history lookup
nothing_paid a = refl

-- A hundred days after Bob's stake.
distribute_rewards-Recorded_example :
    Recorded (distribute_rewards whole_math (pos 8640000000000000) 7 (some proposer) calculator)
distribute_rewards-Recorded_example =
    distribute_rewards-Recorded whole_math (pos 8640000000000000) 7 (some proposer) calculator
      nothing_paid
