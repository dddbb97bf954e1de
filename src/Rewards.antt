-- ===== src/Rewards.antt =====
-- RewardCalculator of blockchain/rewards.go. The functions of the packages math and time are a
-- record that the definitions take. `now` stands for all readings of the clock in one call; a
-- pointer to a stake is not nil, and AddBalance, which never fails, returns no error.
pub mod History
use hybridblockchain.Common.{
  ℕ, ◌*◌, ◌/◌, ◌==◌, Bool, true, false, Option, none, some, List, [], ◌∷◌, ◌++◌, Text, codes, ltb,
  if◌then◌else◌, ℤ, ◌-ℤ◌, ltb_ℤ, pos, GoMap, lookup, insert, Float64, float, decimal_literal,
}
use hybridblockchain.StakePool.{StakePool, StakeInfo}
use hybridblockchain.StakePool.Calls.{get_total_stake}
use hybridblockchain.Validators.{Validator}
use hybridblockchain.Chain.Ledger.{Blockchain, add_balance}

-- math.Pow, math.Max, math.Min, and Hours of time.Duration
pub record GoMath (F : Type 0) : Type 0 where
  pub pow : F → F → F
  pub max : F → F → F
  pub min : F → F → F
  pub hours : ℤ → F

pub record RewardEvent (F : Type 0) : Type 0 where
  pub address : Text
  pub amount : F
  pub reward_type : Text
  pub block_height : ℕ
  pub timestamp : ℤ

-- The fields that are read; `lastUpdate` is not.
pub record RewardCalculator (F D : Type 0) : Type 0 where
  pub blockchain : Blockchain F D
  pub stake_pool : StakePool F
  pub reward_history : GoMap (List (RewardEvent F))

abbrev pub reward_halving_period : ℕ
reward_halving_period = 210000

-- MinStakeTime in nanoseconds
abbrev pub min_stake_time : ℤ
min_stake_time = pos (24 * 3600 * 1000000000)

module _ {F D : Type 0} where
  -- GetRewardHistory: no entry reads as the nil slice.
  unfoldable pub get_reward_history : Text → RewardCalculator F D → List (RewardEvent F)
  get_reward_history address rc = elim (lookup address rc.reward_history) [
    | none ↦ []
    | some events ↦ events
  ]

  -- recordRewardEvent
  unfoldable pub record_reward_event :
      ℤ → Text → F → Text → ℕ → RewardCalculator F D → RewardCalculator F D
  unfolding get_reward_history
  record_reward_event now address amount reward_type height rc =
      let event : RewardEvent F = record {
        address = address;
        amount = amount;
        reward_type = reward_type;
        block_height = height;
        timestamp = now;
      } in
      record rc {
        reward_history =
            insert address (get_reward_history address rc ++ event ∷ []) rc.reward_history;
      }

module _ {F D : Type 0} ⦃fl : Float64 F⦄ where
  -- AddBalance and recordRewardEvent, as DistributeRewards calls them one after the other.
  unfoldable pub pay : ℤ → Text → F → Text → ℕ → RewardCalculator F D → RewardCalculator F D
  unfolding record_reward_event add_balance
  pay now address amount reward_type height rc =
      record_reward_event now address amount reward_type height
        (record rc { blockchain = add_balance address amount rc.blockchain })

module _ {F : Type 0} ⦃fl : Float64 F⦄ (gm : GoMath F) where
  -- CalculateBlockReward
  unfoldable pub calculate_base_reward : ℕ → F
  calculate_base_reward height =
      gm.max (fl.div (float 50) (gm.pow (float 2) (float (height / reward_halving_period))))
        (float 0)

  unfoldable pub calculate_performance_multiplier : Validator F → F
  calculate_performance_multiplier v =
      if ltb v.score 50
      then decimal_literal 5 10
      else gm.min (fl.div (float v.score) (float 100)) (float 2)

  -- CalculateValidatorReward
  unfoldable pub calculate_performance_reward : Option (Validator F) → F → F
  unfolding calculate_performance_multiplier
  calculate_performance_reward none block_reward = float 0
  calculate_performance_reward (some v) block_reward =
      fl.mul (fl.mul block_reward (decimal_literal 70 100)) (calculate_performance_multiplier v)

  -- CalculateStakeReward
  unfoldable pub calculate_stake_reward : ℤ → StakePool F → StakeInfo F → F → F
  calculate_stake_reward now sp stake block_reward =
      let annual = fl.mul (float stake.amount) (decimal_literal 5 100) in
      let time_based : F =
        fl.div (fl.mul annual (gm.hours (now -ℤ stake.last_reward_time))) (float (24 * 365)) in
      let total = get_total_stake sp in
      if stake.amount == 0
      then float 0
      else if ltb_ℤ (now -ℤ stake.start_time) min_stake_time
      then float 0
      else if fl.eq total (float 0)
      then time_based
      else fl.add time_based (
          fl.mul (fl.mul block_reward (decimal_literal 30 100)) (fl.div (float stake.amount) total))

module _ {F D : Type 0} ⦃fl : Float64 F⦄ (gm : GoMath F) where
  -- The part of DistributeRewards for the validator, and the body of its loop.
  unfoldable pub pay_validator :
      ℤ → ℕ → F → Option (Validator F) → RewardCalculator F D → RewardCalculator F D
  unfolding calculate_performance_reward pay
  pay_validator now height block_reward none rc = rc
  pay_validator now height block_reward (some v) rc =
      let reward = calculate_performance_reward gm (some v) block_reward in
      if fl.lt (float 0) reward then pay now v.address reward (codes "validator") height rc else rc

  unfoldable pub pay_stake :
      ℤ → ℕ → F → StakePool F → Text → StakeInfo F → RewardCalculator F D → RewardCalculator F D
  unfolding calculate_stake_reward pay
  pay_stake now height block_reward sp addr stake rc =
      let reward = calculate_stake_reward gm now sp stake block_reward in
      let rewarded = record stake { last_reward_time = now } in
      let paid : RewardCalculator F D = pay now addr reward (codes "stake") height rc in
      if fl.lt (float 0) reward
      then record paid {
        stake_pool = record paid.stake_pool {
          stakes = insert addr rewarded paid.stake_pool.stakes;
        };
      }
      else rc

  -- The loop. It changes no amount, so that `sp`, the pool before the loop, has the total that
  -- GetTotalStake finds each time.
  unfoldable pub pay_stakes :
      ℤ → ℕ → F → StakePool F → GoMap (StakeInfo F) → RewardCalculator F D → RewardCalculator F D
  unfolding pay_stake
  pay_stakes now height block_reward sp [] rc = rc
  pay_stakes now height block_reward sp ((addr, stake) ∷ rest) rc =
      pay_stakes now height block_reward sp rest
        (pay_stake now height block_reward sp addr stake rc)

  -- DistributeRewards
  unfoldable pub distribute_rewards :
      ℤ → ℕ → Option (Validator F) → RewardCalculator F D → RewardCalculator F D
  unfolding calculate_base_reward pay_validator pay_stakes
  distribute_rewards now height validator rc =
      let block_reward = calculate_base_reward gm height in
      pay_stakes now height block_reward rc.stake_pool rc.stake_pool.stakes
        (pay_validator now height block_reward validator rc)
