-- ===== src/Rewards/History.antt =====
-- The balances that DistributeRewards of blockchain/rewards.go pays, and its history.
use hybridblockchain.Common.{
  ℕ, if◌then◌else◌, ◌≡◌, refl, inl, inr, none, some, Option, List, [], ◌∷◌, ◌++◌, Text, text_eq,
  lookup, lookup-insert, GoMap, Bool-cases, arith, ℤ, Float64, float, codes,
}
use hybridblockchain.StakePool.{StakePool, StakeInfo}
use hybridblockchain.Validators.{Validator}
use hybridblockchain.Chain.Ledger.{Blockchain, add_balance}
use hybridblockchain.Rewards.{
  GoMath, pay_validator, pay_stake, RewardEvent, RewardCalculator, get_reward_history,
  record_reward_event, pay, pay_stakes, distribute_rewards, calculate_stake_reward,
  calculate_base_reward, calculate_performance_reward,
}

module _ {F : Type 0} ⦃fl : Float64 F⦄ where
  -- The amounts of a history, added up in order.
  abbrev pub total_paid : F → List (RewardEvent F) → F
  total_paid sum [] = sum
  total_paid sum (e ∷ es) = total_paid (fl.add sum e.amount) es

  total_paid-append :
      (sum : F) (es : List (RewardEvent F)) (e : RewardEvent F)
      → total_paid sum (es ++ e ∷ []) ≡ fl.add (total_paid sum es) e.amount
  total_paid-append sum [] e = refl
  total_paid-append sum (d ∷ es) e = total_paid-append (fl.add sum d.amount) es e

  abbrev event : ℤ → Text → F → Text → ℕ → RewardEvent F
  event now address amount reward_type height = record {
    address = address;
    amount = amount;
    reward_type = reward_type;
    block_height = height;
    timestamp = now;
  }

  module _ {D : Type 0} where
    abbrev pub balance_of : Text → Blockchain F D → F
    balance_of address bc = elim (lookup address bc.balances) [ none ↦ float 0 | some b ↦ b ]

    -- The balance of every address is the sum of the rewards in its history.
    abbrev pub Recorded : RewardCalculator F D → Type 0
    Recorded rc =
        (a : Text) → balance_of a rc.blockchain ≡ total_paid (float 0) (get_reward_history a rc)

    balance_of-add_balance :
        (address a : Text) (amount : F) (bc : Blockchain F D)
        → balance_of a (add_balance address amount bc)
          ≡ (if text_eq address a then fl.add (balance_of address bc) amount else balance_of a bc)
    unfolding add_balance
    balance_of-add_balance address a amount bc =
        ground (arith, lookup-insert address a (fl.add (balance_of address bc) amount) bc.balances)

    get_reward_history-record_reward_event :
        (now : ℤ) (address a : Text) (amount : F) (reward_type : Text) (height : ℕ)
        → (rc : RewardCalculator F D)
        → get_reward_history a (record_reward_event now address amount reward_type height rc) ≡ (
            if text_eq address a
            then get_reward_history address rc ++ event now address amount reward_type height ∷ []
            else get_reward_history a rc)
    unfolding record_reward_event get_reward_history
    get_reward_history-record_reward_event now address a amount reward_type height rc = ground (
      arith,
      lookup-insert address a
          (get_reward_history address rc ++ event now address amount reward_type height ∷ [])
          rc.reward_history,
    )

    pay-Recorded :
        (now : ℤ) (address : Text) (amount : F) (reward_type : Text) (height : ℕ)
        → (rc : RewardCalculator F D) → Recorded rc
        → Recorded (pay now address amount reward_type height rc)
    unfolding pay record_reward_event get_reward_history
    pay-Recorded now address amount reward_type height rc h a =
        let new = event now address amount reward_type height in
        ground (
          arith,
          balance_of-add_balance address a amount rc.blockchain,
          get_reward_history-record_reward_event now address a amount reward_type height
              (record rc { blockchain = add_balance address amount rc.blockchain }),
          total_paid-append (float 0) (get_reward_history address rc) new,
          h address,
          h a,
        )

    pay_validator-Recorded :
        (gm : GoMath F) (now : ℤ) (height : ℕ) (block_reward : F) (validator : Option (Validator F))
        → (rc : RewardCalculator F D) → Recorded rc
        → Recorded (pay_validator gm now height block_reward validator rc)
    unfolding pay_validator
    pay_validator-Recorded gm now height block_reward none rc h = h
    pay_validator-Recorded gm now height block_reward (some v) rc h =
        let reward = calculate_performance_reward gm (some v) block_reward in
        elim (Bool-cases (fl.lt (float 0) reward)) [
          | inl e ↦ rw e (pay-Recorded now v.address reward (codes "validator") height rc h)
          | inr e ↦ rw e h
        ]

    pay_stake-Recorded :
        (gm : GoMath F) (now : ℤ) (height : ℕ) (block_reward : F) (sp : StakePool F) (addr : Text)
        → (stake : StakeInfo F) (rc : RewardCalculator F D) → Recorded rc
        → Recorded (pay_stake gm now height block_reward sp addr stake rc)
    unfolding pay_stake get_reward_history
    pay_stake-Recorded gm now height block_reward sp addr stake rc h =
        let reward = calculate_stake_reward gm now sp stake block_reward in
        elim (Bool-cases (fl.lt (float 0) reward)) [
          | inl e ↦ rw e (pay-Recorded now addr reward (codes "stake") height rc h)
          | inr e ↦ rw e h
        ]

    pay_stakes-Recorded :
        (gm : GoMath F) (now : ℤ) (height : ℕ) (block_reward : F) (sp : StakePool F)
        → (stakes : GoMap (StakeInfo F)) (rc : RewardCalculator F D) → Recorded rc
        → Recorded (pay_stakes gm now height block_reward sp stakes rc)
    unfolding pay_stakes
    pay_stakes-Recorded gm now height block_reward sp [] rc h = h
    pay_stakes-Recorded gm now height block_reward sp ((addr, stake) ∷ rest) rc h =
        pay_stakes-Recorded gm now height block_reward sp rest
          (pay_stake gm now height block_reward sp addr stake rc)
          (pay_stake-Recorded gm now height block_reward sp addr stake rc h)

    -- If the balance of every address is the sum of the rewards in its history, added up in order
    -- from 0, that still holds after DistributeRewards.
    pub distribute_rewards-Recorded :
        (gm : GoMath F) (now : ℤ) (height : ℕ) (validator : Option (Validator F))
        → (rc : RewardCalculator F D) → Recorded rc
        → Recorded (distribute_rewards gm now height validator rc)
    unfolding distribute_rewards
    distribute_rewards-Recorded gm now height validator rc h =
        let block_reward = calculate_base_reward gm height in
        pay_stakes-Recorded gm now height block_reward rc.stake_pool rc.stake_pool.stakes
          (pay_validator gm now height block_reward validator rc)
          (pay_validator-Recorded gm now height block_reward validator rc h)
