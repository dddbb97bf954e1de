-- ===== src/Validators/Selection.antt =====
-- ValidatorSelector of blockchain/validator_selection.go. The stakes stand in the order in which the
-- run ranges over the map. `now` is time.Now(). SelectValidator is left out: it
-- calls getEligibleValidators, which locks for reading the mutex that the call holds, and so never
-- returns.
pub mod Weighted
use hybridblockchain.Common.{
  ℕ, zero, suc, ◌+◌, ◌*◌, ◌/◌, ◌%◌, ◌^◌, Bool, true, false, not, ◌&&◌, ◌||◌, Option, none, some,
  is_some, List, [], ◌∷◌, ◌++◌, Text, text_eq, ◌==◌, ltb, leb, if◌then◌else◌, add64, mul64, u64_mod,
  take, GoMap, lookup, insert, ℤ, pos, ltb_ℤ, leb_ℤ, ◌-ℤ◌, Float64, float, decimal_literal, Crypto,
}
use hybridblockchain.Storage.{Call, returns, panics}
use hybridblockchain.StakePool.{
  StakeInfo, StakePool, ValidatorPerformance, second, min_stake_age, slashing_threshold, zero_time,
}
use hybridblockchain.StakePool.Calls.{get_stake_weight}
use hybridblockchain.Consensus.{status_active}
use hybridblockchain.Chain.{SelectionProof}
use hybridblockchain.Validators.{score_of}

-- The fields of `Validator` that the selector sets; the others are zero.
pub record Candidate (F : Type 0) : Type 0 where
  pub address : Text
  pub status : ℕ
  pub score : ℕ
  pub last_active : ℤ
  pub performance : Option (ValidatorPerformance F)
  pub is_selected : Bool
  pub selection_proof : Option SelectionProof

pub data SelectionError : Type 0 where
  no_eligible selection_failed no_stake : SelectionError

abbrev pub min_validator_stake : ℕ
min_validator_stake = 1

abbrev pub max_inactivity_period : ℤ
max_inactivity_period = pos (24 * 3600 * second)

-- The eight bytes of a uint64, and the number of bytes, the most significant first.
abbrev big_endian : ℕ → ℕ → Text
big_endian zero n = []
big_endian (suc w) n = (n / 256 ^ w) % 256 ∷ big_endian w n

abbrev from_bytes : ℕ → Text → ℕ
from_bytes acc [] = acc
from_bytes acc (b ∷ bs) = from_bytes (acc * 256 + b) bs

module _ {F : Type 0} (crypto : Crypto F) where
  -- generateSeed and generateRandomUint64
  unfoldable pub generate_seed : ℕ → Text → Text
  generate_seed height prev_hash = crypto.sha256 (big_endian 8 height ++ prev_hash)

  unfoldable pub generate_random_uint64 : Text → ℕ
  generate_random_uint64 seed = from_bytes 0 (take 8 (crypto.sha256 seed))

module _ {F : Type 0} where
  -- isEligible; `none` is a nil pointer.
  unfoldable pub is_eligible : ℤ → Option (StakeInfo F) → Bool
  is_eligible now none = false
  is_eligible now (some s) =
      not (ltb_ℤ (now -ℤ s.start_time) min_stake_age)
      && (not (leb_ℤ slashing_threshold s.violations)
          && (not (is_some s.withdrawal_req)
              && (not (ltb s.amount min_validator_stake)
                  && not (ltb_ℤ max_inactivity_period (now -ℤ s.last_active)))))

  -- The second loop of weightedSelection.
  unfoldable pub pick_weighted :
      (Candidate F → ℕ)
      → ℤ
      → Text
      → ℕ
      → ℕ
      → List (Candidate F)
      → Option (Candidate F × SelectionProof)
  pick_weighted weight now seed target cumulative [] = none
  pick_weighted weight now seed target cumulative (v ∷ vs) =
      let sum = add64 cumulative (weight v) in
      let later = pick_weighted weight now seed target sum vs in
      if leb target sum
      then some (v, record { seed = seed; timestamp = now; weight = weight v; score = sum })
      else later

  -- Its first loop, which sums the weights. It also keeps them by address: as the candidates are entries
  -- of one map, no two have one address, and `weight v` is what the second loop finds.
  unfoldable pub total_weight : (Candidate F → ℕ) → ℕ → List (Candidate F) → ℕ
  total_weight weight total [] = total
  total_weight weight total (v ∷ vs) = total_weight weight (add64 total (weight v)) vs

module _ {F : Type 0} ⦃fl : Float64 F⦄ where
  -- calculateValidatorScore
  unfoldable pub calculate_validator_score : Option (StakeInfo F) → ℕ
  unfolding score_of
  calculate_validator_score none = 0
  calculate_validator_score (some s) = elim s.performance [ none ↦ 0 | some p ↦ score_of p ]

  -- calculateWeight
  abbrev performance_multiplier : ℤ → ValidatorPerformance F → F
  performance_multiplier now p =
      let uptime : F =
        if fl.le (float 99) p.uptime_percentage
        then fl.mul (float 1) (decimal_literal 12 10)
        else float 1 in
      let ratio =
        fl.div (float p.blocks_validated) (float (add64 p.blocks_validated p.missed_validations)) in
      let validated : F =
        if fl.le (decimal_literal 95 100) ratio
        then fl.mul uptime (decimal_literal 11 10)
        else uptime in
      if ltb_ℤ (now -ℤ p.last_update) (pos (3600 * second))
      then fl.mul validated (decimal_literal 11 10)
      else validated

  unfoldable pub calculate_weight : ℤ → StakePool F → Candidate F → ℕ
  unfolding get_stake_weight
  calculate_weight now sp v = elim (lookup v.address sp.stakes) [
    | none ↦ 0
    | some s ↦
        let base_weight = get_stake_weight now (some s) in
        elim v.performance [
          | none ↦ base_weight
          | some p ↦ fl.to_uint64 (fl.mul (float base_weight) (performance_multiplier now p))
        ]
  ]

  -- getEligibleValidators: the loop over the stakes
  unfoldable pub eligible_from : ℤ → GoMap (StakeInfo F) → List (Candidate F)
  unfolding is_eligible calculate_validator_score
  eligible_from now [] = []
  eligible_from now ((addr, s) ∷ rest) =
      let later = eligible_from now rest in
      if is_eligible now (some s)
      then record {
        address = addr;
        status = status_active;
        score = calculate_validator_score (some s);
        last_active = s.last_active;
        performance = s.performance;
        is_selected = false;
        selection_proof = none;
      }
        ∷ later
      else later

  module _ (crypto : Crypto F) where
    -- weightedSelection: it panics where the total is 0, at the division.
    unfoldable pub weighted_selection :
        ℤ → StakePool F → List (Candidate F) → Text → Call (Option (Candidate F × SelectionProof))
    unfolding total_weight calculate_weight generate_random_uint64 pick_weighted
    weighted_selection now sp validators seed =
        let weight = calculate_weight now sp in
        let total = total_weight weight 0 validators in
        if total == 0
        then panics
        else returns (
            pick_weighted weight now seed (generate_random_uint64 crypto seed % total) 0 validators)

module _ {F : Type 0} where
  -- UpdateValidatorPerformance and UpdateValidatorActivity
  unfoldable pub update_validator_performance :
      ℤ → Text → Option (ValidatorPerformance F) → StakePool F → StakePool F × Option SelectionError
  update_validator_performance now address metrics sp = elim (lookup address sp.stakes) [
    | none ↦ (sp, some no_stake)
    | some s ↦ (
      record sp {
        stakes = insert address (record s { performance = metrics; last_active = now }) sp.stakes;
      },
      none,
    )
  ]

  abbrev seen : ℤ → Option (ValidatorPerformance F) → Option (ValidatorPerformance F)
  seen now none = none
  seen now (some p) = some (record p { last_update = now })

  unfoldable pub update_validator_activity :
      ℤ → Text → StakePool F → StakePool F × Option SelectionError
  update_validator_activity now address sp = elim (lookup address sp.stakes) [
    | none ↦ (sp, some no_stake)
    | some s ↦ (
      record sp {
        stakes =
            insert address (record s { last_active = now; performance = seen now s.performance })
              sp.stakes;
      },
      none,
    )
  ]
