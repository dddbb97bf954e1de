-- ===== src/Validators/Slashing.antt =====
-- SlashingManager of blockchain/slashing.go, over the stake pool, the community pool and the
-- database of the chain, and the validator that a call is given. `now` is time.Now(), one reading for
-- each call; `height` is the number of the latest block. json.Marshal of an event is an argument.
pub mod Violations
use hybridblockchain.Common.{
  ℕ, ◌/◌, ◌*◌, Bool, true, false, ◌&&◌, Option, none, some, List, [], ◌∷◌, ◌++◌, Text, codes,
  int_text, ◌==◌, if◌then◌else◌, sub64, GoMap, lookup, insert, ℤ, pos, negsuc, ◌+ℤ◌, leb_ℤ, ltb_ℤ,
  Float64, float, decimal_literal,
}
use hybridblockchain.Storage.{Storage}
use hybridblockchain.StakePool.{StakeInfo, StakePool, second, slashing_threshold}
use hybridblockchain.Consensus.{status_active, status_slashed}
use hybridblockchain.Validators.{
  Validator, ValidatorError, invalid_validator, no_stake_found, not_recorded, status_probation,
}

pub record SlashingEvidence : Type 0 where
  pub validator_address : Text
  pub violation_type : Text
  pub block_height : ℕ
  pub timestamp : ℤ
  pub proof : Text
  pub description : Text

-- The record that recordSlashingEvent writes.
pub record SlashingEvent (F : Type 0) : Type 0 where
  pub timestamp : ℤ
  pub address : Text
  pub amount : F
  pub violations : ℤ
  pub evidence : List SlashingEvidence

pub record SlashingManager (F D : Type 0) : Type 0 where
  pub stake_pool : StakePool F
  pub community_pool : F
  pub db : D
  pub evidence : GoMap (List SlashingEvidence)

abbrev pub probation_period : ℤ
probation_period = pos (24 * 3600 * second)

abbrev pub max_timeout_violations : ℤ
max_timeout_violations = pos 5

abbrev pub max_consensus_failures : ℤ
max_consensus_failures = pos 3

-- time.Time.Unix of a time in nanoseconds, rounded down
abbrev unix : ℤ → ℤ
unix (pos n) = pos (n / second)
unix (negsuc n) = negsuc (n / second)

module _ {F D : Type 0} where
  -- GetValidatorEvidence
  unfoldable pub get_validator_evidence : Text → SlashingManager F D → List SlashingEvidence
  get_validator_evidence address sm = elim (lookup address sm.evidence) [ none ↦ [] | some es ↦ es ]

  abbrev pub with_evidence : SlashingEvidence → SlashingManager F D → SlashingManager F D
  with_evidence e sm = record sm {
    evidence =
        insert e.validator_address (get_validator_evidence e.validator_address sm ++ e ∷ [])
          sm.evidence;
  }

module _ {F : Type 0} ⦃fl : Float64 F⦄ where
  -- The half of the stake that SlashValidator takes.
  abbrev pub penalty : ℕ → F
  penalty amount = fl.mul (float amount) (decimal_literal 1 2)

module _ {F : Type 0} where
  -- The evidence that HandleViolation creates, and the validator with one more violation.
  abbrev pub new_evidence : ℤ → ℕ → Text → Validator F → SlashingEvidence
  new_evidence now height violation_type v = record {
    validator_address = v.address;
    violation_type = violation_type;
    block_height = height;
    timestamp = now;
    proof = [];
    description =
        codes "Violation " ++ (int_text v.violations ++ (codes " of type " ++ violation_type));
  }

  abbrev pub one_more : Validator F → Validator F
  one_more v = record v { violations = v.violations +ℤ pos 1 }

  -- ClearExpiredProbation
  unfoldable pub clear_expired_probation : ℤ → Validator F → Validator F
  clear_expired_probation now v =
      if v.status == status_probation && ltb_ℤ v.probation_end_time now
      then record v { status = status_active; violations = pos 0 }
      else v

module _ {F D : Type 0} ⦃fl : Float64 F⦄ (st : Storage F D)
    (marshal_event : SlashingEvent F → Option Text) where
  -- recordSlashingEvent: the database, and whether writing succeeded.
  unfoldable pub record_slashing_event :
      ℤ → Validator F → F → SlashingManager F D → SlashingManager F D × Option ValidatorError
  unfolding get_validator_evidence
  record_slashing_event now v amount sm =
      let event : SlashingEvent F = record {
        timestamp = now;
        address = v.address;
        amount = amount;
        violations = v.violations;
        evidence = get_validator_evidence v.address sm;
      } in
      elim (marshal_event event) [
        | none ↦ (sm, some not_recorded)
        | some bytes ↦
            let key = codes "slash:" ++ (v.address ++ 58 ∷ int_text (unix now)) in
            elim (st.put key bytes sm.db) [
              | none ↦ (sm, some not_recorded)
              | some d ↦ (record sm { db = d }, none)
            ]
      ]

  -- SlashValidator
  unfoldable pub slash_validator :
      ℤ
      → Validator F
      → SlashingManager F D
      → SlashingManager F D × Validator F × Option ValidatorError
  unfolding record_slashing_event
  slash_validator now v sm = elim (lookup v.address sm.stake_pool.stakes) [
    | none ↦ (sm, v, some no_stake_found)
    | some s ↦
        let amount = penalty s.amount in
        let slashed = record v { status = status_slashed; score = 0 } in
        let recorded = record_slashing_event now slashed amount (record sm {
          stake_pool = record sm.stake_pool {
            stakes =
                insert v.address (record s { amount = sub64 s.amount (fl.to_uint64 amount) })
                  sm.stake_pool.stakes;
          };
          community_pool = fl.add sm.community_pool amount;
        }) in
        (recorded.0, slashed, recorded.1)
  ]

  -- HandleViolation of a validator that is not nil
  unfoldable pub handle_violation :
      ℤ
      → ℕ
      → Text
      → Validator F
      → SlashingManager F D
      → SlashingManager F D × Validator F × Option ValidatorError
  unfolding get_validator_evidence slash_validator
  handle_violation now height violation_type v sm =
      let violating = one_more v in
      let noted = with_evidence (new_evidence now height violation_type violating) sm in
      if leb_ℤ slashing_threshold violating.violations
      then slash_validator now violating noted
      else (
        noted,
        record violating {
          status = status_probation;
          probation_end_time = now +ℤ probation_period;
        },
        none,
      )

  -- HandleViolation; `none` is a nil pointer.
  unfoldable pub handle_violation_of :
      ℤ
      → ℕ
      → Text
      → Option (Validator F)
      → SlashingManager F D
      → SlashingManager F D × Option (Validator F) × Option ValidatorError
  unfolding handle_violation
  handle_violation_of now height violation_type none sm = (sm, none, some invalid_validator)
  handle_violation_of now height violation_type (some v) sm =
      let handled = handle_violation now height violation_type v sm in
      (handled.0, some handled.1, handled.2)

  -- CheckTimeoutViolations and CheckConsensusViolations
  unfoldable pub check_timeout_violations :
      ℤ
      → ℕ
      → Validator F
      → SlashingManager F D
      → SlashingManager F D × Validator F × Option ValidatorError
  unfolding handle_violation
  check_timeout_violations now height v sm =
      if leb_ℤ max_timeout_violations v.timeouts
      then handle_violation now height (codes "timeout") v sm
      else (sm, v, none)

  unfoldable pub check_consensus_violations :
      ℤ
      → ℕ
      → Validator F
      → SlashingManager F D
      → SlashingManager F D × Validator F × Option ValidatorError
  unfolding handle_violation
  check_consensus_violations now height v sm =
      if leb_ℤ max_consensus_failures v.consensus_failures
      then handle_violation now height (codes "consensus") v sm
      else (sm, v, none)
