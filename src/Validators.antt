-- ===== src/Validators.antt =====
-- Validator of blockchain/validator.go: the life of one validator. The pointers to the chain and to
-- other validators are left out, the configuration is not nil, and logging is left out. A mutex is
-- held for the whole of a method: one that locks it a second time never returns.
pub mod Selection
pub mod Slashing
pub mod Lifecycle
use hybridblockchain.Common.{
  ℕ, ◌+◌, ◌-◌, ◌*◌, ◌/◌, Bool, true, false, not, ◌&&◌, ◌||◌, Option, none, some, Text, ◌==◌, ltb,
  leb, if◌then◌else◌, add64, sub64, mul64, ℤ, pos, ltb_ℤ, leb_ℤ, ◌+ℤ◌, Float64, float,
}
use hybridblockchain.StakePool.{ValidatorPerformance, zero_time}
use hybridblockchain.Consensus.{Voter, is_ready, status_active, status_slashed}
use hybridblockchain.Chain.{SelectionProof}

abbrev pub status_pending : ℕ
status_pending = 0

abbrev pub status_probation : ℕ
status_probation = 2

pub record ValidatorConfig (F : Type 0) : Type 0 where
  pub stake : F
  pub min_stake : F
  pub reward_rate : F
  pub slashing_rate : F
  pub block_timeout : ℤ
  pub max_missed : ℤ

pub record Validator (F : Type 0) : Type 0 where
  pub address : Text
  pub public_key : Text
  pub status : ℕ
  pub score : ℕ
  pub last_active : ℤ
  pub performance : Option (ValidatorPerformance F)
  pub violations : ℤ
  pub timeouts : ℤ
  pub probation_end_time : ℤ
  pub consensus_failures : ℤ
  pub config : ValidatorConfig F
  pub is_validating : Bool
  pub missed_blocks : ℤ
  pub rewards : F
  pub slashed : Bool
  pub is_selected : Bool
  pub selection_proof : Option SelectionProof

pub data ValidatorError : Type 0 where
  already_slashed is_syncing not_active score_too_low has_been_slashed : ValidatorError
  not_recoverable invalid_validator no_stake_found not_recorded : ValidatorError

-- A method returns, or it waits for ever for the mutex that it holds.
pub data Locking (A : Type 0) : Type 0 where
  ends : A → Locking A
  never_ends : Locking A

module _ {F : Type 0} where
  -- Start, of a validator whose node is syncing or not
  unfoldable pub start : Bool → Validator F → Validator F × Option ValidatorError
  start syncing v =
      if v.is_validating
      then (v, none)
      else if v.status == status_slashed
      then (v, some already_slashed)
      else if syncing
      then (v, some is_syncing)
      else (record v { is_validating = true; status = status_active }, none)

  -- Stop
  unfoldable pub stop : Validator F → Validator F
  stop v = if v.is_validating then record v { is_validating = false } else v

  -- CheckSelectionEligibility
  unfoldable pub check_selection_eligibility : Validator F → Option ValidatorError
  check_selection_eligibility v =
      if not (v.status == status_active)
      then some not_active
      else if ltb v.score 100
      then some score_too_low
      else if v.slashed
      then some has_been_slashed
      else none

  -- NotifySelection, and ProcessSelection, which has the same body
  unfoldable pub notify_selection :
      ℤ → SelectionProof → Validator F → Validator F × Option ValidatorError
  unfolding check_selection_eligibility
  notify_selection now proof v = elim (check_selection_eligibility v) [
    | some e ↦ (v, some e)
    | none ↦
        (record v { is_selected = true; selection_proof = some proof; last_active = now }, none)
  ]

  -- updateStatus
  unfoldable pub update_status : Validator F → Validator F
  update_status v =
      if ltb v.score 100
      then record v { status = status_probation }
      else if v.status == status_slashed
      then v
      else record v { status = status_active }

  -- Recover
  unfoldable pub recover : ℤ → Validator F → Validator F × Option ValidatorError
  recover now v =
      if v.status == status_probation || v.status == status_slashed
      then (
        record v { score = 100; timeouts = pos 0; status = status_active; last_active = now },
        none,
      )
      else (v, some not_recoverable)

  -- The fields that IsReady and IsSlashed read.
  abbrev pub voter_of : Validator F → Voter
  voter_of v = record { status = v.status; is_validating = v.is_validating; slashed = v.slashed }

module _ {F : Type 0} ⦃fl : Float64 F⦄ where
  abbrev empty_performance : ℤ → ValidatorPerformance F
  empty_performance at = record {
    blocks_proposed = 0;
    blocks_validated = 0;
    missed_validations = 0;
    uptime_percentage = float 0;
    last_update = at;
  }

  -- The score of UpdateValidatorScore and of calculateValidatorScore.
  unfoldable pub score_of : ValidatorPerformance F → ℕ
  score_of p =
      let base_score = mul64 p.blocks_validated 10 in
      let penalties = mul64 p.missed_validations 20 in
      let uptime_score = fl.to_uint64 (fl.mul p.uptime_percentage (float 100)) in
      if ltb base_score penalties then 0 else add64 (sub64 base_score penalties) uptime_score

  -- UpdateValidatorScore
  unfoldable pub update_validator_score : ℤ → Validator F → Validator F
  unfolding score_of update_status
  update_validator_score now v = elim v.performance [
    | none ↦ record v { performance = some (empty_performance now) }
    | some p ↦ update_status (record v { score = score_of p })
  ]

  -- RecordValidation
  abbrev pub with_uptime : ValidatorPerformance F → ValidatorPerformance F
  with_uptime p =
      let total = add64 p.blocks_validated p.missed_validations in
      if ltb 0 total
      then record p {
        uptime_percentage = fl.mul (fl.div (float p.blocks_validated) (float total)) (float 100);
      }
      else p

  abbrev pub performance_or_zero : Option (ValidatorPerformance F) → ValidatorPerformance F
  performance_or_zero none = empty_performance zero_time
  performance_or_zero (some p) = p

  abbrev pub counted : Bool → ValidatorPerformance F → ValidatorPerformance F
  counted true p = record p { blocks_validated = add64 p.blocks_validated 1 }
  counted false p = record p { missed_validations = add64 p.missed_validations 1 }

  unfoldable pub record_validation : ℤ → Bool → Validator F → Validator F
  unfolding update_validator_score
  record_validation now success v =
      let performance = with_uptime (counted success (performance_or_zero v.performance)) in
      update_validator_score now (record v {
        performance = some performance;
        last_active = if success then now else v.last_active;
      })

  -- slash, which is called with the mutex held, as Stop is that locks it
  unfoldable pub slash : Validator F → Locking (Validator F)
  slash v =
      let amount = fl.mul v.config.stake v.config.slashing_rate in
      let config = record v.config { stake = fl.sub v.config.stake amount } in
      if fl.lt config.stake config.min_stake
      then never_ends
      else ends (record v { config = config; slashed = true })

  -- handleMissedBlocks
  unfoldable pub handle_missed_blocks : ℤ → Validator F → Locking (Validator F)
  unfolding slash
  handle_missed_blocks missed v =
      let total = v.missed_blocks +ℤ missed in
      let missing = record v { missed_blocks = total } in
      if leb_ℤ v.config.max_missed total then slash missing else ends missing
