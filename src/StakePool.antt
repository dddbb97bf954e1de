-- ===== src/StakePool.antt =====
-- StakePool of blockchain/stake_pool.go, without the streams to peers, and with the random choice of
-- SelectValidator given as an argument. Amounts are uint64 and wrap; times are nanoseconds, and `now`
-- is time.Now(). A map stands in the order in which the run ranges over it. The mutex guards a whole
-- call.
pub mod Calls
pub mod Merge
pub mod Select
pub mod Withdrawals
pub mod Violations
pub mod Ranking
use hybridblockchain.Common.{
  ℕ, ◌*◌, ◌/◌, ◌%◌, Bool, true, false, not, ◌&&◌, ◌||◌, Option, none, some, List, [], ◌∷◌, ◌++◌,
  Text, codes, text_eq, length, take, ltb, leb, ◌==◌, if◌then◌else◌, sort_stable, add64, sub64,
  mul64, ltb_ℤ, leb_ℤ, ℤ, pos, negsuc, ◌+ℤ◌, ◌-ℤ◌, GoMap, lookup, insert, erase, Float64, float,
}

-- `ValidatorPerformance` and `WithdrawalRequest` of types.go.
pub record ValidatorPerformance (F : Type 0) : Type 0 where
  pub blocks_proposed : ℕ
  pub blocks_validated : ℕ
  pub missed_validations : ℕ
  pub uptime_percentage : F
  pub last_update : ℤ

pub record WithdrawalRequest : Type 0 where
  pub request_time : ℤ
  pub amount : ℕ
  pub status : Text

pub record StakeInfo (F : Type 0) : Type 0 where
  pub address : Text
  pub amount : ℕ
  pub start_time : ℤ
  pub last_reward_time : ℤ
  pub last_active : ℤ
  pub withdrawal_req : Option WithdrawalRequest
  pub violations : ℤ
  pub performance : Option (ValidatorPerformance F)
  pub selection_count : ℕ
  pub host_id : Text
  pub timestamp : ℤ
  pub is_validator : Bool

pub record StakePool (F : Type 0) : Type 0 where
  pub stakes : GoMap (StakeInfo F)
  pub wallet_to_host : GoMap Text
  pub state_root : Text

pub record ValidatorNode (F : Type 0) : Type 0 where
  pub address : Text
  pub stake : F
  pub host_id : Text

pub data StakeError : Type 0 where
  empty_wallet empty_host negative_stake not_positive not_enough no_stake no_request locked :
      StakeError
  no_validators no_active selection_failed bad_data : StakeError

-- The constants of the package.
abbrev pub second : ℕ
second = 1000000000

abbrev pub min_stake_age : ℤ
min_stake_age = pos 0

abbrev pub max_stake_age : ℕ
max_stake_age = 365 * 24 * 3600 * second

abbrev pub withdrawal_lock_period : ℤ
withdrawal_lock_period = pos (72 * 3600 * second)

abbrev pub slashing_threshold : ℤ
slashing_threshold = pos 3

-- The zero time.Time, the first of January of the year 1.
abbrev pub zero_time : ℤ
zero_time = negsuc 62135596799999999999

module _ {F : Type 0} where
  -- NewStakePool
  abbrev pub new_stake_pool : StakePool F
  new_stake_pool = record { stakes = []; wallet_to_host = []; state_root = [] }

  -- RequestWithdrawal
  unfoldable pub request_withdrawal : ℤ → Text → StakePool F → StakePool F × Option StakeError
  request_withdrawal now address sp = elim (lookup address sp.stakes) [
    | none ↦ (sp, some no_stake)
    | some s ↦ (
      record sp {
        stakes =
            insert address
              (record s {
                withdrawal_req =
                    some
                      (record { request_time = now; amount = s.amount; status = codes "pending" });
              })
              sp.stakes;
      },
      none,
    )
  ]

  -- ProcessWithdrawal: the amount, or an error.
  unfoldable pub process_withdrawal : ℤ → Text → StakePool F → StakePool F × ℕ × Option StakeError
  process_withdrawal now address sp = elim (lookup address sp.stakes) [
    | none ↦ (sp, 0, some no_stake)
    | some s ↦ elim s.withdrawal_req [
      | none ↦ (sp, 0, some no_request)
      | some req ↦
          if ltb_ℤ (now -ℤ req.request_time) withdrawal_lock_period
          then (sp, 0, some locked)
          else (record sp { stakes = erase address sp.stakes }, s.amount, none)
    ]
  ]

  -- RecordViolation: from the third violation on, each halves the stake.
  unfoldable pub record_violation : Text → StakePool F → StakePool F × Option StakeError
  record_violation address sp = elim (lookup address sp.stakes) [
    | none ↦ (sp, some no_stake)
    | some s ↦
        let violations = s.violations +ℤ pos 1 in
        let amount =
          if leb_ℤ slashing_threshold violations then sub64 s.amount (s.amount / 2) else s.amount in
        (
          record sp {
            stakes =
                insert address (record s { violations = violations; amount = amount }) sp.stakes;
          },
          none,
        )
  ]

  -- The loop of SyncWithPeer over the peer's stakes; `none` is a nil entry.
  unfoldable pub merge_stake : Text → Option (StakeInfo F) → StakePool F → StakePool F
  merge_stake wallet none sp = sp
  merge_stake wallet (some theirs) sp =
      let taken = record sp {
        stakes = insert wallet theirs sp.stakes;
        wallet_to_host = insert wallet theirs.host_id sp.wallet_to_host;
      } in
      elim (lookup wallet sp.stakes) [
        | none ↦ taken
        | some ours ↦ if ltb ours.amount theirs.amount then taken else sp
      ]

  unfoldable pub merge_stakes : List (Text × Option (StakeInfo F)) → StakePool F → StakePool F
  unfolding merge_stake
  merge_stakes [] sp = sp
  merge_stakes ((wallet, theirs) ∷ rest) sp = merge_stakes rest (merge_stake wallet theirs sp)

  -- sp.WalletToHost[wallet], the empty string where it is missing
  unfoldable pub host_of : Text → StakePool F → Text
  host_of wallet sp = elim (lookup wallet sp.wallet_to_host) [ none ↦ [] | some host ↦ host ]
