-- ===== src/StakePool/Calls.antt =====
-- The methods of StakePool of blockchain/stake_pool.go that compute with float64.
use hybridblockchain.Common.{
  ℕ, ◌*◌, ◌/◌, ◌%◌, true, false, ◌&&◌, ◌||◌, Option, none, some, List, [], ◌∷◌, Text, text_eq,
  length, take, ltb, leb, ◌==◌, if◌then◌else◌, sort_stable, add64, sub64, mul64, ltb_ℤ, leb_ℤ, ℤ,
  pos, ◌-ℤ◌, GoMap, lookup, insert, erase, Float64, float,
}
use hybridblockchain.StakePool.{
  ValidatorPerformance, StakeInfo, StakePool, ValidatorNode, second, min_stake_age, max_stake_age,
  zero_time, empty_wallet, empty_host, negative_stake, not_positive, not_enough, no_validators,
  no_active, selection_failed, bad_data, StakeError, host_of,
}

module _ {F : Type 0} ⦃fl : Float64 F⦄ where
  abbrev new_performance : ℤ → ValidatorPerformance F
  new_performance now = record {
    blocks_proposed = 0;
    blocks_validated = 0;
    missed_validations = 0;
    uptime_percentage = float 0;
    last_update = now;
  }

  -- The entries that AddValidator, AddStake and CreateStake make.
  abbrev pub validator_entry : ℤ → Text → F → Text → StakeInfo F
  validator_entry now wallet stake host = record {
    address = wallet;
    amount = fl.to_uint64 stake;
    start_time = now;
    last_reward_time = now;
    last_active = now;
    withdrawal_req = none;
    violations = pos 0;
    performance = some (new_performance now);
    selection_count = 0;
    host_id = host;
    timestamp = now;
    is_validator = true;
  }

  abbrev pub stake_entry : ℤ → Text → F → StakeInfo F
  stake_entry now wallet stake = record {
    address = wallet;
    amount = fl.to_uint64 stake;
    start_time = now;
    last_reward_time = zero_time;
    last_active = now;
    withdrawal_req = none;
    violations = pos 0;
    performance = none;
    selection_count = 0;
    host_id = [];
    timestamp = pos 0;
    is_validator = false;
  }

  -- AddValidator. `now` is one reading of the clock.
  unfoldable pub add_validator : ℤ → Text → F → Text → StakePool F → StakePool F × Option StakeError
  add_validator now wallet stake host sp =
      if text_eq wallet []
      then (sp, some empty_wallet)
      else if text_eq host []
      then (sp, some empty_host)
      else if fl.lt stake (float 0)
      then (sp, some negative_stake)
      else let entry : StakeInfo F = elim (lookup wallet sp.stakes) [
        | none ↦ validator_entry now wallet stake host
        | some s ↦ record s {
          amount = add64 s.amount (fl.to_uint64 stake);
          last_active = now;
          host_id = host;
          is_validator = true;
          timestamp = now;
        }
      ] in
        (
          record sp {
            stakes = insert wallet entry sp.stakes;
            wallet_to_host = insert wallet host sp.wallet_to_host;
          },
          none,
        )

  -- AddStake
  unfoldable pub add_stake : ℤ → Text → Text → F → StakePool F → StakePool F × Option StakeError
  add_stake now wallet host amount sp =
      if fl.le amount (float 0)
      then (sp, some not_positive)
      else let entry : StakeInfo F = elim (lookup wallet sp.stakes) [
        | none ↦ stake_entry now wallet amount
        | some s ↦ record s { amount = add64 s.amount (fl.to_uint64 amount) }
      ] in
        (
          record sp {
            stakes = insert wallet entry sp.stakes;
            wallet_to_host = insert wallet host sp.wallet_to_host;
          },
          none,
        )

  -- RemoveStake
  unfoldable pub remove_stake : Text → F → StakePool F → StakePool F × Option StakeError
  remove_stake wallet amount sp = elim (lookup wallet sp.stakes) [
    | none ↦ (sp, some not_enough)
    | some s ↦
        if ltb s.amount (fl.to_uint64 amount)
        then (sp, some not_enough)
        else let left = sub64 s.amount (fl.to_uint64 amount) in
          (
            if left == 0
                then record sp {
                  stakes = erase wallet sp.stakes;
                  wallet_to_host = erase wallet sp.wallet_to_host;
                }
                else record sp { stakes = insert wallet (record s { amount = left }) sp.stakes },
            none,
          )
  ]

  -- CreateStake
  unfoldable pub create_stake : ℤ → Text → ℕ → StakePool F → StakePool F
  create_stake now address amount sp = record sp {
    stakes =
        insert address
          (record (stake_entry now address (float 0)) {
            amount = amount;
            last_reward_time = now;
            performance = some (new_performance now);
          })
          sp.stakes;
  }

  -- GetTotalStake, and the running sum of SelectValidator
  unfoldable pub sum_stakes : F → GoMap (StakeInfo F) → F
  sum_stakes total [] = total
  sum_stakes total ((wallet, s) ∷ rest) = sum_stakes (fl.add total (float s.amount)) rest

  unfoldable pub get_total_stake : StakePool F → F
  unfolding sum_stakes
  get_total_stake sp = sum_stakes (float 0) sp.stakes

  -- The loop of SelectValidator: the first wallet whose running sum reaches `r`.
  unfoldable pub pick : F → F → GoMap (StakeInfo F) → Option Text
  pick r cumulative [] = none
  pick r cumulative ((wallet, s) ∷ rest) =
      let next = fl.add cumulative (float s.amount) in
      let later = pick r next rest in if fl.le r next then some wallet else later

  -- SelectValidator, with `u` for rand.Float64() and the broadcast left out.
  unfoldable pub select_validator :
      F → GoMap (StakeInfo F) → StakePool F → Option (Text × Text) × Option StakeError
  unfolding pick sum_stakes host_of
  select_validator u summed sp = elim sp.stakes [
    | [] ↦ (none, some no_validators)
    | e ∷ rest ↦ elim rest [
      | [] ↦ (some (e.0, host_of e.0 sp), none)
      | f ∷ more ↦ elim (pick (fl.mul u (sum_stakes (float 0) summed)) (float 0) sp.stakes) [
        | none ↦ (none, some selection_failed)
        | some wallet ↦ (some (wallet, host_of wallet sp), none)
      ]
    ]
  ]

  -- GetValidators: the loop, and the call. `sort.Slice` is not stable: equal stakes may stand in any
  -- order, here in the map's. A negative `count` panics, and is left out.
  unfoldable pub old_enough : ℤ → StakePool F → GoMap (StakeInfo F) → List (ValidatorNode F)
  unfolding host_of
  old_enough now sp [] = []
  old_enough now sp ((wallet, s) ∷ rest) =
      let later = old_enough now sp rest in
      if leb 0 s.amount && leb_ℤ min_stake_age (now -ℤ s.start_time)
      then (record { address = wallet; stake = float s.amount; host_id = host_of wallet sp })
        ∷ later
      else later

  unfoldable pub get_validators : ℤ → ℕ → StakePool F → List (ValidatorNode F) × Option StakeError
  unfolding old_enough
  get_validators now count sp = elim sp.stakes [
    | [] ↦ ([], some no_validators)
    | _ ∷ _ ↦ elim (old_enough now sp sp.stakes) [
      | [] ↦ ([], some no_active)
      | v ∷ vs ↦
          let sorted = sort_stable (λ a b. fl.lt b.stake a.stake) (v ∷ vs) in
          (if count == 0 || ltb (length sorted) count then sorted else take count sorted, none)
    ]
  ]

  -- UpdateValidators, after json.Unmarshal: `hostID` is not exported, so that JSON leaves it empty.
  unfoldable pub add_received :
      ℤ → List (ValidatorNode F) → StakePool F → StakePool F × Option StakeError
  unfolding add_stake
  add_received now [] sp = (sp, none)
  add_received now (v ∷ vs) sp =
      let called = add_stake now v.address v.host_id v.stake sp in
      elim called.1 [ some e ↦ called | none ↦ add_received now vs called.0 ]

  unfoldable pub update_validators :
      ℤ → Option (List (ValidatorNode F) × Text) → StakePool F → StakePool F × Option StakeError
  unfolding add_received
  update_validators now none sp = (sp, some bad_data)
  update_validators now (some (vs, root)) sp =
      let added = add_received now vs sp in
      elim added.1 [ some e ↦ added | none ↦ (record added.0 { state_root = root }, none) ]

  -- GetStakeWeight. The age in hours is a float64, divided by 24 and truncated.
  unfoldable pub get_stake_weight : ℤ → Option (StakeInfo F) → ℕ
  get_stake_weight now none = 0
  get_stake_weight now (some s) =
      let age = now -ℤ s.start_time in
      if ltb_ℤ age min_stake_age
      then 0
      else let capped =
          if ltb_ℤ (pos max_stake_age) age
          then max_stake_age
          else (elim age [ pos n ↦ n | _ ↦ 0 ]) in
        let hours =
          fl.add (float (capped / (3600 * second)))
            (fl.div (float (capped % (3600 * second))) (float (3600 * second))) in
        let age_weight = fl.to_uint64 (fl.div hours (float 24)) in
        let base_weight = mul64 s.amount 100 / second in
        add64 base_weight (mul64 base_weight age_weight / 365)
