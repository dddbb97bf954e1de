-- ===== src/Examples/Stakes.antt =====
-- Examples for blockchain/stake_pool.go.
use mathlib.Core.List.Perm
use hybridblockchain.Common.{
  GoMap, ℕ, ◌≡◌, refl, List, [], ◌∷◌, pos, true, none, some, Text, codes, Option, lookup, float,
  text_eq,
}
use hybridblockchain.StakePool.{StakePool, StakeInfo, merge_stakes, host_of}
use hybridblockchain.StakePool.Calls.{stake_entry, select_validator, sum_stakes}
use hybridblockchain.StakePool.Merge.{amount_of, larger, offered, merge_stakes-larger}
use hybridblockchain.StakePool.Select.{Reaches, select_validator-Reaches}
use hybridblockchain.Examples.{whole, alice, bob}

abbrev staked : ℕ → StakeInfo ℕ
staked n = record (stake_entry (pos 0) alice (float 0)) { amount = n }

abbrev pool : StakePool ℕ
pool = record {
  stakes = (alice, staked 40) ∷ (bob, staked 10) ∷ [];
  wallet_to_host = (alice, codes "h1") ∷ (bob, codes "h2") ∷ [];
  state_root = [];
}

abbrev message : List (Text × Option (StakeInfo ℕ))
message = (bob, some (staked 30)) ∷ (alice, none) ∷ []

merge_stakes-larger_example :
    amount_of bob (merge_stakes message pool) ≡ larger (amount_of bob pool) (offered bob message)
merge_stakes-larger_example = merge_stakes-larger bob message pool

staked_by_alice : lookup alice pool.stakes ≡ some (staked 40)
unfolding lookup text_eq
staked_by_alice = refl

abbrev turned : GoMap (StakeInfo ℕ)
turned = (bob, staked 10) ∷ (alice, staked 40) ∷ []

total_reached :
    whole.le (whole.mul 1 (sum_stakes (float 0) turned)) (sum_stakes (float 0) pool.stakes) ≡ true
unfolding sum_stakes
total_reached = refl

select_validator-Reaches_example :
    (wallet : Text) × (select_validator 1 turned pool ≡ (some (wallet, host_of wallet pool), none))
    × Reaches (whole.mul 1 (sum_stakes (float 0) turned)) (float 0) pool.stakes wallet
select_validator-Reaches_example =
    select_validator-Reaches 1 turned pool (alice, staked 40) (bob, staked 10) []
      (Perm.swap (alice, staked 40) (bob, staked 10) []) total_reached
