-- ===== src/Examples/Guards.antt =====
-- Examples for validators, slashing, accounts and multi-signature wallets.
use hybridblockchain.Common.{
  ℕ, ◌+◌, ◌/◌, ◌≡◌, ◌⊎◌, ◌<◌, ◌≤◌, refl, true, false, none, some, is_some, List, [], ◌∷◌, Text,
  codes, length, pos, ℤ, ◌-ℤ◌, u64_mod, add64, arith, GoMap, lookup, ◌==◌, text_eq,
  lookup-insert_self,
}
use native.Mathlib.Nat.{div-le_of_le-mul}
use hybridblockchain.Storage.{panics}
use hybridblockchain.StakePool.{StakePool, StakeInfo}
use hybridblockchain.StakePool.Calls.{stake_entry, get_stake_weight}
use hybridblockchain.Consensus.{status_active, status_slashed}
use hybridblockchain.Validators.{Validator, record_validation, check_selection_eligibility}
use hybridblockchain.Validators.Lifecycle.{UptimeBound, successes, record_validation-Ready}
use hybridblockchain.Validators.Selection.{
  is_eligible, calculate_weight, eligible_from, calculate_validator_score, weighted_selection,
}
use hybridblockchain.Validators.Selection.Weighted.{
  sum_weights, Selects, weighted_selection-Selects,
}
use hybridblockchain.Validators.Slashing.{SlashingManager, get_validator_evidence}
use hybridblockchain.Validators.Slashing.Violations.{
  Stands, slashed_times, handle_violations, handle_violations-Stands,
}
use hybridblockchain.Accounts.{
  AccountState, AccountManager, update_nonce, validate_nonce, get_account_state, save_account_state,
  load_account_state,
}
use hybridblockchain.Accounts.Nonces.{AccountStoreLaws, update_nonce-restart}
use hybridblockchain.MultiSig.{MultiSigWallet, MultiSigTransaction, execute_multi_sig_transaction}
use hybridblockchain.MultiSig.Spending.{Spends, execute_multi_sig_transaction-Spends}
use hybridblockchain.Tx.{tx_hash}
use hybridblockchain.Examples.{
  no_accounts, write_account, read_account, accounts_store, whole, plain, memory, alice, bob,
  payment_tx, one_utxo,
}

whole-UptimeBound : UptimeBound whole
whole-UptimeBound a b h _ =
    let share : a / b ≤ 1 = div-le_of_le-mul b {m = a} {n = 1} (omega (arith, h)) in
    omega (arith, share)

-- A slashed validator with one block validated and none missed.
abbrev slashed_validator : Validator ℕ
slashed_validator = record {
  address = alice;
  public_key = [];
  status = 3;
  score = 0;
  last_active = pos 0;
  performance = some (record {
    blocks_proposed = 0;
    blocks_validated = 1;
    missed_validations = 0;
    uptime_percentage = 100;
    last_update = pos 0;
  });
  violations = pos 0;
  timeouts = pos 0;
  probation_end_time = pos 0;
  consensus_failures = pos 0;
  config = record {
    stake = 10;
    min_stake = 1;
    reward_rate = 1;
    slashing_rate = 1;
    block_timeout = pos 30;
    max_missed = pos 10;
  };
  is_validating = true;
  missed_blocks = pos 0;
  rewards = 0;
  slashed = false;
  is_selected = false;
  selection_proof = none;
}

-- The times of ten more successes after a first.
abbrev ten : List ℤ
ten = pos 3 ∷ pos 4 ∷ pos 5 ∷ pos 6 ∷ pos 7 ∷ pos 8 ∷ pos 9 ∷ pos 10 ∷ pos 11 ∷ pos 12 ∷ []

record_validation-Ready_example :
    ((successes (pos 2 ∷ ten) (record_validation (pos 1) false slashed_validator)).status
      ≡ status_active)
    × (check_selection_eligibility
          (successes (pos 2 ∷ ten) (record_validation (pos 1) false slashed_validator))
        ≡ none)
record_validation-Ready_example =
    record_validation-Ready whole-UptimeBound (pos 1) (pos 2) ten 1 0 slashed_validator
      (_, refl, refl, refl) refl refl (omega arith) (omega arith) (omega arith)

-- Stakes of Alice and Bob, the first of whom can be weighed.
abbrev staked : Text → ℕ → StakeInfo ℕ
staked wallet n = record (stake_entry (pos 0) wallet 0) { amount = n }

abbrev pool : StakePool ℕ
pool = record {
  stakes = (alice, staked alice 50000000) ∷ (bob, staked bob 20000000) ∷ [];
  wallet_to_host = [];
  state_root = [];
}

weights_small :
    sum_weights (calculate_weight (pos 5) pool) (eligible_from (pos 5) pool.stakes) < u64_mod
unfolding calculate_weight get_stake_weight eligible_from is_eligible calculate_validator_score
    lookup text_eq ◌-ℤ◌
weights_small = omega arith

weighted_selection-Selects_example :
    ((sum_weights (calculate_weight (pos 5) pool) (eligible_from (pos 5) pool.stakes) ≡ 0)
      × (weighted_selection plain (pos 5) pool (eligible_from (pos 5) pool.stakes) (codes "seed")
          ≡ panics))
    ⊎ Selects plain
        (pos 5)
        (codes "seed")
        pool
        (weighted_selection plain (pos 5) pool (eligible_from (pos 5) pool.stakes) (codes "seed"))
weighted_selection-Selects_example =
    weighted_selection-Selects plain (pos 5) (codes "seed") pool weights_small

abbrev manager : SlashingManager ℕ (GoMap Text)
manager = record { stake_pool = pool; community_pool = 0; db = []; evidence = [] }

abbrev violations : List (ℤ × ℕ × Text)
violations =
    (pos 1, 7, codes "timeout") ∷ (pos 2, 8, codes "timeout") ∷ (pos 3, 9, codes "consensus") ∷ []

has_stake : lookup alice pool.stakes ≡ some (staked alice 50000000)
unfolding lookup text_eq
has_stake = refl

handle_violations-Stands_example :
    let called = handle_violations memory (λ e. some []) violations slashed_validator manager in
    Stands alice
      (pos 3)
      status_slashed
      (record (staked alice 50000000) { amount = slashed_times whole 1 50000000 })
      (length (get_validator_evidence alice manager) + 3)
      called.0
      called.1
handle_violations-Stands_example =
    handle_violations-Stands memory (λ e. some []) 0 violations slashed_validator
      (staked alice 50000000) manager refl has_stake

read_account-write_account :
    (s : AccountState ℕ) (t : Text) → write_account s ≡ some t → read_account t ≡ some s
read_account-write_account s t h = ground (arith, h)

accounts_store-AccountStoreLaws : AccountStoreLaws accounts_store
accounts_store-AccountStoreLaws = record {
  get-put = λ k v d e h. ground (arith, h, lookup-insert_self k v d);
  unmarshal-marshal = read_account-write_account;
}

abbrev after_update : AccountManager ℕ (GoMap Text)
after_update = (update_nonce accounts_store (pos 7000000000) alice no_accounts).0

alice_named : (get_account_state accounts_store alice no_accounts).1.address ≡ alice
unfolding get_account_state load_account_state lookup
alice_named = refl

alice_updated :
    update_nonce accounts_store (pos 7000000000) alice no_accounts ≡ (after_update, some 1)
unfolding update_nonce get_account_state load_account_state save_account_state lookup
alice_updated = refl

update_nonce-restart_example :
    (◌≡◌ {A = ℕ} 1 (add64 (get_account_state accounts_store alice no_accounts).1.nonce 1))
    × ((validate_nonce accounts_store alice 2 after_update).1 ≡ (2 == add64 1 1))
    × ((validate_nonce accounts_store alice 2 (record after_update { accounts = [] })).1
        ≡ (2 == add64 1 1))
update_nonce-restart_example =
    update_nonce-restart accounts_store accounts_store-AccountStoreLaws (pos 7000000000) alice 1 2
      no_accounts after_update alice_named alice_updated

-- A wallet of Alice and Bob that asks for one signature, and a payment that Alice has signed.
abbrev shared_wallet : MultiSigWallet ℕ
shared_wallet = record {
  owners = alice ∷ bob ∷ [];
  required_sigs = pos 1;
  balance = 100;
  public_key_map = (alice, some (codes "key")) ∷ (bob, none) ∷ [];
  address = codes "sup";
}

abbrev signed_tx : MultiSigTransaction ℕ
signed_tx = record { transaction = payment_tx; signatures = (alice, tx_hash plain payment_tx) ∷ [] }

execute_multi_sig_transaction-Spends_example :
    let called = execute_multi_sig_transaction plain signed_tx shared_wallet one_utxo in
    ((called.0 ≡ shared_wallet) × (called.1 ≡ one_utxo) × (is_some called.2 ≡ true))
    ⊎ Spends plain signed_tx shared_wallet one_utxo called
execute_multi_sig_transaction-Spends_example =
    execute_multi_sig_transaction-Spends plain signed_tx shared_wallet one_utxo
