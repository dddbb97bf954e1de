-- ===== src/Examples/Pools.antt =====
-- Examples for blockchain/mempool.go.
use mathlib.Core.List.{Nodup, Nodup-cons, not-mem-nil, Nodup-nil}
use hybridblockchain.Common.{
  Bool, returns, ℕ, ◌≡◌, refl, [], ◌∷◌, pos, true, false, codes, arith, lookup, All, text_eq,
  hex_encode, decimal, int_text,
}
use hybridblockchain.Tx.{
  is_system_tx, is_coinbase, is_validator_reward, validate_gas, convert_gas_to_tokens,
  tx_verify_signature, tx_hash, get_public_key, verify_signature, utxo_key,
}
use hybridblockchain.Mempool.{
  Mempool, MempoolSync, new_mempool, validate_transaction, input_sum, total_required, stake_shape,
  add_transaction, sync_mempool, apply_sync,
}
use hybridblockchain.Mempool.Ids.{
  Effect, Distinct, add_transaction-Effect, add_transaction-Distinct,
}
use hybridblockchain.Mempool.Order.{ByFee, add_transaction-ByFee}
use hybridblockchain.Mempool.Bounds.{WithinOne, sync_mempool-WithinOne}
use hybridblockchain.Mempool.Validation.{
  Accepted, NeedsNoOutputs, validate_transaction-Accepted, apply_sync-NeedsNoOutputs,
}
use hybridblockchain.Mempool.Sync.{sync_with_peer}
use hybridblockchain.Mempool.Merged.{IsMerge, sync_with_peer-IsMerge}
use hybridblockchain.Examples.{
  whole, whole-IeeeOrder, plain, reward_tx, payment_tx, public_keys, one_utxo,
}

-- A mempool of one place, with the reward in it.
abbrev full : Mempool ℕ
full = record new_mempool { transactions = reward_tx ∷ []; max_size = 1 }

one_id : Nodup (codes "a" ∷ [])
one_id = Nodup-cons.1 (not-mem-nil, Nodup-nil)

payment_valid : validate_transaction plain public_keys payment_tx one_utxo ≡ returns true
unfolding validate_transaction is_system_tx is_coinbase is_validator_reward validate_gas
    convert_gas_to_tokens input_sum total_required stake_shape lookup text_eq utxo_key int_text
    decimal tx_verify_signature get_public_key verify_signature tx_hash hex_encode
payment_valid = refl

add_transaction-Effect_example :
    Effect payment_tx full (add_transaction plain public_keys payment_tx one_utxo full)
add_transaction-Effect_example =
    add_transaction-Effect plain public_keys payment_tx one_utxo full true payment_valid
      (omega arith)

add_transaction-Distinct_example :
    Distinct (add_transaction plain public_keys payment_tx one_utxo full)
add_transaction-Distinct_example =
    add_transaction-Distinct plain public_keys payment_tx one_utxo full true payment_valid
      (omega arith) one_id

add_transaction-ByFee_example :
    ByFee whole-IeeeOrder (add_transaction plain public_keys payment_tx one_utxo full)
add_transaction-ByFee_example =
    add_transaction-ByFee whole-IeeeOrder plain public_keys payment_tx one_utxo full true
      payment_valid (omega arith) refl (refl, tt)

sync_mempool-WithinOne_example :
    WithinOne 1 (sync_mempool (pos 3000000000) (payment_tx ∷ payment_tx ∷ []) full)
sync_mempool-WithinOne_example =
    sync_mempool-WithinOne (pos 3000000000) (payment_tx ∷ payment_tx ∷ []) full (omega arith)

ordinary : is_system_tx payment_tx ≡ false
unfolding is_system_tx is_coinbase is_validator_reward
ordinary = refl

validate_transaction-Accepted_example : Accepted plain public_keys payment_tx one_utxo
validate_transaction-Accepted_example =
    validate_transaction-Accepted plain public_keys payment_tx one_utxo ordinary payment_valid

abbrev received : MempoolSync ℕ
received = record {
  transactions = payment_tx ∷ reward_tx ∷ [];
  state_root = codes "root";
  last_sync_time = pos 0;
}

payment_refused : validate_transaction plain public_keys payment_tx [] ≡ returns false
unfolding validate_transaction is_system_tx is_coinbase is_validator_reward validate_gas
    convert_gas_to_tokens input_sum stake_shape lookup
payment_refused = refl

reward_taken : validate_transaction plain public_keys reward_tx [] ≡ returns true
unfolding validate_transaction is_system_tx is_coinbase
reward_taken = refl

apply_sync-NeedsNoOutputs_example :
    (m : Mempool ℕ) × (matched : Bool) × (apply_sync plain public_keys received full
      ≡ returns (m, matched))
    × All NeedsNoOutputs m.transactions
apply_sync-NeedsNoOutputs_example =
    apply_sync-NeedsNoOutputs plain public_keys received full
      ((false, payment_refused), ((true, reward_taken), tt))

sync_with_peer-IsMerge_example :
    IsMerge
      (payment_tx ∷ reward_tx ∷ payment_tx ∷ [])
      full.transactions
      (sync_with_peer (payment_tx ∷ reward_tx ∷ payment_tx ∷ []) full).transactions
sync_with_peer-IsMerge_example =
    sync_with_peer-IsMerge (payment_tx ∷ reward_tx ∷ payment_tx ∷ []) full one_id
