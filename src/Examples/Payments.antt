-- ===== src/Examples/Payments.antt =====
-- Examples for making a transaction (blockchain/transaction.go).
use hybridblockchain.Common.{
  GoMap, Text, ℕ, ◌≡◌, refl, [], ◌∷◌, pos, true, false, none, some, codes, lookup, text_eq, ◌⊎◌,
  decimal, hex_encode, int_text, sort_stable, sort_insert,
}
use hybridblockchain.Tx.{
  Transaction, utxo_key, tx_hash, is_system_tx, is_coinbase, is_validator_reward, validate_gas,
  convert_gas_to_tokens, tx_verify_signature, get_public_key, verify_signature,
}
use hybridblockchain.Utxo.Keyed.{IsKeyed, add_utxo-IsKeyed}
use hybridblockchain.Utxo.Calls.{add_utxo}
use hybridblockchain.Storage.{returns}
use hybridblockchain.Utxo.{UtxoPool}
use hybridblockchain.Utxo.Sets.{utxos_for_address}
use hybridblockchain.Mempool.{validate_transaction, input_sum, total_required}
use hybridblockchain.Payments.{
  total_needed, SelectError, select_utxos, select_from, add_inputs, add_change_output,
  new_transaction, generate_transaction_id,
}
use hybridblockchain.Payments.Selection.{
  Covered, select_utxos-Covered, validate_transaction-select_utxos,
}
use hybridblockchain.Examples.{
  whole-IeeeOrder, memory, whole, plain, alice, bob, payment_tx, public_keys, one_utxo, small_pool,
}

-- A payment of 30 with a gas fee of 2, and what SelectUTXOs makes of it.
abbrev draft : Transaction ℕ
draft = record payment_tx {
  inputs = [];
  outputs = (record { receiver = bob; amount = 30; script_pub_key = [] }) ∷ [];
  gas_limit = 2000000;
  gas_price = 100;
  max_fee_per_gas = 0;
  gas_fee = 2;
}

abbrev paid : Transaction ℕ
paid = record draft {
  inputs = (record { transaction_id = codes "a"; output_index = pos 0; signature = [] }) ∷ [];
  outputs =
      (record { receiver = bob; amount = 30; script_pub_key = [] })
      ∷ (record { receiver = alice; amount = 18; script_pub_key = [] })
      ∷ [];
}

one_utxo-IsKeyed : IsKeyed one_utxo
unfolding lookup text_eq utxo_key int_text decimal
one_utxo-IsKeyed = ((refl, tt), (refl, tt))

add_utxo-IsKeyed_example :
    (pool' : UtxoPool ℕ (GoMap Text)) × (add_utxo plain memory (pos 9) 1 payment_tx small_pool
      ≡ returns pool')
    × IsKeyed pool'.utxos
add_utxo-IsKeyed_example =
    add_utxo-IsKeyed plain memory (pos 9) 1 payment_tx small_pool refl one_utxo-IsKeyed

selected : select_utxos (some small_pool) draft ≡ (paid, none)
unfolding select_utxos select_from add_inputs add_change_output utxos_for_address text_eq
    sort_stable sort_insert
selected = refl

ordinary : is_system_tx draft ≡ false
unfolding is_system_tx is_coinbase is_validator_reward
ordinary = refl

valid_gas : validate_gas draft ≡ none
unfolding validate_gas convert_gas_to_tokens
valid_gas = refl

fee_paid : whole.le (total_required draft) (total_needed draft) ≡ true
unfolding total_required convert_gas_to_tokens
fee_paid = refl

signed :
    tx_verify_signature plain public_keys (record paid { signature = tx_hash plain paid })
    ≡ returns true
unfolding tx_verify_signature get_public_key verify_signature tx_hash hex_encode decimal lookup
    text_eq int_text is_system_tx is_coinbase is_validator_reward
signed = refl

select_utxos-Covered_example :
    ((e : SelectError) × (select_utxos (some small_pool) draft ≡ (draft, some e)))
    ⊎ ((tx : Transaction ℕ) × (select_utxos (some small_pool) draft ≡ (tx, none))
        × Covered one_utxo draft tx)
select_utxos-Covered_example = select_utxos-Covered small_pool draft one_utxo-IsKeyed refl

validate_transaction-select_utxos_example :
    validate_transaction plain public_keys (record paid { signature = tx_hash plain paid }) one_utxo
    ≡ returns true
validate_transaction-select_utxos_example =
    validate_transaction-select_utxos plain public_keys whole-IeeeOrder small_pool draft paid
      (tx_hash plain paid) one_utxo-IsKeyed refl ordinary refl valid_gas fee_paid selected signed

-- NewTransaction doubles the price in the maximum fee: of a payment of 48 with a fee of 2, for which
-- SelectUTXOs takes the 50 there are, the mempool wants 52.
abbrev built : Transaction ℕ
built = record draft {
  amount = 48;
  outputs = (record { receiver = bob; amount = 48; script_pub_key = [] }) ∷ [];
  priority = pos 1;
  max_fee_per_gas = 200;
  transaction_id = generate_transaction_id plain (record draft { amount = 48; priority = pos 1 });
  signature = [];
}

built_by : new_transaction plain (pos 2) alice bob 48 100 2000000 ≡ (some built, none)
unfolding new_transaction validate_gas convert_gas_to_tokens generate_transaction_id
built_by = refl

refused :
    (select_utxos (some small_pool) built ≡ (record built { inputs = paid.inputs }, none))
    × (input_sum alice 0 paid.inputs one_utxo ≡ some 50)
    × (◌≡◌ {A = ℕ} (total_required built) 52)
unfolding select_utxos select_from add_inputs add_change_output utxos_for_address text_eq
    sort_stable sort_insert convert_gas_to_tokens input_sum total_required lookup utxo_key int_text
    decimal
refused = (refl, refl, refl)
