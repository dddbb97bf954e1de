-- ===== src/Utxo/Outputs.antt =====
-- What AddUTXO stores for the outputs of a transaction.
use hybridblockchain.Common.{
  is_some, true, ℕ, zero, suc, ◌+◌, ◌≡◌, ◌≢◌, refl, ◌∙◌, true, false, some, List, [], ◌∷◌, Text,
  ◌≤◌, get_elem?, if◌then◌else◌, ℤ, pos, lookup, lookup-insert_self, lookup-insert_ne, Float64,
  Crypto, arith,
}
use hybridblockchain.Tx.{Transaction, TransactionOutput, utxo_key, is_system_tx}
use hybridblockchain.Storage.{Storage, returns}
use hybridblockchain.Utxo.{UtxoPool, mark_inputs, new_utxo, add_outputs, apply_tx}
use hybridblockchain.Utxo.Calls.{refresh, add_utxo}
use hybridblockchain.Utxo.Keys.{utxo_key-injective}
use hybridblockchain.Utxo.Total.{add_utxo-Returns, add_utxo-SameContents}

later_key :
    {F : Type 0} (tx : Transaction F) (s j : ℕ)
    → suc s ≤ j
    → utxo_key tx.transaction_id (pos j) ≢ utxo_key tx.transaction_id (pos s)
later_key tx s j le p =
    let same = utxo_key-injective tx.transaction_id tx.transaction_id j s p in
    absurd (omega (arith, same.1))

module _ {F D : Type 0} (tx : Transaction F) (height : ℕ) where
  -- Outputs from index `s` on leave every other key alone.
  pub add_outputs-frame :
      (k : Text) (s : ℕ) (os : List (TransactionOutput F)) (pool : UtxoPool F D)
      → ((j : ℕ) → s ≤ j → utxo_key tx.transaction_id (pos j) ≢ k)
      → lookup k (add_outputs tx height s os pool).utxos ≡ lookup k pool.utxos
  unfolding add_outputs
  add_outputs-frame k s [] pool h = refl
  add_outputs-frame k s (o ∷ os) pool h =
      add_outputs-frame k (suc s) os _ (λ j le. h j (omega arith))
      ∙ lookup-insert_ne (utxo_key tx.transaction_id (pos s)) k (new_utxo tx height s o) pool.utxos
          (h s (omega arith))

  first_found :
      (s : ℕ) (o : TransactionOutput F) (os : List (TransactionOutput F)) (pool : UtxoPool F D)
      → lookup (utxo_key tx.transaction_id (pos s)) (add_outputs tx height s (o ∷ os) pool).utxos
        ≡ some (new_utxo tx height s o)
  unfolding add_outputs
  first_found s o os pool =
      add_outputs-frame (utxo_key tx.transaction_id (pos s)) (suc s) os _ (later_key tx s)
      ∙ lookup-insert_self (utxo_key tx.transaction_id (pos s)) (new_utxo tx height s o) pool.utxos

  add_outputs-found :
      (s i : ℕ) (os : List (TransactionOutput F)) (o : TransactionOutput F) (pool : UtxoPool F D)
      → get_elem? os i ≡ some o
      → lookup (utxo_key tx.transaction_id (pos (s + i))) (add_outputs tx height s os pool).utxos
        ≡ some (new_utxo tx height (s + i) o)
  unfolding add_outputs
  add_outputs-found s i [] o pool e = cc
  add_outputs-found s zero (x ∷ os) o pool e =
      let start : s + 0 ≡ s = omega arith in rw start (ground (arith, first_found s x os pool))
  add_outputs-found s (suc i) (x ∷ os) o pool e =
      let shift : suc s + i ≡ s + suc i = omega arith in
      rw (← shift) (add_outputs-found (suc s) i os o _ e)

module _ {F D : Type 0} ⦃fl : Float64 F⦄ (crypto : Crypto F) (st : Storage F D) where
  -- On a pool with a database AddUTXO returns, and each output of the transaction is then found
  -- under its ID and index: unspent, with the output's amount, receiver and script, the block's
  -- height and the transaction's time.
  pub add_utxo-output :
      (now : ℤ) (height : ℕ) (tx : Transaction F) (pool : UtxoPool F D) (i : ℕ)
      (o : TransactionOutput F)
      → is_some pool.db ≡ true
      → get_elem? tx.outputs i ≡ some o
      → (pool' : UtxoPool F D) × (add_utxo crypto st now height tx pool ≡ returns pool')
        × (lookup (utxo_key tx.transaction_id (pos i)) pool'.utxos
            ≡ some (record {
              transaction_id = tx.transaction_id;
              output_index = pos i;
              amount = o.amount;
              owner = o.receiver;
              spent = false;
              block_height = height;
              timestamp = tx.timestamp;
              script_pub_key = o.script_pub_key;
            }))
  unfolding refresh apply_tx new_utxo
  add_utxo-output now height tx pool i o d e =
      let zero_first : 0 + i ≡ i = omega arith in
      let (pool', h, _) = add_utxo-Returns crypto st now height tx pool d in
      (
        pool',
        h,
        rw (add_utxo-SameContents crypto st now height tx pool pool' h).utxos (
            rw zero_first at (
              add_outputs-found tx height 0 i tx.outputs o
                (if is_system_tx tx then pool else mark_inputs tx.inputs pool) e)),
      )
