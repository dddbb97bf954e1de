-- ===== src/Utxo/Refinement.antt =====
-- UpdateUTXOSet on a plain map against AddUTXO on a pool (blockchain/utxo.go).
use hybridblockchain.Common.{
  ℕ, suc, ◌≡◌, true, Option, none, some, List, [], ◌∷◌, Text, text_eq, text_eq_iff, is_some,
  if◌then◌else◌, ℤ, pos, GoMap, lookup, insert, erase, lookup-insert, lookup-erase, Option-cases,
  Bool-cases, inl, inr, Float64, Crypto, arith,
}
use hybridblockchain.Tx.{
  Transaction, TransactionInput, TransactionOutput, Utxo, utxo_key, is_system_tx,
}
use hybridblockchain.Storage.{Storage, returns}
use hybridblockchain.Utxo.{UtxoPool, mark_spent, mark_inputs, new_utxo, add_outputs, apply_tx}
use hybridblockchain.Utxo.Sets.{remove_inputs, set_utxo, set_outputs, update_utxo_set}
use hybridblockchain.Utxo.Calls.{refresh, add_utxo}
use hybridblockchain.Utxo.Total.{add_utxo-Returns, add_utxo-SameContents}

module _ {F : Type 0} where
  -- An output without the height and the time, which UpdateUTXOSet does not record.
  abbrev pub core : Utxo F → Utxo F
  core u = record u { block_height = 0; timestamp = pos 0 }

  abbrev pub unspent_view : Option (Utxo F) → Option (Utxo F)
  unspent_view none = none
  unspent_view (some u) = if u.spent then none else some (core u)

  abbrev pub set_view : Option (Utxo F) → Option (Utxo F)
  set_view none = none
  set_view (some u) = some (core u)

  -- The unspent outputs of the pool's map are the entries of the set.
  abbrev pub Agrees : GoMap (Utxo F) → GoMap (Utxo F) → Type 0
  Agrees utxos set = (k : Text) → unspent_view (lookup k utxos) ≡ set_view (lookup k set)

module _ {F D : Type 0} where
  unspent_view-mark_spent :
      (k j : Text) (pool : UtxoPool F D)
      → unspent_view (lookup j (mark_spent k pool).utxos)
        ≡ (if text_eq k j then none else unspent_view (lookup j pool.utxos))
  unfolding mark_spent
  unspent_view-mark_spent k j pool = elim (Option-cases (lookup k pool.utxos)) [
    | inl e ↦ ground (arith, text_eq_iff k j)
    | inr (u, e) ↦
        ground (arith, lookup-insert k j (record u { spent = true }) pool.utxos, text_eq_iff k j)
  ]

  mark_inputs-Agrees :
      (is : List TransactionInput) (pool : UtxoPool F D) (set : GoMap (Utxo F))
      → Agrees pool.utxos set
      → Agrees (mark_inputs is pool).utxos (remove_inputs is set)
  unfolding mark_inputs remove_inputs
  mark_inputs-Agrees [] pool set h = h
  mark_inputs-Agrees (i ∷ is) pool set h =
      let k = utxo_key i.transaction_id i.output_index in
      mark_inputs-Agrees is (mark_spent k pool) (erase k set)
        λ j. ground (arith, unspent_view-mark_spent k j pool, lookup-erase k j set, h j)

  add_outputs-Agrees :
      (tx : Transaction F) (height i : ℕ) (os : List (TransactionOutput F)) (pool : UtxoPool F D)
      (set : GoMap (Utxo F))
      → Agrees pool.utxos set
      → Agrees (add_outputs tx height i os pool).utxos (set_outputs tx i os set)
  unfolding add_outputs set_outputs
  add_outputs-Agrees tx height i [] pool set h = h
  add_outputs-Agrees tx height i (o ∷ os) pool set h =
      let k = utxo_key tx.transaction_id (pos i) in
      add_outputs-Agrees tx height (suc i) os
        (record pool {
          utxos = insert k (new_utxo tx height i o) pool.utxos;
          updates = insert k (new_utxo tx height i o) pool.updates;
        })
        (insert k (set_utxo tx i o) set)
        λ j. ground (
          arith,
          lookup-insert k j (new_utxo tx height i o) pool.utxos,
          lookup-insert k j (set_utxo tx i o) set,
          h j,
        )

  apply_tx-Agrees :
      (height : ℕ) (tx : Transaction F) (pool : UtxoPool F D) (set : GoMap (Utxo F))
      → Agrees pool.utxos set
      → Agrees (apply_tx height tx pool).utxos (update_utxo_set tx set)
  unfolding apply_tx update_utxo_set
  apply_tx-Agrees height tx pool set h = elim (Bool-cases (is_system_tx tx)) [
    | inl e ↦ rw e (add_outputs-Agrees tx height 0 tx.outputs pool set h)
    | inr e ↦ rw e (
        add_outputs-Agrees tx height 0 tx.outputs (mark_inputs tx.inputs pool)
          (remove_inputs tx.inputs set) (mark_inputs-Agrees tx.inputs pool set h))
  ]

module _ {F D : Type 0} ⦃fl : Float64 F⦄ (crypto : Crypto F) (st : Storage F D) where
  -- If a pool with a database and a set agree on the unspent outputs, AddUTXO returns, and the pool
  -- that it returns agrees with the set that UpdateUTXOSet makes of the same transaction.
  pub add_utxo-Agrees :
      (now : ℤ) (height : ℕ) (tx : Transaction F) (pool : UtxoPool F D) (set : GoMap (Utxo F))
      → is_some pool.db ≡ true
      → Agrees pool.utxos set
      → (pool' : UtxoPool F D) × (add_utxo crypto st now height tx pool ≡ returns pool')
        × Agrees pool'.utxos (update_utxo_set tx set)
  unfolding refresh
  add_utxo-Agrees now height tx pool set d h =
      let (pool', e, _) = add_utxo-Returns crypto st now height tx pool d in
      (
        pool',
        e,
        λ k.
            rw (add_utxo-SameContents crypto st now height tx pool pool' e).utxos
              (apply_tx-Agrees height tx pool set h k),
      )
