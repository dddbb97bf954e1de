-- ===== src/Utxo/Block.antt =====
-- ProcessBlockTransactions against the transactions of the block taken one by one by AddUTXO.
use mathlib.Core.Path.{subst}
use hybridblockchain.Common.{
  GoMap, Option, is_some, true, ℕ, suc, ◌≡◌, refl, sym, ◌∙◌, ap, true, some, List, [], ◌∷◌, map,
  Text, ◌%◌, ◌==◌, ◌||◌, if◌then◌else◌, ℤ, pos, lookup, insert, Float64, Crypto, Bool-cases,
  Option-cases, inl, inr, arith,
}
use hybridblockchain.Tx.{Transaction, TransactionInput, TransactionOutput, utxo_key, is_system_tx}
use hybridblockchain.Storage.{Storage, Call, returns, panics}
use hybridblockchain.Utxo.{
  UtxoPool, calculate_merkle_root, mark_spent, mark_inputs, new_utxo, add_outputs, apply_tx,
}
use hybridblockchain.Utxo.Sets.{PoolError}
use hybridblockchain.Utxo.Calls.{
  save_error, refresh, add_utxo, apply_txs, block_tx, create_snapshot, process_block_transactions,
}
use hybridblockchain.Utxo.Total.{
  Returns, add_utxo-Returns, add_utxo-SameContents, block_tx-apply_tx, db-apply_txs,
}
use hybridblockchain.Utxo.Saved.{
  save_state-returns, save_state-SameContents, with_accounts-SameContents, Call-cases,
}
use hybridblockchain.Utxo.Owners.{with_accounts, update_block_accounts}

module _ {F D : Type 0} where
  -- Two pools with the same outputs and the same tracked updates.
  abbrev pub SameMaps : UtxoPool F D → UtxoPool F D → Type 0
  SameMaps p q = (p.utxos ≡ q.utxos) × (p.updates ≡ q.updates)

  mark_spent-SameMaps :
      (k : Text) (p q : UtxoPool F D) → SameMaps p q → SameMaps (mark_spent k p) (mark_spent k q)
  unfolding mark_spent
  mark_spent-SameMaps k p q h = elim (Option-cases (lookup k p.utxos)) [
    | inl e ↦ ground arith
    | inr (u, e) ↦ ground arith
  ]

  mark_inputs-SameMaps :
      (is : List TransactionInput) (p q : UtxoPool F D)
      → SameMaps p q
      → SameMaps (mark_inputs is p) (mark_inputs is q)
  unfolding mark_inputs
  mark_inputs-SameMaps [] p q h = h
  mark_inputs-SameMaps (i ∷ is) p q h =
      mark_inputs-SameMaps is _ _
        (mark_spent-SameMaps (utxo_key i.transaction_id i.output_index) p q h)

  add_outputs-SameMaps :
      (tx : Transaction F) (height i : ℕ) (os : List (TransactionOutput F)) (p q : UtxoPool F D)
      → SameMaps p q
      → SameMaps (add_outputs tx height i os p) (add_outputs tx height i os q)
  unfolding add_outputs
  add_outputs-SameMaps tx height i [] p q h = h
  add_outputs-SameMaps tx height i (o ∷ os) p q h = add_outputs-SameMaps tx height (suc i) os _ _ (
    ap (insert (utxo_key tx.transaction_id (pos i)) (new_utxo tx height i o)) h.0,
    ap (insert (utxo_key tx.transaction_id (pos i)) (new_utxo tx height i o)) h.1,
  )

  apply_tx-SameMaps :
      (height : ℕ) (tx : Transaction F) (p q : UtxoPool F D)
      → SameMaps p q
      → SameMaps (apply_tx height tx p) (apply_tx height tx q)
  unfolding apply_tx
  apply_tx-SameMaps height tx p q h = elim (Bool-cases (is_system_tx tx)) [
    | inl e ↦ rw e (add_outputs-SameMaps tx height 0 tx.outputs p q h)
    | inr e ↦
        rw e
          (add_outputs-SameMaps tx height 0 tx.outputs _ _ (mark_inputs-SameMaps tx.inputs p q h))
  ]

module _ {F D : Type 0} ⦃fl : Float64 F⦄ (crypto : Crypto F) (st : Storage F D) where
  -- AddUTXO for each transaction in turn, at the times `now` that each call reads.
  abbrev pub add_each : ℕ → List (ℤ × Transaction F) → UtxoPool F D → Call (UtxoPool F D)
  add_each height [] pool = returns pool
  add_each height ((now, tx) ∷ txs) pool = elim (add_utxo crypto st now height tx pool) [
    | panics ↦ panics
    | returns pool' ↦ add_each height txs pool'
  ]

  add_utxo-SameMaps :
      (now : ℤ) (height : ℕ) (tx : Transaction F) (p q q' : UtxoPool F D)
      → SameMaps p q
      → add_utxo crypto st now height tx q ≡ returns q'
      → SameMaps (apply_tx height tx p) q'
  unfolding refresh
  add_utxo-SameMaps now height tx p q q' h f =
      let same = add_utxo-SameContents crypto st now height tx q q' f in
      let maps = apply_tx-SameMaps height tx p q h in
      (maps.0 ∙ sym same.utxos, maps.1 ∙ sym same.updates)

  apply_txs-SameMaps :
      (height : ℕ) (txs : List (ℤ × Transaction F)) (run : UtxoPool F D × GoMap (List Text))
      (q r : UtxoPool F D)
      → SameMaps run.0 q
      → add_each height txs q ≡ returns r
      → SameMaps (apply_txs height (map (λ t. t.1) txs) run).0 r
  unfolding apply_txs
  apply_txs-SameMaps height [] run q r h e = ground arith
  apply_txs-SameMaps height ((now, tx) ∷ txs) run q r h e =
      elim (Call-cases (add_utxo crypto st now height tx q)) [
        | inr f ↦ ground arith
        | inl (q', f) ↦
            apply_txs-SameMaps height txs (block_tx height tx run) q' r
              (subst (λ p. SameMaps p q') (sym (block_tx-apply_tx height tx run))
                (add_utxo-SameMaps now height tx run.0 q q' h f))
              (ground arith)
      ]

  create_snapshot-SameContents :
      (now : ℤ) (height : ℕ) (hash : Text) (pool : UtxoPool F D)
      → SameMaps (create_snapshot crypto st now height hash pool).0 pool
        × ((create_snapshot crypto st now height hash pool).0.merkle_root ≡ pool.merkle_root)
  unfolding create_snapshot
  create_snapshot-SameContents now height hash pool = ground arith

  ended_lem :
      (now : ℤ) (height : ℕ) (hash : Text) (pool : UtxoPool F D)
      → let ended =
          if height % 100 == 0 || height == 0
          then (create_snapshot crypto st now height hash pool).0
          else pool in
        SameMaps ended pool × (ended.merkle_root ≡ pool.merkle_root)
  ended_lem now height hash pool = ground (arith, create_snapshot-SameContents now height hash pool)

  add_each-Returns :
      (height : ℕ) (txs : List (ℤ × Transaction F)) (pool : UtxoPool F D)
      → is_some pool.db ≡ true
      → Returns crypto st (add_each height txs pool)
  add_each-Returns height [] pool d = (pool, refl, d)
  add_each-Returns height ((now, tx) ∷ txs) pool d =
      let (next, e, d') = add_utxo-Returns crypto st now height tx pool d in
      rw (add_each, e) (add_each-Returns height txs next d')

  create_snapshot-db :
      (now : ℤ) (height : ℕ) (hash : Text) (pool : UtxoPool F D)
      → is_some (create_snapshot crypto st now height hash pool).0.db ≡ is_some pool.db
  unfolding create_snapshot
  create_snapshot-db now height hash pool = ground arith

  -- A block's transactions processed by one ProcessBlockTransactions leave the outputs and tracked
  -- updates that AddUTXO leaves which is called for each in turn, whatever times the calls read, and
  -- the Merkle root of these outputs. With a database, all these calls return; the first may name an
  -- error of saving.
  pub process_block_transactions-add_each :
      (now : ℤ) (height : ℕ) (hash : Text) (txs : List (ℤ × Transaction F)) (pool : UtxoPool F D)
      → is_some pool.db ≡ true
      → (p : UtxoPool F D) × (error : Option PoolError) × (q : UtxoPool F D)
        × (process_block_transactions crypto st now (some (height, hash, map (λ t. t.1) txs)) pool
            ≡ returns (p, error))
        × (add_each height txs pool ≡ returns q)
        × SameMaps p q
        × (p.merkle_root ≡ calculate_merkle_root crypto q.utxos)
  unfolding process_block_transactions refresh
  process_block_transactions-add_each now height hash txs pool d =
      let run = apply_txs height (map (λ t. t.1) txs) (pool, []) in
      let change = update_block_accounts st.accounts now (map (λ t. t.1) txs) run.1 run.0.utxos in
      let changed = with_accounts-SameContents change run.0 in
      let updated = refresh crypto st now (with_accounts change run.0) in
      let ended =
        if height % 100 == 0 || height == 0
        then (create_snapshot crypto st now height hash updated).0
        else updated in
      let has_db : is_some ended.db ≡ true = ground (
        arith,
        create_snapshot-db now height hash updated,
        changed.has_db,
        db-apply_txs height (map (λ t. t.1) txs) (pool, []),
        d,
      ) in
      let (p, h) = save_state-returns st ended has_db in
      let (q, e, _) = add_each-Returns height txs pool d in
      let saved = save_state-SameContents st ended p h in
      let kept = ended_lem now height hash updated in
      let maps = apply_txs-SameMaps height txs (pool, []) pool q (refl, refl) e in
      (
        p,
        save_error crypto st ended,
        q,
        rw (process_block_transactions, h) refl,
        e,
        (
          saved.utxos ∙ kept.0.0 ∙ changed.utxos ∙ maps.0,
          saved.updates ∙ kept.0.1 ∙ changed.updates ∙ maps.1,
        ),
        saved.merkle_root ∙ kept.1 ∙ ap (calculate_merkle_root crypto) (changed.utxos ∙ maps.0),
      )
