-- ===== src/Utxo/Calls.antt =====
-- The methods of UTXOPool, and UpdateUTXOSet, of blockchain/utxo.go.
use hybridblockchain.Common.{
  suc, pos, GoMap, insert, codes, ℕ, ◌%◌, ◌||◌, Option, none, some, List, [], ◌∷◌, ◌++◌, Text,
  text_eq, ◌==◌, if◌then◌else◌, ltb_ℤ, reverse, ℤ, erase, Float64, Crypto,
}
use hybridblockchain.Tx.{Transaction, TransactionOutput, utxo_key, is_system_tx}
use hybridblockchain.Utxo.Owners.{
  track_owner, with_accounts, update_accounts, update_block_accounts,
}
use hybridblockchain.Storage.{Storage, Call, returns, panics}
use hybridblockchain.Utxo.{
  UtxoPool, DeltaUpdate, calculate_merkle_root, apply_tx, save_state, new_utxo, mark_inputs,
}
use hybridblockchain.Utxo.Sets.{
  nil_block, bad_state, PoolError, no_database, storage_failed, bad_snapshot, root_mismatch, ok,
  err, snapshot_key, unspent_only, put_updates, drop_keys, verify_updates, newest_up_to,
}

module _ {F D : Type 0} where
  -- The loops of ProcessBlockTransactions: the pool, and ownerUTXOs.
  unfoldable pub block_outputs :
      Transaction F
      → ℕ
      → ℕ
      → List (TransactionOutput F)
      → UtxoPool F D × GoMap (List Text)
      → UtxoPool F D × GoMap (List Text)
  unfolding new_utxo track_owner
  block_outputs tx height i [] run = run
  block_outputs tx height i (o ∷ os) (pool, owners) =
      let key = utxo_key tx.transaction_id (pos i) in
      block_outputs tx height (suc i) os (
        record pool {
          utxos = insert key (new_utxo tx height i o) pool.utxos;
          updates = insert key (new_utxo tx height i o) pool.updates;
        },
        track_owner o.receiver key owners,
      )

  unfoldable pub block_tx :
      ℕ → Transaction F → UtxoPool F D × GoMap (List Text) → UtxoPool F D × GoMap (List Text)
  unfolding mark_inputs block_outputs
  block_tx height tx (pool, owners) =
      let spent = if is_system_tx tx then pool else mark_inputs tx.inputs pool in
      block_outputs tx height 0 tx.outputs (spent, owners)

  unfoldable pub apply_txs :
      ℕ → List (Transaction F) → UtxoPool F D × GoMap (List Text) → UtxoPool F D × GoMap (List Text)
  unfolding block_tx
  apply_txs height [] run = run
  apply_txs height (tx ∷ txs) run = apply_txs height txs (block_tx height tx run)

  -- restoreSnapshot: `none` is its error.
  unfoldable pub restore_snapshot : ℕ → UtxoPool F D → Option (UtxoPool F D)
  unfolding newest_up_to
  restore_snapshot height pool = elim (newest_up_to height (reverse pool.snapshots)) [
    | none ↦ none
    | some m ↦ some (record pool { utxos = m })
  ]

module _ {F D : Type 0} ⦃fl : Float64 F⦄ (crypto : Crypto F) (st : Storage F D) where
  -- The Merkle root and the time that end every change.
  unfoldable pub refresh : ℤ → UtxoPool F D → UtxoPool F D
  refresh now pool = record pool {
    merkle_root = calculate_merkle_root crypto pool.utxos;
    last_update_time = now;
  }

  -- AddUTXO
  unfoldable pub add_utxo : ℤ → ℕ → Transaction F → UtxoPool F D → Call (UtxoPool F D)
  unfolding refresh with_accounts update_accounts
  add_utxo now height tx pool =
      let ready = refresh now (apply_tx height tx pool) in
      save_state st (with_accounts (update_accounts st.accounts now tx ready.utxos) ready)

  -- RemoveUTXO
  unfoldable pub remove_utxo : ℤ → Text → ℤ → UtxoPool F D → Call (UtxoPool F D)
  unfolding refresh
  remove_utxo now txid index pool =
      let key = utxo_key txid index in
      save_state st (
        refresh now
          (record pool { utxos = erase key pool.utxos; deletions = pool.deletions ++ key ∷ [] }))

  -- CreateSnapshot and saveSnapshot
  unfoldable pub create_snapshot : ℤ → ℕ → Text → UtxoPool F D → UtxoPool F D × Option PoolError
  create_snapshot now height hash pool = elim pool.db [
    | none ↦ (pool, some no_database)
    | some d ↦
        elim (st.marshal_snapshot (record {
          block_height = height;
          block_hash = hash;
          utxos = unspent_only pool.utxos;
          merkle_root = pool.merkle_root;
          timestamp = now;
        })) [
          | none ↦ (pool, some bad_snapshot)
          | some text ↦ elim (st.put (snapshot_key height) text d) [
            | none ↦ (pool, some storage_failed)
            | some d' ↦ (record pool { db = some d' }, none)
          ]
        ]
  ]

  -- LoadSnapshotAtHeight
  unfoldable pub load_snapshot_at_height : ℕ → UtxoPool F D → UtxoPool F D × Option PoolError
  load_snapshot_at_height height pool = elim pool.db [
    | none ↦ (pool, some no_database)
    | some d ↦ elim (st.get (snapshot_key height) d) [
      | none ↦ (pool, some storage_failed)
      | some text ↦ elim (st.unmarshal_snapshot text) [
        | none ↦ (pool, some bad_snapshot)
        | some s ↦ (
          record pool {
            utxos = s.utxos;
            merkle_root = s.merkle_root;
            last_update_time = s.timestamp;
          },
          none,
        )
      ]
    ]
  ]

  -- The error that saveState returns.
  unfoldable pub save_error : UtxoPool F D → Option PoolError
  save_error pool = elim (st.marshal_utxos pool.utxos) [
    | none ↦ some bad_state
    | some state ↦ elim pool.db [
      | none ↦ none
      | some d ↦ elim (st.put (codes "utxo_state") state d) [
        | none ↦ some storage_failed
        | some d' ↦ none
      ]
    ]
  ]

  -- ProcessBlockTransactions: `none` stands for a nil block. The error of CreateSnapshot is ignored,
  -- that of saveState is returned.
  unfoldable pub process_block_transactions :
      ℤ
      → Option (ℕ × Text × List (Transaction F))
      → UtxoPool F D
      → Call (UtxoPool F D × Option PoolError)
  unfolding apply_txs refresh with_accounts update_block_accounts
  process_block_transactions now none pool = returns (pool, some nil_block)
  process_block_transactions now (some (height, hash, txs)) pool =
      let run = apply_txs height txs (pool, []) in
      let change = update_block_accounts st.accounts now txs run.1 run.0.utxos in
      let updated = refresh now (with_accounts change run.0) in
      let ended =
        if height % 100 == 0 || height == 0
        then (create_snapshot now height hash updated).0
        else updated in
      elim (save_state st ended) [
        | panics ↦ panics
        | returns saved ↦ returns (saved, save_error ended)
      ]

  -- VerifyDeltaUpdate
  unfoldable pub verify_delta_update : DeltaUpdate F → UtxoPool F D → Option PoolError
  unfolding verify_updates drop_keys
  verify_delta_update delta pool = elim (verify_updates delta.utxo_updates pool.utxos) [
    | err e ↦ some e
    | ok m ↦
        if text_eq (calculate_merkle_root crypto (drop_keys delta.utxo_deletions m))
          delta.state_root
        then none
        else some root_mismatch
  ]

  -- ApplyDeltaUpdate
  unfoldable pub apply_delta_update :
      DeltaUpdate F → UtxoPool F D → Call (UtxoPool F D × Option PoolError)
  unfolding verify_delta_update put_updates
  apply_delta_update delta pool = elim (verify_delta_update delta pool) [
    | some e ↦ returns (pool, some e)
    | none ↦
        let m = drop_keys delta.utxo_deletions (put_updates delta.utxo_updates pool.utxos) in
        elim (save_state st (record pool {
          utxos = m;
          last_update_time = delta.update_timestamp;
          merkle_root = calculate_merkle_root crypto m;
        })) [ panics ↦ panics | returns pool' ↦ returns (pool', none) ]
  ]

  -- GetDeltaUpdates
  unfoldable pub get_delta_updates : ℤ → ℤ → UtxoPool F D → DeltaUpdate F
  get_delta_updates now last_sync pool = record {
    last_sync_time = last_sync;
    utxo_updates = if ltb_ℤ last_sync pool.last_update_time then pool.updates else [];
    utxo_deletions = pool.deletions;
    state_root = calculate_merkle_root crypto pool.utxos;
    update_timestamp = now;
  }
