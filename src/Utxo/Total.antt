-- ===== src/Utxo/Total.antt =====
-- Whether AddUTXO of blockchain/utxo.go returns.
use hybridblockchain.Common.{
  ℕ, suc, ◌≡◌, refl, ◌∙◌, ap, true, is_some, List, [], ◌∷◌, if◌then◌else◌, GoMap, ℤ, Text, Float64,
  Crypto, arith,
}
use hybridblockchain.Tx.{Transaction, TransactionInput, TransactionOutput, utxo_key, is_system_tx}
use hybridblockchain.Storage.{Storage, Call, returns}
use hybridblockchain.Utxo.{UtxoPool, mark_spent, mark_inputs, add_outputs, apply_tx}
use hybridblockchain.Utxo.Owners.{with_accounts, update_accounts}
use hybridblockchain.Utxo.Calls.{refresh, add_utxo, apply_txs, block_tx, block_outputs}
use hybridblockchain.Utxo.Saved.{
  SameContents, SameContents-trans, with_accounts-SameContents, save_state-SameContents,
  save_state-returns,
}

module _ {F D : Type 0} where
  db-mark_spent : (k : Text) (pool : UtxoPool F D) → (mark_spent k pool).db ≡ pool.db
  unfolding mark_spent
  db-mark_spent k pool = ground arith

  db-mark_inputs :
      (is : List TransactionInput) (pool : UtxoPool F D) → (mark_inputs is pool).db ≡ pool.db
  unfolding mark_inputs
  db-mark_inputs [] pool = refl
  db-mark_inputs (i ∷ is) pool =
      let key = utxo_key i.transaction_id i.output_index in
      db-mark_inputs is (mark_spent key pool) ∙ db-mark_spent key pool

  db-add_outputs :
      (tx : Transaction F) (height i : ℕ) (os : List (TransactionOutput F)) (pool : UtxoPool F D)
      → (add_outputs tx height i os pool).db ≡ pool.db
  unfolding add_outputs
  db-add_outputs tx height i [] pool = refl
  db-add_outputs tx height i (o ∷ os) pool = db-add_outputs tx height (suc i) os _

  pub db-apply_tx :
      (height : ℕ) (tx : Transaction F) (pool : UtxoPool F D)
      → (apply_tx height tx pool).db ≡ pool.db
  unfolding apply_tx
  db-apply_tx height tx pool =
      db-add_outputs tx height 0 tx.outputs _ ∙ ground (arith, db-mark_inputs tx.inputs pool)

  block_outputs-add_outputs :
      (tx : Transaction F) (height i : ℕ) (os : List (TransactionOutput F)) (pool : UtxoPool F D)
      (owners : GoMap (List Text))
      → (block_outputs tx height i os (pool, owners)).0 ≡ add_outputs tx height i os pool
  unfolding block_outputs add_outputs
  block_outputs-add_outputs tx height i [] pool owners = refl
  block_outputs-add_outputs tx height i (o ∷ os) pool owners =
      block_outputs-add_outputs tx height (suc i) os _ _

  -- A round of the block's loop changes the pool as AddUTXO does.
  pub block_tx-apply_tx :
      (height : ℕ) (tx : Transaction F) (run : UtxoPool F D × GoMap (List Text))
      → (block_tx height tx run).0 ≡ apply_tx height tx run.0
  unfolding block_tx apply_tx
  block_tx-apply_tx height tx (pool, owners) =
      block_outputs-add_outputs tx height 0 tx.outputs
        (if is_system_tx tx then pool else mark_inputs tx.inputs pool) owners

  pub db-apply_txs :
      (height : ℕ) (txs : List (Transaction F)) (run : UtxoPool F D × GoMap (List Text))
      → (apply_txs height txs run).0.db ≡ run.0.db
  unfolding apply_txs
  db-apply_txs height [] run = refl
  db-apply_txs height (tx ∷ txs) run =
      db-apply_txs height txs (block_tx height tx run)
      ∙ ap (λ p. p.db) (block_tx-apply_tx height tx run)
      ∙ db-apply_tx height tx run.0

  module _ ⦃fl : Float64 F⦄ (crypto : Crypto F) (st : Storage F D) where
    -- The call returns a pool that still has a database.
    abbrev pub Returns : Call (UtxoPool F D) → Type 0
    Returns c = (pool : UtxoPool F D) × (c ≡ returns pool) × (is_some pool.db ≡ true)

    -- The pool that AddUTXO returns is the changed one, but for its node and database.
    pub add_utxo-SameContents :
        (now : ℤ) (height : ℕ) (tx : Transaction F) (pool pool' : UtxoPool F D)
        → add_utxo crypto st now height tx pool ≡ returns pool'
        → SameContents (refresh crypto st now (apply_tx height tx pool)) pool'
    unfolding add_utxo
    add_utxo-SameContents now height tx pool pool' h =
        let ready = refresh crypto st now (apply_tx height tx pool) in
        let change = update_accounts st.accounts now tx ready.utxos in
        SameContents-trans (with_accounts-SameContents change ready)
          (save_state-SameContents st (with_accounts change ready) pool' h)

    pub add_utxo-Returns :
        (now : ℤ) (height : ℕ) (tx : Transaction F) (pool : UtxoPool F D)
        → is_some pool.db ≡ true
        → Returns (add_utxo crypto st now height tx pool)
    unfolding add_utxo refresh
    add_utxo-Returns now height tx pool h =
        let ready = refresh crypto st now (apply_tx height tx pool) in
        let change = update_accounts st.accounts now tx ready.utxos in
        let changed = with_accounts change ready in
        let e =
          (with_accounts-SameContents change ready).has_db
          ∙ ap is_some (db-apply_tx height tx pool)
          ∙ h in
        let (q, f) = save_state-returns st changed e in
        (q, f, (save_state-SameContents st changed q f).has_db ∙ e)
