-- ===== src/Utxo/Owners.antt =====
-- The account updates of AddUTXO and ProcessBlockTransactions in blockchain/utxo.go. The accounts in
-- memory are shared pointers: a change through one is a change of the manager's entry, and the map
-- of updates holds the account as it is after its last change. GetAccountState returns no error and
-- no nil, so the branches for these never run. `now` is in seconds.
use hybridblockchain.Common.{
  ℕ, suc, ◌||◌, none, some, List, [], ◌∷◌, ◌++◌, Text, text_eq, if◌then◌else◌, ℤ, pos, GoMap,
  lookup, insert, erase, Float64, float,
}
use hybridblockchain.Tx.{
  Transaction, TransactionInput, TransactionOutput, Utxo, utxo_key, is_system_tx,
}
use hybridblockchain.Accounts.{
  AccountState, AccountManager, AccountStore, get_account_state, batch_update_accounts, at_second,
}
use hybridblockchain.Utxo.{UtxoPool}

-- `ownerUTXOs[owner] = append(ownerUTXOs[owner], utxoKey)`
unfoldable pub track_owner : Text → Text → GoMap (List Text) → GoMap (List Text)
track_owner owner key owners =
    let before : List Text = elim (lookup owner owners) [ none ↦ [] | some ks ↦ ks ] in
    insert owner (before ++ key ∷ []) owners

-- The loop that removes the inputs from an account.
unfoldable pub forget_inputs : List TransactionInput → GoMap Text → GoMap Text
forget_inputs [] m = m
forget_inputs (i ∷ is) m = forget_inputs is (erase (utxo_key i.transaction_id i.output_index) m)

module _ {F : Type 0} where
  -- What the loop over tx.Outputs collects in ownerUTXOs.
  unfoldable pub owners_of :
      Transaction F → ℕ → List (TransactionOutput F) → GoMap (List Text) → GoMap (List Text)
  unfolding track_owner
  owners_of tx i [] owners = owners
  owners_of tx i (o ∷ os) owners =
      owners_of tx (suc i) os (track_owner o.receiver (utxo_key tx.transaction_id (pos i)) owners)

  -- The loop that adds outputs to an account.
  unfoldable pub note_keys : List Text → GoMap (Utxo F) → GoMap Text → GoMap Text
  note_keys [] utxos m = m
  note_keys (k ∷ ks) utxos m =
      note_keys ks utxos (elim (lookup k utxos) [ none ↦ m | some u ↦ insert k u.transaction_id m ])

module _ {F : Type 0} ⦃fl : Float64 F⦄ where
  -- `totalReceived`, and the additions of ProcessBlockTransactions, from `sum` on.
  unfoldable pub total_received : F → List Text → GoMap (Utxo F) → F
  total_received sum [] utxos = sum
  total_received sum (k ∷ ks) utxos =
      total_received (elim (lookup k utxos) [ none ↦ sum | some u ↦ fl.add sum u.amount ]) ks utxos

module _ {F D : Type 0} ⦃fl : Float64 F⦄ (st : AccountStore F D) where
  -- The manager, and the accounts to write.
  abbrev pub Changes : Type 0
  Changes = AccountManager F D × GoMap (AccountState F)

  -- The sender's part, which both methods have: it is skipped for a system transaction and for one
  -- without a sender.
  unfoldable pub debit_sender : ℤ → Transaction F → Changes → Changes
  unfolding get_account_state forget_inputs
  debit_sender now tx (am, updates) =
      let got = get_account_state st tx.sender am in
      let s : AccountState F = record got.1 {
        utxos = forget_inputs tx.inputs got.1.utxos;
        balance = fl.sub got.1.balance (fl.add tx.amount tx.gas_fee);
        last_activity = now;
      } in
      if is_system_tx tx || text_eq tx.sender [] then (am, updates) else (
        record got.0 { accounts = insert tx.sender s got.0.accounts },
        insert tx.sender s updates,
      )

  -- AddUTXO: the loop over ownerUTXOs
  unfoldable pub credit_owners : ℤ → GoMap (Utxo F) → GoMap (List Text) → Changes → Changes
  unfolding get_account_state note_keys total_received
  credit_owners now utxos [] changes = changes
  credit_owners now utxos ((owner, ks) ∷ rest) (am, updates) =
      let got = get_account_state st owner am in
      let s : AccountState F = record got.1 {
        utxos = note_keys ks utxos got.1.utxos;
        balance = fl.add got.1.balance (total_received (float 0) ks utxos);
        last_activity = now;
      } in
      credit_owners now utxos rest
        (record got.0 { accounts = insert owner s got.0.accounts }, insert owner s updates)

  -- ProcessBlockTransactions: the loop over ownerUTXOs. An account of balance 0 is replaced by a new
  -- one, which the manager has only after the batch.
  unfoldable pub credit_block_owners : ℤ → GoMap (Utxo F) → GoMap (List Text) → Changes → Changes
  unfolding get_account_state note_keys total_received
  credit_block_owners now utxos [] changes = changes
  credit_block_owners now utxos ((owner, ks) ∷ rest) (am, updates) =
      let got = get_account_state st owner am in
      let fresh : AccountState F = record {
        address = owner;
        nonce = 0;
        balance = float 0;
        last_activity = now;
        utxos = [];
        pending_txs = [];
      } in
      let is_new = fl.eq got.1.balance (float 0) in
      let before : AccountState F = if is_new then fresh else got.1 in
      let s : AccountState F = record before {
        utxos = note_keys ks utxos before.utxos;
        balance = total_received before.balance ks utxos;
        last_activity = now;
      } in
      credit_block_owners now utxos rest (
        if is_new then got.0 else record got.0 { accounts = insert owner s got.0.accounts },
        insert owner s updates,
      )

  unfoldable pub debit_senders : ℤ → List (Transaction F) → Changes → Changes
  unfolding debit_sender
  debit_senders now [] changes = changes
  debit_senders now (tx ∷ txs) changes = debit_senders now txs (debit_sender now tx changes)

  -- The account updates of AddUTXO, and those of ProcessBlockTransactions: its sender's parts stand
  -- between changes of the outputs, which they do not read.
  unfoldable pub update_accounts :
      ℤ → Transaction F → GoMap (Utxo F) → AccountManager F D → AccountManager F D
  unfolding credit_owners owners_of debit_sender batch_update_accounts
  update_accounts now tx utxos am =
      let credited = credit_owners now utxos (owners_of tx 0 tx.outputs []) (am, []) in
      let changes = debit_sender now tx credited in
      (batch_update_accounts st (at_second now) changes.1 changes.0).0

  unfoldable pub update_block_accounts :
      ℤ
      → List (Transaction F)
      → GoMap (List Text)
      → GoMap (Utxo F)
      → AccountManager F D
      → AccountManager F D
  unfolding debit_senders credit_block_owners batch_update_accounts
  update_block_accounts now txs owners utxos am =
      let changes = credit_block_owners now utxos owners (debit_senders now txs (am, [])) in
      elim changes.1 [
        | [] ↦ changes.0
        | e ∷ es ↦ (batch_update_accounts st (at_second now) (e ∷ es) changes.0).0
      ]

module _ {F D : Type 0} where
  -- `pool.node != nil && pool.node.accountManager != nil`: the change of the manager. Its database is
  -- the pool's, where the pool has one.
  unfoldable pub with_accounts :
      (AccountManager F D → AccountManager F D) → UtxoPool F D → UtxoPool F D
  with_accounts change pool = elim pool.node [
    | none ↦ pool
    | some am ↦
        let shared : D = elim pool.db [ none ↦ am.db | some d ↦ d ] in
        let am' = change (record am { db = shared }) in
        record pool { node = some am'; db = elim pool.db [ none ↦ none | some _ ↦ some am'.db ] }
  ]
