-- ===== src/Utxo/Saved.antt =====
-- What saveState of blockchain/utxo.go changes.
use hybridblockchain.Common.{
  ◌≡◌, ◌∙◌, refl, some, is_some, true, Option-cases, ◌⊎◌, inl, inr, codes, arith,
}
use hybridblockchain.Storage.{Storage, Call, returns, panics}
use hybridblockchain.Accounts.{AccountManager}
use hybridblockchain.Utxo.Owners.{with_accounts}
use hybridblockchain.Utxo.{UtxoPool, save_state}

pub Call-cases : {A : Type 0} (c : Call A) → ((a : A) × (c ≡ returns a)) ⊎ (c ≡ panics)
Call-cases (returns a) = inl (a, refl)
Call-cases panics = inr refl

module _ {F D : Type 0} where
  -- The same pool, but for its database.
  pub record SameContents (p q : UtxoPool F D) : Type 0 where
    pub utxos : q.utxos ≡ p.utxos
    pub merkle_root : q.merkle_root ≡ p.merkle_root
    pub last_update_time : q.last_update_time ≡ p.last_update_time
    pub updates : q.updates ≡ p.updates
    pub deletions : q.deletions ≡ p.deletions
    pub snapshots : q.snapshots ≡ p.snapshots
    pub has_db : is_some q.db ≡ is_some p.db

  -- The account updates change the node and what the database holds alone.
  pub with_accounts-SameContents :
      (change : AccountManager F D → AccountManager F D) (p : UtxoPool F D)
      → SameContents p (with_accounts change p)
  unfolding with_accounts
  with_accounts-SameContents change p = ground arith

  pub SameContents-trans :
      {p q r : UtxoPool F D} → SameContents p q → SameContents q r → SameContents p r
  SameContents-trans h k = record {
    utxos = k.utxos ∙ h.utxos;
    merkle_root = k.merkle_root ∙ h.merkle_root;
    last_update_time = k.last_update_time ∙ h.last_update_time;
    updates = k.updates ∙ h.updates;
    deletions = k.deletions ∙ h.deletions;
    snapshots = k.snapshots ∙ h.snapshots;
    has_db = k.has_db ∙ h.has_db;
  }

  module _ (st : Storage F D) where
    pub save_state-SameContents :
        (p q : UtxoPool F D) → save_state st p ≡ returns q → SameContents p q
    unfolding save_state
    save_state-SameContents p q h = ground arith

    pub save_state-returns :
        (p : UtxoPool F D)
        → is_some p.db ≡ true
        → (q : UtxoPool F D) × (save_state st p ≡ returns q)
    unfolding save_state
    save_state-returns p h = elim (Option-cases p.db) [
      | inl e ↦ cc
      | inr (d, e) ↦ elim (Option-cases (st.marshal_utxos p.utxos)) [
        | inl f ↦ (p, ground arith)
        | inr (text, f) ↦ elim (Option-cases (st.put (codes "utxo_state") text d)) [
          | inl g ↦ (p, ground arith)
          | inr (d', g) ↦ (record p { db = some d' }, ground arith)
        ]
      ]
    ]
