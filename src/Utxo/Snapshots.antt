-- ===== src/Utxo/Snapshots.antt =====
-- CreateSnapshot and LoadSnapshotAtHeight.
use hybridblockchain.Common.{
  ℕ, ◌≡◌, refl, none, [], ◌∷◌, Text, ℤ, GoMap, Float64, float, Crypto, Bool-cases, Option-cases,
  inl, inr, arith,
}
use hybridblockchain.Tx.{Utxo}
use hybridblockchain.Storage.{Storage, StorageLaws, UtxoSnapshot}
use hybridblockchain.Utxo.{UtxoPool}
use hybridblockchain.Utxo.Sets.{snapshot_key, unspent_only, balance_from, get_balance}
use hybridblockchain.Utxo.Calls.{create_snapshot, load_snapshot_at_height}

module _ {F : Type 0} ⦃fl : Float64 F⦄ where
  balance_from-unspent_only :
      (address : Text) (b : F) (m : GoMap (Utxo F))
      → balance_from address b (unspent_only m) ≡ balance_from address b m
  unfolding balance_from unspent_only
  balance_from-unspent_only address b [] = refl
  balance_from-unspent_only address b ((k, u) ∷ m) = elim (Bool-cases u.spent) [
    | inl e ↦ ground (arith, balance_from-unspent_only address b m)
    | inr e ↦ ground (
      arith,
      balance_from-unspent_only address b m,
      balance_from-unspent_only address (fl.add b u.amount) m,
    )
  ]

  -- The outputs that a snapshot keeps give every address the balance that all outputs give it.
  pub get_balance-unspent_only :
      (address : Text) (m : GoMap (Utxo F))
      → get_balance address (unspent_only m) ≡ get_balance address m
  unfolding get_balance
  get_balance-unspent_only address m = balance_from-unspent_only address (float 0) m

module _ {F D : Type 0} ⦃fl : Float64 F⦄ (crypto : Crypto F) (st : Storage F D) where
  abbrev taken : ℤ → ℕ → Text → UtxoPool F D → UtxoSnapshot F
  taken now height hash pool = record {
    block_height = height;
    block_hash = hash;
    utxos = unspent_only pool.utxos;
    merkle_root = pool.merkle_root;
    timestamp = now;
  }

  -- With a database that gives back what is put, and JSON that reads back what it wrote: where
  -- CreateSnapshot at a height has succeeded, LoadSnapshotAtHeight at that height gives any pool on the resulting database
  -- the unspent outputs, the Merkle root and the time of the snapshot, and changes nothing else.
  pub load_snapshot-create_snapshot :
      StorageLaws st
      → (now : ℤ) (height : ℕ) (hash : Text) (pool saved later : UtxoPool F D)
      → create_snapshot crypto st now height hash pool ≡ (saved, none)
      → later.db ≡ saved.db
      → load_snapshot_at_height crypto st height later ≡ (
        record later {
          utxos = unspent_only pool.utxos;
          merkle_root = pool.merkle_root;
          last_update_time = now;
        },
        none,
      )
  unfolding create_snapshot load_snapshot_at_height
  load_snapshot-create_snapshot laws now height hash pool saved later h same =
      elim (Option-cases pool.db) [
        | inl e ↦ ground arith
        | inr (d, e) ↦ elim (Option-cases (st.marshal_snapshot (taken now height hash pool))) [
          | inl f ↦ ground arith
          | inr (text, f) ↦ elim (Option-cases (st.put (snapshot_key height) text d)) [
            | inl g ↦ ground arith
            | inr (d', g) ↦ ground (
              arith,
              laws.get-put (snapshot_key height) text d d' g,
              laws.unmarshal-marshal (taken now height hash pool) text f,
            )
          ]
        ]
      ]
