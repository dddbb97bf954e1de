-- ===== src/Utxo/Delta.antt =====
-- ApplyDeltaUpdate of blockchain/utxo.go.
use hybridblockchain.Common.{
  is_some, ◌≡◌, refl, true, Option, none, some, [], ◌∷◌, text_eq_iff, GoMap, insert, Float64,
  Crypto, Option-cases, ◌⊎◌, inl, inr, arith,
}
use hybridblockchain.Tx.{Utxo}
use hybridblockchain.Storage.{Storage, returns}
use hybridblockchain.Utxo.{UtxoPool, DeltaUpdate, calculate_merkle_root}
use hybridblockchain.Utxo.Sets.{PoolError, Result, ok, err, put_updates, drop_keys, verify_updates}
use hybridblockchain.Utxo.Calls.{verify_delta_update, apply_delta_update}
use hybridblockchain.Utxo.Saved.{save_state-SameContents, save_state-returns}

Result-cases :
    {A : Type 0} (r : Result A) → ((a : A) × (r ≡ ok a)) ⊎ ((e : PoolError) × (r ≡ err e))
Result-cases (ok a) = inl (a, refl)
Result-cases (err e) = inr (e, refl)

module _ {F : Type 0} ⦃fl : Float64 F⦄ where
  verify_updates-put_updates :
      (us m m' : GoMap (Utxo F)) → verify_updates us m ≡ ok m' → m' ≡ put_updates us m
  unfolding verify_updates put_updates
  verify_updates-put_updates [] m m' h = ground arith
  verify_updates-put_updates ((k, u) ∷ us) m m' h =
      ground (arith, verify_updates-put_updates us (insert k u m) m')

module _ {F D : Type 0} ⦃fl : Float64 F⦄ (crypto : Crypto F) (st : Storage F D) where
  -- The map that a delta makes of another.
  abbrev pub patched : DeltaUpdate F → GoMap (Utxo F) → GoMap (Utxo F)
  patched delta m = drop_keys delta.utxo_deletions (put_updates delta.utxo_updates m)

  verified_root :
      (delta : DeltaUpdate F) (pool : UtxoPool F D)
      → verify_delta_update crypto st delta pool ≡ none
      → calculate_merkle_root crypto (patched delta pool.utxos) ≡ delta.state_root
  unfolding verify_delta_update
  verified_root delta pool h = elim (Result-cases (verify_updates delta.utxo_updates pool.utxos)) [
    | inl (m, e) ↦ ground (
      arith,
      verify_updates-put_updates delta.utxo_updates pool.utxos m e,
      text_eq_iff (calculate_merkle_root crypto (drop_keys delta.utxo_deletions m))
          delta.state_root,
    )
    | inr (x, e) ↦ ground arith
  ]

  -- What ApplyDeltaUpdate has done: with an error, nothing; with none, it has put the delta's updates
  -- and then removed its deletions, and the pool's Merkle root is the root of these outputs and the
  -- state root that the delta names.
  abbrev pub Applied : DeltaUpdate F → UtxoPool F D → UtxoPool F D × Option PoolError → Type 0
  Applied delta pool (pool', some e) = pool' ≡ pool
  Applied delta pool (pool', none) =
      (pool'.utxos ≡ patched delta pool.utxos)
      × (pool'.merkle_root ≡ calculate_merkle_root crypto pool'.utxos)
      × (pool'.merkle_root ≡ delta.state_root)

  -- On a pool with a database ApplyDeltaUpdate returns, and has taken the whole delta, whose state
  -- root then is the pool's Merkle root, or has left the pool as it was (`Applied`); it is without an
  -- error exactly where VerifyDeltaUpdate is.
  pub apply_delta_update-Applied :
      (delta : DeltaUpdate F) (pool : UtxoPool F D)
      → is_some pool.db ≡ true
      → (outcome : UtxoPool F D × Option PoolError) × (apply_delta_update crypto st delta pool
          ≡ returns outcome)
        × Applied delta pool outcome
        × (outcome.1 ≡ verify_delta_update crypto st delta pool)
  unfolding apply_delta_update
  apply_delta_update-Applied delta pool d =
      elim (Option-cases (verify_delta_update crypto st delta pool)) [
        | inr (x, e) ↦ ((pool, some x), ground arith, refl, ground arith)
        | inl e ↦
            let after = record pool {
              utxos = patched delta pool.utxos;
              last_update_time = delta.update_timestamp;
              merkle_root = calculate_merkle_root crypto (patched delta pool.utxos);
            } in
            let (q, f) = save_state-returns st after d in
            let same = save_state-SameContents st after q f in
            let root = verified_root delta pool e in
            (
              (q, none),
              ground arith,
              ground (arith, same.utxos, same.merkle_root, root),
              ground arith,
            )
      ]
