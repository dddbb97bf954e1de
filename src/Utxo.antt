-- ===== src/Utxo.antt =====
-- UTXOPool of blockchain/utxo.go. `now` is time.Now().Unix(). Of the node the pool reads the account
-- manager alone: the field `node` is that manager, none where the node or its manager is nil. Its
-- database is the pool's, where the pool has one. A nil map reads as an empty one, and the code makes
-- one before it writes. Each mutex guards a whole call.
pub mod Sets
pub mod Calls
pub mod Keys
pub mod Owners
pub mod Keyed
pub mod Saved
pub mod Total
pub mod Refinement
pub mod Outputs
pub mod Delta
pub mod Snapshots
pub mod Block
pub mod Spent
use hybridblockchain.Common.{
  ℕ, zero, suc, ◌+◌, ◌%◌, ◌-◌, ◌*◌, ◌<◌, Bool, true, false, not, ◌&&◌, Option, none, some, List, [],
  ◌∷◌, ◌++◌, Text, codes, text_eq, hex_encode, decimal, int_text, length, map, ltb, ◌==◌,
  if◌then◌else◌, filter_by, sort_stable, is_some, ℤ, pos, GoMap, lookup, insert, erase, Float64,
  float, Crypto,
}
use hybridblockchain.Tx.{
  Transaction, TransactionInput, TransactionOutput, Utxo, utxo_key, is_system_tx,
}
use hybridblockchain.Accounts.{AccountManager}
use hybridblockchain.Merkle.{merkle_loop}
use hybridblockchain.Storage.{Storage, UtxoSnapshot, Call, returns, panics}

pub record UtxoPool (F D : Type 0) : Type 0 where
  pub utxos : GoMap (Utxo F)
  pub merkle_root : Text
  pub last_verified_state : Text
  pub last_update_time : ℤ
  pub updates : GoMap (Utxo F)
  pub deletions : List Text
  pub db : Option D
  pub node : Option (AccountManager F D)
  pub snapshots : List (ℕ × GoMap (Utxo F))

-- `DeltaUpdate` of types.go.
pub record DeltaUpdate (F : Type 0) : Type 0 where
  pub last_sync_time : ℤ
  pub utxo_updates : GoMap (Utxo F)
  pub utxo_deletions : List Text
  pub state_root : Text
  pub update_timestamp : ℤ

-- The byte order of Go strings.
unfoldable pub text_less : Text → Text → Bool
text_less [] [] = false
text_less [] (y ∷ ys) = true
text_less (x ∷ xs) [] = false
text_less (x ∷ xs) (y ∷ ys) = if x == y then text_less xs ys else ltb x y

abbrev pub keys : {F : Type 0} → GoMap (Utxo F) → List Text
keys m = map (λ e. e.0) m

abbrev root_or_empty : Option Text → Text
root_or_empty none = []
root_or_empty (some root) = root

module _ {F : Type 0} ⦃fl : Float64 F⦄ (crypto : Crypto F) where
  -- UTXO.Hash
  unfoldable pub utxo_hash : Utxo F → Text
  utxo_hash u = hex_encode (
      crypto.sha256 (
        u.transaction_id
        ++ (45 ∷ int_text u.output_index ++ (45 ∷ u.owner ++ 45 ∷ crypto.format_f8 u.amount))))

  -- `pool.utxos[key]`, the zero value where the key is missing
  abbrev pub utxo_or_zero : Option (Utxo F) → Utxo F
  utxo_or_zero (some u) = u
  utxo_or_zero none = record {
    transaction_id = [];
    output_index = pos 0;
    amount = float 0;
    owner = [];
    spent = false;
    block_height = 0;
    timestamp = pos 0;
    script_pub_key = [];
  }

  -- CalculateMerkleRoot of a map of outputs
  unfoldable pub calculate_merkle_root : GoMap (Utxo F) → Text
  unfolding utxo_hash
  calculate_merkle_root [] = []
  calculate_merkle_root (e ∷ m) =
      let sorted = sort_stable text_less (keys (e ∷ m)) in
      let hashes = map (λ k. utxo_hash (utxo_or_zero (lookup k (e ∷ m)))) sorted in
      root_or_empty (merkle_loop crypto (length hashes) hashes)

module _ {F : Type 0} where
  -- The output that a round of the loop over tx.Outputs creates.
  unfoldable pub new_utxo : Transaction F → ℕ → ℕ → TransactionOutput F → Utxo F
  new_utxo tx height i o = record {
    transaction_id = tx.transaction_id;
    output_index = pos i;
    amount = o.amount;
    owner = o.receiver;
    spent = false;
    block_height = height;
    timestamp = tx.timestamp;
    script_pub_key = o.script_pub_key;
  }

module _ {F D : Type 0} where
  -- One round of the loop over tx.Inputs: an output that exists is marked as spent.
  unfoldable pub mark_spent : Text → UtxoPool F D → UtxoPool F D
  mark_spent key pool = elim (lookup key pool.utxos) [
    | none ↦ pool
    | some u ↦ record pool {
      utxos = insert key (record u { spent = true }) pool.utxos;
      updates = insert key (record u { spent = true }) pool.updates;
    }
  ]

  unfoldable pub mark_inputs : List TransactionInput → UtxoPool F D → UtxoPool F D
  unfolding mark_spent
  mark_inputs [] pool = pool
  mark_inputs (i ∷ is) pool =
      mark_inputs is (mark_spent (utxo_key i.transaction_id i.output_index) pool)

  -- The loop over tx.Outputs, from index `i` on.
  unfoldable pub add_outputs :
      Transaction F → ℕ → ℕ → List (TransactionOutput F) → UtxoPool F D → UtxoPool F D
  unfolding new_utxo
  add_outputs tx height i [] pool = pool
  add_outputs tx height i (o ∷ os) pool =
      let key = utxo_key tx.transaction_id (pos i) in
      add_outputs tx height (suc i) os (record pool {
        utxos = insert key (new_utxo tx height i o) pool.utxos;
        updates = insert key (new_utxo tx height i o) pool.updates;
      })

  -- What AddUTXO does to the maps.
  unfoldable pub apply_tx : ℕ → Transaction F → UtxoPool F D → UtxoPool F D
  unfolding mark_inputs add_outputs
  apply_tx height tx pool =
      add_outputs tx height 0 tx.outputs
        (if is_system_tx tx then pool else mark_inputs tx.inputs pool)

  module _ (st : Storage F D) where
    -- saveState: it panics at a nil database; its error leaves the database as it was.
    unfoldable pub save_state : UtxoPool F D → Call (UtxoPool F D)
    save_state pool = elim pool.db [
      | none ↦ elim (st.marshal_utxos pool.utxos) [ none ↦ returns pool | some _ ↦ panics ]
      | some d ↦ elim (st.marshal_utxos pool.utxos) [
        | none ↦ returns pool
        | some state ↦ elim (st.put (codes "utxo_state") state d) [
          | none ↦ returns pool
          | some d' ↦ returns (record pool { db = some d' })
        ]
      ]
    ]
