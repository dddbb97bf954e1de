-- ===== src/Storage.antt =====
-- What the UTXO pool uses of the key-value database (the interface `Database` of
-- blockchain/db/interface.go, over LevelDB) and of encoding/json, as a record that the definitions
-- take.
use hybridblockchain.Common.{ℕ, Text, Option, some, GoMap, ℤ, ◌≡◌, ◌≢◌}
pub use hybridblockchain.Common.{Call, returns, panics}
use hybridblockchain.Tx.{Utxo}
use hybridblockchain.Accounts.{AccountStore}

-- `UtxoSnapshot` of utxo.go.
pub record UtxoSnapshot (F : Type 0) : Type 0 where
  pub block_height : ℕ
  pub block_hash : Text
  pub utxos : GoMap (Utxo F)
  pub merkle_root : Text
  pub timestamp : ℤ

pub record Storage (F D : Type 0) : Type 0 where
  -- Database.Put and Get; `none` is an error, after which the database is as before.
  pub put : Text → Text → D → Option D
  pub get : Text → D → Option Text
  -- json.Marshal fails where an amount is NaN or infinite.
  pub marshal_utxos : GoMap (Utxo F) → Option Text
  pub unmarshal_utxos : Text → Option (GoMap (Utxo F))
  pub marshal_snapshot : UtxoSnapshot F → Option Text
  pub unmarshal_snapshot : Text → Option (UtxoSnapshot F)
  -- The same database and JSON, as the account manager uses them.
  pub accounts : AccountStore F D

-- Documented behaviour: what is put is got, under its own key alone, and JSON of a snapshot is read
-- back as the snapshot.
pub record StorageLaws {F D : Type 0} (st : Storage F D) : Type 0 where
  pub get-put : (k v : Text) (d e : D) → st.put k v d ≡ some e → st.get k e ≡ some v
  pub get-put_ne :
      (k j v : Text) (d e : D) → st.put k v d ≡ some e → k ≢ j → st.get j e ≡ st.get j d
  pub unmarshal-marshal :
      (s : UtxoSnapshot F) (t : Text)
      → st.marshal_snapshot s ≡ some t
      → st.unmarshal_snapshot t ≡ some s
