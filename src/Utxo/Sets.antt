-- ===== src/Utxo/Sets.antt =====
-- The functions of blockchain/utxo.go on maps of outputs, which the pool's methods call.
use hybridblockchain.Common.{
  ℕ, Bool, false, not, ◌&&◌, ◌||◌, Option, none, some, List, [], ◌∷◌, ◌++◌, Text, codes, suc,
  text_eq, decimal, if◌then◌else◌, leb, pos, GoMap, lookup, insert, erase, Float64, float,
}
use hybridblockchain.Tx.{
  Transaction, TransactionInput, TransactionOutput, Utxo, utxo_key, is_system_tx,
}

-- The errors of the calls below.
pub data PoolError : Type 0 where
  no_database storage_failed bad_snapshot invalid_utxo root_mismatch nil_block bad_state : PoolError

pub data Result {ℓ} (A : Type ℓ) : Type ℓ where
  ok : A → Result A
  err : PoolError → Result A

abbrev pub snapshot_key : ℕ → Text
snapshot_key height = codes "utxo_snapshot_" ++ decimal height

module _ {F : Type 0} where
  -- The outputs that CreateSnapshot keeps.
  unfoldable pub unspent_only : GoMap (Utxo F) → GoMap (Utxo F)
  unspent_only [] = []
  unspent_only ((k, u) ∷ m) = if u.spent then unspent_only m else (k, u) ∷ unspent_only m

  -- The loops that VerifyDeltaUpdate and ApplyDeltaUpdate run over a delta.
  unfoldable pub put_updates : GoMap (Utxo F) → GoMap (Utxo F) → GoMap (Utxo F)
  put_updates [] m = m
  put_updates ((k, u) ∷ us) m = put_updates us (insert k u m)

  unfoldable pub drop_keys : List Text → GoMap (Utxo F) → GoMap (Utxo F)
  drop_keys [] m = m
  drop_keys (k ∷ ks) m = drop_keys ks (erase k m)

  -- UpdateUTXOSet, on a plain map. An entry that it makes has height and time 0.
  unfoldable pub remove_inputs : List TransactionInput → GoMap (Utxo F) → GoMap (Utxo F)
  remove_inputs [] m = m
  remove_inputs (i ∷ is) m = remove_inputs is (erase (utxo_key i.transaction_id i.output_index) m)

  unfoldable pub set_utxo : Transaction F → ℕ → TransactionOutput F → Utxo F
  set_utxo tx i o = record {
    transaction_id = tx.transaction_id;
    output_index = pos i;
    amount = o.amount;
    owner = o.receiver;
    spent = false;
    block_height = 0;
    timestamp = pos 0;
    script_pub_key = o.script_pub_key;
  }

  unfoldable pub set_outputs :
      Transaction F → ℕ → List (TransactionOutput F) → GoMap (Utxo F) → GoMap (Utxo F)
  unfolding set_utxo
  set_outputs tx i [] m = m
  set_outputs tx i (o ∷ os) m =
      set_outputs tx (suc i) os (insert (utxo_key tx.transaction_id (pos i)) (set_utxo tx i o) m)

  unfoldable pub update_utxo_set : Transaction F → GoMap (Utxo F) → GoMap (Utxo F)
  unfolding remove_inputs set_outputs
  update_utxo_set tx m =
      set_outputs tx 0 tx.outputs (if is_system_tx tx then m else remove_inputs tx.inputs m)

  -- GetUTXOsForAddress
  unfoldable pub utxos_for_address : Text → GoMap (Utxo F) → List (Utxo F)
  utxos_for_address address [] = []
  utxos_for_address address ((k, u) ∷ m) =
      if text_eq u.owner address
      then u ∷ utxos_for_address address m
      else utxos_for_address address m

  -- The loop of restoreSnapshot, on the snapshots newest first.
  unfoldable pub newest_up_to : ℕ → List (ℕ × GoMap (Utxo F)) → Option (GoMap (Utxo F))
  newest_up_to height [] = none
  newest_up_to height ((h, m) ∷ older) = if leb h height then some m else newest_up_to height older

module _ {F : Type 0} ⦃fl : Float64 F⦄ where
  -- verifyUTXO
  unfoldable pub verify_utxo : Utxo F → Bool
  verify_utxo u = not (text_eq u.transaction_id [] || fl.le u.amount (float 0))

  unfoldable pub verify_updates : GoMap (Utxo F) → GoMap (Utxo F) → Result (GoMap (Utxo F))
  unfolding verify_utxo
  verify_updates [] m = ok m
  verify_updates ((k, u) ∷ us) m =
      if verify_utxo u then verify_updates us (insert k u m) else err invalid_utxo

  -- GetBalance, in the order in which the run ranges over the map
  unfoldable pub balance_from : Text → F → GoMap (Utxo F) → F
  balance_from address balance [] = balance
  balance_from address balance ((k, u) ∷ m) =
      balance_from address
        (if text_eq u.owner address && not u.spent then fl.add balance u.amount else balance) m

  unfoldable pub get_balance : Text → GoMap (Utxo F) → F
  unfolding balance_from
  get_balance address m = balance_from address (float 0) m

  -- The loop of ValidateTransaction: `none` is the early `return false`.
  unfoldable pub total_input : Text → F → List TransactionInput → GoMap (Utxo F) → Option F
  total_input sender total [] m = some total
  total_input sender total (i ∷ is) m = elim (lookup (utxo_key i.transaction_id i.output_index) m) [
    | none ↦ none
    | some u ↦
        let rest = total_input sender (fl.add total u.amount) is m in
        if text_eq u.owner sender then rest else none
  ]

  unfoldable pub validate_transaction : Transaction F → GoMap (Utxo F) → Bool
  unfolding total_input
  validate_transaction tx m = elim (total_input tx.sender (float 0) tx.inputs m) [
    | none ↦ false
    | some total ↦ fl.le tx.amount total
  ]
