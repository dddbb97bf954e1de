-- ===== src/Utxo/Spent.antt =====
-- What ValidateTransaction of blockchain/utxo.go makes of spent outputs.
use hybridblockchain.Common.{
  ◌≡◌, ◌∙◌, refl, true, false, Option, none, some, List, [], ◌∷◌, Text, text_eq_iff, GoMap, lookup,
  lookup-insert, Float64, float, Option-cases, inl, inr, arith,
}
use hybridblockchain.Tx.{Transaction, TransactionInput, Utxo, utxo_key}
use hybridblockchain.Utxo.{UtxoPool, mark_spent, mark_inputs}
use hybridblockchain.Utxo.Sets.{total_input, validate_transaction}

module _ {F : Type 0} where
  -- An entry without its spent mark.
  abbrev unmarked : Option (Utxo F) → Option (Utxo F)
  unmarked none = none
  unmarked (some u) = some (record u { spent = false })

  abbrev SameButSpent : GoMap (Utxo F) → GoMap (Utxo F) → Type 0
  SameButSpent m n = (k : Text) → unmarked (lookup k m) ≡ unmarked (lookup k n)

  module _ {D : Type 0} where
    mark_spent-SameButSpent :
        (k : Text) (pool : UtxoPool F D) → SameButSpent (mark_spent k pool).utxos pool.utxos
    unfolding mark_spent
    mark_spent-SameButSpent k pool j = elim (Option-cases (lookup k pool.utxos)) [
      | inl e ↦ ground arith
      | inr (u, e) ↦
          ground (arith, lookup-insert k j (record u { spent = true }) pool.utxos, text_eq_iff k j)
    ]

    mark_inputs-SameButSpent :
        (is : List TransactionInput) (pool : UtxoPool F D)
        → SameButSpent (mark_inputs is pool).utxos pool.utxos
    unfolding mark_inputs
    mark_inputs-SameButSpent [] pool j = refl
    mark_inputs-SameButSpent (i ∷ is) pool j =
        let k = utxo_key i.transaction_id i.output_index in
        mark_inputs-SameButSpent is (mark_spent k pool) j ∙ mark_spent-SameButSpent k pool j

  module _ ⦃fl : Float64 F⦄ where
    total_input-SameButSpent :
        (sender : Text) (total : F) (is : List TransactionInput) (m n : GoMap (Utxo F))
        → SameButSpent m n
        → total_input sender total is m ≡ total_input sender total is n
    unfolding total_input
    total_input-SameButSpent sender total [] m n h = refl
    total_input-SameButSpent sender total (i ∷ is) m n h =
        let key = utxo_key i.transaction_id i.output_index in
        elim (Option-cases (lookup key m)) [
          | inl e ↦ elim (Option-cases (lookup key n)) [
            | inl f ↦ ground arith
            | inr (v, f) ↦ ground (arith, h key)
          ]
          | inr (u, e) ↦ elim (Option-cases (lookup key n)) [
            | inl f ↦ ground (arith, h key)
            | inr (v, f) ↦
                ground
                  (arith, h key, total_input-SameButSpent sender (fl.add total u.amount) is m n h)
          ]
        ]

    -- ValidateTransaction gives the same answer after the transaction's own inputs (or any others)
    -- have been marked as spent: a second spending of them is accepted wherever the first was.
    pub validate_transaction-mark_inputs :
        {D : Type 0} (tx : Transaction F) (is : List TransactionInput) (pool : UtxoPool F D)
        → validate_transaction tx (mark_inputs is pool).utxos ≡ validate_transaction tx pool.utxos
    unfolding validate_transaction
    validate_transaction-mark_inputs tx is pool = rw (
      validate_transaction,
      total_input-SameButSpent tx.sender (float 0) tx.inputs _ _ (mark_inputs-SameButSpent is pool),
    )
