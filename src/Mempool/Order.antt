-- ===== src/Mempool/Order.antt =====
-- The order of the fees in the mempool of blockchain/mempool.go after AddTransaction.
use hybridblockchain.Common.{
  Bool, ◌≡◌, Bool, true, false, ◌⊎◌, inl, inr, List, [], ◌∷◌, ◌++◌, length, leb, ◌<◌, Float64,
  IeeeOrder, Crypto, GoMap, Text, All, All-append, sort_stable, All-sort_stable,
  sort_stable-IsSorted, IsSorted, Bool-cases, arith, length-sort_stable,
}
use hybridblockchain.Tx.{Transaction, Utxo}
use hybridblockchain.Storage.{Call, returns, panics}
use hybridblockchain.Mempool.{
  Mempool, has_id, validate_transaction, append_sorted, replace_lowest, add_transaction, drop_last,
  last_of, higher_fee,
}

All-drop_last :
    {F : Type 0} (P : Transaction F → Type 0) (x : Transaction F) (xs : List (Transaction F))
    → All P (x ∷ xs)
    → All P (drop_last x xs)
All-drop_last P x [] h = tt
All-drop_last P x (y ∷ ys) h = (h.0, All-drop_last P y ys h.1)

module _ {F : Type 0} ⦃fl : Float64 F⦄ (ieee : IeeeOrder fl) where
  higher_fee-asym : (a b : Transaction F) → higher_fee a b ≡ true → higher_fee b a ≡ false
  higher_fee-asym a b h = elim (Bool-cases (fl.lt a.gas_fee b.gas_fee)) [
    | inl e ↦
        ground (arith, ieee.lt_trans a.gas_fee b.gas_fee a.gas_fee e h, ieee.lt_irrefl a.gas_fee)
    | inr e ↦ e
  ]

  -- The fee is a number.
  abbrev pub HasFee : Transaction F → Type 0
  HasFee t = fl.is_nan t.gas_fee ≡ false

  higher_fee-cotrans :
      (a b c : Transaction F)
      → HasFee b
      → higher_fee a c ≡ true
      → (higher_fee a b ≡ true) ⊎ (higher_fee b c ≡ true)
  higher_fee-cotrans a b c n h = elim (ieee.lt_cotrans c.gas_fee b.gas_fee a.gas_fee n h) [
    | inl p ↦ inr p
    | inr p ↦ inl p
  ]

  higher_fee-IsSorted :
      (txs : List (Transaction F))
      → All HasFee txs
      → IsSorted higher_fee (sort_stable higher_fee txs)
  higher_fee-IsSorted txs h =
      sort_stable-IsSorted higher_fee HasFee higher_fee-asym higher_fee-cotrans txs h

  -- An accepted transaction leaves the mempool in the order of falling fees.
  abbrev pub ByFee : Call (Mempool F × Bool) → Type 0
  ByFee panics = ¬ Unit
  ByFee (returns (m, false)) = Unit
  ByFee (returns (m, true)) = IsSorted higher_fee m.transactions

  append_sorted-IsSorted :
      (tx : Transaction F) (txs : List (Transaction F))
      → HasFee tx
      → All HasFee txs
      → IsSorted higher_fee (append_sorted tx txs)
  unfolding append_sorted
  append_sorted-IsSorted tx txs f h =
      higher_fee-IsSorted (txs ++ tx ∷ []) (All-append HasFee txs (tx ∷ []) h (f, tt))

  replace_lowest-ByFee :
      (tx : Transaction F) (m : Mempool F) (xs : List (Transaction F))
      → 0 < length xs
      → HasFee tx
      → All HasFee xs
      → ByFee (replace_lowest tx m xs)
  unfolding replace_lowest
  replace_lowest-ByFee tx m [] n f h = omega arith
  replace_lowest-ByFee tx m (x ∷ xs) n f h =
      elim (Bool-cases (fl.lt (last_of x xs).gas_fee tx.gas_fee)) [
        | inl e ↦
            rw (replace_lowest, e)
              (append_sorted-IsSorted tx (drop_last x xs) f (All-drop_last HasFee x xs h))
        | inr e ↦ rw (replace_lowest, e) tt
      ]

  -- Where no fee is NaN and ValidateTransaction returns, a mempool of positive size takes
  -- AddTransaction without a panic, and if the transaction is accepted, no transaction stands behind
  -- one of a lower fee.
  pub add_transaction-ByFee :
      (crypto : Crypto F) (keys : GoMap Text) (tx : Transaction F) (utxos : GoMap (Utxo F))
      (m : Mempool F) (valid : Bool)
      → validate_transaction crypto keys tx utxos ≡ returns valid
      → 0 < m.max_size
      → HasFee tx
      → All HasFee m.transactions
      → ByFee (add_transaction crypto keys tx utxos m)
  unfolding add_transaction
  add_transaction-ByFee crypto keys tx utxos m valid v n f h =
      elim (Bool-cases (has_id tx.transaction_id m.transactions)) [
        | inl e ↦ rw (add_transaction, e) tt
        | inr e ↦ elim (Bool-cases valid) [
          | inr w ↦ rw (add_transaction, e, v, w) tt
          | inl w ↦ elim (Bool-cases (leb m.max_size (length m.transactions))) [
            | inl g ↦
                rw (add_transaction, e, v, w, g)
                  (replace_lowest-ByFee tx m (sort_stable higher_fee m.transactions)
                    (ground (arith, g, length-sort_stable higher_fee m.transactions)) f
                    (All-sort_stable higher_fee HasFee m.transactions h))
            | inr g ↦
                rw (add_transaction, e, v, w, g) (append_sorted-IsSorted tx m.transactions f h)
          ]
        ]
      ]
