-- ===== src/Mempool/Ids.antt =====
-- AddTransaction of blockchain/mempool.go against its abstract view, a bag of transactions: what enters and
-- what leaves, and the IDs.
use mathlib.Core.List.{
  Perm, Mem, Nodup, Nodup-cons, eq-or-mem_of_mem-cons, not-mem-nil, mem-cons_of_mem,
}
use mathlib.Core.List.Perm
use mathlib.Core.Logic.Or
use mathlib.Core.HLevel.{⊥_prop}
use hybridblockchain.Common.{
  Bool, ◌≡◌, sym, Bool, true, false, ◌⊎◌, inl, inr, List, [], ◌∷◌, ◌++◌, map, length, leb, ◌<◌,
  Float64, Crypto, GoMap, Text, text_eq_iff, sort_stable, sort_stable-perm, length-sort_stable,
  Bool-cases, arith,
}
use hybridblockchain.Tx.{Transaction, Utxo}
use hybridblockchain.Storage.{Call, returns, panics}
use hybridblockchain.Mempool.{
  Mempool, has_id, validate_transaction, append_sorted, replace_lowest, add_transaction, drop_last,
  last_of, higher_fee,
}

module _ {F : Type 0} where
  abbrev pub ids : List (Transaction F) → List Text
  ids txs = map (λ t. t.transaction_id) txs

  pub has_id-Mem :
      (k : Text) (txs : List (Transaction F)) → has_id k txs ≡ false → ¬ Mem k (ids txs)
  unfolding has_id
  has_id-Mem k [] h p = not-mem-nil p
  has_id-Mem k (t ∷ ts) h p =
      Or.elim ⊥_prop (eq-or-mem_of_mem-cons p)
        (λ e. ground (arith, text_eq_iff t.transaction_id k, sym e))
        (λ q. has_id-Mem k ts (ground arith) q)

  drop_last-perm :
      (x : Transaction F) (xs : List (Transaction F))
      → Perm (x ∷ xs) (last_of x xs ∷ drop_last x xs)
  drop_last-perm x [] = Perm.refl (x ∷ [])
  drop_last-perm x (y ∷ ys) =
      Perm.trans (Perm.cons x (drop_last-perm y ys)) (Perm.swap (last_of y ys) x (drop_last y ys))

  pub append-perm :
      (tx : Transaction F) (xs : List (Transaction F)) → Perm (xs ++ tx ∷ []) (tx ∷ xs)
  append-perm tx [] = Perm.refl (tx ∷ [])
  append-perm tx (x ∷ xs) = Perm.trans (Perm.cons x (append-perm tx xs)) (Perm.swap tx x xs)

module _ {F : Type 0} ⦃fl : Float64 F⦄ where
  -- What AddTransaction does to the bag of transactions. Refused: nothing. Accepted: the new one
  -- enters, and either nothing leaves, or one of a lower fee does.
  abbrev pub Effect : Transaction F → Mempool F → Call (Mempool F × Bool) → Type 0
  Effect tx m panics = ¬ Unit
  Effect tx m (returns (m', false)) = Perm m'.transactions m.transactions
  Effect tx m (returns (m', true)) =
      (Perm m'.transactions (tx ∷ m.transactions))
      ⊎ ((z : Transaction F) × (rest : List (Transaction F)) × Perm m.transactions (z ∷ rest)
          × Perm m'.transactions (tx ∷ rest)
          × (fl.lt z.gas_fee tx.gas_fee ≡ true))

  append_sorted-perm :
      (tx : Transaction F) (xs : List (Transaction F)) → Perm (append_sorted tx xs) (tx ∷ xs)
  unfolding append_sorted
  append_sorted-perm tx xs =
      Perm.trans (sort_stable-perm higher_fee (xs ++ tx ∷ [])) (append-perm tx xs)

  append_sorted-Distinct :
      (tx : Transaction F) (xs : List (Transaction F))
      → ¬ Mem tx.transaction_id (ids xs)
      → Nodup (ids xs)
      → Nodup (ids (append_sorted tx xs))
  append_sorted-Distinct tx xs n d =
      Perm.nodup
        (Perm.symm (Perm.map (λ (t : Transaction F). t.transaction_id) (append_sorted-perm tx xs)))
        (Nodup-cons.1 (n, d))

  replace_lowest-Effect :
      (tx : Transaction F) (m : Mempool F) (xs : List (Transaction F))
      → 0 < length xs
      → Perm xs m.transactions
      → Effect tx m (replace_lowest tx m xs)
  unfolding replace_lowest
  replace_lowest-Effect tx m [] h p = omega arith
  replace_lowest-Effect tx m (x ∷ xs) h p =
      elim (Bool-cases (fl.lt (last_of x xs).gas_fee tx.gas_fee)) [
        | inl e ↦
            rw (replace_lowest, e)
              (inr (
                last_of x xs,
                drop_last x xs,
                Perm.trans (Perm.symm p) (drop_last-perm x xs),
                append_sorted-perm tx (drop_last x xs),
                e,
              ))
        | inr e ↦ rw (replace_lowest, e) p
      ]

  -- The IDs in the mempool that a call returns are distinct.
  abbrev pub Distinct : Call (Mempool F × Bool) → Type 0
  Distinct panics = ¬ Unit
  Distinct (returns (m, ok)) = Nodup (ids m.transactions)

  module _ (crypto : Crypto F) (keys : GoMap Text) where
    -- Where ValidateTransaction returns, a mempool of positive size takes AddTransaction without a
    -- panic, and its transactions change, up to their order, as `Effect` says.
    pub add_transaction-Effect :
        (tx : Transaction F) (utxos : GoMap (Utxo F)) (m : Mempool F) (valid : Bool)
        → validate_transaction crypto keys tx utxos ≡ returns valid
        → 0 < m.max_size
        → Effect tx m (add_transaction crypto keys tx utxos m)
    unfolding add_transaction
    add_transaction-Effect tx utxos m valid v h =
        elim (Bool-cases (has_id tx.transaction_id m.transactions)) [
          | inl e ↦ rw (add_transaction, e) (Perm.refl m.transactions)
          | inr e ↦ elim (Bool-cases valid) [
            | inr w ↦ rw (add_transaction, e, v, w) (Perm.refl m.transactions)
            | inl w ↦ elim (Bool-cases (leb m.max_size (length m.transactions))) [
              | inl f ↦
                  rw (add_transaction, e, v, w, f)
                    (replace_lowest-Effect tx m (sort_stable higher_fee m.transactions)
                      (ground (arith, f, length-sort_stable higher_fee m.transactions))
                      (sort_stable-perm higher_fee m.transactions))
              | inr f ↦
                  rw (add_transaction, e, v, w, f) (inl (append_sorted-perm tx m.transactions))
            ]
          ]
        ]

    replace_lowest-Distinct :
        (tx : Transaction F) (m : Mempool F) (xs : List (Transaction F))
        → 0 < length xs
        → Nodup (ids xs)
        → ¬ Mem tx.transaction_id (ids xs)
        → Distinct (replace_lowest tx m xs)
    unfolding replace_lowest
    replace_lowest-Distinct tx m [] h d n = omega arith
    replace_lowest-Distinct tx m (x ∷ xs) h d n =
        let p = Perm.map (λ (t : Transaction F). t.transaction_id) (drop_last-perm x xs) in
        elim (Bool-cases (fl.lt (last_of x xs).gas_fee tx.gas_fee)) [
          | inl e ↦
              rw (replace_lowest, e)
                (append_sorted-Distinct tx (drop_last x xs)
                  (λ q. n ((Perm.mem_iff p).1 (mem-cons_of_mem _ q)))
                  ((Nodup-cons.0 (Perm.nodup p d)).1))
          | inr e ↦ rw (replace_lowest, e) d
        ]

    -- Where ValidateTransaction returns and the mempool's size is positive, AddTransaction does not
    -- panic, and distinct IDs stay distinct.
    pub add_transaction-Distinct :
        (tx : Transaction F) (utxos : GoMap (Utxo F)) (m : Mempool F) (valid : Bool)
        → validate_transaction crypto keys tx utxos ≡ returns valid
        → 0 < m.max_size
        → Nodup (ids m.transactions)
        → Distinct (add_transaction crypto keys tx utxos m)
    unfolding add_transaction
    add_transaction-Distinct tx utxos m valid v h d =
        let sorted = sort_stable higher_fee m.transactions in
        let p =
          Perm.map (λ (t : Transaction F). t.transaction_id)
            (sort_stable-perm higher_fee m.transactions) in
        elim (Bool-cases (has_id tx.transaction_id m.transactions)) [
          | inl e ↦ rw (add_transaction, e) d
          | inr e ↦
              let n = has_id-Mem tx.transaction_id m.transactions e in
              elim (Bool-cases valid) [
                | inr w ↦ rw (add_transaction, e, v, w) d
                | inl w ↦ elim (Bool-cases (leb m.max_size (length m.transactions))) [
                  | inl f ↦
                      rw (add_transaction, e, v, w, f)
                        (replace_lowest-Distinct tx m sorted
                          (ground (arith, f, length-sort_stable higher_fee m.transactions))
                          (Perm.nodup (Perm.symm p) d) (λ q. n ((Perm.mem_iff p).0 q)))
                  | inr f ↦
                      rw (add_transaction, e, v, w, f)
                        (append_sorted-Distinct tx m.transactions n d)
                ]
              ]
        ]
