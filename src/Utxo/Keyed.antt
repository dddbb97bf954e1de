-- ===== src/Utxo/Keyed.antt =====
-- The keys of the UTXO pool of blockchain/utxo.go: fmt.Sprintf("%s-%d", transaction ID, index).
use mathlib.Core.Path.{subst}
use mathlib.Core.Option.{some-injective}
use hybridblockchain.Common.{
  ℕ, suc, ◌≡◌, refl, sym, ap, ◌∙◌, true, inl, inr, none, some, List, [], ◌∷◌, Text, text_eq,
  text_eq_iff, lookup, insert, lookup-insert, GoMap, All, Bool-cases, Option-cases, arith, ℤ, pos,
  is_some, Float64, Crypto,
}
use hybridblockchain.Tx.{
  Transaction, TransactionInput, TransactionOutput, Utxo, utxo_key, is_system_tx,
}
use hybridblockchain.Storage.{Storage, returns}
use hybridblockchain.Utxo.{UtxoPool, mark_spent, mark_inputs, add_outputs, apply_tx, new_utxo}
use hybridblockchain.Utxo.Calls.{add_utxo, refresh}
use hybridblockchain.Utxo.Total.{add_utxo-Returns, add_utxo-SameContents}

module _ {V : Type 0} where
  -- No key stands twice.
  abbrev pub Once : GoMap V → Type 0
  Once [] = Unit
  Once ((k, v) ∷ m) = (lookup k m ≡ none) × Once m

  insert-Once : (k : Text) (v : V) (m : GoMap V) → Once m → Once (insert k v m)
  unfolding insert lookup
  insert-Once k v [] h = (refl, tt)
  insert-Once k v ((j, w) ∷ m) h = elim (Bool-cases (text_eq j k)) [
    | inl e ↦ rw e (ap (λ t. lookup t m) (sym ((text_eq_iff j k).0 e)) ∙ h.0, h.1)
    | inr e ↦ rw e (
      ground (arith, lookup-insert k j v m, text_eq_iff j k, text_eq_iff k j, e, h.0),
      insert-Once k v m h.1,
    )
  ]

  module _ (P : Text × V → Type 0) where
    All-insert : (k : Text) (v : V) (m : GoMap V) → P (k, v) → All P m → All P (insert k v m)
    unfolding insert
    All-insert k v [] p h = (p, tt)
    All-insert k v ((j, w) ∷ m) p h = elim (Bool-cases (text_eq j k)) [
      | inl e ↦ rw e (p, h.1)
      | inr e ↦ rw e (h.0, All-insert k v m p h.1)
    ]

    All-lookup : (k : Text) (v : V) (m : GoMap V) → All P m → lookup k m ≡ some v → P (k, v)
    unfolding lookup
    All-lookup k v [] h e = ground (arith, e)
    All-lookup k v ((j, w) ∷ m) h e = elim (Bool-cases (text_eq j k)) [
      | inl f ↦
          subst P (λ i. ((text_eq_iff j k).0 f i, some-injective w v (ground (arith, e, f)) i)) h.0
      | inr f ↦ All-lookup k v m h.1 (ground (arith, e, f))
    ]

module _ {F : Type 0} where
  abbrev own_key : Utxo F → Text
  own_key u = utxo_key u.transaction_id u.output_index

  -- No key stands twice, and every output stands under its own transaction ID and index.
  abbrev pub IsKeyed : GoMap (Utxo F) → Type 0
  IsKeyed m = Once m × All (λ e. e.0 ≡ own_key e.1) m

  lookup-later :
      (k : Text) (u : Utxo F) (m es : GoMap (Utxo F))
      → lookup k m ≡ none
      → All (λ e. lookup (own_key e.1) m ≡ some e.1) es
      → All (λ e. lookup (own_key e.1) ((k, u) ∷ m) ≡ some e.1) es
  unfolding lookup
  lookup-later k u m [] h es = tt
  lookup-later k u m ((j, v) ∷ es) h found = (
    elim (Bool-cases (text_eq k (own_key v))) [
      | inl e ↦
          ground (arith, sym h ∙ (ap (λ t. lookup t m) ((text_eq_iff k (own_key v)).0 e) ∙ found.0))
      | inr e ↦ rw e found.0
    ],
    lookup-later k u m es h found.1,
  )

  -- In such a map every output is found under its own transaction ID and index.
  pub lookup-IsKeyed :
      (m : GoMap (Utxo F)) → IsKeyed m → All (λ e. lookup (own_key e.1) m ≡ some e.1) m
  unfolding lookup
  lookup-IsKeyed [] h = tt
  lookup-IsKeyed ((k, u) ∷ m) h = (
    rw ((text_eq_iff k (own_key u)).1 h.1.0) refl,
    lookup-later k u m m h.0.0 (lookup-IsKeyed m (h.0.1, h.1.1)),
  )

  insert-IsKeyed :
      (k : Text) (u : Utxo F) (m : GoMap (Utxo F))
      → k ≡ own_key u
      → IsKeyed m
      → IsKeyed (insert k u m)
  insert-IsKeyed k u m e h =
      (insert-Once k u m h.0, All-insert (λ e. e.0 ≡ own_key e.1) k u m e h.1)

  module _ {D : Type 0} where
    mark_spent-IsKeyed :
        (k : Text) (pool : UtxoPool F D) → IsKeyed pool.utxos → IsKeyed (mark_spent k pool).utxos
    unfolding mark_spent
    mark_spent-IsKeyed k pool h = elim (Option-cases (lookup k pool.utxos)) [
      | inl e ↦ rw (mark_spent, e) h
      | inr (u, e) ↦
          rw (mark_spent, e)
            (insert-IsKeyed k (record u { spent = true }) pool.utxos
              (All-lookup (λ e. e.0 ≡ own_key e.1) k u pool.utxos h.1 e) h)
    ]

    mark_inputs-IsKeyed :
        (is : List TransactionInput) (pool : UtxoPool F D)
        → IsKeyed pool.utxos
        → IsKeyed (mark_inputs is pool).utxos
    unfolding mark_inputs
    mark_inputs-IsKeyed [] pool h = h
    mark_inputs-IsKeyed (i ∷ is) pool h =
        let k = utxo_key i.transaction_id i.output_index in
        mark_inputs-IsKeyed is (mark_spent k pool) (mark_spent-IsKeyed k pool h)

    add_outputs-IsKeyed :
        (tx : Transaction F) (height i : ℕ) (os : List (TransactionOutput F)) (pool : UtxoPool F D)
        → IsKeyed pool.utxos
        → IsKeyed (add_outputs tx height i os pool).utxos
    unfolding add_outputs new_utxo
    add_outputs-IsKeyed tx height i [] pool h = h
    add_outputs-IsKeyed tx height i (o ∷ os) pool h =
        let k = utxo_key tx.transaction_id (pos i) in
        let u = new_utxo tx height i o in
        add_outputs-IsKeyed tx height (suc i) os
          (record pool { utxos = insert k u pool.utxos; updates = insert k u pool.updates })
          (insert-IsKeyed k u pool.utxos refl h)

    apply_tx-IsKeyed :
        (height : ℕ) (tx : Transaction F) (pool : UtxoPool F D)
        → IsKeyed pool.utxos
        → IsKeyed (apply_tx height tx pool).utxos
    unfolding apply_tx
    apply_tx-IsKeyed height tx pool h = elim (Bool-cases (is_system_tx tx)) [
      | inl e ↦ rw e (add_outputs-IsKeyed tx height 0 tx.outputs pool h)
      | inr e ↦ rw e (
          add_outputs-IsKeyed tx height 0 tx.outputs (mark_inputs tx.inputs pool)
            (mark_inputs-IsKeyed tx.inputs pool h))
    ]

module _ {F D : Type 0} ⦃fl : Float64 F⦄ (crypto : Crypto F) (st : Storage F D) where
  -- Where no key stands twice in a pool with a database, and every output stands under its own
  -- transaction ID and index, AddUTXO returns, and this holds of the pool that it returns.
  pub add_utxo-IsKeyed :
      (now : ℤ) (height : ℕ) (tx : Transaction F) (pool : UtxoPool F D)
      → is_some pool.db ≡ true
      → IsKeyed pool.utxos
      → (pool' : UtxoPool F D) × (add_utxo crypto st now height tx pool ≡ returns pool')
        × IsKeyed pool'.utxos
  unfolding refresh
  add_utxo-IsKeyed now height tx pool d h =
      let (pool', e, _) = add_utxo-Returns crypto st now height tx pool d in
      (
        pool',
        e,
        subst IsKeyed (sym (add_utxo-SameContents crypto st now height tx pool pool' e).utxos)
            (apply_tx-IsKeyed height tx pool h),
      )
