-- ===== src/Payments/Selection.antt =====
-- What SelectUTXOs of blockchain/transaction.go has chosen, and the mempool's check of it.
use mathlib.Core.Path.{subst}
use mathlib.Core.List.{append-nil, append_assoc}
use hybridblockchain.Common.{
  IeeeOrder, returns, ◌≡◌, refl, sym, ap, ◌∙◌, true, false, ◌⊎◌, inl, inr, ◌++◌, none, some, List,
  [], ◌∷◌, map, Float64, float, Crypto, GoMap, Text, text_eq, text_eq_iff, lookup, All, Bool-cases,
  arith, sort_stable, All-sort_stable, length, ◌==◌,
}
use hybridblockchain.Tx.{
  Transaction, TransactionInput, TransactionOutput, is_coinbase, is_validator_reward, Utxo,
  utxo_key, is_system_tx, validate_gas, tx_verify_signature,
}
use hybridblockchain.Utxo.{UtxoPool}
use hybridblockchain.Utxo.Keyed.{IsKeyed, lookup-IsKeyed}
use hybridblockchain.Utxo.Sets.{utxos_for_address}
use hybridblockchain.Mempool.{validate_transaction, input_sum, total_required, is_stake}
use hybridblockchain.Mempool.Validation.{Spends, done, spend}
use hybridblockchain.Payments.{
  SelectError, no_utxos, insufficient_funds, add_input, select_utxos, select_from, add_inputs,
  add_change_output, total_needed, larger_amount,
}

module _ {F : Type 0} where
  -- An output of `sender` that the map holds.
  abbrev Owned : Text → GoMap (Utxo F) → Utxo F → Type 0
  Owned sender m u =
      (u.owner ≡ sender) × (lookup (utxo_key u.transaction_id u.output_index) m ≡ some u)

  abbrev input_of : Utxo F → TransactionInput
  input_of u = record {
    transaction_id = u.transaction_id;
    output_index = u.output_index;
    signature = [];
  }

  utxos_for_address-Owned :
      (sender : Text) (all m : GoMap (Utxo F))
      → All (λ e. lookup (utxo_key e.1.transaction_id e.1.output_index) all ≡ some e.1) m
      → All (Owned sender all) (utxos_for_address sender m)
  unfolding utxos_for_address
  utxos_for_address-Owned sender all [] h = tt
  utxos_for_address-Owned sender all ((k, u) ∷ m) h = elim (Bool-cases (text_eq u.owner sender)) [
    | inl e ↦
        rw e (((text_eq_iff u.owner sender).0 e, h.0), utxos_for_address-Owned sender all m h.1)
    | inr e ↦ rw e (utxos_for_address-Owned sender all m h.1)
  ]

  add_inputs-map :
      (us : List (Utxo F)) (tx : Transaction F)
      → add_inputs us tx ≡ record tx { inputs = tx.inputs ++ map input_of us }
  unfolding add_inputs
  add_inputs-map [] tx = ap (λ is. record tx { inputs = is }) (sym (append-nil tx.inputs))
  add_inputs-map (u ∷ us) tx =
      add_inputs-map us (add_input u.transaction_id u.output_index [] tx)
      ∙ ap (λ is. record tx { inputs = is })
          (append_assoc tx.inputs (input_of u ∷ []) (map input_of us))

module _ {F : Type 0} ⦃fl : Float64 F⦄ where
  select_from-Spends :
      (sender : Text) (m : GoMap (Utxo F)) (needed total : F) (us : List (Utxo F))
      → All (Owned sender m) us
      → Spends sender m total
          (map input_of (select_from needed total us).0)
          (select_from needed total us).1
  unfolding select_from
  select_from-Spends sender m needed total [] h = done
  select_from-Spends sender m needed total (u ∷ us) h = elim (Bool-cases u.spent) [
    | inl e ↦ rw e (select_from-Spends sender m needed total us h.1)
    | inr e ↦ elim (Bool-cases (fl.le needed (fl.add total u.amount))) [
      | inl f ↦ rw (e, f) (spend u h.0.1 h.0.0 e done)
      | inr f ↦
          rw (e, f)
            (spend u h.0.1 h.0.0 e
              (select_from-Spends sender m needed (fl.add total u.amount) us h.1))
    ]
  ]

  add_change_output-inputs :
      (c : F) (tx : Transaction F) → (add_change_output c tx).inputs ≡ tx.inputs
  unfolding add_change_output
  add_change_output-inputs c tx = ground arith

  -- `tx'` spends outputs of the sender of `tx` that are unspent, and in total are not below what
  -- it needs; what is more goes back to the sender, and nothing else has changed.
  abbrev pub Covered : GoMap (Utxo F) → Transaction F → Transaction F → Type 0
  Covered utxos tx tx' =
      (sum : F) × Spends tx.sender utxos (float 0) tx'.inputs sum
      × (fl.lt sum (total_needed tx) ≡ false)
      × (tx' ≡ add_change_output (fl.sub sum (total_needed tx)) (record tx { inputs = tx'.inputs }))

  change-Covered :
      (utxos : GoMap (Utxo F)) (tx : Transaction F) (chosen : List (Utxo F) × F)
      → tx.inputs ≡ []
      → Spends tx.sender utxos (float 0) (map input_of chosen.0) chosen.1
      → fl.lt chosen.1 (total_needed tx) ≡ false
      → Covered utxos tx
          (add_change_output (fl.sub chosen.1 (total_needed tx)) (add_inputs chosen.0 tx))
  change-Covered utxos tx chosen fresh spends enough =
      let filled : add_inputs chosen.0 tx ≡ record tx { inputs = map input_of chosen.0 } =
        add_inputs-map chosen.0 tx
        ∙ ap (λ is. record tx { inputs = is ++ map input_of chosen.0 }) fresh in
      let inputs : (add_change_output (fl.sub chosen.1 (total_needed tx))
            (add_inputs chosen.0 tx)).inputs
          ≡ map input_of chosen.0 =
        add_change_output-inputs (fl.sub chosen.1 (total_needed tx)) (add_inputs chosen.0 tx)
        ∙ ap (λ t. t.inputs) filled in
      (
        chosen.1,
        subst (λ is. Spends tx.sender utxos (float 0) is chosen.1) (sym inputs) spends,
        enough,
        ap (add_change_output (fl.sub chosen.1 (total_needed tx)))
            (filled ∙ ap (λ is. record tx { inputs = is }) (sym inputs)),
      )

  Spends-input_sum :
      (sender : Text) (utxos : GoMap (Utxo F)) (sum total : F) (is : List TransactionInput)
      → Spends sender utxos sum is total
      → input_sum sender sum is utxos ≡ some total
  unfolding input_sum
  Spends-input_sum sender utxos sum _ [] done = refl
  Spends-input_sum sender utxos sum total (i ∷ is) (spend u e o s rest) = ground (
    arith,
    e,
    (text_eq_iff u.owner sender).1 o,
    s,
    Spends-input_sum sender utxos (fl.add sum u.amount) total is rest,
  )

  add_change_output-outputs :
      (c : F) (tx : Transaction F)
      → (os : List (TransactionOutput F)) × (add_change_output c tx ≡ record tx { outputs = os })
  unfolding add_change_output
  add_change_output-outputs c tx = elim (Bool-cases (fl.lt (float 0) c)) [
    | inl e ↦ ((add_change_output c tx).outputs, rw e refl)
    | inr e ↦ (tx.outputs, rw e refl)
  ]

  validate_transaction-Spends :
      (crypto : Crypto F) (keys : GoMap Text) (tx : Transaction F) (utxos : GoMap (Utxo F))
      → (sum : F) → is_system_tx tx ≡ false
      → is_stake tx ≡ false
      → validate_gas tx ≡ none
      → Spends tx.sender utxos (float 0) tx.inputs sum
      → fl.lt sum (total_required tx) ≡ false
      → tx_verify_signature crypto keys tx ≡ returns true
      → validate_transaction crypto keys tx utxos ≡ returns true
  unfolding validate_transaction
  validate_transaction-Spends crypto keys tx utxos sum system stake gas spends enough signed =
      ground (
        arith,
        system,
        stake,
        gas,
        Spends-input_sum tx.sender utxos (float 0) sum tx.inputs spends,
        enough,
        signed,
      )

  required-needed :
      IeeeOrder fl
      → (tx : Transaction F) (sum : F) → fl.le (total_required tx) (total_needed tx) ≡ true
      → fl.lt sum (total_needed tx) ≡ false
      → fl.lt sum (total_required tx) ≡ false
  required-needed order tx sum fee enough = elim (Bool-cases (fl.lt sum (total_required tx))) [
    | inl e ↦ ground (arith, enough, order.lt_le_trans _ _ _ e fee)
    | inr e ↦ e
  ]

  -- The transaction `tx'` with the change named by its outputs.
  validate_transaction-Covered :
      IeeeOrder fl
      → (crypto : Crypto F) (keys : GoMap Text) (utxos : GoMap (Utxo F)) (tx tx' : Transaction F)
      → (signature : Text) → is_system_tx tx ≡ false
      → is_stake tx ≡ false
      → validate_gas tx ≡ none
      → fl.le (total_required tx) (total_needed tx) ≡ true
      → Covered utxos tx tx'
      → tx_verify_signature crypto keys (record tx' { signature = signature }) ≡ returns true
      → validate_transaction crypto keys (record tx' { signature = signature }) utxos ≡ returns true
  unfolding is_system_tx validate_gas total_required is_coinbase is_validator_reward
  validate_transaction-Covered order crypto keys utxos tx tx' signature system stake gas fee
        (sum, spends, enough, filled) =
      let is = tx'.inputs in
      let changed =
        add_change_output-outputs (fl.sub sum (total_needed tx)) (record tx { inputs = is }) in
      subst
        (λ t.
          tx_verify_signature crypto keys (record t { signature = signature }) ≡ returns true
          → validate_transaction crypto keys (record t { signature = signature }) utxos
            ≡ returns true)
        (sym (filled ∙ changed.1))
        (validate_transaction-Spends crypto keys
          (record tx { inputs = is; outputs = changed.0; signature = signature }) utxos sum system
          stake gas spends (required-needed order tx sum fee enough))

  module _ {D : Type 0} where
    -- On a pool in which no key stands twice and whose outputs stand under their own IDs and
    -- indices, SelectUTXOs of a transaction without inputs either returns an error and leaves
    -- the transaction as it was, or it gives it inputs: unspent outputs of its sender whose
    -- amounts, added up in order, are not below its amount and gas fee. What is over, if
    -- positive, is a last output back to the sender, and nothing else of the transaction
    -- changes.
    pub select_utxos-Covered :
        (pool : UtxoPool F D) (tx : Transaction F)
        → IsKeyed pool.utxos
        → tx.inputs ≡ []
        → ((e : SelectError) × (select_utxos (some pool) tx ≡ (tx, some e)))
          ⊎ ((tx' : Transaction F) × (select_utxos (some pool) tx ≡ (tx', none))
              × Covered pool.utxos tx tx')
    unfolding select_utxos
    select_utxos-Covered pool tx keyed fresh =
        elim (Bool-cases (length (utxos_for_address tx.sender pool.utxos) == 0)) [
          | inl e ↦ inl (no_utxos, ground (arith, e))
          | inr e ↦
              let chosen : List (Utxo F) × F =
                select_from (total_needed tx) (float 0)
                  (sort_stable larger_amount (utxos_for_address tx.sender pool.utxos)) in
              elim (Bool-cases (fl.lt chosen.1 (total_needed tx))) [
                | inl f ↦ inl (insufficient_funds, rw (e, f) refl)
                | inr f ↦ inr (
                  add_change_output (fl.sub chosen.1 (total_needed tx)) (add_inputs chosen.0 tx),
                  rw (e, f) refl,
                  change-Covered pool.utxos tx chosen fresh
                      (select_from-Spends tx.sender pool.utxos (total_needed tx) (float 0)
                        (sort_stable larger_amount (utxos_for_address tx.sender pool.utxos))
                        (All-sort_stable larger_amount (Owned tx.sender pool.utxos)
                          (utxos_for_address tx.sender pool.utxos)
                          (utxos_for_address-Owned tx.sender pool.utxos pool.utxos
                            (lookup-IsKeyed pool.utxos keyed))))
                      f,
                )
              ]
        ]

    module _ (crypto : Crypto F) (keys : GoMap Text) where
      -- A transaction that SelectUTXOs has filled without an error is accepted by the mempool
      -- against the outputs of the same pool. In the pool no key stands twice, and the outputs
      -- stand under their own IDs and indices; the transaction had no inputs, it is neither a
      -- coinbase nor a reward nor a stake, its gas setting is valid, what the mempool requires of
      -- it is at most its amount and gas fee, as where its maximum fee is 0, and its signature
      -- verifies. Floats are ordered as IEEE 754 says.
      pub validate_transaction-select_utxos :
          IeeeOrder fl
          → (pool : UtxoPool F D) (tx tx' : Transaction F) (signature : Text) → IsKeyed pool.utxos
          → tx.inputs ≡ []
          → is_system_tx tx ≡ false
          → is_stake tx ≡ false
          → validate_gas tx ≡ none
          → fl.le (total_required tx) (total_needed tx) ≡ true
          → select_utxos (some pool) tx ≡ (tx', none)
          → tx_verify_signature crypto keys (record tx' { signature = signature }) ≡ returns true
          → validate_transaction crypto keys (record tx' { signature = signature }) pool.utxos
            ≡ returns true
      validate_transaction-select_utxos order pool tx tx' signature keyed fresh system stake gas fee
            chosen signed =
          elim (select_utxos-Covered pool tx keyed fresh) [
            | inl (e, failed) ↦ ground (arith, sym failed ∙ chosen)
            | inr (filled, found, covered) ↦
                validate_transaction-Covered order crypto keys pool.utxos tx tx' signature system
                  stake gas fee
                  (subst (Covered pool.utxos tx) (ap (λ p. p.0) (sym found ∙ chosen)) covered)
                  signed
          ]
