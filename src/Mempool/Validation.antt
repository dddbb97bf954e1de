-- ===== src/Mempool/Validation.antt =====
-- What ValidateTransaction of blockchain/mempool.go has checked of a transaction that it accepts, and
-- what a sync without outputs leaves of one.
use mathlib.Core.Path.{subst}
use mathlib.Core.Option.{some-injective}
use hybridblockchain.Common.{
  Bool, ap, ◌∙◌, text_eq, returns, ◌≡◌, refl, true, false, ◌⊎◌, inl, inr, none, some, List, [], ◌∷◌,
  Float64, float, Crypto, GoMap, Text, text_eq_iff, lookup, All, Bool-cases, Option-cases, arith,
}
use hybridblockchain.Tx.{
  Transaction, TransactionInput, Utxo, utxo_key, is_system_tx, validate_gas, tx_verify_signature,
}
use hybridblockchain.Mempool.{
  Mempool, MempoolSync, validate_transaction, input_sum, total_required, stake_shape, is_stake,
  apply_sync, keep_valid, calculate_state_root,
}

module _ {F : Type 0} ⦃fl : Float64 F⦄ where
  -- Every input names an unspent output of the sender, and `sum` adds their amounts up in order.
  pub data Spends (sender : Text) (utxos : GoMap (Utxo F))
      : F → List TransactionInput → F → Type 0 where
    done : {sum : F} → Spends sender utxos sum [] sum
    spend :
        {sum total : F} {i : TransactionInput} {is : List TransactionInput} (u : Utxo F)
        → lookup (utxo_key i.transaction_id i.output_index) utxos ≡ some u
        → u.owner ≡ sender
        → u.spent ≡ false
        → Spends sender utxos (fl.add sum u.amount) is total
        → Spends sender utxos sum (i ∷ is) total

  input_sum-Spends :
      (sender : Text) (sum total : F) (is : List TransactionInput) (utxos : GoMap (Utxo F))
      → input_sum sender sum is utxos ≡ some total
      → Spends sender utxos sum is total
  unfolding input_sum
  input_sum-Spends sender sum total [] utxos h =
      subst (λ t. Spends sender utxos sum [] t) (some-injective sum total h) done
  input_sum-Spends sender sum total (i ∷ is) utxos h =
      elim (Option-cases (lookup (utxo_key i.transaction_id i.output_index) utxos)) [
        | inl e ↦ ground (arith, e, h)
        | inr (u, e) ↦
            spend u e (ground (arith, e, h, text_eq_iff u.owner sender)) (ground (arith, e, h))
              (input_sum-Spends sender (fl.add sum u.amount) total is utxos (ground (arith, e, h)))
      ]

  input_sum-nil :
      (sender : Text) (sum total : F) (is : List TransactionInput)
      → input_sum sender sum is [] ≡ some total
      → is ≡ []
  unfolding input_sum lookup
  input_sum-nil sender sum total [] h = refl
  input_sum-nil sender sum total (i ∷ is) h = ground (arith, h)

  -- What an ordinary transaction has to satisfy.
  abbrev pub Accepted : Crypto F → GoMap Text → Transaction F → GoMap (Utxo F) → Type 0
  Accepted crypto keys tx utxos =
      (validate_gas tx ≡ none)
      × (is_stake tx ≡ true → stake_shape tx ≡ true)
      × ((sum : F) × Spends tx.sender utxos (float 0) tx.inputs sum
          × (fl.lt sum (total_required tx) ≡ false))
      × (tx_verify_signature crypto keys tx ≡ returns true)

  -- A coinbase, a reward, or a transaction without inputs.
  abbrev pub NeedsNoOutputs : Transaction F → Type 0
  NeedsNoOutputs tx = (is_system_tx tx ≡ true) ⊎ (tx.inputs ≡ [])

  module _ (crypto : Crypto F) (keys : GoMap Text) where
    -- A transaction other than a coinbase or a reward, which are accepted as they are, is accepted only with a valid gas setting, inputs that
    -- name unspent outputs of its sender whose amounts in total are not below what it requires, a
    -- valid signature, and, if it is a stake, inputs and a first output to its sender.
    pub validate_transaction-Accepted :
        (tx : Transaction F) (utxos : GoMap (Utxo F))
        → is_system_tx tx ≡ false
        → validate_transaction crypto keys tx utxos ≡ returns true
        → Accepted crypto keys tx utxos
    unfolding validate_transaction
    validate_transaction-Accepted tx utxos s h =
        elim (Option-cases (input_sum tx.sender (float 0) tx.inputs utxos)) [
          | inl e ↦ ground (arith, e, h, s)
          | inr (sum, e) ↦ (
            elim (Option-cases (validate_gas tx)) [
              | inl g ↦ g
              | inr (r, g) ↦ ground (arith, e, g, h, s)
            ],
            λ k. ground (arith, e, h, s, k),
            (
              sum,
              input_sum-Spends tx.sender (float 0) sum tx.inputs utxos e,
              ground (arith, e, h, s),
            ),
            ground (arith, e, h, s),
          )
        ]

    validate_transaction-NeedsNoOutputs :
        (tx : Transaction F)
        → validate_transaction crypto keys tx [] ≡ returns true
        → NeedsNoOutputs tx
    unfolding validate_transaction
    validate_transaction-NeedsNoOutputs tx h = elim (Bool-cases (is_system_tx tx)) [
      | inl e ↦ inl e
      | inr e ↦ elim (Option-cases (input_sum tx.sender (fl.of_uint64 0) tx.inputs [])) [
        | inl f ↦ ground (arith, e, f, h)
        | inr (sum, f) ↦ inr (input_sum-nil tx.sender (fl.of_uint64 0) sum tx.inputs f)
      ]
    ]

    -- Its validation against a nil map returns.
    abbrev pub Validates : Transaction F → Type 0
    Validates t = (valid : Bool) × (validate_transaction crypto keys t [] ≡ returns valid)

    keep_valid-NeedsNoOutputs :
        (txs : List (Transaction F))
        → All Validates txs
        → (kept : List (Transaction F)) × (keep_valid crypto keys txs ≡ returns kept)
          × All NeedsNoOutputs kept
    unfolding keep_valid
    keep_valid-NeedsNoOutputs [] h = ([], refl, tt)
    keep_valid-NeedsNoOutputs (t ∷ ts) ((valid, v), h) =
        let (kept, e, all) = keep_valid-NeedsNoOutputs ts h in
        elim (Bool-cases valid) [
          | inl w ↦ (
            t ∷ kept,
            rw (keep_valid, v, e, w) refl,
            (validate_transaction-NeedsNoOutputs t (v ∙ ap returns w), all),
          )
          | inr w ↦ (kept, rw (keep_valid, v, e, w) refl, all)
        ]

    -- Where the validation of each transaction returns, ApplySync returns, and leaves no transaction
    -- that spends an output: it validates against a nil map, where no output is found. What remains
    -- is a coinbase, a reward, or a transaction without inputs.
    pub apply_sync-NeedsNoOutputs :
        (sync : MempoolSync F) (m : Mempool F)
        → All Validates sync.transactions
        → (m' : Mempool F) × (matched : Bool) × (apply_sync crypto keys sync m
            ≡ returns (m', matched))
          × All NeedsNoOutputs m'.transactions
    unfolding apply_sync
    apply_sync-NeedsNoOutputs sync m h =
        let (kept, e, all) = keep_valid-NeedsNoOutputs sync.transactions h in
        (
          record m { transactions = kept },
          text_eq (calculate_state_root crypto kept) sync.state_root,
          rw (apply_sync, e) refl,
          all,
        )
