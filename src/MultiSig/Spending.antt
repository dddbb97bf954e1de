-- ===== src/MultiSig/Spending.antt =====
-- When funds leave a multi-signature wallet, in blockchain/blockchain.go and
-- blockchain/multi_sig_wallet.go.
use hybridblockchain.Common.{
  suc, ◌≡◌, refl, ◌⊎◌, inl, inr, true, false, Option, none, some, is_some, [], ◌∷◌, Text, length,
  All, if◌then◌else◌, GoMap, lookup, pos, leb_ℤ, Float64, Crypto, Bool-cases, Option-cases, ap,
  arith,
}
use hybridblockchain.Tx.{Utxo, tx_hash, verify_signature}
use hybridblockchain.Utxo.Sets.{update_utxo_set}
use hybridblockchain.MultiSig.{
  MultiSigWallet, MultiSigTransaction, MultiSigError, is_valid_signature, valid_sigs,
  validate_signatures, deduct_funds, execute_multi_sig_transaction,
}

module _ {F : Type 0} (crypto : Crypto F) where
  -- The signatures of the transaction that verify under the wallet's key of their owner.
  abbrev pub verified : MultiSigTransaction F → MultiSigWallet F → GoMap Text → GoMap Text
  verified tx w [] = []
  verified tx w ((owner, signature) ∷ rest) =
      let later = verified tx w rest in
      if is_valid_signature crypto w.public_key_map (tx_hash crypto tx.transaction) owner signature
      then (owner, signature) ∷ later
      else later

  -- The wallet holds a key for the owner, and the signature is one of the transaction under it.
  abbrev pub Signs : MultiSigTransaction F → MultiSigWallet F → Text × Text → Type 0
  Signs tx w (owner, signature) =
      (key : Text) × (lookup owner w.public_key_map ≡ some (some key))
      × (verify_signature crypto key (tx_hash crypto tx.transaction) signature ≡ true)

  length-verified :
      (tx : MultiSigTransaction F) (w : MultiSigWallet F) (sigs : GoMap Text)
      → valid_sigs crypto w.public_key_map (tx_hash crypto tx.transaction) sigs
        ≡ length (verified tx w sigs)
  unfolding valid_sigs
  length-verified tx w [] = refl
  length-verified tx w ((owner, signature) ∷ rest) =
      elim (Bool-cases (
        is_valid_signature crypto w.public_key_map (tx_hash crypto tx.transaction) owner
          signature)) [
            | inl e ↦ rw e (ap suc (length-verified tx w rest))
            | inr e ↦ rw e (length-verified tx w rest)
          ]

  is_valid_signature-Signs :
      (tx : MultiSigTransaction F) (w : MultiSigWallet F) (e : Text × Text)
      → is_valid_signature crypto w.public_key_map (tx_hash crypto tx.transaction) e.0 e.1 ≡ true
      → Signs tx w e
  unfolding is_valid_signature
  is_valid_signature-Signs tx w (owner, signature) h =
      elim (Option-cases (lookup owner w.public_key_map)) [
        | inl f ↦ ground (arith, h, f)
        | inr (none, f) ↦ ground (arith, h, f)
        | inr (some key, f) ↦ (key, f, ground (arith, h, f))
      ]

  verified-Signs :
      (tx : MultiSigTransaction F) (w : MultiSigWallet F) (sigs : GoMap Text)
      → All (Signs tx w) (verified tx w sigs)
  verified-Signs tx w [] = tt
  verified-Signs tx w ((owner, signature) ∷ rest) =
      elim (Bool-cases (
        is_valid_signature crypto w.public_key_map (tx_hash crypto tx.transaction) owner
          signature)) [
            | inl e ↦
                rw e (is_valid_signature-Signs tx w (owner, signature) e, verified-Signs tx w rest)
            | inr e ↦ rw e (verified-Signs tx w rest)
          ]

module _ {F : Type 0} ⦃fl : Float64 F⦄ (crypto : Crypto F) where
  -- The funds have left the wallet, with enough signatures.
  abbrev pub Spends :
      MultiSigTransaction F
      → MultiSigWallet F
      → GoMap (Utxo F)
      → MultiSigWallet F × GoMap (Utxo F) × Option MultiSigError
      → Type 0
  Spends tx w utxos (w', utxos', e) =
      (e ≡ none)
      × (fl.lt w.balance tx.transaction.amount ≡ false)
      × (w' ≡ record w { balance = fl.sub w.balance tx.transaction.amount })
      × (utxos' ≡ update_utxo_set tx.transaction utxos)
      × (leb_ℤ w.required_sigs (pos (length (verified crypto tx w tx.signatures))) ≡ true)
      × All (Signs crypto tx w) (verified crypto tx w tx.signatures)

  -- ExecuteMultiSigTransaction either returns an error, and the wallet and the outputs are as before; or it
  -- returns none, and then the balance was not below the amount and is reduced by it, the outputs are
  -- updated by the transaction, and as many of its signatures as the wallet requires, or more, verify
  -- under the keys that the wallet holds for their owners.
  pub execute_multi_sig_transaction-Spends :
      (tx : MultiSigTransaction F) (w : MultiSigWallet F) (utxos : GoMap (Utxo F))
      → let called = execute_multi_sig_transaction crypto tx w utxos in
        ((called.0 ≡ w) × (called.1 ≡ utxos) × (is_some called.2 ≡ true)) ⊎ Spends tx w utxos called
  unfolding execute_multi_sig_transaction validate_signatures deduct_funds
  execute_multi_sig_transaction-Spends tx w utxos =
      elim (Bool-cases (fl.lt w.balance tx.transaction.amount)) [
        | inl e ↦ rw e (inl (refl, refl, refl))
        | inr e ↦
            let signed = verified crypto tx w tx.signatures in
            elim (Bool-cases (leb_ℤ w.required_sigs (pos (length signed)))) [
              | inr f ↦
                  rw (e, length-verified crypto tx w tx.signatures, f) (inl (refl, refl, refl))
              | inl f ↦
                  rw (e, length-verified crypto tx w tx.signatures, f)
                    (inr (
                      refl,
                      refl,
                      rw (deduct_funds, e) refl,
                      refl,
                      refl,
                      verified-Signs crypto tx w tx.signatures,
                    ))
            ]
      ]
