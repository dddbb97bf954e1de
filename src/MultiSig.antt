-- ===== src/MultiSig.antt =====
-- MultiSigwWallet of blockchain/multi_sig_wallet.go, MultiSigTransaction of blockchain/transaction.go
-- and ExecuteMultiSigTransaction of blockchain/blockchain.go. ReplaceOwnerKey, which recovers keys from
-- words, is left out. A key is X and Y, 32 bytes each; none is a nil pointer. The maps stand in the
-- order in which the run ranges over them.
pub mod Spending
use hybridblockchain.Common.{
  ℕ, zero, suc, Bool, true, false, not, ◌&&◌, ◌||◌, Option, none, some, is_some, List, [], ◌∷◌,
  ◌++◌, map, Text, codes, text_eq, hex_encode, length, take, drop, ◌==◌, if◌then◌else◌, sort_stable,
  GoMap, lookup, insert, ℤ, pos, leb_ℤ, ltb_ℤ, Float64, float, Crypto,
}
use hybridblockchain.Storage.{Call, returns, panics}
use hybridblockchain.Tx.{Transaction, Utxo, tx_hash, verify_signature}
use hybridblockchain.Utxo.{text_less}
use hybridblockchain.Utxo.Sets.{update_utxo_set}

pub record MultiSigWallet (F : Type 0) : Type 0 where
  pub owners : List Text
  pub required_sigs : ℤ
  pub balance : F
  pub public_key_map : GoMap (Option Text)
  pub address : Text

pub record MultiSigTransaction (F : Type 0) : Type 0 where
  pub transaction : Transaction F
  pub signatures : GoMap Text

pub data MultiSigError : Type 0 where
  no_owners invalid_threshold insufficient_funds signature_exists not_enough_signatures :
      MultiSigError

module _ {F : Type 0} where
  -- AddSignature
  unfoldable pub add_signature :
      Text → Text → MultiSigTransaction F → MultiSigTransaction F × Option MultiSigError
  add_signature address signature tx = elim (lookup address tx.signatures) [
    | some _ ↦ (tx, some signature_exists)
    | none ↦ (record tx { signatures = insert address signature tx.signatures }, none)
  ]

  -- AdjustSignatureThreshold
  unfoldable pub adjust_signature_threshold :
      ℤ → MultiSigWallet F → MultiSigWallet F × Option MultiSigError
  adjust_signature_threshold threshold w =
      if leb_ℤ threshold (pos 0) || ltb_ℤ (pos (length w.owners)) threshold
      then (w, some invalid_threshold)
      else (record w { required_sigs = threshold }, none)

module _ {F : Type 0} (crypto : Crypto F) where
  -- GenerateMultiSigAddress, with big.Int.Text(16) as an argument. A nil key panics.
  unfoldable pub combined_keys : (Text → Text) → GoMap (Option Text) → List Text → Call Text
  combined_keys text16 keys [] = returns []
  combined_keys text16 keys (owner ∷ owners) =
      let rest = combined_keys text16 keys owners in
      elim (lookup owner keys) [
        | none ↦ panics
        | some none ↦ panics
        | some (some key) ↦ elim rest [
          | panics ↦ panics
          | returns later ↦
              returns (owner ++ (text16 (take 32 key) ++ (text16 (drop 32 key) ++ later)))
        ]
      ]

  unfoldable pub generate_multi_sig_address : (Text → Text) → GoMap (Option Text) → Call Text
  unfolding combined_keys
  generate_multi_sig_address text16 keys =
      elim (combined_keys text16 keys (sort_stable text_less (map (λ e. e.0) keys))) [
        | panics ↦ panics
        | returns combined ↦
            returns (take 31 (codes "sup" ++ hex_encode (take 28 (crypto.sha256 combined))))
      ]

  -- NewMultiSigWallet; the zero balance is an argument.
  unfoldable pub new_multi_sig_wallet :
      (Text → Text)
      → F
      → List Text
      → ℤ
      → GoMap (Option Text)
      → Call (Option (MultiSigWallet F) × Option MultiSigError)
  unfolding generate_multi_sig_address
  new_multi_sig_wallet text16 nothing owners required_sigs keys =
      if length owners == 0
      then returns (none, some no_owners)
      else if leb_ℤ required_sigs (pos 0) || ltb_ℤ (pos (length owners)) required_sigs
      then returns (none, some invalid_threshold)
      else elim (generate_multi_sig_address text16 keys) [
        | panics ↦ panics
        | returns address ↦ returns (
          some (record {
            owners = owners;
            required_sigs = required_sigs;
            balance = nothing;
            public_key_map = keys;
            address = address;
          }),
          none,
        )
      ]

  -- The test in the loop of ValidateSignatures, and the number of signatures that pass it.
  unfoldable pub is_valid_signature : GoMap (Option Text) → Text → Text → Text → Bool
  is_valid_signature keys hash owner signature = elim (lookup owner keys) [
    | none ↦ false
    | some none ↦ false
    | some (some key) ↦ verify_signature crypto key hash signature
  ]

  unfoldable pub valid_sigs : GoMap (Option Text) → Text → GoMap Text → ℕ
  unfolding is_valid_signature
  valid_sigs keys hash [] = 0
  valid_sigs keys hash ((owner, signature) ∷ rest) =
      let later = valid_sigs keys hash rest in
      if is_valid_signature keys hash owner signature then suc later else later

  -- ValidateSignatures of a multi-signature transaction
  unfoldable pub validate_signatures :
      GoMap (Option Text) → MultiSigTransaction F → MultiSigWallet F → Bool
  unfolding valid_sigs
  validate_signatures keys tx w =
      leb_ℤ w.required_sigs (pos (valid_sigs keys (tx_hash crypto tx.transaction) tx.signatures))

module _ {F : Type 0} ⦃fl : Float64 F⦄ where
  -- AddFunds and DeductFunds
  unfoldable pub add_funds : F → MultiSigWallet F → MultiSigWallet F
  add_funds amount w = record w { balance = fl.add w.balance amount }

  unfoldable pub deduct_funds : F → MultiSigWallet F → MultiSigWallet F × Option MultiSigError
  deduct_funds amount w =
      if fl.lt w.balance amount
      then (w, some insufficient_funds)
      else (record w { balance = fl.sub w.balance amount }, none)

  module _ (crypto : Crypto F) where
    -- ExecuteTransaction, with the keys that the caller gives
    unfoldable pub execute_transaction :
        GoMap (Option Text)
        → MultiSigTransaction F
        → MultiSigWallet F
        → MultiSigWallet F × Option MultiSigError
    unfolding validate_signatures deduct_funds
    execute_transaction keys tx w =
        if validate_signatures crypto keys tx w
        then deduct_funds tx.transaction.amount w
        else (w, some not_enough_signatures)

    -- ExecuteMultiSigTransaction, with the wallet's keys; the map of outputs is changed in place.
    unfoldable pub execute_multi_sig_transaction :
        MultiSigTransaction F
        → MultiSigWallet F
        → GoMap (Utxo F)
        → MultiSigWallet F × GoMap (Utxo F) × Option MultiSigError
    unfolding validate_signatures deduct_funds update_utxo_set
    execute_multi_sig_transaction tx w utxos =
        if fl.lt w.balance tx.transaction.amount
        then (w, utxos, some insufficient_funds)
        else if validate_signatures crypto w.public_key_map tx w
        then (let deducted = deduct_funds tx.transaction.amount w in
            elim deducted.1 [
              | some e ↦ (deducted.0, utxos, some e)
              | none ↦ (deducted.0, update_utxo_set tx.transaction utxos, none)
            ])
        else (w, utxos, some not_enough_signatures)
