-- ===== src/Tx.antt =====
-- blockchain/transaction.go, blockchain/gas_conversion.go and blockchain/utxo.go: the data of
-- transactions and unspent outputs, and the checks that look at one transaction alone.
-- `F` is float64 throughout.
use hybridblockchain.Common.{
  Call, returns, ℕ, ◌*◌, Bool, true, false, ◌||◌, ◌&&◌, ◌/◌, Option, none, some, List, ◌∷◌, ◌++◌,
  Text, codes, decimal, int_text, text_eq, hex_encode, length, take, drop, ltb, mul64,
  if◌then◌else◌, ℤ, pos, eq_ℤ, Float64, float, Crypto, GoMap, lookup,
}

pub record TransactionInput : Type 0 where
  pub transaction_id : Text
  pub output_index : ℤ
  pub signature : Text

pub record TransactionOutput (F : Type 0) : Type 0 where
  pub receiver : Text
  pub amount : F
  pub script_pub_key : Text

pub record Transaction (F : Type 0) : Type 0 where
  pub transaction_id : Text
  pub sender : Text
  pub receiver : Text
  pub amount : F
  pub timestamp : ℤ
  pub nonce : ℕ
  pub gas_fee : F
  pub inputs : List TransactionInput
  pub outputs : List (TransactionOutput F)
  pub tx_type : ℤ
  pub gas_limit : ℕ
  pub gas_price : ℕ
  pub gas_used : ℕ
  pub priority : ℤ
  pub max_fee_per_gas : ℕ
  pub tx_data : Text
  pub signature : Text
  pub sender_pub_key : Text

pub record Utxo (F : Type 0) : Type 0 where
  pub transaction_id : Text
  pub output_index : ℤ
  pub amount : F
  pub owner : Text
  pub spent : Bool
  pub block_height : ℕ
  pub timestamp : ℤ
  pub script_pub_key : Text

-- The constants of transaction.go and gas/model.go.
abbrev pub tx_coinbase : ℤ
tx_coinbase = pos 1

abbrev pub tx_validator_reward : ℤ
tx_validator_reward = pos 2

abbrev pub tx_stake : ℤ
tx_stake = pos 3

abbrev pub base_tx_gas : ℕ
base_tx_gas = 21000

abbrev pub min_gas_price : ℕ
min_gas_price = 10

abbrev pub max_gas_price : ℕ
max_gas_price = 100

-- fmt.Sprintf("%s-%d", txid, index), the key of an output in every UTXO map
unfoldable pub utxo_key : Text → ℤ → Text
utxo_key txid index = txid ++ 45 ∷ int_text index

module _ {F : Type 0} where
  unfoldable pub is_coinbase : Transaction F → Bool
  is_coinbase tx = eq_ℤ tx.tx_type tx_coinbase

  unfoldable pub is_validator_reward : Transaction F → Bool
  is_validator_reward tx = eq_ℤ tx.tx_type tx_validator_reward

  -- The test `isSystemTx` of utxo.go.
  unfoldable pub is_system_tx : Transaction F → Bool
  unfolding is_coinbase is_validator_reward
  is_system_tx tx = is_coinbase tx || is_validator_reward tx

-- The errors of ValidateGas.
pub data GasError : Type 0 where
  limit_out_of_range price_too_low price_too_high fee_too_high : GasError

module _ {F : Type 0} ⦃fl : Float64 F⦄ where
  unfoldable pub convert_gas_to_tokens : ℕ → F
  convert_gas_to_tokens gas = fl.div (float gas) (float 100000000)

  unfoldable pub validate_gas : Transaction F → Option GasError
  unfolding convert_gas_to_tokens
  validate_gas tx =
      if ltb tx.gas_limit base_tx_gas || ltb (base_tx_gas * 100) tx.gas_limit
      then some limit_out_of_range
      else if ltb tx.gas_price min_gas_price
      then some price_too_low
      else if ltb (max_gas_price * 10) tx.gas_price
      then some price_too_high
      else if fl.lt (float 2) (convert_gas_to_tokens (mul64 tx.gas_limit tx.gas_price))
      then some fee_too_high
      else none

-- wallet.go GenerateAddress of the key X ++ Y (32 bytes each), and crypto.go VerifySignature.
module _ {F : Type 0} (crypto : Crypto F) where
  unfoldable pub generate_address : Text → Text
  generate_address key =
      let bytes = crypto.strip_zeros (take 32 key) ++ crypto.strip_zeros (drop 32 key) in
      let hash = crypto.sha256 bytes in
      let checksum = crypto.sha256 (take 10 hash) in
      codes "sup" ++ (hex_encode (take 10 hash) ++ hex_encode (take 4 checksum))

  unfoldable pub verify_signature : Text → Text → Text → Bool
  verify_signature key message signature = elim (crypto.hex_decode signature) [
    | none ↦ false
    | some bytes ↦
        let half = length bytes / 2 in
        crypto.ecdsa_verify key (crypto.sha256 message) (take half bytes) (drop half bytes)
  ]

  -- VerifySignature under a nil key
  unfoldable pub verify_with_nil : Text → Text → Call Bool
  verify_with_nil message signature = elim (crypto.hex_decode signature) [
    | none ↦ returns false
    | some bytes ↦
        let half = length bytes / 2 in
        crypto.ecdsa_verify_nil (crypto.sha256 message) (take half bytes) (drop half bytes)
  ]

  -- Transaction.Hash
  unfoldable pub tx_hash : Transaction F → Text
  tx_hash tx = hex_encode (
      crypto.sha256 (
        tx.sender
        ++ (tx.receiver
            ++ (crypto.format_f6 tx.amount
                ++ (decimal tx.gas_price
                    ++ (decimal tx.gas_limit
                        ++ (int_text tx.priority ++ int_text tx.timestamp)))))))

  -- multi_sig_utils.go GetPublicKeyForAddress, over PublicKeyDatabase: `none` is its error, and
  -- `some none` the nil key of the address "BLOCKCHAIN".
  unfoldable pub get_public_key : GoMap Text → Text → Option (Option Text)
  get_public_key keys address =
      if text_eq address (codes "BLOCKCHAIN")
      then some none
      else elim (lookup address keys) [ none ↦ none | some key ↦ some (some key) ]

  -- Transaction.VerifySignature
  unfoldable pub tx_verify_signature : GoMap Text → Transaction F → Call Bool
  unfolding is_system_tx verify_signature verify_with_nil generate_address tx_hash get_public_key
  tx_verify_signature keys tx =
      if is_system_tx tx
      then returns true
      else if ltb (length tx.sender_pub_key) 64
      then elim (get_public_key keys tx.sender) [
        | none ↦ returns false
        | some none ↦ verify_with_nil (tx_hash tx) tx.signature
        | some (some key) ↦ returns (verify_signature key (tx_hash tx) tx.signature)
      ]
      else returns (
          crypto.on_curve tx.sender_pub_key
          && text_eq (generate_address tx.sender_pub_key) tx.sender
          && verify_signature tx.sender_pub_key (tx_hash tx) tx.signature)
