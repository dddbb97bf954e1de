-- ===== src/Mempool.antt =====
-- Mempool of blockchain/mempool.go; what two nodes exchange is in Mempool/Sync. Logging, streams and
-- GetPrioritizedTransactions, whose comparison reads the clock anew each time, are left out.
-- Each mutex guards a whole call. Times are nanoseconds since 1970.
pub mod Bounds
pub mod Ids
pub mod Order
pub mod Validation
pub mod Sync
pub mod Merged
use hybridblockchain.Common.{
  ℕ, ◌*◌, ◌≡◌, Bool, true, false, not, ◌&&◌, ◌||◌, Option, none, some, List, [], ◌∷◌, ◌++◌, Text,
  codes, suc, zero, text_eq, hex_encode, length, take, leb, ltb, if◌then◌else◌, filter_by,
  sort_stable, mul64, ℤ, pos, negsuc, ◌+ℤ◌, ◌-ℤ◌, ltb_ℤ, eq_ℤ, GoMap, lookup, insert, Float64,
  float, Crypto, ◌+◌, ◌-◌, is_some,
}
use hybridblockchain.Tx.{
  Transaction, TransactionInput, TransactionOutput, Utxo, utxo_key, tx_stake, is_system_tx,
  validate_gas, convert_gas_to_tokens, tx_verify_signature, tx_hash,
}
use hybridblockchain.Storage.{Call, returns, panics}

pub record Mempool (F : Type 0) : Type 0 where
  pub transactions : List (Transaction F)
  pub max_size : ℕ
  pub timeouts : GoMap ℤ

-- NewMempool
abbrev pub new_mempool : {F : Type 0} → Mempool F
new_mempool = record { transactions = []; max_size = 1000; timeouts = [] }

-- `MempoolSync`, the fields that are read.
pub record MempoolSync (F : Type 0) : Type 0 where
  pub transactions : List (Transaction F)
  pub state_root : Text
  pub last_sync_time : ℤ

-- A second in nanoseconds, and 24 hours.
abbrev second : ℕ
second = 1000000000

abbrev pub scale_ℤ : ℕ → ℤ → ℤ
scale_ℤ n (pos m) = pos (n * m)
scale_ℤ zero (negsuc m) = pos 0
scale_ℤ (suc n) (negsuc m) = negsuc (suc n * suc m - 1)

unfoldable pub elem_text : Text → List Text → Bool
elem_text x [] = false
elem_text x (y ∷ ys) = text_eq y x || elem_text x ys

module _ {F : Type 0} where
  -- The loop that looks for a transaction ID.
  unfoldable pub has_id : Text → List (Transaction F) → Bool
  has_id txid [] = false
  has_id txid (t ∷ ts) = text_eq t.transaction_id txid || has_id txid ts

  -- RemoveTransaction
  unfoldable pub remove_transaction : Text → Mempool F → Mempool F
  remove_transaction txid m = record m {
    transactions = filter_by (λ t. not (text_eq t.transaction_id txid)) m.transactions;
  }

  -- ClearProcessedTransactions
  unfoldable pub clear_processed_transactions : List Text → Mempool F → Mempool F
  clear_processed_transactions processed m = record m {
    transactions = filter_by (λ t. not (elem_text t.transaction_id processed)) m.transactions;
  }

  -- removeExpiredTransactions
  unfoldable pub remove_expired_transactions : ℤ → Mempool F → Mempool F
  remove_expired_transactions last_sync m = record m {
    transactions = filter_by (λ t. ltb_ℤ last_sync t.timestamp) m.transactions;
  }

  -- SortByGasPrice
  unfoldable pub sort_by_gas_price : Mempool F → Mempool F
  sort_by_gas_price m = record m {
    transactions = sort_stable (λ a b. ltb b.gas_price a.gas_price) m.transactions;
  }

  -- All but the last element, and the last (of a list that is not empty).
  abbrev pub drop_last : Transaction F → List (Transaction F) → List (Transaction F)
  drop_last x [] = []
  drop_last x (y ∷ ys) = x ∷ drop_last y ys

  abbrev pub last_of : Transaction F → List (Transaction F) → Transaction F
  last_of x [] = x
  last_of x (y ∷ ys) = last_of y ys

module _ {F : Type 0} ⦃fl : Float64 F⦄ where
  -- `m.Transactions[i].GasFee > m.Transactions[j].GasFee`
  abbrev pub higher_fee : Transaction F → Transaction F → Bool
  higher_fee a b = fl.lt b.gas_fee a.gas_fee

  -- The comparison of evictOldTransactions and GetMempoolSync.
  abbrev pub higher_fee_or_later : Transaction F → Transaction F → Bool
  higher_fee_or_later a b =
      if fl.eq a.gas_fee b.gas_fee then ltb_ℤ b.timestamp a.timestamp else fl.lt b.gas_fee a.gas_fee

  -- evictOldTransactions
  unfoldable pub evict_old_transactions : Mempool F → Mempool F
  evict_old_transactions m =
      let sorted = sort_stable higher_fee_or_later m.transactions in
      record m {
        transactions = if ltb m.max_size (length sorted) then take m.max_size sorted else sorted;
      }

  -- validateAndAddTransaction
  unfoldable pub validate_and_add_transaction : ℤ → Transaction F → Mempool F → Mempool F × Bool
  unfolding evict_old_transactions
  validate_and_add_transaction now tx m =
      if ltb_ℤ (pos (24 * 3600 * second)) (now -ℤ scale_ℤ second tx.timestamp)
      then (m, false)
      else let m' =
          if leb m.max_size (length m.transactions) then evict_old_transactions m else m in
        (
          record m' {
            timeouts = insert tx.transaction_id (now +ℤ pos (24 * 3600 * second)) m'.timeouts;
            transactions = m'.transactions ++ tx ∷ [];
          },
          true,
        )

  -- SyncMempool. The map of known IDs is made before the loop, and not extended by it.
  unfoldable pub sync_loop : ℤ → List (Transaction F) → List (Transaction F) → Mempool F → Mempool F
  unfolding validate_and_add_transaction has_id
  sync_loop now known [] m = m
  sync_loop now known (tx ∷ txs) m =
      sync_loop now known txs
        (if has_id tx.transaction_id known then m else (validate_and_add_transaction now tx m).0)

  unfoldable pub sync_mempool : ℤ → List (Transaction F) → Mempool F → Mempool F
  unfolding sync_loop
  sync_mempool now peer m = sync_loop now m.transactions peer m

  -- The loop of ValidateTransaction over the inputs: `none` is a `return false`.
  unfoldable pub input_sum : Text → F → List TransactionInput → GoMap (Utxo F) → Option F
  input_sum sender sum [] utxos = some sum
  input_sum sender sum (i ∷ is) utxos =
      elim (lookup (utxo_key i.transaction_id i.output_index) utxos) [
        | none ↦ none
        | some u ↦
            let rest = input_sum sender (fl.add sum u.amount) is utxos in
            if text_eq u.owner sender && not u.spent then rest else none
      ]

  -- A stake transaction has inputs, and its first output goes to the sender.
  unfoldable pub stake_shape : Transaction F → Bool
  stake_shape tx = elim tx.inputs [
    | [] ↦ false
    | i ∷ is ↦ elim tx.outputs [ [] ↦ false | o ∷ os ↦ text_eq o.receiver tx.sender ]
  ]

  abbrev pub is_stake : Transaction F → Bool
  is_stake tx = eq_ℤ tx.tx_type tx_stake

  unfoldable pub total_required : Transaction F → F
  total_required tx =
      if is_stake tx
      then tx.amount
      else fl.add tx.amount (convert_gas_to_tokens (mul64 tx.gas_limit tx.max_fee_per_gas))

  -- The last steps of AddTransaction: append and sort.
  unfoldable pub append_sorted : Transaction F → List (Transaction F) → List (Transaction F)
  append_sorted tx txs = sort_stable higher_fee (txs ++ tx ∷ [])

  -- A full mempool, sorted: the new transaction replaces the last one if its fee is higher. An
  -- empty mempool is full only if its size is 0, and then the index -1 panics.
  unfoldable pub replace_lowest :
      Transaction F → Mempool F → List (Transaction F) → Call (Mempool F × Bool)
  unfolding append_sorted
  replace_lowest tx m [] = panics
  replace_lowest tx m (x ∷ xs) =
      if fl.lt (last_of x xs).gas_fee tx.gas_fee
      then returns (record m { transactions = append_sorted tx (drop_last x xs) }, true)
      else returns (record m { transactions = x ∷ xs }, false)

  module _ (crypto : Crypto F) where
    -- calculateStateRoot
    unfoldable pub concat_hashes : List (Transaction F) → Text
    concat_hashes [] = []
    concat_hashes (t ∷ ts) = tx_hash crypto t ++ concat_hashes ts

    unfoldable pub calculate_state_root : List (Transaction F) → Text
    unfolding concat_hashes
    calculate_state_root [] = []
    calculate_state_root (t ∷ ts) = hex_encode (crypto.sha256 (concat_hashes (t ∷ ts)))

  module _ (crypto : Crypto F) (keys : GoMap Text) where
    -- ValidateTransaction
    unfoldable pub validate_transaction : Transaction F → GoMap (Utxo F) → Call Bool
    unfolding stake_shape input_sum total_required
    validate_transaction tx utxos =
        if is_system_tx tx
        then returns true
        else if is_some (validate_gas tx)
        then returns false
        else if is_stake tx && not (stake_shape tx)
        then returns false
        else elim (input_sum tx.sender (float 0) tx.inputs utxos) [
          | none ↦ returns false
          | some sum ↦
              if fl.lt sum (total_required tx)
              then returns false
              else tx_verify_signature crypto keys tx
        ]

    -- AddTransaction
    unfoldable pub add_transaction :
        Transaction F → GoMap (Utxo F) → Mempool F → Call (Mempool F × Bool)
    unfolding has_id validate_transaction append_sorted replace_lowest
    add_transaction tx utxos m =
        if has_id tx.transaction_id m.transactions
        then returns (m, false)
        else elim (validate_transaction tx utxos) [
          | panics ↦ panics
          | returns false ↦ returns (m, false)
          | returns true ↦
              if leb m.max_size (length m.transactions)
              then replace_lowest tx m (sort_stable higher_fee m.transactions)
              else returns (record m { transactions = append_sorted tx m.transactions }, true)
        ]

    -- The loops of ApplySync and ApplyDeltaSync, which validate against a nil map.
    unfoldable pub keep_valid : List (Transaction F) → Call (List (Transaction F))
    unfolding validate_transaction
    keep_valid [] = returns []
    keep_valid (t ∷ ts) =
        let rest = keep_valid ts in
        elim (validate_transaction t []) [
          | panics ↦ panics
          | returns valid ↦ elim rest [
            | panics ↦ panics
            | returns kept ↦ returns (if valid then t ∷ kept else kept)
          ]
        ]

    -- ApplySync. The second result says whether the state root matched; the transactions are
    -- replaced either way.
    unfoldable pub apply_sync : MempoolSync F → Mempool F → Call (Mempool F × Bool)
    unfolding keep_valid calculate_state_root
    apply_sync sync m = elim (keep_valid sync.transactions) [
      | panics ↦ panics
      | returns kept ↦ returns (
        record m { transactions = kept },
        text_eq (calculate_state_root crypto kept) sync.state_root,
      )
    ]

    -- ApplyDeltaSync
    unfoldable pub apply_delta_sync : MempoolSync F → Mempool F → Call (Mempool F × Bool)
    unfolding keep_valid calculate_state_root remove_expired_transactions
    apply_delta_sync delta m =
        let m' = remove_expired_transactions delta.last_sync_time m in
        elim (keep_valid delta.transactions) [
          | panics ↦ panics
          | returns kept ↦ returns (
            record m' { transactions = m'.transactions ++ kept },
            text_eq (calculate_state_root crypto (m'.transactions ++ kept)) delta.state_root,
          )
        ]
