-- ===== src/Mempool/Sync.antt =====
-- Of blockchain/mempool.go the calls that prepare a sync, the merge of SyncWithPeer without its
-- stream, and Clear and PrioritizeTransactions. sort.Slice is not stable: equal fees may end in any
-- order, here in the order that they had.
use hybridblockchain.Common.{
  List, [], ◌∷◌, ◌++◌, sort_stable, filter_by, ltb_ℤ, ℤ, pos, Float64, Crypto, if◌then◌else◌,
}
use hybridblockchain.Tx.{Transaction}
use hybridblockchain.Mempool.{
  Mempool, MempoolSync, has_id, higher_fee, higher_fee_or_later, calculate_state_root,
}

module _ {F : Type 0} where
  -- Clear
  unfoldable pub clear_mempool : Mempool F → Mempool F
  clear_mempool m = record m { transactions = [] }

  -- The loop of SyncWithPeer over the peer's transactions.
  unfoldable pub merge_peer : List (Transaction F) → List (Transaction F) → List (Transaction F)
  unfolding has_id
  merge_peer [] txs = txs
  merge_peer (p ∷ peer) txs =
      merge_peer peer (if has_id p.transaction_id txs then txs else txs ++ p ∷ [])

  -- SyncWithPeer
  unfoldable pub sync_with_peer : List (Transaction F) → Mempool F → Mempool F
  unfolding merge_peer
  sync_with_peer peer m = record m { transactions = merge_peer peer m.transactions }

module _ {F : Type 0} ⦃fl : Float64 F⦄ where
  -- PrioritizeTransactions
  unfoldable pub prioritize_transactions : Mempool F → Mempool F
  prioritize_transactions m = record m { transactions = sort_stable higher_fee m.transactions }

  module _ (crypto : Crypto F) where
    -- GetMempoolSync: the state root is that of the unsorted transactions.
    unfoldable pub get_mempool_sync : Mempool F → MempoolSync F
    get_mempool_sync m = record {
      transactions = sort_stable higher_fee_or_later m.transactions;
      state_root = calculate_state_root crypto m.transactions;
      last_sync_time = pos 0;
    }

    -- GetDeltaSync
    unfoldable pub get_delta_sync : ℤ → Mempool F → MempoolSync F
    get_delta_sync last_sync m = record {
      transactions = filter_by (λ t. ltb_ℤ last_sync t.timestamp) m.transactions;
      state_root = calculate_state_root crypto m.transactions;
      last_sync_time = last_sync;
    }
