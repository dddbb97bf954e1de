-- ===== src/Mempool/Bounds.antt =====
-- How many transactions the calls of blockchain/mempool.go leave in the mempool.
use hybridblockchain.Common.{
  ℕ, ◌≤◌, ◌<◌, ◌≡◌, Bool, List, [], ◌∷◌, ◌++◌, suc, length, ℤ, Float64, length-append, length-take,
  length-sort_stable, sort_stable, Bool-cases, inl, inr, arith, refl,
}
use hybridblockchain.Tx.{Transaction}
use hybridblockchain.Storage.{Call, returns, panics}
use hybridblockchain.Mempool.{
  Mempool, has_id, append_sorted, replace_lowest, drop_last, higher_fee, higher_fee_or_later,
  evict_old_transactions, validate_and_add_transaction, sync_loop, sync_mempool,
}

module _ {F : Type 0} ⦃fl : Float64 F⦄ where
  length-append_sorted :
      (tx : Transaction F) (txs : List (Transaction F))
      → length (append_sorted tx txs) ≡ suc (length txs)
  unfolding append_sorted
  length-append_sorted tx txs =
      omega (arith, length-sort_stable higher_fee (txs ++ tx ∷ []), length-append txs (tx ∷ []))

  length-drop_last :
      (x : Transaction F) (xs : List (Transaction F)) → length (drop_last x xs) ≡ length xs
  length-drop_last x [] = refl
  length-drop_last x (y ∷ ys) = omega (arith, length-drop_last y ys)

  -- The outcome of a call is a mempool of at most its own size.
  abbrev pub Fits : Call (Mempool F × Bool) → Type 0
  Fits panics = ¬ Unit
  Fits (returns (m, ok)) = length m.transactions ≤ m.max_size

  replace_lowest-Fits :
      (tx : Transaction F) (m : Mempool F) (xs : List (Transaction F))
      → 0 < length xs
      → length xs ≤ m.max_size
      → Fits (replace_lowest tx m xs)
  unfolding replace_lowest
  replace_lowest-Fits tx m [] h k = omega arith
  replace_lowest-Fits tx m (x ∷ xs) h k =
      ground (arith, length-append_sorted tx (drop_last x xs), length-drop_last x xs)

  length-evict_old_transactions-le :
      (m : Mempool F) → length (evict_old_transactions m).transactions ≤ m.max_size
  unfolding evict_old_transactions
  length-evict_old_transactions-le m =
      let sorted = sort_stable higher_fee_or_later m.transactions in
      ground (arith, length-take m.max_size sorted)

  max_size-evict_old_transactions :
      (m : Mempool F) → (evict_old_transactions m).max_size ≡ m.max_size
  unfolding evict_old_transactions
  max_size-evict_old_transactions m = refl

  -- The mempool's size is `n`, and it is passed by one transaction at most.
  abbrev pub WithinOne : ℕ → Mempool F → Type 0
  WithinOne n m = (m.max_size ≡ n) × (length m.transactions ≤ suc n)

  validate_and_add_transaction-WithinOne :
      (now : ℤ) (tx : Transaction F) (n : ℕ) (m : Mempool F)
      → WithinOne n m
      → WithinOne n (validate_and_add_transaction now tx m).0
  unfolding validate_and_add_transaction
  validate_and_add_transaction-WithinOne now tx n m h =
      let m' = evict_old_transactions m in
      ground (
        arith,
        h,
        length-append m.transactions (tx ∷ []),
        length-append m'.transactions (tx ∷ []),
        length-evict_old_transactions-le m,
        max_size-evict_old_transactions m,
      )

  sync_loop-WithinOne :
      (now : ℤ) (known txs : List (Transaction F)) (n : ℕ) (m : Mempool F)
      → WithinOne n m
      → WithinOne n (sync_loop now known txs m)
  unfolding sync_loop
  sync_loop-WithinOne now known [] n m h = h
  sync_loop-WithinOne now known (tx ∷ txs) n m h =
      elim (Bool-cases (has_id tx.transaction_id known)) [
        | inl e ↦ rw (sync_loop, e) (sync_loop-WithinOne now known txs n m h)
        | inr e ↦
            rw (sync_loop, e)
              (sync_loop-WithinOne now known txs n (validate_and_add_transaction now tx m).0
                (validate_and_add_transaction-WithinOne now tx n m h))
      ]

  -- From a mempool that passes its size by one transaction at most, SyncMempool makes one that does
  -- so too, however many the peer sends.
  pub sync_mempool-WithinOne :
      (now : ℤ) (peer : List (Transaction F)) (m : Mempool F)
      → length m.transactions ≤ suc m.max_size
      → WithinOne m.max_size (sync_mempool now peer m)
  unfolding sync_mempool
  sync_mempool-WithinOne now peer m h =
      sync_loop-WithinOne now m.transactions peer m.max_size m (refl, h)
