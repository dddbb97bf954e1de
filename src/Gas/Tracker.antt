-- ===== src/Gas/Tracker.antt =====
-- A block's gas as BlockGasTracker of blockchain/gas/tracker.go keeps it, over any sequence of
-- transactions.
use hybridblockchain.Common.{
  ℕ, ◌+◌, ◌≤◌, ◌<◌, ◌≡◌, ◌∙◌, true, false, ltb, if◌then◌else◌, pos, ◌+ℤ◌, u64_mod, List, [], ◌∷◌,
  suc, All, Bool-cases, inl, inr, arith,
}
use hybridblockchain.Gas.{BlockGasTracker, TxGasInfo, track_transaction}

-- AddTransaction for each transaction in turn.
unfoldable pub track_all : List TxGasInfo → BlockGasTracker → BlockGasTracker
unfolding track_transaction
track_all [] bt = bt
track_all (t ∷ ts) bt = track_all ts (track_transaction t bt).0

-- The transactions that a block of `limit` takes, first come, first served, when `used` is used, in
-- numbers that do not wrap.
abbrev pub taken : ℕ → ℕ → List TxGasInfo → List TxGasInfo
taken limit used [] = []
taken limit used (t ∷ ts) =
    let skip = taken limit used ts in
    let take = t ∷ taken limit (used + t.gas_used) ts in
    if ltb limit (used + t.gas_used) then skip else take

abbrev pub total_gas : List TxGasInfo → ℕ
total_gas [] = 0
total_gas (t ∷ ts) = t.gas_used + total_gas ts

abbrev pub count : List TxGasInfo → ℕ
count [] = 0
count (_ ∷ ts) = suc (count ts)

abbrev pub tracker : ℕ → ℕ → ℕ → BlockGasTracker
tracker limit used n = record { gas_used = used; gas_limit = limit; tx_count = pos n }

module _ (limit used n : ℕ) (t : TxGasInfo) (h : limit + t.gas_used < u64_mod) where
  refused :
      ltb limit (used + t.gas_used) ≡ true
      → used ≤ limit
      → track_transaction t (tracker limit used n) ≡ (tracker limit used n, false)
  unfolding track_transaction
  refused e k = ground (arith, e, h, k)

  accepted :
      used ≤ limit
      → ltb limit (used + t.gas_used) ≡ false
      → track_transaction t (tracker limit used n)
        ≡ (tracker limit (used + t.gas_used) (suc n), true)
  unfolding track_transaction ◌+ℤ◌
  accepted k e = ground (arith, e, h, k)

-- Where the gas used is within the limit and no transaction's gas can wrap the counter past it, the tracker's gas and count are
-- those of the transactions that a block of its limit takes one after the other, and the gas is
-- within the limit.
pub track_all-taken :
    (ts : List TxGasInfo) (limit used n : ℕ)
    → All (λ t. limit + t.gas_used < u64_mod) ts
    → used ≤ limit
    → (track_all ts (tracker limit used n)
        ≡ tracker limit (used + total_gas (taken limit used ts)) (n + count (taken limit used ts)))
      × (used + total_gas (taken limit used ts) ≤ limit)
unfolding track_all track_transaction ◌+ℤ◌
track_all-taken [] limit used n h k = (ground arith, ground (arith, k))
track_all-taken (t ∷ ts) limit used n h k = elim (Bool-cases (ltb limit (used + t.gas_used))) [
  | inl e ↦ rw (refused limit used n t h.0 e k, e) (track_all-taken ts limit used n h.1 k)
  | inr e ↦
      let rest = track_all-taken ts limit (used + t.gas_used) (suc n) h.1 (ground (arith, e)) in
      (
        rw (accepted limit used n t h.0 k e, e) (rest.0 ∙ ground arith),
        rw e (omega (arith, rest.1)),
      )
]

-- The check compares the wrapped sum with the limit: a transaction whose gas fills the counter up to
-- 2 ^ 64 is taken whatever the limit, and sets the block's gas to 0.
pub track_transaction-wraps :
    (info : TxGasInfo) (bt : BlockGasTracker)
    → bt.gas_used + info.gas_used ≡ u64_mod
    → track_transaction info bt
      ≡ (record bt { gas_used = 0; tx_count = bt.tx_count +ℤ pos 1 }, true)
unfolding track_transaction
track_transaction-wraps info bt e = ground (arith, e)
