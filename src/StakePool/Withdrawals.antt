-- ===== src/StakePool/Withdrawals.antt =====
-- Withdrawals of blockchain/stake_pool.go: the lock period between RequestWithdrawal and
-- ProcessWithdrawal.
use hybridblockchain.Common.{
  ℕ, ◌≡◌, Bool, true, false, inl, inr, Option, none, some, ℤ, ◌-ℤ◌, ltb_ℤ, Text, lookup, insert,
  lookup-insert_self, lookup-erase, text_eq_iff, Bool-cases, if◌then◌else◌, arith, codes,
}
use hybridblockchain.StakePool.{
  StakePool, StakeInfo, StakeError, locked, request_withdrawal, process_withdrawal,
  withdrawal_lock_period,
}

module _ {F : Type 0} (asked now : ℤ) (wallet : Text) (s : StakeInfo F) (sp : StakePool F) where
  -- What ProcessWithdrawal returns, and whether the wallet has a stake left, after RequestWithdrawal
  -- at the time `asked`.
  abbrev pub Withdrawal : Bool → StakePool F × ℕ × Option StakeError → Type 0
  Withdrawal early called =
      (called.1 ≡ (if early then 0 else s.amount))
      × (called.2 ≡ (if early then some locked else none))
      × (early ≡ true → called.0 ≡ (request_withdrawal asked wallet sp).0)
      × (early ≡ false → lookup wallet called.0.stakes ≡ none)

  -- A wallet with a stake that asks for its withdrawal gets an error as long as the lock period has
  -- not passed, and the pool stays as it is; from then on it gets its whole amount, and its stake is
  -- gone.
  pub process_withdrawal-request_withdrawal :
      lookup wallet sp.stakes ≡ some s
      → Withdrawal
          (ltb_ℤ (now -ℤ asked) withdrawal_lock_period)
          (process_withdrawal now wallet (request_withdrawal asked wallet sp).0)
  unfolding process_withdrawal request_withdrawal
  process_withdrawal-request_withdrawal e =
      let asks = record s {
        withdrawal_req =
            some (record { request_time = asked; amount = s.amount; status = codes "pending" });
      } in
      elim (Bool-cases (ltb_ℤ (now -ℤ asked) withdrawal_lock_period)) [
        | inl f ↦ ground (arith, e, f, lookup-insert_self wallet asks sp.stakes)
        | inr f ↦ ground (
          arith,
          e,
          f,
          lookup-insert_self wallet asks sp.stakes,
          text_eq_iff wallet wallet,
          lookup-erase wallet wallet (insert wallet asks sp.stakes),
        )
      ]
