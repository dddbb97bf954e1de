-- ===== src/StakePool/Violations.antt =====
-- Repeated violations of a staker (RecordViolation of blockchain/stake_pool.go).
use hybridblockchain.Common.{
  ℕ, zero, suc, ◌+◌, ◌-◌, ◌/◌, ◌<◌, ◌≡◌, refl, ◌∙◌, some, pos, ◌+ℤ◌, leb_ℤ, Text, lookup,
  lookup-insert_self, if◌then◌else◌, arith, u64_mod,
}
use hybridblockchain.StakePool.{StakePool, StakeInfo, record_violation}

-- What is left of an amount after `n` slashings, each of which takes the half, rounded down.
abbrev pub halved : ℕ → ℕ → ℕ
halved zero amount = amount
halved (suc n) amount = halved n (amount - amount / 2)

module _ {F : Type 0} where
  unfoldable pub record_violations : ℕ → Text → StakePool F → StakePool F
  record_violations zero wallet sp = sp
  record_violations (suc n) wallet sp = record_violations n wallet (record_violation wallet sp).0

  record_violation-entry :
      (wallet : Text) (v : ℕ) (s : StakeInfo F) (sp : StakePool F)
      → lookup wallet sp.stakes ≡ some s
      → s.violations ≡ pos v
      → s.amount < u64_mod
      → lookup wallet (record_violation wallet sp).0.stakes
        ≡ some (record s {
          violations = pos (suc v);
          amount = if leb_ℤ (pos 2) (pos v) then s.amount - s.amount / 2 else s.amount;
        })
  unfolding record_violation ◌+ℤ◌
  record_violation-entry wallet v s sp e f h =
      rw (record_violation, e) (lookup-insert_self wallet _ sp.stakes ∙ rw f (ground (arith, h)))

  -- For a wallet with a stake below 2 ^ 64: its first two violations cost nothing; each one from the third on takes half of
  -- what is left, and the count goes on.
  pub record_violations-halved :
      (n v : ℕ) (wallet : Text) (s : StakeInfo F) (sp : StakePool F)
      → lookup wallet sp.stakes ≡ some s
      → s.violations ≡ pos v
      → s.amount < u64_mod
      → lookup wallet (record_violations n wallet sp).stakes
        ≡ some
            (record s { violations = pos (n + v); amount = halved (n + v - 2 - (v - 2)) s.amount })
  unfolding record_violations
  record_violations-halved zero v wallet s sp e f h = ground (arith, e, f)
  record_violations-halved (suc n) v wallet s sp e f h =
      let again = record s {
        violations = pos (suc v);
        amount = if leb_ℤ (pos 2) (pos v) then s.amount - s.amount / 2 else s.amount;
      } in
      record_violations-halved n (suc v) wallet again (record_violation wallet sp).0
        (record_violation-entry wallet v s sp e f h) refl (ground (arith, h))
      ∙ ground arith
