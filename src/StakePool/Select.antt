-- ===== src/StakePool/Select.antt =====
-- The weighted choice of SelectValidator of blockchain/stake_pool.go.
use mathlib.Core.List.{Perm}
use hybridblockchain.Common.{
  ◌≡◌, refl, true, false, inl, inr, none, some, [], ◌∷◌, GoMap, Text, Float64, float, Bool-cases,
  arith,
}
use hybridblockchain.StakePool.{StakePool, StakeInfo, host_of}
use hybridblockchain.StakePool.Calls.{pick, sum_stakes, select_validator}

module _ {F : Type 0} ⦃fl : Float64 F⦄ where
  -- `wallet` is the first one at which the sum of the amounts, from `c` on, reaches `r`.
  pub data Reaches (r : F) : F → GoMap (StakeInfo F) → Text → Type 0 where
    here :
        {c : F} {wallet : Text} {s : StakeInfo F} {rest : GoMap (StakeInfo F)}
        → fl.le r (fl.add c (float s.amount)) ≡ true
        → Reaches r c ((wallet, s) ∷ rest) wallet
    later :
        {c : F} {wallet w : Text} {s : StakeInfo F} {rest : GoMap (StakeInfo F)}
        → fl.le r (fl.add c (float s.amount)) ≡ false
        → Reaches r (fl.add c (float s.amount)) rest wallet
        → Reaches r c ((w, s) ∷ rest) wallet

  -- If the whole sum reaches `r`, some wallet does.
  pick-Reaches :
      (r c : F) (w : Text) (s : StakeInfo F) (rest : GoMap (StakeInfo F))
      → fl.le r (sum_stakes c ((w, s) ∷ rest)) ≡ true
      → (wallet : Text) × (pick r c ((w, s) ∷ rest) ≡ some wallet)
        × Reaches r c ((w, s) ∷ rest) wallet
  unfolding pick sum_stakes
  pick-Reaches r c w s [] h = (w, ground (arith, h), here h)
  pick-Reaches r c w s ((v, t) ∷ rest) h = elim (Bool-cases (fl.le r (fl.add c (float s.amount)))) [
    | inl e ↦ (w, rw (pick, e) refl, here e)
    | inr e ↦
        let found = pick-Reaches r (fl.add c (float s.amount)) v t rest h in
        (found.0, rw (pick, e) found.1, later e found.2)
  ]

  -- With two wallets or more, SelectValidator ranges over the stakes twice, in orders that may differ.
  -- Where the random number scales the total of the first order to no more than that of the second, it
  -- returns a wallet and its host, and no error: the wallet is the first at which the running sum of
  -- the stakes, in the second order, reaches the scaled number.
  pub select_validator-Reaches :
      (u : F) (summed : GoMap (StakeInfo F)) (sp : StakePool F) (a b : Text × StakeInfo F)
      (rest : GoMap (StakeInfo F))
      → Perm summed (a ∷ b ∷ rest)
      → fl.le (fl.mul u (sum_stakes (float 0) summed)) (sum_stakes (float 0) (a ∷ b ∷ rest)) ≡ true
      → (wallet : Text) × (select_validator u summed (record sp { stakes = a ∷ b ∷ rest })
          ≡ (some (wallet, host_of wallet sp), none))
        × Reaches (fl.mul u (sum_stakes (float 0) summed)) (float 0) (a ∷ b ∷ rest) wallet
  unfolding select_validator host_of
  select_validator-Reaches u summed sp a b rest perm h =
      let r = fl.mul u (sum_stakes (float 0) summed) in
      let found = pick-Reaches r (float 0) a.0 a.1 (b ∷ rest) h in
      (found.0, rw (select_validator, found.1) refl, found.2)
