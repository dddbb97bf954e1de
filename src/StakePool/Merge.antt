-- ===== src/StakePool/Merge.antt =====
-- What SyncWithPeer of blockchain/stake_pool.go makes of a peer's stakes.
use hybridblockchain.Common.{
  ℕ, ◌≡◌, refl, sym, inl, inr, Option, none, some, List, [], ◌∷◌, Text, text_eq, text_eq_iff,
  lookup, lookup-insert, ltb, if◌then◌else◌, Bool-cases, Option-cases, arith,
}
use hybridblockchain.StakePool.{StakePool, StakeInfo, merge_stake, merge_stakes}

-- The larger of two amounts, where `none` is a wallet without a stake.
abbrev pub larger : Option ℕ → Option ℕ → Option ℕ
larger none b = b
larger (some m) none = some m
larger (some m) (some n) = if ltb m n then some n else some m

larger_assoc : (a b c : Option ℕ) → larger (larger a b) c ≡ larger a (larger b c)
larger_assoc none b c = refl
larger_assoc (some m) none c = refl
larger_assoc (some m) (some n) none = ground arith
larger_assoc (some m) (some n) (some o) = ground arith

larger-none : (a : Option ℕ) → larger a none ≡ a
larger-none none = refl
larger-none (some m) = refl

larger_comm : (a b : Option ℕ) → larger a b ≡ larger b a
larger_comm none none = refl
larger_comm none (some n) = refl
larger_comm (some m) none = refl
larger_comm (some m) (some n) = ground arith

module _ {F : Type 0} where
  abbrev pub amount_in : Option (StakeInfo F) → Option ℕ
  amount_in none = none
  amount_in (some s) = some s.amount

  -- The amount of a wallet in the pool.
  abbrev pub amount_of : Text → StakePool F → Option ℕ
  amount_of wallet sp = amount_in (lookup wallet sp.stakes)

  -- The largest amount that a peer's message holds for a wallet.
  unfoldable pub offered : Text → List (Text × Option (StakeInfo F)) → Option ℕ
  offered wallet [] = none
  offered wallet ((w, theirs) ∷ rest) =
      if text_eq w wallet
      then larger (amount_in theirs) (offered wallet rest)
      else offered wallet rest

  merge_stake-larger :
      (wallet w : Text) (theirs : Option (StakeInfo F)) (sp : StakePool F)
      → amount_of wallet (merge_stake w theirs sp) ≡ (
          if text_eq w wallet
          then larger (amount_of wallet sp) (amount_in theirs)
          else amount_of wallet sp)
  unfolding merge_stake
  merge_stake-larger wallet w none sp = ground (arith, larger-none (amount_of wallet sp))
  merge_stake-larger wallet w (some t) sp = elim (Option-cases (lookup w sp.stakes)) [
    | inl e ↦ ground (arith, e, lookup-insert w wallet t sp.stakes, text_eq_iff w wallet)
    | inr (s, e) ↦ ground (arith, e, lookup-insert w wallet t sp.stakes, text_eq_iff w wallet)
  ]

  -- After a merge, a wallet has the larger of its own amount and of what the message holds for it,
  -- and it has a stake if and only if one of the two does.
  pub merge_stakes-larger :
      (wallet : Text) (peer : List (Text × Option (StakeInfo F))) (sp : StakePool F)
      → amount_of wallet (merge_stakes peer sp) ≡ larger (amount_of wallet sp) (offered wallet peer)
  unfolding merge_stakes offered
  merge_stakes-larger wallet [] sp = sym (larger-none (amount_of wallet sp))
  merge_stakes-larger wallet ((w, t) ∷ rest) sp =
      let ours = amount_of wallet sp in
      let later = offered wallet rest in
      elim (Bool-cases (text_eq w wallet)) [
        | inl e ↦ simp (
          e,
          merge_stakes-larger wallet rest (merge_stake w t sp),
          merge_stake-larger wallet w t sp,
          larger_assoc ours (amount_in t) later,
        )
        | inr e ↦ simp (
          e,
          merge_stakes-larger wallet rest (merge_stake w t sp),
          merge_stake-larger wallet w t sp,
        )
      ]

  -- The order in which two peers' messages are merged does not matter to the amounts.
  pub merge_stakes_comm :
      (wallet : Text) (a b : List (Text × Option (StakeInfo F))) (sp : StakePool F)
      → amount_of wallet (merge_stakes a (merge_stakes b sp))
        ≡ amount_of wallet (merge_stakes b (merge_stakes a sp))
  merge_stakes_comm wallet a b sp =
      let ours = amount_of wallet sp in
      let x = offered wallet a in
      let y = offered wallet b in
      simp (
        merge_stakes-larger wallet a (merge_stakes b sp),
        merge_stakes-larger wallet b sp,
        merge_stakes-larger wallet b (merge_stakes a sp),
        merge_stakes-larger wallet a sp,
        larger_assoc ours x y,
        larger_assoc ours y x,
        larger_comm x y,
      )
