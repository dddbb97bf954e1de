-- ===== src/StakePool/Ranking.antt =====
-- The list that GetValidators of blockchain/stake_pool.go returns.
use mathlib.Core.Path.{subst}
use hybridblockchain.Common.{
  ℕ, zero, suc, ◌≡◌, ◌≤◌, ◌≢◌, refl, Bool, true, false, ◌&&◌, ◌||◌, ◌⊎◌, inl, inr, List, [], ◌∷◌, ℤ,
  GoMap, ltb, leb, leb_ℤ, ◌==◌, ◌-ℤ◌, if◌then◌else◌, length, take, All, All-take, IsSorted,
  sort_stable, sort_stable-IsSorted, length-take, Float64, IeeeOrder, Bool-cases, arith,
}
use hybridblockchain.StakePool.{StakePool, StakeInfo, ValidatorNode, min_stake_age}
use hybridblockchain.StakePool.Calls.{old_enough, get_validators}

List-cases : {A : Type 0} (xs : List A) → (xs ≡ []) ⊎ ((x : A) × (rest : List A) × (xs ≡ x ∷ rest))
List-cases [] = inl refl
List-cases (x ∷ xs) = inr (x, xs, refl)

module _ {F : Type 0} ⦃fl : Float64 F⦄ where
  abbrev pub more_stake : ValidatorNode F → ValidatorNode F → Bool
  more_stake a b = fl.lt b.stake a.stake

  module _ (ieee : IeeeOrder fl)
      (of_uint64_number : (n : ℕ) → fl.is_nan (fl.of_uint64 n) ≡ false) where
    abbrev HasStake : ValidatorNode F → Type 0
    HasStake v = fl.is_nan v.stake ≡ false

    more_stake-asym : (a b : ValidatorNode F) → more_stake a b ≡ true → more_stake b a ≡ false
    more_stake-asym a b h = elim (Bool-cases (fl.lt a.stake b.stake)) [
      | inl e ↦ ground (arith, ieee.lt_trans a.stake b.stake a.stake e h, ieee.lt_irrefl a.stake)
      | inr e ↦ e
    ]

    more_stake-cotrans :
        (a b c : ValidatorNode F)
        → HasStake b
        → more_stake a c ≡ true
        → (more_stake a b ≡ true) ⊎ (more_stake b c ≡ true)
    more_stake-cotrans a b c n h = elim (ieee.lt_cotrans c.stake b.stake a.stake n h) [
      | inl p ↦ inr p
      | inr p ↦ inl p
    ]

    old_enough-HasStake :
        (now : ℤ) (sp : StakePool F) (m : GoMap (StakeInfo F)) → All HasStake (old_enough now sp m)
    unfolding old_enough
    old_enough-HasStake now sp [] = tt
    old_enough-HasStake now sp ((w, s) ∷ rest) =
        elim (Bool-cases (leb 0 s.amount && leb_ℤ min_stake_age (now -ℤ s.start_time))) [
          | inl e ↦ rw (old_enough, e) (of_uint64_number s.amount, old_enough-HasStake now sp rest)
          | inr e ↦ rw (old_enough, e) (old_enough-HasStake now sp rest)
        ]

    take-IsSorted :
        (n : ℕ) (vs : List (ValidatorNode F))
        → IsSorted more_stake vs
        → IsSorted more_stake (take n vs)
    take-IsSorted zero vs h = tt
    take-IsSorted (suc n) [] h = tt
    take-IsSorted (suc n) (v ∷ vs) h =
        (All-take (λ w. more_stake w v ≡ false) n vs h.0, take-IsSorted n vs h.1)

    -- The validators stand by falling stake, and there are no more of them than asked for, where a
    -- number is asked for.
    abbrev pub IsRanked : ℕ → List (ValidatorNode F) → Type 0
    IsRanked count vs = IsSorted more_stake vs × ((count ≢ 0) → length vs ≤ count)

    taken-IsRanked :
        (count : ℕ) (vs : List (ValidatorNode F))
        → All HasStake vs
        → let sorted = sort_stable more_stake vs in
          IsRanked count
            (if count == 0 || ltb (length sorted) count then sorted else take count sorted)
    taken-IsRanked count vs h =
        let sorted = sort_stable more_stake vs in
        let order =
          sort_stable-IsSorted more_stake HasStake more_stake-asym more_stake-cotrans vs h in
        elim (Bool-cases (count == 0 || ltb (length sorted) count)) [
          | inl e ↦ rw e (order, λ n. ground (arith, e, n))
          | inr e ↦
              rw e (take-IsSorted count sorted order, λ n. omega (arith, length-take count sorted))
        ]

    -- Where a converted integer is a number and the floats are ordered as IEEE 754 says, GetValidators
    -- returns the validators by falling stake, and at most `count` of them unless `count` is 0.
    pub get_validators-IsRanked :
        (now : ℤ) (count : ℕ) (sp : StakePool F) → IsRanked count (get_validators now count sp).0
    unfolding get_validators
    get_validators-IsRanked now count sp = elim (List-cases sp.stakes) [
      | inl e ↦ rw (get_validators, e) (tt, λ n. omega arith)
      | inr (x, xs, e) ↦ elim (List-cases (old_enough now sp sp.stakes)) [
        | inl f ↦ rw (get_validators, e, f) (tt, λ n. omega arith)
        | inr (v, vs, f) ↦
            rw (get_validators, e, f)
              (taken-IsRanked count (v ∷ vs)
                (subst (λ l. All HasStake l) f (old_enough-HasStake now sp sp.stakes)))
      ]
    ]
