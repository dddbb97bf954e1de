-- ===== src/Validators/Selection/Weighted.antt =====
-- Whom weightedSelection of blockchain/validator_selection.go selects.
use hybridblockchain.Common.{
  ℕ, ◌+◌, ◌%◌, ◌≤◌, ◌<◌, ◌≡◌, refl, sym, ◌∙◌, ap, ◌⊎◌, inl, inr, true, false, Option, some, List,
  [], ◌∷◌, ◌++◌, Text, ◌==◌, ==_iff, leb, add64, u64_mod, length, All, GoMap, ℤ, Float64, Crypto,
  Bool-cases, arith,
}
use hybridblockchain.Storage.{Call, returns, panics}
use hybridblockchain.StakePool.{StakeInfo, StakePool}
use hybridblockchain.Chain.{SelectionProof}
use hybridblockchain.Validators.Selection.{
  Candidate, is_eligible, pick_weighted, total_weight, calculate_weight, eligible_from,
  weighted_selection, generate_random_uint64,
}

List-cases : {A : Type 0} (xs : List A) → (xs ≡ []) ⊎ ((y : A) × (ys : List A) × (xs ≡ y ∷ ys))
List-cases [] = inl refl
List-cases (y ∷ ys) = inr (y, ys, refl)

module _ {F : Type 0} where
  -- The weights, added as natural numbers.
  abbrev pub sum_weights : (Candidate F → ℕ) → List (Candidate F) → ℕ
  sum_weights weight [] = 0
  sum_weights weight (v ∷ vs) = weight v + sum_weights weight vs

  total_weight-sum_weights :
      (weight : Candidate F → ℕ) (total : ℕ) (vs : List (Candidate F))
      → total + sum_weights weight vs < u64_mod
      → total_weight weight total vs ≡ total + sum_weights weight vs
  unfolding total_weight
  total_weight-sum_weights weight total [] h = omega arith
  total_weight-sum_weights weight total (v ∷ vs) h =
      total_weight-sum_weights weight (add64 total (weight v)) vs (omega (arith, h))
      ∙ omega (arith, h)

  -- `v` is the first of the candidates whose weights, added to `c`, reach the target.
  abbrev pub FirstReaching :
      (Candidate F → ℕ) → ℕ → ℕ → List (Candidate F) → Candidate F → SelectionProof → Type 0
  FirstReaching weight target c vs v proof =
      (before : List (Candidate F)) × (after : List (Candidate F)) × (vs ≡ before ++ v ∷ after)
      × (proof.weight ≡ weight v)
      × (proof.score ≡ c + sum_weights weight before + weight v)
      × (target ≤ proof.score)
      × ((length before ≡ 0) ⊎ (c + sum_weights weight before < target))

  before_lem :
      (weight : Candidate F → ℕ) (target c : ℕ) (v : Candidate F) (before : List (Candidate F))
      → c + weight v < u64_mod
      → add64 c (weight v) < target
      → (length before ≡ 0) ⊎ (add64 c (weight v) + sum_weights weight before < target)
      → c + sum_weights weight (v ∷ before) < target
  before_lem weight target c v [] small h first = omega (arith, small, h)
  before_lem weight target c v (u ∷ us) small h (inl e) = ground (arith, e)
  before_lem weight target c v (u ∷ us) small h (inr l) = omega (arith, small, l)

  pick_weighted-FirstReaching :
      (weight : Candidate F → ℕ) (now : ℤ) (seed : Text) (target c : ℕ) (v : Candidate F)
      (vs : List (Candidate F))
      → c + sum_weights weight (v ∷ vs) < u64_mod
      → target ≤ c + sum_weights weight (v ∷ vs)
      → (w : Candidate F) × (proof : SelectionProof) × (pick_weighted weight now seed target c
            (v ∷ vs)
          ≡ some (w, proof))
        × FirstReaching weight target c (v ∷ vs) w proof
  unfolding pick_weighted
  pick_weighted-FirstReaching weight now seed target c v [] small h =
      let reached : leb target (add64 c (weight v)) ≡ true = ground (arith, small, h) in
      (
        v,
        record { seed = seed; timestamp = now; weight = weight v; score = add64 c (weight v) },
        rw reached refl,
        ([], [], refl, refl, omega (arith, small), omega (arith, small, h), inl refl),
      )
  pick_weighted-FirstReaching weight now seed target c v (u ∷ us) small h =
      elim (Bool-cases (leb target (add64 c (weight v)))) [
        | inl e ↦ (
          v,
          record { seed = seed; timestamp = now; weight = weight v; score = add64 c (weight v) },
          rw e refl,
          ([], u ∷ us, refl, refl, omega (arith, small), ground (arith, e), inl refl),
        )
        | inr e ↦
            let (w, proof, found, (before, after, split, own, score, reach, first)) =
              pick_weighted-FirstReaching weight now seed target (add64 c (weight v)) u us
                (omega (arith, small)) (omega (arith, small, h)) in
            (
              w,
              proof,
              rw e found,
              (
                v ∷ before,
                after,
                ap (λ ws. v ∷ ws) split,
                own,
                omega (arith, score, small),
                reach,
                inr (
                    before_lem weight target c v before (omega (arith, small)) (ground (arith, e))
                      first),
              ),
            )
      ]

  -- The stakes have an entry for the candidate that passes isEligible.
  abbrev pub EligibleIn : ℤ → GoMap (StakeInfo F) → Candidate F → Type 0
  EligibleIn now stakes v =
      (before : GoMap (StakeInfo F)) × (s : StakeInfo F) × (after : GoMap (StakeInfo F)) × (stakes
        ≡ before ++ (v.address, s) ∷ after)
      × (is_eligible now (some s) ≡ true)

  EligibleIn-cons :
      (now : ℤ) (e : Text × StakeInfo F) (stakes : GoMap (StakeInfo F)) (vs : List (Candidate F))
      → All (EligibleIn now stakes) vs
      → All (EligibleIn now (e ∷ stakes)) vs
  EligibleIn-cons now e stakes [] h = tt
  EligibleIn-cons now e stakes (v ∷ vs) ((before, s, after, split, ok), rest) =
      ((e ∷ before, s, after, ap (λ m. e ∷ m) split, ok), EligibleIn-cons now e stakes vs rest)

  subst_All :
      (P : Candidate F → Type 0) {xs ys : List (Candidate F)} → xs ≡ ys → All P xs → All P ys
  subst_All P e h = rw (sym e) h

  All-middle :
      (P : Candidate F → Type 0) (xs : List (Candidate F)) (y : Candidate F)
      (ys : List (Candidate F))
      → All P (xs ++ y ∷ ys)
      → P y
  All-middle P [] y ys h = h.0
  All-middle P (x ∷ xs) y ys h = All-middle P xs y ys h.1

module _ {F : Type 0} ⦃fl : Float64 F⦄ where
  eligible_from-EligibleIn :
      (now : ℤ) (stakes : GoMap (StakeInfo F))
      → All (EligibleIn now stakes) (eligible_from now stakes)
  unfolding eligible_from
  eligible_from-EligibleIn now [] = tt
  eligible_from-EligibleIn now ((addr, s) ∷ rest) =
      let later = EligibleIn-cons now (addr, s) rest _ (eligible_from-EligibleIn now rest) in
      elim (Bool-cases (is_eligible now (some s))) [
        | inl e ↦ rw e (([], s, rest, refl, e), later)
        | inr e ↦ rw e later
      ]

  module _ (crypto : Crypto F) where
    -- What weightedSelection returns for an eligible candidate.
    abbrev pub Selects :
        ℤ → Text → StakePool F → Call (Option (Candidate F × SelectionProof)) → Type 0
    Selects now seed sp called =
        let weight = calculate_weight now sp in
        let vs = eligible_from now sp.stakes in
        let target = generate_random_uint64 crypto seed % sum_weights weight vs in
        (v : Candidate F) × (proof : SelectionProof) × (called ≡ returns (some (v, proof)))
        × EligibleIn now sp.stakes v
        × FirstReaching weight target 0 vs v proof

    weighted_selection-pick_weighted :
        (now : ℤ) (sp : StakePool F) (xs : List (Candidate F)) (seed : Text) (total : ℕ)
        → total_weight (calculate_weight now sp) 0 xs ≡ total
        → (total == 0) ≡ false
        → weighted_selection crypto now sp xs seed
          ≡ returns (
              pick_weighted
                (calculate_weight now sp)
                now
                seed
                (generate_random_uint64 crypto seed % total)
                0
                xs)
    unfolding weighted_selection
    weighted_selection-pick_weighted now sp xs seed total h e = rw (weighted_selection, h, e) refl

    weighted_selection-FirstReaching :
        (now : ℤ) (sp : StakePool F) (v : Candidate F) (vs : List (Candidate F)) (seed : Text)
        → sum_weights (calculate_weight now sp) (v ∷ vs) < u64_mod
        → ((sum_weights (calculate_weight now sp) (v ∷ vs) ≡ 0)
            × (weighted_selection crypto now sp (v ∷ vs) seed ≡ panics))
          ⊎ ((w : Candidate F) × (proof : SelectionProof) × (weighted_selection crypto now sp
                  (v ∷ vs)
                  seed
                ≡ returns (some (w, proof)))
              × FirstReaching
                  (calculate_weight now sp)
                  (generate_random_uint64 crypto seed
                    % sum_weights (calculate_weight now sp) (v ∷ vs))
                  0
                  (v ∷ vs)
                  w
                  proof)
    unfolding weighted_selection
    weighted_selection-FirstReaching now sp v vs seed small =
        let weight = calculate_weight now sp in
        let total : total_weight weight 0 (v ∷ vs) ≡ sum_weights weight (v ∷ vs) =
          total_weight-sum_weights weight 0 (v ∷ vs) (omega (arith, small)) ∙ omega arith in
        elim (Bool-cases (sum_weights weight (v ∷ vs) == 0)) [
          | inl e ↦ inl ((==_iff _ _).0 e, rw (weighted_selection, total, e) refl)
          | inr e ↦
              let (w, proof, found, reach) =
                pick_weighted-FirstReaching weight now seed
                  (generate_random_uint64 crypto seed % sum_weights weight (v ∷ vs)) 0 v vs
                  (omega (arith, small)) (ground (arith, e)) in
              inr (
                w,
                proof,
                weighted_selection-pick_weighted now sp (v ∷ vs) seed _ total e ∙ ap returns found,
                reach,
              )
        ]

    -- Where the weights of the candidates that getEligibleValidators returns add up to less than 2^64,
    -- weightedSelection of them does one of two things. Where all weights are 0, or there is no
    -- candidate, it panics. Else it returns a candidate whose stake passes isEligible, the first whose
    -- weight, with those before it, reaches the random number modulo the total, and its proof names its
    -- weight and the sum of the weights up to it.
    pub weighted_selection-Selects :
        (now : ℤ) (seed : Text) (sp : StakePool F)
        → sum_weights (calculate_weight now sp) (eligible_from now sp.stakes) < u64_mod
        → let called = weighted_selection crypto now sp (eligible_from now sp.stakes) seed in
          ((sum_weights (calculate_weight now sp) (eligible_from now sp.stakes) ≡ 0)
            × (called ≡ panics))
          ⊎ Selects now seed sp called
    unfolding weighted_selection total_weight
    weighted_selection-Selects now seed sp small = elim (List-cases (eligible_from now sp.stakes)) [
      | inl e ↦ inl (rw e refl, rw e refl)
      | inr (v, vs, e) ↦
          let same = ap (sum_weights (calculate_weight now sp)) e in
          let call = ap (λ xs. weighted_selection crypto now sp xs seed) e in
          elim (weighted_selection-FirstReaching now sp v vs seed (omega (arith, small, same))) [
            | inl (zero_sum, p) ↦ inl (same ∙ zero_sum, call ∙ p)
            | inr (w, proof, p, reach) ↦
                let (before, after, split, _, _, _, _) = reach in
                inr (
                  w,
                  proof,
                  call ∙ p,
                  All-middle (EligibleIn now sp.stakes) before w after (
                      subst_All (EligibleIn now sp.stakes) (e ∙ split)
                        (eligible_from-EligibleIn now sp.stakes)),
                  rw e reach,
                )
          ]
    ]
