-- ===== src/Validators/Slashing/Violations.antt =====
-- A run of violations of one validator, each given to HandleViolation of blockchain/slashing.go.
use hybridblockchain.Common.{
  ℕ, zero, suc, ◌+◌, ◌-◌, ◌≡◌, refl, sym, ◌∙◌, ap, true, false, Option, some, List, [], ◌∷◌, ◌++◌,
  Text, leb, ◌==◌, if◌then◌else◌, sub64, lookup, insert, lookup-insert_self, ℤ, pos, ◌+ℤ◌, leb_ℤ,
  length, length-append, Float64, Bool-cases, inl, inr, arith,
}
use hybridblockchain.Storage.{Storage}
use hybridblockchain.StakePool.{StakeInfo, slashing_threshold}
use hybridblockchain.Consensus.{status_slashed}
use hybridblockchain.Validators.{Validator, status_probation}
use hybridblockchain.Validators.Slashing.{
  SlashingManager, SlashingEvent, get_validator_evidence, with_evidence, new_evidence, one_more,
  penalty, record_slashing_event, slash_validator, handle_violation,
}

module _ {F : Type 0} (fl : Float64 F) where
  -- What one slashing leaves of a stake, and what `n` of them leave.
  abbrev pub slashed_amount : ℕ → ℕ
  slashed_amount amount = sub64 amount (fl.to_uint64 (penalty ⦃fl = fl⦄ amount))

  abbrev pub slashed_times : ℕ → ℕ → ℕ
  slashed_times zero amount = amount
  slashed_times (suc n) amount = slashed_times n (slashed_amount amount)

one_more_lem : (n : ℕ) → pos n +ℤ pos 1 ≡ pos (suc n)
unfolding ◌+ℤ◌
one_more_lem n = ground arith

module _ {F D : Type 0} ⦃fl : Float64 F⦄ where
  record_slashing_event-keeps :
      (st : Storage F D) (marshal_event : SlashingEvent F → Option Text) (now : ℤ) (v : Validator F)
      (amount : F) (sm : SlashingManager F D)
      → ((record_slashing_event st marshal_event now v amount sm).0.stake_pool ≡ sm.stake_pool)
        × ((record_slashing_event st marshal_event now v amount sm).0.evidence ≡ sm.evidence)
  unfolding record_slashing_event
  record_slashing_event-keeps st marshal_event now v amount sm = (ground arith, ground arith)

  evidence-with_evidence :
      (now : ℤ) (height : ℕ) (violation_type : Text) (v : Validator F) (sm : SlashingManager F D)
      → length (
          get_validator_evidence v.address
            (with_evidence (new_evidence now height violation_type v) sm))
        ≡ suc (length (get_validator_evidence v.address sm))
  unfolding get_validator_evidence
  evidence-with_evidence now height violation_type v sm =
      let before = get_validator_evidence v.address sm in
      let added = new_evidence now height violation_type v in
      rw (get_validator_evidence, lookup-insert_self v.address (before ++ added ∷ []) sm.evidence)
        (length-append before (added ∷ []) ∙ omega arith)

  same_evidence :
      (address : Text) (sm sm' : SlashingManager F D)
      → sm'.evidence ≡ sm.evidence
      → get_validator_evidence address sm' ≡ get_validator_evidence address sm
  unfolding get_validator_evidence
  same_evidence address sm sm' h = rw h refl

  -- The state of the validator, its stake and its evidence, all found by its address.
  abbrev pub Stands : Text → ℤ → ℕ → StakeInfo F → ℕ → SlashingManager F D → Validator F → Type 0
  Stands address violations status s evidence sm v =
      (v.address ≡ address)
      × (v.violations ≡ violations)
      × (v.status ≡ status)
      × (lookup address sm.stake_pool.stakes ≡ some s)
      × (length (get_validator_evidence address sm) ≡ evidence)

  module _ (st : Storage F D) (marshal_event : SlashingEvent F → Option Text) where
    slash_validator-Stands :
        (now : ℤ) (v : Validator F) (s : StakeInfo F) (sm : SlashingManager F D)
        → lookup v.address sm.stake_pool.stakes ≡ some s
        → let called = slash_validator st marshal_event now v sm in
          Stands v.address v.violations status_slashed
            (record s { amount = slashed_amount fl s.amount })
            (length (get_validator_evidence v.address sm))
            called.0
            called.1
    unfolding slash_validator
    slash_validator-Stands now v s sm h =
        let slashed = record v { status = status_slashed; score = 0 } in
        let halved = record s { amount = slashed_amount fl s.amount } in
        let before : SlashingManager F D = record sm {
          stake_pool = record sm.stake_pool {
            stakes = insert v.address halved sm.stake_pool.stakes;
          };
          community_pool = fl.add sm.community_pool (penalty s.amount);
        } in
        let after =
          (record_slashing_event st marshal_event now slashed (penalty s.amount) before).0 in
        let keeps =
          record_slashing_event-keeps st marshal_event now slashed (penalty s.amount) before in
        rw (slash_validator, h)
          (
            refl,
            refl,
            refl,
            ap (λ pool. lookup v.address pool.stakes) keeps.0
                ∙ lookup-insert_self v.address halved sm.stake_pool.stakes,
            ap length (same_evidence v.address before after keeps.1),
          )

    handle_violation-Stands :
        (now : ℤ) (height n : ℕ) (violation_type : Text) (v : Validator F) (s : StakeInfo F)
        (sm : SlashingManager F D)
        → v.violations ≡ pos n
        → lookup v.address sm.stake_pool.stakes ≡ some s
        → let called = handle_violation st marshal_event now height violation_type v sm in
          Stands v.address
            (pos (suc n))
            (if leb 3 (suc n) then status_slashed else status_probation)
            (record s { amount = if leb 3 (suc n) then slashed_amount fl s.amount else s.amount })
            (suc (length (get_validator_evidence v.address sm)))
            called.0
            called.1
    unfolding handle_violation
    handle_violation-Stands now height n violation_type v s sm h k =
        let violating = one_more v in
        let counted : violating.violations ≡ pos (suc n) =
          ap (λ x. x +ℤ pos 1) h ∙ one_more_lem n in
        let noted = with_evidence (new_evidence now height violation_type violating) sm in
        let known = evidence-with_evidence now height violation_type violating sm in
        elim (Bool-cases (leb 3 (suc n))) [
          | inl e ↦
              let test : leb_ℤ slashing_threshold violating.violations ≡ true =
                ap (leb_ℤ slashing_threshold) counted ∙ ground (arith, e) in
              let (same, violations, status, stake, evidence) =
                slash_validator-Stands now violating s noted k in
              rw (handle_violation, test, e)
                (same, violations ∙ counted, status, stake, evidence ∙ known)
          | inr e ↦
              let test : leb_ℤ slashing_threshold violating.violations ≡ false =
                ap (leb_ℤ slashing_threshold) counted ∙ ground (arith, e) in
              rw (handle_violation, test, e) (refl, counted, refl, k, known)
        ]

    -- The validator's violations one after the other, each with its time, the number of the latest block
    -- and its type; errors are left aside.
    abbrev pub handle_violations :
        List (ℤ × ℕ × Text) → Validator F → SlashingManager F D → SlashingManager F D × Validator F
    handle_violations [] v sm = (sm, v)
    handle_violations ((now, height, violation_type) ∷ es) v sm =
        let called = handle_violation st marshal_event now height violation_type v sm in
        handle_violations es called.1 called.0

    slashed_times_lem :
        (n k amount : ℕ)
        → slashed_times fl
            (suc n + k - 2 - (suc n - 2))
            (if leb 3 (suc n) then slashed_amount fl amount else amount)
          ≡ slashed_times fl (n + suc k - 2 - (n - 2)) amount
    slashed_times_lem n k amount = elim (Bool-cases (leb 3 (suc n))) [
      | inl e ↦
          let one_more_time : n + suc k - 2 - (n - 2) ≡ suc (suc n + k - 2 - (suc n - 2)) =
            ground (arith, e) in
          rw (e, one_more_time) refl
      | inr e ↦
          let same : n + suc k - 2 - (n - 2) ≡ suc n + k - 2 - (suc n - 2) = ground (arith, e) in
          rw (e, same) refl
    ]

    status_lem :
        (n k status old : ℕ)
        → status ≡ (if leb 3 (suc n) then status_slashed else status_probation)
        → (if k == 0
            then status
            else if leb 3 (suc n + k)
            then status_slashed
            else status_probation)
          ≡ (if suc k == 0
              then old
              else if leb 3 (n + suc k)
              then status_slashed
              else status_probation)
    status_lem n k status old h = ground (arith, h)

    -- A validator with `n` violations, not negative, and with a stake, to which HandleViolation is given
    -- further violations has them all counted and kept as evidence. After at least one it is on probation
    -- where there are fewer than three in all, and slashed otherwise; and its stake has lost its half,
    -- as computed in float64, once for each violation from the third on. This is so whether or not the
    -- database takes the records.
    pub handle_violations-Stands :
        (n : ℕ) (es : List (ℤ × ℕ × Text)) (v : Validator F) (s : StakeInfo F)
        (sm : SlashingManager F D)
        → v.violations ≡ pos n
        → lookup v.address sm.stake_pool.stakes ≡ some s
        → let called = handle_violations es v sm in
          Stands v.address
            (pos (n + length es))
            (if length es == 0
              then v.status
              else if leb 3 (n + length es)
              then status_slashed
              else status_probation)
            (record s { amount = slashed_times fl (n + length es - 2 - (n - 2)) s.amount })
            (length (get_validator_evidence v.address sm) + length es)
            called.0
            called.1
    handle_violations-Stands n [] v s sm h k =
        let none_more : n + 0 - 2 - (n - 2) ≡ 0 = omega arith in
        (refl, h ∙ ap pos (omega arith), refl, rw none_more k, omega arith)
    handle_violations-Stands n ((now, height, violation_type) ∷ es) v s sm h k =
        let called = handle_violation st marshal_event now height violation_type v sm in
        let (same, violations, status, stake, evidence) =
          handle_violation-Stands now height n violation_type v s sm h k in
        let rest = handle_violations es called.1 called.0 in
        let (same', violations', status', stake', evidence') =
          handle_violations-Stands (suc n) es called.1 _ called.0 violations
            (ap (λ a. lookup a called.0.stake_pool.stakes) same ∙ stake) in
        (
          same' ∙ same,
          violations' ∙ ap pos (omega arith),
          status' ∙ status_lem n (length es) called.1.status v.status status,
          ap (λ a. lookup a rest.0.stake_pool.stakes) (sym same)
              ∙ stake'
              ∙ ap (λ a. some (record s { amount = a })) (slashed_times_lem n (length es) s.amount),
          ap (λ a. length (get_validator_evidence a rest.0)) (sym same)
              ∙ evidence'
              ∙ omega (arith, ap (λ a. length (get_validator_evidence a called.0)) same, evidence),
        )
