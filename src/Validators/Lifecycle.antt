-- ===== src/Validators/Lifecycle.antt =====
-- How the status of a validator follows its record of validations, in blockchain/validator.go.
use hybridblockchain.Common.{
  ℕ, suc, ◌+◌, ◌*◌, ◌≤◌, ◌<◌, ◌≡◌, refl, ◌∙◌, Bool, true, false, none, some, List, [], ◌∷◌, length,
  ltb, ◌==◌, if◌then◌else◌, add64, ℤ, Float64, arith,
}
use hybridblockchain.StakePool.{ValidatorPerformance}
use hybridblockchain.Consensus.{status_active, status_slashed}
use hybridblockchain.Validators.{
  Validator, status_probation, score_of, update_status, update_validator_score, record_validation,
  check_selection_eligibility, with_uptime, counted,
}

-- A share of at most all blocks, where there is one, is at most a hundred per cent, and a hundred of that at most 10000.
abbrev pub UptimeBound : {F : Type 0} → Float64 F → Type 0
UptimeBound fl =
    (a b : ℕ)
    → a ≤ b
    → 0 < b
    → fl.to_uint64 (
        fl.mul (fl.mul (fl.div (fl.of_uint64 a) (fl.of_uint64 b)) (fl.of_uint64 100))
          (fl.of_uint64 100))
      ≤ 10000

module _ {F : Type 0} ⦃fl : Float64 F⦄ where
  -- The validator's record: so many blocks validated and missed.
  abbrev pub Counts : ℕ → ℕ → Validator F → Type 0
  Counts validated missed v =
      (p : ValidatorPerformance F) × (v.performance ≡ some p)
      × (p.blocks_validated ≡ validated)
      × (p.missed_validations ≡ missed)

  -- The status that updateStatus gives to a score, and the score itself.
  abbrev pub Scored : ℕ → ℕ → ℕ → Validator F → Type 0
  Scored validated missed status v =
      (v.status ≡ (
        if ltb v.score 100
        then status_probation
        else if status == status_slashed
        then status
        else status_active))
      × (validated * 10 < missed * 20 → v.score ≡ 0)
      × (missed * 20 + 100 ≤ validated * 10 → 100 ≤ v.score)

  update_status-keeps :
      (v : Validator F)
      → ((update_status v).performance ≡ v.performance)
        × ((update_status v).slashed ≡ v.slashed)
        × ((update_status v).score ≡ v.score)
        × ((update_status v).status ≡ (
            if ltb v.score 100
            then status_probation
            else if v.status == status_slashed
            then v.status
            else status_active))
  unfolding update_status
  update_status-keeps v = (ground arith, ground arith, ground arith, ground arith)

  -- The counts and the score after RecordValidation.
  score_of-with_uptime :
      UptimeBound fl
      → (b m : ℕ) (p : ValidatorPerformance F) → p.blocks_validated ≡ b
      → p.missed_validations ≡ m
      → 0 < b + m
      → b + m < 2000000000
      → ((with_uptime p).blocks_validated ≡ b)
        × ((with_uptime p).missed_validations ≡ m)
        × (b * 10 < m * 20 → score_of (with_uptime p) ≡ 0)
        × (m * 20 + 100 ≤ b * 10 → 100 ≤ score_of (with_uptime p))
  unfolding score_of
  score_of-with_uptime bound b m p f g some_blocks small =
      let total : add64 p.blocks_validated p.missed_validations ≡ b + m =
        omega (arith, f, g, small) in
      let some_counted : ltb 0 (add64 p.blocks_validated p.missed_validations) ≡ true =
        ground (arith, total, some_blocks) in
      let uptime =
        bound p.blocks_validated (add64 p.blocks_validated p.missed_validations)
          (omega (arith, total, f)) (omega (arith, total, some_blocks)) in
      rw some_counted
        (f, g, (λ h. ground (arith, f, g, h, small)), (λ h. ground (arith, f, g, h, small, uptime)))

  record_validation_lem :
      (now : ℤ) (success : Bool) (v : Validator F) (p : ValidatorPerformance F)
      → v.performance ≡ some p
      → record_validation now success v
        ≡ update_status (record v {
          performance = some (with_uptime (counted success p));
          last_active = if success then now else v.last_active;
          score = score_of (with_uptime (counted success p));
        })
  unfolding record_validation update_validator_score
  record_validation_lem now success v p e = rw e refl

  blocks_lem :
      (success : Bool) (b m : ℕ) (p : ValidatorPerformance F)
      → p.blocks_validated ≡ b
      → p.missed_validations ≡ m
      → b + m < 1000000000
      → ((counted success p).blocks_validated ≡ (if success then suc b else b))
        × ((counted success p).missed_validations ≡ (if success then m else suc m))
  blocks_lem true b m p f g small = (omega (arith, f, small), g)
  blocks_lem false b m p f g small = (f, omega (arith, g, small))

  -- What one more validation does to a validator that has a record.
  record_validation-Scored :
      UptimeBound fl
      → (now : ℤ) (success : Bool) (b m : ℕ) (v : Validator F) → Counts b m v
      → b + m < 1000000000
      → let b' = if success then suc b else b in
        let m' = if success then m else suc m in
        let v' = record_validation now success v in
        Counts b' m' v' × Scored b' m' v.status v' × (v'.slashed ≡ v.slashed)
  record_validation-Scored bound now success b m v (p, e, f, g) small =
      let b' = if success then suc b else b in
      let m' = if success then m else suc m in
      let next = with_uptime (counted success p) in
      let before = record v {
        performance = some next;
        last_active = if success then now else v.last_active;
        score = score_of next;
      } in
      let (validated, missed, low, high) =
        score_of-with_uptime bound b' m' (counted success p) (blocks_lem success b m p f g small).0
          (blocks_lem success b m p f g small).1 (ground arith) (ground (arith, small)) in
      let (performance, slashed, score, status) = update_status-keeps before in
      rw (record_validation_lem now success v p e) (
        (next, performance, validated, missed),
        (rw score status, (λ h. score ∙ low h), (λ h. rw score (high h))),
        slashed,
      )

  -- Successful validations at these times.
  abbrev pub successes : List ℤ → Validator F → Validator F
  successes [] v = v
  successes (now ∷ times) v = successes times (record_validation now true v)

  abbrev Ready : Validator F → Type 0
  Ready v = (v.status ≡ status_active) × (check_selection_eligibility v ≡ none)

  ready_lem :
      (b m status : ℕ) (v : Validator F)
      → (status == status_slashed) ≡ false
      → Scored b m status v
      → m * 20 + 100 ≤ b * 10
      → v.slashed ≡ false
      → Ready v
  unfolding check_selection_eligibility
  ready_lem b m status v n (state, _, high) h flag =
      let enough : ltb v.score 100 ≡ false = ground (arith, high h) in
      let active : v.status ≡ status_active = ground (arith, state, enough, n) in
      (active, rw (active, enough, flag) refl)

  not_slashed_lem :
      (b m status : ℕ) (v : Validator F)
      → (status == status_slashed) ≡ false
      → Scored b m status v
      → (v.status == status_slashed) ≡ false
  not_slashed_lem b m status v n (state, _, _) = rw state (ground (arith, n))

  successes-Ready :
      UptimeBound fl
      → (now : ℤ) (times : List ℤ) (b m : ℕ) (v : Validator F) → Counts b m v
      → (v.status == status_slashed) ≡ false
      → v.slashed ≡ false
      → b + m + length times < 1000000000
      → m * 20 + 100 ≤ (b + suc (length times)) * 10
      → Ready (successes (now ∷ times) v)
  successes-Ready bound now [] b m v counts n flag small h =
      let (_, scored, same) =
        record_validation-Scored bound now true b m v counts (omega (arith, small)) in
      ready_lem (suc b) m v.status (record_validation now true v) n scored (omega (arith, h))
        (same ∙ flag)
  successes-Ready bound now (next ∷ times) b m v counts n flag small h =
      let (counts', scored, same) =
        record_validation-Scored bound now true b m v counts (omega (arith, small)) in
      successes-Ready bound next times (suc b) m (record_validation now true v) counts'
        (not_slashed_lem (suc b) m v.status (record_validation now true v) n scored) (same ∙ flag)
        (omega (arith, small)) (omega (arith, h))

  -- A validator that has been slashed is ready again without Recover. Let it have `b` blocks validated and
  -- `m` missed, fewer than 10^9 in all with those that follow, and let its flag `slashed` be false, as the
  -- slashing manager leaves it. After one missed validation, which sets its score to 0 where 10 b is
  -- less than 20 (m + 1), and then successful ones until 10 times the validated ones are at least 20 times
  -- the missed ones and 100 more, its status is active and CheckSelectionEligibility returns no error. The
  -- share of validated blocks in float64, where there are blocks, is at most a hundred per cent.
  pub record_validation-Ready :
      UptimeBound fl
      → (missed_at now : ℤ) (times : List ℤ) (b m : ℕ) (v : Validator F) → Counts b m v
      → v.status ≡ status_slashed
      → v.slashed ≡ false
      → b * 10 < suc m * 20
      → b + suc m + length times < 1000000000
      → suc m * 20 + 100 ≤ (b + suc (length times)) * 10
      → ((successes (now ∷ times) (record_validation missed_at false v)).status ≡ status_active)
        × (check_selection_eligibility
              (successes (now ∷ times) (record_validation missed_at false v))
            ≡ none)
  record_validation-Ready bound missed_at now times b m v counts state flag low small h =
      let (counts', (state', zero_score, _), same) =
        record_validation-Scored bound missed_at false b m v counts (omega (arith, small)) in
      successes-Ready bound now times b (suc m) (record_validation missed_at false v) counts'
        (rw state' (ground (arith, zero_score low))) (same ∙ flag) small h
