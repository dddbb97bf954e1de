-- ===== src/Chain/Mining/Search.antt =====
-- What MineBlock of blockchain/block.go finds, and that it finds it.
use hybridblockchain.Common.{
  ℕ, zero, suc, ◌+◌, ◌*◌, ◌↔◌, ◌/◌, ◌<◌, ◌≡◌, refl, sym, ◌∙◌, ap, true, false, Option, none, some,
  List, [], ◌∷◌, if◌then◌else◌, Text, text_eq_iff, ==_iff, ltb, Crypto, add64, u64_mod, length,
  GoMap, Bool-cases, inl, inr, arith,
}
use hybridblockchain.Trie.{get_all}
use hybridblockchain.Chain.{Block, calculate_hash, is_hash_valid}
use hybridblockchain.Chain.Mining.{
  MiningError, insufficient_validations, with_nonce, with_difficulty, mine_loop, Answer,
  with_validator, note_answer, ask_validators, mine_block, all_valid, accepts_block,
}

-- The number of positive answers.
abbrev pub count_valid : List (Option Answer) → ℕ
count_valid [] = 0
count_valid (none ∷ answers) = count_valid answers
count_valid (some answer ∷ answers) =
    let rest = count_valid answers in if answer.valid then suc rest else rest

module _ {F : Type 0} where
  -- Nothing but the validator and its signature in the header differs.
  abbrev pub Noted : Block F → Block F → Type 0
  Noted b noted =
      (address : Text) × (signature : Text) × (noted ≡ with_validator address signature b)

  ask_validators-Noted :
      (given : List (Option Answer)) (b : Block F) (count : ℕ)
      → Noted b (ask_validators given b count).0
        × ((ask_validators given b count).1 ≡ count + count_valid given)
  unfolding ask_validators note_answer
  ask_validators-Noted [] b count =
      ((b.header.validated_by, b.header.validator_sig, refl), omega arith)
  ask_validators-Noted (none ∷ given) b count = ask_validators-Noted given b count
  ask_validators-Noted (some answer ∷ given) b count = elim (Bool-cases answer.valid) [
    | inl e ↦
        let later =
          ask_validators-Noted given
            (with_validator answer.address
              (elim answer.signature [ none ↦ b.header.validator_sig | some s ↦ s ]) b)
            (suc count) in
        rw e (later.0, omega (arith, later.1))
    | inr e ↦ rw e (ask_validators-Noted given b count)
  ]

module _ {F : Type 0} (crypto : Crypto F) where
  -- The block as mined: only the nonce and the hash differ, and the hash is a valid one of the block.
  abbrev pub Mined : ℕ → Block F → Block F → Type 0
  Mined difficulty b mined =
      (n : ℕ) × (mined ≡ record (with_nonce n b) { hash = calculate_hash crypto (with_nonce n b) })
      × (is_hash_valid (calculate_hash crypto (with_nonce n b)) difficulty ≡ true)

  mine_loop-Mined :
      (fuel difficulty : ℕ) (b mined : Block F)
      → mine_loop crypto fuel difficulty b ≡ some mined
      → Mined difficulty b mined
  unfolding mine_loop
  mine_loop-Mined zero difficulty b mined h = ground (arith, h)
  mine_loop-Mined (suc fuel) difficulty b mined h =
      elim (Bool-cases (is_hash_valid (calculate_hash crypto b) difficulty)) [
        | inl e ↦ (b.header.nonce, ground (arith, h, e), e)
        | inr e ↦
            mine_loop-Mined fuel difficulty (with_nonce (add64 b.header.nonce 1) b) mined
              (ground (arith, h, e))
      ]

  mine_loop-total :
      (k difficulty : ℕ) (b : Block F)
      → b.header.nonce + k < u64_mod
      → is_hash_valid (calculate_hash crypto (with_nonce (b.header.nonce + k) b)) difficulty ≡ true
      → (mined : Block F) × (mine_loop crypto (suc k) difficulty b ≡ some mined)
  unfolding mine_loop
  mine_loop-total zero difficulty b small h =
      let here : is_hash_valid (calculate_hash crypto b) difficulty ≡ true =
        ap (λ n. is_hash_valid (calculate_hash crypto (with_nonce n b)) difficulty)
          (omega (arith, small))
        ∙ h in
      (record b { hash = calculate_hash crypto b }, rw here refl)
  mine_loop-total (suc k) difficulty b small h =
      elim (Bool-cases (is_hash_valid (calculate_hash crypto b) difficulty)) [
        | inl e ↦ (record b { hash = calculate_hash crypto b }, rw e refl)
        | inr e ↦
            let next = with_nonce (add64 b.header.nonce 1) b in
            let same : b.header.nonce + suc k ≡ add64 b.header.nonce 1 + k = omega (arith, small) in
            let found = mine_loop-total k difficulty next (omega (arith, small)) (
              sym (ap (λ n. is_hash_valid (calculate_hash crypto (with_nonce n b)) difficulty) same)
              ∙ h) in
            (found.0, rw e found.1)
      ]

  -- The answers are enough where more than half of them are positive.
  majority :
      (given : List (Option Answer)) (n : ℕ)
      → n ≡ count_valid given
      → (ltb n (length given / 2 + 1) ≡ false) ↔ (length given < 2 * count_valid given)
  majority given n e = ((λ h. ground (arith, h, e)), (λ h. ground (arith, h, e)))

  accepts_block-Mined :
      (keys : GoMap Text) (difficulty : ℕ) (b mined noted previous : Block F)
      → Mined difficulty (with_difficulty difficulty b) mined
      → Noted mined noted
      → b.header.block_number ≡ add64 previous.header.block_number 1
      → b.header.previous_hash ≡ previous.hash
      → accepts_block crypto keys noted previous ≡ all_valid crypto keys (get_all b.transactions)
  unfolding accepts_block
  accepts_block-Mined keys difficulty b mined noted previous (n, same, valid) (a, s, k) number
        parent =
      ap (λ m. accepts_block crypto keys m previous) (k ∙ ap (with_validator a s) same)
      ∙ rw ((==_iff _ _).1 number, (text_eq_iff _ _).1 parent, valid) refl

  -- Where one of the nonces from the block's own on, without wrapping, gives the block with the wanted
  -- difficulty a hash with that many zeros, MineBlock ends after so many rounds of its loop. It then
  -- returns no error exactly where more than half of the validators' answers are positive. The loop
  -- changes difficulty, nonce and hash alone, and the answers ValidatedBy and ValidatorSig alone.
  -- ValidateBlock, after a block whose hash the block names and whose number comes before its own, comes
  -- out as the check of its transactions does.
  pub mine_block-Mined :
      (k difficulty : ℕ) (given : List (Option Answer)) (keys : GoMap Text) (b previous : Block F)
      → b.header.nonce + k < u64_mod
      → is_hash_valid
          (calculate_hash crypto (with_nonce (b.header.nonce + k) (with_difficulty difficulty b)))
          difficulty
        ≡ true
      → b.header.block_number ≡ add64 previous.header.block_number 1
      → b.header.previous_hash ≡ previous.hash
      → (mined : Block F) × (noted : Block F) × (e : Option MiningError) × (mine_block crypto
            (suc k)
            difficulty
            (some given)
            b
          ≡ some (noted, e))
        × Mined difficulty (with_difficulty difficulty b) mined
        × Noted mined noted
        × ((e ≡ none) ↔ (length given < 2 * count_valid given))
        × (accepts_block crypto keys noted previous
            ≡ all_valid crypto keys (get_all b.transactions))
  unfolding mine_block
  mine_block-Mined k difficulty given keys b previous small h number parent =
      let (mined, found) = mine_loop-total k difficulty (with_difficulty difficulty b) small h in
      let mines = mine_loop-Mined (suc k) difficulty (with_difficulty difficulty b) mined found in
      let asked = ask_validators given mined 0 in
      let (noted, counted) = ask_validators-Noted given mined 0 in
      let accepted =
        accepts_block-Mined keys difficulty b mined asked.0 previous mines noted number parent in
      let enough = majority given asked.1 (omega (arith, counted)) in
      elim (Bool-cases (ltb asked.1 (length given / 2 + 1))) [
        | inl e ↦ (
          mined,
          asked.0,
          some insufficient_validations,
          rw (mine_block, found, e) refl,
          mines,
          noted,
          ((λ p. ground (arith, p)), (λ p. ground (arith, e, enough.1 p))),
          accepted,
        )
        | inr e ↦ (
          mined,
          asked.0,
          none,
          rw (mine_block, found, e) refl,
          mines,
          noted,
          ((λ _. enough.0 e), (λ _. refl)),
          accepted,
        )
      ]
