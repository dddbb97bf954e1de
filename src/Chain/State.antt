-- ===== src/Chain/State.antt =====
-- State of blockchain/state.go, its updates by blocks and its check.
use hybridblockchain.Common.{
  ℕ, ◌-◌, ◌*◌, ◌/◌, ◌≤◌, ◌<◌, ◌≡◌, true, false, not, Option, none, some, is_some, List, [], ◌∷◌,
  length, All, Text, ltb, if◌then◌else◌, add64, mul64, u64_mod, ℤ, Float64, float, decimal_literal,
  Crypto, arith,
}
use hybridblockchain.Trie.{get_all}
use hybridblockchain.Accounts.{at_second}
use hybridblockchain.Chain.{Block, block_hash}

pub record State : Type 0 where
  pub height : ℕ
  pub last_block_hash : Text
  pub last_block_time : ℤ
  pub total_transactions : ℕ
  pub total_blocks : ℕ
  pub total_supply : ℕ
  pub utxo_set_root : Text
  pub utxo_count : ℕ
  pub state_root : Text
  pub validator_root : Text
  pub difficulty : ℕ
  pub gas_price : ℕ
  pub network_version : ℕ
  pub last_update : ℤ

pub data StateError : Type 0 where
  too_few_blocks invalid_difficulty invalid_gas_price : StateError

-- NewState
unfoldable pub new_state : ℤ → State
new_state now = record {
  height = 0;
  last_block_hash = [];
  last_block_time = now;
  total_transactions = 0;
  total_blocks = 0;
  total_supply = 0;
  utxo_set_root = [];
  utxo_count = 0;
  state_root = [];
  validator_root = [];
  difficulty = 1;
  gas_price = 1000;
  network_version = 1;
  last_update = now;
}

-- Validate; a height is never below 0.
unfoldable pub validate_state : State → Option StateError
validate_state s =
    if ltb s.total_blocks s.height
    then some too_few_blocks
    else if ltb s.difficulty 1
    then some invalid_difficulty
    else if ltb s.gas_price 1
    then some invalid_gas_price
    else none

module _ {F : Type 0} ⦃fl : Float64 F⦄ where
  abbrev usage : Block F → F
  usage b = fl.div (float b.header.gas_used) (float b.header.gas_limit)

  -- The price of gas after a block.
  unfoldable pub next_gas_price : Block F → ℕ → ℕ
  next_gas_price b price =
      if not (ltb 0 b.header.gas_used)
      then price
      else if fl.lt (decimal_literal 8 10) (usage b)
      then mul64 price 110 / 100
      else if fl.lt (usage b) (decimal_literal 3 10)
      then mul64 price 90 / 100
      else price

  -- UpdateWithBlock
  unfoldable pub update_with_block : Crypto F → ℤ → Block F → State → State
  unfolding block_hash next_gas_price
  update_with_block crypto now b s = record s {
    height = b.header.block_number;
    last_block_hash = block_hash crypto b;
    last_block_time = at_second b.header.timestamp;
    total_blocks = add64 s.total_blocks 1;
    total_transactions = add64 s.total_transactions (length (get_all b.transactions));
    last_update = now;
    difficulty = b.header.difficulty;
    gas_price = next_gas_price b s.gas_price;
  }

  -- The updates by blocks in turn, each at its time.
  abbrev pub update_with_blocks : Crypto F → List (ℤ × Block F) → State → State
  update_with_blocks crypto [] s = s
  update_with_blocks crypto ((now, b) ∷ bs) s =
      update_with_blocks crypto bs (update_with_block crypto now b s)

  -- A block that uses gas, but less than three tenths of its limit.
  abbrev pub LowUse : ℤ × Block F → Type 0
  LowUse e =
      (0 < e.1.header.gas_used)
      × (fl.lt (decimal_literal 8 10) (usage e.1) ≡ false)
      × (fl.lt (usage e.1) (decimal_literal 3 10) ≡ true)

  next_gas_price-LowUse :
      (e : ℤ × Block F) (price : ℕ)
      → LowUse e
      → price * 90 < u64_mod
      → next_gas_price e.1 price ≡ price * 90 / 100
  unfolding next_gas_price
  next_gas_price-LowUse e price (used, high, low) small =
      let some_gas : ltb 0 e.1.header.gas_used ≡ true = ground (arith, used) in
      rw (some_gas, high, low) (omega (arith, small))

  gas_price-update_with_blocks :
      (crypto : Crypto F) (bs : List (ℤ × Block F)) (s : State)
      → All LowUse bs
      → s.gas_price * 90 < u64_mod
      → (update_with_blocks crypto bs s).gas_price ≤ s.gas_price - length bs
  unfolding update_with_block
  gas_price-update_with_blocks crypto [] s h small = omega arith
  gas_price-update_with_blocks crypto ((now, b) ∷ bs) s (low, rest) small =
      let price = next_gas_price-LowUse (now, b) s.gas_price low small in
      omega (
        arith,
        price,
        gas_price-update_with_blocks crypto bs (update_with_block crypto now b s) rest
            (omega (arith, price, small)),
      )

  -- After as many blocks as the price of gas was, or more, each of which uses gas but less than three
  -- tenths of its limit, and where 90 times that price is below 2^64, the price is 0 and Validate returns
  -- an error.
  pub validate_state-LowUse :
      (crypto : Crypto F) (bs : List (ℤ × Block F)) (s : State)
      → All LowUse bs
      → s.gas_price * 90 < u64_mod
      → s.gas_price ≤ length bs
      → ((update_with_blocks crypto bs s).gas_price ≡ 0)
        × (is_some (validate_state (update_with_blocks crypto bs s)) ≡ true)
  unfolding validate_state
  validate_state-LowUse crypto bs s h small long =
      let price : (update_with_blocks crypto bs s).gas_price ≡ 0 =
        omega (arith, gas_price-update_with_blocks crypto bs s h small, long) in
      (price, ground (arith, price))
