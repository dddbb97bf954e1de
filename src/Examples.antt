-- ===== src/Examples.antt =====
-- Concrete inputs on which the theorems' hypotheses hold: numbers as floats, and parameters that are
-- simple functions in place of the hash, the signatures and the database.
pub mod Chain
pub mod Pools
pub mod Stakes
pub mod Votes
pub mod Forks
pub mod Ledgers
pub mod Guards
pub mod Payments
pub mod Rewards
use hybridblockchain.Common.{
  panics, ℕ, ◌+◌, ◌-◌, ◌*◌, ◌/◌, ◌%◌, ◌≡◌, refl, Bool, true, false, not, Option, none, some, List,
  [], ◌∷◌, ◌++◌, ap, Text, codes, text_eq, text_eq_iff, decimal, take, drop, length, ltb, leb, ◌==◌,
  u64_mod, ℤ, pos, GoMap, lookup, insert, lookup-insert_self, lookup-insert_ne, Float64, IeeeOrder,
  Crypto, arith, inl, inr, ◌⊎◌, Bool-cases, negsuc,
}
use hybridblockchain.Accounts.{AccountState, AccountManager, AccountStore}
use hybridblockchain.Tx.{
  Transaction, TransactionInput, TransactionOutput, Utxo, tx_coinbase, tx_hash, utxo_key,
}
use hybridblockchain.Storage.{Storage, StorageLaws, UtxoSnapshot}
use hybridblockchain.Utxo.{UtxoPool}
use hybridblockchain.Mempool.{Mempool}

-- Floats as whole numbers.
instance abbrev pub whole : Float64 ℕ
whole = record {
  add = λ a b. a + b;
  sub = λ a b. a - b;
  mul = λ a b. a * b;
  div = λ a b. a / b;
  lt = ltb;
  le = leb;
  eq = λ a b. a == b;
  is_nan = λ a. false;
  of_uint64 = λ n. n;
  to_uint64 = λ n. n % u64_mod;
}

whole_cotrans : (a b c : ℕ) → ltb a c ≡ true → (ltb a b ≡ true) ⊎ (ltb b c ≡ true)
whole_cotrans a b c h = elim (Bool-cases (ltb a b)) [
  | inl e ↦ inl e
  | inr e ↦ inr (ground (arith, e, h))
]

pub whole-IeeeOrder : IeeeOrder whole
whole-IeeeOrder = record {
  lt_irrefl = λ a. ground arith;
  lt_trans = λ a b c h k. ground (arith, h, k);
  lt_cotrans = λ a b c n h. whole_cotrans a b c h;
  lt_le_trans = λ a b c h k. ground (arith, h, k);
  le_iff = λ a b n m. ground arith;
}

-- A hash that is the identity, and signatures that are the digest itself.
abbrev pub plain : Crypto ℕ
plain = record {
  sha256 = λ bytes. bytes;
  on_curve = λ key. true;
  ecdsa_verify = λ key digest r s. text_eq digest (r ++ s);
  ecdsa_verify_nil = λ digest r s. panics;
  hex_decode = λ text. some text;
  strip_zeros = λ bytes. bytes;
  format_f6 = decimal;
  format_f8 = decimal;
}

-- A database that is a map. Snapshots are written with a time from 1970 on and no outputs, as the
-- height, the time, the length of the hash, the hash, and the root.
abbrev write_snapshot : UtxoSnapshot ℕ → Option Text
write_snapshot s = elim s.utxos [
  | [] ↦ elim s.timestamp [
    | pos n ↦ some (s.block_height ∷ n ∷ length s.block_hash ∷ s.block_hash ++ s.merkle_root)
    | negsuc n ↦ none
  ]
  | _ ∷ _ ↦ none
]

abbrev read_snapshot : Text → Option (UtxoSnapshot ℕ)
read_snapshot (h ∷ n ∷ l ∷ rest) = some (record {
  block_height = h;
  block_hash = take l rest;
  utxos = [];
  merkle_root = drop l rest;
  timestamp = pos n;
})
read_snapshot _ = none

-- Accounts with no outputs and no pending transactions, active since 1970, are written as three numbers
-- and their address.
abbrev pub write_account : AccountState ℕ → Option Text
write_account s = elim s.utxos [
  | _ ∷ _ ↦ none
  | [] ↦ elim s.pending_txs [
    | _ ∷ _ ↦ none
    | [] ↦ elim s.last_activity [
      | negsuc _ ↦ none
      | pos n ↦ some (s.nonce ∷ s.balance ∷ n ∷ s.address)
    ]
  ]
]

abbrev pub read_account : Text → Option (AccountState ℕ)
read_account (nonce ∷ balance ∷ n ∷ address) = some (record {
  address = address;
  nonce = nonce;
  balance = balance;
  last_activity = pos n;
  utxos = [];
  pending_txs = [];
})
read_account _ = none

abbrev pub accounts_store : AccountStore ℕ (GoMap Text)
accounts_store = record {
  put = λ k v d. some (insert k v d);
  get = lookup;
  write_batch = λ puts d. some (puts ++ d);
  marshal_account = write_account;
  unmarshal_account = read_account;
}

abbrev pub no_accounts : AccountManager ℕ (GoMap Text)
no_accounts = record {
  accounts = [];
  cache = record { balances = []; last_updated = []; max_age = pos 300 };
  db = [];
}

abbrev pub memory : Storage ℕ (GoMap Text)
memory = record {
  put = λ k v d. some (insert k v d);
  get = lookup;
  marshal_utxos = λ m. some [];
  unmarshal_utxos = λ t. some [];
  marshal_snapshot = write_snapshot;
  unmarshal_snapshot = read_snapshot;
  accounts = accounts_store;
}

take-append : (xs ys : Text) → take (length xs) (xs ++ ys) ≡ xs
take-append [] ys = refl
take-append (x ∷ xs) ys = ap (λ zs. x ∷ zs) (take-append xs ys)

drop-append : (xs ys : Text) → drop (length xs) (xs ++ ys) ≡ ys
drop-append [] ys = refl
drop-append (x ∷ xs) ys = drop-append xs ys

read_snapshot-write_snapshot :
    (s : UtxoSnapshot ℕ) (t : Text) → write_snapshot s ≡ some t → read_snapshot t ≡ some s
read_snapshot-write_snapshot s t h =
    ground
      (arith, h, take-append s.block_hash s.merkle_root, drop-append s.block_hash s.merkle_root)

pub memory-StorageLaws : StorageLaws memory
memory-StorageLaws = record {
  get-put = λ k v d e h. ground (arith, h, lookup-insert_self k v d);
  get-put_ne = λ k j v d e h n. ground (arith, h, lookup-insert_ne k j v d n);
  unmarshal-marshal = read_snapshot-write_snapshot;
}

abbrev pub alice : Text
alice = codes "alice"

abbrev pub bob : Text
bob = codes "bob"

-- A coinbase that gives Alice 50, and a payment of 30 from her to Bob, signed.
abbrev pub reward_tx : Transaction ℕ
reward_tx = record {
  transaction_id = codes "a";
  sender = codes "BLOCKCHAIN";
  receiver = alice;
  amount = 50;
  timestamp = pos 1;
  nonce = 0;
  gas_fee = 0;
  inputs = [];
  outputs = (record { receiver = alice; amount = 50; script_pub_key = [] }) ∷ [];
  tx_type = tx_coinbase;
  gas_limit = 0;
  gas_price = 0;
  gas_used = 0;
  priority = pos 0;
  max_fee_per_gas = 0;
  tx_data = [];
  signature = [];
  sender_pub_key = [];
}

abbrev unsigned_tx : Transaction ℕ
unsigned_tx = record reward_tx {
  transaction_id = codes "b";
  sender = alice;
  receiver = bob;
  amount = 30;
  timestamp = pos 2;
  gas_fee = 2;
  inputs = (record { transaction_id = codes "a"; output_index = pos 0; signature = [] }) ∷ [];
  outputs =
      (record { receiver = bob; amount = 30; script_pub_key = [] })
      ∷ (record { receiver = alice; amount = 20; script_pub_key = [] })
      ∷ [];
  tx_type = pos 0;
  gas_limit = 21000;
  gas_price = 10;
  max_fee_per_gas = 10;
}

abbrev pub payment_tx : Transaction ℕ
payment_tx = record unsigned_tx { signature = tx_hash plain unsigned_tx }

abbrev pub public_keys : GoMap Text
public_keys = (alice, codes "key") ∷ []

-- The output of the reward, and a pool that holds it.
abbrev pub alice_utxo : Utxo ℕ
alice_utxo = record {
  transaction_id = codes "a";
  output_index = pos 0;
  amount = 50;
  owner = alice;
  spent = false;
  block_height = 0;
  timestamp = pos 0;
  script_pub_key = [];
}

abbrev pub one_utxo : GoMap (Utxo ℕ)
one_utxo = (codes "a-0", alice_utxo) ∷ []

abbrev pub small_pool : UtxoPool ℕ (GoMap Text)
small_pool = record {
  utxos = one_utxo;
  merkle_root = codes "root";
  last_verified_state = [];
  last_update_time = pos 0;
  updates = [];
  deletions = [];
  db = some [];
  node = some no_accounts;
  snapshots = [];
}
