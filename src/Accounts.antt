-- ===== src/Accounts.antt =====
-- AccountManager and AccountCache of blockchain/account_state.go. The accounts in memory are shared
-- pointers: a change through one is a change of the map's entry. `now` is time.Now() in nanoseconds.
-- encoding/json and the database's batches are records that the definitions take. The tickers of the
-- two background loops are left out: a definition is one round.
pub mod Nonces
use hybridblockchain.Common.{
  ℕ, ◌+◌, ◌/◌, ◌*◌, Bool, true, false, not, Option, none, some, List, [], ◌∷◌, ◌++◌, Text, codes,
  ◌==◌, if◌then◌else◌, add64, GoMap, lookup, insert, erase, ℤ, pos, negsuc, ltb_ℤ, ◌-ℤ◌, Float64,
  float,
}
use hybridblockchain.StakePool.{second}

pub record AccountState (F : Type 0) : Type 0 where
  pub address : Text
  pub nonce : ℕ
  pub balance : F
  pub last_activity : ℤ
  pub utxos : GoMap Text
  pub pending_txs : GoMap Bool

pub record AccountCache (F : Type 0) : Type 0 where
  pub balances : GoMap F
  pub last_updated : GoMap ℤ
  pub max_age : ℤ

pub record AccountManager (F D : Type 0) : Type 0 where
  pub accounts : GoMap (AccountState F)
  pub cache : AccountCache F
  pub db : D

-- Put and Get of the database, a batch of puts that is written at once, and JSON of an account; `none`
-- is an error, after which the database is as before.
pub record AccountStore (F D : Type 0) : Type 0 where
  pub put : Text → Text → D → Option D
  pub get : Text → D → Option Text
  pub write_batch : List (Text × Text) → D → Option D
  pub marshal_account : AccountState F → Option Text
  pub unmarshal_account : Text → Option (AccountState F)

-- time.Time.Unix, and the time of such seconds
abbrev pub unix : ℤ → ℤ
unix (pos n) = pos (n / second)
unix (negsuc n) = negsuc (n / second)

abbrev pub at_second : ℤ → ℤ
at_second (pos n) = pos (n * second)
at_second (negsuc n) = pos 0 -ℤ pos (second + n * second)

abbrev pub account_key : Text → Text
account_key address = codes "acc:" ++ address

module _ {F D : Type 0} (st : AccountStore F D) where
  -- saveAccountState and loadAccountState
  unfoldable pub save_account_state : AccountState F → D → Option D
  save_account_state s d = elim (st.marshal_account s) [
    | none ↦ none
    | some bytes ↦ st.put (account_key s.address) bytes d
  ]

  unfoldable pub load_account_state : Text → D → Option (AccountState F)
  load_account_state address d = elim (st.get (account_key address) d) [
    | none ↦ none
    | some bytes ↦ st.unmarshal_account bytes
  ]

  module _ ⦃fl : Float64 F⦄ where
    abbrev new_account : Text → AccountState F
    new_account address = record {
      address = address;
      nonce = 0;
      balance = float 0;
      last_activity = pos 0;
      utxos = [];
      pending_txs = [];
    }

    abbrev saved_or_same : AccountState F → D → D
    saved_or_same s d = elim (save_account_state s d) [ none ↦ d | some e ↦ e ]

    -- GetAccountState, which never returns an error: whatever fails in loading gives a new account,
    -- which is saved over the old one.
    unfoldable pub get_account_state :
        Text → AccountManager F D → AccountManager F D × AccountState F
    unfolding save_account_state load_account_state
    get_account_state address am = elim (lookup address am.accounts) [
      | some s ↦ (am, s)
      | none ↦ elim (load_account_state address am.db) [
        | some s ↦ (record am { accounts = insert address s am.accounts }, s)
        | none ↦ (
          record am {
            accounts = insert address (new_account address) am.accounts;
            db = saved_or_same (new_account address) am.db;
          },
          new_account address,
        )
      ]
    ]

    -- UpdateNonce: the new nonce, or none where the state is not saved. Memory has it all the same.
    unfoldable pub update_nonce : ℤ → Text → AccountManager F D → AccountManager F D × Option ℕ
    unfolding get_account_state save_account_state
    update_nonce now address am =
        let got = get_account_state address am in
        let s = record got.1 { nonce = add64 got.1.nonce 1; last_activity = unix now } in
        let am' = record got.0 { accounts = insert address s got.0.accounts } in
        elim (save_account_state s am'.db) [
          | none ↦ (am', none)
          | some d ↦ (record am' { db = d }, some s.nonce)
        ]

    -- ValidateNonce
    unfoldable pub validate_nonce : Text → ℕ → AccountManager F D → AccountManager F D × Bool
    unfolding get_account_state
    validate_nonce address nonce am =
        let got = get_account_state address am in (got.0, nonce == add64 got.1.nonce 1)

  -- The loop of BatchUpdateAccounts: the manager, and the puts or none where marshalling fails.
  unfoldable pub batch_accounts :
      ℤ
      → GoMap (AccountState F)
      → List (Text × Text)
      → AccountManager F D
      → AccountManager F D × Option (List (Text × Text))
  batch_accounts now [] puts am = (am, some puts)
  batch_accounts now ((addr, s) ∷ updates) puts am = elim (st.marshal_account s) [
    | none ↦ (am, none)
    | some bytes ↦ batch_accounts now updates (puts ++ (account_key addr, bytes) ∷ []) (record am {
      accounts = insert addr s am.accounts;
      cache = record am.cache {
        balances = insert addr s.balance am.cache.balances;
        last_updated = insert addr (unix now) am.cache.last_updated;
      };
    })
  ]

  -- BatchUpdateAccounts, and whether it succeeded
  unfoldable pub batch_update_accounts :
      ℤ → GoMap (AccountState F) → AccountManager F D → AccountManager F D × Bool
  unfolding batch_accounts
  batch_update_accounts now updates am =
      let looped = batch_accounts now updates [] am in
      elim looped.1 [
        | none ↦ (looped.0, false)
        | some puts ↦ elim (st.write_batch puts looped.0.db) [
          | none ↦ (looped.0, false)
          | some d ↦ (record looped.0 { db = d }, true)
        ]
      ]

  -- A round of periodicStateUpdate: the accounts that have not been active for an hour are saved.
  unfoldable pub save_inactive : ℤ → GoMap (AccountState F) → D → D
  unfolding save_account_state
  save_inactive now [] d = d
  save_inactive now ((addr, s) ∷ rest) d = save_inactive now rest (
      if ltb_ℤ (pos (3600 * second)) (now -ℤ at_second s.last_activity)
      then (elim (save_account_state s d) [ none ↦ d | some e ↦ e ])
      else d)

module _ {F : Type 0} where
  -- AccountCache.GetBalance
  unfoldable pub cached_balance : ℤ → Text → AccountCache F → Option F
  cached_balance now address c = elim (lookup address c.last_updated) [
    | none ↦ none
    | some last ↦
        if ltb_ℤ c.max_age (now -ℤ at_second last) then none else lookup address c.balances
  ]

  -- A round of periodicCacheCleanup over the entries.
  unfoldable pub cleanup_cache : ℤ → GoMap ℤ → AccountCache F → AccountCache F
  cleanup_cache now [] c = c
  cleanup_cache now ((addr, last) ∷ rest) c = cleanup_cache now rest (
      if ltb_ℤ (pos (5 * 60)) (unix now -ℤ last)
      then record c { balances = erase addr c.balances; last_updated = erase addr c.last_updated }
      else c)
