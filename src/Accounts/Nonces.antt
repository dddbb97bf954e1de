-- ===== src/Accounts/Nonces.antt =====
-- Nonces of blockchain/account_state.go, in memory and after the manager is started again over the same
-- database.
use hybridblockchain.Common.{
  ℕ, ◌≡◌, refl, sym, ◌∙◌, ap, none, some, [], Text, ◌==◌, add64, lookup, insert, lookup-insert_self,
  ℤ, Float64, Option-cases, inl, inr, arith,
}
use hybridblockchain.Accounts.{
  AccountState, AccountManager, AccountStore, account_key, save_account_state, load_account_state,
  get_account_state, update_nonce, validate_nonce, unix,
}

-- Documented behaviour: what is put is got, and JSON of an account is read back as it was written.
pub record AccountStoreLaws {F D : Type 0} (st : AccountStore F D) : Type 0 where
  pub get-put : (k v : Text) (d e : D) → st.put k v d ≡ some e → st.get k e ≡ some v
  pub unmarshal-marshal :
      (s : AccountState F) (t : Text)
      → st.marshal_account s ≡ some t
      → st.unmarshal_account t ≡ some s

module _ {F D : Type 0} (st : AccountStore F D) where
  load-save :
      AccountStoreLaws st
      → (s : AccountState F) (d e : D) → save_account_state st s d ≡ some e
      → load_account_state st s.address e ≡ some s
  unfolding save_account_state load_account_state
  load-save laws s d e h = elim (Option-cases (st.marshal_account s)) [
    | inl f ↦ ground (arith, h, f)
    | inr (bytes, f) ↦
        let put : st.put (account_key s.address) bytes d ≡ some e =
          sym (rw (save_account_state, f) refl) ∙ h in
        rw (load_account_state, laws.get-put (account_key s.address) bytes d e put)
          (laws.unmarshal-marshal s bytes f)
  ]

  module _ ⦃fl : Float64 F⦄ where
    validate_nonce-memory :
        (address : Text) (nonce : ℕ) (am : AccountManager F D) (s : AccountState F)
        → lookup address am.accounts ≡ some s
        → validate_nonce st address nonce am ≡ (am, nonce == add64 s.nonce 1)
    unfolding validate_nonce get_account_state
    validate_nonce-memory address nonce am s h = rw (validate_nonce, get_account_state, h) refl

    validate_nonce-database :
        (address : Text) (nonce : ℕ) (am : AccountManager F D) (s : AccountState F)
        → lookup address am.accounts ≡ none
        → load_account_state st address am.db ≡ some s
        → (validate_nonce st address nonce am).1 ≡ (nonce == add64 s.nonce 1)
    unfolding validate_nonce get_account_state
    validate_nonce-database address nonce am s h k =
        rw (validate_nonce, get_account_state, h, k) refl

    -- Where UpdateNonce returns a nonce, it is one more than that of the account, modulo 2^64, and from then
    -- on ValidateNonce accepts the number after it, and no other, both in this manager and in one that
    -- starts with no accounts in memory over the same database. The account that GetAccountState returns
    -- bears the address it was asked for, the database gives back what was put in it, and JSON is read back
    -- as it was written.
    pub update_nonce-restart :
        AccountStoreLaws st
        → (now : ℤ) (address : Text) (n x : ℕ) (am after : AccountManager F D)
        → (get_account_state st address am).1.address ≡ address
        → update_nonce st now address am ≡ (after, some n)
        → (n ≡ add64 (get_account_state st address am).1.nonce 1)
          × ((validate_nonce st address x after).1 ≡ (x == add64 n 1))
          × ((validate_nonce st address x (record after { accounts = [] })).1 ≡ (x == add64 n 1))
    unfolding update_nonce
    update_nonce-restart laws now address n x am after same h =
        let got = get_account_state st address am in
        let s = record got.1 { nonce = add64 got.1.nonce 1; last_activity = unix now } in
        elim (Option-cases (save_account_state st s got.0.db)) [
          | inl f ↦
              let failed : (update_nonce st now address am).1 ≡ none = rw (update_nonce, f) refl in
              ground (arith, h, failed)
          | inr (d, f) ↦
              let stored = record got.0 { accounts = insert address s got.0.accounts; db = d } in
              let done : update_nonce st now address am ≡ (stored, some s.nonce) =
                rw (update_nonce, f) refl in
              let number : n ≡ s.nonce = ground (arith, sym h ∙ done) in
              let state : after ≡ stored = ap (λ r. r.0) (sym h ∙ done) in
              let in_db : load_account_state st address d ≡ some s =
                ap (λ a. load_account_state st a d) (sym same) ∙ load-save laws s got.0.db d f in
              rw (state, number)
                (
                  refl,
                  ap (λ r. r.1)
                      (validate_nonce-memory address x stored s
                        (lookup-insert_self address s got.0.accounts)),
                  validate_nonce-database address x (record stored { accounts = [] }) s
                      (unfold lookup in refl) in_db,
                )
        ]
