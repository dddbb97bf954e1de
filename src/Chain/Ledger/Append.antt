-- ===== src/Chain/Ledger/Append.antt =====
-- Which blocks AddBlockWithUTXOProcessing of blockchain/blockchain.go appends.
use hybridblockchain.Common.{
  ℕ, ◌%◌, ◌≡◌, refl, sym, ap, ◌∙◌, ◌⊎◌, inl, inr, true, Option, none, some, is_some, List, map, [],
  ◌∷◌, ◌++◌, text_eq, text_eq_iff, ◌==◌, ==_iff, Crypto, u64_mod, length, ℤ, Float64, Bool-cases,
  Option-cases, arith,
}
use hybridblockchain.Trie.{get_all}
use hybridblockchain.Storage.{Call, returns, Storage}
use hybridblockchain.Utxo.{UtxoPool, calculate_merkle_root}
use hybridblockchain.Utxo.Sets.{PoolError}
use hybridblockchain.Utxo.Calls.{process_block_transactions}
use hybridblockchain.Utxo.Block.{SameMaps, add_each, process_block_transactions-add_each}
use hybridblockchain.Chain.{Block, block_hash, calculate_hash}
use hybridblockchain.Chain.Json.{BlockJson}
use hybridblockchain.Chain.Forks.{last_block}
use hybridblockchain.Chain.Ledger.{
  Blockchain, ChainError, hash_stored, append_error, add_block_without_validation,
  validate_block_hash, chain_sees, invalid_block_hash, get_latest_block, store_block,
}
use hybridblockchain.Chain.Ledger.Calls.{
  link_error, validate_block, process_block_utxos, add_block_with_utxo_processing,
}

map-pair :
    {A : Type 0} (now : ℤ) (xs : List A) → map (λ (t : ℤ × A). t.1) (map (λ x. (now, x)) xs) ≡ xs
map-pair now [] = refl
map-pair now (x ∷ xs) = ap (λ ys. x ∷ ys) (map-pair now xs)

module _ {F : Type 0} (crypto : Crypto F) where
  append_error-none :
      (b latest : Block F) (chain : List (Block F))
      → last_block chain ≡ some latest
      → append_error crypto b chain ≡ none
      → (block_hash crypto b ≡ (hash_stored crypto b).hash)
        × (b.header.block_number ≡ length chain % u64_mod)
        × (b.header.previous_hash ≡ block_hash crypto latest)
  unfolding append_error
  append_error-none b latest chain l e =
      elim (Bool-cases (text_eq (block_hash crypto b) (hash_stored crypto b).hash)) [
        | inr f ↦ ground (arith, e, f)
        | inl f ↦ elim (Bool-cases (b.header.block_number == length chain % u64_mod)) [
          | inr g ↦ ground (arith, e, f, g)
          | inl g ↦ elim (Bool-cases (text_eq b.header.previous_hash (block_hash crypto latest))) [
            | inr k ↦ ground (arith, e, f, g, k, l)
            | inl k ↦ ((text_eq_iff _ _).0 f, (==_iff _ _).0 g, (text_eq_iff _ _).0 k)
          ]
        ]
      ]

  -- The block is the one after `latest` and number `n`, and both ways of hashing it agree.
  abbrev pub Linked : Block F → ℕ → Block F → Type 0
  Linked latest n b =
      (calculate_hash crypto b ≡ block_hash crypto b)
      × (block_hash crypto b ≡ (hash_stored crypto b).hash)
      × (b.header.previous_hash ≡ block_hash crypto latest)
      × (b.header.block_number ≡ n % u64_mod)

  validate_block_hash_iff :
      (b : Block F)
      → validate_block_hash crypto b ≡ true
      → calculate_hash crypto b ≡ block_hash crypto b
  unfolding validate_block_hash
  validate_block_hash_iff b h = (text_eq_iff _ _).0 h

module _ {F D : Type 0} where
  abbrev pub Refused : Blockchain F D → Call (Blockchain F D × Option ChainError) → Type 0
  Refused bc called = (e : ChainError) × (called ≡ returns (bc, some e))

module _ {F D : Type 0} ⦃fl : Float64 F⦄ (crypto : Crypto F) (st : Storage F D) where
  -- The pool after the block: the outputs that AddUTXO leaves which is called for each transaction,
  -- with their Merkle root.
  abbrev pub Processed : ℤ → Block F → UtxoPool F D → Blockchain F D → Type 0
  Processed now b pool bc =
      (p : UtxoPool F D) × (q : UtxoPool F D) × (d : D) × (bc.utxo_pool ≡ some p)
      × (add_each crypto st b.header.block_number (map (λ tx. (now, tx)) (get_all b.transactions))
            (record pool { db = some d })
          ≡ returns q)
      × SameMaps p q
      × (p.merkle_root ≡ calculate_merkle_root crypto q.utxos)

  abbrev pub Appended :
      ℤ
      → Block F
      → Block F
      → UtxoPool F D
      → Blockchain F D
      → Call (Blockchain F D × Option ChainError)
      → Type 0
  Appended now b latest pool bc called =
      (after : Blockchain F D) × (e : Option ChainError) × (called ≡ returns (after, e))
      × (after.chain ≡ bc.chain ++ hash_stored crypto b ∷ [])
      × Linked crypto latest (length bc.chain) b
      × ((is_some e ≡ true) ⊎ Processed now b pool after)

module _ {F D : Type 0} ⦃fl : Float64 F⦄ (crypto : Crypto F) (js : BlockJson F)
    (st : Storage F D) where
  process_block_utxos-Processed :
      (now : ℤ) (b : Block F) (bc : Blockchain F D) (pool : UtxoPool F D) (d : D)
      → bc.utxo_pool ≡ some (record pool { db = some d })
      → (after : Blockchain F D) × (e : Option PoolError) × (process_block_utxos crypto js st now b
            bc
          ≡ returns (after, e))
        × (after.chain ≡ bc.chain)
        × Processed crypto st now b pool after
  unfolding process_block_utxos
  process_block_utxos-Processed now b bc pool d h =
      let txs = get_all b.transactions in
      let (p, e, q, f, g, same, merkle) =
        process_block_transactions-add_each crypto st now b.header.block_number
          (block_hash crypto b) (map (λ tx. (now, tx)) txs) (record pool { db = some d }) refl in
      let called =
        sym (
          ap
            (λ ts.
              process_block_transactions crypto st now
                (some (b.header.block_number, block_hash crypto b, ts))
                (record pool { db = some d }))
            (map-pair now txs))
        ∙ f in
      (
        record bc { utxo_pool = some p; db = chain_sees p bc.db },
        e,
        rw (process_block_utxos, h, called) refl,
        refl,
        (p, q, d, refl, g, same, merkle),
      )

  add_block_without_validation-cases :
      (b : Block F) (bc : Blockchain F D) (pool : UtxoPool F D) (d d' : D)
      → bc.db ≡ some d
      → bc.utxo_pool ≡ some pool
      → pool.db ≡ some d'
      → ((e : ChainError) × (append_error crypto b bc.chain ≡ some e)
          × (add_block_without_validation crypto js st b bc ≡ (bc, some e)))
        ⊎ ((append_error crypto b bc.chain ≡ none)
            × (d'' : D) × ((add_block_without_validation crypto js st b bc).0.chain
                ≡ bc.chain ++ hash_stored crypto b ∷ [])
            × ((add_block_without_validation crypto js st b bc).0.utxo_pool
                ≡ some (record pool { db = some d'' })))
  unfolding add_block_without_validation
  add_block_without_validation-cases b bc pool d d' h k l =
      elim (Option-cases (append_error crypto b bc.chain)) [
        | inr (e, f) ↦ inl (e, f, rw (add_block_without_validation, f) refl)
        | inl f ↦ inr (
          f,
          (store_block crypto js st (hash_stored crypto b) d).0,
          rw (add_block_without_validation, f, h) refl,
          rw (add_block_without_validation, f, h, k, l) refl,
        )
      ]

  validate_block-none :
      (b latest : Block F) (bc : Blockchain F D)
      → last_block bc.chain ≡ some latest
      → (((e : ChainError) × (validate_block crypto js st b bc ≡ returns (some e)))
          ⊎ ((validate_block crypto js st b bc ≡ returns none)
              × (calculate_hash crypto b ≡ block_hash crypto b)))
  unfolding validate_block get_latest_block
  validate_block-none b latest bc l = elim (Bool-cases (validate_block_hash crypto b)) [
    | inr f ↦ inl (invalid_block_hash, rw f refl)
    | inl f ↦ elim (Option-cases (link_error crypto b latest)) [
      | inl g ↦ inr (rw (f, l, g) refl, validate_block_hash_iff crypto b f)
      | inr (e, g) ↦ inl (e, rw (f, l, g) refl)
    ]
  ]

  -- Where the chain has a last block and both it and its UTXO pool have a database,
  -- AddBlockWithUTXOProcessing returns, and there are two cases. Either it names an error and nothing has
  -- changed. Or the block stands at the end of the chain, with its hash stored; its hash is the one of its header, it names the
  -- last block's hash, and its number is the length that the chain had, modulo 2^64; and either an
  -- error is named, or the pool's outputs are those that AddUTXO leaves which is called for each transaction
  -- of the block, with their Merkle root.
  pub add_block_with_utxo_processing-Appended :
      (now : ℤ) (b latest : Block F) (bc : Blockchain F D) (pool : UtxoPool F D) (d d' : D)
      → last_block bc.chain ≡ some latest
      → bc.db ≡ some d
      → bc.utxo_pool ≡ some pool
      → pool.db ≡ some d'
      → Refused bc (add_block_with_utxo_processing crypto js st now b bc)
        ⊎ Appended crypto st now b latest pool bc
            (add_block_with_utxo_processing crypto js st now b bc)
  unfolding add_block_with_utxo_processing
  add_block_with_utxo_processing-Appended now b latest bc pool d d' l h k m =
      elim (validate_block-none b latest bc l) [
        | inl (e, f) ↦ inl (e, rw (add_block_with_utxo_processing, f) refl)
        | inr (f, hash) ↦ elim (add_block_without_validation-cases b bc pool d d' h k m) [
          | inl (e, _, g) ↦ inl (e, rw (add_block_with_utxo_processing, f, g) (ap returns g))
          | inr (g, d'', c, u) ↦
              let (stored, number, parent) = append_error-none crypto b latest bc.chain l g in
              let linked : Linked crypto latest (length bc.chain) b =
                (hash, stored, parent, number) in
              let added = add_block_without_validation crypto js st b bc in
              elim (Option-cases added.1) [
                | inr (error, i) ↦ inr (
                  added.0,
                  some error,
                  rw (add_block_with_utxo_processing, f, i) (ap (λ x. returns (added.0, x)) i),
                  c,
                  linked,
                  inl refl,
                )
                | inl i ↦
                    let (after, _, p, same, done) =
                      process_block_utxos-Processed now b added.0 pool d'' u in
                    inr (
                      after,
                      none,
                      rw (add_block_with_utxo_processing, f, i, p) refl,
                      same ∙ c,
                      linked,
                      inr done,
                    )
              ]
        ]
      ]
