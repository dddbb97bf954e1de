-- ===== src/Trie/Search.antt =====
-- The trie as a map from hashed transaction IDs to transactions.
use hybridblockchain.Common.{
  ℕ, ◌≡◌, refl, Bool, Option, none, some, List, [], ◌∷◌, Text, text_eq, ◌==◌, if◌then◌else◌,
  hex_encode, Option-cases, inl, inr, Crypto, arith,
}
use hybridblockchain.Tx.{Transaction}
use hybridblockchain.Trie.{
  PatriciaNode, Children, node, no_child, child, new_node, find_child, set_child, open_path,
  insert_path, mark_dirty, trie_key, insert_tx, insert_batch, get_transaction_at, value_at,
  search_trie,
}

module _ {F : Type 0} where
  pub find_child-set_child :
      (b c : ℕ) (m : PatriciaNode F) (cs : Children F)
      → find_child c (set_child b m cs) ≡ (if b == c then some m else find_child c cs)
  unfolding find_child set_child
  find_child-set_child b c m no_child = refl
  find_child-set_child b c m (child d n cs) = ground (arith, find_child-set_child b c m cs)

  value_at-new_node : (key : Text) → value_at {F = F} key new_node ≡ none
  unfolding get_transaction_at
  value_at-new_node [] = refl
  value_at-new_node (b ∷ key) = refl

  abbrev pub value_in : Text → Option (PatriciaNode F) → Option (Transaction F)
  value_in key none = none
  value_in key (some n) = value_at key n

  -- One step of the walk.
  pub value_at-node :
      (b : ℕ) (key : Text) (v : Option (Transaction F)) (h : Text) (leaf : Bool) (c : Text)
      (cs : Children F)
      → value_at (b ∷ key) (node v h leaf c cs) ≡ value_in key (find_child b cs)
  unfolding get_transaction_at
  value_at-node b key v h leaf c cs = ground arith

  pub value_at-open_path :
      (b : ℕ) (key : Text) (cs : Children F)
      → value_at key (open_path b cs) ≡ value_in key (find_child b cs)
  value_at-open_path b key cs = elim (Option-cases (find_child b cs)) [
    | inl e ↦ rw (e, open_path) (value_at-new_node key)
    | inr (n, e) ↦ rw (e, open_path) refl
  ]

  -- A stored value is found at its own path, and the other paths keep theirs.
  pub value_at-insert_path :
      (key other hash : Text) (tx : Transaction F) (t : PatriciaNode F)
      → value_at other (insert_path key hash tx t)
        ≡ (if text_eq key other then some tx else value_at other t)
  unfolding insert_path text_eq
  value_at-insert_path [] [] hash tx (node v h leaf c cs) = unfold get_transaction_at in refl
  value_at-insert_path [] (x ∷ other) hash tx (node v h leaf c cs) =
      unfold get_transaction_at in refl
  value_at-insert_path (b ∷ key) [] hash tx (node v h leaf c cs) = unfold get_transaction_at in refl
  value_at-insert_path (b ∷ key) (x ∷ other) hash tx (node v h leaf c cs) = ground (
    arith,
    find_child-set_child b x (insert_path key hash tx (open_path b cs)) cs,
    value_at-node x other v h leaf c (set_child b (insert_path key hash tx (open_path b cs)) cs),
    value_at-node x other v h leaf c cs,
    value_at-insert_path key other hash tx (open_path b cs),
    value_at-open_path b other cs,
  )

  -- MarkDirty changes no value.
  pub value_at-mark_dirty :
      (key other : Text) (t : PatriciaNode F) → value_at other (mark_dirty key t) ≡ value_at other t
  unfolding mark_dirty
  value_at-mark_dirty [] [] (node v h leaf c cs) = unfold get_transaction_at in refl
  value_at-mark_dirty [] (x ∷ other) (node v h leaf c cs) = unfold get_transaction_at in refl
  value_at-mark_dirty (b ∷ key) [] (node v h leaf c cs) = unfold get_transaction_at in refl
  value_at-mark_dirty (b ∷ key) (x ∷ other) (node v h leaf c cs) =
      elim (Option-cases (find_child b cs)) [
        | inl e ↦
            ground
              (arith, value_at-node x other v h leaf c cs, value_at-node x other v h leaf [] cs)
        | inr (n, e) ↦ ground (
          arith,
          find_child-set_child b x (mark_dirty key n) cs,
          value_at-node x other v h leaf c cs,
          value_at-node x other v h leaf [] (set_child b (mark_dirty key n) cs),
          value_at-mark_dirty key other n,
        )
      ]

  module _ (crypto : Crypto F) where
    -- Search finds the transaction just inserted under its ID, and what it found before under an ID
    -- with another digest.
    pub search_trie-insert_tx :
        (txid : Text) (tx : Transaction F) (t : PatriciaNode F)
        → search_trie crypto txid (insert_tx crypto tx t) ≡ (
            if text_eq (trie_key crypto tx.transaction_id) (trie_key crypto txid)
            then some tx
            else search_trie crypto txid t)
    unfolding search_trie insert_tx
    search_trie-insert_tx txid tx t = ground (
      arith,
      value_at-mark_dirty (crypto.sha256 tx.transaction_id) (crypto.sha256 txid) (
          insert_path (crypto.sha256 tx.transaction_id)
            (hex_encode (crypto.sha256 tx.transaction_id)) tx t),
      value_at-insert_path (crypto.sha256 tx.transaction_id) (crypto.sha256 txid)
          (hex_encode (crypto.sha256 tx.transaction_id)) tx t,
    )

    -- The abstract map: the last transaction of the batch under a digest, or what was there before.
    abbrev pub latest :
        Text → List (Transaction F) → Option (Transaction F) → Option (Transaction F)
    latest txid [] found = found
    latest txid (tx ∷ txs) found = latest txid txs (
        if text_eq (trie_key crypto tx.transaction_id) (trie_key crypto txid)
        then some tx
        else found)

    -- After InsertBatch, Search gives for every ID the last transaction of the batch whose ID has
    -- the same digest, and where the batch has none what Search gave before.
    pub search_trie-insert_batch :
        (txid : Text) (txs : List (Transaction F)) (t : PatriciaNode F)
        → search_trie crypto txid (insert_batch crypto txs t)
          ≡ latest txid txs (search_trie crypto txid t)
    unfolding insert_batch
    search_trie-insert_batch txid [] t = refl
    search_trie-insert_batch txid (tx ∷ txs) t =
        rw (
          search_trie-insert_batch txid txs (insert_tx crypto tx t),
          search_trie-insert_tx txid tx t,
        )
