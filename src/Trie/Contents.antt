-- ===== src/Trie/Contents.antt =====
-- What GetAllTransactions and Len report of the trie.
use hybridblockchain.Common.{
  ℕ, suc, ◌+◌, ◌≡◌, refl, Bool, true, false, ◌&&◌, not, Option, none, some, [], ◌∷◌, Text, ◌==◌,
  if◌then◌else◌, hex_encode, is_some, length, length-append, Bool-cases, Option-cases, inl, inr,
  Crypto, arith,
}
use hybridblockchain.Tx.{Transaction}
use hybridblockchain.Trie.{
  PatriciaNode, Children, node, no_child, child, find_child, set_child, open_path, insert_path,
  mark_dirty, insert_tx, get_transaction_at, value_at, search_trie, get_all, get_all_children,
  count_tx, count_children,
}
use hybridblockchain.Trie.Search.{value_at-node, value_at-open_path}

abbrev pub one_if : Bool → ℕ
one_if true = 1
one_if false = 0

module _ {F : Type 0} where
  mutual
    unfolding get_all count_tx

    count_tx-length : (n : PatriciaNode F) → count_tx n ≡ length (get_all n)
    count_tx-length (node (some tx) h true c cs) = omega (arith, count_children-length cs)
    count_tx-length (node (some tx) h false c cs) = omega (arith, count_children-length cs)
    count_tx-length (node none h true c cs) = omega (arith, count_children-length cs)
    count_tx-length (node none h false c cs) = omega (arith, count_children-length cs)

    count_children-length : (cs : Children F) → count_children cs ≡ length (get_all_children cs)
    count_children-length no_child = refl
    count_children-length (child b n cs) = omega (
      arith,
      count_tx-length n,
      count_children-length cs,
      length-append (get_all n) (get_all_children cs),
    )

  -- Len is the number of transactions that GetAllTransactions lists, for every tree.
  pub count_tx-length-get_all : (t : PatriciaNode F) → count_tx t ≡ length (get_all t)
  count_tx-length-get_all t = count_tx-length t

  -- A node that holds a transaction is marked as a leaf.
  abbrev mutual
    pub IsMarked : PatriciaNode F → Type 0
    IsMarked (node v h leaf c cs) = (is_some v ≡ true → leaf ≡ true) × AreMarked cs

    pub AreMarked : Children F → Type 0
    AreMarked no_child = Unit
    AreMarked (child b n cs) = IsMarked n × AreMarked cs

  set_child-AreMarked :
      (b : ℕ) (m : PatriciaNode F) (cs : Children F)
      → IsMarked m
      → AreMarked cs
      → AreMarked (set_child b m cs)
  unfolding set_child
  set_child-AreMarked b m no_child k ks = (k, tt)
  set_child-AreMarked b m (child d n cs) k ks = elim (Bool-cases (d == b)) [
    | inl e ↦ rw e (k, ks.1)
    | inr e ↦ rw e (ks.0, set_child-AreMarked b m cs k ks.1)
  ]

  open_path-IsMarked : (b : ℕ) (cs : Children F) → AreMarked cs → IsMarked (open_path b cs)
  unfolding find_child
  open_path-IsMarked b no_child ks = ((λ e. cc), tt)
  open_path-IsMarked b (child d n cs) ks = elim (Bool-cases (d == b)) [
    | inl e ↦ rw (e, open_path) ks.0
    | inr e ↦ rw (e, open_path) (open_path-IsMarked b cs ks.1)
  ]

  insert_path-IsMarked :
      (key hash : Text) (tx : Transaction F) (t : PatriciaNode F)
      → IsMarked t
      → IsMarked (insert_path key hash tx t)
  unfolding insert_path
  insert_path-IsMarked [] hash tx (node v h leaf c cs) k = ((λ _. refl), k.1)
  insert_path-IsMarked (b ∷ key) hash tx (node v h leaf c cs) k = (
    k.0,
    set_child-AreMarked b _ cs
        (insert_path-IsMarked key hash tx (open_path b cs) (open_path-IsMarked b cs k.1)) k.1,
  )

  find_child-IsMarked :
      (b : ℕ) (n : PatriciaNode F) (cs : Children F)
      → find_child b cs ≡ some n
      → AreMarked cs
      → IsMarked n
  find_child-IsMarked b n cs e ks = rw (e, open_path) at (open_path-IsMarked b cs ks)

  mark_dirty-IsMarked : (key : Text) (t : PatriciaNode F) → IsMarked t → IsMarked (mark_dirty key t)
  unfolding mark_dirty
  mark_dirty-IsMarked [] (node v h leaf c cs) k = k
  mark_dirty-IsMarked (b ∷ key) (node v h leaf c cs) k = elim (Option-cases (find_child b cs)) [
    | inl e ↦ rw (e, mark_dirty) k
    | inr (n, e) ↦
        rw (e, mark_dirty)
          (
            k.0,
            set_child-AreMarked b (mark_dirty key n) cs
                (mark_dirty-IsMarked key n (find_child-IsMarked b n cs e k.1)) k.1,
          )
  ]

  abbrev count_found : Option (PatriciaNode F) → ℕ
  count_found none = 0
  count_found (some n) = count_tx n

  count_children-set_child :
      (b : ℕ) (m : PatriciaNode F) (cs : Children F)
      → count_children (set_child b m cs) + count_found (find_child b cs)
        ≡ count_children cs + count_tx m
  unfolding set_child find_child count_tx
  count_children-set_child b m no_child = omega arith
  count_children-set_child b m (child d n cs) = elim (Bool-cases (d == b)) [
    | inl e ↦ rw e (omega arith)
    | inr e ↦ rw e (omega (arith, count_children-set_child b m cs))
  ]

  count_tx-open_path :
      (b : ℕ) (cs : Children F) → count_tx (open_path b cs) ≡ count_found (find_child b cs)
  count_tx-open_path b cs = elim (Option-cases (find_child b cs)) [
    | inl e ↦ rw (e, open_path) (unfold count_tx in refl)
    | inr (n, e) ↦ rw (e, open_path) refl
  ]

  count_tx-node :
      (v : Option (Transaction F)) (h : Text) (leaf : Bool) (c : Text) (cs : Children F)
      → count_tx (node v h leaf c cs) ≡ (if leaf && is_some v then 1 else 0) + count_children cs
  unfolding count_tx
  count_tx-node v h leaf c cs = refl

  count_tx-insert_path :
      (key hash : Text) (tx : Transaction F) (t : PatriciaNode F)
      → IsMarked t
      → count_tx (insert_path key hash tx t) + one_if (is_some (value_at key t)) ≡ suc (count_tx t)
  unfolding insert_path get_transaction_at
  count_tx-insert_path [] hash tx (node (some old) h true c cs) k = unfold count_tx in omega arith
  count_tx-insert_path [] hash tx (node (some old) h false c cs) k = cc (k.0 refl)
  count_tx-insert_path [] hash tx (node none h true c cs) k = unfold count_tx in omega arith
  count_tx-insert_path [] hash tx (node none h false c cs) k = unfold count_tx in omega arith
  count_tx-insert_path (b ∷ key) hash tx (node v h leaf c cs) k = ground (
    arith,
    count_tx-node v h leaf c cs,
    count_tx-node v h leaf c (set_child b (insert_path key hash tx (open_path b cs)) cs),
    count_children-set_child b (insert_path key hash tx (open_path b cs)) cs,
    count_tx-open_path b cs,
    value_at-node b key v h leaf c cs,
    value_at-open_path b key cs,
    count_tx-insert_path key hash tx (open_path b cs) (open_path-IsMarked b cs k.1),
  )

  -- Where the path is there, MarkDirty replaces a subtree by one of the same size.
  count_tx-mark_dirty : (key : Text) (t : PatriciaNode F) → count_tx (mark_dirty key t) ≡ count_tx t
  unfolding mark_dirty
  count_tx-mark_dirty [] (node v h leaf c cs) = unfold count_tx in refl
  count_tx-mark_dirty (b ∷ key) (node v h leaf c cs) = elim (Option-cases (find_child b cs)) [
    | inl e ↦ rw (e, mark_dirty) (unfold count_tx in refl)
    | inr (n, e) ↦ ground (
      arith,
      count_tx-node v h leaf c cs,
      count_tx-node v h leaf [] (set_child b (mark_dirty key n) cs),
      count_children-set_child b (mark_dirty key n) cs,
      count_tx-mark_dirty key n,
    )
  ]

  module _ (crypto : Crypto F) where
    -- Insert keeps every node that holds a transaction marked as a leaf.
    pub insert_tx-IsMarked :
        (tx : Transaction F) (t : PatriciaNode F) → IsMarked t → IsMarked (insert_tx crypto tx t)
    unfolding insert_tx
    insert_tx-IsMarked tx t k =
        let key = crypto.sha256 tx.transaction_id in
        mark_dirty-IsMarked key (insert_path key (hex_encode key) tx t)
          (insert_path-IsMarked key (hex_encode key) tx t k)

    -- Where every stored transaction is marked as a leaf, Insert raises the length of
    -- GetAllTransactions by one, unless Search finds a transaction under the ID before: that one is
    -- replaced, and the length stays.
    pub length-get_all-insert_tx :
        (tx : Transaction F) (t : PatriciaNode F)
        → IsMarked t
        → length (get_all (insert_tx crypto tx t))
          ≡ length (get_all t) + one_if (not (is_some (search_trie crypto tx.transaction_id t)))
    unfolding insert_tx search_trie
    length-get_all-insert_tx tx t k =
        let key = crypto.sha256 tx.transaction_id in
        ground (
          arith,
          count_tx-length t,
          count_tx-length (mark_dirty key (insert_path key (hex_encode key) tx t)),
          count_tx-mark_dirty key (insert_path key (hex_encode key) tx t),
          count_tx-insert_path key (hex_encode key) tx t k,
        )
