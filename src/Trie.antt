-- ===== src/Trie.antt =====
-- blockchain/patricia_trie.go. A node's Parent pointers are used by MarkDirty alone, which walks
-- from the node that Insert has reached back to the root: here it walks the same key from the
-- root. The mutexes guard single steps and are left out. The field Key is never set.
pub mod Search
pub mod Contents
use hybridblockchain.Common.{
  ℕ, ◌+◌, Bool, true, false, ◌&&◌, Option, none, some, List, [], ◌∷◌, ◌++◌, Text, text_eq,
  hex_encode, ◌==◌, if◌then◌else◌, is_some, Crypto,
}
use hybridblockchain.Tx.{Transaction}

-- A node with its fields Value, Hash, IsLeaf, hashCache and Children. The order of the children
-- stands for the order in which one run ranges over the map.
mutual
  pub data PatriciaNode (F : Type 0) : Type 0 where
    node : Option (Transaction F) → Text → Bool → Text → Children F → PatriciaNode F

  pub data Children (F : Type 0) : Type 0 where
    no_child : Children F
    child : ℕ → PatriciaNode F → Children F → Children F

module _ {F : Type 0} where
  -- `&PatriciaNode{Children: make(...), IsLeaf: false}`
  abbrev pub new_node : PatriciaNode F
  new_node = node none [] false [] no_child

  -- NewPatriciaTrie
  abbrev pub root : PatriciaNode F
  root = new_node

  unfoldable pub find_child : ℕ → Children F → Option (PatriciaNode F)
  find_child b no_child = none
  find_child b (child c n cs) = if c == b then some n else find_child b cs

  unfoldable pub set_child : ℕ → PatriciaNode F → Children F → Children F
  set_child b m no_child = child b m no_child
  set_child b m (child c n cs) = if c == b then child b m cs else child c n (set_child b m cs)

  -- The child to which the loop of Insert moves on: the one that is there, or a new one.
  abbrev pub open_path : ℕ → Children F → PatriciaNode F
  open_path b cs = elim (find_child b cs) [ none ↦ new_node | some n ↦ n ]

  -- The loop of Insert over the bytes of the key, and the assignments to the node it ends at.
  unfoldable pub insert_path : Text → Text → Transaction F → PatriciaNode F → PatriciaNode F
  unfolding find_child set_child
  insert_path [] hash tx (node value h leaf cache cs) = node (some tx) hash true cache cs
  insert_path (b ∷ key) hash tx (node value h leaf cache cs) =
      node value h leaf cache (set_child b (insert_path key hash tx (open_path b cs)) cs)

  -- MarkDirty: the cache is emptied at every node between the root and the node of the key.
  unfoldable pub mark_dirty : Text → PatriciaNode F → PatriciaNode F
  unfolding find_child set_child
  mark_dirty [] (node value h leaf cache cs) = node value h leaf [] cs
  mark_dirty (b ∷ key) (node value h leaf cache cs) =
      node value h leaf []
        (elim (find_child b cs) [ none ↦ cs | some n ↦ set_child b (mark_dirty key n) cs ])

  -- Transaction IDs are hashed to the bytes of the path.
  module _ (crypto : Crypto F) where
    unfoldable pub trie_key : Text → Text
    trie_key txid = crypto.sha256 txid

    -- Insert
    unfoldable pub insert_tx : Transaction F → PatriciaNode F → PatriciaNode F
    unfolding trie_key
    insert_tx tx t =
        let key = trie_key tx.transaction_id in
        mark_dirty key (insert_path key (hex_encode key) tx t)

    -- InsertBatch
    unfoldable pub insert_batch : List (Transaction F) → PatriciaNode F → PatriciaNode F
    insert_batch [] t = t
    insert_batch (tx ∷ txs) t = insert_batch txs (insert_tx tx t)

  -- The walk of GetTransaction and Search: `none` where a child is missing.
  unfoldable pub get_transaction_at : Text → PatriciaNode F → Option (PatriciaNode F)
  unfolding find_child
  get_transaction_at [] n = some n
  get_transaction_at (b ∷ key) (node value h leaf cache cs) = elim (find_child b cs) [
    | none ↦ none
    | some n ↦ get_transaction_at key n
  ]

  abbrev pub node_value : PatriciaNode F → Option (Transaction F)
  node_value (node value h leaf cache cs) = value

  abbrev pub value_of : Option (PatriciaNode F) → Option (Transaction F)
  value_of none = none
  value_of (some n) = node_value n

  abbrev pub value_at : Text → PatriciaNode F → Option (Transaction F)
  value_at key t = value_of (get_transaction_at key t)

  module _ (crypto : Crypto F) where
    -- GetTransaction: the node, and whether it holds a transaction.
    unfoldable pub get_transaction : Text → PatriciaNode F → Option (PatriciaNode F) × Bool
    unfolding get_transaction_at trie_key
    get_transaction txid t = elim (get_transaction_at (trie_key crypto txid) t) [
      | none ↦ (none, false)
      | some n ↦ (some n, is_some (node_value n))
    ]

    -- Search; its second result says whether the first is not nil.
    unfoldable pub search_trie : Text → PatriciaNode F → Option (Transaction F)
    unfolding get_transaction_at trie_key
    search_trie txid t = value_at (trie_key crypto txid) t

  module _ (crypto : Crypto F) where
    abbrev pub digest : Text → Text
    digest bytes = hex_encode (crypto.sha256 bytes)

    -- computeHash: the hash, and the tree with the caches that the call has filled. Go fixes no order
    -- for the range over the children: they stand in the order in which this run takes them, which
    -- another run, or another trie of the same transactions, need not share.
    unfoldable mutual
      pub compute_hash : PatriciaNode F → Text × PatriciaNode F
      compute_hash (node value h leaf cache cs) =
          let (combined, cs') = compute_hashes cs in
          if text_eq cache []
          then if leaf
            then (h, node value h leaf h cs)
            else (digest combined, node value h leaf (digest combined) cs')
          else (cache, node value h leaf cache cs)

      pub compute_hashes : Children F → Text × Children F
      compute_hashes no_child = ([], no_child)
      compute_hashes (child b n cs) =
          let (hash, n') = compute_hash n in
          let (rest, cs') = compute_hashes cs in (hash ++ rest, child b n' cs')

    -- GenerateRootHash
    unfoldable pub generate_root_hash : PatriciaNode F → Text × PatriciaNode F
    unfolding compute_hash
    generate_root_hash (node value h leaf cache no_child) =
        (digest [], node value h leaf cache no_child)
    generate_root_hash (node value h leaf cache (child b n cs)) =
        compute_hash (node value h leaf cache (child b n cs))

  abbrev pub own_tx : Bool → Option (Transaction F) → List (Transaction F)
  own_tx true (some tx) = tx ∷ []
  own_tx true none = []
  own_tx false _ = []

  -- GetAllTransactions and Len
  unfoldable mutual
    pub get_all : PatriciaNode F → List (Transaction F)
    get_all (node value h leaf cache cs) = own_tx leaf value ++ get_all_children cs

    pub get_all_children : Children F → List (Transaction F)
    get_all_children no_child = []
    get_all_children (child b n cs) = get_all n ++ get_all_children cs

  unfoldable mutual
    pub count_tx : PatriciaNode F → ℕ
    count_tx (node value h leaf cache cs) =
        (if leaf && is_some value then 1 else 0) + count_children cs

    pub count_children : Children F → ℕ
    count_children no_child = 0
    count_children (child b n cs) = count_tx n + count_children cs
