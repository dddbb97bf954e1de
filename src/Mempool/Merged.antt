-- ===== src/Mempool/Merged.antt =====
-- What the merge of SyncWithPeer of blockchain/mempool.go makes of two lists of transactions.
use mathlib.Core.List.{Nodup, Nodup-cons}
use mathlib.Core.List.Perm
use hybridblockchain.Common.{
  ◌≡◌, refl, ◌∙◌, ap, true, false, ◌||◌, List, [], ◌∷◌, ◌++◌, Text, text_eq_iff, All, Bool-cases,
  inl, inr, arith,
}
use hybridblockchain.Tx.{Transaction}
use hybridblockchain.Mempool.{Mempool, has_id}
use hybridblockchain.Mempool.Ids.{ids, has_id-Mem, append-perm}
use hybridblockchain.Mempool.Sync.{merge_peer, sync_with_peer}

module _ {F : Type 0} where
  has_id-append :
      (k : Text) (xs ys : List (Transaction F)) → has_id k (xs ++ ys) ≡ (has_id k xs || has_id k ys)
  unfolding has_id
  has_id-append k [] ys = refl
  has_id-append k (x ∷ xs) ys = ground (arith, has_id-append k xs ys)

  append_assoc : (xs ys zs : List (Transaction F)) → (xs ++ ys) ++ zs ≡ xs ++ (ys ++ zs)
  append_assoc [] ys zs = refl
  append_assoc (x ∷ xs) ys zs = ap (λ r. x ∷ r) (append_assoc xs ys zs)

  Nodup-append_one :
      (p : Transaction F) (txs : List (Transaction F))
      → has_id p.transaction_id txs ≡ false
      → Nodup (ids txs)
      → Nodup (ids (txs ++ p ∷ []))
  Nodup-append_one p txs e d =
      Perm.nodup
        (Perm.symm (Perm.map (λ (t : Transaction F). t.transaction_id) (append-perm p txs)))
        (Nodup-cons.1 (has_id-Mem p.transaction_id txs e, d))

  merge_peer-keeps :
      (k : Text) (peer txs : List (Transaction F))
      → has_id k txs ≡ true
      → has_id k (merge_peer peer txs) ≡ true
  unfolding merge_peer
  merge_peer-keeps k [] txs h = h
  merge_peer-keeps k (p ∷ peer) txs h = elim (Bool-cases (has_id p.transaction_id txs)) [
    | inl e ↦ rw (merge_peer, e) (merge_peer-keeps k peer txs h)
    | inr e ↦
        rw (merge_peer, e)
          (merge_peer-keeps k peer (txs ++ p ∷ [])
            (ground (arith, has_id-append k txs (p ∷ []), h)))
  ]

  -- `merged` is `txs` with others behind, has every ID of `peer`, and no ID twice.
  pub record IsMerge (peer txs merged : List (Transaction F)) : Type 0 where
    pub added : List (Transaction F)
    pub merged-append : merged ≡ txs ++ added
    pub has_peer : All (λ p. has_id p.transaction_id merged ≡ true) peer
    pub distinct : Nodup (ids merged)

  has_id-last :
      (p : Transaction F) (txs : List (Transaction F))
      → has_id p.transaction_id (txs ++ p ∷ []) ≡ true
  unfolding has_id
  has_id-last p [] = ground (arith, text_eq_iff p.transaction_id p.transaction_id)
  has_id-last p (t ∷ txs) = ground (arith, has_id-last p txs)

  append_nil : (xs : List (Transaction F)) → xs ≡ xs ++ []
  append_nil [] = refl
  append_nil (x ∷ xs) = ap (λ r. x ∷ r) (append_nil xs)

  merge_peer-IsMerge :
      (peer txs : List (Transaction F)) → Nodup (ids txs) → IsMerge peer txs (merge_peer peer txs)
  unfolding merge_peer
  merge_peer-IsMerge [] txs d = record {
    added = [];
    merged-append = append_nil txs;
    has_peer = tt;
    distinct = d;
  }
  merge_peer-IsMerge (p ∷ peer) txs d = elim (Bool-cases (has_id p.transaction_id txs)) [
    | inl e ↦
        let rest = merge_peer-IsMerge peer txs d in
        rw (merge_peer, e)
          (record {
            added = rest.added;
            merged-append = rest.merged-append;
            has_peer = (merge_peer-keeps p.transaction_id peer txs e, rest.has_peer);
            distinct = rest.distinct;
          })
    | inr e ↦
        let more = txs ++ p ∷ [] in
        let rest = merge_peer-IsMerge peer more (Nodup-append_one p txs e d) in
        rw (merge_peer, e)
          (record {
            added = p ∷ rest.added;
            merged-append = rest.merged-append ∙ append_assoc txs (p ∷ []) rest.added;
            has_peer =
                (merge_peer-keeps p.transaction_id peer more (has_id-last p txs), rest.has_peer);
            distinct = rest.distinct;
          })
  ]

  -- If no ID stands twice in a mempool, SyncWithPeer keeps its transactions, adds others behind so
  -- that every ID of the peer is there, and no ID stands twice afterwards, even if the peer's list
  -- repeats one.
  pub sync_with_peer-IsMerge :
      (peer : List (Transaction F)) (m : Mempool F)
      → Nodup (ids m.transactions)
      → IsMerge peer m.transactions (sync_with_peer peer m).transactions
  unfolding sync_with_peer
  sync_with_peer-IsMerge peer m d = merge_peer-IsMerge peer m.transactions d
