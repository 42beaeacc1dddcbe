-- ===== src/Mpt/Counts.antt =====
-- pkg/core/mpt/trie.go: what Put and Delete do to the reference counts.
use epicchain_go.Common.{
  ℕ, ◌+◌, ◌^◌, ◌%◌, List, [], length, ltb, ◌==◌, ◌≡◌, refl, inl, inr, ◌⊎◌, some, arith, Bool-cases,
  bytes_eq, lookup,
}
use epicchain_go.Mpt.Node.{Node}
use epicchain_go.Mpt.Get.{max_key_length, to_nibbles, key_is_too_big, done, failed, panicked}
use epicchain_go.Mpt.Put.{Ref, Put, max_value_length, put_into_node, put, root_after, put_root}
use epicchain_go.Mpt.Delete.{
  Delete, becomes, stuck, delete_from_node, delete_result, delete, delete_root,
}
use epicchain_go.Mpt.View.{IsTrie}
use epicchain_go.Mpt.PutLaw.{put_into_node-Written}
use epicchain_go.Mpt.PutFork.{Written}
use epicchain_go.Mpt.DeleteLaw.{Removed, delete_from_node-Removed}
use epicchain_go.Mpt.Totals.{total, plus, minus, has_hash}
use epicchain_go.Mpt.Balance.{Balanced, put_into_node-Balanced}
use epicchain_go.Mpt.DeleteBalance.{Kept, delete_from_node-Kept}
use epicchain_go.Mpt.Refcount.{Refcounts, apply_refs, count_of, apply_refs-count}
use epicchain_go.Mpt.Keys.{IsBytes, to_nibbles-IsPath}

-- What Put did is nothing, or what putIntoNode did.
put_is :
    (key v : List ℕ) (root : Node)
    → (((put key (some v) root).0 ≡ []) × (put_root key v root ≡ root))
      ⊎ (put key (some v) root ≡ put_into_node root (to_nibbles key) v)
unfolding put
put_is key v root = elim (Bool-cases (length key == 0)) [
  | inl no_bytes ↦ inl (rw no_bytes refl, rw no_bytes refl)
  | inr some_bytes ↦ elim (Bool-cases (ltb max_key_length (length key))) [
    | inl long ↦ inl (rw (some_bytes, long) refl, rw (some_bytes, long) refl)
    | inr short ↦ elim (Bool-cases (ltb max_value_length (length v))) [
      | inl big ↦ inl (rw (some_bytes, short, big) refl, rw (some_bytes, short, big) refl)
      | inr small ↦ inr (rw (some_bytes, short, small) refl)
    ]
  ]
]

delete_is :
    (key : List ℕ) (root : Node)
    → (delete key root ≡ ([], (some key_is_too_big, root)))
      ⊎ (delete key root ≡ (
        (delete_from_node root (to_nibbles key)).0,
        delete_result (delete_from_node root (to_nibbles key)).1,
      ))
unfolding delete
delete_is key root = elim (Bool-cases (ltb max_key_length (length key))) [
  | inl long ↦ inl (rw long refl)
  | inr short ↦ inr (rw short refl)
]

module _ (sha : List ℕ → List ℕ) where
  -- The calls account for what becomes of the trie.
  abbrev Accounts : List ℕ → Node → List Ref → Node → Type 0
  Accounts h before refs after =
      plus (has_hash sha h) refs + total (has_hash sha h) before
      ≡ minus (has_hash sha h) refs + total (has_hash sha h) after

  put-Accounts :
      (h key v : List ℕ) (root : Node)
      → IsTrie sha root
      → IsBytes key
      → Accounts h root (put key (some v) root).0 (put_root key v root)
  put-Accounts h key v root t b = elim (put_is key v root) [
    | inl (e, same) ↦ rw (e, same) (unfold plus minus in omega arith)
    | inr e ↦ rw e (
        done_at (put_into_node root (to_nibbles key) v)
          (put_into_node-Written sha root (to_nibbles key) v t (to_nibbles-IsPath key b))
          (put_into_node-Balanced (has_hash sha h) sha root (to_nibbles key) v t
            (to_nibbles-IsPath key b)))
  ]
    where
      done_at :
          (res : Put)
          → Written sha root (to_nibbles key) v res
          → Balanced (has_hash sha h) (total (has_hash sha h) root) res
          → Accounts h root res.0 (root_after root res)
      done_at (refs, done r) w k = k
      done_at (refs, failed e) w k = cc w.is_done
      done_at (refs, panicked) w k = cc w.is_done

  delete-Accounts :
      (h key : List ℕ) (root : Node)
      → IsTrie sha root
      → IsBytes key
      → Accounts h root (delete key root).0 (delete_root key root)
  delete-Accounts h key root t b = elim (delete_is key root) [
    | inl e ↦ rw (delete_root, e) (unfold plus minus in omega arith)
    | inr e ↦
        rw (delete_root, e)
          (done_at (delete_from_node root (to_nibbles key))
            (delete_from_node-Removed sha root (to_nibbles key) t (to_nibbles-IsPath key b))
            (delete_from_node-Kept (has_hash sha h) root (to_nibbles key)
              (to_nibbles-IsPath key b)))
  ]
    where
      done_at :
          (res : Delete)
          → Removed sha root (to_nibbles key) res
          → Kept (has_hash sha h) (total (has_hash sha h) root) res
          → Accounts h root res.0 (delete_result res.1).1
      done_at (refs, becomes r) w k = k
      done_at (refs, stuck r) w k = cc w.holds.is_done

  -- On a trie whose nodes are all in the store Put and Delete move the reference count of every hash, which
  -- is an int32, by the change in the number of nodes with the hash.
  pub refcounts_lem :
      (encode : Node → List ℕ) (h key v : List ℕ) (root : Node) (m : Refcounts)
      → IsTrie sha root
      → IsBytes key
      → ((count_of (lookup h (apply_refs sha encode (put key (some v) root).0 m))
              + total (has_hash sha h) root)
            % 2 ^ 32
          ≡ (count_of (lookup h m) + total (has_hash sha h) (put_root key v root)) % 2 ^ 32)
        × ((count_of (lookup h (apply_refs sha encode (delete key root).0 m))
                + total (has_hash sha h) root)
              % 2 ^ 32
            ≡ (count_of (lookup h m) + total (has_hash sha h) (delete_root key root)) % 2 ^ 32)
  refcounts_lem encode h key v root m t b = (
    omega (
      arith,
      apply_refs-count sha encode (put key (some v) root).0 m h,
      put-Accounts h key v root t b,
    ),
    omega (
      arith,
      apply_refs-count sha encode (delete key root).0 m h,
      delete-Accounts h key root t b,
    ),
  )
