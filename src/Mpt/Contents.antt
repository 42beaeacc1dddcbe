-- ===== src/Mpt/Contents.antt =====
-- pkg/core/mpt/trie.go: Get, Put and Delete of a trie as a map of keys to values.
use epicchain_go.Common.{
  ℕ, ◌<◌, ◌≤◌, true, List, [], length, ltb, ◌==◌, if◌then◌else◌, ◌≡◌, refl, ◌∙◌, inl, inr, Option,
  none, some, arith, Bool-cases, bytes_beq,
}
use epicchain_go.Mpt.Node.{Node, hash_of}
use epicchain_go.Mpt.Get.{
  max_key_length, to_nibbles, Found, get_with_path, get_result, TrieError, key_is_empty,
  key_is_too_big, value_is_too_big, value_is_nil, not_found, Result, done, failed, get,
}
use epicchain_go.Mpt.Put.{Ref, Put, max_value_length, put_into_node, put}
use epicchain_go.Mpt.Delete.{Delete, delete_result, delete_from_node, delete}
use epicchain_go.Mpt.View.{value_at, update, IsTrie}
use epicchain_go.Mpt.Paths.{Same}
use epicchain_go.Mpt.PutLaw.{put_into_node-Written}
use epicchain_go.Mpt.PutFork.{Written}
use epicchain_go.Mpt.DeleteLaw.{Removed, delete_from_node-Removed}
use epicchain_go.Mpt.GetLaw.{Got, get_with_path-Got}
use epicchain_go.Mpt.Keys.{IsBytes, to_nibbles-IsPath, bytes_beq-to_nibbles}

-- The value of a key.
abbrev pub contents : Node → List ℕ → Option (List ℕ)
contents root key = value_at root (to_nibbles key)

contents-update :
    (r root : Node) (key : List ℕ) (v : Option (List ℕ))
    → IsBytes key
    → Same (value_at r) (update (to_nibbles key) v (value_at root))
    → (k : List ℕ) → IsBytes k
    → contents r k ≡ (if bytes_beq key k then v else contents root k)
unfolding update
contents-update r root key v b s k bk =
    s (to_nibbles k) (to_nibbles-IsPath k bk) ∙ rw (bytes_beq-to_nibbles key k b bk) refl

-- The errors of Put that have nothing to do with the trie.
pub data IsRefused (key : List ℕ) : Option (List ℕ) → TrieError → Type 0 where
  no_key : (v : Option (List ℕ)) → length key ≡ 0 → IsRefused key v key_is_empty
  long_key : (v : Option (List ℕ)) → max_key_length < length key → IsRefused key v key_is_too_big
  long_value :
      (v : List ℕ)
      → 0 < length key
      → length key ≤ max_key_length
      → max_value_length < length v
      → IsRefused key (some v) value_is_too_big
  nil_value : 0 < length key → length key ≤ max_key_length → IsRefused key none value_is_nil

-- A key and a value of a length that Put takes.
pub record IsWritable (key v : List ℕ) : Type 0 where
  pub some_key : 0 < length key
  pub short_key : length key ≤ max_key_length
  pub short_value : length v ≤ max_value_length

module _ (sha : List ℕ → List ℕ) where
  -- How Put ends.
  pub data PutEnds (key : List ℕ) (root : Node) : Option (List ℕ) → Put → Type 0 where
    refused :
        (v : Option (List ℕ)) (e : TrieError)
        → IsRefused key v e
        → PutEnds key root v ([], failed e)
    stored :
        (v : List ℕ) (refs : List Ref) (r : Node)
        → IsWritable key v
        → IsTrie sha r
        → ((k : List ℕ)
            → IsBytes k
            → contents r k ≡ (if bytes_beq key k then some v else contents root k))
        → PutEnds key root (some v) (refs, done r)

  stored_at :
      (key v : List ℕ) (root : Node) (res : Put)
      → IsBytes key
      → IsWritable key v
      → Written sha root (to_nibbles key) v res
      → PutEnds key root (some v) res
  stored_at key v root (refs, res) b fits w =
      rw w.is_done
        (stored v refs w.node fits w.trie (contents-update w.node root key (some v) b w.view))

  -- Put on a trie whose nodes are all in the store refuses an empty or too long key, a too long and a nil
  -- value, changing nothing. Only under a key of 1 to 68 bytes is a value stored, of 65539 bytes at most,
  -- and then Put leaves a trie in which the key has the value and every other key what it had.
  pub put_lem :
      (key : List ℕ) (v : Option (List ℕ)) (root : Node)
      → IsTrie sha root
      → IsBytes key
      → PutEnds key root v (put key v root)
  unfolding put
  put_lem key none root t b = elim (Bool-cases (length key == 0)) [
    | inl no_bytes ↦
        rw no_bytes (refused none key_is_empty (no_key none (ground (arith, no_bytes))))
    | inr some_bytes ↦ elim (Bool-cases (ltb max_key_length (length key))) [
      | inl long ↦
          rw (some_bytes, long) (refused none key_is_too_big (long_key none (ground (arith, long))))
      | inr short ↦
          rw (some_bytes, short)
            (refused none value_is_nil
              (nil_value (ground (arith, some_bytes)) (ground (arith, short))))
    ]
  ]
  put_lem key (some v) root t b = elim (Bool-cases (length key == 0)) [
    | inl no_bytes ↦
        rw no_bytes (refused (some v) key_is_empty (no_key (some v) (ground (arith, no_bytes))))
    | inr some_bytes ↦ elim (Bool-cases (ltb max_key_length (length key))) [
      | inl long ↦
          rw (some_bytes, long)
            (refused (some v) key_is_too_big (long_key (some v) (ground (arith, long))))
      | inr short ↦ elim (Bool-cases (ltb max_value_length (length v))) [
        | inl big ↦
            rw (some_bytes, short, big)
              (refused (some v) value_is_too_big (
                long_value v (ground (arith, some_bytes)) (ground (arith, short))
                  (ground (arith, big))))
        | inr small ↦
            rw (some_bytes, short, small)
              (stored_at key v root (put_into_node root (to_nibbles key) v) b
                (record {
                  some_key = ground (arith, some_bytes);
                  short_key = ground (arith, short);
                  short_value = ground (arith, small);
                })
                (put_into_node-Written sha root (to_nibbles key) v t (to_nibbles-IsPath key b)))
      ]
    ]
  ]

  -- How Delete ends.
  pub data DeleteEnds (key : List ℕ) (root : Node) : Option TrieError × Node → Type 0 where
    kept : max_key_length < length key → DeleteEnds key root (some key_is_too_big, root)
    dropped :
        (r : Node)
        → length key ≤ max_key_length
        → IsTrie sha r
        → ((k : List ℕ)
            → IsBytes k
            → contents r k ≡ (if bytes_beq key k then none else contents root k))
        → DeleteEnds key root (none, r)

  dropped_at :
      (key : List ℕ) (root : Node) (res : Delete)
      → IsBytes key
      → length key ≤ max_key_length
      → Removed sha root (to_nibbles key) res
      → DeleteEnds key root (delete_result res.1)
  dropped_at key root (refs, res) b short d = rw d.holds.is_done (
      dropped d.holds.node short d.holds.trie
        (contents-update d.holds.node root key none b d.holds.same))

  -- Delete on a trie whose nodes are all in the store refuses a key of more than 68 bytes, changing nothing,
  -- and on any other leaves a trie in which the key has no value and every other key what it had.
  pub delete_lem :
      (key : List ℕ) (root : Node)
      → IsTrie sha root
      → IsBytes key
      → DeleteEnds key root (delete key root).1
  unfolding delete
  delete_lem key root t b = elim (Bool-cases (ltb max_key_length (length key))) [
    | inl long ↦ rw long (kept (ground (arith, long)))
    | inr short ↦ rw short (
        dropped_at key root (delete_from_node root (to_nibbles key)) b (ground (arith, short))
          (delete_from_node-Removed sha root (to_nibbles key) t (to_nibbles-IsPath key b)))
  ]

  -- How Get ends.
  pub data GetEnds (key : List ℕ) (root : Node) : Result (List ℕ × Node) → Type 0 where
    too_long : max_key_length < length key → GetEnds key root (failed key_is_too_big)
    absent :
        length key ≤ max_key_length → contents root key ≡ none → GetEnds key root (failed not_found)
    present :
        (v : List ℕ) (r : Node)
        → length key ≤ max_key_length
        → contents root key ≡ some v
        → IsTrie sha r
        → hash_of sha r ≡ hash_of sha root
        → ((k : List ℕ) → IsBytes k → contents r k ≡ contents root k)
        → GetEnds key root (done (v, r))

  found_at :
      (key : List ℕ) (root : Node) (res : Found)
      → length key ≤ max_key_length
      → Got sha root (to_nibbles key) res
      → GetEnds key root (get_result res)
  found_at key root none short (Got.missing e) = absent short e
  found_at key root (some _) short (Got.found r v prefix e s) =
      present v r short e s.trie s.hash_eq (λ k bk. s.same (to_nibbles k) (to_nibbles-IsPath k bk))

  -- Get on a trie whose nodes are all in the store, no two extensions of which share the array of their
  -- keys, refuses a key of more than 68 bytes, answers the value of any other or that there is none, never
  -- panics, and what it has read from the store leaves the root's hash and the value of every key.
  pub get_lem :
      (key : List ℕ) (root : Node) → IsTrie sha root → IsBytes key → GetEnds key root (get key root)
  unfolding get
  get_lem key root t b = elim (Bool-cases (ltb max_key_length (length key))) [
    | inl long ↦ rw long (too_long (ground (arith, long)))
    | inr short ↦ rw short (
        found_at key root (get_with_path root (to_nibbles key) true) (ground (arith, short))
          (get_with_path-Got sha root (to_nibbles key) t (to_nibbles-IsPath key b)))
  ]
