-- ===== src/Mpt/Runs.antt =====
-- pkg/core/mpt: small tries, what the operations do on them, and the theorems at them.
use epicchain_go.Common.{
  inl, ℕ, ◌+◌, ◌<◌, ◌%◌, ◌^◌, ◌≡◌, ◌≢◌, refl, ◌∙◌, some, none, List, Option, bytes_beq,
  if◌then◌else◌, [], ◌∷◌, arith, bytes_eq, lookup,
}
use epicchain_go.Io.Writer.{var_uint_bytes}
use epicchain_go.Mpt.Node.{
  Node, leaf, branch, extension, hash, lost, empty, put_child, no_children, hash_of,
}
use epicchain_go.Mpt.Get.{not_in_store, to_nibbles, strip_prefix, get}
use epicchain_go.Mpt.Put.{removed, put_into_node, put, put_root}
use epicchain_go.Mpt.Delete.{tally, delete_from_node, delete, delete_root, state_root}
use epicchain_go.Mpt.View.{IsTrie, IsPath, value_at, under}
use epicchain_go.Mpt.Branches.{put_two-IsTrie}
use epicchain_go.Mpt.Views.{put_child_other}
use epicchain_go.Mpt.Keys.{IsBytes}
use epicchain_go.Mpt.Contents.{contents, PutEnds, DeleteEnds, GetEnds, put_lem, delete_lem, get_lem}
use epicchain_go.Mpt.Canonical.{state_root_unique}
use epicchain_go.Mpt.Roots.{put_root_comm, delete_root-put_root}
use epicchain_go.Mpt.Totals.{total, has_hash}
use epicchain_go.Mpt.Refcount.{Refcounts, count_of, apply_refs}
use epicchain_go.Mpt.Counts.{refcounts_lem}
use epicchain_go.Mpt.Batch.{KeyValue, put_batch}
use epicchain_go.Mpt.BatchRoot.{change_each, put_batch_lem}
use epicchain_go.Mpt.Collapse.{new_hash_node, collapse}
use epicchain_go.Mpt.CollapseLaw.{IsFlushed, IsCollapsed, collapse_lem}
use epicchain_go.Mpt.Lost.{spine, PutInto, put_into_node-PutInto, delete_stuck}

-- A hash that is the bytes.
abbrev plain : List ℕ → List ℕ
plain bytes = bytes

abbrev encode : Node → List ℕ
encode n = hash_of plain n

-- What is below 0x12, in memory, and below 0x34, in the store.
abbrev first_leaf : Node
first_leaf = extension (2 ∷ []) (leaf (7 ∷ []))

abbrev second_leaf : Node
second_leaf = extension (4 ∷ []) (leaf (8 ∷ []))

abbrev second_hash : Node
second_hash = hash (hash_of plain second_leaf) second_leaf

abbrev two_keys : Node
two_keys = branch (put_child 1 first_leaf (put_child 3 second_hash no_children))

leaf-IsTrie : (x : ℕ) (v : List ℕ) → IsPath (x ∷ []) → IsTrie plain (extension (x ∷ []) (leaf v))
leaf-IsTrie x v ip = ((ip, λ e. cc), (tt, tt))

two_keys-IsTrie : IsTrie plain two_keys
two_keys-IsTrie =
    put_two-IsTrie plain 1 3 first_leaf second_hash (λ e. omega (arith, e))
      (record {
        le = omega arith;
        trie = leaf-IsTrie 2 (7 ∷ []) (omega arith, tt);
        end = λ e. omega (arith, e);
      })
      (record {
        le = omega arith;
        trie = ((tt, refl), leaf-IsTrie 4 (8 ∷ []) (omega arith, tt));
        end = λ e. omega (arith, e);
      })
      refl refl

get_first : contents two_keys (0x12 ∷ []) ≡ some (7 ∷ [])
unfolding value_at under to_nibbles
get_first = refl

one_byte : (b : ℕ) → b < 256 → IsBytes (b ∷ [])
one_byte b lt = (lt, tt)

put_lem_example :
    PutEnds plain (0x13 ∷ []) two_keys (some (9 ∷ [])) (put (0x13 ∷ []) (some (9 ∷ [])) two_keys)
put_lem_example =
    put_lem plain (0x13 ∷ []) (some (9 ∷ [])) two_keys two_keys-IsTrie (one_byte 0x13 (omega arith))

delete_lem_example : DeleteEnds plain (0x12 ∷ []) two_keys (delete (0x12 ∷ []) two_keys).1
delete_lem_example =
    delete_lem plain (0x12 ∷ []) two_keys two_keys-IsTrie (one_byte 0x12 (omega arith))

get_lem_example : GetEnds plain (0x34 ∷ []) two_keys (get (0x34 ∷ []) two_keys)
get_lem_example = get_lem plain (0x34 ∷ []) two_keys two_keys-IsTrie (one_byte 0x34 (omega arith))

-- With the first key gone, what was in the store takes the place of the branch.
delete_first : delete_root (0x12 ∷ []) two_keys ≡ extension (3 ∷ 4 ∷ []) (leaf (8 ∷ []))
unfolding delete delete_from_node strip_prefix to_nibbles tally
delete_first = refl

state_root_unique_example : state_root plain second_hash ≡ state_root plain second_leaf
unfolding value_at
state_root_unique_example =
    state_root_unique plain second_hash second_leaf
      ((tt, refl), leaf-IsTrie 4 (8 ∷ []) (omega arith, tt))
      (leaf-IsTrie 4 (8 ∷ []) (omega arith, tt)) (λ q iq. refl)

put_root_comm_example :
    state_root plain (put_root (0x35 ∷ []) (6 ∷ []) (put_root (0x13 ∷ []) (9 ∷ []) two_keys))
    ≡ state_root plain (put_root (0x13 ∷ []) (9 ∷ []) (put_root (0x35 ∷ []) (6 ∷ []) two_keys))
put_root_comm_example =
    put_root_comm plain (0x13 ∷ []) (0x35 ∷ []) (9 ∷ []) (6 ∷ []) two_keys two_keys-IsTrie
      (one_byte 0x13 (omega arith)) (one_byte 0x35 (omega arith)) (λ e. cc)

delete_root-put_root_example :
    state_root plain (delete_root (0x13 ∷ []) (put_root (0x13 ∷ []) (9 ∷ []) two_keys))
    ≡ state_root plain two_keys
unfolding value_at under to_nibbles
delete_root-put_root_example =
    delete_root-put_root plain (0x13 ∷ []) (9 ∷ []) two_keys two_keys-IsTrie
      (one_byte 0x13 (omega arith)) refl

abbrev some_hash : List ℕ
some_hash = 5 ∷ []

abbrev no_counts : Refcounts
no_counts = []

refcounts_lem_example :
    ((count_of (
            lookup some_hash
              (apply_refs plain encode (put (0x13 ∷ []) (some (9 ∷ [])) two_keys).0 no_counts))
          + total (has_hash plain some_hash) two_keys)
        % 2 ^ 32
      ≡ (count_of (lookup some_hash no_counts)
          + total (has_hash plain some_hash) (put_root (0x13 ∷ []) (9 ∷ []) two_keys))
        % 2 ^ 32)
    × ((count_of
              (lookup some_hash (apply_refs plain encode (delete (0x13 ∷ []) two_keys).0 no_counts))
            + total (has_hash plain some_hash) two_keys)
          % 2 ^ 32
        ≡ (count_of (lookup some_hash no_counts)
            + total (has_hash plain some_hash) (delete_root (0x13 ∷ []) two_keys))
          % 2 ^ 32)
refcounts_lem_example =
    refcounts_lem plain encode some_hash (0x13 ∷ []) (9 ∷ []) two_keys no_counts two_keys-IsTrie
      (one_byte 0x13 (omega arith))

-- The second key's node is not in the store.
abbrev holed_children : ℕ → Node
holed_children = put_child 1 first_leaf (put_child 3 (lost (5 ∷ [])) no_children)

put_into_node-PutInto_example :
    PutInto
      (spine (branch holed_children) (3 ∷ 4 ∷ []))
      (put_into_node (branch holed_children) (3 ∷ 4 ∷ []) (9 ∷ []))
put_into_node-PutInto_example = put_into_node-PutInto (branch holed_children) (3 ∷ 4 ∷ []) (9 ∷ [])

others_empty : (k : ℕ) → 1 ≢ k → 3 ≢ k → holed_children k ≡ empty
others_empty k one three =
    put_child_other 1 k first_leaf (put_child 3 (lost (5 ∷ [])) no_children) one
    ∙ put_child_other 3 k (lost (5 ∷ [])) no_children three

delete_stuck_example :
    (delete (0x12 ∷ []) (branch holed_children) ≡ (
      removed (leaf (7 ∷ [])) ∷ removed first_leaf ∷ removed (branch holed_children) ∷ [],
      (some not_in_store, branch (put_child 1 empty holed_children)),
    ))
    × (value_at (branch (put_child 1 empty holed_children)) (to_nibbles (0x12 ∷ [])) ≡ none)
unfolding to_nibbles delete_from_node strip_prefix
delete_stuck_example =
    delete_stuck (0x12 ∷ []) holed_children 1 3 (2 ∷ []) (5 ∷ [])
      (removed (leaf (7 ∷ [])) ∷ removed first_leaf ∷ []) (omega arith) refl (omega arith)
      (λ e. omega (arith, e)) refl others_empty refl

-- The first key deleted, and another one put next to the second.
abbrev two_changes : List KeyValue
two_changes =
    record { key = 1 ∷ 2 ∷ []; value = none }
    ∷ record { key = 3 ∷ 5 ∷ []; value = some (6 ∷ []) }
    ∷ []

short-IsPath : (x y : ℕ) → x < 16 → y < 16 → IsPath (x ∷ y ∷ [])
short-IsPath x y a b = (a, (b, tt))

put_batch_lem_example :
    ((put_batch two_changes two_keys).err ≡ none)
    × ((put_batch two_changes two_keys).count ≡ 2)
    × IsTrie plain (put_batch two_changes two_keys).node
    × (state_root plain (put_batch two_changes two_keys).node
        ≡ state_root plain (change_each two_changes two_keys))
put_batch_lem_example =
    put_batch_lem plain two_changes two_keys two_keys-IsTrie
      (
        short-IsPath 1 2 (omega arith) (omega arith),
        (short-IsPath 3 5 (omega arith) (omega arith), tt),
      )
      (inl (omega arith), tt)

-- What Flush has stored of a trie with one key.
abbrev flushed : List ℕ → Option Node
flushed h =
    if bytes_beq h (hash_of plain (leaf (7 ∷ [])))
    then some (leaf (7 ∷ []))
    else if bytes_beq h (hash_of plain first_leaf)
    then some (extension (2 ∷ []) (hash (hash_of plain (leaf (7 ∷ []))) (leaf (7 ∷ []))))
    else none

first_leaf-IsFlushed : IsFlushed plain flushed first_leaf
unfolding hash_of new_hash_node var_uint_bytes
first_leaf-IsFlushed = (refl, refl)

-- A hash node takes the place of the leaf.
collapse_lem_example :
    IsCollapsed 1 (collapse plain flushed 1 first_leaf no_counts).0
    × IsTrie plain (collapse plain flushed 1 first_leaf no_counts).0
    × (state_root plain (collapse plain flushed 1 first_leaf no_counts).0
        ≡ state_root plain first_leaf)
    × ((k : List ℕ)
        → IsBytes k
        → contents (collapse plain flushed 1 first_leaf no_counts).0 k ≡ contents first_leaf k)
    × ((collapse plain flushed 1 first_leaf no_counts).1 ≡ [])
collapse_lem_example =
    collapse_lem plain flushed 1 first_leaf no_counts (leaf-IsTrie 2 (7 ∷ []) (omega arith, tt))
      first_leaf-IsFlushed
