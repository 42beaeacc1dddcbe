-- ===== src/Mpt/Delete.antt =====
-- pkg/core/mpt/trie.go: Delete and StateRoot.
use epicchain_go.Common.{
  ℕ, zero, suc, List, [], ◌∷◌, ◌++◌, length, replicate, ◌==◌, ltb, if◌then◌else◌, Option, none,
  some,
}
use epicchain_go.Mpt.Node.{
  Node, leaf, branch, extension, hash, lost, empty, children_count, last_child, put_child, is_empty,
  split_path, hash_of,
}
use epicchain_go.Mpt.Get.{
  strip_prefix, max_key_length, to_nibbles, TrieError, key_is_too_big, not_in_store,
}
use epicchain_go.Mpt.Put.{Ref, added, removed}

-- What replaces a node, or an error and what the calls have made of the node in place.
pub data Deleted : Type 0 where
  becomes : Node → Deleted
  stuck : Node → Deleted

abbrev pub Delete : Type 0
Delete = List Ref × Deleted

-- The loop over the children: `count` and `index` after the first `n`.
unfoldable pub tally : ℕ → (ℕ → Node) → ℕ × ℕ
tally zero cs = (0, 0)
tally (suc n) cs =
    let (count, index) = tally n cs in if is_empty (cs n) then (count, index) else (suc count, n)

-- An extension grows by the index of the branch it replaces, any other node gets a new extension.
abbrev pub lengthened : ℕ → Node → Delete
lengthened index (extension key next) = (
  removed (extension key next) ∷ added (extension (index ∷ key) next) ∷ [],
  becomes (extension (index ∷ key) next),
)
lengthened index (leaf v) =
    (added (extension (index ∷ []) (leaf v)) ∷ [], becomes (extension (index ∷ []) (leaf v)))
lengthened index (branch cs) =
    (added (extension (index ∷ []) (branch cs)) ∷ [], becomes (extension (index ∷ []) (branch cs)))
lengthened index (hash h n) =
    (added (extension (index ∷ []) (hash h n)) ∷ [], becomes (extension (index ∷ []) (hash h n)))
lengthened index (lost h) =
    (added (extension (index ∷ []) (lost h)) ∷ [], becomes (extension (index ∷ []) (lost h)))
lengthened index empty =
    (added (extension (index ∷ []) empty) ∷ [], becomes (extension (index ∷ []) empty))

-- The only child left, read from the store if it is a hash node.
abbrev pub only_child : (ℕ → Node) → ℕ → Node → Delete
only_child cs index (hash h n) = lengthened index n
only_child cs index (lost h) = ([], stuck (branch cs))
only_child cs index (leaf v) = lengthened index (leaf v)
only_child cs index (branch bs) = lengthened index (branch bs)
only_child cs index (extension k n) = lengthened index (extension k n)
only_child cs index empty = lengthened index empty

-- The rest of deleteFromBranch, from the count of the children on.
abbrev pub shrink : (ℕ → Node) → Delete
shrink cs =
    let (count, index) = tally children_count cs in
    let c = cs index in
    if ltb 1 count
    then (added (branch cs) ∷ [], becomes (branch cs))
    else if index == last_child
    then ([], becomes c)
    else only_child cs index c

-- deleteFromBranch, with what deleteFromNode answers for the child.
abbrev pub delete_from_branch : (ℕ → Node) → ℕ → Delete → Delete
delete_from_branch cs i (refs, stuck r) = (refs, stuck (branch (put_child i r cs)))
delete_from_branch cs i (refs, becomes r) =
    let (more, res) = shrink (put_child i r cs) in (refs ++ (removed (branch cs) ∷ more), res)

-- The switch of deleteFromExtension, with the new node for its next one.
abbrev pub join_extension : List ℕ → Node → Delete
join_extension key (extension k n) = (
  removed (extension k n) ∷ added (extension (key ++ k) n) ∷ [],
  becomes (extension (key ++ k) n),
)
join_extension key empty = ([], becomes empty)
join_extension key (leaf v) =
    (added (extension key (leaf v)) ∷ [], becomes (extension key (leaf v)))
join_extension key (branch cs) =
    (added (extension key (branch cs)) ∷ [], becomes (extension key (branch cs)))
join_extension key (hash h n) =
    (added (extension key (hash h n)) ∷ [], becomes (extension key (hash h n)))
join_extension key (lost h) =
    (added (extension key (lost h)) ∷ [], becomes (extension key (lost h)))

abbrev pub extension_deleted : List ℕ → Node → Delete → Delete
extension_deleted key next (refs, stuck r) = (refs, stuck (extension key r))
extension_deleted key next (refs, becomes r) =
    let (more, res) = join_extension key r in (refs ++ (removed (extension key next) ∷ more), res)

-- deleteFromExtension, with deleteFromNode for the next node.
abbrev pub delete_from_extension : List ℕ → Node → (List ℕ → Delete) → Option (List ℕ) → Delete
delete_from_extension key next below none = ([], becomes (extension key next))
delete_from_extension key next below (some rest) = extension_deleted key next (below rest)

-- What is read from the store is a new object: an error leaves the hash node as it was.
abbrev pub deleted_in_store : List ℕ → Node → Delete → Delete
deleted_in_store h n (refs, becomes r) = (refs, becomes r)
deleted_in_store h n (refs, stuck r) = (refs, stuck (hash h n))

unfoldable pub delete_from_node : Node → List ℕ → Delete
delete_from_node (leaf v) [] = (removed (leaf v) ∷ [], becomes empty)
delete_from_node (leaf v) (x ∷ path) = ([], becomes (leaf v))
delete_from_node (branch cs) path =
    let (i, rest) = split_path path in delete_from_branch cs i (delete_from_node (cs i) rest)
delete_from_node (extension key next) path =
    delete_from_extension key next (λ rest. delete_from_node next rest) (strip_prefix key path)
delete_from_node empty path = ([], becomes empty)
delete_from_node (hash h n) path = deleted_in_store h n (delete_from_node n path)
delete_from_node (lost h) path = ([], stuck (lost h))

-- The error, if any, and the root.
abbrev pub delete_result : Deleted → Option TrieError × Node
delete_result (becomes r) = (none, r)
delete_result (stuck r) = (some not_in_store, r)

-- Delete: the calls of addRef and removeRef, and the root.
unfoldable pub delete : List ℕ → Node → List Ref × (Option TrieError × Node)
delete key root =
    let (refs, res) = delete_from_node root (to_nibbles key) in
    if ltb max_key_length (length key)
    then ([], (some key_is_too_big, root))
    else (refs, delete_result res)

-- t.root after the call.
abbrev pub delete_root : List ℕ → Node → Node
delete_root key root = (delete key root).1.1

-- StateRoot: an empty trie has the zero hash.
unfoldable pub state_root : (List ℕ → List ℕ) → Node → List ℕ
state_root sha root = if is_empty root then replicate 32 0 else hash_of sha root
