-- ===== src/Mpt/Put.antt =====
-- pkg/core/mpt/trie.go: Put.
use epicchain_go.Common.{
  ℕ, Bool, true, false, List, [], ◌∷◌, ◌++◌, length, drop, ◌==◌, ltb, if◌then◌else◌, Option, none,
  some,
}
use epicchain_go.Mpt.Node.{
  Node, leaf, branch, extension, hash, lost, empty, last_child, put_child, no_children, split_path,
}
use epicchain_go.Mpt.Get.{
  strip_prefix, max_key_length, to_nibbles, key_is_empty, key_is_too_big, value_is_too_big,
  value_is_nil, not_in_store, Result, done, failed, panicked,
}

-- A call of addRef or removeRef with the node whose hash and bytes it is given.
pub data Ref : Type 0 where
  added removed : Node → Ref

abbrev pub max_value_length : ℕ
max_value_length = 65539

-- lcp; the code swaps the two so that the first is the longer.
unfoldable pub lcp : List ℕ → List ℕ → List ℕ
lcp [] b = []
lcp (x ∷ a) [] = []
lcp (x ∷ a) (y ∷ b) = let rest = lcp a b in if x == y then x ∷ rest else []

-- What becomes of the old node, with the calls made on the way.
abbrev pub Put : Type 0
Put = List Ref × Result Node

abbrev pub wrap_sub_trie : List ℕ → Node → List Ref × Node
wrap_sub_trie [] n = ([], n)
wrap_sub_trie (x ∷ path) n = (added (extension (x ∷ path) n) ∷ [], extension (x ∷ path) n)

-- newSubTrie
abbrev pub new_sub_trie : List ℕ → Node → Bool → List Ref × Node
new_sub_trie path n new_val =
    let (refs, r) = wrap_sub_trie path n in ((if new_val then added n ∷ [] else []) ++ refs, r)

unfoldable pub put_into_leaf : List ℕ → List ℕ → List ℕ → Put
put_into_leaf w [] v = (removed (leaf w) ∷ added (leaf v) ∷ [], done (leaf v))
put_into_leaf w (x ∷ path) v =
    let (refs, r) = new_sub_trie path (leaf v) true in
    let b = branch (put_child last_child (leaf w) (put_child x r no_children)) in
    (refs ++ (added b ∷ []), done b)

-- The in-place update of a node below which something was put.
abbrev pub replaced : Node → (Node → Node) → Put → Put
replaced old wrap (refs, done r) = (removed old ∷ refs ++ (added (wrap r) ∷ []), done (wrap r))
replaced old wrap (refs, failed e) = (removed old ∷ refs, failed e)
replaced old wrap (refs, panicked) = (removed old ∷ refs, panicked)

-- `if lp > 0`: the branch under what the two paths share.
abbrev pub under_shared : List ℕ → Node → List Ref → Put
under_shared [] b refs = (refs, done b)
under_shared (x ∷ pref) b refs = let e = extension (x ∷ pref) b in (refs ++ (added e ∷ []), done e)

-- The rest of putIntoExtension where the key and the path part; keyTail[0] panics on an empty tail.
abbrev pub fork : List ℕ → List ℕ → List ℕ → Node → List ℕ → Put
fork pref [] path_tail next v = ([], panicked)
fork pref (x ∷ key_tail) path_tail next v =
    let (refs1, s1) = new_sub_trie key_tail next false in
    let (i, rest) = split_path path_tail in
    let (refs2, s2) = new_sub_trie rest (leaf v) true in
    let b = branch (put_child i s2 (put_child x s1 no_children)) in
    under_shared pref b (refs1 ++ (refs2 ++ (added b ∷ [])))

-- putIntoExtension, with putIntoNode for the next node.
abbrev pub put_into_extension :
    List ℕ → Node → (List ℕ → Put) → List ℕ → List ℕ → Option (List ℕ) → Put
put_into_extension key next below path v (some rest) =
    replaced (extension key next) (extension key) (below rest)
put_into_extension key next below path v none =
    let lp = length (lcp key path) in
    let (refs, r) = fork (lcp key path) (drop lp key) (drop lp path) next v in
    (removed (extension key next) ∷ refs, r)

-- putIntoNode; its cases call putIntoLeaf, putIntoBranch, putIntoExtension, putIntoHash and putIntoEmpty.
unfoldable pub put_into_node : Node → List ℕ → List ℕ → Put
put_into_node (leaf w) path v = put_into_leaf w path v
put_into_node (branch cs) path v =
    let (i, rest) = split_path path in
    replaced (branch cs) (λ r. branch (put_child i r cs)) (put_into_node (cs i) rest v)
put_into_node (extension key next) path v =
    put_into_extension key next (λ rest. put_into_node next rest v) path v (strip_prefix key path)
put_into_node (hash h n) path v = put_into_node n path v
put_into_node (lost h) path v = ([], failed not_in_store)
put_into_node empty path v = let (refs, r) = new_sub_trie path (leaf v) true in (refs, done r)

-- Put: a nil value is `none`. The root of a call that fails is the old one; the calls of addRef and
-- removeRef it made stay.
unfoldable pub put : List ℕ → Option (List ℕ) → Node → Put
put key none root =
    if length key == 0
    then ([], failed key_is_empty)
    else if ltb max_key_length (length key)
    then ([], failed key_is_too_big)
    else ([], failed value_is_nil)
put key (some value) root =
    if length key == 0
    then ([], failed key_is_empty)
    else if ltb max_key_length (length key)
    then ([], failed key_is_too_big)
    else if ltb max_value_length (length value)
    then ([], failed value_is_too_big)
    else put_into_node root (to_nibbles key) value

-- t.root after the call.
abbrev pub root_after : Node → Put → Node
root_after root (refs, done r) = r
root_after root (refs, failed e) = root
root_after root (refs, panicked) = root

abbrev pub put_root : List ℕ → List ℕ → Node → Node
put_root key v root = root_after root (put key (some v) root)
