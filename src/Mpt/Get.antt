-- ===== src/Mpt/Get.antt =====
-- pkg/core/mpt/trie.go and helpers.go: the paths of keys, and Get.
use epicchain_go.Common.{
  ℕ, ◌+◌, ◌*◌, ◌/◌, ◌%◌, Bool, true, false, not, ◌&&◌, List, [], ◌∷◌, ◌++◌, length, ◌==◌, ltb,
  if◌then◌else◌, Option, none, some,
}
use epicchain_go.Mpt.Node.{
  Node, leaf, branch, extension, hash, lost, empty, last_child, put_child, split_path,
}

abbrev pub max_key_length : ℕ
max_key_length = 68

-- toNibbles
unfoldable pub to_nibbles : List ℕ → List ℕ
to_nibbles [] = []
to_nibbles (b ∷ path) = b / 16 ∷ b % 16 ∷ to_nibbles path

-- fromNibbles: bytes wrap around, and a last nibble without a partner is left out.
unfoldable pub from_nibbles : List ℕ → List ℕ
from_nibbles [] = []
from_nibbles (a ∷ []) = []
from_nibbles (a ∷ (b ∷ path)) = (a * 16 % 256 + b) % 256 ∷ from_nibbles path

-- bytes.HasPrefix(path, key), with path[len(key):].
unfoldable pub strip_prefix : List ℕ → List ℕ → Option (List ℕ)
strip_prefix [] path = some path
strip_prefix (x ∷ key) [] = none
strip_prefix (x ∷ key) (y ∷ path) =
    let rest = strip_prefix key path in if x == y then rest else none

abbrev pub has_prefix : List ℕ → List ℕ → Bool
has_prefix path key = elim (strip_prefix key path) [ none ↦ false | some q ↦ true ]

-- What getWithPath answers: the node with what was read from the store in place of hash nodes, the node
-- found, and the path to it. `none` is ErrNotFound.
abbrev pub Found : Type 0
Found = Option (Node × (Node × List ℕ))

-- The answer for a child, put in its place. The path is a new list: of append(n.key, prefix...) it is taken
-- that nothing else stands in the array of n.key behind the key.
abbrev pub found_below : (Node → Node) → List ℕ → Found → Found
found_below wrap k none = none
found_below wrap k (some (r, (res, prefix))) = some (wrap r, (res, k ++ prefix))

unfoldable pub get_with_path : Node → List ℕ → Bool → Found
get_with_path (leaf v) [] strict = some (leaf v, (leaf v, []))
get_with_path (leaf v) (x ∷ path) strict = none
get_with_path (branch cs) path strict =
    let (i, rest) = split_path path in
    let below = get_with_path (cs i) rest strict in
    if (i == last_child) && not strict
    then some (branch cs, (branch cs, []))
    else found_below (λ r. branch (put_child i r cs)) (i ∷ []) below
get_with_path empty path strict = none
get_with_path (hash h n) path strict = get_with_path n path strict
get_with_path (lost h) path strict = none
get_with_path (extension key next) path strict =
    let short = some (extension key next, (next, key)) in
    let stop = if not strict && has_prefix key path then short else none in
    let go = λ (q : List ℕ). found_below (extension key) key (get_with_path next q strict) in
    if (length path == 0) && not strict
    then short
    else elim (strip_prefix key path) [ none ↦ stop | some q ↦ go q ]

-- leaf.(*LeafNode).value: any other node panics.
abbrev pub leaf_value : Node → Option (List ℕ)
leaf_value (leaf v) = some v
leaf_value (branch cs) = none
leaf_value (extension k n) = none
leaf_value (hash h n) = none
leaf_value (lost h) = none
leaf_value empty = none

-- `not_found` is the trie's ErrNotFound, `not_in_store` what getFromStore answers where it has no node to
-- give: the store's ErrKeyNotFound, or an error of the decoder.
pub data TrieError : Type 0 where
  key_is_empty key_is_too_big value_is_too_big value_is_nil not_found not_in_store : TrieError

-- An answer, an error, or a panic.
pub data Result (A : Type 0) : Type 0 where
  done : A → Result A
  failed : TrieError → Result A
  panicked : Result A

abbrev pub leaf_result : Node → Option (List ℕ) → Result (List ℕ × Node)
leaf_result r none = panicked
leaf_result r (some v) = done (v, r)

abbrev pub get_result : Found → Result (List ℕ × Node)
get_result none = failed not_found
get_result (some (r, (res, path))) = leaf_result r (leaf_value res)

-- Get, and the root it leaves; on an error that is the old one.
unfoldable pub get : List ℕ → Node → Result (List ℕ × Node)
get key root =
    if ltb max_key_length (length key)
    then failed key_is_too_big
    else get_result (get_with_path root (to_nibbles key) true)
