-- ===== src/Mpt/Node.antt =====
-- pkg/core/mpt/node.go, branch.go, extension.go, leaf.go, hash.go, empty.go and base.go: the nodes, their
-- bytes and their hashes. A node's cached bytes and hash are not modelled: they are computed.
use epicchain_go.Common.{
  ℕ, zero, suc, Bool, true, false, List, [], ◌∷◌, ◌++◌, length, ◌==◌, if◌then◌else◌,
}
use epicchain_go.Io.Writer.{var_uint_bytes}

-- The Children of a branch are a function of the index. `hash h n` is a HashNode with the node that
-- getFromStore decodes for its hash, `lost h` one for which it answers an error: Get, Put and Delete do
-- not write to the store, so the answer is the same whenever it is asked.
pub data Node : Type 0 where
  leaf : List ℕ → Node
  branch : (ℕ → Node) → Node
  extension : List ℕ → Node → Node
  hash : List ℕ → Node → Node
  lost : List ℕ → Node
  empty : Node

abbrev pub children_count : ℕ
children_count = 17

abbrev pub last_child : ℕ
last_child = 16

abbrev pub is_empty : Node → Bool
is_empty empty = true
is_empty (leaf v) = false
is_empty (branch cs) = false
is_empty (extension k n) = false
is_empty (hash h n) = false
is_empty (lost h) = false

-- b.Children[i] = n
abbrev pub put_child : ℕ → Node → (ℕ → Node) → ℕ → Node
put_child i n cs j = if i == j then n else cs j

-- NewBranchNode
abbrev pub no_children : ℕ → Node
no_children i = empty

abbrev pub split_path : List ℕ → ℕ × List ℕ
split_path [] = (last_child, [])
split_path (x ∷ path) = (x, path)

-- The bytes of the children from the first on, by encodeBinaryAsChild.
abbrev pub join_below : ℕ → (ℕ → List ℕ) → List ℕ
join_below zero f = []
join_below (suc n) f = join_below n f ++ f n

-- encodeBinaryAsChild, of a node that is empty or not and has the given hash.
abbrev pub as_child : Bool → List ℕ → List ℕ
as_child true h = 4 ∷ []
as_child false h = 3 ∷ h

-- `sha` is DoubleSha256. EmptyNode has no hash: Hash panics, and encodeBinaryAsChild asks for none.
module _ (sha : List ℕ → List ℕ) where
  unfoldable pub hash_of : Node → List ℕ
  hash_of (leaf v) = sha (2 ∷ var_uint_bytes (length v) ++ v)
  hash_of (branch cs) =
      sha (0 ∷ join_below children_count (λ i. as_child (is_empty (cs i)) (hash_of (cs i))))
  hash_of (extension k n) =
      sha (1 ∷ (var_uint_bytes (length k) ++ k) ++ as_child (is_empty n) (hash_of n))
  hash_of (hash h n) = h
  hash_of (lost h) = h
  hash_of empty = []
