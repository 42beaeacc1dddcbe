-- ===== src/Mpt/View.antt =====
-- pkg/core/mpt: what a trie stores, as a function of the path, and which nodes make up a trie.
use epicchain_go.Common.{
  ℕ, ◌<◌, false, List, [], ◌∷◌, ◌==◌, if◌then◌else◌, ◌≡◌, ◌≢◌, Option, none, some, All, bytes_beq,
}
use epicchain_go.Mpt.Node.{
  Node, leaf, branch, extension, hash, lost, empty, last_child, is_empty, hash_of,
}

abbrev pub View : Type 0
View = List ℕ → Option (List ℕ)

-- The view below a path.
unfoldable pub under : List ℕ → View → View
under [] f path = f path
under (x ∷ key) f [] = none
under (x ∷ key) f (y ∷ path) = let rest = under key f path in if x == y then rest else none

-- The value at a path: a branch has the value of the path that ends at it in its last child.
unfoldable pub value_at : Node → View
value_at (leaf v) [] = some v
value_at (leaf v) (x ∷ path) = none
value_at (branch cs) [] = value_at (cs last_child) []
value_at (branch cs) (x ∷ path) = value_at (cs x) path
value_at (extension key next) path = under key (value_at next) path
value_at (hash h n) path = value_at n path
value_at (lost h) path = none
value_at empty path = none

-- The view with one path changed.
unfoldable pub update : List ℕ → Option (List ℕ) → View → View
update p v f q = if bytes_beq p q then v else f q

abbrev pub IsNibble : ℕ → Type 0
IsNibble x = x < 16

abbrev pub IsPath : List ℕ → Type 0
IsPath = All IsNibble

-- What a node read from the store is.
abbrev pub IsStored : Node → Type 0
IsStored (leaf v) = Unit
IsStored (branch cs) = Unit
IsStored (extension k n) = Unit
IsStored (hash h n) = ⊥
IsStored (lost h) = ⊥
IsStored empty = ⊥

-- What an extension leads to.
abbrev pub IsHead : Node → Type 0
IsHead (leaf v) = Unit
IsHead (branch cs) = Unit
IsHead (extension k n) = ⊥
IsHead (hash h n) = IsHead n
IsHead (lost h) = ⊥
IsHead empty = ⊥

-- What the last child of a branch is.
abbrev pub IsEnd : Node → Type 0
IsEnd (leaf v) = Unit
IsEnd (branch cs) = ⊥
IsEnd (extension k n) = ⊥
IsEnd (hash h n) = IsEnd n
IsEnd (lost h) = ⊥
IsEnd empty = Unit

-- Two children that are not empty.
pub record HasTwo (cs : ℕ → Node) : Type 0 where
  pub first : ℕ
  pub second : ℕ
  pub apart : first ≢ second
  pub filled1 : is_empty (cs first) ≡ false
  pub filled2 : is_empty (cs second) ≡ false

pub record IsBranch (cs : ℕ → Node) : Type 0 where
  pub two : HasTwo cs
  pub end : IsEnd (cs last_child)
  pub beyond : (i : ℕ) → last_child < i → cs i ≡ empty

-- A trie whose hash nodes are all in the store, under their hashes.
module _ (sha : List ℕ → List ℕ) where
  abbrev pub IsTrie : Node → Type 0
  IsTrie (leaf v) = Unit
  IsTrie (branch cs) = IsBranch cs × ((i : ℕ) → IsTrie (cs i))
  IsTrie (extension k n) = (IsPath k × (k ≢ [])) × (IsHead n × IsTrie n)
  IsTrie (hash h n) = (IsStored n × (h ≡ hash_of sha n)) × IsTrie n
  IsTrie (lost h) = ⊥
  IsTrie empty = Unit
