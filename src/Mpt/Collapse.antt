-- ===== src/Mpt/Collapse.antt =====
-- pkg/core/mpt/trie.go: Collapse.
use epicchain_go.Common.{ℕ, zero, suc, List, [], Option, none, some}
use epicchain_go.Mpt.Node.{Node, leaf, branch, extension, hash, lost, empty, hash_of}
use epicchain_go.Mpt.Refcount.{Refcounts}

-- A HashNode with the hash, and what getFromStore answers for it.
abbrev pub hash_node : List ℕ → Option Node → Node
hash_node h none = lost h
hash_node h (some n) = hash h n

-- `store` is getFromStore: the node that it decodes for a hash, with the answers for the hashes of that
-- node's children in turn, or `none` for an error.
module _ (sha : List ℕ → List ℕ) (store : List ℕ → Option Node) where
  -- NewHashNode(node.Hash()) of a node that is neither a hash node nor empty.
  unfoldable pub new_hash_node : Node → Node
  new_hash_node n = hash_node (hash_of sha n) (store (hash_of sha n))

  -- collapse at depth 0
  abbrev pub hashed : Node → Node
  hashed (leaf v) = new_hash_node (leaf v)
  hashed (branch cs) = new_hash_node (branch cs)
  hashed (extension key next) = new_hash_node (extension key next)
  hashed (hash h n) = hash h n
  hashed (lost h) = lost h
  hashed empty = empty

  -- collapse
  unfoldable pub collapse_node : ℕ → Node → Node
  collapse_node zero n = hashed n
  collapse_node (suc depth) (leaf v) = leaf v
  collapse_node (suc depth) (branch cs) = branch (λ i. collapse_node depth (cs i))
  collapse_node (suc depth) (extension key next) = extension key (collapse_node depth next)
  collapse_node (suc depth) (hash h n) = hash h n
  collapse_node (suc depth) (lost h) = lost h
  collapse_node (suc depth) empty = empty

  -- Collapse forgets the reference counts; a negative depth, of which it panics, is not in the type.
  abbrev pub collapse : ℕ → Node → Refcounts → Node × Refcounts
  collapse depth root m = (collapse_node depth root, [])
