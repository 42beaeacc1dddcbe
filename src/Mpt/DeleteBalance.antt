-- ===== src/Mpt/DeleteBalance.antt =====
-- pkg/core/mpt/trie.go: the calls of addRef and removeRef that Delete makes.
use epicchain_go.Common.{
  ℕ, ◌+◌, ◌<◌, true, List, [], ◌∷◌, ◌++◌, ltb, ◌==◌, if◌then◌else◌, ◌≡◌, refl, sym, subst, ◌∙◌, inl,
  inr, arith, Bool-cases, Option-cases,
}
use epicchain_go.Mpt.Node.{
  Node, leaf, branch, extension, hash, lost, empty, children_count, last_child, put_child,
  split_path,
}
use epicchain_go.Mpt.Get.{strip_prefix}
use epicchain_go.Mpt.Put.{Ref, added, removed}
use epicchain_go.Mpt.Delete.{
  becomes, stuck, Delete, tally, lengthened, only_child, shrink, delete_from_branch, join_extension,
  extension_deleted, deleted_in_store, delete_from_node,
}
use epicchain_go.Mpt.View.{IsNibble, IsPath}
use epicchain_go.Mpt.Paths.{strip_prefix-some}
use epicchain_go.Mpt.Branches.{split_path-le, split_path-IsPath}
use epicchain_go.Mpt.Views.{All-append_right}
use epicchain_go.Mpt.Shrink.{Tallied, nobody, only, several, tally-Tallied}
use epicchain_go.Mpt.Totals.{
  sum_below-zero, sum_below-only, total, plus, minus, plus-append, minus-append, below,
  below-put_child,
}

module _ (weight : Node → ℕ) where
  abbrev pub Kept : ℕ → Delete → Type 0
  Kept before (refs, becomes r) = plus weight refs + before ≡ minus weight refs + total weight r
  Kept before (refs, stuck r) = Unit

  lengthened-Kept : (i : ℕ) (n : Node) → Kept (total weight n) (lengthened i n)
  unfolding total plus minus
  lengthened-Kept i (leaf v) = omega arith
  lengthened-Kept i (branch cs) = omega arith
  lengthened-Kept i (extension k n) = omega arith
  lengthened-Kept i (hash h n) = omega arith
  lengthened-Kept i (lost h) = omega arith
  lengthened-Kept i empty = omega arith

  only_child-Kept : (cs : ℕ → Node) (i : ℕ) (n : Node) → Kept (total weight n) (only_child cs i n)
  only_child-Kept cs i (leaf v) = lengthened-Kept i (leaf v)
  only_child-Kept cs i (branch bs) = lengthened-Kept i (branch bs)
  only_child-Kept cs i (extension k n) = lengthened-Kept i (extension k n)
  only_child-Kept cs i (hash h n) = unfold total in lengthened-Kept i n
  only_child-Kept cs i (lost h) = tt
  only_child-Kept cs i empty = lengthened-Kept i empty

  total_empty : (n : Node) → n ≡ empty → total weight n ≡ 0
  unfolding total
  total_empty n e = rw e refl

  unchanged : (before : ℕ) (n : Node) → before ≡ total weight n → Kept before ([], becomes n)
  unfolding plus minus
  unchanged before n e = omega (arith, e)

  several_left :
      (cs : ℕ → Node) → Kept (below weight cs) (added (branch cs) ∷ [], becomes (branch cs))
  unfolding total plus minus
  several_left cs = omega arith

  -- What is left of a branch accounts for its children.
  shrink-Kept : (cs : ℕ → Node) → Kept (below weight cs) (shrink cs)
  shrink-Kept cs = counted (tally children_count cs) refl (tally-Tallied children_count cs)
    where
      alone :
          (i : ℕ)
          → below weight cs ≡ total weight (cs i)
          → Kept
              (below weight cs)
              (if i == last_child then ([], becomes (cs i)) else only_child cs i (cs i))
      alone i e = elim (Bool-cases (i == last_child)) [
        | inl same ↦ rw same (unchanged (below weight cs) (cs i) e)
        | inr differ ↦ rw (differ, e) (only_child-Kept cs i (cs i))
      ]

      counted :
          (t : ℕ × ℕ)
          → tally children_count cs ≡ t
          → Tallied children_count cs t
          → Kept (below weight cs) (shrink cs)
      counted t e (nobody f) = rw e (
          alone 0 (
            sum_below-zero children_count (λ i. total weight (cs i))
              (λ i lt. total_empty (cs i) (f i lt))
            ∙ sym (total_empty (cs 0) (f 0 (omega arith)))))
      counted t e (only i lt some_one f) = rw e (
          alone i (
            sum_below-only children_count i (λ j. total weight (cs j)) lt
              (λ j lj ne. total_empty (cs j) (f j lj ne))))
      counted t e (several count i lt some_one two) =
          let more : ltb 1 count ≡ true = ground (arith, lt) in rw (e, more) (several_left cs)

  -- Calls one after the other.
  Kept-then :
      (before middle : ℕ) (old : Node) (refs : List Ref) (res : Delete)
      → plus weight refs + before ≡ minus weight refs + (weight old + middle)
      → Kept middle res
      → Kept before (refs ++ (removed old ∷ res.0), res.1)
  unfolding plus minus
  Kept-then before middle old refs (more, becomes r) e k =
      let p = plus-append weight refs (removed old ∷ more) in
      let m = minus-append weight refs (removed old ∷ more) in omega (arith, p, m, e, k)
  Kept-then before middle old refs (more, stuck r) e k = tt

  branch-Kept :
      (cs : ℕ → Node) (i : ℕ) (res : Delete)
      → i < children_count
      → Kept (total weight (cs i)) res
      → Kept (total weight (branch cs)) (delete_from_branch cs i res)
  unfolding total
  branch-Kept cs i (refs, stuck r) lt k = tt
  branch-Kept cs i (refs, becomes r) lt k =
      Kept-then (total weight (branch cs)) (below weight (put_child i r cs)) (branch cs) refs
        (shrink (put_child i r cs))
        (children_moved (below weight cs) (below weight (put_child i r cs))
          (below-put_child weight i r cs lt) k)
        (shrink-Kept (put_child i r cs))
    where
      children_moved :
          (b b' : ℕ)
          → b' + total weight (cs i) ≡ b + total weight r
          → plus weight refs + total weight (cs i) ≡ minus weight refs + total weight r
          → plus weight refs + (weight (branch cs) + b)
            ≡ minus weight refs + (weight (branch cs) + b')
      children_moved b b' e k = omega (arith, e, k)

  join_extension-Kept : (key : List ℕ) (r : Node) → Kept (total weight r) (join_extension key r)
  unfolding total plus minus
  join_extension-Kept key (leaf v) = omega arith
  join_extension-Kept key (branch cs) = omega arith
  join_extension-Kept key (extension k n) = omega arith
  join_extension-Kept key (hash h n) = omega arith
  join_extension-Kept key (lost h) = omega arith
  join_extension-Kept key empty = omega arith

  extension-Kept :
      (key : List ℕ) (next : Node) (res : Delete)
      → Kept (total weight next) res
      → Kept (total weight (extension key next)) (extension_deleted key next res)
  unfolding total
  extension-Kept key next (refs, stuck r) k = tt
  extension-Kept key next (refs, becomes r) k =
      Kept-then (total weight (extension key next)) (total weight r) (extension key next) refs
        (join_extension key r) (omega (arith, k)) (join_extension-Kept key r)

  hash-Kept :
      (h : List ℕ) (n : Node) (res : Delete)
      → Kept (total weight n) res
      → Kept (total weight (hash h n)) (deleted_in_store h n res)
  unfolding total
  hash-Kept h n (refs, becomes r) k = k
  hash-Kept h n (refs, stuck r) k = tt

  pub delete_from_node-Kept :
      (n : Node) (path : List ℕ) → IsPath path → Kept (total weight n) (delete_from_node n path)
  unfolding delete_from_node
  delete_from_node-Kept (leaf v) [] ip = unfold total plus minus in omega arith
  delete_from_node-Kept (leaf v) (x ∷ path) ip = unchanged (total weight (leaf v)) (leaf v) refl
  delete_from_node-Kept (branch cs) path ip =
      branch-Kept cs (split_path path).0
        (delete_from_node (cs (split_path path).0) (split_path path).1)
        (omega (arith, split_path-le path ip))
        (delete_from_node-Kept (cs (split_path path).0) (split_path path).1
          (split_path-IsPath path ip))
  delete_from_node-Kept (extension key next) path ip = elim (Option-cases (strip_prefix key path)) [
    | inl parts ↦ rw parts (unchanged (total weight (extension key next)) (extension key next) refl)
    | inr (rest, e) ↦ rw e (
        extension-Kept key next (delete_from_node next rest) (
          delete_from_node-Kept next rest (
            All-append_right IsNibble key rest
              (subst IsPath (strip_prefix-some key path rest e) ip))))
  ]
  delete_from_node-Kept (hash h n) path ip =
      hash-Kept h n (delete_from_node n path) (delete_from_node-Kept n path ip)
  delete_from_node-Kept (lost h) path ip = tt
  delete_from_node-Kept empty path ip = unchanged (total weight empty) empty refl
