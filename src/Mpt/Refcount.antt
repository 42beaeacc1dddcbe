-- ===== src/Mpt/Refcount.antt =====
-- pkg/core/mpt/trie.go: the map of reference counts, an int32 as its residue modulo 2 ^ 32.
use epicchain_go.Common.{
  ℕ, ◌+◌, ◌%◌, ◌<◌, Bool, true, false, List, [], ◌∷◌, length, ◌==◌, if◌then◌else◌, ◌≡◌, refl, ap,
  inl, inr, Option, none, some, arith, Bool-cases, bytes_beq, bytes_beq_iff, bytes_eq, Map, lookup,
  insert, lookup-insert,
}
use epicchain_go.Mpt.Node.{Node, hash_of}
use epicchain_go.Mpt.Put.{Ref, added, removed}
use epicchain_go.Mpt.Totals.{plus, minus, has_hash}

-- An empty `bytes` is nil.
pub record CachedNode : Type 0 where
  pub bytes : List ℕ
  pub initial : ℕ
  pub refcount : ℕ

abbrev pub Refcounts : Type 0
Refcounts = Map (List ℕ) CachedNode

abbrev int32_range : ℕ
int32_range = 4294967296

abbrev minus_one : ℕ
minus_one = 4294967295

-- An entry with `n` added to its count, and the bytes if it has none.
abbrev pub counted : ℕ → List ℕ → Option CachedNode → CachedNode
counted n bs none = record { bytes = bs; initial = 0; refcount = n }
counted n bs (some node) = record node {
  refcount = (node.refcount + n) % int32_range;
  bytes = if length node.bytes == 0 then bs else node.bytes;
}

unfoldable pub add_ref : List ℕ → List ℕ → Refcounts → Refcounts
add_ref h bs m = insert h (counted 1 bs (lookup h m)) m

unfoldable pub remove_ref : List ℕ → List ℕ → Refcounts → Refcounts
remove_ref h bs m = insert h (counted minus_one bs (lookup h m)) m

abbrev pub count_of : Option CachedNode → ℕ
count_of none = 0
count_of (some node) = node.refcount

removed_step :
    (hit : Bool) (after added_on removed_on next before : ℕ)
    → (after + removed_on) % int32_range ≡ (next + added_on) % int32_range
    → next % int32_range ≡ (before + (if hit then minus_one else 0)) % int32_range
    → (after + ((if hit then 1 else 0) + removed_on)) % int32_range
      ≡ (before + added_on) % int32_range
removed_step true after added_on removed_on next before e i = omega (arith, e, i)
removed_step false after added_on removed_on next before e i = omega (arith, e, i)

-- `encode` is Bytes.
module _ (sha : List ℕ → List ℕ) (encode : Node → List ℕ) where
  -- The calls that were made, one after the other.
  unfoldable pub apply_refs : List Ref → Refcounts → Refcounts
  apply_refs [] m = m
  apply_refs (added n ∷ refs) m = apply_refs refs (add_ref (hash_of sha n) (encode n) m)
  apply_refs (removed n ∷ refs) m = apply_refs refs (remove_ref (hash_of sha n) (encode n) m)

  counted-count :
      (n : ℕ) (bs : List ℕ) (o : Option CachedNode)
      → n < int32_range
      → count_of (some (counted n bs o)) ≡ (count_of o + n) % int32_range
  counted-count n bs none lt = omega (arith, lt)
  counted-count n bs (some node) lt = refl

  insert-count :
      (h g : List ℕ) (n : ℕ) (bs : List ℕ) (m : Refcounts)
      → n < int32_range
      → count_of (lookup g (insert h (counted n bs (lookup h m)) m)) % int32_range
        ≡ (count_of (lookup g m) + (if bytes_beq h g then n else 0)) % int32_range
  insert-count h g n bs m lt =
      rw (lookup-insert h g (counted n bs (lookup h m)) m) (elim (Bool-cases (bytes_beq h g)) [
        | inl same ↦ rw same (
            step (counted-count n bs (lookup h m) lt)
              (ap (λ k. count_of (lookup k m)) ((bytes_beq_iff h g).0 same)))
        | inr differ ↦ rw differ (omega arith)
      ])
    where
      step :
          count_of (some (counted n bs (lookup h m))) ≡ (count_of (lookup h m) + n) % int32_range
          → count_of (lookup h m) ≡ count_of (lookup g m)
          → count_of (some (counted n bs (lookup h m))) % int32_range
            ≡ (count_of (lookup g m) + n) % int32_range
      step a b = omega (arith, a, b)

  -- The counts after some calls are those before with what was added and without what was removed.
  pub apply_refs-count :
      (refs : List Ref) (m : Refcounts) (h : List ℕ)
      → (count_of (lookup h (apply_refs refs m)) + minus (has_hash sha h) refs) % int32_range
        ≡ (count_of (lookup h m) + plus (has_hash sha h) refs) % int32_range
  unfolding apply_refs plus minus add_ref remove_ref
  apply_refs-count [] m h = omega arith
  apply_refs-count (added n ∷ refs) m h =
      let e =
        apply_refs-count refs
          (insert (hash_of sha n) (counted 1 (encode n) (lookup (hash_of sha n) m)) m) h in
      let i = insert-count (hash_of sha n) h 1 (encode n) m (omega arith) in omega (arith, e, i)
  apply_refs-count (removed n ∷ refs) m h =
      let e =
        apply_refs-count refs
          (insert (hash_of sha n) (counted minus_one (encode n) (lookup (hash_of sha n) m)) m) h in
      let i = insert-count (hash_of sha n) h minus_one (encode n) m (omega arith) in
      removed_step (bytes_beq (hash_of sha n) h)
        (count_of (lookup h (apply_refs refs (remove_ref (hash_of sha n) (encode n) m))))
        (plus (has_hash sha h) refs) (minus (has_hash sha h) refs)
        (count_of (lookup h (remove_ref (hash_of sha n) (encode n) m))) (count_of (lookup h m)) e i
