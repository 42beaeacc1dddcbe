-- ===== src/Mpt/BatchNode.antt =====
-- pkg/core/mpt/batch.go: what PutBatch makes of a trie.
use epicchain_go.Common.{
  ℕ, zero, suc, ◌+◌, ◌*◌, ◌<◌, ◌≤◌, true, List, [], ◌∷◌, length, ltb, ◌≡◌, refl, sym, subst, ◌∙◌,
  inl, inr, none, some, All, All-append_left, arith, Bool-cases,
}
use epicchain_go.Mpt.Node.{Node, leaf, branch, extension, hash, lost, empty}
use epicchain_go.Mpt.Put.{removed, lcp}
use epicchain_go.Mpt.View.{View, under, value_at, IsNibble, IsPath, IsStored, IsEnd, IsTrie}
use epicchain_go.Mpt.Branches.{branch-AreChildren}
use epicchain_go.Mpt.Joined.{under-empty}
use epicchain_go.Mpt.Batch.{
  KeyValue, BatchResult, strip_key, strip_keys, lcp_many, new_sub_trie_many, after_removed,
  put_batch_into_extension, put_batch_into_node, longest, put_batch,
}
use epicchain_go.Mpt.BatchPaths.{
  apply_batch, apply_batch-Same, apply_batch-under, Fits, strip_keys-Fits, length-strip_keys,
  lcp_left, lcp_right, All-Begins, lcp_many-Begins,
}
use epicchain_go.Mpt.BatchBranch.{PutsBatch, PutsEnd}
use epicchain_go.Mpt.BatchMerge.{BatchedTo}
use epicchain_go.Mpt.BatchLaw.{
  more_refs-BatchedTo, BatchedTo-trans, IsEnd-first, add_to_branch-BatchedTo,
  new_sub_trie_many-BatchedTo,
}
use epicchain_go.Mpt.BatchExtension.{extension-BatchedTo}

module _ (sha : List ℕ → List ℕ) where
  leaf-IsEnd :
      (fuel : ℕ) (v : List ℕ) (x : KeyValue)
      → x.key ≡ []
      → BatchedTo sha
          (apply_batch (x ∷ []) (value_at (leaf v)))
          1
          (put_batch_into_node (suc fuel) (leaf v) (x ∷ []))
        × IsEnd (put_batch_into_node (suc fuel) (leaf v) (x ∷ [])).node
  unfolding put_batch_into_node
  leaf-IsEnd fuel v x e =
      let put : Node → List KeyValue → BatchResult = λ n kv. put_batch_into_node fuel n kv in
      let (b, ends_here) = IsEnd-first sha put x (some v) e in
      let view = apply_batch (x ∷ []) (value_at (leaf v)) in
      let r = new_sub_trie_many put [] (x ∷ []) (some v) in
      (
        BatchedTo-trans sha view view (1 + 0) 1 (after_removed (leaf v) r) (λ q iq. refl)
            (omega arith) (more_refs-BatchedTo sha view 1 0 (removed (leaf v) ∷ []) r b),
        ends_here,
      )

  empty-IsEnd :
      (fuel : ℕ) (x : KeyValue)
      → x.key ≡ []
      → BatchedTo sha
          (apply_batch (x ∷ []) (value_at empty))
          1
          (put_batch_into_node (suc fuel) empty (x ∷ []))
        × IsEnd (put_batch_into_node (suc fuel) empty (x ∷ [])).node
  unfolding put_batch_into_node lcp_many
  empty-IsEnd fuel x e =
      let put : Node → List KeyValue → BatchResult = λ n kv. put_batch_into_node fuel n kv in
      subst
        (λ k.
          BatchedTo sha (apply_batch (x ∷ []) (value_at empty)) 1
            (new_sub_trie_many put k (strip_keys (length k) (x ∷ [])) none)
          × IsEnd (new_sub_trie_many put k (strip_keys (length k) (x ∷ [])) none).node)
        (sym e) (IsEnd-first sha put x none e)

  -- A change at the end of a path needs two steps at most.
  put_batch-PutsEnd : (fuel : ℕ) → 2 ≤ fuel → PutsEnd sha (λ n kv. put_batch_into_node fuel n kv)
  unfolding put_batch_into_node value_at
  put_batch-PutsEnd zero le n x e t end = absurd (omega (arith, le))
  put_batch-PutsEnd (suc zero) le n x e t end = absurd (omega (arith, le))
  put_batch-PutsEnd (suc (suc fuel)) le (leaf v) x e t end = leaf-IsEnd (suc fuel) v x e
  put_batch-PutsEnd (suc (suc fuel)) le (branch cs) x e t end = absurd end
  put_batch-PutsEnd (suc (suc fuel)) le (extension k n) x e t end = absurd end
  put_batch-PutsEnd (suc (suc fuel)) le (hash h (leaf v)) x e t end = leaf-IsEnd fuel v x e
  put_batch-PutsEnd (suc (suc fuel)) le (hash h (branch cs)) x e t end = absurd end
  put_batch-PutsEnd (suc (suc fuel)) le (hash h (extension k n)) x e t end = absurd end
  put_batch-PutsEnd (suc (suc fuel)) le (hash h (hash k n)) x e t end = absurd t.0.0
  put_batch-PutsEnd (suc (suc fuel)) le (hash h (lost k)) x e t end = absurd end
  put_batch-PutsEnd (suc (suc fuel)) le (hash h empty) x e t end = absurd t.0.0
  put_batch-PutsEnd (suc (suc fuel)) le (lost h) x e t end = absurd end
  put_batch-PutsEnd (suc (suc fuel)) le empty x e t end = empty-IsEnd (suc fuel) x e

  -- Enough fuel for keys shorter than `m`; a hash node takes one step more.
  abbrev Fuel : Node → ℕ → ℕ → Type 0
  Fuel (hash h n) m fuel = 2 * m + 2 ≤ fuel
  Fuel (leaf v) m fuel = 2 * m + 1 ≤ fuel
  Fuel (branch cs) m fuel = 2 * m + 1 ≤ fuel
  Fuel (extension k n) m fuel = 2 * m + 1 ≤ fuel
  Fuel (lost h) m fuel = 2 * m + 1 ≤ fuel
  Fuel empty m fuel = 2 * m + 1 ≤ fuel

  any-Fuel : (n : Node) (m fuel : ℕ) → 2 * m + 2 ≤ fuel → Fuel n m fuel
  any-Fuel (leaf v) m fuel le = omega (arith, le)
  any-Fuel (branch cs) m fuel le = omega (arith, le)
  any-Fuel (extension k n) m fuel le = omega (arith, le)
  any-Fuel (hash h n) m fuel le = le
  any-Fuel (lost h) m fuel le = omega (arith, le)
  any-Fuel empty m fuel le = omega (arith, le)

  stored-Fuel : (n : Node) (m fuel : ℕ) → IsStored n → 2 * m + 1 ≤ fuel → Fuel n m fuel
  stored-Fuel (leaf v) m fuel s le = le
  stored-Fuel (branch cs) m fuel s le = le
  stored-Fuel (extension k n) m fuel s le = le
  stored-Fuel (hash h n) m fuel s le = absurd s
  stored-Fuel (lost h) m fuel s le = le
  stored-Fuel empty m fuel s le = le

  no-Fuel : (n : Node) (m : ℕ) → Fuel n m 0 → ⊥
  no-Fuel (leaf v) m le = omega (arith, le)
  no-Fuel (branch cs) m le = omega (arith, le)
  no-Fuel (extension k n) m le = omega (arith, le)
  no-Fuel (hash h n) m le = omega (arith, le)
  no-Fuel (lost h) m le = omega (arith, le)
  no-Fuel empty m le = omega (arith, le)

  -- The changes of a batch on an empty node, and on one that was removed.
  from_empty :
      (put : Node → List KeyValue → BatchResult) (m : ℕ)
      → PutsBatch sha put m
      → PutsEnd sha put
      → (x : KeyValue) (kv : List KeyValue) → All (Fits (suc m)) (x ∷ kv)
      → BatchedTo sha (apply_batch (x ∷ kv) (value_at empty)) (length (x ∷ kv)) (
          new_sub_trie_many put
            (lcp_many (x ∷ kv))
            (strip_keys (length (lcp_many (x ∷ kv))) (x ∷ kv))
            none)
  from_empty put m puts ends x kv fits =
      let common = lcp_many (x ∷ kv) in
      let n = length common in
      let begins = lcp_many-Begins x kv in
      let on_path = All-append_left IsNibble common begins.0.0 (subst IsPath begins.0.1 fits.0.0) in
      let batch = strip_keys n (x ∷ kv) in
      let inner = strip_keys-Fits common (suc m) (suc m) (x ∷ kv) (omega arith) begins fits in
      BatchedTo-trans sha (under common (apply_batch batch (value_at empty)))
        (apply_batch (x ∷ kv) (value_at empty)) (length batch) (length (x ∷ kv))
        (new_sub_trie_many put common batch none)
        (λ q iq.
          sym (apply_batch-under common (x ∷ kv) (value_at empty) begins q iq)
          ∙ apply_batch-Same (x ∷ kv) (under common (value_at empty)) (value_at empty)
              (λ s is. sym (under-empty common s)) q iq)
        (length-strip_keys n (x ∷ kv))
        (new_sub_trie_many-BatchedTo sha put m puts ends common (strip_key n x) (strip_keys n kv)
          none on_path inner)

  removed-BatchedTo :
      (view : View) (n : ℕ) (old : Node) (r : BatchResult)
      → BatchedTo sha view n r
      → BatchedTo sha view n (after_removed old r)
  removed-BatchedTo view n old r b =
      BatchedTo-trans sha view view (n + 0) n (after_removed old r) (λ q iq. refl) (omega arith)
        (more_refs-BatchedTo sha view n 0 (removed old ∷ []) r b)

  at_root :
      (view : View) (n : ℕ) (r : BatchResult)
      → BatchedTo sha (under [] view) n r
      → BatchedTo sha view n r
  unfolding under
  at_root view n r b = b

  hash-BatchedTo :
      (h : List ℕ) (n : Node) (kv : List KeyValue) (r : BatchResult)
      → BatchedTo sha (apply_batch kv (value_at n)) (length kv) r
      → BatchedTo sha (apply_batch kv (value_at (hash h n))) (length kv) r
  unfolding value_at
  hash-BatchedTo h n kv r b = b

  put_batch-PutsBatch :
      (fuel m : ℕ) (n : Node) (x : KeyValue) (kv : List KeyValue)
      → Fuel n m fuel
      → IsTrie sha n
      → All (Fits m) (x ∷ kv)
      → BatchedTo sha
          (apply_batch (x ∷ kv) (value_at n))
          (length (x ∷ kv))
          (put_batch_into_node fuel n (x ∷ kv))
  unfolding put_batch_into_node
  put_batch-PutsBatch zero m n x kv le t fits = absurd (no-Fuel n m le)
  put_batch-PutsBatch (suc fuel) zero n x kv le t fits = absurd (omega (arith, fits.0.1))
  put_batch-PutsBatch (suc fuel) (suc m) (leaf v) x kv le t fits =
      removed-BatchedTo (apply_batch (x ∷ kv) (value_at (leaf v))) (length (x ∷ kv)) (leaf v)
        (new_sub_trie_many (λ n kv. put_batch_into_node fuel n kv) [] (x ∷ kv) (some v))
        (at_root (apply_batch (x ∷ kv) (value_at (leaf v))) (length (x ∷ kv))
          (new_sub_trie_many (λ n kv. put_batch_into_node fuel n kv) [] (x ∷ kv) (some v))
          (new_sub_trie_many-BatchedTo sha (λ n kv. put_batch_into_node fuel n kv) m
            (λ n' x' kv' t' fits'.
              put_batch-PutsBatch fuel m n' x' kv' (any-Fuel n' m fuel (omega (arith, le))) t'
                fits')
            (put_batch-PutsEnd fuel (omega (arith, le))) [] x kv (some v) tt fits))
  put_batch-PutsBatch (suc fuel) (suc m) (branch cs) x kv le t fits =
      add_to_branch-BatchedTo sha (λ n kv. put_batch_into_node fuel n kv) m
        (λ n' x' kv' t' fits'.
          put_batch-PutsBatch fuel m n' x' kv' (any-Fuel n' m fuel (omega (arith, le))) t' fits')
        (put_batch-PutsEnd fuel (omega (arith, le))) cs (x ∷ kv) true (branch-AreChildren sha cs t)
        fits
  put_batch-PutsBatch (suc fuel) (suc m) (extension key next) x kv le t fits =
      let common = lcp_many (x ∷ kv) in
      let pref = lcp common key in
      let (rest, e) = lcp_right common key in
      let put : Node → List KeyValue → BatchResult = λ n kv. put_batch_into_node fuel n kv in
      removed-BatchedTo (apply_batch (x ∷ kv) (value_at (extension key next))) (length (x ∷ kv))
        (extension key next) (put_batch_into_extension put pref key next (x ∷ kv))
        (extension-BatchedTo sha put m
          (λ n' x' kv' t' fits'.
            put_batch-PutsBatch fuel m n' x' kv' (any-Fuel n' m fuel (omega (arith, le))) t' fits')
          (put_batch-PutsEnd fuel (omega (arith, le))) pref rest key next x kv e t
          (All-Begins pref common (x ∷ kv) (lcp_left common key) (lcp_many-Begins x kv)) fits)
  put_batch-PutsBatch (suc fuel) (suc m) (hash h n) x kv le t fits =
      hash-BatchedTo h n (x ∷ kv) (put_batch_into_node fuel n (x ∷ kv)) (
        put_batch-PutsBatch fuel (suc m) n x kv
          (stored-Fuel n (suc m) fuel t.0.0 (omega (arith, le))) t.1 fits)
  put_batch-PutsBatch (suc fuel) (suc m) (lost h) x kv le t fits = absurd t
  put_batch-PutsBatch (suc fuel) (suc m) empty x kv le t fits =
      from_empty (λ n kv. put_batch_into_node fuel n kv) m
        (λ n' x' kv' t' fits'.
          put_batch-PutsBatch fuel m n' x' kv' (any-Fuel n' m fuel (omega (arith, le))) t' fits')
        (put_batch-PutsEnd fuel (omega (arith, le))) x kv fits

  Fits-All :
      (kv : List KeyValue) (m : ℕ) → All (λ x. IsPath x.key) kv → longest kv < m → All (Fits m) kv
  unfolding longest
  Fits-All [] m a lt = tt
  Fits-All (x ∷ kv) m a lt = elim (Bool-cases (ltb (longest kv) (length x.key))) [
    | inl long ↦
        let lt' : length x.key < m = rw long at lt in
        ((a.0, lt'), Fits-All kv m a.1 (ground (arith, long, lt')))
    | inr short ↦
        let lt' : longest kv < m = rw short at lt in
        ((a.0, ground (arith, short, lt')), Fits-All kv m a.1 lt')
  ]

  pub put_batch-BatchedTo :
      (kv : List KeyValue) (root : Node)
      → IsTrie sha root
      → All (λ x. IsPath x.key) kv
      → BatchedTo sha (apply_batch kv (value_at root)) (length kv) (put_batch kv root)
  unfolding put_batch apply_batch
  put_batch-BatchedTo [] root t a = record {
    ok = refl;
    trie = t;
    same = λ q iq. refl;
    counted = refl;
  }
  put_batch-BatchedTo (x ∷ kv) root t a =
      let m = suc (longest (x ∷ kv)) in
      put_batch-PutsBatch (2 * longest (x ∷ kv) + 4) m root x kv
        (any-Fuel root m (2 * longest (x ∷ kv) + 4) (omega arith)) t
        (Fits-All (x ∷ kv) m a (omega arith))
