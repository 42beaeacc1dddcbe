-- ===== src/Mpt/BatchBranch.antt =====
-- pkg/core/mpt/batch.go: iterateBatch.
use epicchain_go.Common.{
  ℕ, zero, suc, ◌<◌, ◌≤◌, false, List, [], ◌∷◌, ◌++◌, length, take, drop, ◌==◌, ◌≡◌, refl, ap, sym,
  subst, ◌∙◌, inl, inr, none, All, All-append_left, arith, take-append-drop, length-append,
}
use epicchain_go.Mpt.Node.{Node, branch, last_child, put_child}
use epicchain_go.Mpt.View.{View, value_at, IsPath, IsEnd, IsTrie}
use epicchain_go.Mpt.Paths.{Same}
use epicchain_go.Mpt.Branches.{AreChildren, put_child-AreChildren}
use epicchain_go.Mpt.Views.{All-append_right}
use epicchain_go.Mpt.Batch.{
  KeyValue, BatchResult, strip_key, strip_keys, run_length, Iterated, iterate_on, iterate_batch,
}
use epicchain_go.Mpt.BatchPaths.{
  apply_batch, apply_batch-Same, apply_batch-append, Fits, run-Begins, strip_keys-Fits,
  length-strip_keys, List-cases,
}
use epicchain_go.Mpt.BatchMerge.{BatchedTo, end_group, put_child-group}

module _ (sha : List ℕ → List ℕ) where
  -- What the function that is called for the children has to do: below a path, and at the end.
  abbrev pub PutsBatch : (Node → List KeyValue → BatchResult) → ℕ → Type 0
  PutsBatch put m =
      (n : Node) (x : KeyValue) (kv : List KeyValue)
      → IsTrie sha n
      → All (Fits m) (x ∷ kv)
      → BatchedTo sha (apply_batch (x ∷ kv) (value_at n)) (length (x ∷ kv)) (put n (x ∷ kv))

  abbrev pub PutsEnd : (Node → List KeyValue → BatchResult) → Type 0
  PutsEnd put =
      (n : Node) (x : KeyValue)
      → x.key ≡ []
      → IsTrie sha n
      → IsEnd n
      → BatchedTo sha (apply_batch (x ∷ []) (value_at n)) 1 (put n (x ∷ []))
        × IsEnd (put n (x ∷ [])).node

  pub record IteratedTo (view : View) (n : ℕ) (it : Iterated) : Type 0 where
    pub ok : it.err ≡ none
    pub all : AreChildren sha it.children
    pub same : Same (value_at (branch it.children)) view
    pub counted : it.count ≡ n

  -- The answer for a group, and then for what follows it.
  iterate_on-IteratedTo :
      (c : ℕ) (r : BatchResult) (cs : ℕ → Node) (rest : Iterated) (group kv : List KeyValue)
      → r.err ≡ none
      → r.count ≡ length group
      → Same (value_at (branch (put_child c r.node cs))) (apply_batch group (value_at (branch cs)))
      → IteratedTo (apply_batch kv (value_at (branch (put_child c r.node cs)))) (length kv) rest
      → IteratedTo
          (apply_batch (group ++ kv) (value_at (branch cs)))
          (length (group ++ kv))
          (iterate_on c r cs rest r.err)
  iterate_on-IteratedTo c r cs rest group kv ok n s it = rw ok (record {
    ok = it.ok;
    all = it.all;
    same = λ q iq.
        it.same q iq
        ∙ apply_batch-Same kv (value_at (branch (put_child c r.node cs)))
            (apply_batch group (value_at (branch cs))) s q iq
        ∙ sym (apply_batch-append group kv (value_at (branch cs)) q);
    counted = omega (arith, n, it.counted, length-append group kv);
  })

  whole_batch :
      (x : KeyValue) (kv : List KeyValue) (cs : ℕ → Node) (n : ℕ) (it : Iterated)
      → IteratedTo
          (apply_batch ((x ∷ take n kv) ++ drop n kv) (value_at (branch cs)))
          (length ((x ∷ take n kv) ++ drop n kv))
          it
      → IteratedTo (apply_batch (x ∷ kv) (value_at (branch cs))) (length (x ∷ kv)) it
  whole_batch x kv cs n it h =
      subst (λ l. IteratedTo (apply_batch (x ∷ l) (value_at (branch cs))) (length (x ∷ l)) it)
        (take-append-drop n kv) h

  pub iterate_batch-IteratedTo :
      (put : Node → List KeyValue → BatchResult) (m : ℕ)
      → PutsBatch put m
      → PutsEnd put
      → (fuel : ℕ) (cs : ℕ → Node) (kv : List KeyValue) → length kv ≤ fuel
      → AreChildren sha cs
      → All (Fits (suc m)) kv
      → IteratedTo
          (apply_batch kv (value_at (branch cs)))
          (length kv)
          (iterate_batch put fuel cs kv)
  unfolding iterate_batch apply_batch
  iterate_batch-IteratedTo put m puts ends zero cs [] le all fits = record {
    ok = refl;
    all = all;
    same = λ q iq. refl;
    counted = refl;
  }
  iterate_batch-IteratedTo put m puts ends zero cs (x ∷ kv) le all fits = absurd (omega (arith, le))
  iterate_batch-IteratedTo put m puts ends (suc fuel) cs [] le all fits = record {
    ok = refl;
    all = all;
    same = λ q iq. refl;
    counted = refl;
  }
  iterate_batch-IteratedTo put m puts ends (suc fuel) cs (x ∷ kv) le all fits =
      elim (List-cases x.key) [
        | inl e ↦
            let x' : KeyValue = record { key = []; value = x.value } in
            let (b, ends_here) = ends (cs last_child) x' refl (all.tries last_child) all.end in
            let r = put (cs last_child) (x' ∷ []) in
            rw e (
              iterate_on-IteratedTo last_child r cs
                (iterate_batch put fuel (put_child last_child r.node cs) kv) (x' ∷ []) kv b.ok
                b.counted (end_group r cs x' refl b.same)
                (iterate_batch-IteratedTo put m puts ends fuel (put_child last_child r.node cs) kv
                  (omega (arith, le))
                  (put_child-AreChildren sha last_child r.node cs
                    (record { le = omega arith; trie = b.trie; end = λ w. ends_here }) all)
                  fits.1))
        | inr (c, k, e) ↦
            let x' : KeyValue = record { key = c ∷ k; value = x.value } in
            let fit : Fits (suc m) x' = subst (λ t. IsPath t × (length t < suc m)) e fits.0 in
            let n = run_length c kv in
            let split : take n kv ++ drop n kv ≡ kv = take-append-drop n kv in
            let both = subst (All (Fits (suc m))) (sym split) fits.1 in
            let group = x' ∷ take n kv in
            let group_fits : All (Fits (suc m)) group =
              (fit, All-append_left (Fits (suc m)) (take n kv) (drop n kv) both) in
            let inner : (c == last_child) ≡ false = ground (arith, fit.0.0) in
            let b = puts (cs c) (strip_key 1 x') (strip_keys 1 (take n kv)) (all.tries c) (
              strip_keys-Fits (c ∷ []) m (suc m) group (omega arith) ((k, refl), run-Begins c kv)
                group_fits) in
            let r = put (cs c) (strip_keys 1 group) in
            rw (e, inner)
              (whole_batch x' kv cs n
                (iterate_on c r cs (iterate_batch put fuel (put_child c r.node cs) (drop n kv))
                  r.err)
                (iterate_on-IteratedTo c r cs
                  (iterate_batch put fuel (put_child c r.node cs) (drop n kv)) group (drop n kv)
                  b.ok (b.counted ∙ length-strip_keys 1 group)
                  (put_child-group c r.node cs group fit.0.0 ((k, refl), run-Begins c kv) b.same)
                  (iterate_batch-IteratedTo put m puts ends fuel (put_child c r.node cs) (drop n kv)
                    (omega (arith, le, length-append (take n kv) (drop n kv), ap length split))
                    (put_child-AreChildren sha c r.node cs
                      (record {
                        le = omega (arith, fit.0.0);
                        trie = b.trie;
                        end = λ w. absurd (ground (arith, fit.0.0, w));
                      })
                      all)
                    (All-append_right (Fits (suc m)) (take n kv) (drop n kv) both))))
      ]
