-- ===== src/Mpt/BatchLaw.antt =====
-- pkg/core/mpt/batch.go: what newSubTrieMany, addToBranch and putBatchIntoExtensionNoPrefix answer.
use epicchain_go.Common.{
  ℕ, suc, ◌+◌, Bool, false, List, [], ◌∷◌, length, ◌==◌, ◌≡◌, refl, ap, sym, ◌∙◌, inl, inr, Option,
  none, some, All, arith, Bool-cases,
}
use epicchain_go.Mpt.Node.{Node, leaf, branch, extension, empty, last_child, put_child, no_children}
use epicchain_go.Mpt.Put.{Ref}
use epicchain_go.Mpt.View.{View, under, update, value_at, IsNibble, IsPath, IsEnd, IsTrie}
use epicchain_go.Mpt.Paths.{Same, under-Same}
use epicchain_go.Mpt.Branches.{
  sub_trie, value_at-sub_trie, sub_trie-IsTrie, AreChildren, put_child-AreChildren,
  no_children-AreChildren,
}
use epicchain_go.Mpt.Views.{put_child_hit, put_child_other}
use epicchain_go.Mpt.Joined.{under-empty}
use epicchain_go.Mpt.Batch.{
  KeyValue, BatchResult, merge_result, iterate_batch, add_to_branch, value_children, value_refs,
  more_refs, sub_branch, by_first, new_sub_trie_many, put_batch_no_prefix,
}
use epicchain_go.Mpt.BatchPaths.{apply_batch, apply_batch-Same, Fits}
use epicchain_go.Mpt.BatchBranch.{PutsBatch, PutsEnd, iterate_batch-IteratedTo}
use epicchain_go.Mpt.BatchMerge.{
  BatchedTo, merge_result-BatchedTo, strip_branch-MergedTo, all_empty_view,
}

-- The view of a value at the end of a path.
abbrev pub value_node : Option (List ℕ) → Node
value_node none = empty
value_node (some v) = leaf v

value_children_view :
    (o : Option (List ℕ)) → Same (value_at (branch (value_children o))) (value_at (value_node o))
unfolding value_at
value_children_view none q iq = sym (all_empty_view no_children (λ j lt. refl) q iq)
value_children_view (some v) [] iq = refl
value_children_view (some v) (y ∷ q) iq =
    ap (λ n. value_at n q)
      (put_child_other last_child y (leaf v) no_children (λ e. omega (arith, e, iq.0)))

-- A value at the end replaces what was there.
update_end :
    (v o : Option (List ℕ)) → Same (update [] v (value_at (value_node o))) (value_at (value_node v))
unfolding value_at update
update_end none none [] iq = refl
update_end none none (y ∷ q) iq = refl
update_end none (some w) [] iq = refl
update_end none (some w) (y ∷ q) iq = refl
update_end (some v) none [] iq = refl
update_end (some v) none (y ∷ q) iq = refl
update_end (some v) (some w) [] iq = refl
update_end (some v) (some w) (y ∷ q) iq = refl

one_child_view :
    (c : ℕ) (key : List ℕ) (next : Node)
    → IsNibble c
    → Same
        (value_at (branch (put_child c (sub_trie key next) no_children)))
        (under (c ∷ key) (value_at next))
unfolding value_at under
one_child_view c key next ic [] iq =
    ap (λ n. value_at n [])
      (put_child_other c last_child (sub_trie key next) no_children (λ e. omega (arith, e, ic)))
one_child_view c key next ic (y ∷ q) iq = elim (Bool-cases (c == y)) [
  | inl same ↦
      ap (λ n. value_at n q) (put_child_hit c y (sub_trie key next) no_children same)
      ∙ rw same (value_at-sub_trie key next q)
  | inr differ ↦
      ap (λ n. value_at n q)
        (put_child_other c y (sub_trie key next) no_children (λ e. ground (arith, differ)))
      ∙ rw differ refl
]

-- The first element at the end of the path replaces what was there.
first_view :
    (x : KeyValue) (kv : List KeyValue) (v o : Option (List ℕ))
    → x.key ≡ []
    → x.value ≡ v
    → Same
        (apply_batch (x ∷ kv) (value_at (value_node o)))
        (apply_batch kv (value_at (value_node v)))
unfolding apply_batch
first_view x kv v o ek ev =
    apply_batch-Same kv (update x.key x.value (value_at (value_node o))) (value_at (value_node v))
      (λ t it.
        ap (λ k. update k x.value (value_at (value_node o)) t) ek
        ∙ ap (λ w. update [] w (value_at (value_node o)) t) ev
        ∙ update_end v o t it)

module _ (sha : List ℕ → List ℕ) where
  pub more_refs-BatchedTo :
      (view : View) (n k : ℕ) (refs : List Ref) (r : BatchResult)
      → BatchedTo sha view n r
      → BatchedTo sha view (n + k) (more_refs refs k r)
  more_refs-BatchedTo view n k refs r b = record {
    ok = b.ok;
    trie = b.trie;
    same = b.same;
    counted = omega (arith, b.counted);
  }

  pub BatchedTo-trans :
      (f g : View) (n m : ℕ) (r : BatchResult)
      → Same f g
      → n ≡ m
      → BatchedTo sha f n r
      → BatchedTo sha g m r
  BatchedTo-trans f g n m r s e b = record {
    ok = b.ok;
    trie = b.trie;
    same = λ q iq. b.same q iq ∙ s q iq;
    counted = b.counted ∙ e;
  }

  value_children-AreChildren : (o : Option (List ℕ)) → AreChildren sha (value_children o)
  value_children-AreChildren none = no_children-AreChildren sha
  value_children-AreChildren (some v) =
      put_child-AreChildren sha last_child (leaf v) no_children
        (record { le = omega arith; trie = tt; end = λ e. tt }) (no_children-AreChildren sha)

  pub IsEnd-first :
      (put : Node → List KeyValue → BatchResult) (x : KeyValue) (o : Option (List ℕ))
      → x.key ≡ []
      → BatchedTo sha
          (apply_batch (x ∷ []) (value_at (value_node o)))
          1
          (new_sub_trie_many put [] (x ∷ []) o)
        × IsEnd (new_sub_trie_many put [] (x ∷ []) o).node
  unfolding new_sub_trie_many apply_batch
  IsEnd-first put x o e = by_value x.key x.value e (update_end x.value o)
    where
      by_value :
          (k : List ℕ) (v : Option (List ℕ))
          → k ≡ []
          → Same (update [] v (value_at (value_node o))) (value_at (value_node v))
          → BatchedTo sha
              (update k v (value_at (value_node o)))
              1
              (by_first put [] x [] o (new_sub_trie_many put [] [] none) k v)
            × IsEnd (by_first put [] x [] o (new_sub_trie_many put [] [] none) k v).node
      by_value [] none e s =
          (record { ok = refl; trie = tt; same = λ q iq. sym (s q iq); counted = refl }, tt)
      by_value [] (some v) e s =
          (record { ok = refl; trie = tt; same = λ q iq. sym (s q iq); counted = refl }, tt)
      by_value (c ∷ k) v e s = cc

  module _ (put : Node → List KeyValue → BatchResult) (m : ℕ) (puts : PutsBatch sha put m)
      (ends : PutsEnd sha put) where
    pub add_to_branch-BatchedTo :
        (cs : ℕ → Node) (kv : List KeyValue) (in_trie : Bool)
        → AreChildren sha cs
        → All (Fits (suc m)) kv
        → BatchedTo sha
            (apply_batch kv (value_at (branch cs)))
            (length kv)
            (add_to_branch put cs kv in_trie)
    add_to_branch-BatchedTo cs kv in_trie all fits =
        let it =
          iterate_batch-IteratedTo sha put m puts ends (length kv) cs kv (omega arith) all fits in
        let s = strip_branch-MergedTo sha (iterate_batch put (length kv) cs kv).children it.all in
        record {
          ok = rw it.ok s.ok;
          trie = s.trie;
          same = λ q iq. s.same q iq ∙ it.same q iq;
          counted = it.counted;
        }

    sub_branch-BatchedTo :
        (prefix : List ℕ) (kv : List KeyValue) (o : Option (List ℕ))
        → IsPath prefix
        → All (Fits (suc m)) kv
        → BatchedTo sha
            (under prefix (apply_batch kv (value_at (value_node o))))
            (length kv)
            (sub_branch put prefix kv o)
    sub_branch-BatchedTo prefix kv o ip fits =
        let b =
          add_to_branch-BatchedTo (value_children o) kv false (value_children-AreChildren o) fits in
        let r = add_to_branch put (value_children o) kv false in
        let view = apply_batch kv (value_at (branch (value_children o))) in
        BatchedTo-trans (under prefix view)
          (under prefix (apply_batch kv (value_at (value_node o)))) (length kv + 0) (length kv)
          (sub_branch put prefix kv o)
          (under-Same prefix view (apply_batch kv (value_at (value_node o))) (
            apply_batch-Same kv (value_at (branch (value_children o))) (value_at (value_node o))
              (value_children_view o)))
          (omega arith)
          (more_refs-BatchedTo (under prefix view) (length kv) 0 (value_refs o)
            (merge_result prefix r) (merge_result-BatchedTo sha prefix view (length kv) r ip b))

    -- The answer for the rest of a batch, if there is a rest.
    abbrev NextDone : List ℕ → List KeyValue → BatchResult → Type 0
    NextDone prefix [] r = Unit
    NextDone prefix (y ∷ kv) r =
        BatchedTo sha (under prefix (apply_batch (y ∷ kv) (value_at empty))) (length (y ∷ kv)) r

    by_first-BatchedTo :
        (prefix : List ℕ) (x : KeyValue) (kv : List KeyValue) (o : Option (List ℕ))
        (next : BatchResult) (k : List ℕ) (v : Option (List ℕ))
        → IsPath prefix
        → All (Fits (suc m)) (x ∷ kv)
        → x.key ≡ k
        → x.value ≡ v
        → NextDone prefix kv next
        → BatchedTo sha
            (under prefix (apply_batch (x ∷ kv) (value_at (value_node o))))
            (length (x ∷ kv))
            (by_first put prefix x kv o next k v)
    by_first-BatchedTo prefix x [] o next [] none ip fits ek ev done =
        unfold apply_batch in
        record {
          ok = refl;
          trie = tt;
          same = λ q iq.
              under-empty prefix q
              ∙ sym (
                  under-Same prefix (apply_batch (x ∷ []) (value_at (value_node o)))
                    (value_at empty) (first_view x [] none o ek ev) q iq);
          counted = refl;
        }
    by_first-BatchedTo prefix x (y ∷ kv) o next [] none ip fits ek ev done =
        let view = apply_batch (y ∷ kv) (value_at empty) in
        let all = apply_batch (x ∷ (y ∷ kv)) (value_at (value_node o)) in
        BatchedTo-trans (under prefix view) (under prefix all) (suc (length kv) + 1)
          (suc (suc (length kv))) (more_refs [] 1 next)
          (λ q iq. sym (under-Same prefix all view (first_view x (y ∷ kv) none o ek ev) q iq))
          (omega arith) (more_refs-BatchedTo (under prefix view) (suc (length kv)) 1 [] next done)
    by_first-BatchedTo prefix x [] o next [] (some v) ip fits ek ev done =
        unfold apply_batch in
        record {
          ok = refl;
          trie = sub_trie-IsTrie sha prefix (leaf v) ip tt tt;
          same = λ q iq.
              value_at-sub_trie prefix (leaf v) q
              ∙ sym (
                  under-Same prefix (apply_batch (x ∷ []) (value_at (value_node o)))
                    (value_at (leaf v)) (first_view x [] (some v) o ek ev) q iq);
          counted = refl;
        }
    by_first-BatchedTo prefix x (y ∷ kv) o next [] (some v) ip fits ek ev done =
        let whole = x ∷ (y ∷ kv) in
        let here = apply_batch whole (value_at (value_node (some v))) in
        let all = apply_batch whole (value_at (value_node o)) in
        BatchedTo-trans (under prefix here) (under prefix all) (length whole) (length whole)
          (sub_branch put prefix whole (some v))
          (under-Same prefix here all (λ q iq.
            first_view x (y ∷ kv) (some v) (some v) ek ev q iq
            ∙ sym (first_view x (y ∷ kv) (some v) o ek ev q iq)))
          refl (sub_branch-BatchedTo prefix whole (some v) ip fits)
    by_first-BatchedTo prefix x kv o next (c ∷ k) v ip fits ek ev done =
        sub_branch-BatchedTo prefix (x ∷ kv) o ip fits

    pub new_sub_trie_many-BatchedTo :
        (prefix : List ℕ) (x : KeyValue) (kv : List KeyValue) (o : Option (List ℕ))
        → IsPath prefix
        → All (Fits (suc m)) (x ∷ kv)
        → BatchedTo sha
            (under prefix (apply_batch (x ∷ kv) (value_at (value_node o))))
            (length (x ∷ kv))
            (new_sub_trie_many put prefix (x ∷ kv) o)
    unfolding new_sub_trie_many
    new_sub_trie_many-BatchedTo prefix x [] o ip fits =
        by_first-BatchedTo prefix x [] o (new_sub_trie_many put prefix [] none) x.key x.value ip
          fits refl refl tt
    new_sub_trie_many-BatchedTo prefix x (y ∷ kv) o ip fits =
        by_first-BatchedTo prefix x (y ∷ kv) o (new_sub_trie_many put prefix (y ∷ kv) none) x.key
          x.value ip fits refl refl (new_sub_trie_many-BatchedTo prefix y kv none ip fits.1)

    pub put_batch_no_prefix-BatchedTo :
        (c : ℕ) (key : List ℕ) (next : Node) (kv : List KeyValue)
        → IsTrie sha (extension (c ∷ key) next)
        → All (Fits (suc m)) kv
        → BatchedTo sha
            (apply_batch kv (under (c ∷ key) (value_at next)))
            (length kv)
            (put_batch_no_prefix put (c ∷ key) next kv)
    put_batch_no_prefix-BatchedTo c key next kv t fits =
        let cs = put_child c (sub_trie key next) no_children in
        let all : AreChildren sha cs =
          put_child-AreChildren sha c (sub_trie key next) no_children
            (record {
              le = omega (arith, t.0.0.0);
              trie = sub_trie-IsTrie sha key next t.0.0.1 t.1.0 t.1.1;
              end = λ e. absurd (omega (arith, e, t.0.0.0));
            })
            (no_children-AreChildren sha) in
        BatchedTo-trans (apply_batch kv (value_at (branch cs)))
          (apply_batch kv (under (c ∷ key) (value_at next))) (length kv + 0) (length kv)
          (put_batch_no_prefix put (c ∷ key) next kv)
          (apply_batch-Same kv (value_at (branch cs)) (under (c ∷ key) (value_at next))
            (one_child_view c key next t.0.0.0))
          (omega arith)
          (more_refs-BatchedTo (apply_batch kv (value_at (branch cs))) (length kv) 0 _
            (add_to_branch put cs kv false) (add_to_branch-BatchedTo cs kv false all fits))
