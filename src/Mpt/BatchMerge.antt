-- ===== src/Mpt/BatchMerge.antt =====
-- pkg/core/mpt/batch.go: mergeExtension and stripBranch.
use epicchain_go.Common.{
  ℕ, ◌<◌, false, List, [], ◌∷◌, ◌++◌, ◌==◌, ◌≡◌, ◌≢◌, refl, ap, sym, ◌∙◌, inl, inr, none, All,
  arith, Bool-cases, ==_iff,
}
use epicchain_go.Mpt.Node.{
  Node, leaf, branch, extension, hash, lost, empty, children_count, last_child, put_child,
}
use epicchain_go.Mpt.Delete.{tally}
use epicchain_go.Mpt.View.{View, under, update, value_at, IsNibble, IsPath, IsHead, IsTrie}
use epicchain_go.Mpt.Paths.{Same, under-append, under-Same}
use epicchain_go.Mpt.Branches.{AreChildren, branch-IsTrie}
use epicchain_go.Mpt.Views.{put_child_hit, put_child_other, put_child-update}
use epicchain_go.Mpt.Shrink.{Tallied, nobody, only, several, tally-Tallied, single_view, end_view}
use epicchain_go.Mpt.Joined.{All-append, under-empty}
use epicchain_go.Mpt.Batch.{
  KeyValue, BatchResult, Merged, wrap_merged, merge_extension, merge_result, strip_branch,
  strip_keys,
}
use epicchain_go.Mpt.BatchPaths.{apply_batch, Begins, group_nil, group_other, group_same}

-- The view of a branch whose child `c` got a group of changes.
pub put_child-group :
    (c : ℕ) (r : Node) (cs : ℕ → Node) (g : List KeyValue)
    → IsNibble c
    → All (Begins (c ∷ [])) g
    → Same (value_at r) (apply_batch (strip_keys 1 g) (value_at (cs c)))
    → Same (value_at (branch (put_child c r cs))) (apply_batch g (value_at (branch cs)))
unfolding value_at
put_child-group c r cs g ic a s [] iq =
    ap (λ n. value_at n []) (put_child_other c last_child r cs (λ e. omega (arith, e, ic)))
    ∙ sym (group_nil c g (value_at (branch cs)) a)
put_child-group c r cs g ic a s (y ∷ q) iq = elim (Bool-cases (c == y)) [
  | inl same ↦
      ap (λ n. value_at n q) (put_child_hit c y r cs same)
      ∙ s q iq.1
      ∙ sym (group_same c g (value_at (branch cs)) (value_at (cs c)) a (λ t it. refl) q iq.1)
      ∙ ap (λ z. apply_batch g (value_at (branch cs)) (z ∷ q)) ((==_iff c y).0 same)
  | inr differ ↦
      let ne : c ≢ y = λ x. ground (arith, differ) in
      ap (λ n. value_at n q) (put_child_other c y r cs ne)
      ∙ sym (group_other c y q g (value_at (branch cs)) ne a)
]

-- And of one whose last child got one.
pub end_group :
    (r : BatchResult) (cs : ℕ → Node) (x : KeyValue)
    → x.key ≡ []
    → Same (value_at r.node) (apply_batch (x ∷ []) (value_at (cs last_child)))
    → Same
        (value_at (branch (put_child last_child r.node cs)))
        (apply_batch (x ∷ []) (value_at (branch cs)))
unfolding apply_batch
end_group r cs x e s q iq =
    put_child-update cs [] x.value r.node tt
      (λ t it. s t it ∙ ap (λ k. update k x.value (value_at (cs last_child)) t) e) q iq
    ∙ sym (ap (λ k. update k x.value (value_at (branch cs)) q) e)

pub all_empty_view :
    (cs : ℕ → Node)
    → ((j : ℕ) → j < children_count → cs j ≡ empty)
    → Same (value_at empty) (value_at (branch cs))
unfolding value_at
all_empty_view cs f [] iq = sym (ap (λ n. value_at n []) (f last_child (omega arith)))
all_empty_view cs f (y ∷ q) iq = sym (ap (λ n. value_at n q) (f y (omega (arith, iq.0))))

module _ (sha : List ℕ → List ℕ) where
  -- No error, and a trie with the given view.
  pub record MergedTo (view : View) (m : Merged) : Type 0 where
    pub ok : m.err ≡ none
    pub trie : IsTrie sha m.node
    pub same : Same (value_at m.node) view

  pub record BatchedTo (view : View) (n : ℕ) (r : BatchResult) : Type 0 where
    pub ok : r.err ≡ none
    pub trie : IsTrie sha r.node
    pub same : Same (value_at r.node) view
    pub counted : r.count ≡ n

  wrap_merged-MergedTo :
      (p : List ℕ) (n : Node)
      → IsPath p
      → IsHead n
      → IsTrie sha n
      → MergedTo (under p (value_at n)) (wrap_merged p n)
  unfolding value_at under
  wrap_merged-MergedTo [] n ip h t = record { ok = refl; trie = t; same = λ q iq. refl }
  wrap_merged-MergedTo (x ∷ p) n ip h t = record {
    ok = refl;
    trie = ((ip, λ e. cc), (h, t));
    same = λ q iq. refl;
  }

  merge_extension-MergedTo :
      (p : List ℕ) (n : Node)
      → IsPath p
      → IsTrie sha n
      → MergedTo (under p (value_at n)) (merge_extension p n)
  unfolding value_at
  merge_extension-MergedTo p (leaf v) ip t = wrap_merged-MergedTo p (leaf v) ip tt t
  merge_extension-MergedTo p (branch cs) ip t = wrap_merged-MergedTo p (branch cs) ip tt t
  merge_extension-MergedTo p (extension k n) ip t = record {
    ok = refl;
    trie = ((All-append IsNibble p k ip t.0.0, λ e. append-filled_right p k t.0.1 e), t.1);
    same = λ q iq. under-append p k (value_at n) q;
  }
    where
      append-filled_right : (a b : List ℕ) → b ≢ [] → a ++ b ≢ []
      append-filled_right [] b e = e
      append-filled_right (x ∷ a) b e = λ y. cc
  merge_extension-MergedTo p (hash h n) ip t = merge_extension-MergedTo p n ip t.1
  merge_extension-MergedTo p (lost h) ip t = absurd t
  merge_extension-MergedTo p empty ip t = record {
    ok = refl;
    trie = tt;
    same = λ q iq. under-empty p q;
  }

  pub merge_result-BatchedTo :
      (p : List ℕ) (view : View) (n : ℕ) (r : BatchResult)
      → IsPath p
      → BatchedTo view n r
      → BatchedTo (under p view) n (merge_result p r)
  merge_result-BatchedTo p view n r ip b =
      let m = merge_extension-MergedTo p r.node ip b.trie in
      rw b.ok (record {
        ok = m.ok;
        trie = m.trie;
        same = λ q iq. m.same q iq ∙ under-Same p (value_at r.node) view b.same q iq;
        counted = b.counted;
      })

  pub strip_branch-MergedTo :
      (cs : ℕ → Node) → AreChildren sha cs → MergedTo (value_at (branch cs)) (strip_branch cs)
  strip_branch-MergedTo cs all =
      counted (tally children_count cs) refl (tally-Tallied children_count cs)
    where
      counted :
          (t : ℕ × ℕ)
          → tally children_count cs ≡ t
          → Tallied children_count cs t
          → MergedTo (value_at (branch cs)) (strip_branch cs)
      counted t e (nobody f) = rw e (record { ok = refl; trie = tt; same = all_empty_view cs f })
      counted t e (only i lt some_one f) = elim (Bool-cases (i == last_child)) [
        | inl same ↦
            let at : i ≡ last_child = (==_iff i last_child).0 same in
            rw (e, same)
              (record {
                ok = refl;
                trie = all.tries i;
                same = λ q iq.
                    ap (λ j. value_at (cs j) q) at
                    ∙ sym (end_view cs all.end (λ j lj ne. f j lj (λ x. ne (sym at ∙ x))) q iq);
              })
        | inr differ ↦
            let m =
              merge_extension-MergedTo (i ∷ []) (cs i) (ground (arith, lt, differ), tt)
                (all.tries i) in
            rw (e, differ)
              (record {
                ok = m.ok;
                trie = m.trie;
                same = λ q iq.
                    m.same q iq ∙ sym (single_view cs i lt (λ x. ground (arith, differ)) f q iq);
              })
      ]
      counted t e (several count i lt some_one two) =
          let more0 : (count == 0) ≡ false = ground (arith, lt) in
          let more1 : (count == 1) ≡ false = ground (arith, lt) in
          rw (e, more0, more1)
            (record { ok = refl; trie = branch-IsTrie sha cs all two; same = λ q iq. refl })
