-- ===== src/Mpt/Balance.antt =====
-- pkg/core/mpt/trie.go: the calls of addRef and removeRef account for the nodes that come and go.
use epicchain_go.Common.{
  ℕ, ◌+◌, List, [], ◌∷◌, ◌++◌, ◌≡◌, ◌≢◌, ap, sym, subst, inl, inr, arith, Option-cases,
}
use epicchain_go.Mpt.Node.{
  Node, leaf, branch, extension, hash, lost, empty, last_child, put_child, no_children, split_path,
}
use epicchain_go.Mpt.Get.{strip_prefix, done, failed, panicked}
use epicchain_go.Mpt.Put.{
  Ref, added, removed, Put, put_into_leaf, replaced, under_shared, fork, put_into_node,
  wrap_sub_trie,
}
use epicchain_go.Mpt.View.{IsNibble, IsPath, IsTrie}
use epicchain_go.Mpt.Paths.{IsOther, strip_prefix-some, strip_prefix-Parts}
use epicchain_go.Mpt.Branches.{sub_trie, split_path-le, split_path-IsPath}
use epicchain_go.Mpt.Views.{All-append_right}
use epicchain_go.Mpt.Totals.{
  total, plus, minus, plus-append, minus-append, below-put_child, below-put_two, plus-wrap_sub_trie,
  minus-wrap_sub_trie,
}

module _ (weight : Node → ℕ) where
  -- What was there and what is added is what is left and what is removed; a call that fails adds nothing
  -- up.
  abbrev pub Balanced : ℕ → Put → Type 0
  Balanced before (refs, done r) = plus weight refs + before ≡ minus weight refs + total weight r
  Balanced before (refs, failed e) = Unit
  Balanced before (refs, panicked) = Unit

  replaced-Balanced :
      (old next : Node) (wrap : Node → Node) (res : Put)
      → ((r : Node)
          → total weight (wrap r) + (weight old + total weight next)
            ≡ weight (wrap r) + (total weight old + total weight r))
      → Balanced (total weight next) res
      → Balanced (total weight old) (replaced old wrap res)
  unfolding plus minus
  replaced-Balanced old next wrap (refs, done r) e b =
      let x = plus-append weight refs (added (wrap r) ∷ []) in
      let y = minus-append weight refs (added (wrap r) ∷ []) in omega (arith, x, y, e r, b)
  replaced-Balanced old next wrap (refs, failed x) e b = tt
  replaced-Balanced old next wrap (refs, panicked) e b = tt

  put_into_leaf-Balanced :
      (w path v : List ℕ) → IsPath path → Balanced (total weight (leaf w)) (put_into_leaf w path v)
  unfolding put_into_leaf total plus minus
  put_into_leaf-Balanced w [] v ip = omega arith
  put_into_leaf-Balanced w (x ∷ path) v ip =
      let r = sub_trie path (leaf v) in
      let b = branch (put_child last_child (leaf w) (put_child x r no_children)) in
      let refs = (wrap_sub_trie path (leaf v)).0 in
      let p = plus-append weight refs (added b ∷ []) in
      let m = minus-append weight refs (added b ∷ []) in
      let s =
        below-put_two weight last_child x (leaf w) r (omega arith) (omega (arith, ip.0))
          (λ e. omega (arith, e, ip.0)) in
      omega (
        arith,
        p,
        m,
        s,
        plus-wrap_sub_trie weight path (leaf v),
        minus-wrap_sub_trie weight path (leaf v),
      )

  under_shared-Balanced :
      (pref : List ℕ) (b : Node) (refs : List Ref) (before : ℕ)
      → Balanced before (refs, done b)
      → Balanced before (under_shared pref b refs)
  unfolding total plus minus
  under_shared-Balanced [] b refs before e = e
  under_shared-Balanced (x ∷ pref) b refs before e =
      let p = plus-append weight refs (added (extension (x ∷ pref) b) ∷ []) in
      let m = minus-append weight refs (added (extension (x ∷ pref) b) ∷ []) in
      omega (arith, p, m, e)

  plus-fork :
      (a b : List Ref) (m n : Node)
      → plus weight (a ++ (added m ∷ (b ++ (added n ∷ []))))
        ≡ plus weight a + (weight m + (plus weight b + weight n))
  unfolding plus
  plus-fork a b m n =
      let x = plus-append weight a (added m ∷ (b ++ (added n ∷ []))) in
      let y = plus-append weight b (added n ∷ []) in omega (arith, x, y)

  minus-fork :
      (a b : List Ref) (m n : Node)
      → minus weight (a ++ (added m ∷ (b ++ (added n ∷ [])))) ≡ minus weight a + minus weight b
  unfolding minus
  minus-fork a b m n =
      let x = minus-append weight a (added m ∷ (b ++ (added n ∷ []))) in
      let y = minus-append weight b (added n ∷ []) in omega (arith, x, y)

  fork_sum :
      (refs1 refs2 : List Ref) (m b s1 s2 : Node) (before : ℕ)
      → plus weight refs1 + before ≡ total weight s1
      → minus weight refs1 ≡ 0
      → plus weight refs2 + weight m ≡ total weight s2
      → minus weight refs2 ≡ 0
      → total weight b ≡ weight b + (total weight s2 + total weight s1)
      → Balanced before (refs1 ++ (added m ∷ (refs2 ++ (added b ∷ []))), done b)
  fork_sum refs1 refs2 m b s1 s2 before e1 z1 e2 z2 e =
      omega (arith, plus-fork refs1 refs2 m b, minus-fork refs1 refs2 m b, e1, z1, e2, z2, e)

  fork-Balanced :
      (pref : List ℕ) (x : ℕ) (key_tail path_tail v : List ℕ) (next : Node)
      → IsNibble x
      → IsPath path_tail
      → IsOther x path_tail
      → Balanced (total weight next) (fork pref (x ∷ key_tail) path_tail next v)
  unfolding total plus minus
  fork-Balanced pref x key_tail path_tail v next ix ip other =
      let i = (split_path path_tail).0 in
      let rest = (split_path path_tail).1 in
      let s1 = sub_trie key_tail next in
      let s2 = sub_trie rest (leaf v) in
      let b = branch (put_child i s2 (put_child x s1 no_children)) in
      let refs1 = (wrap_sub_trie key_tail next).0 in
      let refs2 = (wrap_sub_trie rest (leaf v)).0 in
      let s =
        below-put_two weight i x s2 s1 (omega (arith, split_path-le path_tail ip))
          (omega (arith, ix)) (apart path_tail ip other) in
      under_shared-Balanced pref b (refs1 ++ (added (leaf v) ∷ (refs2 ++ (added b ∷ []))))
        (total weight next)
        (fork_sum refs1 refs2 (leaf v) b s1 s2 (total weight next)
          (plus-wrap_sub_trie weight key_tail next) (minus-wrap_sub_trie weight key_tail next)
          (plus-wrap_sub_trie weight rest (leaf v)) (minus-wrap_sub_trie weight rest (leaf v))
          (ap (λ k. weight b + k) s))
    where
      apart : (p : List ℕ) → IsPath p → IsOther x p → (split_path p).0 ≢ x
      apart [] q o e = omega (arith, ix, e)
      apart (y ∷ p) q o e = o (sym e)

  more_removed :
      (n : Node) (before : ℕ) (res : Put)
      → Balanced before res
      → Balanced (weight n + before) (removed n ∷ res.0, res.1)
  unfolding plus minus
  more_removed n before (refs, done r) b = omega (arith, b)
  more_removed n before (refs, failed e) b = tt
  more_removed n before (refs, panicked) b = tt

  pub put_into_node-Balanced :
      (sha : List ℕ → List ℕ) (n : Node) (path v : List ℕ)
      → IsTrie sha n
      → IsPath path
      → Balanced (total weight n) (put_into_node n path v)
  unfolding put_into_node total plus minus
  put_into_node-Balanced sha (leaf w) path v t ip = put_into_leaf-Balanced w path v ip
  put_into_node-Balanced sha (branch cs) path v t ip =
      let i = (split_path path).0 in
      replaced-Balanced (branch cs) (cs i) (λ r. branch (put_child i r cs))
        (put_into_node (cs i) (split_path path).1 v)
        (λ r.
          let s = below-put_child weight i r cs (omega (arith, split_path-le path ip)) in
          omega (arith, s))
        (put_into_node-Balanced sha (cs i) (split_path path).1 v (t.1 i)
          (split_path-IsPath path ip))
  put_into_node-Balanced sha (extension key next) path v t ip =
      elim (Option-cases (strip_prefix key path)) [
        | inl parts ↦
            let p = strip_prefix-Parts key path parts in
            let on_key =
              All-append_right IsNibble p.shared (p.turn ∷ p.key_tail)
                (subst IsPath p.key_eq t.0.0) in
            let b =
              fork-Balanced p.shared p.turn p.key_tail p.path_tail v next on_key.0
                (All-append_right IsNibble p.shared p.path_tail (subst IsPath p.path_eq ip))
                p.other in
            rw (parts, p.key_drop, p.path_drop, p.lcp_eq)
              (more_removed (extension key next) (total weight next)
                (fork p.shared (p.turn ∷ p.key_tail) p.path_tail next v) b)
        | inr (rest, e) ↦ rw e (
            replaced-Balanced (extension key next) next (extension key) (put_into_node next rest v)
              (λ r. omega arith)
              (put_into_node-Balanced sha next rest v t.1.1 (
                All-append_right IsNibble key rest
                  (subst IsPath (strip_prefix-some key path rest e) ip))))
      ]
  put_into_node-Balanced sha (hash h n) path v t ip = put_into_node-Balanced sha n path v t.1 ip
  put_into_node-Balanced sha (lost h) path v t ip = tt
  put_into_node-Balanced sha empty path v t ip =
      omega
        (arith, plus-wrap_sub_trie weight path (leaf v), minus-wrap_sub_trie weight path (leaf v))
