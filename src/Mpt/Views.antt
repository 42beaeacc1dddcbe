-- ===== src/Mpt/Views.antt =====
-- pkg/core/mpt/trie.go: the views of the branches that Put makes.
use epicchain_go.Common.{
  ℕ, true, List, [], ◌∷◌, ◌++◌, ◌==◌, ◌≡◌, ◌≢◌, refl, ap, sym, ◌∙◌, inl, inr, Option, some, All,
  arith, Bool-cases, ==_iff,
}
use epicchain_go.Mpt.Node.{Node, leaf, branch, last_child, put_child, no_children, split_path}
use epicchain_go.Mpt.View.{under, value_at, update, IsNibble, IsPath}
use epicchain_go.Mpt.Paths.{Same, IsOther}
use epicchain_go.Mpt.Branches.{==-other, sub_trie, value_at-sub_trie, under-leaf}

pub All-append_right {ℓ κ} :
    {A : Type ℓ} (P : A → Type κ) (xs ys : List A) → All P (xs ++ ys) → All P ys
All-append_right P [] ys a = a
All-append_right P (x ∷ xs) ys a = All-append_right P xs ys a.1

pub put_child_hit : (i j : ℕ) (r : Node) (cs : ℕ → Node) → (i == j) ≡ true → put_child i r cs j ≡ r
put_child_hit i j r cs e = rw e refl

pub put_child_other : (i j : ℕ) (r : Node) (cs : ℕ → Node) → i ≢ j → put_child i r cs j ≡ cs j
put_child_other i j r cs e = rw (==-other i j e) refl

-- A branch with a child replaced, where the child's view changes at one path.
pub put_child-update :
    (cs : ℕ → Node) (p : List ℕ) (v : Option (List ℕ)) (r : Node)
    → IsPath p
    → Same (value_at r) (update (split_path p).1 v (value_at (cs (split_path p).0)))
    → Same (value_at (branch (put_child (split_path p).0 r cs))) (update p v (value_at (branch cs)))
unfolding value_at update
put_child-update cs [] v r ip s [] iq = s [] tt
put_child-update cs [] v r ip s (y ∷ q) iq =
    ap (λ n. value_at n q) (put_child_other last_child y r cs (λ e. ground (arith, iq.0)))
put_child-update cs (x ∷ p) v r ip s [] iq =
    ap (λ n. value_at n []) (put_child_other x last_child r cs (λ e. ground (arith, ip.0)))
put_child-update cs (x ∷ p) v r ip s (y ∷ q) iq = elim (Bool-cases (x == y)) [
  | inl same ↦
      ap (λ n. value_at n q) (put_child_hit x y r cs same)
      ∙ rw (same, ← (==_iff x y).0 same) (s q iq.1)
  | inr differ ↦
      ap (λ n. value_at n q) (put_child_other x y r cs (λ e. ground (arith, differ)))
      ∙ rw differ refl
]

-- A leaf's value moves into the last child of a branch.
pub put_into_leaf-view :
    (w : List ℕ) (x : ℕ) (path v : List ℕ)
    → IsPath (x ∷ path)
    → Same
        (value_at (
          branch
            (put_child last_child (leaf w) (put_child x (sub_trie path (leaf v)) no_children))))
        (update (x ∷ path) (some v) (value_at (leaf w)))
unfolding value_at update
put_into_leaf-view w x path v ip [] iq = refl
put_into_leaf-view w x path v ip (y ∷ q) iq =
    let cs = put_child x (sub_trie path (leaf v)) no_children in
    ap (λ n. value_at n q) (put_child_other last_child y (leaf w) cs (λ e. ground (arith, iq.0)))
    ∙ elim (Bool-cases (x == y)) [
      | inl same ↦ rw same (value_at-sub_trie path (leaf v) q ∙ under-leaf path v q)
      | inr differ ↦ rw differ refl
    ]

pub update_leaf : (w v : List ℕ) → Same (value_at (leaf v)) (update [] (some v) (value_at (leaf w)))
unfolding value_at update
update_leaf w v [] iq = refl
update_leaf w v (y ∷ q) iq = refl

-- The branch at which a key and a path part.
pub fork-view :
    (x : ℕ) (key_tail path_tail v : List ℕ) (next : Node)
    → IsNibble x
    → IsPath path_tail
    → IsOther x path_tail
    → Same
        (value_at (
          branch (
            put_child
              (split_path path_tail).0
              (sub_trie (split_path path_tail).1 (leaf v))
              (put_child x (sub_trie key_tail next) no_children))))
        (update path_tail (some v) (under (x ∷ key_tail) (value_at next)))
unfolding value_at update under
fork-view x key_tail [] v next ix ip other [] iq = refl
fork-view x key_tail [] v next ix ip other (y ∷ q) iq =
    let cs = put_child x (sub_trie key_tail next) no_children in
    ap (λ n. value_at n q) (put_child_other last_child y (leaf v) cs (λ e. ground (arith, iq.0)))
    ∙ elim (Bool-cases (x == y)) [
      | inl same ↦ rw same (value_at-sub_trie key_tail next q)
      | inr differ ↦ rw differ refl
    ]
fork-view x key_tail (z ∷ path_tail) v next ix ip other [] iq =
    let cs = put_child x (sub_trie key_tail next) no_children in
    ap (λ n. value_at n [])
      (put_child_other z last_child (sub_trie path_tail (leaf v)) cs (λ e. ground (arith, ip.0))
        ∙ put_child_other x last_child (sub_trie key_tail next) no_children
            (λ e. ground (arith, ix)))
fork-view x key_tail (z ∷ path_tail) v next ix ip other (y ∷ q) iq = elim (Bool-cases (z == y)) [
  | inl same ↦
      let cs = put_child x (sub_trie key_tail next) no_children in
      ap (λ n. value_at n q) (put_child_hit z y (sub_trie path_tail (leaf v)) cs same)
      ∙ rw (same, ==-other x y (λ e. other (e ∙ sym ((==_iff z y).0 same))))
          (value_at-sub_trie path_tail (leaf v) q ∙ under-leaf path_tail v q)
  | inr differ ↦
      let cs = put_child x (sub_trie key_tail next) no_children in
      ap (λ n. value_at n q)
        (put_child_other z y (sub_trie path_tail (leaf v)) cs (λ e. ground (arith, differ)))
      ∙ rw differ (elim (Bool-cases (x == y)) [
        | inl same ↦ rw same (value_at-sub_trie key_tail next q)
        | inr differ2 ↦ rw differ2 refl
      ])
]
