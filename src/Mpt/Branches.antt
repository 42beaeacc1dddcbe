-- ===== src/Mpt/Branches.antt =====
-- pkg/core/mpt/trie.go: what newSubTrie and a new branch hold.
use epicchain_go.Common.{
  ℕ, ◌<◌, ◌≤◌, false, List, [], ◌∷◌, ◌==◌, ◌≡◌, ◌≢◌, refl, inl, inr, some, arith, Bool-cases,
  ==_iff, ==-refl,
}
use epicchain_go.Mpt.Node.{
  Node, leaf, branch, extension, hash, lost, empty, last_child, put_child, no_children, is_empty,
  split_path,
}
use epicchain_go.Mpt.Put.{wrap_sub_trie}
use epicchain_go.Mpt.View.{under, value_at, update, IsPath, IsStored, IsHead, IsEnd, HasTwo, IsTrie}

pub ==-other : (a b : ℕ) → a ≢ b → (a == b) ≡ false
==-other a b e = ground arith

-- The node that newSubTrie answers.
abbrev pub sub_trie : List ℕ → Node → Node
sub_trie path n = (wrap_sub_trie path n).1

pub value_at-sub_trie :
    (path : List ℕ) (n : Node) (q : List ℕ)
    → value_at (sub_trie path n) q ≡ under path (value_at n) q
unfolding value_at under
value_at-sub_trie [] n q = refl
value_at-sub_trie (x ∷ path) n q = refl

pub under-leaf :
    (path v q : List ℕ) → under path (value_at (leaf v)) q ≡ update path (some v) (value_at empty) q
unfolding value_at under update
under-leaf [] v [] = refl
under-leaf [] v (y ∷ q) = refl
under-leaf (x ∷ path) v [] = refl
under-leaf (x ∷ path) v (y ∷ q) = elim (Bool-cases (x == y)) [
  | inl same ↦ rw (same, under-leaf path v q) refl
  | inr differ ↦ rw differ refl
]

pub sub_trie-filled :
    (path : List ℕ) (n : Node) → is_empty n ≡ false → is_empty (sub_trie path n) ≡ false
sub_trie-filled [] n e = e
sub_trie-filled (x ∷ path) n e = refl

pub IsHead-filled : (n : Node) → IsHead n → is_empty n ≡ false
IsHead-filled (leaf v) h = refl
IsHead-filled (branch cs) h = refl
IsHead-filled (extension k n) h = refl
IsHead-filled (hash k n) h = refl
IsHead-filled (lost k) h = refl
IsHead-filled empty h = elim h [ ]

pub IsStored-filled : (n : Node) → IsStored n → is_empty n ≡ false
IsStored-filled (leaf v) h = refl
IsStored-filled (branch cs) h = refl
IsStored-filled (extension k n) h = refl
IsStored-filled (hash k n) h = refl
IsStored-filled (lost k) h = refl
IsStored-filled empty h = elim h [ ]

-- The value at a path of a branch is that of the child splitPath tells at the rest.
pub value_at-branch :
    (cs : ℕ → Node) (q : List ℕ)
    → value_at (branch cs) q ≡ value_at (cs (split_path q).0) (split_path q).1
unfolding value_at
value_at-branch cs [] = refl
value_at-branch cs (y ∷ q) = refl

pub split_path-le : (q : List ℕ) → IsPath q → (split_path q).0 ≤ last_child
split_path-le [] p = omega arith
split_path-le (y ∷ q) p = omega (arith, p.0)

pub split_path-IsPath : (q : List ℕ) → IsPath q → IsPath (split_path q).1
split_path-IsPath [] p = tt
split_path-IsPath (y ∷ q) p = p.1

module _ (sha : List ℕ → List ℕ) where
  pub sub_trie-IsTrie :
      (path : List ℕ) (n : Node)
      → IsPath path
      → IsHead n
      → IsTrie sha n
      → IsTrie sha (sub_trie path n)
  sub_trie-IsTrie [] n p h t = t
  sub_trie-IsTrie (x ∷ path) n p h t = ((p, λ e. cc), (h, t))

  -- What a child at an index has to be.
  pub record IsChild (i : ℕ) (n : Node) : Type 0 where
    pub le : i ≤ last_child
    pub trie : IsTrie sha n
    pub end : i ≡ last_child → IsEnd n

  -- What the children of a branch are, but for their number.
  pub record AreChildren (cs : ℕ → Node) : Type 0 where
    pub end : IsEnd (cs last_child)
    pub beyond : (i : ℕ) → last_child < i → cs i ≡ empty
    pub tries : (i : ℕ) → IsTrie sha (cs i)

  pub put_child-AreChildren :
      (i : ℕ) (r : Node) (cs : ℕ → Node)
      → IsChild i r
      → AreChildren cs
      → AreChildren (put_child i r cs)
  put_child-AreChildren i r cs c all = record {
    end = elim (Bool-cases (i == last_child)) [
      | inl same ↦ rw same (c.end ((==_iff i last_child).0 same))
      | inr differ ↦ rw differ all.end
    ];
    beyond = λ j lt. rw (==-other i j (λ e. ground (arith, c.le))) (all.beyond j lt);
    tries = λ j. elim (Bool-cases (i == j)) [
      | inl same ↦ rw same c.trie
      | inr differ ↦ rw differ (all.tries j)
    ];
  }

  pub branch-AreChildren : (cs : ℕ → Node) → IsTrie sha (branch cs) → AreChildren cs
  branch-AreChildren cs t = record { end = t.0.end; beyond = t.0.beyond; tries = t.1 }

  -- With two that are not empty they make a trie.
  pub branch-IsTrie : (cs : ℕ → Node) → AreChildren cs → HasTwo cs → IsTrie sha (branch cs)
  branch-IsTrie cs all two = (record { two = two; end = all.end; beyond = all.beyond }, all.tries)

  pub no_children-AreChildren : AreChildren no_children
  no_children-AreChildren = record { end = tt; beyond = λ i lt. refl; tries = λ i. tt }

  -- A branch with two children.
  pub put_two-IsTrie :
      (i j : ℕ) (a b : Node)
      → i ≢ j
      → IsChild i a
      → IsChild j b
      → is_empty a ≡ false
      → is_empty b ≡ false
      → IsTrie sha (branch (put_child i a (put_child j b no_children)))
  put_two-IsTrie i j a b apart ca cb fa fb =
      branch-IsTrie (put_child i a (put_child j b no_children))
        (put_child-AreChildren i a (put_child j b no_children) ca
          (put_child-AreChildren j b no_children cb no_children-AreChildren))
        (record {
          first = i;
          second = j;
          apart = apart;
          filled1 = rw (==-refl i) fa;
          filled2 = rw (==-other i j apart, ==-refl j) fb;
        })
