-- ===== src/Mpt/Shrink.antt =====
-- pkg/core/mpt/trie.go: a branch after one of its children was replaced, as deleteFromBranch leaves it.
use epicchain_go.Common.{
  ℕ, zero, suc, ◌<◌, ◌≤◌, true, false, List, [], ◌∷◌, ltb, ◌==◌, ◌≡◌, ◌≢◌, refl, ap, sym, ◌∙◌, inl,
  inr, none, arith, Bool-cases, ==_iff,
}
use epicchain_go.Mpt.Node.{
  Node, leaf, branch, extension, hash, lost, empty, children_count, last_child, is_empty,
}
use epicchain_go.Mpt.Delete.{becomes, Delete, tally, lengthened, only_child, shrink}
use epicchain_go.Mpt.View.{View, under, value_at, IsNibble, IsStored, IsHead, IsEnd, HasTwo, IsTrie}
use epicchain_go.Mpt.Paths.{Same, under-append}
use epicchain_go.Mpt.Branches.{AreChildren, branch-IsTrie}

pub is_empty-true : (n : Node) → is_empty n ≡ true → n ≡ empty
is_empty-true (leaf v) e = cc
is_empty-true (branch cs) e = cc
is_empty-true (extension k n) e = cc
is_empty-true (hash h n) e = cc
is_empty-true (lost h) e = cc
is_empty-true empty e = refl

-- What the loop over the first `n` children finds.
pub data Tallied (n : ℕ) (cs : ℕ → Node) : ℕ × ℕ → Type 0 where
  nobody : ((j : ℕ) → j < n → cs j ≡ empty) → Tallied n cs (0, 0)
  only :
      (i : ℕ)
      → i < n
      → is_empty (cs i) ≡ false
      → ((j : ℕ) → j < n → i ≢ j → cs j ≡ empty)
      → Tallied n cs (1, i)
  several :
      (count i : ℕ) → 1 < count → is_empty (cs i) ≡ false → HasTwo cs → Tallied n cs (count, i)

pub tally-Tallied : (n : ℕ) (cs : ℕ → Node) → Tallied n cs (tally n cs)
unfolding tally
tally-Tallied zero cs = nobody (λ j lt. absurd (omega (arith, lt)))
tally-Tallied (suc n) cs = elim (Bool-cases (is_empty (cs n))) [
  | inl e ↦ rw e (skip (tally n cs) (is_empty-true (cs n) e) (tally-Tallied n cs))
  | inr e ↦ rw e (count_one (tally n cs) e (tally-Tallied n cs))
]
  where
    skip : (t : ℕ × ℕ) → cs n ≡ empty → Tallied n cs t → Tallied (suc n) cs t
    skip t e (nobody f) = nobody (λ j lt. elim (Bool-cases (j == n)) [
      | inl same ↦ rw ((==_iff j n).0 same) e
      | inr differ ↦ f j (ground arith)
    ])
    skip t e (only i lt filled f) = only i (omega (arith, lt)) filled (λ j lj ne.
        elim (Bool-cases (j == n)) [
          | inl same ↦ rw ((==_iff j n).0 same) e
          | inr differ ↦ f j (ground arith) ne
        ])
    skip t e (several count i lt filled two) = several count i lt filled two

    count_one :
        (t : ℕ × ℕ) → is_empty (cs n) ≡ false → Tallied n cs t → Tallied (suc n) cs (suc t.0, n)
    count_one t e (nobody f) = only n (omega arith) e (λ j lt ne. f j (ground (arith, lt, ne)))
    count_one t e (only i lt filled f) = several 2 n (omega arith) e (record {
      first = i;
      second = n;
      apart = λ x. ground (arith, lt);
      filled1 = filled;
      filled2 = e;
    })
    count_one t e (several count i lt filled two) = several (suc count) n (omega (arith, lt)) e two

-- What a node of a trie may become: no hash node of an extension.
abbrev pub IsRest : Node → Type 0
IsRest (leaf v) = Unit
IsRest (branch cs) = Unit
IsRest (extension k n) = Unit
IsRest (hash h n) = IsHead n
IsRest (lost h) = ⊥
IsRest empty = Unit

-- What ends a branch has no value but at the end.
pub value_at-IsEnd : (n : Node) (y : ℕ) (q : List ℕ) → IsEnd n → value_at n (y ∷ q) ≡ none
unfolding value_at
value_at-IsEnd (leaf v) y q e = refl
value_at-IsEnd (branch cs) y q e = absurd e
value_at-IsEnd (extension k n) y q e = absurd e
value_at-IsEnd (hash h n) y q e = value_at-IsEnd n y q e
value_at-IsEnd (lost h) y q e = refl
value_at-IsEnd empty y q e = refl

pub single_view :
    (cs : ℕ → Node) (i : ℕ)
    → i < children_count
    → i ≢ last_child
    → ((j : ℕ) → j < children_count → i ≢ j → cs j ≡ empty)
    → Same (value_at (branch cs)) (under (i ∷ []) (value_at (cs i)))
unfolding value_at under
single_view cs i lt ne f [] iq = ap (λ n. value_at n []) (f last_child (omega arith) ne)
single_view cs i lt ne f (y ∷ q) iq = elim (Bool-cases (i == y)) [
  | inl same ↦ rw (same, (==_iff i y).0 same) refl
  | inr differ ↦
      rw differ (ap (λ n. value_at n q) (f y (omega (arith, iq.0)) (λ e. ground (arith, differ))))
]

pub end_view :
    (cs : ℕ → Node)
    → IsEnd (cs last_child)
    → ((j : ℕ) → j < children_count → last_child ≢ j → cs j ≡ empty)
    → Same (value_at (branch cs)) (value_at (cs last_child))
unfolding value_at
end_view cs e f [] iq = refl
end_view cs e f (y ∷ q) iq =
    ap (λ n. value_at n q) (f y (omega (arith, iq.0)) (λ x. ground (arith, iq.0)))
    ∙ sym (value_at-IsEnd (cs last_child) y q e)

module _ (sha : List ℕ → List ℕ) where
  IsEnd-IsRest : (n : Node) → IsTrie sha n → IsEnd n → IsRest n
  IsEnd-IsRest (leaf v) t e = tt
  IsEnd-IsRest (branch cs) t e = tt
  IsEnd-IsRest (extension k n) t e = tt
  IsEnd-IsRest (hash h (leaf v)) t e = tt
  IsEnd-IsRest (hash h (branch cs)) t e = tt
  IsEnd-IsRest (hash h (extension k n)) t e = e
  IsEnd-IsRest (hash h (hash k n)) t e = absurd t.0.0
  IsEnd-IsRest (hash h (lost k)) t e = e
  IsEnd-IsRest (hash h empty) t e = absurd t.0.0
  IsEnd-IsRest (lost h) t e = e
  IsEnd-IsRest empty t e = tt

  -- A node that is a trie and holds what a given view tells.
  pub record Holds (view : View) (res : Delete) : Type 0 where
    pub node : Node
    pub is_done : res.1 ≡ becomes node
    pub trie : IsTrie sha node
    pub rest : IsRest node
    pub same : Same (value_at node) view

  extended :
      (i : ℕ) (n : Node) → IsNibble i → IsHead n → IsTrie sha n → IsTrie sha (extension (i ∷ []) n)
  extended i n ii h t = (((ii, tt), λ e. cc), (h, t))

  lengthened-Holds :
      (i : ℕ) (n : Node)
      → IsNibble i
      → IsStored n
      → IsTrie sha n
      → Holds (under (i ∷ []) (value_at n)) (lengthened i n)
  unfolding value_at under
  lengthened-Holds i (leaf v) ii s t = record {
    node = extension (i ∷ []) (leaf v);
    is_done = refl;
    trie = extended i (leaf v) ii tt t;
    rest = tt;
    same = λ q iq. refl;
  }
  lengthened-Holds i (branch cs) ii s t = record {
    node = extension (i ∷ []) (branch cs);
    is_done = refl;
    trie = extended i (branch cs) ii tt t;
    rest = tt;
    same = λ q iq. refl;
  }
  lengthened-Holds i (extension k n) ii s t = record {
    node = extension (i ∷ k) n;
    is_done = refl;
    trie = (((ii, t.0.0), λ e. cc), t.1);
    rest = tt;
    same = λ q iq. under-append (i ∷ []) k (value_at n) q;
  }
  lengthened-Holds i (hash h n) ii s t = absurd s
  lengthened-Holds i (lost h) ii s t = absurd s
  lengthened-Holds i empty ii s t = absurd s

  only_child-Holds :
      (cs : ℕ → Node) (i : ℕ) (n : Node)
      → IsNibble i
      → is_empty n ≡ false
      → IsTrie sha n
      → Holds (under (i ∷ []) (value_at n)) (only_child cs i n)
  only_child-Holds cs i (leaf v) ii e t = lengthened-Holds i (leaf v) ii tt t
  only_child-Holds cs i (branch bs) ii e t = lengthened-Holds i (branch bs) ii tt t
  only_child-Holds cs i (extension k n) ii e t = lengthened-Holds i (extension k n) ii tt t
  only_child-Holds cs i (hash h n) ii e t = unfold value_at in lengthened-Holds i n ii t.0.0 t.1
  only_child-Holds cs i (lost h) ii e t = absurd t
  only_child-Holds cs i empty ii e t = cc

  pub Holds-trans : (f g : View) (res : Delete) → Same f g → Holds f res → Holds g res
  Holds-trans f g res s h = record {
    node = h.node;
    is_done = h.is_done;
    trie = h.trie;
    rest = h.rest;
    same = λ q iq. h.same q iq ∙ s q iq;
  }

  -- A branch whose children are tries, of which one is left, becomes a trie with the same view.
  pub shrink-Holds :
      (cs : ℕ → Node) (k : ℕ)
      → k ≤ last_child
      → is_empty (cs k) ≡ false
      → AreChildren sha cs
      → Holds (value_at (branch cs)) (shrink cs)
  shrink-Holds cs k le filled all =
      counted (tally children_count cs) refl (tally-Tallied children_count cs)
    where
      counted :
          (t : ℕ × ℕ)
          → tally children_count cs ≡ t
          → Tallied children_count cs t
          → Holds (value_at (branch cs)) (shrink cs)
      counted t e (nobody f) =
          let none_left : is_empty (cs k) ≡ true = ap is_empty (f k (omega (arith, le))) in cc
      counted t e (only i lt some_one f) = elim (Bool-cases (i == last_child)) [
        | inl same ↦
            let at : i ≡ last_child = (==_iff i last_child).0 same in
            rw (e, same)
              (record {
                node = cs i;
                is_done = refl;
                trie = all.tries i;
                rest = rw at (IsEnd-IsRest (cs last_child) (all.tries last_child) all.end);
                same = λ q iq.
                    ap (λ j. value_at (cs j) q) at
                    ∙ sym (end_view cs all.end (only_last at f) q iq);
              })
        | inr differ ↦
            rw (e, differ)
              (Holds-trans (under (i ∷ []) (value_at (cs i))) (value_at (branch cs))
                (only_child cs i (cs i))
                (λ q iq. sym (single_view cs i lt (λ x. ground (arith, differ)) f q iq))
                (only_child-Holds cs i (cs i) (ground (arith, lt, differ)) some_one (all.tries i)))
      ]
        where
          only_last :
              i ≡ last_child
              → ((j : ℕ) → j < children_count → i ≢ j → cs j ≡ empty)
              → (j : ℕ) → j < children_count
              → last_child ≢ j
              → cs j ≡ empty
          only_last at g j lj ne = g j lj (λ x. ne (sym at ∙ x))
      counted t e (several count i lt some_one two) =
          let more : ltb 1 count ≡ true = ground (arith, lt) in
          rw (e, more)
            (record {
              node = branch cs;
              is_done = refl;
              trie = branch-IsTrie sha cs all two;
              rest = tt;
              same = λ q iq. refl;
            })
