-- ===== src/Mpt/Totals.antt =====
-- pkg/core/mpt/trie.go: sums over the nodes of a trie and over the calls of addRef and removeRef.
use epicchain_go.Common.{
  bytes_beq, ℕ, zero, suc, ◌+◌, ◌<◌, List, [], ◌∷◌, ◌++◌, ◌==◌, if◌then◌else◌, ◌≡◌, ◌≢◌, refl, ap,
  sym, inl, inr, arith, Bool-cases, ==_iff,
}
use epicchain_go.Mpt.Node.{
  Node, leaf, branch, extension, hash, lost, empty, children_count, put_child, no_children, hash_of,
}
use epicchain_go.Mpt.Put.{Ref, added, removed, wrap_sub_trie}
use epicchain_go.Mpt.Branches.{==-other, sub_trie}

abbrev pub sum_below : ℕ → (ℕ → ℕ) → ℕ
sum_below zero f = 0
sum_below (suc n) f = sum_below n f + f n

pub sum_below-same :
    (n : ℕ) (f g : ℕ → ℕ) → ((i : ℕ) → i < n → f i ≡ g i) → sum_below n f ≡ sum_below n g
sum_below-same zero f g e = refl
sum_below-same (suc n) f g e =
    omega (arith, sum_below-same n f g (λ i lt. e i (omega (arith, lt))), e n (omega arith))

pub sum_below-zero : (n : ℕ) (f : ℕ → ℕ) → ((i : ℕ) → i < n → f i ≡ 0) → sum_below n f ≡ 0
sum_below-zero zero f e = refl
sum_below-zero (suc n) f e =
    omega (arith, sum_below-zero n f (λ i lt. e i (omega (arith, lt))), e n (omega arith))

-- One summand that is not zero.
pub sum_below-only :
    (n i : ℕ) (f : ℕ → ℕ) → i < n → ((j : ℕ) → j < n → i ≢ j → f j ≡ 0) → sum_below n f ≡ f i
sum_below-only zero i f lt e = absurd (omega (arith, lt))
sum_below-only (suc n) i f lt e = elim (Bool-cases (i == n)) [
  | inl same ↦
      let at : i ≡ n = (==_iff i n).0 same in
      let rest =
        sum_below-zero n f (λ j lj. e j (omega (arith, lj)) (λ x. omega (arith, lj, x, at))) in
      rest_and rest (ap f at)
  | inr differ ↦
      let ne : i ≢ n = λ x. ground (arith, differ) in
      let rest = sum_below-only n i f (omega (arith, lt, ne)) (λ j lj. e j (omega (arith, lj))) in
      omega (arith, rest, e n (omega arith) ne)
]
  where
    rest_and : sum_below n f ≡ 0 → f i ≡ f n → sum_below n f + f n ≡ f i
    rest_and a b = omega (arith, a, b)

module _ (weight : Node → ℕ) where
  -- The sum over the nodes of a trie, those in the store as well; hash and empty nodes count nothing.
  unfoldable pub total : Node → ℕ
  total (leaf v) = weight (leaf v)
  total (branch cs) = weight (branch cs) + sum_below children_count (λ i. total (cs i))
  total (extension k n) = weight (extension k n) + total n
  total (hash h n) = total n
  total (lost h) = 0
  total empty = 0

  -- The sums over what is added and what is removed.
  unfoldable pub plus : List Ref → ℕ
  plus [] = 0
  plus (added n ∷ refs) = weight n + plus refs
  plus (removed n ∷ refs) = plus refs

  unfoldable pub minus : List Ref → ℕ
  minus [] = 0
  minus (added n ∷ refs) = minus refs
  minus (removed n ∷ refs) = weight n + minus refs

  pub plus-append : (a b : List Ref) → plus (a ++ b) ≡ plus a + plus b
  unfolding plus
  plus-append [] b = omega arith
  plus-append (added n ∷ a) b = omega (arith, plus-append a b)
  plus-append (removed n ∷ a) b = plus-append a b

  pub minus-append : (a b : List Ref) → minus (a ++ b) ≡ minus a + minus b
  unfolding minus
  minus-append [] b = omega arith
  minus-append (added n ∷ a) b = minus-append a b
  minus-append (removed n ∷ a) b = omega (arith, minus-append a b)

  abbrev pub below : (ℕ → Node) → ℕ
  below cs = sum_below children_count (λ i. total (cs i))

  sum-put_child :
      (n i : ℕ) (r : Node) (cs : ℕ → Node)
      → i < n
      → sum_below n (λ j. total (put_child i r cs j)) + total (cs i)
        ≡ sum_below n (λ j. total (cs j)) + total r
  sum-put_child zero i r cs lt = absurd (omega (arith, lt))
  sum-put_child (suc n) i r cs lt = elim (Bool-cases (i == n)) [
    | inl same ↦
        let at : i ≡ n = (==_iff i n).0 same in
        let here : total (put_child i r cs n) ≡ total r = rw same refl in
        let there : total (cs i) ≡ total (cs n) = ap (λ j. total (cs j)) at in
        let rest =
          sum_below-same n (λ j. total (put_child i r cs j)) (λ j. total (cs j))
            (λ j lj. ap total (kept j (λ x. omega (arith, x, lj, at)))) in
        omega (arith, here, there, rest)
    | inr differ ↦
        let ne : i ≢ n = λ x. ground (arith, differ) in
        let here : total (put_child i r cs n) ≡ total (cs n) = ap total (kept n ne) in
        omega (arith, here, sum-put_child n i r cs (omega (arith, lt, ne)))
  ]
    where
      kept : (j : ℕ) → i ≢ j → put_child i r cs j ≡ cs j
      kept j ne = rw (==-other i j ne) refl

  pub below-put_child :
      (i : ℕ) (r : Node) (cs : ℕ → Node)
      → i < children_count
      → below (put_child i r cs) + total (cs i) ≡ below cs + total r
  below-put_child = sum-put_child children_count

  pub below-put_two :
      (i j : ℕ) (a b : Node)
      → i < children_count
      → j < children_count
      → i ≢ j
      → below (put_child i a (put_child j b no_children)) ≡ total a + total b
  unfolding total
  below-put_two i j a b li lj ne =
      let x = below-put_child i a (put_child j b no_children) li in
      let y = below-put_child j b no_children lj in
      let z : total (put_child j b no_children i) ≡ 0 = rw (==-other j i (λ e. ne (sym e))) refl in
      let s = sum_below-zero children_count (λ k. total (no_children k)) (λ k lt. refl) in
      omega (arith, x, y, z, s)

  -- newSubTrie adds what it wraps.
  pub plus-wrap_sub_trie :
      (path : List ℕ) (n : Node) → plus (wrap_sub_trie path n).0 + total n ≡ total (sub_trie path n)
  unfolding plus total
  plus-wrap_sub_trie [] n = omega arith
  plus-wrap_sub_trie (x ∷ path) n = omega arith

  pub minus-wrap_sub_trie : (path : List ℕ) (n : Node) → minus (wrap_sub_trie path n).0 ≡ 0
  unfolding minus
  minus-wrap_sub_trie [] n = refl
  minus-wrap_sub_trie (x ∷ path) n = refl

-- How many nodes with a hash there are.
abbrev pub has_hash : (List ℕ → List ℕ) → List ℕ → Node → ℕ
has_hash sha h n = if bytes_beq (hash_of sha n) h then 1 else 0
