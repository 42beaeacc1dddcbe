-- ===== src/Common/Search.antt =====
-- Go's sort.Search over the elements of a list: a binary search for the first element that passes.
use Prim.Native.Nat.{ℕ, zero, suc, ◌+◌, ◌-◌, ◌/◌, ◌≤◌, ◌<◌}
use mathlib.Core.Path.{◌≡◌, refl}
use mathlib.Core.Logic.{inl, inr}
use mathlib.Core.Bool.{Bool, true, false}
use mathlib.Core.List.{List, [], ◌∷◌}
use mathlib.Core.Option.{Option, none, some}
use native.Mathlib.Omega.{arith}
use native.Mathlib.Numerals.{add-one}
use epicchain_go.Common.Tests.{ltb, if◌then◌else◌, Bool-cases, ltb→lt, ltb-false→le}
use epicchain_go.Common.Lists.{length, get_elem?, take, drop, drop_all, All}

module _ {A : Type 0} (test : A → Bool) where
  -- An index outside of the list, which the search does not reach, fails the test.
  abbrev pub passes : Option A → Bool
  passes none = false
  passes (some a) = test a

  -- The loop over `i < j`; its fuel bounds `j - i`.
  unfoldable pub search_loop : ℕ → List A → ℕ → ℕ → ℕ
  search_loop zero l i j = i
  search_loop (suc fuel) l i j =
      let h = (i + j) / 2 in
      let right = search_loop fuel l (h + 1) j in
      let left = search_loop fuel l i h in
      if ltb i j then (if passes (get_elem? l h) then left else right) else i

  unfoldable pub search_first : List A → ℕ
  search_first l = search_loop (length l + 1) l 0 (length l)

  -- What sort.Search asks of its argument: an element after one that passes passes too.
  abbrev pub IsMonotone : List A → Type 0
  IsMonotone [] = Unit
  IsMonotone (x ∷ xs) = (test x ≡ true → All (λ y. test y ≡ true) xs) × IsMonotone xs

  abbrev pub Passing : List A → Type 0
  Passing = All (λ y. test y ≡ true)

  abbrev pub Failing : List A → Type 0
  Failing = All (λ y. test y ≡ false)

  get_elem?-Passing :
      (l : List A) (h : ℕ) {y : A} → Passing l → get_elem? l h ≡ some y → test y ≡ true
  get_elem?-Passing [] h a e = cc
  get_elem?-Passing (x ∷ xs) zero a e = ground (arith, a.0)
  get_elem?-Passing (x ∷ xs) (suc h) a e = get_elem?-Passing xs h a.1 e

  -- Where an element passes, all behind it do; where it fails, all before it do.
  Passing-drop :
      (l : List A) (h : ℕ) {y : A}
      → IsMonotone l
      → get_elem? l h ≡ some y
      → test y ≡ true
      → Passing (drop h l)
  Passing-drop [] h m e t = cc
  Passing-drop (x ∷ xs) zero m e t = ground (arith, m.0)
  Passing-drop (x ∷ xs) (suc h) m e t = Passing-drop xs h m.1 e t

  Failing-take :
      (l : List A) (h : ℕ) {y : A}
      → IsMonotone l
      → get_elem? l h ≡ some y
      → test y ≡ false
      → Failing (take (suc h) l)
  Failing-take [] h m e t = cc
  Failing-take (x ∷ xs) zero m e t = ground arith
  Failing-take (x ∷ xs) (suc h) {y} m e t = (
    elim (Bool-cases (test x)) [
      | inl p ↦ absurd (cc (get_elem?-Passing xs h (m.0 p) e))
      | inr p ↦ p
    ],
    Failing-take xs h m.1 e t,
  )

  get_elem?-below : (l : List A) (h : ℕ) → h < length l → (y : A) × (get_elem? l h ≡ some y)
  get_elem?-below [] h e = elim e [ ]
  get_elem?-below (x ∷ xs) zero e = (x, refl)
  get_elem?-below (x ∷ xs) (suc h) e = get_elem?-below xs h (omega arith)

  -- The index `n` splits the list into what fails and what passes.
  pub record Splits (l : List A) (n : ℕ) : Type 0 where
    pub le : n ≤ length l
    pub before : Failing (take n l)
    pub behind : Passing (drop n l)

  search_loop-Splits :
      (fuel : ℕ) (l : List A) (i j : ℕ)
      → IsMonotone l
      → i ≤ j
      → j ≤ length l
      → j - i < fuel
      → Failing (take i l)
      → Passing (drop j l)
      → Splits l (search_loop fuel l i j)
  unfolding search_loop
  search_loop-Splits zero l i j m h hj f a b = absurd (omega arith)
  search_loop-Splits (suc fuel) l i j m h hj f a b = elim (Bool-cases (ltb i j)) [
    | inl lt ↦
        let (y, e) = get_elem?-below l ((i + j) / 2) (omega (arith, ltb→lt i j lt)) in
        rw (lt, e)
          (elim (Bool-cases (test y)) [
            | inl p ↦ rw p (
                search_loop-Splits fuel l i ((i + j) / 2) m (omega (arith, ltb→lt i j lt))
                  (omega (arith, ltb→lt i j lt)) (omega (arith, ltb→lt i j lt)) a
                  (Passing-drop l ((i + j) / 2) m e p))
            | inr p ↦ rw p (
                search_loop-Splits fuel l ((i + j) / 2 + 1) j m (omega (arith, ltb→lt i j lt)) hj
                  (omega (arith, ltb→lt i j lt)) (rw add-one (Failing-take l ((i + j) / 2) m e p))
                  b)
          ])
    | inr ge ↦
        let e : i ≡ j = omega (arith, ltb-false→le i j ge) in
        rw ge (record { le = omega arith; before = a; behind = rw e b })
  ]

  -- On a monotone list the search ends at the first element that passes, or behind the last.
  pub search_first-Splits : (l : List A) → IsMonotone l → Splits l (search_first l)
  unfolding search_first
  search_first-Splits l m =
      search_loop-Splits (length l + 1) l 0 (length l) m (omega arith) (omega arith) (omega arith)
        tt (rw (drop_all l) tt)
