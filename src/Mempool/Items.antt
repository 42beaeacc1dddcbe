-- ===== src/Mempool/Items.antt =====
-- pkg/core/mempool/mem_pool.go: the slice of verified transactions, as a set of hashes. An item is found
-- by its hash; removal by index is removal by hash.
use epicchain_go.Common.{
  ℕ, zero, suc, ◌+◌, ◌≡◌, refl, ap, ◌∙◌, Option, none, some, List, [], ◌∷◌, ◌++◌, arith, length,
  take, drop, get_elem?, All, ◌==◌, if◌then◌else◌, inl, inr, Bool-cases,
}
use native.Mathlib.Numerals.{towards_suc}
use epicchain_go.Mempool.Types.{Transaction, Item}
use epicchain_go.Mempool.Remove.{index_of, remove_at}
use epicchain_go.Mempool.Order.{IsSorted, IsAbove}

-- The transaction with a hash, in a list of items.
unfoldable pub find_tx : ℕ → List Item → Option Transaction
find_tx h [] = none
find_tx h (x ∷ xs) = if x.txn.hash == h then some x.txn else find_tx h xs

unfoldable pub erase : ℕ → List Item → List Item
erase h [] = []
erase h (x ∷ xs) = if x.txn.hash == h then xs else x ∷ erase h xs

-- No two items have one hash.
abbrev pub IsDistinct : List Item → Type 0
IsDistinct [] = Unit
IsDistinct (x ∷ xs) = (find_tx x.txn.hash xs ≡ none) × IsDistinct xs

remove_at-cons : (n : ℕ) (x : Item) (l : List Item) → remove_at (suc n) (x ∷ l) ≡ x ∷ remove_at n l
unfolding remove_at
remove_at-cons n x l = simp towards_suc (ground arith)

pub remove_at-index_of :
    (h : ℕ) (l : List Item) {t : Transaction}
    → find_tx h l ≡ some t
    → remove_at (index_of h l) l ≡ erase h l
unfolding find_tx erase index_of
remove_at-index_of h [] e = cc
remove_at-index_of h (x ∷ []) e = unfold remove_at in ground arith
remove_at-index_of h (x ∷ (y ∷ l)) e = elim (Bool-cases (x.txn.hash == h)) [
  | inl p ↦ rw p (unfold remove_at in ground arith)
  | inr p ↦ rw p (
      remove_at-cons (index_of h (y ∷ l)) x (y ∷ l)
      ∙ ap (λ t. x ∷ t) (remove_at-index_of h (y ∷ l) (rw p at e)))
]

pub get_elem?-index_of :
    (h : ℕ) (l : List Item) (t : Transaction)
    → find_tx h l ≡ some t
    → (i : Item) × (get_elem? l (index_of h l) ≡ some i) × (i.txn ≡ t) × (t.hash ≡ h)
unfolding find_tx index_of
get_elem?-index_of h [] t e = cc
get_elem?-index_of h (x ∷ []) t e = (x, refl, ground arith, ground arith)
get_elem?-index_of h (x ∷ (y ∷ l)) t e = elim (Bool-cases (x.txn.hash == h)) [
  | inl p ↦ (x, rw p refl, ground arith, ground arith)
  | inr p ↦ rw p (get_elem?-index_of h (y ∷ l) t (rw p at e))
]

pub find_tx-erase :
    (h j : ℕ) (l : List Item)
    → IsDistinct l
    → find_tx j (erase h l) ≡ (if h == j then none else find_tx j l)
unfolding find_tx erase
find_tx-erase h j [] d = ground arith
find_tx-erase h j (x ∷ l) d = ground (arith, find_tx-erase h j l d.1)

pub All-erase : (P : Item → Type 0) (h : ℕ) (l : List Item) → All P l → All P (erase h l)
unfolding erase
All-erase P h [] a = tt
All-erase P h (x ∷ l) a = elim (Bool-cases (x.txn.hash == h)) [
  | inl p ↦ rw p a.1
  | inr p ↦ rw p (a.0, All-erase P h l a.1)
]

pub IsSorted-erase : (h : ℕ) (l : List Item) → IsSorted l → IsSorted (erase h l)
unfolding erase
IsSorted-erase h [] s = tt
IsSorted-erase h (x ∷ l) s = elim (Bool-cases (x.txn.hash == h)) [
  | inl p ↦ rw p s.1
  | inr p ↦ rw p (All-erase (IsAbove x) h l s.0, IsSorted-erase h l s.1)
]

pub IsDistinct-erase : (h : ℕ) (l : List Item) → IsDistinct l → IsDistinct (erase h l)
unfolding erase
IsDistinct-erase h [] d = tt
IsDistinct-erase h (x ∷ l) d = elim (Bool-cases (x.txn.hash == h)) [
  | inl p ↦ rw p d.1
  | inr p ↦ rw p (ground (arith, find_tx-erase h x.txn.hash l d.1), IsDistinct-erase h l d.1)
]

pub length-erase :
    (h : ℕ) (l : List Item) {t : Transaction}
    → find_tx h l ≡ some t
    → length (erase h l) + 1 ≡ length l
unfolding find_tx erase
length-erase h [] {t} e = cc
length-erase h (x ∷ l) {t} e = ground (arith, length-erase h l {t = t})

pub find_tx-insert :
    (p : Item) (j n : ℕ) (l : List Item)
    → find_tx p.txn.hash l ≡ none
    → find_tx j (take n l ++ (p ∷ drop n l)) ≡ (if p.txn.hash == j then some p.txn else find_tx j l)
unfolding find_tx
find_tx-insert p j zero l e = refl
find_tx-insert p j (suc n) [] e = refl
find_tx-insert p j (suc n) (x ∷ l) e = ground (arith, find_tx-insert p j n l)

pub IsDistinct-insert :
    (p : Item) (n : ℕ) (l : List Item)
    → find_tx p.txn.hash l ≡ none
    → IsDistinct l
    → IsDistinct (take n l ++ (p ∷ drop n l))
unfolding find_tx
IsDistinct-insert p zero l e d = (e, d)
IsDistinct-insert p (suc n) [] e d = (refl, tt)
IsDistinct-insert p (suc n) (x ∷ l) e d =
    (ground (arith, find_tx-insert p x.txn.hash n l), IsDistinct-insert p n l (ground arith) d.1)
