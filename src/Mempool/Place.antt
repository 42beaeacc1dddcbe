-- ===== src/Mempool/Place.antt =====
-- pkg/core/mempool/mem_pool.go: the insertion of Add. The slice operations put the item where the search
-- ends, in a full pool after the last item is ditched.
use epicchain_go.Common.{
  ℕ, ◌-◌, ◌≤◌, ◌≡◌, ◌≢◌, refl, none, some, List, [], ◌∷◌, ◌++◌, arith, nat_eq, length, take, drop,
  ◌==◌, inl, inr, Bool-cases, length-append, take-append_le, take_all, drop_all, take-append_length,
}
use epicchain_go.Common.Search.{search_first-Splits, Splits}
use epicchain_go.Mempool.Types.{Item}
use epicchain_go.Mempool.Add.{position, move_to}
use epicchain_go.Mempool.Order.{IsSorted, above_test, IsSorted-IsMonotone}
use epicchain_go.Mempool.Items.{find_tx, erase, IsDistinct}

-- An item that stands last is moved to position `n`.
pub move_to-last :
    (n : ℕ) (x : Item) (l : List Item)
    → n ≤ length l
    → move_to n x (l ++ (x ∷ [])) ≡ take n l ++ (x ∷ drop n l)
unfolding move_to
move_to-last n x l h = elim (Bool-cases (n == length (l ++ (x ∷ [])) - 1)) [
  | inl p ↦
      let e : n ≡ length l = ground (arith, length-append l (x ∷ [])) in
      rw (p, e) (rw (take_all l, drop_all l) refl)
  | inr p ↦
      let e : length (l ++ (x ∷ [])) - 1 ≡ length l = ground (arith, length-append l (x ∷ [])) in
      rw p (rw e (rw (take-append_le n l (x ∷ []) h, take-append_length l (x ∷ [])) refl))
]

pub position-Splits :
    (x : Item) (l : List Item) → IsSorted l → Splits (above_test x) l (position x l)
unfolding position
position-Splits x l s = search_first-Splits (above_test x) l (IsSorted-IsMonotone x l s)

find_tx-last : (l : List Item) (u : Item) → find_tx u.txn.hash (l ++ (u ∷ [])) ≢ none
unfolding find_tx
find_tx-last [] u = λ e. ground arith
find_tx-last (x ∷ l) u = λ e. ground (arith, find_tx-last l u)

pub find_tx-last_self :
    (l : List Item) (u : Item)
    → IsDistinct (l ++ (u ∷ []))
    → find_tx u.txn.hash (l ++ (u ∷ [])) ≡ some u.txn
unfolding find_tx
find_tx-last_self [] u d = ground arith
find_tx-last_self (x ∷ l) u d = ground (arith, find_tx-last l u, find_tx-last_self l u d.1)

-- The last item of a list without repetition is what removal by its hash takes.
pub erase-last :
    (l : List Item) (u : Item) → IsDistinct (l ++ (u ∷ [])) → erase u.txn.hash (l ++ (u ∷ [])) ≡ l
unfolding erase find_tx
erase-last [] u d = ground arith
erase-last (x ∷ l) u d = ground (arith, erase-last l u d.1, find_tx-last l u)
