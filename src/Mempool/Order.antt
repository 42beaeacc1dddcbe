-- ===== src/Mempool/Order.antt =====
-- pkg/core/mempool/mem_pool.go: the order of items by CompareTo, and slices sorted by it, best first.
use Prim.Native.Nat.{Ordering}
use epicchain_go.Common.{
  ℕ, zero, suc, ◌≡◌, ◌≢◌, Bool, true, false, List, [], ◌∷◌, ◌++◌, arith, take, drop, All,
}
use epicchain_go.Common.Search.{IsMonotone, Passing, Failing}
use epicchain_go.Mempool.Types.{
  Item, compare_priority, compare_to, has_high_priority, tx_fee_per_byte,
}
use epicchain_go.Mempool.Add.{is_gt}

-- `a` stands before `b`: it is not below it.
abbrev pub IsAbove : Item → Item → Type 0
IsAbove a b = compare_to a b ≢ Ordering.lt

priority_trans :
    (h h' h'' : Bool) (b b' b'' f f' f'' : ℕ)
    → compare_priority h b f h' b' f' ≢ Ordering.lt
    → compare_priority h' b' f' h'' b'' f'' ≢ Ordering.lt
    → compare_priority h b f h'' b'' f'' ≢ Ordering.lt
unfolding compare_priority
priority_trans h h' h'' b b' b'' f f' f'' p q = λ e. ground arith

priority_flip :
    (h h' : Bool) (b b' f f' : ℕ)
    → is_gt (compare_priority h b f h' b' f') ≡ false
    → compare_priority h' b' f' h b f ≢ Ordering.lt
unfolding compare_priority
priority_flip h h' b b' f f' p = λ e. ground arith

priority_below :
    (h h' h'' : Bool) (b b' b'' f f' f'' : ℕ)
    → is_gt (compare_priority h b f h' b' f') ≡ true
    → compare_priority h' b' f' h'' b'' f'' ≢ Ordering.lt
    → is_gt (compare_priority h b f h'' b'' f'') ≡ true
unfolding compare_priority
priority_below h h' h'' b b' b'' f f' f'' p q = ground arith

-- The order of items is transitive.
pub IsAbove-trans : (a b c : Item) → IsAbove a b → IsAbove b c → IsAbove a c
unfolding compare_to
IsAbove-trans a b c h k =
    priority_trans (has_high_priority a.txn) (has_high_priority b.txn) (has_high_priority c.txn)
      (tx_fee_per_byte a.txn) (tx_fee_per_byte b.txn) (tx_fee_per_byte c.txn) a.txn.network_fee
      b.txn.network_fee c.txn.network_fee h k

pub is_gt-IsAbove : (a b : Item) → is_gt (compare_to a b) ≡ true → IsAbove a b
is_gt-IsAbove a b h = λ e. ground arith

pub not-is_gt-IsAbove : (a b : Item) → is_gt (compare_to a b) ≡ false → IsAbove b a
unfolding compare_to
not-is_gt-IsAbove a b h =
    priority_flip (has_high_priority a.txn) (has_high_priority b.txn) (tx_fee_per_byte a.txn)
      (tx_fee_per_byte b.txn) a.txn.network_fee b.txn.network_fee h

is_gt_below :
    (p x y : Item) → is_gt (compare_to p x) ≡ true → IsAbove x y → is_gt (compare_to p y) ≡ true
unfolding compare_to
is_gt_below p x y h k =
    priority_below (has_high_priority p.txn) (has_high_priority x.txn) (has_high_priority y.txn)
      (tx_fee_per_byte p.txn) (tx_fee_per_byte x.txn) (tx_fee_per_byte y.txn) p.txn.network_fee
      x.txn.network_fee y.txn.network_fee h k

-- The items stand best first.
abbrev pub IsSorted : List Item → Type 0
IsSorted [] = Unit
IsSorted (x ∷ xs) = All (IsAbove x) xs × IsSorted xs

abbrev pub above_test : Item → Item → Bool
above_test p other = is_gt (compare_to p other)

All-below :
    (p x : Item) (l : List Item)
    → above_test p x ≡ true
    → All (IsAbove x) l
    → Passing (above_test p) l
All-below p x [] h a = tt
All-below p x (y ∷ l) h a = (is_gt_below p x y h a.0, All-below p x l h a.1)

-- The search for a position is over a monotone test.
pub IsSorted-IsMonotone : (p : Item) (l : List Item) → IsSorted l → IsMonotone (above_test p) l
IsSorted-IsMonotone p [] s = tt
IsSorted-IsMonotone p (x ∷ l) s = (λ h. All-below p x l h s.0, IsSorted-IsMonotone p l s.1)

pub All-insert :
    (P : Item → Type 0) (p : Item) (n : ℕ) (l : List Item)
    → P p
    → All P l
    → All P (take n l ++ (p ∷ drop n l))
All-insert P p zero l h a = (h, a)
All-insert P p (suc n) [] h a = (h, tt)
All-insert P p (suc n) (x ∷ l) h a = (a.0, All-insert P p n l h a.1)

Passing-IsAbove : (p : Item) (l : List Item) → Passing (above_test p) l → All (IsAbove p) l
Passing-IsAbove p [] a = tt
Passing-IsAbove p (x ∷ l) a = (is_gt-IsAbove p x a.0, Passing-IsAbove p l a.1)

-- An item put where the search ends leaves the list sorted.
pub IsSorted-insert :
    (p : Item) (n : ℕ) (l : List Item)
    → Failing (above_test p) (take n l)
    → Passing (above_test p) (drop n l)
    → IsSorted l
    → IsSorted (take n l ++ (p ∷ drop n l))
IsSorted-insert p zero l f b s = (Passing-IsAbove p l b, s)
IsSorted-insert p (suc n) [] f b s = (tt, tt)
IsSorted-insert p (suc n) (x ∷ l) f b s =
    (All-insert (IsAbove x) p n l (not-is_gt-IsAbove p x f.0) s.0, IsSorted-insert p n l f.1 b s.1)
