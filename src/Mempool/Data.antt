-- ===== src/Mempool/Data.antt =====
-- pkg/core/mempool/mem_pool.go: TryGetData, against a search by hash.
use Prim.Native.Nat.{Ordering}
use epicchain_go.Common.{
  ℕ, zero, suc, ◌≡◌, ◌≢◌, refl, sym, ◌∙◌, subst, Bool, true, Option, none, some, List, [], ◌∷◌,
  arith, nat_eq, lookup, take, drop, All, ◌==◌, if◌then◌else◌, inl, inr, Bool-cases,
}
use epicchain_go.Common.Search.{IsMonotone, Passing, Failing, search_first, search_first-Splits}
use epicchain_go.Mempool.Types.{
  Transaction, Item, Pool, compare_priority, compare_to, has_high_priority, tx_fee_per_byte,
}
use epicchain_go.Mempool.Order.{IsAbove, IsSorted}
use epicchain_go.Mempool.Items.{find_tx}
use epicchain_go.Mempool.Invariant.{IsConsistent}
use epicchain_go.Mempool.Query.{is_ge, is_eq, scan, try_get_data}

-- The data of the item with a hash, by a plain walk over the slice.
unfoldable pub find_extra : ℕ → List Item → Option (Option ℕ)
find_extra h [] = none
find_extra h (x ∷ xs) = if x.txn.hash == h then some x.extra else find_extra h xs

priority_refl : (h : Bool) (b f : ℕ) → compare_priority h b f h b f ≡ Ordering.eq
unfolding compare_priority
priority_refl h b f = ground arith

priority_squeeze :
    (h h' : Bool) (b b' f f' : ℕ)
    → is_ge (compare_priority h b f h' b' f') ≡ true
    → compare_priority h' b' f' h b f ≢ Ordering.lt
    → is_eq (compare_priority h b f h' b' f') ≡ true
unfolding compare_priority
priority_squeeze h h' b b' f f' p q = ground arith

priority_ge_trans :
    (h h' h'' : Bool) (b b' b'' f f' f'' : ℕ)
    → is_ge (compare_priority h b f h' b' f') ≡ true
    → compare_priority h' b' f' h'' b'' f'' ≢ Ordering.lt
    → is_ge (compare_priority h b f h'' b'' f'') ≡ true
unfolding compare_priority
priority_ge_trans h h' h'' b b' b'' f f' f'' p q = ground arith

abbrev ge_test : Item → Item → Bool
ge_test itm other = is_ge (compare_to itm other)

ge_below : (i x y : Item) → ge_test i x ≡ true → IsAbove x y → ge_test i y ≡ true
unfolding compare_to
ge_below i x y p q =
    priority_ge_trans (has_high_priority i.txn) (has_high_priority x.txn) (has_high_priority y.txn)
      (tx_fee_per_byte i.txn) (tx_fee_per_byte x.txn) (tx_fee_per_byte y.txn) i.txn.network_fee
      x.txn.network_fee y.txn.network_fee p q

All-ge :
    (i x : Item) (l : List Item) → ge_test i x ≡ true → All (IsAbove x) l → Passing (ge_test i) l
All-ge i x [] p a = tt
All-ge i x (y ∷ l) p a = (ge_below i x y p a.0, All-ge i x l p a.1)

ge-IsMonotone : (i : Item) (l : List Item) → IsSorted l → IsMonotone (ge_test i) l
ge-IsMonotone i [] s = tt
ge-IsMonotone i (x ∷ l) s = (λ p. All-ge i x l p s.0, ge-IsMonotone i l s.1)

-- An item above one of the same transaction, and not above it, has its priority.
squeeze :
    (i x y : Item)
    → y.txn ≡ i.txn
    → ge_test i x ≡ true
    → IsAbove x y
    → is_eq (compare_to i x) ≡ true
unfolding compare_to
squeeze i x y e p q =
    priority_squeeze (has_high_priority i.txn) (has_high_priority x.txn) (tx_fee_per_byte i.txn)
      (tx_fee_per_byte x.txn) i.txn.network_fee x.txn.network_fee p
      (subst
        (λ (t : Transaction).
          compare_priority (has_high_priority x.txn) (tx_fee_per_byte x.txn) x.txn.network_fee
            (has_high_priority t) (tx_fee_per_byte t) t.network_fee
          ≢ Ordering.lt)
        e q)

ge_self : (i y : Item) → y.txn ≡ i.txn → ge_test i y ≡ true
unfolding compare_to
ge_self i y e =
    subst
      (λ (t : Transaction).
        is_ge (
          compare_priority (has_high_priority i.txn) (tx_fee_per_byte i.txn) i.txn.network_fee
            (has_high_priority t) (tx_fee_per_byte t) t.network_fee)
        ≡ true)
      (sym e)
      (rw (priority_refl (has_high_priority i.txn) (tx_fee_per_byte i.txn) i.txn.network_fee) refl)

-- What is above a whole list is above the transaction found in it.
find_tx-All :
    (P : Item → Type 0) (h : ℕ) (l : List Item) {t : Transaction}
    → All P l
    → find_tx h l ≡ some t
    → (y : Item) × (y.txn ≡ t) × P y
unfolding find_tx
find_tx-All P h [] a e = cc
find_tx-All P h (x ∷ l) {t} a e = elim (Bool-cases (x.txn.hash == h)) [
  | inl p ↦ (x, ground arith, a.0)
  | inr p ↦ find_tx-All P h l a.1 (rw p at e)
]

scan-find_extra :
    (i : Item) (h : ℕ) (l : List Item)
    → IsSorted l
    → Passing (ge_test i) l
    → find_tx h l ≡ some i.txn
    → scan i h l ≡ find_extra h l
unfolding scan find_extra find_tx
scan-find_extra i h [] s a e = cc
scan-find_extra i h (x ∷ l) s a e = elim (Bool-cases (x.txn.hash == h)) [
  | inl p ↦ rw p refl
  | inr p ↦
      let there = rw p at e in
      let (y, same, above) = find_tx-All (IsAbove x) h l s.0 there in
      rw (p, squeeze i x y same a.0 above) (scan-find_extra i h l s.1 a.1 there)
]

find_extra-drop :
    (i : Item) (h n : ℕ) (l : List Item)
    → Failing (ge_test i) (take n l)
    → find_tx h l ≡ some i.txn
    → (find_extra h (drop n l) ≡ find_extra h l) × (find_tx h (drop n l) ≡ some i.txn)
unfolding find_extra find_tx
find_extra-drop i h zero l f e = (refl, e)
find_extra-drop i h (suc n) [] f e = cc
find_extra-drop i h (suc n) (x ∷ l) f e = elim (Bool-cases (x.txn.hash == h)) [
  | inl p ↦ absurd (ground (arith, ge_self i x (ground arith), f.0))
  | inr p ↦ rw p (find_extra-drop i h n l f.1 (rw p at e))
]

IsSorted-drop : (n : ℕ) (l : List Item) → IsSorted l → IsSorted (drop n l)
IsSorted-drop zero l s = s
IsSorted-drop (suc n) [] s = tt
IsSorted-drop (suc n) (x ∷ l) s = IsSorted-drop n l s.1

-- For a hash that is pooled in a consistent pool, TryGetData, whose search is by priority, answers what a
-- walk over all items in search of the hash answers.
pub try_get_data_lem :
    (h : ℕ) (p : Pool) {t : Transaction}
    → IsConsistent p
    → lookup h p.verified_map ≡ some t
    → try_get_data h p ≡ find_extra h p.verified_txes
unfolding try_get_data
try_get_data_lem h p {t} c e =
    let i : Item = record { txn = t; block_stamp = 0; extra = none } in
    let l = p.verified_txes in
    let s = search_first-Splits (ge_test i) l (ge-IsMonotone i l c.sorted) in
    let (same, there) =
      find_extra-drop i h (search_first (ge_test i) l) l s.before (sym (c.agree h) ∙ e) in
    rw e (
      scan-find_extra i h (drop (search_first (ge_test i) l) l) (IsSorted-drop _ l c.sorted)
        s.behind there
      ∙ same)
