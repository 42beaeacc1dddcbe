-- ===== src/Mempool/PlaceLaw.antt =====
-- pkg/core/mempool/mem_pool.go: `place`, the second half of Add, with room and in a full pool.
use epicchain_go.Common.{
  ℕ, ◌+◌, ◌-◌, ◌<◌, ◌≡◌, refl, sym, ap, ◌∙◌, subst, true, false, none, some, List, [], ◌∷◌, ◌++◌,
  arith, nat_eq, lookup, delete, lookup-insert, lookup-delete, length, take, drop, get_elem?, set,
  All, ◌==◌, if◌then◌else◌, ==_iff, inl, inr, Bool-cases, length-append, take-append_le,
  drop-append_le, split_last, get_elem?-last, set-last, All-append_left, take-append-drop, take_all,
  All-last,
}
use epicchain_go.Common.Search.{Failing, Passing}
use epicchain_go.Mempool.Types.{Item, Pool, Feer, Outcome, ok, err, oom, removed, notify}
use epicchain_go.Mempool.Remove.{remove_conflicts_of, remove_oracle_of}
use epicchain_go.Mempool.Add.{position, ditch_last, move_to, place}
use epicchain_go.Mempool.Order.{IsSorted, IsSorted-insert, All-insert, above_test}
use epicchain_go.Mempool.Items.{
  find_tx, erase, IsDistinct, find_tx-insert, IsDistinct-insert, find_tx-erase, IsDistinct-erase,
  IsSorted-erase, All-erase,
}
use epicchain_go.Mempool.Invariant.{
  HasPayer, IsConsistent, SameCore-trans, notify-SameCore, remove_conflicts_of-SameCore,
  remove_oracle_of-SameCore,
}
use epicchain_go.Mempool.Links.{
  OracleOk-view, View, without, with_tx, IsLinked, IsLinked-SameLinks, IsLinked-view,
  IsLinked-remove, notify-SameLinks,
}
use epicchain_go.Mempool.Place.{move_to-last, position-Splits, erase-last, find_tx-last_self}
use epicchain_go.Mempool.Register.{register-Registered}

length-insert :
    (x : Item) (n : ℕ) (l : List Item) → length (take n l ++ (x ∷ drop n l)) ≡ length l + 1
length-insert x n l = omega (
  arith,
  length-append (take n l) (x ∷ drop n l),
  length-append (take n l) (drop n l),
  ap (length {A = Item}) (take-append-drop n l),
)

-- A pool whose slice is a good one with one more item, in the right place.
module _ (i : Item) (n : ℕ) (l : List Item) (q : Pool) where
  insert-IsConsistent :
      IsSorted l
      → IsDistinct l
      → All (HasPayer q.payer_index) l
      → length l < q.capacity
      → find_tx i.txn.hash l ≡ none
      → HasPayer q.payer_index i
      → Failing (above_test i) (take n l)
      → Passing (above_test i) (drop n l)
      → q.verified_txes ≡ take n l ++ (i ∷ drop n l)
      → ((j : ℕ) → lookup j q.verified_map ≡ (if i.txn.hash == j then some i.txn else find_tx j l))
      → IsConsistent q
  insert-IsConsistent sorted distinct payers room fresh pays before behind at agree = record {
    sorted = rw at (IsSorted-insert i n l before behind sorted);
    bounded = rw (at, length-insert i n l) (omega arith);
    distinct = rw at (IsDistinct-insert i n l fresh distinct);
    payers = rw at (All-insert (HasPayer q.payer_index) i n l pays payers);
    agree = λ j. rw (at, find_tx-insert i j n l fresh) (agree j);
  }

-- What ditching the last item `u` does.
record Ditched (i : Item) (p : Pool) (l : List Item) (u : Item) (q : Pool) : Type 0 where
  txes : q.verified_txes ≡ l ++ (i ∷ [])
  map : q.verified_map ≡ delete u.txn.hash p.verified_map
  capacity : q.capacity ≡ p.capacity
  payer_index : q.payer_index ≡ p.payer_index
  links :
      (v w : View)
      → v u.txn.hash ≡ some u.txn
      → w u.txn.hash ≡ some u.txn
      → IsLinked v w p
      → IsLinked (without u.txn.hash v) (without u.txn.hash w) q

ditch_last-Ditched :
    (i : Item) (p : Pool) (l : List Item) (u : Item)
    → p.verified_txes ≡ l ++ (u ∷ [])
    → (q : Pool) × (ditch_last i p ≡ some q) × Ditched i p l u q
unfolding ditch_last
ditch_last-Ditched i p l u e =
    let last : length p.verified_txes - 1 ≡ length l =
      rw e (omega (arith, length-append l (u ∷ []))) in
    let p1 : Pool = record p { verified_map = delete u.txn.hash p.verified_map } in
    let p2 = remove_oracle_of u.txn (remove_conflicts_of u.txn p1) in
    let same =
      SameCore-trans (remove_conflicts_of-SameCore u.txn p1)
        (remove_oracle_of-SameCore u.txn (remove_conflicts_of u.txn p1)) in
    let p3 : Pool = record p2 { verified_txes = set p2.verified_txes (length l) i } in
    let noted = notify-SameCore (removed u.txn u.extra) p3 in
    (
      notify (removed u.txn u.extra) p3,
      rw last (rw (ap (λ t. get_elem? t (length l)) e ∙ get_elem?-last l u) refl),
      record {
        txes = noted.txes ∙ (ap (λ t. set t (length l) i) (same.txes ∙ e) ∙ set-last l u i);
        map = noted.map ∙ same.map;
        capacity = noted.capacity ∙ same.capacity;
        payer_index = noted.payer_index ∙ same.payer_index;
        links = λ v w at at' k.
            let k' =
              IsLinked-remove v w u.txn p1 at at'
                (record { conflicts_ok = k.conflicts_ok; oracle_ok = k.oracle_ok }) in
            IsLinked-SameLinks (without u.txn.hash v) (without u.txn.hash w)
              (notify-SameLinks (removed u.txn u.extra) p3)
              (record { conflicts_ok = k'.conflicts_ok; oracle_ok = k'.oracle_ok });
      },
    )

-- The three ways in which an item meets a pool.
pub data Placed (i : Item) (p : Pool) (o : Outcome Unit) (q : Pool) : Type 0 where
  no_room :
      o ≡ err oom
      → q ≡ p
      → length p.verified_txes ≡ p.capacity
      → Failing (above_test i) p.verified_txes
      → Placed i p o q
  appended :
      o ≡ ok tt
      → length p.verified_txes < p.capacity
      → ((j : ℕ)
          → lookup j q.verified_map
            ≡ (if i.txn.hash == j then some i.txn else lookup j p.verified_map))
      → Placed i p o q
  ditched :
      o ≡ ok tt
      → length p.verified_txes ≡ p.capacity
      → (l : List Item) (u : Item) → p.verified_txes ≡ l ++ (u ∷ [])
      → above_test i u ≡ true
      → ((j : ℕ)
          → lookup j q.verified_map ≡ (
              if i.txn.hash == j
              then some i.txn
              else if u.txn.hash == j
              then none
              else lookup j p.verified_map))
      → Placed i p o q

abbrev pub pooled : Pool → View
pooled p = λ j. lookup j p.verified_map

-- The tables of a pool whose response table has the new transaction already fit the pool that takes it in.
abbrev pub LinksEnter : Item → Pool → Outcome Unit → Pool → Type 0
LinksEnter i p (ok _) q =
    IsLinked (pooled p) (with_tx i.txn (pooled p)) p → IsLinked (pooled q) (pooled q) q
LinksEnter i p (err e) q = Unit

abbrev pub Answer : Item → Feer → Pool → Type 0
Answer i feer p =
    (o : Outcome Unit) × (q : Pool) × (place i feer p ≡ some (o, q))
    × IsConsistent q
    × Placed i p o q
    × LinksEnter i p o q

module _ (i : Item) (feer : Feer) (p : Pool) (c : IsConsistent p)
    (fresh : lookup i.txn.hash p.verified_map ≡ none) (pays : HasPayer p.payer_index i) where
  abbrev free : find_tx i.txn.hash p.verified_txes ≡ none
  free = sym (c.agree i.txn.hash) ∙ fresh

  place_room : (length p.verified_txes == p.capacity) ≡ false → Answer i feer p
  unfolding place
  place_room h =
      let l = p.verified_txes in
      let n = position i l in
      let s = position-Splits i l c.sorted in
      let room : length l < p.capacity = ground (arith, c.bounded) in
      let p1 : Pool = record p { verified_txes = l ++ (i ∷ []) } in
      let (q, runs, r, take_in) = register-Registered n i feer p1 pays in
      (
        ok tt,
        q,
        rw h runs,
        insert-IsConsistent i n l q c.sorted c.distinct (rw r.payer_index c.payers)
            (rw r.capacity room) free (rw r.payer_index pays) s.before s.behind
            (r.txes ∙ move_to-last n i l s.le)
            (λ j. rw (r.map, lookup-insert i.txn.hash j i.txn p.verified_map, c.agree j) refl),
        appended refl room (λ j. rw r.map (lookup-insert i.txn.hash j i.txn p.verified_map)),
        λ k.
            let w = with_tx i.txn (pooled p) in
            IsLinked-view w w (pooled q) (pooled q) q
              (λ j. rw r.map (lookup-insert i.txn.hash j i.txn p.verified_map))
              (λ j. rw r.map (lookup-insert i.txn.hash j i.txn p.verified_map))
              (take_in (pooled p) fresh k.conflicts_ok k.oracle_ok),
      )

  place_oom :
      (length p.verified_txes == p.capacity) ≡ true
      → (position i p.verified_txes == length p.verified_txes) ≡ true
      → Answer i feer p
  unfolding place
  place_oom h e =
      let s = position-Splits i p.verified_txes c.sorted in
      (
        err oom,
        p,
        rw (h, e) refl,
        c,
        no_room refl refl ((==_iff _ _).0 h) (
            subst (λ l. Failing (above_test i) l) (take_all p.verified_txes)
              (subst (λ (n : ℕ). Failing (above_test i) (take n p.verified_txes)) ((==_iff _ _).0 e)
                s.before)),
        tt,
      )

  place_full :
      (length p.verified_txes == p.capacity) ≡ true
      → (position i p.verified_txes == length p.verified_txes) ≡ false
      → Answer i feer p
  unfolding place
  place_full h e =
      let n = position i p.verified_txes in
      let s = position-Splits i p.verified_txes c.sorted in
      let inside : n < length p.verified_txes = ground (arith, s.le) in
      let (l, u, snoc) = split_last p.verified_txes (omega arith) in
      let count : length p.verified_txes ≡ length l + 1 =
        omega (arith, ap (length {A = Item}) snoc, length-append l (u ∷ [])) in
      let d = ditch_last-Ditched i p l u snoc in
      let p1 = d.0 in
      let (q, runs, r, take_in) = register-Registered n i feer p1 (rw d.2.payer_index pays) in
      let drops : Passing (above_test i) (drop n l ++ (u ∷ [])) =
        subst (λ t. Passing (above_test i) t) (drop-append_le n l (u ∷ []) (omega arith))
          (subst (λ t. Passing (above_test i) (drop n t)) snoc s.behind) in
      let takes : Failing (above_test i) (take n l) =
        subst (λ t. Failing (above_test i) t) (take-append_le n l (u ∷ []) (omega arith))
          (subst (λ t. Failing (above_test i) (take n t)) snoc s.before) in
      let gone : erase u.txn.hash p.verified_txes ≡ l =
        ap (erase u.txn.hash) snoc ∙ erase-last l u (subst IsDistinct snoc c.distinct) in
      let found : (j : ℕ)
          → find_tx j l ≡ (if u.txn.hash == j then none else lookup j p.verified_map) =
        λ j.
          ap (find_tx j) (sym gone)
          ∙ (find_tx-erase u.txn.hash j p.verified_txes c.distinct ∙ rw (c.agree j)) in
      let agree : (j : ℕ)
          → lookup j q.verified_map ≡ (if i.txn.hash == j then some i.txn else find_tx j l) =
        λ j.
          rw
            (
              r.map,
              d.2.map,
              lookup-insert i.txn.hash j i.txn (delete u.txn.hash p.verified_map),
              lookup-delete u.txn.hash j p.verified_map,
              found j,
            )
            refl in
      (
        ok tt,
        q,
        rw (h, e) (rw d.1 runs),
        insert-IsConsistent i n l q
            (subst IsSorted gone (IsSorted-erase u.txn.hash p.verified_txes c.sorted))
            (subst IsDistinct gone (IsDistinct-erase u.txn.hash p.verified_txes c.distinct))
            (rw (r.payer_index, d.2.payer_index)
              (subst (λ t. All (HasPayer p.payer_index) t) gone
                (All-erase (HasPayer p.payer_index) u.txn.hash p.verified_txes c.payers)))
            (rw (r.capacity, d.2.capacity) (ground arith)) (found i.txn.hash ∙ ground arith)
            (rw (r.payer_index, d.2.payer_index) pays) takes
            (All-append_left _ (drop n l) (u ∷ []) drops)
            (r.txes ∙ (ap (move_to n i) d.2.txes ∙ move_to-last n i l (omega arith))) agree,
        ditched refl ((==_iff _ _).0 h) l u snoc (All-last _ (drop n l) u drops)
            (λ j. rw (agree j, found j) refl),
        λ k.
            let v = pooled p in
            let w = with_tx i.txn v in
            let at : v u.txn.hash ≡ some u.txn =
              c.agree u.txn.hash
              ∙ (ap (find_tx u.txn.hash) snoc
                  ∙ find_tx-last_self l u (subst IsDistinct snoc c.distinct)) in
            let apart : (i.txn.hash == u.txn.hash) ≡ false = ground (arith, fresh, at) in
            let k1 = d.2.links v w at (rw apart at) k in
            let v' = without u.txn.hash v in
            let swap : (j : ℕ) → with_tx i.txn v' j ≡ without u.txn.hash w j = λ j. ground arith in
            let entered =
              take_in v' (ground (arith, fresh)) k1.conflicts_ok
                (OracleOk-view (without u.txn.hash w) (with_tx i.txn v') _ swap k1.oracle_ok) in
            let same : (j : ℕ) → pooled q j ≡ with_tx i.txn v' j =
              λ j. rw (agree j, found j) refl in
            IsLinked-view (with_tx i.txn v') (with_tx i.txn v') (pooled q) (pooled q) q same same
              entered,
      )

  pub place_answers : Answer i feer p
  place_answers = elim (Bool-cases (length p.verified_txes == p.capacity)) [
    | inr room ↦ place_room room
    | inl full ↦ elim (Bool-cases (position i p.verified_txes == length p.verified_txes)) [
      | inl last ↦ place_oom full last
      | inr inside ↦ place_full full inside
    ]
  ]

-- On a consistent pool that does not hold the item's transaction, the second half of Add answers for every
-- item with a payer, and the pool is consistent again: either the pool is full and no pooled item is below
-- the new one, and it answers ErrOOM and changes nothing; or the item is stored, in a pool with room beside
-- all others, and in a full pool at the cost of the last one alone.
pub place_lem :
    (i : Item) (feer : Feer) (p : Pool)
    → IsConsistent p
    → lookup i.txn.hash p.verified_map ≡ none
    → HasPayer p.payer_index i
    → (o : Outcome Unit) × (q : Pool) × (place i feer p ≡ some (o, q))
      × IsConsistent q
      × Placed i p o q
place_lem i feer p c fresh pays =
    let (o, q, runs, k, placed, links) = place_answers i feer p c fresh pays in
    (o, q, runs, k, placed)
