-- ===== src/Mempool/Invariant.antt =====
-- pkg/core/mempool/mem_pool.go: what holds of a pool between two calls, and removal.
use epicchain_go.Common.{
  ℕ, zero, suc, ◌≤◌, ◌≡◌, refl, sym, ap, subst, ◌∙◌, Option, none, some, List, [], ◌∷◌, arith,
  nat_eq, lookup, delete, lookup-delete, length, get_elem?, All, ◌==◌, if◌then◌else◌, inl, inr,
  Option-cases,
}
use epicchain_go.Mempool.Types.{
  Transaction, Item, Pool, Signal, conflict_hashes, oracle_id, notify, update_metrics, removed,
}
use epicchain_go.Mempool.Fees.{account_at}
use epicchain_go.Mempool.Remove.{
  drop_conflict, delete_oracle, remove_conflicts, remove_conflicts_of, remove_oracle_of,
  release_fee, removed_pool, remove_found, remove_internal, index_of, remove_at,
}
use epicchain_go.Mempool.Order.{IsSorted}
use epicchain_go.Mempool.Links.{
  View, without, IsLinked, SameLinks, IsLinked-SameLinks, IsLinked-view, IsLinked-remove,
  notify-SameLinks, update_metrics-SameLinks, release_fee-SameLinks,
}
use epicchain_go.Mempool.Items.{
  find_tx, erase, IsDistinct, remove_at-index_of, get_elem?-index_of, find_tx-erase, All-erase,
  IsSorted-erase, IsDistinct-erase,
}

-- The item has the signer that pays.
abbrev pub HasPayer : ℕ → Item → Type 0
HasPayer payer_index i = (a : ℕ) × (account_at i.txn payer_index ≡ some a)

-- The slice is sorted, within the capacity and without repetition, every item has a payer, and the map
-- holds the slice's transactions under their hashes and nothing else.
pub record IsConsistent (p : Pool) : Type 0 where
  pub sorted : IsSorted p.verified_txes
  pub bounded : length p.verified_txes ≤ p.capacity
  pub distinct : IsDistinct p.verified_txes
  pub payers : All (HasPayer p.payer_index) p.verified_txes
  pub agree : (h : ℕ) → lookup h p.verified_map ≡ find_tx h p.verified_txes

-- Two pools with the same slice, map, capacity and payer.
pub record SameCore (p q : Pool) : Type 0 where
  pub txes : q.verified_txes ≡ p.verified_txes
  pub map : q.verified_map ≡ p.verified_map
  pub capacity : q.capacity ≡ p.capacity
  pub payer_index : q.payer_index ≡ p.payer_index

pub SameCore-trans : {p q r : Pool} → SameCore p q → SameCore q r → SameCore p r
SameCore-trans a b = record {
  txes = b.txes ∙ a.txes;
  map = b.map ∙ a.map;
  capacity = b.capacity ∙ a.capacity;
  payer_index = b.payer_index ∙ a.payer_index;
}

pub IsConsistent-SameCore : {p q : Pool} → SameCore p q → IsConsistent p → IsConsistent q
IsConsistent-SameCore s c = record {
  sorted = rw s.txes c.sorted;
  bounded = rw (s.txes, s.capacity) c.bounded;
  distinct = rw s.txes c.distinct;
  payers = rw (s.txes, s.payer_index) c.payers;
  agree = λ h. rw (s.txes, s.map) (c.agree h);
}

pub notify-SameCore : (e : Signal) (p : Pool) → SameCore p (notify e p)
unfolding notify
notify-SameCore e p = ground arith

pub update_metrics-SameCore : (n : ℕ) (p : Pool) → SameCore p (update_metrics n p)
unfolding update_metrics
update_metrics-SameCore n p = ground arith

pub SameCore-refl : (p : Pool) → SameCore p p
SameCore-refl p = record { txes = refl; map = refl; capacity = refl; payer_index = refl }

drop_conflict-SameCore :
    (ch h : ℕ) (o : Option (List ℕ)) (p : Pool) → SameCore p (drop_conflict ch h o p)
drop_conflict-SameCore ch h none p = SameCore-refl p
drop_conflict-SameCore ch h (some l) p = ground arith

remove_conflicts-SameCore : (h : ℕ) (hs : List ℕ) (p : Pool) → SameCore p (remove_conflicts h hs p)
unfolding remove_conflicts
remove_conflicts-SameCore h [] p = SameCore-refl p
remove_conflicts-SameCore h (x ∷ hs) p =
    SameCore-trans (drop_conflict-SameCore x h (lookup x p.conflicts_map) p)
      (remove_conflicts-SameCore h hs _)

pub remove_conflicts_of-SameCore :
    (t : Transaction) (p : Pool) → SameCore p (remove_conflicts_of t p)
unfolding remove_conflicts_of
remove_conflicts_of-SameCore t p = remove_conflicts-SameCore t.hash (conflict_hashes t) p

delete_oracle-SameCore : (o : Option ℕ) (p : Pool) → SameCore p (delete_oracle o p)
delete_oracle-SameCore none p = SameCore-refl p
delete_oracle-SameCore (some id) p = ground arith

pub remove_oracle_of-SameCore : (t : Transaction) (p : Pool) → SameCore p (remove_oracle_of t p)
unfolding remove_oracle_of
remove_oracle_of-SameCore t p = delete_oracle-SameCore (oracle_id t) p

release_fee-SameCore : (a : ℕ) (t : Transaction) (p : Pool) → SameCore p (release_fee a t p)
unfolding release_fee
release_fee-SameCore a t p = ground arith

-- What removal of a hash does to the slice and to the map.
pub record Removed (h : ℕ) (p q : Pool) : Type 0 where
  pub txes : q.verified_txes ≡ erase h p.verified_txes
  pub map : q.verified_map ≡ delete h p.verified_map
  pub capacity : q.capacity ≡ p.capacity
  pub payer_index : q.payer_index ≡ p.payer_index

Removed-SameCore : {h : ℕ} {p q r : Pool} → Removed h p q → SameCore q r → Removed h p r
Removed-SameCore a b = record {
  txes = b.txes ∙ a.txes;
  map = b.map ∙ a.map;
  capacity = b.capacity ∙ a.capacity;
  payer_index = b.payer_index ∙ a.payer_index;
}

pub erase-le : (h : ℕ) (l : List Item) → length (erase h l) ≤ length l
unfolding erase
erase-le h [] = omega arith
erase-le h (x ∷ l) = ground (arith, erase-le h l)

pub Removed-IsConsistent : (h : ℕ) {p q : Pool} → Removed h p q → IsConsistent p → IsConsistent q
Removed-IsConsistent h {p} r c = record {
  sorted = rw r.txes (IsSorted-erase h p.verified_txes c.sorted);
  bounded = rw (r.txes, r.capacity) (omega (arith, erase-le h p.verified_txes, c.bounded));
  distinct = rw r.txes (IsDistinct-erase h p.verified_txes c.distinct);
  payers =
      rw (r.txes, r.payer_index) (All-erase (HasPayer p.payer_index) h p.verified_txes c.payers);
  agree = λ j.
      rw (r.txes, r.map)
        (rw
          (
            lookup-delete h j p.verified_map,
            find_tx-erase h j p.verified_txes c.distinct,
            c.agree j,
          )
          refl);
}

get_elem?-All :
    (P : Item → Type 0) (l : List Item) (n : ℕ) {i : Item} → All P l → get_elem? l n ≡ some i → P i
get_elem?-All P [] n a e = cc
get_elem?-All P (x ∷ l) zero a e = subst P (cc) a.0
get_elem?-All P (x ∷ l) (suc n) a e = get_elem?-All P l n a.1 e

removed_pool-Removed :
    (t : Transaction) (h : ℕ) (itm : Item) (payer : ℕ) (p : Pool)
    → find_tx h p.verified_txes ≡ some t
    → Removed h p (removed_pool t h (index_of h p.verified_txes) itm payer p)
unfolding removed_pool
removed_pool-Removed t h itm payer p found =
    let num = index_of h p.verified_txes in
    let p1 : Pool = record p {
      verified_map = delete h p.verified_map;
      verified_txes = remove_at num p.verified_txes;
    } in
    let taken : Removed h p p1 = record {
      txes = remove_at-index_of h p.verified_txes found;
      map = refl;
      capacity = refl;
      payer_index = refl;
    } in
    let p2 = release_fee payer t p1 in
    let p3 = remove_conflicts_of t p2 in
    Removed-SameCore taken (
      SameCore-trans (release_fee-SameCore payer t p1) (
        SameCore-trans (remove_conflicts_of-SameCore t p2) (
          SameCore-trans (remove_oracle_of-SameCore t p3)
            (notify-SameCore (removed itm.txn itm.extra) (remove_oracle_of t p3)))))

removed_pool-IsLinked :
    (v w : View) (t : Transaction) (h num : ℕ) (itm : Item) (payer : ℕ) (p : Pool)
    → t.hash ≡ h
    → v h ≡ some t
    → w h ≡ some t
    → IsLinked v w p
    → IsLinked (without h v) (without h w) (removed_pool t h num itm payer p)
unfolding removed_pool
removed_pool-IsLinked v w t h num itm payer p hash there there' l =
    let p1 : Pool = record p {
      verified_map = delete h p.verified_map;
      verified_txes = remove_at num p.verified_txes;
    } in
    let p2 = release_fee payer t p1 in
    let l2 : IsLinked v w p2 =
      IsLinked-SameLinks v w (release_fee-SameLinks payer t p1)
        (record { conflicts_ok = l.conflicts_ok; oracle_ok = l.oracle_ok }) in
    let l3 = IsLinked-remove v w t p2 (ap v hash ∙ there) (ap w hash ∙ there') l2 in
    IsLinked-SameLinks (without h v) (without h w)
      (notify-SameLinks (removed itm.txn itm.extra) (remove_oracle_of t (remove_conflicts_of t p2)))
      (subst
        (λ (k : ℕ).
          IsLinked (without k v) (without k w) (remove_oracle_of t (remove_conflicts_of t p2)))
        hash l3)

-- The tables follow the view when the hash goes.
abbrev pub LinksFollow : ℕ → Pool → Pool → Type 0
LinksFollow h p q =
    (v w : View)
    → v h ≡ lookup h p.verified_map
    → w h ≡ lookup h p.verified_map
    → IsLinked v w p
    → IsLinked (without h v) (without h w) q

remove_found-Removed :
    (h : ℕ) (t : Transaction) (p : Pool)
    → IsConsistent p
    → lookup h p.verified_map ≡ some t
    → (q : Pool) × (remove_found t h p ≡ some q) × Removed h p q × LinksFollow h p q
unfolding remove_found
remove_found-Removed h t p c e =
    let found : find_tx h p.verified_txes ≡ some t = sym (c.agree h) ∙ e in
    let num = index_of h p.verified_txes in
    let (i, at, same, hash) = get_elem?-index_of h p.verified_txes t found in
    let (a, pays) = get_elem?-All (HasPayer p.payer_index) p.verified_txes num c.payers at in
    (
      removed_pool t h num i a p,
      rw (at, pays) refl,
      removed_pool-Removed t h i a p found,
      λ v w at at' l. removed_pool-IsLinked v w t h num i a p hash (at ∙ e) (at' ∙ e) l,
    )

-- What removal of `h` does on a consistent pool: it answers, the pool stays consistent, the hash leaves
-- the map and nothing else does, and the side tables follow.
pub record RemovedWell (h : ℕ) (p q : Pool) : Type 0 where
  pub runs : remove_internal h p ≡ some q
  pub consistent : IsConsistent q
  pub map : (j : ℕ) → lookup j q.verified_map ≡ (if h == j then none else lookup j p.verified_map)
  pub payer_index : q.payer_index ≡ p.payer_index
  pub links : LinksFollow h p q
  pub idle : lookup h p.verified_map ≡ none → SameLinks p q

pub remove_internal_lem : (h : ℕ) (p : Pool) → IsConsistent p → (q : Pool) × RemovedWell h p q
unfolding remove_internal
remove_internal_lem h p c = elim (Option-cases (lookup h p.verified_map)) [
  | inl absent ↦
      let s = update_metrics-SameCore (length p.verified_txes) p in
      (
        update_metrics (length p.verified_txes) p,
        record {
          runs = rw absent refl;
          consistent = IsConsistent-SameCore s c;
          map = λ j. rw s.map (ground (arith, absent));
          payer_index = s.payer_index;
          links = λ v w at at' l.
              IsLinked-SameLinks (without h v) (without h w)
                (update_metrics-SameLinks (length p.verified_txes) p)
                (IsLinked-view v w (without h v) (without h w) p (λ j. ground (arith, at, absent))
                  (λ j. ground (arith, at', absent)) l);
          idle = λ e. update_metrics-SameLinks (length p.verified_txes) p;
        },
      )
  | inr (t, there) ↦
      let (q, runs, r, follow) = remove_found-Removed h t p c there in
      let n = length q.verified_txes in
      let s = update_metrics-SameCore n q in
      (
        update_metrics n q,
        record {
          runs = rw (there, runs) refl;
          consistent = IsConsistent-SameCore s (Removed-IsConsistent h r c);
          map = λ j. rw (s.map, r.map) (lookup-delete h j p.verified_map);
          payer_index = s.payer_index ∙ r.payer_index;
          links = λ v w at at' l.
              IsLinked-SameLinks (without h v) (without h w) (update_metrics-SameLinks n q)
                (follow v w at at' l);
          idle = λ e. cc;
        },
      )
]

-- What is pooled has a payer.
pub pooled_payer :
    (p : Pool) (h : ℕ) (t : Transaction)
    → IsConsistent p
    → lookup h p.verified_map ≡ some t
    → (a : ℕ) × (account_at t p.payer_index ≡ some a)
pooled_payer p h t c e =
    let (i, at, same, hash) = get_elem?-index_of h p.verified_txes t (sym (c.agree h) ∙ e) in
    let (a, pays) = get_elem?-All (HasPayer p.payer_index) p.verified_txes _ c.payers at in
    (a, ap (λ (u : Transaction). account_at u p.payer_index) (sym same) ∙ pays)
