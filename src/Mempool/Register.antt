-- ===== src/Mempool/Register.antt =====
-- pkg/core/mempool/mem_pool.go: the end of Add: the item enters the slice, the map and the tables.
use epicchain_go.Common.{
  ℕ, ◌≡◌, refl, ◌∙◌, Bool, false, Option, none, some, List, [], ◌∷◌, arith, nat_eq, lookup, insert,
  length, if◌then◌else◌,
}
use epicchain_go.Mempool.Types.{
  Transaction, Item, Pool, Feer, UtilityBalanceAndFees, Outcome, ok, err, added, notify,
  update_metrics, conflict_hashes,
}
use epicchain_go.Mempool.Fees.{
  account_at, try_add_senders_fee, sender_entry, with_entry, add_checked, total_fee, check_balance,
  add256,
}
use epicchain_go.Mempool.Add.{move_to, add_conflicts, register}
use epicchain_go.Mempool.Invariant.{
  HasPayer, SameCore, SameCore-refl, SameCore-trans, notify-SameCore, update_metrics-SameCore,
}
use epicchain_go.Mempool.Links.{
  View, with_tx, ConflictsOk, OracleOk, IsLinked, SameLinks, SameLinks-trans, IsLinked-SameLinks,
  IsLinked-add, notify-SameLinks, update_metrics-SameLinks,
}

with_entry-SameCore :
    (a : ℕ) (f : UtilityBalanceAndFees) (o : Option UtilityBalanceAndFees) (p : Pool)
    → SameCore p (with_entry a f o p)
with_entry-SameCore a f none p = ground arith
with_entry-SameCore a f (some g) p = SameCore-refl p

add_checked-SameCore :
    (a : ℕ) (f : UtilityBalanceAndFees) (p : Pool) (o : Outcome ℕ)
    → SameCore p (add_checked a f p o).1
add_checked-SameCore a f p (ok s) = ground arith
add_checked-SameCore a f p (err e) = SameCore-refl p

with_entry-SameLinks :
    (a : ℕ) (f : UtilityBalanceAndFees) (o : Option UtilityBalanceAndFees) (p : Pool)
    → SameLinks p (with_entry a f o p)
with_entry-SameLinks a f none p = ground arith
with_entry-SameLinks a f (some g) p = ground arith

add_checked-SameLinks :
    (a : ℕ) (f : UtilityBalanceAndFees) (p : Pool) (o : Outcome ℕ)
    → SameLinks p (add_checked a f p o).1
add_checked-SameLinks a f p (ok s) = ground arith
add_checked-SameLinks a f p (err e) = ground arith

-- The fees of a transaction with a payer are booked without a panic, and nothing else changes.
pub try_add_senders_fee_lem :
    (t : Transaction) (feer : Feer) (check : Bool) (p : Pool) {a : ℕ}
    → account_at t p.payer_index ≡ some a
    → (r : Bool × Pool) × (try_add_senders_fee t feer check p ≡ some r)
      × SameCore p r.1
      × SameLinks p r.1
unfolding try_add_senders_fee
try_add_senders_fee_lem t feer check p {a} e =
    let known = lookup a p.fees in
    let f = sender_entry feer a known in
    let p' = with_entry a f known p in
    let o = if check then check_balance t f else ok (add256 f.fee_sum (total_fee t)) in
    (
      add_checked a f p' o,
      rw e refl,
      SameCore-trans (with_entry-SameCore a f known p) (add_checked-SameCore a f p' o),
      SameLinks-trans (with_entry-SameLinks a f known p) (add_checked-SameLinks a f p' o),
    )

pub add_conflicts-SameCore : (h : ℕ) (hs : List ℕ) (p : Pool) → SameCore p (add_conflicts h hs p)
unfolding add_conflicts
add_conflicts-SameCore h [] p = SameCore-refl p
add_conflicts-SameCore h (x ∷ hs) p = SameCore-trans (ground arith) (add_conflicts-SameCore h hs _)

-- What registration of an item at position `n` does to the slice and to the map.
pub record Registered (n : ℕ) (i : Item) (p q : Pool) : Type 0 where
  pub txes : q.verified_txes ≡ move_to n i p.verified_txes
  pub map : q.verified_map ≡ insert i.txn.hash i.txn p.verified_map
  pub capacity : q.capacity ≡ p.capacity
  pub payer_index : q.payer_index ≡ p.payer_index

Registered-SameCore :
    {n : ℕ} {i : Item} {p q r : Pool} → Registered n i p q → SameCore q r → Registered n i p r
Registered-SameCore a b = record {
  txes = b.txes ∙ a.txes;
  map = b.map ∙ a.map;
  capacity = b.capacity ∙ a.capacity;
  payer_index = b.payer_index ∙ a.payer_index;
}

-- The side tables take the new item in.
abbrev pub LinksTake : Item → Pool → Pool → Type 0
LinksTake i p q =
    (v : View)
    → v i.txn.hash ≡ none
    → ConflictsOk v p.conflicts_map
    → OracleOk (with_tx i.txn v) p.oracle_resp
    → IsLinked (with_tx i.txn v) (with_tx i.txn v) q

pub register-Registered :
    (n : ℕ) (i : Item) (feer : Feer) (p : Pool)
    → HasPayer p.payer_index i
    → (q : Pool) × (register n i feer p ≡ some (ok tt, q)) × Registered n i p q × LinksTake i p q
unfolding register
register-Registered n i feer p (a, pays) =
    let t = i.txn in
    let p1 : Pool = record p {
      verified_txes = move_to n i p.verified_txes;
      verified_map = insert t.hash t p.verified_map;
    } in
    let p2 = add_conflicts t.hash (conflict_hashes t) p1 in
    let same = add_conflicts-SameCore t.hash (conflict_hashes t) p1 in
    let (r, runs, keeps, links) =
      try_add_senders_fee_lem t feer false p2 {a = a} (rw same.payer_index pays) in
    let moved : Registered n i p p1 = record {
      txes = refl;
      map = refl;
      capacity = refl;
      payer_index = refl;
    } in
    let count = length r.1.verified_txes in
    let p3 = update_metrics count r.1 in
    (
      notify (added t i.extra) p3,
      rw runs refl,
      Registered-SameCore moved (
          SameCore-trans same (
            SameCore-trans keeps (
              SameCore-trans (update_metrics-SameCore count r.1)
                (notify-SameCore (added t i.extra) p3)))),
      λ v fresh c o.
          IsLinked-SameLinks (with_tx t v) (with_tx t v)
            (SameLinks-trans links (
              SameLinks-trans (update_metrics-SameLinks count r.1)
                (notify-SameLinks (added t i.extra) p3)))
            (IsLinked-add v (with_tx t v) t p1 fresh (record { conflicts_ok = c; oracle_ok = o })),
    )
