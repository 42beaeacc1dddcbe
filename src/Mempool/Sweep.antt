-- ===== src/Mempool/Sweep.antt =====
-- pkg/core/mempool/mem_pool.go: RemoveStale on a sound pool. The loop is followed with what it has kept and
-- what it has not reached.
use epicchain_go.Common.{
  ℕ, ◌≤◌, ◌≡◌, refl, sym, ap, ◌∙◌, subst, Bool, true, false, Option, none, some, List, [], ◌∷◌,
  ◌++◌, arith, nat_eq, lookup, delete, lookup-delete, length, All, ◌==◌, inl, inr, Bool-cases, ◌&&◌,
}
use mathlib.Core.List.{append_assoc, append-nil}
use epicchain_go.Mempool.Types.{Transaction, Item, Pool, Feer, conflict_hashes, removed}
use epicchain_go.Mempool.Remove.{remove_oracle_of}
use epicchain_go.Mempool.Add.{add_conflicts}
use epicchain_go.Mempool.Stale.{
  load_policy, check_policy, Sweep, drop_item, keep_or_drop, still_valid, sweep, resend_stale_items,
  finish_sweep, remove_stale,
}
use epicchain_go.Mempool.Order.{IsSorted}
use epicchain_go.Mempool.Items.{
  find_tx, erase, IsDistinct, find_tx-erase, All-erase, IsSorted-erase, IsDistinct-erase,
}
use epicchain_go.Mempool.Links.{
  OracleOk, OracleOk-view, count, View, without, with_tx, IsLinked, SameLinks, IsLinked-SameLinks,
  IsLinked-view, IsLinked-add, IsLinked-forget, notify-SameLinks,
}
use epicchain_go.Mempool.Invariant.{
  HasPayer, SameCore, SameCore-refl, SameCore-trans, notify-SameCore, remove_oracle_of-SameCore,
  erase-le,
}
use epicchain_go.Mempool.Register.{try_add_senders_fee_lem, add_conflicts-SameCore}
use epicchain_go.Mempool.PlaceLaw.{pooled}
use epicchain_go.Mempool.Check.{IsSound}

All-middle :
    (P : Item → Type 0) (l : List Item) (x : Item) (m : List Item) → All P (l ++ (x ∷ m)) → P x
All-middle P [] x m a = a.0
All-middle P (y ∷ l) x m a = All-middle P l x m a.1

abbrev in_items : List Item → View
in_items l = λ j. find_tx j l

-- The loop has kept `kept` and has `rest` before it.
record IsSwept (kept rest : List Item) (p : Pool) : Type 0 where
  sorted : IsSorted (kept ++ rest)
  bounded : length (kept ++ rest) ≤ p.capacity
  distinct : IsDistinct (kept ++ rest)
  payers : All (HasPayer p.payer_index) (kept ++ rest)
  agree : (h : ℕ) → lookup h p.verified_map ≡ find_tx h (kept ++ rest)
  linked : IsLinked (in_items kept) (in_items (kept ++ rest)) p

find_tx-append :
    (h : ℕ) (l m : List Item)
    → find_tx h (l ++ m)
      ≡ (elim (find_tx h l) as (λ _. Option Transaction) [ none ↦ find_tx h m | some t ↦ some t ])
unfolding find_tx
find_tx-append h [] m = refl
find_tx-append h (x ∷ l) m = elim (Bool-cases (x.txn.hash == h)) [
  | inl p ↦ rw p refl
  | inr p ↦ rw p (find_tx-append h l m)
]

IsDistinct-split :
    (l : List Item) (x : Item) (m : List Item)
    → IsDistinct (l ++ (x ∷ m))
    → (find_tx x.txn.hash l ≡ none) × (find_tx x.txn.hash m ≡ none)
unfolding find_tx
IsDistinct-split [] x m d = (refl, d.0)
IsDistinct-split (y ∷ l) x m d =
    let (a, b) = IsDistinct-split l x m d.1 in
    (ground (arith, find_tx-append y.txn.hash l (x ∷ m), d.0, a), b)

erase-middle :
    (l : List Item) (x : Item) (m : List Item)
    → find_tx x.txn.hash l ≡ none
    → erase x.txn.hash (l ++ (x ∷ m)) ≡ l ++ m
unfolding erase find_tx
erase-middle [] x m e = ground arith
erase-middle (y ∷ l) x m e = ground (arith, erase-middle l x m)

find_tx-last_new :
    (j : ℕ) (l : List Item) (x : Item)
    → find_tx x.txn.hash l ≡ none
    → find_tx j (l ++ (x ∷ [])) ≡ with_tx x.txn (in_items l) j
unfolding find_tx
find_tx-last_new j [] x e = refl
find_tx-last_new j (y ∷ l) x e = ground (arith, find_tx-last_new j l x)

IsSwept-Same :
    (kept rest : List Item) {p q : Pool}
    → SameCore p q
    → SameLinks p q
    → IsSwept kept rest p
    → IsSwept kept rest q
IsSwept-Same kept rest c k s = record {
  sorted = s.sorted;
  bounded = rw c.capacity s.bounded;
  distinct = s.distinct;
  payers = rw c.payer_index s.payers;
  agree = λ h. rw c.map (s.agree h);
  linked = IsLinked-SameLinks _ _ k s.linked;
}

-- An item that is kept joins the items kept, and its conflicts are noted.
IsSwept-keep :
    (kept rest : List Item) (i : Item) (p : Pool)
    → IsSwept kept (i ∷ rest) p
    → IsSwept (kept ++ (i ∷ [])) rest (add_conflicts i.txn.hash (conflict_hashes i.txn) p)
IsSwept-keep kept rest i p s =
    let e : (kept ++ (i ∷ [])) ++ rest ≡ kept ++ (i ∷ rest) = append_assoc kept (i ∷ []) rest in
    let c = add_conflicts-SameCore i.txn.hash (conflict_hashes i.txn) p in
    let (new, behind) = IsDistinct-split kept i rest s.distinct in
    let v = in_items kept in
    record {
      sorted = rw e s.sorted;
      bounded = rw (e, c.capacity) s.bounded;
      distinct = rw e s.distinct;
      payers = rw (e, c.payer_index) s.payers;
      agree = λ h. rw (e, c.map) (s.agree h);
      linked =
          IsLinked-view (with_tx i.txn v) (in_items (kept ++ (i ∷ rest)))
            (in_items (kept ++ (i ∷ []))) (in_items ((kept ++ (i ∷ [])) ++ rest)) _
            (λ j. find_tx-last_new j kept i new) (λ j. ap (find_tx j) e)
            (IsLinked-add v (in_items (kept ++ (i ∷ rest))) i.txn p new s.linked);
    }

-- An item that is dropped is erased from what is pooled.
IsSwept-drop :
    (kept rest : List Item) (i : Item) (p : Pool)
    → IsSwept kept (i ∷ rest) p
    → IsSwept kept rest (drop_item i p)
IsSwept-drop kept rest i p s =
    let (new, behind) = IsDistinct-split kept i rest s.distinct in
    let h = i.txn.hash in
    let l = kept ++ (i ∷ rest) in
    let gone : erase h l ≡ kept ++ rest = erase-middle kept i rest new in
    let p1 : Pool = record p { verified_map = delete h p.verified_map } in
    let p2 = remove_oracle_of i.txn p1 in
    let c : SameCore p1 (drop_item i p) =
      SameCore-trans (remove_oracle_of-SameCore i.txn p1)
        (notify-SameCore (removed i.txn i.extra) p2) in
    let found : (j : ℕ) → find_tx j (kept ++ rest) ≡ without h (in_items l) j =
      λ j. ap (find_tx j) (sym gone) ∙ find_tx-erase h j l s.distinct in
    let there : find_tx h l ≡ some i.txn =
      find_tx-append h kept (i ∷ rest) ∙ rw new (unfold find_tx in ground arith) in
    record {
      sorted = subst IsSorted gone (IsSorted-erase h l s.sorted);
      bounded = rw c.capacity (omega (arith, ap (length {A = Item}) gone, erase-le h l, s.bounded));
      distinct = subst IsDistinct gone (IsDistinct-erase h l s.distinct);
      payers = rw c.payer_index (
          subst (λ m. All (HasPayer p.payer_index) m) gone
            (All-erase (HasPayer p.payer_index) h l s.payers));
      agree = λ j. rw (c.map, lookup-delete h j p.verified_map, s.agree j, found j) refl;
      linked = IsLinked-SameLinks _ _ (notify-SameLinks (removed i.txn i.extra) p2) (
          IsLinked-view (in_items kept) (without h (in_items l)) (in_items kept)
            (in_items (kept ++ rest)) p2 (λ j. refl) found
            (IsLinked-forget (in_items kept) (in_items l) i.txn p1 there
              (record { conflicts_ok = s.linked.conflicts_ok; oracle_ok = s.linked.oracle_ok })));
    }

module _ (is_ok : Transaction → Bool) (feer : Feer) (policy_changed : Bool) where
  -- The condition of the loop does not panic and leaves all but the fees.
  still_valid_lem :
      (i : Item) (p : Pool)
      → HasPayer p.payer_index i
      → (r : Bool × Pool) × (still_valid is_ok feer policy_changed i p ≡ some r)
        × SameCore p r.1
        × SameLinks p r.1
  still_valid_lem i p (a, pays) =
      elim (Bool-cases (is_ok i.txn && check_policy i.txn policy_changed p)) [
        | inl good ↦ rw good (try_add_senders_fee_lem i.txn feer true p pays)
        | inr bad ↦
            rw bad (
              (false, p),
              refl,
              SameCore-refl p,
              record { conflicts_map = refl; oracle_resp = refl },
            )
      ]

  keep_or_drop_lem :
      (rest : List Item) (i : Item) (s : Sweep) (r : Bool × Pool)
      → IsSwept s.kept (i ∷ rest) r.1
      → IsSwept
          (keep_or_drop feer.block_height i s r).0.kept
          rest
          (keep_or_drop feer.block_height i s r).1
  keep_or_drop_lem rest i s (true, p) h = IsSwept-keep s.kept rest i p h
  keep_or_drop_lem rest i s (false, p) h = IsSwept-drop s.kept rest i p h

  sweep_lem :
      (rest : List Item) (s : Sweep) (p : Pool)
      → IsSwept s.kept rest p
      → (r : Sweep × Pool) × (sweep is_ok feer policy_changed rest s p ≡ some r)
        × IsSwept r.0.kept [] r.1
  unfolding sweep
  sweep_lem [] s p h = ((s, p), refl, h)
  sweep_lem (i ∷ rest) s p h =
      let pays = All-middle (HasPayer p.payer_index) s.kept i rest h.payers in
      let (v, runs, c, k) = still_valid_lem i p pays in
      let next = keep_or_drop feer.block_height i s v in
      let (r, runs', h') =
        sweep_lem rest next.0 next.1
          (keep_or_drop_lem rest i s v (IsSwept-Same s.kept (i ∷ rest) c k h)) in
      (r, rw runs runs', h')

resend-SameCore : (l : List Item) (p : Pool) → SameCore p (resend_stale_items l p)
resend-SameCore [] p = SameCore-refl p
resend-SameCore (x ∷ l) p = ground arith

resend-SameLinks : (l : List Item) (p : Pool) → SameLinks p (resend_stale_items l p)
resend-SameLinks [] p = record { conflicts_map = refl; oracle_resp = refl }
resend-SameLinks (x ∷ l) p = ground arith

-- What the loop has kept in the end is what the pool holds.
finish_sweep_lem : (s : Sweep) (p : Pool) → IsSwept s.kept [] p → IsSound (finish_sweep s p)
finish_sweep_lem s p h =
    let e : s.kept ++ [] ≡ s.kept = append-nil s.kept in
    let h' = IsSwept-Same s.kept [] (resend-SameCore s.stale p) (resend-SameLinks s.stale p) h in
    let agree : (j : ℕ) → lookup j (resend_stale_items s.stale p).verified_map ≡ find_tx j s.kept =
      λ j. h'.agree j ∙ ap (find_tx j) e in
    let linked =
      IsLinked-view (in_items s.kept) (in_items (s.kept ++ [])) (pooled (finish_sweep s p))
        (pooled (finish_sweep s p)) (resend_stale_items s.stale p) agree h'.agree h'.linked in
    record {
      consistent = record {
        sorted = subst IsSorted e h'.sorted;
        bounded = subst (λ l. length l ≤ (resend_stale_items s.stale p).capacity) e h'.bounded;
        distinct = subst IsDistinct e h'.distinct;
        payers =
            subst (λ l. All (HasPayer (resend_stale_items s.stale p).payer_index) l) e h'.payers;
        agree = agree;
      };
      linked = record { conflicts_ok = linked.conflicts_ok; oracle_ok = linked.oracle_ok };
    }

load_policy_lem :
    (feer : Feer) (p : Pool)
    → SameCore p (load_policy feer p).1 × ((load_policy feer p).1.oracle_resp ≡ p.oracle_resp)
unfolding load_policy
load_policy_lem feer p = (ground arith, ground arith)

-- RemoveStale never panics on a sound pool, and leaves a sound pool.
pub remove_stale_lem :
    (is_ok : Transaction → Bool) (feer : Feer) (p : Pool)
    → IsSound p
    → (q : Pool) × (remove_stale is_ok feer p ≡ some q) × IsSound q
unfolding remove_stale
remove_stale_lem is_ok feer p s =
    let loaded = load_policy feer p in
    let (c, o) = load_policy_lem feer p in
    let p2 : Pool = record loaded.1 { fees = []; conflicts_map = [] } in
    let start : IsSwept [] p.verified_txes p2 = record {
      sorted = s.consistent.sorted;
      bounded = rw c.capacity s.consistent.bounded;
      distinct = s.consistent.distinct;
      payers = rw c.payer_index s.consistent.payers;
      agree = λ h. rw c.map (s.consistent.agree h);
      linked = record {
        conflicts_ok = unfold count find_tx lookup in λ h x. refl;
        oracle_ok = subst (OracleOk (in_items p.verified_txes)) (sym o) (
            OracleOk-view (pooled p) (in_items p.verified_txes) p.oracle_resp
              (λ j. sym (s.consistent.agree j)) s.linked.oracle_ok);
      };
    } in
    let (r, runs, h) =
      sweep_lem is_ok feer loaded.0 p.verified_txes (record { kept = []; stale = [] }) p2 start in
    (finish_sweep r.0 r.1, rw runs refl, finish_sweep_lem r.0 r.1 h)
