-- ===== src/Mempool/AddLaw.antt =====
-- pkg/core/mempool/mem_pool.go: Add, as a whole, on a sound pool.
use epicchain_go.Common.{
  ℕ, ◌≡◌, refl, sym, ◌∙◌, false, Option, none, some, List, [], ◌∷◌, arith, nat_eq, lookup,
  lookup-insert, length, leb, subst, ==_iff, ◌==◌, inl, inr, Bool-cases, Option-cases,
}
use epicchain_go.Mempool.Types.{
  Transaction, Item, Pool, Feer, Outcome, ok, err, PoolError, dup, oom, oracle_conflict, oracle_id,
}
use epicchain_go.Mempool.Fees.{account_at, contains_key}
use epicchain_go.Mempool.Remove.{remove_internal, remove_all}
use epicchain_go.Mempool.Add.{
  claim_id, replace_response, claim_response, add_claimed, add_checked, add,
}
use epicchain_go.Mempool.Links.{
  View, without, with_tx, OracleOk, IsLinked, IsLinked-SameLinks, IsLinked-view,
}
use epicchain_go.Mempool.Invariant.{IsConsistent, IsConsistent-SameCore, remove_internal_lem}
use epicchain_go.Mempool.PlaceLaw.{
  pooled, Placed, no_room, appended, ditched, LinksEnter, place_answers,
}
use epicchain_go.Mempool.Check.{IsSound, check_tx_conflicts_runs}

-- The pool on the way of `t` into it: the response of `t` may be noted, and `t` is not pooled.
record IsPending (t : Transaction) (p : Pool) : Type 0 where
  consistent : IsConsistent p
  linked : IsLinked (pooled p) (with_tx t (pooled p)) p
  fresh : lookup t.hash p.verified_map ≡ none
  payer : (a : ℕ) × (account_at t p.payer_index ≡ some a)

-- Removal keeps a pool pending, whichever hash goes.
remove-IsPending :
    (t : Transaction) (h : ℕ) (p : Pool)
    → IsPending t p
    → (q : Pool) × (remove_internal h p ≡ some q) × IsPending t q
remove-IsPending t h p s =
    let (q, r) = remove_internal_lem h p s.consistent in
    let v = pooled p in
    let w = with_tx t v in
    let links : IsLinked (pooled q) (with_tx t (pooled q)) q = elim (Bool-cases (t.hash == h)) [
      | inl same ↦
          let idle = r.idle (ground (arith, s.fresh)) in
          IsLinked-view v w (pooled q) (with_tx t (pooled q)) q
            (λ j. rw (r.map j) (ground (arith, s.fresh)))
            (λ j. rw (r.map j) (ground (arith, s.fresh))) (IsLinked-SameLinks v w idle s.linked)
      | inr other ↦
          IsLinked-view (without h v) (without h w) (pooled q) (with_tx t (pooled q)) q
            (λ j. r.map j) (λ j. rw (r.map j) (ground arith))
            (r.links v w refl (rw other refl) s.linked)
    ] in
    (
      q,
      r.runs,
      record {
        consistent = r.consistent;
        linked = links;
        fresh = r.map t.hash ∙ ground (arith, s.fresh);
        payer = rw r.payer_index s.payer;
      },
    )

remove_all-IsPending :
    (t : Transaction) (ts : List Transaction) (p : Pool)
    → IsPending t p
    → (q : Pool) × (remove_all ts p ≡ some q) × IsPending t q
unfolding remove_all
remove_all-IsPending t [] p s = (p, refl, s)
remove_all-IsPending t (c ∷ cs) p s =
    let (q, runs, s') = remove-IsPending t c.hash p s in
    let (q', runs', s'') = remove_all-IsPending t cs q s' in (q', rw runs runs', s'')

-- Noting the response of a transaction that is on its way keeps the table fit, if none is noted yet.
OracleOk-claim :
    (v : View) (t : Transaction) (id : ℕ) (p : Pool)
    → oracle_id t ≡ some id
    → v t.hash ≡ none
    → lookup id p.oracle_resp ≡ none
    → OracleOk v p.oracle_resp
    → OracleOk (with_tx t v) (claim_id id t.hash p).oracle_resp
OracleOk-claim v t id p answers fresh first fit = record {
  pooled_too = λ i h noted. elim (Bool-cases (id == i)) [
    | inl same ↦ (
      t,
      ground (arith, lookup-insert id i t.hash p.oracle_resp),
      ground (arith, lookup-insert id i t.hash p.oracle_resp),
    )
    | inr other ↦
        let (u, at, its) =
          fit.pooled_too i h
            (sym (lookup-insert id i t.hash p.oracle_resp ∙ rw other refl) ∙ noted) in
        (u, ground (arith, fresh, at), its)
  ];
  noted_too = λ i h u at its.
      lookup-insert id i t.hash p.oracle_resp ∙ elim (Bool-cases (t.hash == h)) [
        | inl same ↦ ground arith
        | inr other ↦
            let noted = fit.noted_too i h u (ground arith) its in
            elim (Bool-cases (id == i)) [
              | inl this ↦
                  let none_here =
                    subst (λ x. lookup x p.oracle_resp ≡ none) ((==_iff id i).0 this) first in
                  absurd (cc (none_here, noted))
              | inr that ↦ rw that noted
            ]
      ];
}

OracleOk-pending :
    (v : View) (t : Transaction) (p : Pool)
    → v t.hash ≡ none
    → oracle_id t ≡ none
    → OracleOk v p.oracle_resp
    → OracleOk (with_tx t v) p.oracle_resp
OracleOk-pending v t p fresh nothing fit = record {
  pooled_too = λ i h noted.
      let (u, at, its) = fit.pooled_too i h noted in (u, ground (arith, fresh, at), its);
  noted_too = λ i h u at its. fit.noted_too i h u (ground arith) its;
}

-- The outcome of the oracle step: a refusal, or a pool that is pending.
abbrev ClaimedWell : Transaction → Outcome Pool → Type 0
ClaimedWell t (err e) = e ≡ oracle_conflict
ClaimedWell t (ok p) = IsPending t p

module _ (t : Transaction) (p : Pool) (s : IsSound p) (fresh : lookup t.hash p.verified_map ≡ none)
    {a : ℕ} (pays : account_at t p.payer_index ≡ some a) where
  claim_new :
      (id : ℕ)
      → oracle_id t ≡ some id
      → lookup id p.oracle_resp ≡ none
      → IsPending t (claim_id id t.hash p)
  claim_new id answers first = record {
    consistent =
        IsConsistent-SameCore
          (record { txes = refl; map = refl; capacity = refl; payer_index = refl }) s.consistent;
    linked = record {
      conflicts_ok = s.linked.conflicts_ok;
      oracle_ok = OracleOk-claim (pooled p) t id p answers fresh first s.linked.oracle_ok;
    };
    fresh = fresh;
    payer = (a, pays);
  }

  claim_replace :
      (id h : ℕ)
      → oracle_id t ≡ some id
      → lookup id p.oracle_resp ≡ some h
      → (o : Outcome Pool) × (replace_response t id (some h) p ≡ some o) × ClaimedWell t o
  claim_replace id h answers noted =
      let (u, at, its) = s.linked.oracle_ok.pooled_too id h noted in
      let (q, r) = remove_internal_lem h p s.consistent in
      let v = pooled p in
      let apart : (h == t.hash) ≡ false = ground (arith, fresh, at) in
      let k = r.links v v refl refl s.linked in
      let k' =
        IsLinked-view (without h v) (without h v) (pooled q) (pooled q) q (λ j. r.map j)
          (λ j. r.map j) k in
      let fresh' : lookup t.hash q.verified_map ≡ none = r.map t.hash ∙ rw apart fresh in
      let gone : lookup id q.oracle_resp ≡ none = elim (Option-cases (lookup id q.oracle_resp)) [
        | inl nothing ↦ nothing
        | inr (g, left) ↦
            let (w, there, its) = k'.oracle_ok.pooled_too id g left in
            let still : lookup g p.verified_map ≡ some w = ground (arith, r.map g) in
            let same = s.linked.oracle_ok.noted_too id g w still its in
            absurd (ground (arith, r.map g, same, noted))
      ] in
      elim (Bool-cases (leb t.network_fee u.network_fee)) [
        | inl low ↦ (err oracle_conflict, rw (at, low) refl, refl)
        | inr high ↦ (
          ok (claim_id id t.hash q),
          rw (at, high, r.runs) refl,
          record {
            consistent =
                IsConsistent-SameCore
                  (record { txes = refl; map = refl; capacity = refl; payer_index = refl })
                  r.consistent;
            linked = record {
              conflicts_ok = k'.conflicts_ok;
              oracle_ok = OracleOk-claim (pooled q) t id q answers fresh' gone k'.oracle_ok;
            };
            fresh = fresh';
            payer = (a, rw r.payer_index pays);
          },
        )
      ]

  claim_response_lem : (o : Outcome Pool) × (claim_response t p ≡ some o) × ClaimedWell t o
  unfolding claim_response
  claim_response_lem = elim (Option-cases (oracle_id t)) [
    | inl nothing ↦ (
      ok p,
      rw nothing refl,
      record {
        consistent = s.consistent;
        linked = record {
          conflicts_ok = s.linked.conflicts_ok;
          oracle_ok = OracleOk-pending (pooled p) t p fresh nothing s.linked.oracle_ok;
        };
        fresh = fresh;
        payer = (a, pays);
      },
    )
    | inr (id, answers) ↦ elim (Option-cases (lookup id p.oracle_resp)) [
      | inl first ↦
          (ok (claim_id id t.hash p), rw (answers, first) refl, claim_new id answers first)
      | inr (h, noted) ↦
          let (o, runs, well) = claim_replace id h answers noted in
          (o, rw (answers, noted) runs, well)
    ]
  ]

-- How Add ends: the transaction is stored and the pool is sound; or it is refused and nothing has changed;
-- or it has the lowest priority for a full pool, which is consistent and does not hold it.
pub data Added (t : Transaction) (p : Pool) (o : Outcome Unit) (q : Pool) : Type 0 where
  stored : o ≡ ok tt → IsSound q → lookup t.hash q.verified_map ≡ some t → Added t p o q
  refused : (e : PoolError) → o ≡ err e → q ≡ p → Added t p o q
  full :
      o ≡ err oom
      → IsConsistent q
      → length q.verified_txes ≡ q.capacity
      → lookup t.hash q.verified_map ≡ none
      → Added t p o q

abbrev pub AddAnswer : Transaction → Feer → Option ℕ → Pool → Type 0
AddAnswer t feer extra p =
    (o : Outcome Unit) × (q : Pool) × (add t feer extra p ≡ some (o, q)) × Added t p o q

abbrev Ends : Transaction → Pool → Option (Outcome Unit × Pool) → Type 0
Ends t p r = (o : Outcome Unit) × (q : Pool) × (r ≡ some (o, q)) × Added t p o q

Placed-Added :
    (i : Item) (p0 p : Pool) (o : Outcome Unit) (q : Pool)
    → IsPending i.txn p
    → IsConsistent q
    → Placed i p o q
    → LinksEnter i p o q
    → Added i.txn p0 o q
Placed-Added i p0 p (err e) q s c (no_room a b at f) k = full a c (rw b at) (rw b s.fresh)
Placed-Added i p0 p (err e) q s c (appended a r m) k = absurd (cc)
Placed-Added i p0 p (err e) q s c (ditched a r l u x y m) k = absurd (cc)
Placed-Added i p0 p (ok _) q s c (no_room a b at f) k = absurd (cc)
Placed-Added i p0 p (ok _) q s c (appended a r m) k =
    stored a (record { consistent = c; linked = k s.linked }) (m i.txn.hash ∙ ground arith)
Placed-Added i p0 p (ok _) q s c (ditched a r l u x y m) k =
    stored a (record { consistent = c; linked = k s.linked }) (m i.txn.hash ∙ ground arith)

module _ (i : Item) (feer : Feer) (p : Pool) (s : IsSound p)
    (fresh : lookup i.txn.hash p.verified_map ≡ none) {a : ℕ}
    (pays : account_at i.txn p.payer_index ≡ some a) where
  add_claimed-Ends :
      (txs : List Transaction) (c : Outcome Pool)
      → ClaimedWell i.txn c
      → Ends i.txn p (add_claimed i feer txs p c)
  add_claimed-Ends txs (err e) well = (err e, p, refl, refused e refl refl)
  add_claimed-Ends txs (ok p1) well =
      let (p2, runs, s2) = remove_all-IsPending i.txn txs p1 well in
      let (o, q, runs', c, placed, k) = place_answers i feer p2 s2.consistent s2.fresh s2.payer in
      (o, q, rw runs runs', Placed-Added i p p2 o q s2 c placed k)

  add_checked-Ends : (r : Outcome (List Transaction)) → Ends i.txn p (add_checked i feer p r)
  add_checked-Ends (err e) = (err e, p, refl, refused e refl refl)
  add_checked-Ends (ok txs) =
      let (c, runs, well) = claim_response_lem i.txn p s fresh pays in
      let (o, q, runs', added) = add_claimed-Ends txs c well in (o, q, rw runs runs', added)

-- On a sound pool Add does not panic, for every transaction that has a signer at the payer's index: it
-- stores the transaction and the pool is sound again; or it refuses it and changes nothing; or the pool is
-- full in the end, and it answers ErrOOM, the slice and the map of the pool consistent and without it.
pub add_lem :
    (t : Transaction) (feer : Feer) (extra : Option ℕ) (p : Pool) {a : ℕ}
    → IsSound p
    → account_at t p.payer_index ≡ some a
    → AddAnswer t feer extra p
unfolding add contains_key
add_lem t feer extra p s pays = elim (Option-cases (lookup t.hash p.verified_map)) [
  | inr (u, known) ↦ (err dup, p, rw known refl, refused dup refl refl)
  | inl fresh ↦
      let i : Item = record { txn = t; block_stamp = feer.block_height; extra = extra } in
      let (r, runs) = check_tx_conflicts_runs t feer p s pays in
      let (o, q, runs', added) = add_checked-Ends i feer p s fresh pays r in
      (o, q, rw (fresh, runs) runs', added)
]
