-- ===== src/Mempool/Solvent.antt =====
-- pkg/core/mempool/mem_pool.go: what senders owe after RemoveStale and after Add has ditched an item.
use epicchain_go.Common.{
  ℕ, ◌-◌, ◌≡◌, refl, sym, ap, ◌∙◌, subst, Bool, true, false, some, List, [], ◌∷◌, ◌++◌, arith,
  nat_eq, lookup, delete, length, get_elem?, All, inl, inr, Bool-cases, Option-cases, ◌&&◌,
  if◌then◌else◌, ◌+◌,
}
use epicchain_go.Mempool.Types.{Transaction, Item, Pool, Feer, removed, conflict_hashes}
use epicchain_go.Mempool.Remove.{remove_oracle_of, remove_conflicts_of}
use epicchain_go.Mempool.Add.{ditch_last}
use epicchain_go.Mempool.Invariant.{remove_oracle_of-SameCore, notify-SameCore}
use epicchain_go.Mempool.Register.{add_conflicts-SameCore}
use epicchain_go.Mempool.Stale.{
  load_policy, check_policy, Sweep, keep_or_drop, still_valid, sweep, resend_stale_items,
  finish_sweep, remove_stale,
}
use epicchain_go.Mempool.Books.{
  Books-eq, IsSolvent, keep_or_drop_fees, some_eq, HasRoom, remove_conflicts_fees, owed-append,
  notify_fees, pays_for, remove_oracle_of_fees, owed, try_add-Books, Books,
}

module _ (is_ok : Transaction → Bool) (feer : Feer) (room : HasRoom feer) (changed : Bool) where
  still_valid-Books :
      (i : Item) (n : ℕ → ℕ) (p : Pool) {r : Bool × Pool}
      → still_valid is_ok feer changed i p ≡ some r
      → Books feer n p
      → (Books feer (λ a. n a + (if r.0 then pays_for p.payer_index a i.txn else 0)) r.1
          × (r.1.payer_index ≡ p.payer_index))
        × (r.0 ≡ true → is_ok i.txn ≡ true)
  still_valid-Books i n p {r} e s =
      elim (Bool-cases (is_ok i.txn && check_policy i.txn changed p)) [
        | inl good ↦ (try_add-Books feer room i.txn n p (rw good at e) s, λ _. ground arith)
        | inr bad ↦
            let same = some_eq (rw bad at e) in
            (
              subst
                  (λ (z : Bool × Pool).
                    Books feer (λ a. n a + (if z.0 then pays_for p.payer_index a i.txn else 0)) z.1
                    × (z.1.payer_index ≡ p.payer_index))
                  same (Books-eq feer n (λ a. n a + 0) p p refl (λ a. omega arith) s, refl),
              λ t. absurd (cc (ap (λ (z : Bool × Pool). z.0) same)),
            )
      ]

  abbrev Passed : Item → Type 0
  Passed i = is_ok i.txn ≡ true

  Passed-append : (l : List Item) (i : Item) → All Passed l → Passed i → All Passed (l ++ (i ∷ []))
  Passed-append [] i a b = (b, tt)
  Passed-append (x ∷ l) i a b = (a.0, Passed-append l i a.1 b)

  -- The items kept so far are booked, and passed the test.
  record Swept (index : ℕ) (s : Sweep) (p : Pool) : Type 0 where
    books : Books feer (λ a. owed index a s.kept) p
    payer : p.payer_index ≡ index
    passed : All Passed s.kept

  keep_or_drop-Swept :
      (m index : ℕ) (i : Item) (s : Sweep) (r : Bool × Pool)
      → Books feer (λ a. owed index a s.kept + (if r.0 then pays_for index a i.txn else 0)) r.1
      → r.1.payer_index ≡ index
      → (r.0 ≡ true → Passed i)
      → All Passed s.kept
      → Swept index (keep_or_drop m i s r).0 (keep_or_drop m i s r).1
  keep_or_drop-Swept m index i s (true, p) b same h a = record {
    books =
        Books-eq feer _ _ p _ (keep_or_drop_fees m i s (true, p))
          (λ x. owed-append index x s.kept i) b;
    payer = (add_conflicts-SameCore i.txn.hash (conflict_hashes i.txn) p).payer_index ∙ same;
    passed = Passed-append s.kept i a (h refl);
  }
  keep_or_drop-Swept m index i s (false, p) b same h a =
      let p1 : Pool = record p { verified_map = delete i.txn.hash p.verified_map } in
      record {
        books = Books-eq feer _ _ p _ (keep_or_drop_fees m i s (false, p)) (λ x. omega arith) b;
        payer =
            (notify-SameCore (removed i.txn i.extra) (remove_oracle_of i.txn p1)).payer_index
            ∙ ((remove_oracle_of-SameCore i.txn p1).payer_index ∙ same);
        passed = a;
      }

  sweep-Swept :
      (l : List Item) (index : ℕ) (s : Sweep) (p : Pool) {r : Sweep × Pool}
      → sweep is_ok feer changed l s p ≡ some r
      → Swept index s p
      → Swept index r.0 r.1
  unfolding sweep
  sweep-Swept [] index s p {r} e h = subst (λ (z : Sweep × Pool). Swept index z.0 z.1) (some_eq e) h
  sweep-Swept (i ∷ l) index s p {r} e h = elim (Option-cases (still_valid is_ok feer changed i p)) [
    | inl panic ↦ absurd (cc (rw panic at e))
    | inr (v, runs) ↦
        let ((b, same), passed) = still_valid-Books i (λ a. owed index a s.kept) p runs h.books in
        let next = keep_or_drop feer.block_height i s v in
        let b' =
          subst
            (λ x.
              Books feer (λ a. owed index a s.kept + (if v.0 then pays_for x a i.txn else 0)) v.1)
            h.payer b in
        sweep-Swept l index next.0 next.1 (rw runs at e)
          (keep_or_drop-Swept feer.block_height index i s v b' (same ∙ h.payer) passed h.passed)
  ]

resend_same :
    (l : List Item) (p : Pool)
    → ((resend_stale_items l p).fees ≡ p.fees)
      × ((resend_stale_items l p).payer_index ≡ p.payer_index)
resend_same [] p = (refl, refl)
resend_same (x ∷ l) p = (refl, refl)

finish_sweep-IsSolvent :
    (feer : Feer) (index : ℕ) (s : Sweep) (p : Pool)
    → Books feer (λ a. owed index a s.kept) p
    → p.payer_index ≡ index
    → IsSolvent feer (finish_sweep s p)
finish_sweep-IsSolvent feer index s p b same =
    let (fees, payer) = resend_same s.stale p in
    record {
      covered = λ a. rw (payer, same) (b.covered a);
      booked = λ a. rw (fees, payer, same) (b.booked a);
    }

-- After a RemoveStale that answers, on any pool, the pooled transactions for which an account pays cost no
-- more than the account's balance on the ledger, their sum is what is booked for it, and every pooled
-- transaction passes the caller's test. The ledger's balances are taken to be at most 2^256 - 2^64.
pub remove_stale-IsSolvent :
    (is_ok : Transaction → Bool) (feer : Feer) (p q : Pool)
    → HasRoom feer
    → remove_stale is_ok feer p ≡ some q
    → IsSolvent feer q × All (λ (i : Item). is_ok i.txn ≡ true) q.verified_txes
unfolding remove_stale
remove_stale-IsSolvent is_ok feer p q room e =
    let loaded = load_policy feer p in
    let p2 : Pool = record loaded.1 { fees = []; conflicts_map = [] } in
    let start : Sweep = record { kept = []; stale = [] } in
    let l = p.verified_txes in
    elim (Option-cases (sweep is_ok feer loaded.0 l start p2)) [
      | inl panic ↦ absurd (cc (rw panic at e))
      | inr (r, runs) ↦
          let same = some_eq (rw runs at e) in
          let h = sweep-Swept is_ok feer room loaded.0 l p2.payer_index start p2 runs (
            unfold lookup owed in
            record {
              books = record { covered = λ a. omega arith; booked = λ a. refl };
              payer = refl;
              passed = tt;
            }) in
          (
            subst (IsSolvent feer) same
                (finish_sweep-IsSolvent feer p2.payer_index r.0 r.1 h.books h.payer),
            subst (λ (z : Pool). All (λ (i : Item). is_ok i.txn ≡ true) z.verified_txes) same
                h.passed,
          )
    ]

-- When Add ditches the last transaction of a full pool, every sender owes what it owed before: the fees
-- of the transaction that is gone stay booked, unlike after a removal.
pub ditch_last_fees : (i : Item) (p q : Pool) → ditch_last i p ≡ some q → q.fees ≡ p.fees
unfolding ditch_last
ditch_last_fees i p q e =
    elim (Option-cases (get_elem? p.verified_txes (length p.verified_txes - 1))) [
      | inl empty ↦ absurd (cc (rw empty at e))
      | inr (u, at) ↦
          ap (λ (z : Pool). z.fees) (sym (some_eq (rw at at e)))
          ∙ (notify_fees (removed u.txn u.extra) _
              ∙ (remove_oracle_of_fees u.txn _
                  ∙ unfold remove_conflicts_of in
                    remove_conflicts_fees u.txn.hash (conflict_hashes u.txn) _))
    ]
