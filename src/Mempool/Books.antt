-- ===== src/Mempool/Books.antt =====
-- pkg/core/mempool/mem_pool.go: what accounts owe for a list of items, and tryAddSendersFee on the books.
use epicchain_go.Common.{
  ℕ, ◌≤◌, ◌≡◌, refl, sym, ◌∙◌, subst, Bool, true, false, Option, none, some, List, [], ◌∷◌, ◌++◌,
  arith, nat_eq, lookup, lookup-insert, ◌==◌, inl, inr, Bool-cases, Option-cases, if◌then◌else◌,
  ◌+◌, ◌^◌, ◌%◌, ==_iff,
}
use epicchain_go.Mempool.Types.{
  Transaction, Item, Pool, Feer, UtilityBalanceAndFees, Outcome, ok, err, removed, Signal, notify,
  conflict_hashes,
}
use epicchain_go.Mempool.Fees.{
  account_at, total_fee, try_add_senders_fee, sender_entry, with_entry, add_checked, check_balance,
}
use epicchain_go.Mempool.Remove.{remove_oracle_of, remove_conflicts, drop_conflict, delete_oracle}
use epicchain_go.Mempool.Add.{add_conflicts}
use epicchain_go.Mempool.Stale.{Sweep, keep_or_drop}

-- What an account pays for the items of a list, which is for those that have it at the payer's index.
abbrev pub paid_by : Option ℕ → ℕ → ℕ → ℕ
paid_by none a fee = 0
paid_by (some b) a fee = if b == a then fee else 0

abbrev pub pays_for : ℕ → ℕ → Transaction → ℕ
pays_for payer_index a t = paid_by (account_at t payer_index) a (total_fee t)

unfoldable pub owed : ℕ → ℕ → List Item → ℕ
owed payer_index a [] = 0
owed payer_index a (i ∷ l) = pays_for payer_index a i.txn + owed payer_index a l

-- The entry of an account has the sum that it owes and the ledger's balance; without one it owes nothing.
abbrev pub IsBooked : Feer → ℕ → ℕ → Option UtilityBalanceAndFees → Type 0
IsBooked feer a n none = n ≡ 0
IsBooked feer a n (some f) = (f.fee_sum ≡ n) × (f.balance ≡ feer.utility_token_balance a)

-- Every account's pooled transactions cost no more than the ledger's balance, and are what is booked.
pub record IsSolvent (feer : Feer) (p : Pool) : Type 0 where
  pub covered : (a : ℕ) → owed p.payer_index a p.verified_txes ≤ feer.utility_token_balance a
  pub booked : (a : ℕ) → IsBooked feer a (owed p.payer_index a p.verified_txes) (lookup a p.fees)

-- No balance of the ledger comes near 2^256, so that sums do not wrap around.
abbrev pub HasRoom : Feer → Type 0
HasRoom feer = (a : ℕ) → feer.utility_token_balance a + 2 ^ 64 ≤ 2 ^ 256

pub owed-append :
    (payer_index a : ℕ) (l : List Item) (i : Item)
    → owed payer_index a (l ++ (i ∷ [])) ≡ owed payer_index a l + pays_for payer_index a i.txn
unfolding owed
owed-append payer_index a [] i = omega arith
owed-append payer_index a (x ∷ l) i = omega (arith, owed-append payer_index a l i)

add_conflicts_fees : (h : ℕ) (hs : List ℕ) (p : Pool) → (add_conflicts h hs p).fees ≡ p.fees
unfolding add_conflicts
add_conflicts_fees h [] p = refl
add_conflicts_fees h (x ∷ hs) p = add_conflicts_fees h hs _

delete_oracle_fees : (o : Option ℕ) (p : Pool) → (delete_oracle o p).fees ≡ p.fees
delete_oracle_fees none p = refl
delete_oracle_fees (some id) p = refl

pub remove_oracle_of_fees : (t : Transaction) (p : Pool) → (remove_oracle_of t p).fees ≡ p.fees
unfolding remove_oracle_of
remove_oracle_of_fees t p = delete_oracle_fees _ p

drop_conflict_fees :
    (ch h : ℕ) (o : Option (List ℕ)) (p : Pool) → (drop_conflict ch h o p).fees ≡ p.fees
drop_conflict_fees ch h none p = refl
drop_conflict_fees ch h (some l) p = ground arith

pub remove_conflicts_fees :
    (h : ℕ) (hs : List ℕ) (p : Pool) → (remove_conflicts h hs p).fees ≡ p.fees
unfolding remove_conflicts
remove_conflicts_fees h [] p = refl
remove_conflicts_fees h (x ∷ hs) p =
    let o = lookup x p.conflicts_map in
    remove_conflicts_fees h hs (drop_conflict x h o p) ∙ drop_conflict_fees x h o p

pub notify_fees : (e : Signal) (p : Pool) → (notify e p).fees ≡ p.fees
unfolding notify
notify_fees e p = ground arith

pub keep_or_drop_fees :
    (n : ℕ) (i : Item) (s : Sweep) (r : Bool × Pool) → (keep_or_drop n i s r).1.fees ≡ r.1.fees
keep_or_drop_fees n i s (true, p) = add_conflicts_fees i.txn.hash (conflict_hashes i.txn) p
keep_or_drop_fees n i s (false, p) =
    notify_fees (removed i.txn i.extra) _ ∙ remove_oracle_of_fees i.txn _

pub some_eq : {A : Type 0} {x y : A} → some x ≡ some y → x ≡ y
some_eq e = cc

-- The books of a sweep, with the sum of each account.
pub record Books (feer : Feer) (n : ℕ → ℕ) (p : Pool) : Type 0 where
  pub covered : (a : ℕ) → n a ≤ feer.utility_token_balance a
  pub booked : (a : ℕ) → IsBooked feer a (n a) (lookup a p.fees)

pub Books-eq :
    (feer : Feer) (n n' : ℕ → ℕ) (p p' : Pool)
    → p'.fees ≡ p.fees
    → ((a : ℕ) → n' a ≡ n a)
    → Books feer n p
    → Books feer n' p'
Books-eq feer n n' p p' fees same b = record {
  covered = λ a. rw (same a) (b.covered a);
  booked = λ a. rw (same a, fees) (b.booked a);
}

check_balance-ok :
    (t : Transaction) (g : UtilityBalanceAndFees) (sum : ℕ)
    → g.fee_sum ≤ g.balance
    → g.balance + 2 ^ 64 ≤ 2 ^ 256
    → check_balance t g ≡ ok sum
    → (sum ≡ total_fee t + g.fee_sum) × (sum ≤ g.balance)
unfolding check_balance total_fee
check_balance-ok t g sum fits room e = ground arith

module _ (feer : Feer) (room : HasRoom feer) where
  -- What the sender's entry is before the check.
  entry_of :
      (b n : ℕ) (known : Option UtilityBalanceAndFees)
      → IsBooked feer b n known
      → ((sender_entry feer b known).fee_sum ≡ n)
        × ((sender_entry feer b known).balance ≡ feer.utility_token_balance b)
  entry_of b n none e = (sym e, let r = room b in omega arith)
  entry_of b n (some f) e = e

  with_entry-IsBooked :
      (b : ℕ) (n : ℕ → ℕ) (known : Option UtilityBalanceAndFees) (p : Pool)
      → known ≡ lookup b p.fees
      → Books feer n p
      → (a : ℕ)
      → IsBooked feer a (n a) (lookup a (with_entry b (sender_entry feer b known) known p).fees)
  with_entry-IsBooked b n none p e s a =
      rw (lookup-insert b a (sender_entry feer b none) p.fees) (elim (Bool-cases (b == a)) [
        | inl same ↦
            let at : n b ≡ 0 = subst (IsBooked feer b (n b)) (sym e) (s.booked b) in
            let at_a : n a ≡ 0 = subst (λ x. n x ≡ 0) ((==_iff b a).0 same) at in
            let r = room b in
            rw same (
              sym at_a,
              subst (λ x. feer.utility_token_balance b % 2 ^ 256 ≡ feer.utility_token_balance x)
                  ((==_iff b a).0 same) (omega arith),
            )
        | inr other ↦ rw other (s.booked a)
      ])
  with_entry-IsBooked b n (some g) p e s a = s.booked a

  abbrev plus : ℕ → ℕ → (ℕ → ℕ) → ℕ → ℕ
  plus b fee n a = n a + (if b == a then fee else 0)

  -- A checked fee is booked, or nothing is.
  add_checked-Books :
      (t : Transaction) (b : ℕ) (n : ℕ → ℕ) (g : UtilityBalanceAndFees) (p : Pool) (o : Outcome ℕ)
      → ((sum : ℕ) → o ≡ ok sum → (sum ≡ total_fee t + g.fee_sum) × (sum ≤ g.balance))
      → (g.fee_sum ≡ n b)
      → (g.balance ≡ feer.utility_token_balance b)
      → Books feer n p
      → Books feer
          (if (add_checked b g p o).0 then plus b (total_fee t) n else n)
          (add_checked b g p o).1
  add_checked-Books t b n g p (err e) h sums same s = s
  add_checked-Books t b n g p (ok sum) h sums same s =
      let (total, fits) = h sum refl in
      record {
        covered = λ a. elim (Bool-cases (b == a)) [
          | inl this ↦ rw this (
              subst (λ x. n x + total_fee t ≤ feer.utility_token_balance x) ((==_iff b a).0 this)
                (omega arith))
          | inr other ↦ rw other (let c = s.covered a in omega arith)
        ];
        booked = λ a.
            rw (lookup-insert b a (record g { fee_sum = sum }) p.fees) (elim (Bool-cases (b == a)) [
              | inl this ↦ rw this (
                  subst
                    (λ x. (sum ≡ n x + total_fee t) × (g.balance ≡ feer.utility_token_balance x))
                    ((==_iff b a).0 this) (omega arith, same))
              | inr other ↦
                  rw other
                    (subst (λ x. IsBooked feer a x (lookup a p.fees)) (omega arith) (s.booked a))
            ]);
      }

  -- After tryAddSendersFee the books have the fee of a transaction that is taken, and no other.
  pub try_add-Books :
      (t : Transaction) (n : ℕ → ℕ) (p : Pool) {r : Bool × Pool}
      → try_add_senders_fee t feer true p ≡ some r
      → Books feer n p
      → Books feer (λ a. n a + (if r.0 then pays_for p.payer_index a t else 0)) r.1
        × (r.1.payer_index ≡ p.payer_index)
  unfolding try_add_senders_fee
  try_add-Books t n p {r} e s = elim (Option-cases (account_at t p.payer_index)) [
    | inl nobody ↦ absurd (cc (rw nobody at e))
    | inr (b, pays) ↦
        let known = lookup b p.fees in
        let g = sender_entry feer b known in
        let p' = with_entry b g known p in
        let (sums, same) = entry_of b (n b) known (s.booked b) in
        let books =
          add_checked-Books t b n g p' (check_balance t g)
            (λ sum.
              check_balance-ok t g sum (let c = s.covered b in omega arith)
                (let c = room b in omega arith))
            sums same
            (record { covered = s.covered; booked = with_entry-IsBooked b n known p refl s }) in
        subst
          (λ (z : Bool × Pool).
            Books feer (λ a. n a + (if z.0 then pays_for p.payer_index a t else 0)) z.1
            × (z.1.payer_index ≡ p.payer_index))
          (some_eq (rw pays at e))
          (rw (paid_by, pays)
            (regroup b t n p (add_checked b g p' (check_balance t g)) books, ground arith))
  ]
    where
      regroup :
          (b : ℕ) (t : Transaction) (n : ℕ → ℕ) (p : Pool) (z : Bool × Pool)
          → Books feer (if z.0 then plus b (total_fee t) n else n) z.1
          → Books feer (λ a. n a + (if z.0 then (if b == a then total_fee t else 0) else 0)) z.1
      regroup b t n p (true, q) k = k
      regroup b t n p (false, q) k = record {
        covered = λ a. let c = k.covered a in omega arith;
        booked = λ a. subst (λ x. IsBooked feer a x (lookup a q.fees)) (omega arith) (k.booked a);
      }
