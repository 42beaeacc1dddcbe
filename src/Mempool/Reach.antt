-- ===== src/Mempool/Reach.antt =====
-- pkg/core/mempool/mem_pool.go: the pools that a node can get to.
use epicchain_go.Common.{
  ℕ, ◌≡◌, refl, sym, ap, ◌∙◌, subst, Bool, Option, some, arith, nat_eq, lookup, none, if◌then◌else◌,
  ◌==◌,
}
use epicchain_go.Mempool.Types.{Transaction, Pool, Feer, Outcome, ok, new}
use epicchain_go.Mempool.Fees.{account_at}
use epicchain_go.Mempool.Remove.{remove}
use epicchain_go.Mempool.Add.{add}
use epicchain_go.Mempool.Stale.{remove_stale}
use epicchain_go.Mempool.Query.{set_resend_threshold}
use epicchain_go.Mempool.Links.{count, IsLinked-view}
use epicchain_go.Mempool.Items.{find_tx}
use epicchain_go.Mempool.Invariant.{remove_internal_lem}
use epicchain_go.Mempool.PlaceLaw.{pooled}
use epicchain_go.Mempool.Check.{IsSound}
use epicchain_go.Mempool.AddLaw.{Added, stored, refused, full, add_lem}
use epicchain_go.Mempool.Sweep.{remove_stale_lem}

pub new-IsSound : (capacity payer_index : ℕ) (m : Bool) → IsSound (new capacity payer_index m)
unfolding new lookup find_tx count
new-IsSound capacity payer_index m = record {
  consistent = record {
    sorted = tt;
    bounded = omega arith;
    distinct = tt;
    payers = tt;
    agree = λ h. refl;
  };
  linked = record {
    conflicts_ok = λ h x. refl;
    oracle_ok = record { pooled_too = λ id h e. cc; noted_too = λ id h t e answers. cc };
  };
}

-- Remove never panics on a sound pool, and leaves a sound pool in which the given hash is not pooled and
-- every other hash is pooled as before.
pub remove-IsSound :
    (h : ℕ) (p : Pool)
    → IsSound p
    → (q : Pool) × (remove h p ≡ some q)
      × IsSound q
      × ((j : ℕ) → lookup j q.verified_map ≡ (if h == j then none else lookup j p.verified_map))
unfolding remove
remove-IsSound h p s =
    let (q, r) = remove_internal_lem h p s.consistent in
    let v = pooled p in
    let k = r.links v v refl refl s.linked in
    (
      q,
      r.runs,
      record {
        consistent = r.consistent;
        linked = IsLinked-view _ _ (pooled q) (pooled q) q (λ j. r.map j) (λ j. r.map j) k;
      },
      r.map,
    )

some_eq : {A : Type 0} {a b : A} → some a ≡ some b → a ≡ b
some_eq e = cc

pub add-IsSound :
    (t : Transaction) (feer : Feer) (extra : Option ℕ) (p q : Pool) {a : ℕ}
    → account_at t p.payer_index ≡ some a
    → add t feer extra p ≡ some (ok tt, q)
    → IsSound p
    → IsSound q
add-IsSound t feer extra p q pays e s =
    let (o, q', runs, end) = add_lem t feer extra p s pays in ends o q' end (some_eq (sym runs ∙ e))
  where
    ends :
        (o : Outcome Unit) (q' : Pool)
        → Added t p o q'
        → Path (Outcome Unit × Pool) (o, q') (ok tt, q)
        → IsSound q
    ends o q' (stored a b c) r = subst IsSound (ap (λ (z : Outcome Unit × Pool). z.1) r) b
    ends o q' (refused x a b) r = absurd (cc)
    ends o q' (full a b c d) r = absurd (cc)

-- One call that ends well: a transaction with a payer is added, a hash is removed, the pool is swept after
-- a block, or the threshold for resending is set.
pub data Step (p q : Pool) : Type 0 where
  adds :
      (t : Transaction) (feer : Feer) (extra : Option ℕ) (a : ℕ)
      → account_at t p.payer_index ≡ some a
      → add t feer extra p ≡ some (ok tt, q)
      → Step p q
  removes : (h : ℕ) → remove h p ≡ some q → Step p q
  sweeps :
      (is_ok : Transaction → Bool) (feer : Feer) → remove_stale is_ok feer p ≡ some q → Step p q
  sets : (h : ℕ) → q ≡ set_resend_threshold h p → Step p q

pub data Reach (p : Pool) : Pool → Type 0 where
  here : Reach p p
  next : {q r : Pool} → Reach p q → Step q r → Reach p r

Step-IsSound : (p q : Pool) → Step p q → IsSound p → IsSound q
Step-IsSound p q (adds t feer extra a pays e) s = add-IsSound t feer extra p q pays e s
Step-IsSound p q (removes h e) s =
    let (q', runs, s', map) = remove-IsSound h p s in subst IsSound (some_eq (sym runs ∙ e)) s'
Step-IsSound p q (sweeps is_ok feer e) s =
    let (q', runs, s') = remove_stale_lem is_ok feer p s in
    subst IsSound (some_eq (sym runs ∙ e)) s'
Step-IsSound p q (sets h e) s = subst IsSound (sym e) (
    unfold set_resend_threshold in
    record {
      consistent = record {
        sorted = s.consistent.sorted;
        bounded = s.consistent.bounded;
        distinct = s.consistent.distinct;
        payers = s.consistent.payers;
        agree = s.consistent.agree;
      };
      linked = record { conflicts_ok = s.linked.conflicts_ok; oracle_ok = s.linked.oracle_ok };
    })

Reach-keeps : {p q : Pool} → Reach p q → IsSound p → IsSound q
Reach-keeps here s = s
Reach-keeps (next r st) s = Step-IsSound _ _ st (Reach-keeps r s)

-- Every pool that a sequence of calls leads to from a new one is sound, if each Add in it is of a
-- transaction with a signer at the payer's index and succeeds.
pub Reach-IsSound :
    (capacity payer_index : ℕ) (m : Bool) (q : Pool)
    → Reach (new capacity payer_index m) q
    → IsSound q
Reach-IsSound capacity payer_index m q r = Reach-keeps r (new-IsSound capacity payer_index m)
