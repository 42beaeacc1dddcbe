-- ===== src/Mempool/Check.antt =====
-- pkg/core/mempool/mem_pool.go: the conflict check and the balance check of Add.
use epicchain_go.Common.{
  ℕ, ◌<◌, ◌≡◌, refl, some, List, [], ◌∷◌, ◌++◌, arith, nat_eq, lookup, All, ◌==◌, if◌then◌else◌,
  inl, inr, Bool-cases, Option-cases, not, ◌&&◌,
}
use epicchain_go.Mempool.Types.{
  Transaction, Pool, Feer, Outcome, ok, err, conflict_hashes, has_signer,
}
use epicchain_go.Mempool.Fees.{
  account_at, total_fee, Conflicting, add_int64, pooled_against, named_by, without_removed, or_nil,
  with_conflicting, check_tx_conflicts, sender_entry, leb_int64, shares_signer, sub256,
}
use epicchain_go.Mempool.Links.{IsLinked, count}
use epicchain_go.Mempool.Invariant.{IsConsistent, pooled_payer}
use epicchain_go.Mempool.PlaceLaw.{pooled}

-- Between two calls the slice, the map and the side tables fit together.
pub record IsSound (p : Pool) : Type 0 where
  pub consistent : IsConsistent p
  pub linked : IsLinked (pooled p) (pooled p) p

abbrev IsPooled : Pool → ℕ → Type 0
IsPooled p h = (t : Transaction) × (lookup h p.verified_map ≡ some t)

abbrev Pays : Pool → Transaction → Type 0
Pays p t = (a : ℕ) × (account_at t p.payer_index ≡ some a)

All-append :
    (P : Transaction → Type 0) (xs : List Transaction) (y : Transaction)
    → All P xs
    → P y
    → All P (xs ++ (y ∷ []))
All-append P [] y a b = (b, tt)
All-append P (x ∷ xs) y a b = (a.0, All-append P xs y a.1 b)

All-counted : (P : ℕ → Type 0) (l : List ℕ) → ((x : ℕ) → 0 < count x l → P x) → All P l
unfolding count
All-counted P [] h = tt
All-counted P (x ∷ l) h = (h x (ground arith), All-counted P l (λ y pos. h y (omega arith)))

-- The conflict list of a hash holds pooled transactions only.
listed_pooled :
    (p : Pool) (h : ℕ)
    → IsLinked (pooled p) (pooled p) p
    → All (IsPooled p) (or_nil (lookup h p.conflicts_map))
listed_pooled p h l = All-counted (IsPooled p) (or_nil (lookup h p.conflicts_map)) λ x pos.
    elim (Option-cases (lookup x p.verified_map)) [
      | inl absent ↦ absurd (ground (arith, l.conflicts_ok h x))
      | inr found ↦ found
    ]

pooled_against_runs :
    (p : Pool) (payer : ℕ) (hs : List ℕ) (fee : ℕ) (txs : List Transaction)
    → IsConsistent p
    → All (IsPooled p) hs
    → All (Pays p) txs
    → (r : Conflicting) × (pooled_against p payer hs (fee, txs) ≡ some r) × All (Pays p) r.1
unfolding pooled_against
pooled_against_runs p payer [] fee txs c a b = ((fee, txs), refl, b)
pooled_against_runs p payer (h ∷ hs) fee txs c a b =
    let (t, at) = a.0 in
    let fee' = if has_signer t payer then add_int64 fee t.network_fee else fee in
    let (r, runs, pay) =
      pooled_against_runs p payer hs fee' (txs ++ (t ∷ [])) c a.1
        (All-append (Pays p) txs t b (pooled_payer p h t c at)) in
    (r, rw at runs, pay)

-- What step 2 answers: the transactions that it adds have a payer too.
PaysIfOk : Pool → Outcome Conflicting → Type 0
PaysIfOk p (ok r) = All (Pays p) r.1
PaysIfOk p (err e) = Unit

named_by-Pays :
    (p : Pool) (t : Transaction) (hs : List ℕ) (fee : ℕ) (txs : List Transaction)
    → IsConsistent p
    → All (Pays p) txs
    → PaysIfOk p (named_by p t hs (fee, txs))
unfolding named_by PaysIfOk
named_by-Pays p t [] fee txs c b = b
named_by-Pays p t (h ∷ hs) fee txs c b = elim (Option-cases (lookup h p.verified_map)) [
  | inl absent ↦ rw (absent, PaysIfOk) (named_by-Pays p t hs fee txs c b)
  | inr (u, at) ↦ elim (Bool-cases (shares_signer u.signers t.signers)) [
    | inl shares ↦
        rw (at, shares, PaysIfOk)
          (named_by-Pays p t hs (add_int64 fee u.network_fee) (txs ++ (u ∷ [])) c
            (All-append (Pays p) txs u b (pooled_payer p h u c at)))
    | inr foreign ↦ rw (at, foreign, PaysIfOk) tt
  ]
]

without_removed_runs :
    (p : Pool) (payer : ℕ) (txs : List Transaction) (sum : ℕ)
    → All (Pays p) txs
    → (s : ℕ) × (without_removed p payer txs sum ≡ some s)
unfolding without_removed
without_removed_runs p payer [] sum b = (sum, refl)
without_removed_runs p payer (t ∷ ts) sum b =
    let (a, at) = b.0 in
    let sum' = if a == payer then sub256 sum (total_fee t) else sum in
    let (s, runs) = without_removed_runs p payer ts sum' b.1 in (s, rw at runs)

with_conflicting_runs :
    (p : Pool) (t : Transaction) (feer : Feer) (payer : ℕ) (o : Outcome Conflicting)
    → PaysIfOk p o
    → (r : Outcome (List Transaction)) × (with_conflicting p t feer payer o ≡ some r)
unfolding PaysIfOk
with_conflicting_runs p t feer payer (err e) b = (err e, refl)
with_conflicting_runs p t feer payer (ok (fee, txs)) b =
    let actual = sender_entry feer payer (lookup payer p.fees) in
    let (s, runs) = without_removed_runs p payer txs actual.fee_sum b in
    elim (Bool-cases (not (fee == 0) && leb_int64 t.network_fee fee)) [
      | inl dear ↦ rw dear (_, refl)
      | inr fair ↦ rw (fair, runs) (_, refl)
    ]

-- On a sound pool the check of a transaction with a payer answers; it reads no missing transaction.
pub check_tx_conflicts_runs :
    (t : Transaction) (feer : Feer) (p : Pool) {a : ℕ}
    → IsSound p
    → account_at t p.payer_index ≡ some a
    → (r : Outcome (List Transaction)) × (check_tx_conflicts t feer p ≡ some r)
unfolding check_tx_conflicts
check_tx_conflicts_runs t feer p {a} s at =
    let (against, runs, pay) =
      pooled_against_runs p a (or_nil (lookup t.hash p.conflicts_map)) 0 [] s.consistent
        (listed_pooled p t.hash s.linked) tt in
    let (r, runs') =
      with_conflicting_runs p t feer a (named_by p t (conflict_hashes t) against)
        (named_by-Pays p t (conflict_hashes t) against.0 against.1 s.consistent pay) in
    (r, rw (at, runs) runs')
