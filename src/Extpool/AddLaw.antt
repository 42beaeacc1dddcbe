-- ===== src/Extpool/AddLaw.antt =====
-- pkg/network/extpool/pool.go: Add and RemoveStale.
use epicchain_go.Common.{
  ℕ, zero, suc, ◌≤◌, ◌≡◌, refl, ◌∙◌, inl, inr, Bool, true, false, Option, none, some, List, [], ◌∷◌,
  arith, nat_eq, lookup, insert, delete, lookup-insert, lookup-delete, length, ◌==◌, leb, ==_iff,
  Bool-cases, Option-cases,
}
use epicchain_go.Extpool.Pool.{
  Extensible, Ledger, Pool, AddError, new, verify, or_nil, make_room, push_back, add,
}
use epicchain_go.Extpool.Sound.{
  find, queue_of, IsSound, HasRoom, push_back-IsSound, drop_front-IsSound,
}

-- An empty list for a sender that has none changes no queue.
empty_queue :
    (s t : ℕ) (p : Pool)
    → lookup s p.senders ≡ none
    → or_nil (lookup t (insert s [] p.senders)) ≡ queue_of p t
empty_queue s t p e = rw (lookup-insert s t [] p.senders) (elim (Bool-cases (s == t)) [
  | inl same ↦ rw (same, ← (==_iff s t).0 same, e) refl
  | inr other ↦ rw other refl
])

make_room-HasRoom :
    (e : Extensible) (p : Pool)
    → IsSound p
    → lookup e.hash p.verified ≡ none
    → (q : Pool) × (make_room e (lookup e.sender p.senders) p ≡ some q) × HasRoom e q
make_room-HasRoom e p s fresh = elim (Option-cases (lookup e.sender p.senders)) [
  | inl absent ↦
      let same : (t : ℕ) → or_nil (lookup t (insert e.sender [] p.senders)) ≡ queue_of p t =
        λ t. empty_queue e.sender t p absent in
      (
        record p { senders = insert e.sender [] p.senders },
        rw absent refl,
        record {
          sound = record {
            positive = s.positive;
            capped = λ t. rw (same t) (s.capped t);
            distinct = λ t. rw (same t) (s.distinct t);
            agree = λ t h. rw (same t) (s.agree t h);
          };
          room = rw (same e.sender, absent) s.positive;
          fresh = fresh;
        },
      )
  | inr (lst, at) ↦ elim (Bool-cases (leb p.single_cap (length lst))) [
    | inl full ↦ go lst at full
    | inr free ↦
        (p, rw (at, free) refl, record { sound = s; room = rw at (ground arith); fresh = fresh })
  ]
]
  where
    go :
        (lst : List Extensible)
        → lookup e.sender p.senders ≡ some lst
        → leb p.single_cap (length lst) ≡ true
        → (q : Pool) × (make_room e (lookup e.sender p.senders) p ≡ some q) × HasRoom e q
    go [] at full = absurd (ground (arith, s.positive))
    go (x ∷ l) at full =
        let fits : suc (length l) ≤ p.single_cap = rw at at (s.capped e.sender) in
        (
          record p { verified = delete x.hash p.verified; senders = insert e.sender l p.senders },
          rw (at, full) refl,
          record {
            sound = drop_front-IsSound e x l p at s;
            room = rw (lookup-insert e.sender e.sender l p.senders) (ground arith);
            fresh = lookup-delete x.hash e.hash p.verified ∙ ground (arith, fresh);
          },
        )

-- How Add ends: the payload is not valid, or known, or stored.
pub data Added (e : Extensible) (chain : Ledger) (p : Pool)
    : Bool × Option AddError → Pool → Type 0 where
  refused : (verify e chain).0 ≡ false → Added e chain p (verify e chain) p
  known :
      (k : Extensible)
      → (verify e chain).0 ≡ true
      → lookup e.hash p.verified ≡ some k
      → Added e chain p (false, none) p
  stored :
      (q : Pool)
      → (verify e chain).0 ≡ true
      → lookup e.hash p.verified ≡ none
      → lookup e.hash q.verified ≡ some e
      → Added e chain p (true, none) q

-- Add on a sound pool does not panic and leaves a sound pool: a payload that verify does not pass, or that
-- is known, changes nothing, and exactly the others are stored, no sender's list longer than the capacity.
pub add-Added :
    (e : Extensible) (chain : Ledger) (p : Pool)
    → IsSound p
    → (r : Bool × Option AddError) × (q : Pool) × (add e chain p ≡ some (r, q))
      × IsSound q
      × Added e chain p r q
unfolding add
add-Added e chain p s = elim (Bool-cases (verify e chain).0) [
  | inr bad ↦ (verify e chain, p, rw bad refl, s, refused bad)
  | inl good ↦ elim (Option-cases (lookup e.hash p.verified)) [
    | inr (k, at) ↦ ((false, none), p, rw (good, at) refl, s, known k good at)
    | inl fresh ↦
        let (q, runs, r) = make_room-HasRoom e p s fresh in
        (
          (true, none),
          push_back e q,
          rw (good, fresh, runs) refl,
          push_back-IsSound e q r,
          stored (push_back e q) good fresh
              (lookup-insert e.hash e.hash e q.verified ∙ ground arith),
        )
  ]
]

some_eq : {A : Type 0} {a b : A} → some a ≡ some b → a ≡ b
some_eq e = cc

pub new-IsSound : (n : ℕ) (p : Pool) → new n ≡ some p → IsSound p
unfolding new
new-IsSound zero p e = cc
new-IsSound (suc n) p e = rw (← some_eq e) (
    unfold find lookup in
    record {
      positive = omega arith;
      capped = λ s. omega arith;
      distinct = λ s. tt;
      agree = λ s h. refl;
    })
