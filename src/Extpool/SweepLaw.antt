-- ===== src/Extpool/SweepLaw.antt =====
-- pkg/network/extpool/pool.go: RemoveStale on a sound pool.
use epicchain_go.Common.{
  ℕ, ◌≡◌, refl, ap, ◌∙◌, inl, inr, Bool, true, false, not, ◌||◌, Option, none, some, List, [], ◌∷◌,
  arith, nat_eq, Map, lookup, ◌==◌, ==_iff, Bool-cases, Option-cases, subst,
}
use epicchain_go.Extpool.Pool.{Extensible, Ledger, Pool, remove_stale}
use epicchain_go.Extpool.Sound.{find, IsDistinct, queue_of, owned, IsSound}
use epicchain_go.Extpool.Live.{
  stale_in, sweep_senders-verified, live_only, if_live, sweep_senders-live_only, stale_any,
  live_only-IsDistinct, is_live, find-live_only, HasSenderOnce, live_only-le,
}

module _ (index : ℕ) (chain : Ledger) where
  -- Whether a payload that is found in a list is swept from the map.
  abbrev if_dead : Option Extensible → Bool
  if_dead none = false
  if_dead (some e) = not (is_live index chain e)

  stale_in-find :
      (l : List Extensible) (h : ℕ) → IsDistinct l → stale_in index chain h l ≡ if_dead (find h l)
  unfolding find stale_in
  stale_in-find [] h d = refl
  stale_in-find (x ∷ l) h d = elim (Bool-cases (x.hash == h)) [
    | inl same ↦
        let alone : find h l ≡ none = subst (λ k. find k l ≡ none) ((==_iff x.hash h).0 same) d.0 in
        let none_left : stale_in index chain h l ≡ false = stale_in-find l h d.1 ∙ rw alone refl in
        rw (same, none_left) (ground arith)
    | inr other ↦ rw other (stale_in-find l h d.1)
  ]

  -- What a sound pool says of a sender's list and a hash.
  record Agrees (h : ℕ) (x : Option Extensible) (s : ℕ) (l : List Extensible) : Type 0 where
    distinct : IsDistinct l
    found : find h l ≡ owned s x

  abbrev AllAgree : ℕ → Option Extensible → Map ℕ (List Extensible) → Type 0
  AllAgree h x [] = Unit
  AllAgree h x ((s, l) ∷ ss) = Agrees h x s l × AllAgree h x ss

  AllAgree-lookup :
      (h : ℕ) (x : Option Extensible) (ss : Map ℕ (List Extensible))
      → HasSenderOnce ss
      → ((s : ℕ) (l : List Extensible) → lookup s ss ≡ some l → Agrees h x s l)
      → AllAgree h x ss
  unfolding lookup
  AllAgree-lookup h x [] once a = tt
  AllAgree-lookup h x ((t, m) ∷ ss) (alone, once) a = (
    a t m (ground arith),
    AllAgree-lookup h x ss once (λ s l e. elim (Bool-cases (t == s)) [
      | inl same ↦
          let gone : lookup s ss ≡ none =
            subst (λ k. lookup k ss ≡ none) ((==_iff t s).0 same) alone in
          absurd (cc (gone, e))
      | inr other ↦ a s l (rw other e)
    ]),
  )

  stale_any-live :
      (h : ℕ) (x : Option Extensible) (ss : Map ℕ (List Extensible))
      → AllAgree h x ss
      → if_dead x ≡ false
      → stale_any index chain h ss ≡ false
  unfolding stale_any
  stale_any-live h x [] a live = refl
  stale_any-live h x ((s, l) ∷ ss) (a, as') live =
      rw (stale_in-find l h a.distinct, a.found, stale_any-live h x ss as' live) (own x live)
    where
      own : (x : Option Extensible) → if_dead x ≡ false → (if_dead (owned s x) || false) ≡ false
      own none live = refl
      own (some e) live = elim (Bool-cases (e.sender == s)) [
        | inl mine ↦ rw mine (rw live refl)
        | inr not_mine ↦ rw not_mine refl
      ]

  stale_any-dead :
      (h : ℕ) (e : Extensible) (ss : Map ℕ (List Extensible)) (l : List Extensible)
      → AllAgree h (some e) ss
      → is_live index chain e ≡ false
      → lookup e.sender ss ≡ some l
      → stale_any index chain h ss ≡ true
  unfolding stale_any lookup
  stale_any-dead h e [] l a dead at = absurd (cc at)
  stale_any-dead h e ((s, m) ∷ ss) l (a, as') dead at = elim (Bool-cases (s == e.sender)) [
    | inl same ↦
        let here : (e.sender == s) ≡ true = ground (arith, same) in
        let found : find h m ≡ some e = a.found ∙ rw here refl in
        rw (stale_in-find m h a.distinct, found) (rw dead refl)
    | inr other ↦ rw (stale_any-dead h e ss l as' dead (rw other at at)) (ground arith)
  ]

  queue_lookup :
      (p : Pool) (s : ℕ) (l : List Extensible) → lookup s p.senders ≡ some l → queue_of p s ≡ l
  queue_lookup p s l e = rw e refl

  -- The sender of a payload that the map has is in the table.
  has_queue :
      (p : Pool) (h : ℕ) (e : Extensible)
      → IsSound p
      → lookup h p.verified ≡ some e
      → (l : List Extensible) × (lookup e.sender p.senders ≡ some l)
  unfolding find
  has_queue p h e s at = elim (Option-cases (lookup e.sender p.senders)) [
    | inr found ↦ found
    | inl nothing ↦
        let agree = s.agree e.sender h in
        let here : owned e.sender (lookup h p.verified) ≡ some e = rw at (ground arith) in
        let empty : find h (queue_of p e.sender) ≡ none = rw nothing refl in
        absurd (cc (agree, here, empty))
  ]

  remove_stale-verified :
      (p : Pool) (h : ℕ)
      → IsSound p
      → HasSenderOnce p.senders
      → lookup h (remove_stale index chain p).verified ≡ if_live index chain (lookup h p.verified)
  unfolding remove_stale
  remove_stale-verified p h s once =
      let agrees = AllAgree-lookup h (lookup h p.verified) p.senders once (λ t l e. record {
        distinct = subst IsDistinct (queue_lookup p t l e) (s.distinct t);
        found =
            subst (λ q. find h q ≡ owned t (lookup h p.verified)) (queue_lookup p t l e)
              (s.agree t h);
      }) in
      sweep_senders-verified index chain p.senders p.verified h
      ∙ elim (Option-cases (lookup h p.verified)) [
        | inl absent ↦ rw absent (ground arith)
        | inr (e, at) ↦
            let known = subst (λ x. AllAgree h x p.senders) at agrees in
            elim (Bool-cases (is_live index chain e)) [
              | inl live ↦
                  rw (at, stale_any-live h (some e) p.senders known (rw live refl)) (rw live refl)
              | inr dead ↦
                  let (l, there) = has_queue p h e s at in
                  rw (at, stale_any-dead h e p.senders l known dead there) (rw dead refl)
            ]
      ]

  owned-if_live :
      (s : ℕ) (x : Option Extensible)
      → if_live index chain (owned s x) ≡ owned s (if_live index chain x)
  owned-if_live s none = refl
  owned-if_live s (some e) = ground arith

  -- RemoveStale on a sound pool, the table of which has each sender once as a Go map does, leaves a sound
  -- pool. The map still has exactly the payloads that are valid past the given height, of an allowed sender
  -- and with a good witness, and each sender's list exactly its own of these, in the order they were in.
  pub remove_stale-IsSound :
      (p : Pool)
      → IsSound p
      → HasSenderOnce p.senders
      → IsSound (remove_stale index chain p)
        × ((h : ℕ)
            → lookup h (remove_stale index chain p).verified
              ≡ if_live index chain (lookup h p.verified))
        × ((s : ℕ) → queue_of (remove_stale index chain p) s ≡ live_only index chain (queue_of p s))
  remove_stale-IsSound p s once =
      let queues : (t : ℕ)
          → queue_of (remove_stale index chain p) t ≡ live_only index chain (queue_of p t) =
        λ t.
          unfold remove_stale in sweep_senders-live_only index chain p.senders p.verified t once in
      let map : (h : ℕ)
          → lookup h (remove_stale index chain p).verified
            ≡ if_live index chain (lookup h p.verified) =
        λ h. remove_stale-verified p h s once in
      (
        record {
          positive = unfold remove_stale in s.positive;
          capped = λ t. rw (queues t) (
              unfold remove_stale in
              omega (arith, live_only-le index chain (queue_of p t), s.capped t));
          distinct =
              λ t. rw (queues t) (live_only-IsDistinct index chain (queue_of p t) (s.distinct t));
          agree = λ t h.
              rw (queues t, map h)
                (find-live_only index chain (queue_of p t) h (s.distinct t)
                  ∙ (ap (if_live index chain) (s.agree t h)
                      ∙ owned-if_live t (lookup h p.verified)));
        },
        map,
        queues,
      )
