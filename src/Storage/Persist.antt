-- ===== src/Storage/Persist.antt =====
-- pkg/core/storage/memcached_store.go: persist, with other calls between its moments.
use epicchain_go.Common.{
  ◌&&◌, ◌+◌, length, ℕ, ◌≡◌, refl, sym, ap, ◌∙◌, inl, inr, not, ◌==◌, Option, none, some, List, [],
  ◌∷◌, arith, lookup, lookup-insert, bytes_eq, Bool-cases, Option-cases,
}
use epicchain_go.Storage.Memory.{Found, Values, MemoryStore, new_memory_store, is_storage}
use epicchain_go.Storage.Cached.{
  Store, Lower, direct, through, MemCachedStore, or_below, get_over, get_lower, get_cached,
  put_cached, put_change_set_cached, hand_over, flush, take_back, persist,
}
use epicchain_go.Storage.CachedView.{
  home, IsKeyed, IsLawful, lookup-put_all, or_below-first, IsKeyed-put_all, Change, sets, sets_all,
  nothing, effect, view, view-put_cached, view-put_change_set, some_eq, different,
}

module _ {S E : Type 0} (api : Store S E) where
  -- A cache, and what the write below has answered if it is done and persist is not.
  pub record Running : Type 0 where
    pub store : MemCachedStore S
    pub answer : Option (Option E)

  -- One moment of a node with a cache: a call that changes it, or one of the three of persist, which runs
  -- once at a time.
  pub data Step : Running → Change → Running → Type 0 where
    puts :
        (c : ℕ) (key : List ℕ) (v : Option (List ℕ)) (s s' : MemCachedStore S)
        (w : Option (Option E))
        → put_cached api (c ∷ key) v s ≡ some s'
        → Step
            (record { store = s; answer = w })
            (sets (c ∷ key) v)
            (record { store = s'; answer = w })
    changes :
        (ps stores : Values) (s s' : MemCachedStore S) (w : Option (Option E))
        → IsKeyed ps stores
        → put_change_set_cached api ps stores s ≡ some s'
        → Step
            (record { store = s; answer = w })
            (sets_all ps stores)
            (record { store = s'; answer = w })
    begins :
        (s : MemCachedStore S) (lower : S)
        → s.ps ≡ direct lower
        → Step
            (record { store = s; answer = none })
            nothing
            (record { store = hand_over api s.maps s.ps s; answer = none })
    writes :
        (s : MemCachedStore S) (temp : MemoryStore) (lower : S)
        → s.ps ≡ through temp lower
        → Step
            (record { store = s; answer = none })
            nothing
            (record { store = (flush api s).1; answer = some (flush api s).0 })
    ends :
        (s : MemCachedStore S) (err : Option E)
        → Step
            (record { store = s; answer = some err })
            nothing
            (record { store = take_back api err s; answer = none })

  abbrev pub KeyedLower : Lower S → Type 0
  KeyedLower (direct lower) = Unit
  KeyedLower (through temp lower) = IsKeyed temp.mem temp.stor

  -- What was written is in the store below.
  abbrev pub IsSettled : Option (Option E) → Lower S → Type 0
  IsSettled (some none) (through temp lower) =
      (b : ℕ) (k : List ℕ)
      → or_below (lookup (b ∷ k) (home b temp.mem temp.stor)) (api.read (b ∷ k) lower)
        ≡ api.read (b ∷ k) lower
  IsSettled (some none) (direct lower) = Unit
  IsSettled (some (some e)) l = Unit
  IsSettled none l = Unit

  pub record IsRunning (r : Running) : Type 0 where
    pub keyed : IsKeyed r.store.maps.mem r.store.maps.stor
    pub keyed_lower : KeyedLower r.store.ps
    pub settled : IsSettled r.answer r.store.ps

  IsKeyed-put_cached :
      (c : ℕ) (key : List ℕ) (v : Option (List ℕ)) (s s' : MemCachedStore S)
      → put_cached api (c ∷ key) v s ≡ some s'
      → IsKeyed s.maps.mem s.maps.stor
      → IsKeyed s'.maps.mem s'.maps.stor × (s'.ps ≡ s.ps)
  unfolding put_cached
  IsKeyed-put_cached c key v s s' e h = elim (Bool-cases s.closed) [
    | inl shut ↦ absurd (cc (rw shut at e))
    | inr usable ↦ elim (Bool-cases (is_storage c)) [
      | inl st ↦ rw (← some_eq (rw (usable, st) at e)) (
        λ b k. elim (Bool-cases (is_storage b)) [
          | inl st' ↦ rw st' (rw st' at (h b k))
          | inr st' ↦
              rw (st', lookup-insert (c ∷ key) (b ∷ k) v s.maps.stor, different c b key k st st')
                (rw st' at (h b k))
        ],
        refl,
      )
      | inr st ↦ rw (← some_eq (rw (usable, st) at e)) (
        λ b k. elim (Bool-cases (is_storage b)) [
          | inr st' ↦ rw st' (rw st' at (h b k))
          | inl st' ↦
              rw (st', lookup-insert (c ∷ key) (b ∷ k) v s.maps.mem, different c b key k st st')
                (rw st' at (h b k))
        ],
        refl,
      )
    ]
  ]

  IsKeyed-put_change_set :
      (ps stores : Values) (s s' : MemCachedStore S)
      → put_change_set_cached api ps stores s ≡ some s'
      → IsKeyed ps stores
      → IsKeyed s.maps.mem s.maps.stor
      → IsKeyed s'.maps.mem s'.maps.stor × (s'.ps ≡ s.ps)
  unfolding put_change_set_cached
  IsKeyed-put_change_set ps stores s s' e h k =
      elim (Bool-cases (s.closed && not (length ps + length stores == 0))) [
        | inl shut ↦ absurd (cc (rw shut at e))
        | inr usable ↦
            rw (← some_eq (rw usable at e))
              (IsKeyed-put_all ps stores s.maps.mem s.maps.stor h k, refl)
      ]

  or_below-twice :
      (o : Option (Option (List ℕ))) (f : Option Found) → or_below o (or_below o f) ≡ or_below o f
  or_below-twice none f = refl
  or_below-twice (some none) f = refl
  or_below-twice (some (some v)) f = refl

  -- What a step does to what a reader sees, and what holds after it.
  abbrev Goes : Running → Change → Running → Type 0
  Goes r ch r' =
      ((b : ℕ) (k : List ℕ) → view api b k r'.store ≡ effect ch b k (view api b k r.store))
      × IsRunning r'

  begins_lem :
      (s : MemCachedStore S) (lower : S)
      → s.ps ≡ direct lower
      → IsKeyed s.maps.mem s.maps.stor
      → Goes
          (record { store = s; answer = none })
          nothing
          (record { store = hand_over api s.maps s.ps s; answer = none })
  unfolding get_cached get_over lookup new_memory_store
  begins_lem s lower e h = rw e (
    λ b k. elim (Bool-cases (is_storage b)) [ inl st ↦ rw st refl | inr st ↦ rw st refl ],
    record {
      keyed = λ b k. elim (Bool-cases (is_storage b)) [ inl st ↦ rw st refl | inr st ↦ rw st refl ];
      keyed_lower = h;
      settled = tt;
    },
  )

  writes_lem :
      IsLawful api
      → (s : MemCachedStore S) (temp : MemoryStore) (lower : S) → s.ps ≡ through temp lower
      → IsRunning (record { store = s; answer = none })
      → Goes
          (record { store = s; answer = none })
          nothing
          (record { store = (flush api s).1; answer = some (flush api s).0 })
  unfolding flush get_cached get_over
  writes_lem law s temp lower e h =
      let keyed : IsKeyed temp.mem temp.stor = rw e at h.keyed_lower in
      let r = api.write temp.mem temp.stor lower in
      rw e (elim (Option-cases r.0) [
        | inl good ↦
            let seen = law.written temp.mem temp.stor lower keyed good in
            (
              λ b k.
                  rw
                    (
                      seen b k,
                      or_below-twice (lookup (b ∷ k) (home b temp.mem temp.stor))
                          (api.read (b ∷ k) lower),
                    )
                    refl,
              rw good (record {
                keyed = h.keyed;
                keyed_lower = keyed;
                settled = λ b k. rw (seen b k) (
                    or_below-twice (lookup (b ∷ k) (home b temp.mem temp.stor))
                      (api.read (b ∷ k) lower));
              }),
            )
        | inr (err, bad) ↦
            let seen = law.refused temp.mem temp.stor lower err bad in
            (
              λ b k. rw (seen b k) refl,
              rw bad (record { keyed = h.keyed; keyed_lower = keyed; settled = tt }),
            )
      ])

  ends_lem :
      (s : MemCachedStore S) (err : Option E) (l : Lower S)
      → s.ps ≡ l
      → IsKeyed s.maps.mem s.maps.stor
      → KeyedLower l
      → IsSettled (some err) l
      → Goes
          (record { store = s; answer = some err })
          nothing
          (record { store = take_back api err s; answer = none })
  unfolding take_back get_cached get_over
  ends_lem s none (direct lower) e h kl set =
      rw e (λ b k. refl, record { keyed = h; keyed_lower = tt; settled = tt })
  ends_lem s (some err) (direct lower) e h kl set =
      rw e (λ b k. refl, record { keyed = h; keyed_lower = tt; settled = tt })
  ends_lem s none (through temp lower) e h kl set = rw e (
    λ b k. ap (or_below (lookup (b ∷ k) (home b s.maps.mem s.maps.stor))) (sym (set b k)),
    record { keyed = h; keyed_lower = tt; settled = tt },
  )
  ends_lem s (some err) (through temp lower) e h kl set = rw e (
    λ b k. elim (Bool-cases (is_storage b)) [
      | inl st ↦
          rw (st, lookup-put_all (b ∷ k) s.maps.stor temp.stor)
            (or_below-first (lookup (b ∷ k) s.maps.stor) (lookup (b ∷ k) temp.stor) _)
      | inr st ↦
          rw (st, lookup-put_all (b ∷ k) s.maps.mem temp.mem)
            (or_below-first (lookup (b ∷ k) s.maps.mem) (lookup (b ∷ k) temp.mem) _)
    ],
    record {
      keyed = IsKeyed-put_all s.maps.mem s.maps.stor temp.mem temp.stor h kl;
      keyed_lower = tt;
      settled = tt;
    },
  )

  Step-Goes :
      IsLawful api → (r r' : Running) (ch : Change) → Step r ch r' → IsRunning r → Goes r ch r'
  Step-Goes law r r' ch (puts c key v s s' w e) h =
      let (keyed, ps) = IsKeyed-put_cached c key v s s' e h.keyed in
      (
        view-put_cached api c key v s s' e,
        record { keyed = keyed; keyed_lower = rw ps h.keyed_lower; settled = rw ps h.settled },
      )
  Step-Goes law r r' ch (changes ps stores s s' w k e) h =
      let (keyed, ps') = IsKeyed-put_change_set ps stores s s' e k h.keyed in
      (
        view-put_change_set api ps stores s s' e,
        record { keyed = keyed; keyed_lower = rw ps' h.keyed_lower; settled = rw ps' h.settled },
      )
  Step-Goes law r r' ch (begins s lower e) h = begins_lem s lower e h.keyed
  Step-Goes law r r' ch (writes s temp lower e) h = writes_lem law s temp lower e h
  Step-Goes law r r' ch (ends s err) h = ends_lem s err s.ps refl h.keyed h.keyed_lower h.settled

  pub data Steps (r : Running) : List Change → Running → Type 0 where
    here : Steps r [] r
    next :
        {chs : List Change} {ch : Change} {q p : Running}
        → Steps r chs q
        → Step q ch p
        → Steps r (ch ∷ chs) p

  -- The changes in order, the last one first in the list.
  unfoldable pub effects : List Change → ℕ → List ℕ → Option Found → Option Found
  effects [] b k o = o
  effects (ch ∷ chs) b k o = effect ch b k (effects chs b k o)

  Steps-Goes :
      IsLawful api
      → (r : Running) (chs : List Change) (r' : Running) → Steps r chs r'
      → IsRunning r
      → ((b : ℕ) (k : List ℕ) → view api b k r'.store ≡ effects chs b k (view api b k r.store))
        × IsRunning r'
  unfolding effects
  Steps-Goes law r chs r' here h = (λ b k. refl, h)
  Steps-Goes law r chs r' (next {chs = cs} {ch = ch} {q = q} steps step) h =
      let (seen, running) = Steps-Goes law r cs q steps h in
      let (seen', running') = Step-Goes law q r' ch step running in
      (λ b k. seen' b k ∙ ap (effect ch b k) (seen b k), running')

-- From a cache over a lawful store, with each key in its own map, any sequence of puts, deletions, change
-- sets and moments of Persist leads to a cache in which every key reads as the changes alone say, in their
-- order: a Persist that is running, has ended or has failed is not seen by a reader.
pub persist_unseen :
    {S E : Type 0} (api : Store S E) (s : MemCachedStore S) (lower : S) (chs : List Change)
    (r : Running api)
    → IsLawful api
    → IsKeyed s.maps.mem s.maps.stor
    → s.ps ≡ direct lower
    → Steps api (record { store = s; answer = none }) chs r
    → (b : ℕ) (k : List ℕ)
    → get_cached api (b ∷ k) r.store ≡ effects api chs b k (get_cached api (b ∷ k) s)
persist_unseen api s lower chs r law h e steps b k =
    (Steps-Goes api law (record { store = s; answer = none }) chs r steps
        (record { keyed = h; keyed_lower = rw e tt; settled = tt })).0
      b k

empty_maps :
    (b : ℕ) (k : List ℕ) (maps : MemoryStore)
    → length maps.mem + length maps.stor ≡ 0
    → lookup (b ∷ k) (home b maps.mem maps.stor) ≡ none
empty_maps b k maps e = go maps.mem maps.stor e
  where
    go : (m n : Values) → length m + length n ≡ 0 → lookup (b ∷ k) (home b m n) ≡ none
    go [] [] e =
        unfold lookup in
        elim (Bool-cases (is_storage b)) [ inl st ↦ rw st refl | inr st ↦ rw st refl ]
    go [] (y ∷ n) e = absurd (omega arith)
    go (x ∷ m) n e = absurd (omega arith)

-- After a Persist that answers no error, of a private cache or a shared one over a lawful store, with each
-- key in its own map, the store below reads by itself as the cache did before.
pub persist_durable :
    {S E : Type 0} (api : Store S E) (s : MemCachedStore S) (lower : S)
    → IsLawful api
    → IsKeyed s.maps.mem s.maps.stor
    → s.ps ≡ direct lower
    → (persist api s).0.1 ≡ none
    → (b : ℕ) (k : List ℕ) → get_lower api (b ∷ k) (persist api s).1.ps ≡ get_cached api (b ∷ k) s
unfolding persist get_cached get_over flush take_back
persist_durable api s lower law h e fine b k =
    elim (Bool-cases (length s.maps.mem + length s.maps.stor == 0)) [
      | inl none_kept ↦
          rw none_kept (rw (e, empty_maps b k s.maps (ground (arith, none_kept))) refl)
      | inr some_kept ↦ elim (Bool-cases s.private) [
        | inl private ↦
            let answer = rw (some_kept, private, e) at fine in
            rw (some_kept, private, e)
              (elim (Option-cases (api.write s.maps.mem s.maps.stor lower).0) [
                | inl good ↦ rw good (law.written s.maps.mem s.maps.stor lower h good b k)
                | inr (err, bad) ↦ absurd (cc (rw bad at answer))
              ])
        | inr shared ↦
            let answer = rw (some_kept, shared, e) at fine in
            rw (some_kept, shared, e)
              (elim (Option-cases (api.write s.maps.mem s.maps.stor lower).0) [
                | inl good ↦ rw good (law.written s.maps.mem s.maps.stor lower h good b k)
                | inr (err, bad) ↦ absurd (cc (rw bad at answer))
              ])
      ]
    ]
