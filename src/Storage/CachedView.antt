-- ===== src/Storage/CachedView.antt =====
-- pkg/core/storage/memcached_store.go: what a cache reads as, before, in and after a Persist.
use epicchain_go.Common.{
  ℕ, ◌≡◌, refl, ◌∙◌, inl, inr, Bool, false, not, ◌&&◌, ◌==◌, Option, none, some, List, [], ◌∷◌,
  arith, lookup, lookup-insert, bytes_eq, bytes_beq, Bool-cases, if◌then◌else◌, length, ◌+◌,
}
use epicchain_go.Storage.Memory.{Found, Values, is_storage, put_all}
use epicchain_go.Storage.Cached.{
  Store, MemCachedStore, or_below, get_over, get_cached, put_cached, put_change_set_cached,
}

-- The map that a key with this first byte is in.
abbrev pub home : ℕ → Values → Values → Values
home b mem stor = if is_storage b then stor else mem

-- Each key is in its own map.
abbrev pub IsKeyed : Values → Values → Type 0
IsKeyed mem stor = (b : ℕ) (k : List ℕ) → lookup (b ∷ k) (home b stor mem) ≡ none

-- What a cache relies on in the store below: a change set that is written is what its keys read as from then
-- on, and one that is refused changes nothing.
pub record IsLawful {S E : Type 0} (api : Store S E) : Type 0 where
  pub written :
      (puts stores : Values) (s : S)
      → IsKeyed puts stores
      → (api.write puts stores s).0 ≡ none
      → (b : ℕ) (k : List ℕ)
      → api.read (b ∷ k) (api.write puts stores s).1
        ≡ or_below (lookup (b ∷ k) (home b puts stores)) (api.read (b ∷ k) s)
  pub refused :
      (puts stores : Values) (s : S) (e : E)
      → (api.write puts stores s).0 ≡ some e
      → (b : ℕ) (k : List ℕ) → api.read (b ∷ k) (api.write puts stores s).1 ≡ api.read (b ∷ k) s

abbrev pub first_of : Option (Option (List ℕ)) → Option (Option (List ℕ)) → Option (Option (List ℕ))
first_of none o = o
first_of (some v) o = some v

pub lookup-put_all :
    (k : List ℕ) (puts m : Values)
    → lookup k (put_all puts m) ≡ first_of (lookup k puts) (lookup k m)
unfolding put_all
lookup-put_all k [] m = unfold lookup in refl
lookup-put_all k ((j, v) ∷ puts) m =
    lookup-insert j k v (put_all puts m)
    ∙ rw (lookup-put_all k puts m) (unfold lookup in ground arith)

pub or_below-first :
    (a b : Option (Option (List ℕ))) (o : Option Found)
    → or_below (first_of a b) o ≡ or_below a (or_below b o)
or_below-first none b o = refl
or_below-first (some none) b o = refl
or_below-first (some (some v)) b o = refl

pub IsKeyed-put_all :
    (puts stores mem stor : Values)
    → IsKeyed puts stores
    → IsKeyed mem stor
    → IsKeyed (put_all puts mem) (put_all stores stor)
IsKeyed-put_all puts stores mem stor h k b j = elim (Bool-cases (is_storage b)) [
  | inl st ↦ rw st (lookup-put_all (b ∷ j) puts mem ∙ rw (rw st at (h b j), rw st at (k b j)) refl)
  | inr st ↦
      rw st (lookup-put_all (b ∷ j) stores stor ∙ rw (rw st at (h b j), rw st at (k b j)) refl)
]

-- The change of a call, as a reader sees it.
pub data Change : Type 0 where
  sets : List ℕ → Option (List ℕ) → Change
  sets_all : Values → Values → Change
  nothing : Change

abbrev pub effect : Change → ℕ → List ℕ → Option Found → Option Found
effect (sets key v) b k o = if bytes_beq key (b ∷ k) then or_below (some v) o else o
effect (sets_all puts stores) b k o = or_below (lookup (b ∷ k) (home b puts stores)) o
effect nothing b k o = o

pub some_eq : {A : Type 0} {a b : A} → some a ≡ some b → a ≡ b
some_eq e = cc

or_below-some :
    (v : Option (List ℕ)) (o o' : Option Found) → or_below (some v) o ≡ or_below (some v) o'
or_below-some none o o' = refl
or_below-some (some v) o o' = refl

-- Keys of different maps are different.
pub different :
    (c b : ℕ) (key k : List ℕ) {t : Bool}
    → is_storage c ≡ t
    → is_storage b ≡ not t
    → bytes_beq (c ∷ key) (b ∷ k) ≡ false
different c b key k h h' = ground arith

module _ {S E : Type 0} (api : Store S E) where
  abbrev pub view : ℕ → List ℕ → MemCachedStore S → Option Found
  view b k s = get_cached api (b ∷ k) s

  pub view-put_cached :
      (c : ℕ) (key : List ℕ) (v : Option (List ℕ)) (s s' : MemCachedStore S)
      → put_cached api (c ∷ key) v s ≡ some s'
      → (b : ℕ) (k : List ℕ) → view b k s' ≡ effect (sets (c ∷ key) v) b k (view b k s)
  unfolding put_cached get_cached get_over
  view-put_cached c key v s s' e b k = elim (Bool-cases s.closed) [
    | inl shut ↦ absurd (cc (rw shut at e))
    | inr usable ↦ elim (Bool-cases (is_storage c)) [
      | inl st ↦
          let e' = some_eq (rw (usable, st) at e) in
          rw (← e') (elim (Bool-cases (is_storage b)) [
            | inl st' ↦
                rw (st', lookup-insert (c ∷ key) (b ∷ k) v s.maps.stor)
                  (elim (Bool-cases (bytes_beq (c ∷ key) (b ∷ k))) [
                    | inl same ↦ rw same (or_below-some v _ _)
                    | inr other ↦ rw other refl
                  ])
            | inr st' ↦ rw (st', different c b key k st st') refl
          ])
      | inr st ↦
          let e' = some_eq (rw (usable, st) at e) in
          rw (← e') (elim (Bool-cases (is_storage b)) [
            | inr st' ↦
                rw (st', lookup-insert (c ∷ key) (b ∷ k) v s.maps.mem)
                  (elim (Bool-cases (bytes_beq (c ∷ key) (b ∷ k))) [
                    | inl same ↦ rw same (or_below-some v _ _)
                    | inr other ↦ rw other refl
                  ])
            | inl st' ↦ rw (st', different c b key k st st') refl
          ])
    ]
  ]

  pub view-put_change_set :
      (puts stores : Values) (s s' : MemCachedStore S)
      → put_change_set_cached api puts stores s ≡ some s'
      → (b : ℕ) (k : List ℕ) → view b k s' ≡ effect (sets_all puts stores) b k (view b k s)
  unfolding put_change_set_cached get_cached get_over
  view-put_change_set puts stores s s' e b k =
      elim (Bool-cases (s.closed && not (length puts + length stores == 0))) [
        | inl shut ↦ absurd (cc (rw shut at e))
        | inr usable ↦ rw (← some_eq (rw usable at e)) (elim (Bool-cases (is_storage b)) [
          | inl st ↦
              rw (st, lookup-put_all (b ∷ k) stores s.maps.stor)
                (or_below-first (lookup (b ∷ k) stores) (lookup (b ∷ k) s.maps.stor) _)
          | inr st ↦
              rw (st, lookup-put_all (b ∷ k) puts s.maps.mem)
                (or_below-first (lookup (b ∷ k) puts) (lookup (b ∷ k) s.maps.mem) _)
        ])
      ]
