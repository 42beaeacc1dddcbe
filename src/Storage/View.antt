-- ===== src/Storage/View.antt =====
-- pkg/core/storage/memcached_store.go: what a key reads as, in a cache, in a lower store and in the merge.
use epicchain_go.Common.{
  ℕ, ◌≡◌, refl, sym, ◌∙◌, inl, inr, Bool, true, false, Option, none, some, List, [], ◌∷◌, ◌++◌,
  arith, All, Bool-cases, bytes_beq, bytes_beq_iff, if◌then◌else◌,
}
use epicchain_go.Storage.Types.{KeyValue, KeyValueExists, less}
use epicchain_go.Storage.Order.{less_irrefl, less_trans, less_total}
use epicchain_go.Storage.Merge.{live, below, from}

-- The value under a key.
unfoldable pub find : List ℕ → List KeyValue → Option (List ℕ)
find k [] = none
find k (p ∷ ps) = let rest = find k ps in if bytes_beq p.key k then some p.value else rest

-- What the cache knows of a key: nothing, that it is gone, or its value.
unfoldable pub cached : List ℕ → List KeyValueExists → Option (Option (List ℕ))
cached k [] = none
cached k (m ∷ ms) =
    let rest = cached k ms in
    if bytes_beq m.key k then some (if m.exists then some m.value else none) else rest

-- The cache goes before what lies below.
abbrev pub over : Option (Option (List ℕ)) → Option (List ℕ) → Option (List ℕ)
over none o = o
over (some v) o = v

abbrev or_else {ℓ} : {A : Type ℓ} → Option A → Option A → Option A
or_else none o = o
or_else (some a) o = some a

abbrev pub Ascends : Bool → List KeyValueExists → Type 0
Ascends w [] = Unit
Ascends w (m ∷ ms) = All (λ (n : KeyValueExists). less w m.key n.key ≡ true) ms × Ascends w ms

-- No two items have one key.
abbrev pub HasKeysOnce : List KeyValueExists → Type 0
HasKeysOnce [] = Unit
HasKeysOnce (m ∷ ms) = (cached m.key ms ≡ none) × HasKeysOnce ms

pub find-append :
    (k : List ℕ) (l m : List KeyValue) → find k (l ++ m) ≡ or_else (find k l) (find k m)
unfolding find
find-append k [] m = refl
find-append k (p ∷ l) m = ground (arith, find-append k l m)

pub less_unequal : (w : Bool) (a b : List ℕ) → less w a b ≡ true → bytes_beq b a ≡ false
less_unequal w a b h = ground (arith, less_irrefl w a, bytes_beq_iff b a)

before_none :
    (w : Bool) (k q : List ℕ) (ms : List KeyValueExists)
    → less w k q ≡ true
    → All (λ (n : KeyValueExists). less w q n.key ≡ true) ms
    → cached k ms ≡ none
unfolding cached
before_none w k q [] h a = refl
before_none w k q (m ∷ ms) h a =
    rw (less_unequal w k m.key (less_trans w k q m.key h a.0)) (before_none w k q ms h a.1)

pub after_none :
    (w : Bool) (k : List ℕ) (ms : List KeyValueExists)
    → All (λ (n : KeyValueExists). less w k n.key ≡ true) ms
    → cached k ms ≡ none
unfolding cached
after_none w k [] a = refl
after_none w k (m ∷ ms) a = rw (less_unequal w k m.key a.0) (after_none w k ms a.1)

pub find_before_none :
    (w : Bool) (k q : List ℕ) (ps : List KeyValue)
    → less w k q ≡ true
    → All (λ (n : KeyValue). less w q n.key ≡ true) ps
    → find k ps ≡ none
unfolding find
find_before_none w k q [] h a = refl
find_before_none w k q (p ∷ ps) h a =
    rw (less_unequal w k p.key (less_trans w k q p.key h a.0)) (find_before_none w k q ps h a.1)

-- What exists of a sorted cache, by key.
pub find-live :
    (w : Bool) (k : List ℕ) (ms : List KeyValueExists)
    → Ascends w ms
    → find k (live ms) ≡ over (cached k ms) none
unfolding live find cached
find-live w k [] a = refl
find-live w k (m ∷ ms) a =
    ground (arith, find-live w k ms a.1, bytes_beq_iff m.key k, after_none w m.key ms a.0)

pub cached-split :
    (w : Bool) (k q : List ℕ) (ms : List KeyValueExists)
    → cached k ms ≡ or_else (cached k (below w q ms)) (cached k (from w q ms))
unfolding cached below from
cached-split w k q [] = refl
cached-split w k q (m ∷ ms) = elim (Bool-cases (less w m.key q)) [
  | inl h ↦ rw h (ground (arith, cached-split w k q ms))
  | inr h ↦ rw h refl
]

pub All-below :
    (P : KeyValueExists → Type 0) (w : Bool) (q : List ℕ) (ms : List KeyValueExists)
    → All P ms
    → All P (below w q ms)
unfolding below
All-below P w q [] a = tt
All-below P w q (m ∷ ms) a = elim (Bool-cases (less w m.key q)) [
  | inl h ↦ rw h (a.0, All-below P w q ms a.1)
  | inr h ↦ rw h tt
]

pub Ascends-below :
    (w : Bool) (q : List ℕ) (ms : List KeyValueExists) → Ascends w ms → Ascends w (below w q ms)
unfolding below
Ascends-below w q [] a = tt
Ascends-below w q (m ∷ ms) a = elim (Bool-cases (less w m.key q)) [
  | inl h ↦ rw h (All-below (λ n. less w m.key n.key ≡ true) w q ms a.0, Ascends-below w q ms a.1)
  | inr h ↦ rw h tt
]

pub Ascends-from :
    (w : Bool) (q : List ℕ) (ms : List KeyValueExists) → Ascends w ms → Ascends w (from w q ms)
unfolding from
Ascends-from w q [] a = tt
Ascends-from w q (m ∷ ms) a = elim (Bool-cases (less w m.key q)) [
  | inl h ↦ rw h (Ascends-from w q ms a.1)
  | inr h ↦ rw h a
]

-- A key that is not before `q` is not among the items before `q`.
pub cached-below :
    (w : Bool) (k q : List ℕ) (ms : List KeyValueExists)
    → less w k q ≡ false
    → cached k (below w q ms) ≡ none
unfolding cached below
cached-below w k q [] h = refl
cached-below w k q (m ∷ ms) h = elim (Bool-cases (less w m.key q)) [
  | inl e ↦ rw e (ground (arith, bytes_beq_iff m.key k, cached-below w k q ms h))
  | inr e ↦ rw e refl
]

-- A key before `q` is not among the items from `q` on.
pub cached-from :
    (w : Bool) (k q : List ℕ) (ms : List KeyValueExists)
    → less w k q ≡ true
    → Ascends w ms
    → cached k (from w q ms) ≡ none
unfolding cached from
cached-from w k q [] h a = refl
cached-from w k q (m ∷ ms) h a = elim (Bool-cases (less w m.key q)) [
  | inl e ↦ rw e (cached-from w k q ms h a.1)
  | inr e ↦
      let other : bytes_beq m.key k ≡ false = ground (arith, bytes_beq_iff m.key k) in
      let before : less w k m.key ≡ true = elim (Bool-cases (less w k m.key)) [
        | inl p ↦ p
        | inr p ↦
            let back = less_total w k m.key p (λ same. ground (arith, bytes_beq_iff m.key k)) in
            absurd (cc (sym e ∙ less_trans w m.key k q back h))
      ] in
      rw (e, other) (before_none w k m.key ms before a.0)
]
