-- ===== src/Storage/MergeLaw.antt =====
-- pkg/core/storage/memcached_store.go: the merge by key, and its order.
use epicchain_go.Common.{
  ℕ, ◌≡◌, refl, inl, inr, Bool, true, false, Option, none, some, List, [], ◌∷◌, ◌++◌, arith, All,
  Bool-cases, bytes_beq, bytes_beq_iff, if◌then◌else◌,
}
use epicchain_go.Storage.Types.{KeyValue, KeyValueExists, less}
use epicchain_go.Storage.Order.{less_trans, less_total}
use epicchain_go.Storage.Merge.{live, below, from, unless_cached, merge, IsAscending}
use epicchain_go.Storage.View.{
  find, cached, over, Ascends, find-append, less_unequal, find_before_none, find-live, cached-split,
  cached-below, cached-from, after_none, Ascends-below, Ascends-from, All-below,
}

-- An item in the cache from a key on is the key or after it.
pub less-not_less :
    (w : Bool) (a q n : List ℕ) → less w a q ≡ true → less w n q ≡ false → less w a n ≡ true
less-not_less w a q n h k = elim (Bool-cases (bytes_beq n q)) [
  | inl same ↦ ground (arith, bytes_beq_iff n q)
  | inr other ↦ less_trans w a q n h (less_total w n q k (λ e. ground (arith, bytes_beq_iff n q)))
]

-- The item of the lower store goes first, or the cache has its key; what follows is behind it.
pub data Meets (w : Bool) (p : KeyValue) (ms : List KeyValueExists) : Type 0 where
  absent :
      unless_cached p ms ≡ p ∷ []
      → cached p.key ms ≡ none
      → All (λ (n : KeyValueExists). less w p.key n.key ≡ true) ms
      → Meets w p ms
  present :
      (o : Option (List ℕ)) → unless_cached p ms ≡ [] → cached p.key ms ≡ some o → Meets w p ms

All-after :
    (w : Bool) (q k : List ℕ) (ms : List KeyValueExists)
    → less w q k ≡ true
    → All (λ (n : KeyValueExists). less w k n.key ≡ true) ms
    → All (λ (n : KeyValueExists). less w q n.key ≡ true) ms
All-after w q k [] h a = tt
All-after w q k (m ∷ ms) h a = (less_trans w q k m.key h a.0, All-after w q k ms h a.1)

pub from-Meets :
    (w : Bool) (p : KeyValue) (ms : List KeyValueExists)
    → Ascends w ms
    → Meets w p (from w p.key ms)
unfolding from
from-Meets w p [] a = unfold unless_cached cached in absent refl refl tt
from-Meets w p (m ∷ ms) a = elim (Bool-cases (less w m.key p.key)) [
  | inl early ↦ rw early (from-Meets w p ms a.1)
  | inr late ↦ rw late (elim (Bool-cases (bytes_beq m.key p.key)) [
    | inl same ↦
        unfold unless_cached cached in
        present (if m.exists then some m.value else none) (rw same refl) (rw same refl)
    | inr other ↦
        let h = less_total w m.key p.key late (λ e. ground (arith, bytes_beq_iff m.key p.key)) in
        let behind = All-after w p.key m.key ms h a.0 in
        unfold unless_cached cached in
        absent (rw other refl) (rw other (after_none w p.key ms behind)) (h, behind)
  ])
]

-- A key reads from the merge as the cache says, and where the cache is silent as the lower store says.
pub find-merge :
    (w : Bool) (k : List ℕ) (ms : List KeyValueExists) (ps : List KeyValue)
    → Ascends w ms
    → IsAscending w ps
    → find k (merge w ms ps) ≡ over (cached k ms) (find k ps)
unfolding merge
find-merge w k ms [] a b = unfold find in find-live w k ms a
find-merge w k ms (p ∷ ps) a b =
    let ms' = from w p.key ms in
    let first = below w p.key ms in
    let rest = merge w ms' ps in
    let ih = find-merge w k ms' ps (Ascends-from w p.key ms a) b.1 in
    let lives = find-live w k first (Ascends-below w p.key ms a) in
    rw
      (
        find-append k (live first) (unless_cached p ms' ++ rest),
        find-append k (unless_cached p ms') rest,
        ih,
        lives,
        cached-split w k p.key ms,
      )
      (elim (Bool-cases (less w k p.key)) [
        | inl early ↦
            let gone = find_before_none w k p.key ps early b.0 in
            let other = less_unequal w k p.key early in
            rw (cached-from w k p.key ms early a, gone)
              (elim (from-Meets w p ms a) [
                | absent e c h ↦ rw e (unfold find in rw (other, gone) (ground arith))
                | present o e c ↦ rw e (unfold find in rw (other, gone) (ground arith))
              ])
        | inr late ↦ rw (cached-below w k p.key ms late) (elim (from-Meets w p ms a) [
          | absent e c h ↦ rw e (unfold find in ground (arith, bytes_beq_iff p.key k, c))
          | present o e c ↦ rw e (unfold find in ground (arith, bytes_beq_iff p.key k, c))
        ])
      ])

module _ (P : List ℕ → Type 0) where
  unfoldable pub Keys : List KeyValue → Type 0
  Keys l = All (λ (p : KeyValue). P p.key) l

  unfoldable pub MemKeys : List KeyValueExists → Type 0
  MemKeys l = All (λ (p : KeyValueExists). P p.key) l

  pub Keys-append : (l m : List KeyValue) → Keys l → Keys m → Keys (l ++ m)
  unfolding Keys
  Keys-append [] m a b = b
  Keys-append (x ∷ l) m a b = (a.0, Keys-append l m a.1 b)

  pub Keys-live : (l : List KeyValueExists) → MemKeys l → Keys (live l)
  unfolding live Keys MemKeys
  Keys-live [] a = tt
  Keys-live (m ∷ l) a = elim (Bool-cases m.exists) [
    | inl here ↦ rw here (a.0, Keys-live l a.1)
    | inr gone ↦ rw gone (Keys-live l a.1)
  ]

  MemKeys-from :
      (w : Bool) (q : List ℕ) (l : List KeyValueExists) → MemKeys l → MemKeys (from w q l)
  unfolding from MemKeys
  MemKeys-from w q [] a = tt
  MemKeys-from w q (m ∷ l) a = elim (Bool-cases (less w m.key q)) [
    | inl early ↦ rw early (MemKeys-from w q l a.1)
    | inr late ↦ rw late a
  ]

  pub Keys-unless : (p : KeyValue) (l : List KeyValueExists) → P p.key → Keys (unless_cached p l)
  unfolding unless_cached Keys
  Keys-unless p [] a = (a, tt)
  Keys-unless p (m ∷ l) a = elim (Bool-cases (bytes_beq m.key p.key)) [
    | inl same ↦ rw same tt
    | inr other ↦ rw other (a, tt)
  ]

  -- What holds of the keys of both lists holds of the merge's.
  pub Keys-merge :
      (w : Bool) (ms : List KeyValueExists) (ps : List KeyValue)
      → MemKeys ms
      → Keys ps
      → Keys (merge w ms ps)
  unfolding merge
  Keys-merge w ms [] a b = Keys-live ms a
  Keys-merge w ms (p ∷ ps) a b =
      Keys-append (live (below w p.key ms)) _
        (Keys-live _ (unfold MemKeys in All-below (λ n. P n.key) w p.key ms (unfold MemKeys in a)))
        (Keys-append (unless_cached p (from w p.key ms)) _ (Keys-unless p _ (unfold Keys in b.0))
          (Keys-merge w (from w p.key ms) ps (MemKeys-from w p.key ms a) (unfold Keys in b.1)))
