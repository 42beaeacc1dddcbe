-- ===== src/Storage/Sorted.antt =====
-- pkg/core/storage/memcached_store.go: what performSeek visits, in order and by key.
use epicchain_go.Common.{
  ℕ, ◌≡◌, ◌≢◌, refl, ◌∙◌, inl, inr, Bool, true, false, none, List, [], ◌∷◌, ◌++◌, ◌||◌, ◌==◌, ltb,
  arith, All, Bool-cases, bytes_beq, bytes_beq_iff,
}
use epicchain_go.Storage.Types.{KeyValue, KeyValueExists, SeekRange, less}
use epicchain_go.Storage.Seek.{
  Callback, visit, insert_sorted, sort_slice, lower_range, perform_seek,
}
use epicchain_go.Storage.Order.{less_irrefl, less_trans, less_total}
use epicchain_go.Storage.Merge.{live, below, from, unless_cached, merge, IsAscending}
use epicchain_go.Storage.View.{
  find, cached, over, Ascends, HasKeysOnce, Ascends-below, Ascends-from,
}
use epicchain_go.Storage.MergeLaw.{
  Keys, MemKeys, Keys-append, Keys-live, Keys-unless, Keys-merge, absent, present, from-Meets,
  less-not_less, find-merge,
}
use epicchain_go.Storage.SeekLaw.{reached, perform_seek_lem}

All-map : {A : Type 0} (P Q : A → Type 0) (l : List A) → ((a : A) → P a → Q a) → All P l → All Q l
All-map P Q [] h a = tt
All-map P Q (x ∷ l) h a = (h x a.0, All-map P Q l h a.1)

less_asym : (w : Bool) (a b : List ℕ) → less w a b ≡ true → less w b a ≡ false
less_asym w a b h = ground (arith, less_trans w a b a, less_irrefl w a)

-- Two sorted lists, one before a key and one from it on.
IsAscending-append :
    (w : Bool) (q : List ℕ) (l m : List KeyValue)
    → IsAscending w l
    → IsAscending w m
    → All (λ (p : KeyValue). less w p.key q ≡ true) l
    → All (λ (p : KeyValue). less w p.key q ≡ false) m
    → IsAscending w (l ++ m)
IsAscending-append w q [] m a b c d = b
IsAscending-append w q (x ∷ l) m a b c d = (
  unfold Keys in
      Keys-append (λ k. less w x.key k ≡ true) l m a.0
        (All-map (λ (p : KeyValue). less w p.key q ≡ false)
          (λ (p : KeyValue). less w x.key p.key ≡ true) m
          (λ p e. less-not_less w x.key q p.key c.0 e) d),
  IsAscending-append w q l m a.1 b c.1 d,
)

below-less :
    (w : Bool) (q : List ℕ) (ms : List KeyValueExists)
    → All (λ (n : KeyValueExists). less w n.key q ≡ true) (below w q ms)
unfolding below
below-less w q [] = tt
below-less w q (m ∷ ms) = elim (Bool-cases (less w m.key q)) [
  | inl h ↦ rw h (h, below-less w q ms)
  | inr h ↦ rw h tt
]

from-not_less :
    (w : Bool) (q : List ℕ) (ms : List KeyValueExists)
    → Ascends w ms
    → All (λ (n : KeyValueExists). less w n.key q ≡ false) (from w q ms)
unfolding from
from-not_less w q [] a = tt
from-not_less w q (m ∷ ms) a = elim (Bool-cases (less w m.key q)) [
  | inl h ↦ rw h (from-not_less w q ms a.1)
  | inr h ↦ rw h (
    h,
    All-map (λ (n : KeyValueExists). less w m.key n.key ≡ true)
        (λ (n : KeyValueExists). less w n.key q ≡ false) ms
        (λ n e. ground (arith, less_trans w m.key n.key q)) a.0,
  )
]

IsAscending-live : (w : Bool) (ms : List KeyValueExists) → Ascends w ms → IsAscending w (live ms)
unfolding live
IsAscending-live w [] a = tt
IsAscending-live w (m ∷ ms) a = elim (Bool-cases m.exists) [
  | inl here ↦ rw here (
    unfold Keys MemKeys in Keys-live (λ k. less w m.key k ≡ true) ms a.0,
    IsAscending-live w ms a.1,
  )
  | inr gone ↦ rw gone (IsAscending-live w ms a.1)
]

-- The merge is sorted.
IsAscending-merge :
    (w : Bool) (ms : List KeyValueExists) (ps : List KeyValue)
    → Ascends w ms
    → IsAscending w ps
    → IsAscending w (merge w ms ps)
unfolding merge
IsAscending-merge w ms [] a b = IsAscending-live w ms a
IsAscending-merge w ms (p ∷ ps) a b =
    let ms' = from w p.key ms in
    let rest = merge w ms' ps in
    let later =
      All-map (λ (n : KeyValue). less w p.key n.key ≡ true)
        (λ (n : KeyValue). less w n.key p.key ≡ false) ps (λ n e. less_asym w p.key n.key e) b.0 in
    let sorted = IsAscending-merge w ms' ps (Ascends-from w p.key ms a) b.1 in
    IsAscending-append w p.key (live (below w p.key ms)) (unless_cached p ms' ++ rest)
      (IsAscending-live w _ (Ascends-below w p.key ms a))
      (elim (from-Meets w p ms a) [
        | absent e c h ↦
            rw e (
              unfold Keys MemKeys in Keys-merge (λ k. less w p.key k ≡ true) w ms' ps h b.0,
              sorted,
            )
        | present o e c ↦ rw e sorted
      ])
      (unfold Keys MemKeys in Keys-live (λ k. less w k p.key ≡ true) _ (below-less w p.key ms))
      (unfold Keys MemKeys in
        Keys-append (λ k. less w k p.key ≡ false) (unless_cached p ms') rest
          (Keys-unless (λ k. less w k p.key ≡ false) p ms' (less_irrefl w p.key))
          (Keys-merge (λ k. less w k p.key ≡ false) w ms' ps (from-not_less w p.key ms a) later))

cached-insert_sorted :
    (w : Bool) (k : List ℕ) (m : KeyValueExists) (l : List KeyValueExists)
    → cached k (insert_sorted w m l) ≡ cached k (m ∷ l)
unfolding cached insert_sorted
cached-insert_sorted w k m [] = refl
cached-insert_sorted w k m (x ∷ l) = elim (Bool-cases (less w x.key m.key)) [
  | inl h ↦ rw h (
      ground (
        arith,
        cached-insert_sorted w k m l,
        less_irrefl w k,
        bytes_beq_iff x.key k,
        bytes_beq_iff m.key k,
      ))
  | inr h ↦ rw h refl
]

cached-sort_slice :
    (w : Bool) (k : List ℕ) (l : List KeyValueExists) → cached k (sort_slice w l) ≡ cached k l
unfolding sort_slice cached
cached-sort_slice w k [] = refl
cached-sort_slice w k (m ∷ l) =
    cached-insert_sorted w k m (sort_slice w l) ∙ rw (cached-sort_slice w k l) refl

All-insert_sorted :
    (P : KeyValueExists → Type 0) (w : Bool) (m : KeyValueExists) (l : List KeyValueExists)
    → P m
    → All P l
    → All P (insert_sorted w m l)
unfolding insert_sorted
All-insert_sorted P w m [] h a = (h, tt)
All-insert_sorted P w m (x ∷ l) h a = elim (Bool-cases (less w x.key m.key)) [
  | inl e ↦ rw e (a.0, All-insert_sorted P w m l h a.1)
  | inr e ↦ rw e (h, a)
]

Ascends-insert_sorted :
    (w : Bool) (m : KeyValueExists) (l : List KeyValueExists)
    → Ascends w l
    → cached m.key l ≡ none
    → Ascends w (insert_sorted w m l)
unfolding insert_sorted cached
Ascends-insert_sorted w m [] a e = (tt, tt)
Ascends-insert_sorted w m (x ∷ l) a e =
    let other : bytes_beq x.key m.key ≡ false = ground arith in
    elim (Bool-cases (less w x.key m.key)) [
      | inl h ↦ rw h (
        All-insert_sorted (λ n. less w x.key n.key ≡ true) w m l h a.0,
        Ascends-insert_sorted w m l a.1 (rw other at e),
      )
      | inr h ↦
          let before =
            less_total w x.key m.key h (λ e'. ground (arith, bytes_beq_iff x.key m.key)) in
          rw h (
            (
              before,
              All-map (λ (n : KeyValueExists). less w x.key n.key ≡ true)
                  (λ (n : KeyValueExists). less w m.key n.key ≡ true) l
                  (λ n e'. less_trans w m.key x.key n.key before e') a.0,
            ),
            a,
          )
    ]

Ascends-sort_slice :
    (w : Bool) (l : List KeyValueExists) → HasKeysOnce l → Ascends w (sort_slice w l)
unfolding sort_slice
Ascends-sort_slice w [] h = tt
Ascends-sort_slice w (m ∷ l) h =
    Ascends-insert_sorted w m (sort_slice w l) (Ascends-sort_slice w l h.1)
      (cached-sort_slice w m.key l ∙ h.0)

-- performSeek without cutPrefix calls its callback on a list of items, one by one until it answers false.
-- The list is in strict order, backwards if asked, and a key reads from it as from the cache, and where the
-- cache is silent as from the lower store (which is not asked at depth 1). The keys of the cache are taken
-- to be distinct, and the lower store to hand out its items in strict order, with keys that are not empty.
pub perform_seek-Sorted :
    {X : Type 0} (rng : SeekRange) (f : Callback X) (ps : SeekRange → List KeyValue)
    (mem_res : List KeyValueExists) (x : X)
    → HasKeysOnce mem_res
    → IsAscending rng.backwards (ps (lower_range rng))
    → All (λ (p : KeyValue). p.key ≢ []) (ps (lower_range rng))
    → (l : List KeyValue) × (perform_seek rng false f ps mem_res x ≡ (visit f l x).1)
      × IsAscending rng.backwards l
      × ((k : List ℕ) → find k l ≡ over (cached k mem_res) (find k (reached rng ps)))
perform_seek-Sorted rng f ps mem_res x once asc keys =
    let w = rng.backwards in
    let ms = sort_slice w mem_res in
    let sorted = Ascends-sort_slice w mem_res once in
    let asc' : IsAscending w (reached rng ps) =
      elim (Bool-cases ((rng.search_depth == 0) || ltb 1 rng.search_depth)) [
        | inl deep ↦ rw deep asc
        | inr shallow ↦ rw shallow tt
      ] in
    (
      merge w ms (reached rng ps),
      perform_seek_lem rng f ps mem_res x asc keys,
      IsAscending-merge w ms (reached rng ps) sorted asc',
      λ k. find-merge w k ms (reached rng ps) sorted asc' ∙ rw (cached-sort_slice w k mem_res) refl,
    )
