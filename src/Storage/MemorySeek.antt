-- ===== src/Storage/MemorySeek.antt =====
-- pkg/core/storage/memory_store.go: Seek and SeekGC of MemoryStore.
use epicchain_go.Common.{
  ℕ, ◌≡◌, refl, ap, ◌∙◌, inl, inr, Bool, true, false, Option, none, some, List, [], ◌∷◌, ◌>>=◌,
  arith, All, lookup, delete, bytes_eq, bytes_beq, bytes_beq_iff, Bool-cases, if◌then◌else◌,
}
use epicchain_go.Storage.Types.{KeyValue, SeekRange, is_key_ok, less}
use epicchain_go.Storage.Seek.{Callback, visit}
use epicchain_go.Storage.Order.{less_irrefl, less_trans, less_total}
use epicchain_go.Storage.Merge.{IsAscending}
use epicchain_go.Storage.View.{find}
use epicchain_go.Storage.Memory.{or_not_found, Values, MemoryStore, choose_map, is_storage, get}
use epicchain_go.Storage.Scan.{HasOnce, value_of, prefix_head}

-- The items of the map that are in the range and not nil.
unfoldable pub mem_list : SeekRange → Values → List KeyValue
mem_list rng [] = []
mem_list rng ((k, none) ∷ m) = mem_list rng m
mem_list rng ((k, some v) ∷ m) =
    let rest = mem_list rng m in
    if is_key_ok rng k then record { key = k; value = v } ∷ rest else rest

-- sort.Slice
unfoldable pub insert_item : Bool → KeyValue → List KeyValue → List KeyValue
insert_item backwards kv [] = kv ∷ []
insert_item backwards kv (x ∷ xs) =
    if less backwards x.key kv.key then x ∷ insert_item backwards kv xs else kv ∷ (x ∷ xs)

unfoldable pub sort_items : Bool → List KeyValue → List KeyValue
sort_items backwards [] = []
sort_items backwards (x ∷ xs) = insert_item backwards x (sort_items backwards xs)

-- seek: the items in order to the callback, until it answers false. An empty prefix panics.
unfoldable pub seek_memory : {X : Type 0} → SeekRange → Callback X → MemoryStore → X → Option X
seek_memory rng f s x =
    choose_map rng.prefix s >>= λ m. some (visit f (sort_items rng.backwards (mem_list rng m)) x).1

-- delete(s.chooseMap(k), string(k))
abbrev pub delete_chosen : List ℕ → MemoryStore → MemoryStore
delete_chosen [] s = s
delete_chosen (b ∷ key) s =
    if is_storage b
    then record s { stor = delete (b ∷ key) s.stor }
    else record s { mem = delete (b ∷ key) s.mem }

-- SeekGC: what the callback does not keep is deleted. Keys in the range are not empty.
unfoldable pub seek_gc : SeekRange → (KeyValue → Bool) → MemoryStore → Option MemoryStore
seek_gc rng keep s =
    seek_memory rng (λ kv s'. (true, if keep kv then s' else delete_chosen kv.key s')) s s

find-insert_item :
    (w : Bool) (k : List ℕ) (m : KeyValue) (l : List KeyValue)
    → find k (insert_item w m l) ≡ find k (m ∷ l)
unfolding find insert_item
find-insert_item w k m [] = refl
find-insert_item w k m (x ∷ l) = elim (Bool-cases (less w x.key m.key)) [
  | inl h ↦ rw h (
      ground (
        arith,
        find-insert_item w k m l,
        less_irrefl w k,
        bytes_beq_iff x.key k,
        bytes_beq_iff m.key k,
      ))
  | inr h ↦ rw h refl
]

find-sort_items : (w : Bool) (k : List ℕ) (l : List KeyValue) → find k (sort_items w l) ≡ find k l
unfolding sort_items find
find-sort_items w k [] = refl
find-sort_items w k (m ∷ l) =
    find-insert_item w k m (sort_items w l) ∙ rw (find-sort_items w k l) refl

All-insert_item :
    (P : KeyValue → Type 0) (w : Bool) (m : KeyValue) (l : List KeyValue)
    → P m
    → All P l
    → All P (insert_item w m l)
unfolding insert_item
All-insert_item P w m [] h a = (h, tt)
All-insert_item P w m (x ∷ l) h a = elim (Bool-cases (less w x.key m.key)) [
  | inl e ↦ rw e (a.0, All-insert_item P w m l h a.1)
  | inr e ↦ rw e (h, a)
]

All-less :
    (w : Bool) (a b : List ℕ) (l : List KeyValue)
    → less w a b ≡ true
    → All (λ (n : KeyValue). less w b n.key ≡ true) l
    → All (λ (n : KeyValue). less w a n.key ≡ true) l
All-less w a b [] h k = tt
All-less w a b (x ∷ l) h k = (less_trans w a b x.key h k.0, All-less w a b l h k.1)

IsAscending-insert_item :
    (w : Bool) (m : KeyValue) (l : List KeyValue)
    → IsAscending w l
    → find m.key l ≡ none
    → IsAscending w (insert_item w m l)
unfolding insert_item find
IsAscending-insert_item w m [] a e = (tt, tt)
IsAscending-insert_item w m (x ∷ l) a e =
    let other : bytes_beq x.key m.key ≡ false = ground arith in
    elim (Bool-cases (less w x.key m.key)) [
      | inl h ↦ rw h (
        All-insert_item (λ n. less w x.key n.key ≡ true) w m l h a.0,
        IsAscending-insert_item w m l a.1 (rw other at e),
      )
      | inr h ↦
          let before =
            less_total w x.key m.key h (λ e'. ground (arith, bytes_beq_iff x.key m.key)) in
          rw h ((before, All-less w m.key x.key l before a.0), a)
    ]

-- What the map has under a key, if it is in the range.
find-mem_list :
    (rng : SeekRange) (k : List ℕ) (m : Values)
    → HasOnce m
    → find k (mem_list rng m)
      ≡ (if is_key_ok rng k then value_of (some (or_not_found (lookup k m))) else none)
unfolding find mem_list lookup
find-mem_list rng k [] h = ground arith
find-mem_list rng k ((j, none) ∷ m) h =
    ground (arith, bytes_beq_iff j k, find-mem_list rng k m h.1, h.0)
find-mem_list rng k ((j, some v) ∷ m) h =
    ground (arith, bytes_beq_iff j k, find-mem_list rng k m h.1, h.0)

IsAscending-mem_list :
    (w : Bool) (rng : SeekRange) (m : Values)
    → HasOnce m
    → IsAscending w (sort_items w (mem_list rng m))
unfolding mem_list sort_items
IsAscending-mem_list w rng [] h = tt
IsAscending-mem_list w rng ((k, none) ∷ m) h = IsAscending-mem_list w rng m h.1
IsAscending-mem_list w rng ((k, some v) ∷ m) h = elim (Bool-cases (is_key_ok rng k)) [
  | inl ok ↦ rw ok (
      IsAscending-insert_item w (record { key = k; value = v }) (sort_items w (mem_list rng m))
        (IsAscending-mem_list w rng m h.1)
        (find-sort_items w k (mem_list rng m) ∙ (find-mem_list rng k m h.1 ∙ rw (ok, h.0) refl)))
  | inr out ↦ rw out (IsAscending-mem_list w rng m h.1)
]

-- Seek of a memory store, with a prefix that is not empty, does not panic. It calls its callback, until that
-- answers false, on a list in strict order, backwards if asked, of the keys in the range and the values that
-- Get finds under them. The keys of the map are taken to be distinct.
pub seek_memory_lem :
    {X : Type 0} (rng : SeekRange) (f : Callback X) (s : MemoryStore) (x : X) (b : ℕ) (p : List ℕ)
    → rng.prefix ≡ b ∷ p
    → HasOnce (if is_storage b then s.stor else s.mem)
    → (l : List KeyValue) × (seek_memory rng f s x ≡ some (visit f l x).1)
      × IsAscending rng.backwards l
      × ((c : ℕ) (k : List ℕ)
          → find (c ∷ k) l ≡ (if is_key_ok rng (c ∷ k) then value_of (get (c ∷ k) s) else none))
unfolding seek_memory get
seek_memory_lem rng f s x b p prefix once =
    let m = if is_storage b then s.stor else s.mem in
    let l = sort_items rng.backwards (mem_list rng m) in
    (
      l,
      ap
          (λ (q : List ℕ).
            choose_map q s >>= λ m. some (visit f (sort_items rng.backwards (mem_list rng m)) x).1)
          prefix,
      IsAscending-mem_list rng.backwards rng m once,
      λ c k.
          find-sort_items rng.backwards (c ∷ k) (mem_list rng m)
          ∙ (find-mem_list rng (c ∷ k) m once ∙ elim (Bool-cases (is_key_ok rng (c ∷ k))) [
            | inl ok ↦ rw (ok, prefix_head rng b c p k prefix ok) refl
            | inr out ↦ rw out refl
          ]),
    )
