-- ===== src/Storage/Scan.antt =====
-- pkg/core/storage/memcached_store.go: Seek of a cache, the snapshot of its map and performSeek on it.
use epicchain_go.Common.{
  ℕ, ◌≡◌, ◌≢◌, refl, ap, ◌∙◌, inl, inr, true, false, Option, none, some, List, [], ◌∷◌, ◌>>=◌,
  arith, All, lookup, bytes_eq, bytes_beq_iff, Bool-cases, if◌then◌else◌,
}
use epicchain_go.Storage.Types.{KeyValue, KeyValueExists, SeekRange, is_key_ok}
use epicchain_go.Storage.Seek.{Callback, visit, perform_seek, lower_range}
use epicchain_go.Storage.Merge.{IsAscending}
use epicchain_go.Storage.View.{find, cached, over, HasKeysOnce}
use epicchain_go.Storage.SeekLaw.{reached}
use epicchain_go.Storage.Sorted.{perform_seek-Sorted}
use epicchain_go.Storage.Memory.{Found, key_not_found, found, Values, choose_map}
use epicchain_go.Storage.Cached.{Store, MemCachedStore, or_below, get_over, get_lower, get_cached}
use epicchain_go.Storage.CachedView.{home}

abbrev pub entry : List ℕ → Option (List ℕ) → KeyValueExists
entry k none = record { key = k; value = []; exists = false }
entry k (some v) = record { key = k; value = v; exists = true }

-- The items of the map that are in the range.
unfoldable pub snapshot : SeekRange → Values → List KeyValueExists
snapshot rng [] = []
snapshot rng ((k, v) ∷ m) =
    let rest = snapshot rng m in if is_key_ok rng k then entry k v ∷ rest else rest

-- prepareSeekMemSnapshot: the map of the prefix, which panics on an empty one.
unfoldable pub prepare_seek_mem_snapshot :
    {S : Type 0} → SeekRange → MemCachedStore S → Option (List KeyValueExists)
prepare_seek_mem_snapshot rng s = choose_map rng.prefix s.maps >>= λ m. some (snapshot rng m)

-- Seek, with what Seek of the layer below hands out.
unfoldable pub seek :
    {S X : Type 0}
    → SeekRange
    → Callback X
    → (SeekRange → List KeyValue)
    → MemCachedStore S
    → X
    → Option X
seek rng f ps s x =
    prepare_seek_mem_snapshot rng s >>= λ mem_res. some (perform_seek rng false f ps mem_res x)

-- A map's keys, each once.
abbrev pub HasOnce : Values → Type 0
HasOnce [] = Unit
HasOnce ((k, v) ∷ m) = (lookup k m ≡ none) × HasOnce m

cached-snapshot :
    (rng : SeekRange) (k : List ℕ) (m : Values)
    → cached k (snapshot rng m) ≡ (if is_key_ok rng k then lookup k m else none)
unfolding cached snapshot lookup
cached-snapshot rng k [] = ground arith
cached-snapshot rng k ((j, none) ∷ m) = ground (arith, bytes_beq_iff j k, cached-snapshot rng k m)
cached-snapshot rng k ((j, some v) ∷ m) = ground (arith, bytes_beq_iff j k, cached-snapshot rng k m)

key-entry : (k : List ℕ) (v : Option (List ℕ)) → (entry k v).key ≡ k
key-entry k none = refl
key-entry k (some v) = refl

HasKeysOnce-snapshot : (rng : SeekRange) (m : Values) → HasOnce m → HasKeysOnce (snapshot rng m)
unfolding snapshot
HasKeysOnce-snapshot rng [] h = tt
HasKeysOnce-snapshot rng ((k, v) ∷ m) h = elim (Bool-cases (is_key_ok rng k)) [
  | inl ok ↦
      rw (ok, key-entry k v)
        (cached-snapshot rng k m ∙ rw (ok, h.0) refl, HasKeysOnce-snapshot rng m h.1)
  | inr out ↦ rw out (HasKeysOnce-snapshot rng m h.1)
]

abbrev pub value_of : Option Found → Option (List ℕ)
value_of none = none
value_of (some key_not_found) = none
value_of (some (found v)) = some v

over-value_of :
    (o : Option (Option (List ℕ))) (below : Option Found)
    → over o (value_of below) ≡ value_of (or_below o below)
over-value_of none below = refl
over-value_of (some none) below = refl
over-value_of (some (some v)) below = refl

pub prefix_head :
    (rng : SeekRange) (b c : ℕ) (p k : List ℕ)
    → rng.prefix ≡ b ∷ p
    → is_key_ok rng (c ∷ k) ≡ true
    → c ≡ b
unfolding is_key_ok
prefix_head rng b c p k e ok = ground arith

-- With a prefix that is not empty there is no panic.
seek_runs :
    {S X : Type 0} (rng : SeekRange) (f : Callback X) (ps : SeekRange → List KeyValue)
    (s : MemCachedStore S) (x : X) (b : ℕ) (p : List ℕ)
    → rng.prefix ≡ b ∷ p
    → seek rng f ps s x
      ≡ some (perform_seek rng false f ps (snapshot rng (home b s.maps.mem s.maps.stor)) x)
unfolding seek prepare_seek_mem_snapshot
seek_runs rng f ps s x b p prefix =
    ap
      (λ (q : List ℕ). (choose_map q s.maps >>= λ m. some (snapshot rng m)) >>= λ mem_res.
        some (perform_seek rng false f ps mem_res x))
      prefix

-- Seek with a prefix that is not empty and SearchDepth 0, through all layers, does not panic. It calls its callback, until
-- that answers false, on a list in strict order, backwards if asked, of the keys in the range and the
-- values that Get finds under them. The keys of the cache's map are taken to be distinct, and the layer
-- below to hand out its items in the same way: in strict order, with keys that are not empty, in the range,
-- and with the values of its Get.
pub seek_lem :
    {S E X : Type 0} (api : Store S E) (rng : SeekRange) (f : Callback X)
    (ps : SeekRange → List KeyValue) (s : MemCachedStore S) (x : X) (b : ℕ) (p : List ℕ)
    → rng.prefix ≡ b ∷ p
    → rng.search_depth ≡ 0
    → HasOnce (home b s.maps.mem s.maps.stor)
    → IsAscending rng.backwards (ps rng)
    → All (λ (q : KeyValue). q.key ≢ []) (ps rng)
    → ((k : List ℕ)
        → find k (ps rng) ≡ (if is_key_ok rng k then value_of (get_lower api k s.ps) else none))
    → (l : List KeyValue) × (seek rng f ps s x ≡ some (visit f l x).1)
      × IsAscending rng.backwards l
      × ((c : ℕ) (k : List ℕ)
          → find (c ∷ k) l
            ≡ (if is_key_ok rng (c ∷ k) then value_of (get_cached api (c ∷ k) s) else none))
unfolding get_cached get_over
seek_lem api rng f ps s x b p prefix deep once asc keys reads =
    let m = home b s.maps.mem s.maps.stor in
    let same : lower_range rng ≡ rng = rw deep refl in
    let all : reached rng ps ≡ ps rng = rw (deep) refl in
    let (l, runs, sorted, finds) =
      perform_seek-Sorted rng f ps (snapshot rng m) x (HasKeysOnce-snapshot rng m once)
        (rw same asc) (rw same keys) in
    (
      l,
      seek_runs rng f ps s x b p prefix ∙ ap (λ z. some z) runs,
      sorted,
      λ c k.
          finds (c ∷ k)
          ∙ rw (all, cached-snapshot rng (c ∷ k) m, reads (c ∷ k))
              (elim (Bool-cases (is_key_ok rng (c ∷ k))) [
                | inl ok ↦
                    rw (ok, prefix_head rng b c p k prefix ok)
                      (over-value_of (lookup (b ∷ k) m) (get_lower api (b ∷ k) s.ps))
                | inr out ↦ rw out refl
              ]),
    )
