-- ===== src/Storage/Runs.antt =====
-- pkg/core/storage: a cache over a memory store, and the theorems at it.
use epicchain_go.Common.{
  delete, subst, Bool-cases, inl, inr, bytes_beq, bytes_beq_iff, if◌then◌else◌, ℕ, ◌≡◌, refl, true,
  false, none, some, List, [], ◌∷◌, arith, lookup, insert, bytes_eq,
}
use epicchain_go.Storage.Types.{is_key_ok, KeyValue, KeyValueExists, SeekRange, less}
use epicchain_go.Storage.Seek.{visit, perform_seek}
use epicchain_go.Storage.Merge.{IsAscending}
use epicchain_go.Storage.View.{find, cached, over}
use epicchain_go.Storage.SeekLaw.{reached}
use epicchain_go.Storage.Sorted.{perform_seek-Sorted}
use epicchain_go.Storage.CutPrefix.{collect, range_of, cut_prefix_skips}
use epicchain_go.Storage.Memory.{get, key_not_found, MemoryStore, new_memory_store}
use epicchain_go.Storage.Cached.{
  Store, direct, through, MemCachedStore, get_cached, get_over, get_lower, put_cached, persist,
  flush, take_back,
}
use epicchain_go.Storage.CachedView.{IsKeyed, sets, nothing}
use epicchain_go.Storage.Persist.{
  here, next, puts, begins, writes, ends, effects, persist_unseen, persist_durable,
}
use epicchain_go.Storage.Scan.{seek, value_of, seek_lem}
use epicchain_go.Storage.MemorySeek.{
  mem_list, insert_item, sort_items, seek_memory, seek_gc, seek_memory_lem,
}
use epicchain_go.Storage.MemoryLaw.{memory_api, memory_api-IsLawful}

abbrev api : Store MemoryStore Unit
api = memory_api

-- The lower store has two keys; the cache has deleted one of them and put another.
abbrev lower_items : List KeyValue
lower_items =
    record { key = 1 ∷ (2 ∷ []); value = 20 ∷ [] }
    ∷ (record { key = 1 ∷ (4 ∷ []); value = 40 ∷ [] } ∷ [])

abbrev cache_items : List KeyValueExists
cache_items =
    record { key = 1 ∷ (4 ∷ []); value = []; exists = false }
    ∷ (record { key = 1 ∷ (3 ∷ []); value = 30 ∷ []; exists = true } ∷ [])

abbrev range : SeekRange
range = range_of (1 ∷ [])

perform_seek-Sorted_example :
    (l : List KeyValue) × (perform_seek range false collect (λ r. lower_items) cache_items []
      ≡ (visit collect l []).1)
    × IsAscending false l
    × ((k : List ℕ)
        → find k l ≡ over (cached k cache_items) (find k (reached range (λ r. lower_items))))
unfolding less cached
perform_seek-Sorted_example =
    perform_seek-Sorted range collect (λ r. lower_items) cache_items [] (refl, (refl, tt))
      ((refl, tt), (tt, tt)) ((λ e. cc), ((λ e. cc), tt))

-- An item of the lower store behind the two.
abbrev other : KeyValue
other = record { key = 1 ∷ (6 ∷ []); value = 9 ∷ [] }

cut_prefix_skips_example :
    (perform_seek
        (range_of (1 ∷ []))
        false
        collect
        (λ r. record { key = 1 ∷ (5 ∷ []); value = 8 ∷ [] } ∷ (other ∷ []))
        (record { key = 1 ∷ (1 ∷ (5 ∷ [])); value = 7 ∷ []; exists = true } ∷ [])
        []
      ≡ record { key = 1 ∷ (1 ∷ (5 ∷ [])); value = 7 ∷ [] }
        ∷ (record { key = 1 ∷ (5 ∷ []); value = 8 ∷ [] } ∷ (other ∷ [])))
    × (perform_seek
          (range_of (1 ∷ []))
          true
          collect
          (λ r. record { key = 1 ∷ (5 ∷ []); value = 8 ∷ [] } ∷ (other ∷ []))
          (record { key = 1 ∷ (1 ∷ (5 ∷ [])); value = 7 ∷ []; exists = true } ∷ [])
          []
        ≡ record { key = 1 ∷ (5 ∷ []); value = 7 ∷ [] }
          ∷ (record { key = 6 ∷ []; value = 9 ∷ [] } ∷ []))
unfolding less
cut_prefix_skips_example =
    cut_prefix_skips (1 ∷ []) (5 ∷ []) (7 ∷ []) (8 ∷ []) (other ∷ []) refl (refl, tt)

-- A cache with one key of contract storage, over a store with another value under it.
abbrev key : List ℕ
key = 0x70 ∷ (9 ∷ [])

abbrev lower : MemoryStore
lower = record { mem = []; stor = (key, some (1 ∷ [])) ∷ [] }

abbrev cache : MemCachedStore MemoryStore
cache = record {
  maps = record { mem = []; stor = (key, some (2 ∷ [])) ∷ [] };
  closed = false;
  private = false;
  ps = direct lower;
}

abbrev handed : MemCachedStore MemoryStore
handed = record cache {
  maps = record { mem = []; stor = [] };
  ps = through (record { mem = []; stor = (key, some (2 ∷ [])) ∷ [] }) lower;
}

abbrev deleted : MemCachedStore MemoryStore
deleted = record handed { maps = record { mem = []; stor = (key, none) ∷ [] } }

cache-IsKeyed : IsKeyed cache.maps.mem cache.maps.stor
unfolding lookup
cache-IsKeyed b k = ground arith

-- The key is deleted while the cache is being written.
persist_unseen_example :
    get_cached api key (take_back api (flush api deleted).0 (flush api deleted).1)
    ≡ effects api
        (nothing ∷ (nothing ∷ (sets key none ∷ (nothing ∷ []))))
        0x70
        (9 ∷ [])
        (get_cached api key cache)
unfolding new_memory_store put_cached insert
persist_unseen_example =
    persist_unseen api cache lower (nothing ∷ (nothing ∷ (sets key none ∷ (nothing ∷ []))))
      (record { store = take_back api (flush api deleted).0 (flush api deleted).1; answer = none })
      memory_api-IsLawful cache-IsKeyed refl
      (next
        (next
          (next (next here (begins cache lower refl))
            (puts 0x70 (9 ∷ []) none handed deleted none refl))
          (writes deleted cache.maps lower refl))
        (ends (flush api deleted).1 (flush api deleted).0))
      0x70 (9 ∷ [])

deletion_read :
    get_cached api key (take_back api (flush api deleted).0 (flush api deleted).1)
    ≡ some key_not_found
unfolding get_cached get_over flush take_back lookup memory_api
deletion_read = refl

persist_durable_example : get_lower api key (persist api cache).1.ps ≡ get_cached api key cache
unfolding persist flush memory_api
persist_durable_example =
    persist_durable api cache lower memory_api-IsLawful cache-IsKeyed refl refl 0x70 (9 ∷ [])

-- What the store below has in the range of contract storage.
abbrev stored_items : SeekRange → List KeyValue
stored_items r = record { key = key; value = 1 ∷ [] } ∷ []

abbrev storage_range : SeekRange
storage_range = range_of (0x70 ∷ [])

stored_items_read :
    (k : List ℕ)
    → find k (stored_items storage_range)
      ≡ (if is_key_ok storage_range k then value_of (get_lower api k cache.ps) else none)
unfolding find is_key_ok memory_api get lookup
stored_items_read [] = refl
stored_items_read (c ∷ k) = elim (Bool-cases (bytes_beq key (c ∷ k))) [
  | inl same ↦
      subst
        (λ (j : List ℕ).
          find j (stored_items storage_range)
          ≡ (if is_key_ok storage_range j then value_of (get_lower api j cache.ps) else none))
        ((bytes_beq_iff key (c ∷ k)).0 same) refl
  | inr other ↦ rw other (ground arith)
]

seek_lem_example :
    (l : List KeyValue) × (seek storage_range collect stored_items cache []
      ≡ some (visit collect l []).1)
    × IsAscending false l
    × ((c : ℕ) (k : List ℕ)
        → find (c ∷ k) l ≡ (
            if is_key_ok storage_range (c ∷ k)
            then value_of (get_cached api (c ∷ k) cache)
            else none))
unfolding lookup
seek_lem_example =
    seek_lem api storage_range collect stored_items cache [] 0x70 [] refl refl (refl, tt) (tt, tt)
      ((λ e. cc), tt) stored_items_read

seek_memory_lem_example :
    (l : List KeyValue) × (seek_memory storage_range collect lower [] ≡ some (visit collect l []).1)
    × IsAscending false l
    × ((c : ℕ) (k : List ℕ)
        → find (c ∷ k) l
          ≡ (if is_key_ok storage_range (c ∷ k) then value_of (get (c ∷ k) lower) else none))
unfolding lookup
seek_memory_lem_example = seek_memory_lem storage_range collect lower [] 0x70 [] refl (refl, tt)

-- SeekGC that keeps nothing of contract storage.
storage_dropped : seek_gc storage_range (λ kv. false) lower ≡ some (record { mem = []; stor = [] })
unfolding seek_gc seek_memory mem_list sort_items insert_item visit is_key_ok delete
storage_dropped = refl
