-- ===== src/Storage/Cached.antt =====
-- pkg/core/storage/memcached_store.go: MemCachedStore. Persist of a store that is not private has three
-- moments, between which other calls may come: the maps are handed to a temporary store, they are written
-- to the store below, and the temporary store is dropped or taken back.
use epicchain_go.Common.{
  ◌>>=◌, ◌&&◌, ℕ, ◌+◌, Bool, true, false, not, ◌==◌, Option, none, some, List, lookup, bytes_eq,
  length, if◌then◌else◌,
}
use epicchain_go.Storage.Memory.{
  Found, key_not_found, found, Values, MemoryStore, new_memory_store, choose_map, put_chosen,
  put_all,
}

-- The calls of a Store that a cache makes.
pub record Store (S E : Type 0) : Type 0 where
  pub read : List ℕ → S → Option Found
  pub write : Values → Values → S → Option E × S

-- What lies below: the store, or a temporary store over it, while its maps are being written.
pub data Lower (S : Type 0) : Type 0 where
  direct : S → Lower S
  through : MemoryStore → S → Lower S

-- `closed` is that the maps are nil, as a private store's are after Persist.
pub record MemCachedStore (S : Type 0) : Type 0 where
  pub maps : MemoryStore
  pub closed : Bool
  pub private : Bool
  pub ps : Lower S

-- The map's answer, or that of the store below.
abbrev pub or_below : Option (Option (List ℕ)) → Option Found → Option Found
or_below (some none) below = some key_not_found
or_below (some (some val)) below = some (found val)
or_below none below = below

-- Get on a cache with these maps.
unfoldable pub get_over : List ℕ → MemoryStore → Option Found → Option Found
get_over key maps below = do m ← choose_map key maps; or_below (lookup key m) below

module _ {S E : Type 0} (api : Store S E) where
  abbrev pub new_mem_cached_store : S → MemCachedStore S
  new_mem_cached_store lower = record {
    maps = new_memory_store;
    closed = false;
    private = false;
    ps = direct lower;
  }

  abbrev pub new_private_mem_cached_store : S → MemCachedStore S
  new_private_mem_cached_store lower = record {
    maps = new_memory_store;
    closed = false;
    private = true;
    ps = direct lower;
  }

  abbrev pub get_lower : List ℕ → Lower S → Option Found
  get_lower key (direct s) = api.read key s
  get_lower key (through temp s) = get_over key temp (api.read key s)

  unfoldable pub get_cached : List ℕ → MemCachedStore S → Option Found
  get_cached key s = get_over key s.maps (get_lower key s.ps)

  unfoldable pub put_cached :
      List ℕ → Option (List ℕ) → MemCachedStore S → Option (MemCachedStore S)
  put_cached key value s = do
    maps ← put_chosen key value s.maps
    if s.closed then none else some (record s { maps = maps })

  unfoldable pub delete_cached : List ℕ → MemCachedStore S → Option (MemCachedStore S)
  delete_cached key s = put_cached key none s

  unfoldable pub put_change_set_cached :
      Values → Values → MemCachedStore S → Option (MemCachedStore S)
  put_change_set_cached puts stores s =
      if s.closed && not (length puts + length stores == 0)
      then none
      else some (record s {
        maps = record { mem = put_all puts s.maps.mem; stor = put_all stores s.maps.stor };
      })

  abbrev pub keys : MemoryStore → ℕ
  keys maps = length maps.mem + length maps.stor

  -- s.ps = tempstore, with the maps; s starts with new ones.
  abbrev pub hand_over : MemoryStore → Lower S → MemCachedStore S → MemCachedStore S
  hand_over maps (direct lower) s = record s { maps = new_memory_store; ps = through maps lower }
  hand_over maps (through temp lower) s = s

  abbrev pub flush_lower : Lower S → MemCachedStore S → Option E × MemCachedStore S
  flush_lower (direct lower) s = (none, s)
  flush_lower (through temp lower) s =
      let (err, lower') = api.write temp.mem temp.stor lower in
      (err, record s { ps = through temp lower' })

  -- err = tempstore.ps.PutChangeSet(tempstore.mem, tempstore.stor)
  unfoldable pub flush : MemCachedStore S → Option E × MemCachedStore S
  flush s = flush_lower s.ps s

  abbrev pub take_back_lower : Option E → Lower S → MemCachedStore S → MemCachedStore S
  take_back_lower err (direct lower) s = s
  take_back_lower none (through temp lower) s = record s { ps = direct lower }
  take_back_lower (some e) (through temp lower) s = record s {
    maps = record { mem = put_all s.maps.mem temp.mem; stor = put_all s.maps.stor temp.stor };
    ps = direct lower;
  }

  -- The end of persist, by the error that the write answered.
  unfoldable pub take_back : Option E → MemCachedStore S → MemCachedStore S
  take_back err s = take_back_lower err s.ps s

  abbrev pub end_private : Option E → S → MemCachedStore S → (ℕ × Option E) × MemCachedStore S
  end_private none lower s =
      ((keys s.maps, none), record s { maps = new_memory_store; closed = true; ps = direct lower })
  end_private (some e) lower s = ((0, some e), record s { ps = direct lower })

  abbrev pub persist_private : Lower S → MemCachedStore S → (ℕ × Option E) × MemCachedStore S
  persist_private (direct lower) s =
      let (err, lower') = api.write s.maps.mem s.maps.stor lower in end_private err lower' s
  persist_private (through temp lower) s = ((0, none), s)

  -- Persist without another call in between, as PersistSync runs it. A second Persist waits for the first
  -- (plock), so there is no temporary store when it starts.
  unfoldable pub persist : MemCachedStore S → (ℕ × Option E) × MemCachedStore S
  persist s =
      let n = keys s.maps in
      let (err, s1) = flush (hand_over s.maps s.ps s) in
      if n == 0
      then ((0, none), s)
      else if s.private
      then persist_private s.ps s
      else ((n, err), take_back err s1)
