-- ===== src/Storage/Memory.antt =====
-- pkg/core/storage/memory_store.go: MemoryStore, two maps by the first byte of the key. A nil value is
-- `none`, and so is the answer of a call that panics.
use epicchain_go.Common.{
  ◌>>=◌, ℕ, Bool, ◌||◌, ◌==◌, Option, none, some, List, [], ◌∷◌, Map, bytes_eq, lookup, insert,
  if◌then◌else◌,
}

-- ErrKeyNotFound and a value that was found
pub data Found : Type 0 where
  key_not_found : Found
  found : List ℕ → Found

abbrev pub Values : Type 0
Values = Map (List ℕ) (Option (List ℕ))

pub record MemoryStore : Type 0 where
  pub mem : Values
  pub stor : Values

unfoldable pub new_memory_store : MemoryStore
new_memory_store = record { mem = []; stor = [] }

-- STStorage and STTempStorage
abbrev pub is_storage : ℕ → Bool
is_storage b = (b == 0x70) || (b == 0x71)

-- The map for a key: `stor` or `mem`; key[0] panics on an empty key.
abbrev pub choose_map : List ℕ → MemoryStore → Option Values
choose_map [] s = none
choose_map (b ∷ key) s = some (if is_storage b then s.stor else s.mem)

abbrev pub or_not_found : Option (Option (List ℕ)) → Found
or_not_found (some (some val)) = found val
or_not_found (some none) = key_not_found
or_not_found none = key_not_found

unfoldable pub get : List ℕ → MemoryStore → Option Found
get key s = do m ← choose_map key s; some (or_not_found (lookup key m))

-- put(s.chooseMap(key), key, value)
abbrev pub put_chosen : List ℕ → Option (List ℕ) → MemoryStore → Option MemoryStore
put_chosen [] value s = none
put_chosen (b ∷ key) value s = some (
    if is_storage b
    then record s { stor = insert (b ∷ key) value s.stor }
    else record s { mem = insert (b ∷ key) value s.mem })

-- for k := range puts { put(m, k, puts[k]) }
unfoldable pub put_all : Values → Values → Values
put_all [] m = m
put_all ((k, v) ∷ puts) m = insert k v (put_all puts m)

unfoldable pub put_change_set : Values → Values → MemoryStore → MemoryStore
put_change_set puts stores s = record { mem = put_all puts s.mem; stor = put_all stores s.stor }
