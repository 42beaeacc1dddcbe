-- ===== src/Storage/MemoryLaw.antt =====
-- pkg/core/storage/memory_store.go: MemoryStore as the store below a cache.
use epicchain_go.Common.{
  ℕ, ◌≡◌, refl, inl, inr, Option, none, some, List, ◌∷◌, lookup, Bool-cases, bytes_eq,
}
use epicchain_go.Storage.Memory.{MemoryStore, is_storage, or_not_found, get, put_change_set}
use epicchain_go.Storage.Cached.{Store, or_below}
use epicchain_go.Storage.CachedView.{IsLawful, first_of, lookup-put_all}

-- Its PutChangeSet never answers an error.
unfoldable pub memory_api : {E : Type 0} → Store MemoryStore E
memory_api = record { read = get; write = λ puts stores s. (none, put_change_set puts stores s) }

or_not_found-first :
    (a b : Option (Option (List ℕ)))
    → some (or_not_found (first_of a b)) ≡ or_below a (some (or_not_found b))
or_not_found-first none b = refl
or_not_found-first (some none) b = refl
or_not_found-first (some (some v)) b = refl

pub memory_api-IsLawful : {E : Type 0} → IsLawful (memory_api {E = E})
unfolding memory_api get put_change_set
memory_api-IsLawful = record {
  written = λ puts stores s keyed e b k. elim (Bool-cases (is_storage b)) [
    | inl st ↦
        rw (st, lookup-put_all (b ∷ k) stores s.stor)
          (or_not_found-first (lookup (b ∷ k) stores) (lookup (b ∷ k) s.stor))
    | inr st ↦
        rw (st, lookup-put_all (b ∷ k) puts s.mem)
          (or_not_found-first (lookup (b ∷ k) puts) (lookup (b ∷ k) s.mem))
  ];
  refused = λ puts stores s err e b k. cc;
}
