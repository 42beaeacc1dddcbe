-- ===== src/Storage/Merge.antt =====
-- pkg/core/storage/memcached_store.go: a reference for performSeek, the merge of two lists in order.
use epicchain_go.Common.{
  ℕ, ◌≡◌, refl, Bool, true, false, List, [], ◌∷◌, ◌++◌, arith, All, Bool-cases, bytes_beq,
  bytes_beq_iff, if◌then◌else◌, inl, inr,
}
use epicchain_go.Storage.Types.{KeyValue, KeyValueExists, less}
use epicchain_go.Storage.Seek.{Callback, visit}
use epicchain_go.Storage.Order.{less_irrefl, less_trans}

-- The items of the cache that exist.
unfoldable pub live : List KeyValueExists → List KeyValue
live [] = []
live (m ∷ ms) =
    let rest = live ms in if m.exists then record { key = m.key; value = m.value } ∷ rest else rest

-- The items before a key, and those from it on.
unfoldable pub below : Bool → List ℕ → List KeyValueExists → List KeyValueExists
below w k [] = []
below w k (m ∷ ms) = let rest = below w k ms in if less w m.key k then m ∷ rest else []

unfoldable pub from : Bool → List ℕ → List KeyValueExists → List KeyValueExists
from w k [] = []
from w k (m ∷ ms) = let rest = from w k ms in if less w m.key k then rest else m ∷ ms

-- An item of the lower store, unless the cache has its key.
unfoldable pub unless_cached : KeyValue → List KeyValueExists → List KeyValue
unless_cached p [] = p ∷ []
unless_cached p (m ∷ ms) = if bytes_beq m.key p.key then [] else p ∷ []

-- Two sorted lists as one: what exists in the cache, and what the lower store has and the cache has not.
unfoldable pub merge : Bool → List KeyValueExists → List KeyValue → List KeyValue
merge w ms [] = live ms
merge w ms (p ∷ ps) =
    let ms' = from w p.key ms in live (below w p.key ms) ++ (unless_cached p ms' ++ merge w ms' ps)

pub visit-append :
    {X : Type 0} (f : Callback X) (l m : List KeyValue) (x : X)
    → visit f (l ++ m) x
      ≡ (if (visit f l x).0 then visit f m (visit f l x).1 else (false, (visit f l x).1))
unfolding visit
visit-append f [] m x = refl
visit-append f (kv ∷ l) m x = elim (Bool-cases (f kv x).0) [
  | inl more ↦ rw more (visit-append f l m (f kv x).1)
  | inr stop ↦ rw stop refl
]

-- The Boolean test of equality that the code makes fails.
abbrev pub Unlike : List ℕ → KeyValue → Type 0
Unlike k p = bytes_beq k p.key ≡ false

pub less-Unlike_one : (w : Bool) (k : List ℕ) (p : KeyValue) → less w k p.key ≡ true → Unlike k p
less-Unlike_one w k p h = ground (arith, less_irrefl w k, bytes_beq_iff k p.key)

-- The items stand in strict order.
abbrev pub IsAscending : Bool → List KeyValue → Type 0
IsAscending w [] = Unit
IsAscending w (p ∷ ps) = All (λ (q : KeyValue). less w p.key q.key ≡ true) ps × IsAscending w ps

-- A key before one of the items in order is none of those from it on.
pub less-Unlike :
    (w : Bool) (k : List ℕ) (p : KeyValue) (ps : List KeyValue)
    → less w k p.key ≡ true
    → All (λ q. less w p.key q.key ≡ true) ps
    → Unlike k p × All (Unlike k) ps
less-Unlike w k p [] h above = (less-Unlike_one w k p h, tt)
less-Unlike w k p (q ∷ ps) h above = (
  less-Unlike_one w k p h,
  (
    less-Unlike_one w k q (less_trans w k p.key q.key h above.0),
    (less-Unlike w k p ps h above.1).1,
  ),
)
