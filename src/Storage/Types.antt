-- ===== src/Storage/Types.antt =====
-- pkg/core/storage: keys, ranges and the order of keys. A byte string is a list of numbers, and a missing
-- (nil) slice is an empty one, but for the values of the maps, where nil is `none`.
use Prim.Native.Nat.{Ordering, compare}
use epicchain_go.Common.{ℕ, Bool, true, false, not, List, [], ◌∷◌, ◌&&◌, ◌||◌, ◌==◌, length, drop}

pub record KeyValue : Type 0 where
  pub key : List ℕ
  pub value : List ℕ

pub record KeyValueExists : Type 0 where
  pub key : List ℕ
  pub value : List ℕ
  pub exists : Bool

pub record SeekRange : Type 0 where
  pub prefix : List ℕ
  pub start : List ℕ
  pub backwards : Bool
  pub search_depth : ℕ

-- bytes.Compare and strings.Compare
abbrev pub compare_then : Ordering → Ordering → Ordering
compare_then Ordering.lt o = Ordering.lt
compare_then Ordering.eq o = o
compare_then Ordering.gt o = Ordering.gt

abbrev pub compare_bytes : List ℕ → List ℕ → Ordering
compare_bytes [] [] = Ordering.eq
compare_bytes [] (y ∷ ys) = Ordering.lt
compare_bytes (x ∷ xs) [] = Ordering.gt
compare_bytes (x ∷ xs) (y ∷ ys) = compare_then (compare x y) (compare_bytes xs ys)

abbrev pub less_by : Bool → Ordering → Bool
less_by backwards Ordering.eq = false
less_by backwards Ordering.gt = backwards
less_by backwards Ordering.lt = not backwards

-- res != 0 && rng.Backwards == (res > 0)
unfoldable pub less : Bool → List ℕ → List ℕ → Bool
less backwards k1 k2 = less_by backwards (compare_bytes k1 k2)

abbrev pub has_prefix : List ℕ → List ℕ → Bool
has_prefix k [] = true
has_prefix [] (y ∷ ys) = false
has_prefix (x ∷ xs) (y ∷ ys) = (x == y) && has_prefix xs ys

abbrev pub not_past : Bool → Ordering → Bool
not_past backwards Ordering.eq = true
not_past backwards Ordering.gt = not backwards
not_past backwards Ordering.lt = backwards

-- The test of a key against the range, by the direction.
unfoldable pub is_key_ok : SeekRange → List ℕ → Bool
is_key_ok rng key =
    has_prefix key rng.prefix
    && ((length rng.start == 0)
        || not_past rng.backwards (compare_bytes (drop (length rng.prefix) key) rng.start))
