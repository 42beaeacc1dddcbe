-- ===== src/Storage/Order.antt =====
-- pkg/core/storage: the order of keys, in both directions.
use Prim.Native.Nat.{Ordering}
use epicchain_go.Common.{ℕ, ◌≡◌, ◌≢◌, refl, Bool, true, false, List, [], ◌∷◌, arith}
use epicchain_go.Storage.Types.{compare_bytes, less}

compare_bytes_lt_trans :
    (a b c : List ℕ)
    → compare_bytes a b ≡ Ordering.lt
    → compare_bytes b c ≡ Ordering.lt
    → compare_bytes a c ≡ Ordering.lt
compare_bytes_lt_trans [] [] c h k = cc
compare_bytes_lt_trans [] (y ∷ b) [] h k = cc
compare_bytes_lt_trans [] (y ∷ b) (z ∷ c) h k = refl
compare_bytes_lt_trans (x ∷ a) [] c h k = cc
compare_bytes_lt_trans (x ∷ a) (y ∷ b) [] h k = cc
compare_bytes_lt_trans (x ∷ a) (y ∷ b) (z ∷ c) h k = ground (arith, compare_bytes_lt_trans a b c)

pub compare_bytes_eq : (a b : List ℕ) → compare_bytes a b ≡ Ordering.eq → a ≡ b
compare_bytes_eq [] [] h = refl
compare_bytes_eq [] (y ∷ b) h = cc
compare_bytes_eq (x ∷ a) [] h = cc
compare_bytes_eq (x ∷ a) (y ∷ b) h = ground (arith, compare_bytes_eq a b)

pub compare_bytes_refl : (a : List ℕ) → compare_bytes a a ≡ Ordering.eq
compare_bytes_refl [] = refl
compare_bytes_refl (x ∷ a) = ground (arith, compare_bytes_refl a)

compare_bytes_flip :
    (a b : List ℕ) → (compare_bytes a b ≡ Ordering.gt) → compare_bytes b a ≡ Ordering.lt
compare_bytes_flip [] [] h = cc
compare_bytes_flip [] (y ∷ b) h = cc
compare_bytes_flip (x ∷ a) [] h = refl
compare_bytes_flip (x ∷ a) (y ∷ b) h = ground (arith, compare_bytes_flip a b)

compare_bytes_flip' :
    (a b : List ℕ) → (compare_bytes a b ≡ Ordering.lt) → compare_bytes b a ≡ Ordering.gt
compare_bytes_flip' [] [] h = cc
compare_bytes_flip' [] (y ∷ b) h = refl
compare_bytes_flip' (x ∷ a) [] h = cc
compare_bytes_flip' (x ∷ a) (y ∷ b) h = ground (arith, compare_bytes_flip' a b)

pub less_irrefl : (w : Bool) (a : List ℕ) → less w a a ≡ false
unfolding less
less_irrefl w a = rw (compare_bytes_refl a) refl

pub less_trans :
    (w : Bool) (a b c : List ℕ) → less w a b ≡ true → less w b c ≡ true → less w a c ≡ true
unfolding less
less_trans w a b c h k = ground (
  arith,
  compare_bytes_lt_trans a b c,
  compare_bytes_lt_trans c b a,
  compare_bytes_flip a b,
  compare_bytes_flip b c,
  compare_bytes_flip' c a,
)

pub less_total : (w : Bool) (a b : List ℕ) → less w a b ≡ false → a ≢ b → less w b a ≡ true
unfolding less
less_total w a b h k =
    ground (arith, compare_bytes_eq a b, compare_bytes_flip a b, compare_bytes_flip' a b)
