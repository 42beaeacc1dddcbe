-- ===== src/Mempool/Query.antt =====
-- pkg/core/mempool/mem_pool.go: the readers (Count, TryGetValue, TryGetData, GetVerifiedTransactions,
-- IterateVerifiedTransactions) and SetResendThreshold.
use Prim.Native.Nat.{Ordering}
use epicchain_go.Common.{
  ℕ, Bool, true, false, Option, none, some, List, [], ◌∷◌, nat_eq, lookup, length, drop, ◌==◌,
  if◌then◌else◌, map,
}
use epicchain_go.Common.Search.{search_first}
use epicchain_go.Mempool.Types.{Transaction, Item, Pool, compare_to}

unfoldable pub count : Pool → ℕ
count p = length p.verified_txes

unfoldable pub try_get_value : ℕ → Pool → Option Transaction
try_get_value hash p = lookup hash p.verified_map

abbrev pub is_ge : Ordering → Bool
is_ge Ordering.lt = false
is_ge _ = true

abbrev pub is_eq : Ordering → Bool
is_eq Ordering.eq = true
is_eq _ = false

-- The scan from the left bound on, while the items have the priority of `itm`.
unfoldable pub scan : Item → ℕ → List Item → Option (Option ℕ)
scan itm hash [] = none
scan itm hash (x ∷ xs) =
    if x.txn.hash == hash
    then some x.extra
    else if is_eq (compare_to itm x)
    then scan itm hash xs
    else none

abbrev data_of : ℕ → List Item → Option Transaction → Option (Option ℕ)
data_of hash l none = none
data_of hash l (some t) =
    let itm : Item = record { txn = t; block_stamp = 0; extra = none } in
    scan itm hash (drop (search_first (λ other. is_ge (compare_to itm other)) l) l)

-- `none` is (nil, false).
unfoldable pub try_get_data : ℕ → Pool → Option (Option ℕ)
unfolding scan
try_get_data hash p = data_of hash p.verified_txes (lookup hash p.verified_map)

unfoldable pub get_verified_transactions : Pool → List Transaction
get_verified_transactions p = map (λ (i : Item). i.txn) p.verified_txes

-- IterateVerifiedTransactions: the state of the callback, while it answers true.
module _ {S : Type 0} (cont : Transaction → Option ℕ → S → Bool × S) where
  unfoldable pub iterate : List Item → S → S
  iterate [] s = s
  iterate (i ∷ is) s =
      let (more, s') = cont i.txn i.extra s in let rest = iterate is s' in if more then rest else s'

  unfoldable pub iterate_verified_transactions : Pool → S → S
  unfolding iterate
  iterate_verified_transactions p = iterate p.verified_txes

unfoldable pub set_resend_threshold : ℕ → Pool → Pool
set_resend_threshold h p = record p { resend_threshold = h }
