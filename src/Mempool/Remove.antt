-- ===== src/Mempool/Remove.antt =====
-- pkg/core/mempool/mem_pool.go: removal of a transaction (removeConflictsOf, removeInternal, Remove).
use epicchain_go.Common.{
  ◌>>=◌, ℕ, suc, ◌+◌, Option, none, some, List, [], ◌∷◌, ◌++◌, nat_eq, lookup, insert, delete,
  length, take, drop, get_elem?, ltb, ◌==◌, if◌then◌else◌,
}
use epicchain_go.Mempool.Types.{
  Transaction, Item, UtilityBalanceAndFees, Pool, conflict_hashes, oracle_id, removed, notify,
  update_metrics,
}
use epicchain_go.Mempool.Fees.{account_at, total_fee, sub256}

-- One hash less, if it is there.
unfoldable pub remove_hash : ℕ → List ℕ → List ℕ
remove_hash h [] = []
remove_hash h (x ∷ xs) = if x == h then xs else x ∷ remove_hash h xs

abbrev pub drop_conflict : ℕ → ℕ → Option (List ℕ) → Pool → Pool
drop_conflict conflicts_hash hash none p = p
drop_conflict conflicts_hash hash (some l) p =
    if length l == 1
    then record p { conflicts_map = delete conflicts_hash p.conflicts_map }
    else record p { conflicts_map = insert conflicts_hash (remove_hash hash l) p.conflicts_map }

unfoldable pub remove_conflicts : ℕ → List ℕ → Pool → Pool
unfolding remove_hash
remove_conflicts hash [] p = p
remove_conflicts hash (h ∷ hs) p =
    remove_conflicts hash hs (drop_conflict h hash (lookup h p.conflicts_map) p)

unfoldable pub remove_conflicts_of : Transaction → Pool → Pool
unfolding remove_conflicts conflict_hashes
remove_conflicts_of t p = remove_conflicts t.hash (conflict_hashes t) p

abbrev pub delete_oracle : Option ℕ → Pool → Pool
delete_oracle none p = p
delete_oracle (some id) p = record p { oracle_resp = delete id p.oracle_resp }

unfoldable pub remove_oracle_of : Transaction → Pool → Pool
unfolding oracle_id
remove_oracle_of t p = delete_oracle (oracle_id t) p

-- The index at which the loop over the items breaks; the last one if it does not break.
unfoldable pub index_of : ℕ → List Item → ℕ
index_of hash [] = 0
index_of hash (x ∷ []) = 0
index_of hash (x ∷ (y ∷ ys)) = if x.txn.hash == hash then 0 else suc (index_of hash (y ∷ ys))

unfoldable pub remove_at : ℕ → List Item → List Item
remove_at num l =
    if ltb (num + 1) (length l)
    then take num l ++ drop (num + 1) l
    else if num + 1 == length l
    then take num l
    else l

-- mp.fees[payer], whose zero value is what a missing key gives
abbrev pub entry_or_zero : Option UtilityBalanceAndFees → UtilityBalanceAndFees
entry_or_zero (some f) = f
entry_or_zero none = record { balance = 0; fee_sum = 0 }

unfoldable pub release_fee : ℕ → Transaction → Pool → Pool
unfolding total_fee
release_fee payer t p =
    let f = entry_or_zero (lookup payer p.fees) in
    record p { fees = insert payer (record f { fee_sum = sub256 f.fee_sum (total_fee t) }) p.fees }

-- The writes of removeInternal: map, slice, fees, conflicts and oracle responses, and the event.
unfoldable pub removed_pool : Transaction → ℕ → ℕ → Item → ℕ → Pool → Pool
removed_pool t hash num itm payer p =
    let p1 = record p {
      verified_map = delete hash p.verified_map;
      verified_txes = remove_at num p.verified_txes;
    } in
    notify (removed itm.txn itm.extra)
      (remove_oracle_of t (remove_conflicts_of t (release_fee payer t p1)))

-- The body of removeInternal for a transaction that is in the map.
unfoldable pub remove_found : Transaction → ℕ → Pool → Option Pool
remove_found t hash p = do
  let num = index_of hash p.verified_txes
  itm ← get_elem? p.verified_txes num
  payer ← account_at itm.txn p.payer_index
  some (removed_pool t hash num itm payer p)

abbrev pub remove_looked_up : Option Transaction → ℕ → Pool → Option Pool
remove_looked_up none hash p = some p
remove_looked_up (some t) hash p = remove_found t hash p

unfoldable pub remove_internal : ℕ → Pool → Option Pool
remove_internal hash p = do
  p' ← remove_looked_up (lookup hash p.verified_map) hash p
  some (update_metrics (length p'.verified_txes) p')

unfoldable pub remove : ℕ → Pool → Option Pool
remove = remove_internal

-- for _, conflictingTx := range … { mp.removeInternal(conflictingTx.Hash(), fee) }
unfoldable pub remove_all : List Transaction → Pool → Option Pool
remove_all [] p = some p
remove_all (t ∷ ts) p = remove_internal t.hash p >>= remove_all ts
