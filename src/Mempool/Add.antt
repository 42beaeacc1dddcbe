-- ===== src/Mempool/Add.antt =====
-- pkg/core/mempool/mem_pool.go: Add.
use Prim.Native.Nat.{Ordering}
use epicchain_go.Common.{
  ◌>>=◌, ℕ, ◌+◌, ◌-◌, Bool, true, false, not, Option, none, some, List, [], ◌∷◌, ◌++◌, nat_eq,
  lookup, insert, length, take, drop, set, get_elem?, leb, ◌==◌, if◌then◌else◌,
}
use epicchain_go.Common.Search.{search_first}
use epicchain_go.Mempool.Types.{
  Transaction, Item, Pool, Feer, dup, oom, oracle_conflict, Outcome, ok, err, conflict_hashes,
  oracle_id, compare_to, removed, added, notify, update_metrics,
}
use epicchain_go.Mempool.Fees.{check_tx_conflicts, try_add_senders_fee, contains_key}
use epicchain_go.Mempool.Remove.{remove_internal, remove_all, remove_conflicts_of, remove_oracle_of}

abbrev pub is_gt : Ordering → Bool
is_gt Ordering.gt = true
is_gt _ = false

-- The position of the first item that the new one is strictly above.
unfoldable pub position : Item → List Item → ℕ
position p_item l = search_first (λ other. is_gt (compare_to p_item other)) l

abbrev pub claim_id : ℕ → ℕ → Pool → Pool
claim_id id hash p = record p { oracle_resp = insert id hash p.oracle_resp }

abbrev pub replace_response : Transaction → ℕ → Option ℕ → Pool → Option (Outcome Pool)
replace_response t id none p = some (ok (claim_id id t.hash p))
replace_response t id (some h) p = do
  existing ← lookup h p.verified_map
  let replaced = remove_internal h p >>= λ p'. some (ok (claim_id id t.hash p'))
  if leb t.network_fee existing.network_fee then some (err oracle_conflict) else replaced

abbrev pub oracle_step : Transaction → Option ℕ → Pool → Option (Outcome Pool)
oracle_step t none p = some (ok p)
oracle_step t (some id) p = replace_response t id (lookup id p.oracle_resp) p

-- The OracleResponse attribute: an older response with the same id and a lower fee goes.
unfoldable pub claim_response : Transaction → Pool → Option (Outcome Pool)
claim_response t p = oracle_step t (oracle_id t) p

-- Ditch the last item of a full pool; its place is taken by the new one.
unfoldable pub ditch_last : Item → Pool → Option Pool
ditch_last p_item p = do
  let last = length p.verified_txes - 1
  unlucky ← get_elem? p.verified_txes last
  let p1 = record p { verified_map = epicchain_go.Common.delete unlucky.txn.hash p.verified_map }
  let p2 = remove_oracle_of unlucky.txn (remove_conflicts_of unlucky.txn p1)
  let p3 = record p2 { verified_txes = set p2.verified_txes last p_item }
  some (notify (removed unlucky.txn unlucky.extra) p3)

-- copy(txes[n+1:], txes[n:]); txes[n] = pItem, unless the item already stands last.
unfoldable pub move_to : ℕ → Item → List Item → List Item
move_to n p_item l =
    let last = length l - 1 in if n == last then l else take n l ++ (p_item ∷ drop n (take last l))

abbrev pub or_nil : Option (List ℕ) → List ℕ
or_nil none = []
or_nil (some l) = l

unfoldable pub add_conflicts : ℕ → List ℕ → Pool → Pool
add_conflicts hash [] p = p
add_conflicts hash (h ∷ hs) p =
    let l = or_nil (lookup h p.conflicts_map) in
    add_conflicts hash hs (record p { conflicts_map = insert h (l ++ (hash ∷ [])) p.conflicts_map })

-- From the sorted insertion on, with room for the item in the slice.
unfoldable pub register : ℕ → Item → Feer → Pool → Option (Outcome Unit × Pool)
register n p_item feer p = do
  let t = p_item.txn
  let p1 = record p {
    verified_txes = move_to n p_item p.verified_txes;
    verified_map = insert t.hash t p.verified_map;
  }
  (done, p2) ← try_add_senders_fee t feer false (add_conflicts t.hash (conflict_hashes t) p1)
  some (ok tt, notify (added t p_item.extra) (update_metrics (length p2.verified_txes) p2))

-- From the search for a position on.
unfoldable pub place : Item → Feer → Pool → Option (Outcome Unit × Pool)
place p_item feer p =
    let n = position p_item p.verified_txes in
    let full = ditch_last p_item p >>= register n p_item feer in
    let room =
      register n p_item feer (record p { verified_txes = p.verified_txes ++ (p_item ∷ []) }) in
    if length p.verified_txes == p.capacity
    then (if n == length p.verified_txes then some (err oom, p) else full)
    else room

abbrev pub add_claimed :
    Item → Feer → List Transaction → Pool → Outcome Pool → Option (Outcome Unit × Pool)
add_claimed p_item feer txs p (err e) = some (err e, p)
add_claimed p_item feer txs p (ok p1) = remove_all txs p1 >>= place p_item feer

abbrev pub add_checked :
    Item → Feer → Pool → Outcome (List Transaction) → Option (Outcome Unit × Pool)
add_checked p_item feer p (err e) = some (err e, p)
add_checked p_item feer p (ok txs) = claim_response p_item.txn p >>= add_claimed p_item feer txs p

unfoldable pub add : Transaction → Feer → Option ℕ → Pool → Option (Outcome Unit × Pool)
add t feer extra p =
    let p_item : Item = record { txn = t; block_stamp = feer.block_height; extra = extra } in
    let fresh = check_tx_conflicts t feer p >>= add_checked p_item feer p in
    if contains_key t.hash p then some (err dup, p) else fresh
