-- ===== src/Mempool/Findings.antt =====
-- pkg/core/mempool/mem_pool.go: what Add leaves behind when it answers ErrOOM or ditches a transaction.
use epicchain_go.Common.{
  ℕ, ◌≡◌, refl, Option, none, some, List, [], nat_eq, lookup, lookup-insert, length, ==_iff,
}
use epicchain_go.Mempool.Types.{Transaction, Item, Pool, Feer, ok, err, oom, oracle_id}
use epicchain_go.Mempool.Fees.{check_tx_conflicts, contains_key}
use epicchain_go.Mempool.Remove.{remove_all}
use epicchain_go.Mempool.Add.{claim_id, claim_response, place, position, add}

abbrev pub item_of : Transaction → Feer → Option ℕ → Item
item_of t feer extra = record { txn = t; block_stamp = feer.block_height; extra = extra }

module _ (t : Transaction) (feer : Feer) (extra : Option ℕ) (p : Pool) (id : ℕ)
    (fresh : lookup t.hash p.verified_map ≡ none)
    (accepted : check_tx_conflicts t feer p ≡ some (ok [])) (answers : oracle_id t ≡ some id)
    (first : lookup id p.oracle_resp ≡ none) (full : length p.verified_txes ≡ p.capacity)
    (last : position (item_of t feer extra) p.verified_txes ≡ length p.verified_txes) where
  -- ErrOOM is answered with the response noted.
  add_oom : add t feer extra p ≡ some (err oom, claim_id id t.hash p)
  unfolding add contains_key claim_response remove_all place
  add_oom =
      rw (fresh, accepted, answers, first)
        (rw
          (
            (==_iff (length p.verified_txes) p.capacity).1 full,
            (==_iff (position (item_of t feer extra) p.verified_txes) (length p.verified_txes)).1
                last,
          )
          refl)

  -- An oracle response that is the first one for its request and names no conflict in the pool, added to a
  -- full pool in which no item is below it, is answered ErrOOM; and Add of any other response to that
  -- request, not pooled and accepted by the check of conflicts, then panics.
  pub add_dangling_response :
      (t' : Transaction) (feer' : Feer) (extra' : Option ℕ) (txs : List Transaction)
      → lookup t'.hash p.verified_map ≡ none
      → oracle_id t' ≡ some id
      → check_tx_conflicts t' feer' (claim_id id t.hash p) ≡ some (ok txs)
      → (q : Pool) × (add t feer extra p ≡ some (err oom, q)) × (add t' feer' extra' q ≡ none)
  unfolding add contains_key claim_response
  add_dangling_response t' feer' extra' txs fresh' answers' accepted' = (
    claim_id id t.hash p,
    add_oom,
    rw (fresh', accepted', answers')
        (rw (lookup-insert id id t.hash p.oracle_resp)
          (rw ((==_iff id id).1 refl) (rw fresh refl))),
  )
