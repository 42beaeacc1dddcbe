-- ===== src/Mempool/Runs.antt =====
-- pkg/core/mempool: a pool for one transaction, run through its operations, and the theorems at it.
use epicchain_go.Common.{
  arith, ℕ, ◌≡◌, refl, true, false, none, some, [], ◌∷◌, All, if◌then◌else◌, ◌==◌, nat_eq,
}
use epicchain_go.Common.{lookup, insert, delete}
use epicchain_go.Common.Search.{search_loop, search_first}
use epicchain_go.Mempool.Types.{
  Transaction, Item, Pool, Feer, Outcome, ok, err, oom, oracle_response, conflicts, conflict_hashes,
  oracle_id, compare_to, new, notify, update_metrics, tx_fee_per_byte,
}
use epicchain_go.Mempool.Fees.{
  account_at, total_fee, check_balance, try_add_senders_fee, pooled_against, named_by,
  without_removed, check_tx_conflicts, contains_key,
}
use epicchain_go.Mempool.Remove.{
  remove_conflicts, remove_conflicts_of, remove_oracle_of, remove_all, remove,
}
use epicchain_go.Mempool.Add.{
  position, claim_response, ditch_last, move_to, add_conflicts, register, place, add,
}
use epicchain_go.Mempool.Stale.{
  load_policy, check_policy, ones_count, is_stale, sweep, remove_stale,
}
use epicchain_go.Mempool.Query.{try_get_data, scan}
use epicchain_go.Mempool.Invariant.{IsConsistent}
use epicchain_go.Mempool.PlaceLaw.{Placed, place_lem}
use epicchain_go.Mempool.Check.{IsSound}
use epicchain_go.Mempool.AddLaw.{AddAnswer, add_lem}
use epicchain_go.Mempool.Findings.{add_dangling_response}
use epicchain_go.Mempool.Solvent.{remove_stale-IsSolvent, ditch_last_fees}
use epicchain_go.Mempool.Books.{IsSolvent}
use epicchain_go.Mempool.Sweep.{remove_stale_lem}
use epicchain_go.Mempool.Data.{find_extra, try_get_data_lem}
use epicchain_go.Mempool.Reach.{
  here, next, adds, new-IsSound, add-IsSound, remove-IsSound, Reach-IsSound,
}

abbrev feer : Feer
feer = record { policy_fee_per_byte = 0; utility_token_balance = λ a. 1000; block_height = 5 }

-- It pays 10 and names the hash 9.
abbrev plain : Transaction
plain = record {
  hash = 1;
  system_fee = 0;
  network_fee = 10;
  size = 1;
  signers = 7 ∷ [];
  attributes = conflicts 9 ∷ [];
}

abbrev response : ℕ → ℕ → Transaction
response hash fee = record {
  hash = hash;
  system_fee = 0;
  network_fee = fee;
  size = 1;
  signers = 8 ∷ [];
  attributes = oracle_response 77 ∷ [];
}

abbrev plain_item : Item
plain_item = record { txn = plain; block_stamp = 5; extra = some 4 }

abbrev response_item : Item
response_item = record { txn = response 3 50; block_stamp = 5; extra = none }

abbrev pool : Pool
pool = record {
  verified_map = (1, plain) ∷ [];
  verified_txes = plain_item ∷ [];
  fees = (7, record { balance = 1000; fee_sum = 10 }) ∷ [];
  conflicts_map = (9, 1 ∷ []) ∷ [];
  oracle_resp = [];
  capacity = 1;
  fee_per_byte = 0;
  payer_index = 0;
  resend_threshold = 0;
  has_metrics = false;
  subscriptions_on = false;
  signals = [];
}

plain_added : add plain feer (some 4) (new 1 0 false) ≡ some (ok tt, pool)
unfolding add contains_key check_tx_conflicts account_at conflict_hashes pooled_against named_by
    without_removed check_balance total_fee claim_response oracle_id remove_all place position
    register move_to add_conflicts try_add_senders_fee notify update_metrics search_first
    search_loop compare_to lookup insert new
plain_added = refl

plain_kept : remove_stale (λ t. true) feer pool ≡ some pool
unfolding remove_stale load_policy sweep check_policy account_at conflict_hashes check_balance
    total_fee add_conflicts try_add_senders_fee is_stale ones_count tx_fee_per_byte lookup insert
plain_kept = refl

pool-IsSound : IsSound pool
unfolding account_at new
pool-IsSound =
    add-IsSound plain feer (some 4) (new 1 0 false) pool {a = 7} refl plain_added
      (new-IsSound 1 0 false)

add_lem_example : AddAnswer (response 3 50) feer none pool
unfolding account_at
add_lem_example = add_lem (response 3 50) feer none pool pool-IsSound refl

Reach-IsSound_example : IsSound pool
unfolding account_at new
Reach-IsSound_example =
    Reach-IsSound 1 0 false pool (next here (adds plain feer (some 4) 7 refl plain_added))

remove-IsSound_example :
    (q : Pool) × (remove 1 pool ≡ some q)
    × IsSound q
    × ((j : ℕ) → lookup j q.verified_map ≡ (if 1 == j then none else lookup j pool.verified_map))
remove-IsSound_example = remove-IsSound 1 pool pool-IsSound

remove_stale_lem_example : (q : Pool) × (remove_stale (λ t. true) feer pool ≡ some q) × IsSound q
remove_stale_lem_example = remove_stale_lem (λ t. true) feer pool pool-IsSound

remove_stale-IsSolvent_example :
    IsSolvent feer pool × All (λ (i : Item). true ≡ true) pool.verified_txes
remove_stale-IsSolvent_example =
    remove_stale-IsSolvent (λ t. true) feer pool pool (λ a. omega arith) plain_kept

place_lem_example :
    (o : Outcome Unit) × (q : Pool) × (place response_item feer pool ≡ some (o, q))
    × IsConsistent q
    × Placed response_item pool o q
unfolding account_at lookup
place_lem_example = place_lem response_item feer pool pool-IsSound.consistent refl (8, refl)

try_get_data_lem_example : try_get_data 1 pool ≡ find_extra 1 pool.verified_txes
unfolding lookup
try_get_data_lem_example = try_get_data_lem 1 pool pool-IsSound.consistent refl

try_get_data_runs : try_get_data 1 pool ≡ some (some 4)
unfolding try_get_data scan search_first search_loop compare_to lookup
try_get_data_runs = refl

-- The response pays less than what is pooled; the next one pays more, and Add panics.
add_dangling_response_example :
    (q : Pool) × (add (response 2 5) feer none pool ≡ some (err oom, q))
    × (add (response 3 50) feer none q ≡ none)
unfolding check_tx_conflicts account_at conflict_hashes pooled_against named_by without_removed
    check_balance total_fee oracle_id position search_first search_loop compare_to lookup insert
add_dangling_response_example =
    add_dangling_response (response 2 5) feer none pool 77 refl refl refl refl refl refl
      (response 3 50) feer none [] refl refl refl

abbrev ditched : Pool
ditched = record pool { verified_map = []; verified_txes = response_item ∷ []; conflicts_map = [] }

plain_ditched : ditch_last response_item pool ≡ some ditched
unfolding ditch_last remove_conflicts_of remove_conflicts remove_oracle_of conflict_hashes oracle_id
    notify lookup delete
plain_ditched = refl

ditch_last_fees_example : ditched.fees ≡ pool.fees
ditch_last_fees_example = ditch_last_fees response_item pool ditched plain_ditched
