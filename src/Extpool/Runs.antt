-- ===== src/Extpool/Runs.antt =====
-- pkg/network/extpool: a pool for one payload of each sender, and the theorems at it.
use epicchain_go.Common.{ℕ, ◌≡◌, refl, Bool, true, Option, some, [], arith, nat_eq, lookup, insert}
use epicchain_go.Extpool.Pool.{
  Extensible, Ledger, Pool, AddError, new, push_back, add, remove_stale,
}
use epicchain_go.Extpool.Sound.{IsSound, queue_of, push_back-IsSound}
use epicchain_go.Extpool.AddLaw.{Added, add-Added, new-IsSound}
use epicchain_go.Extpool.SweepLaw.{remove_stale-IsSound}
use epicchain_go.Extpool.Live.{if_live, live_only}

abbrev ledger : Ledger
ledger = record { block_height = 5; is_extensible_allowed = λ s. true; verify_witness = λ e. true }

abbrev payload : ℕ → Extensible
payload h = record { hash = h; sender = 7; valid_block_start = 0; valid_block_end = 10 }

abbrev unused : Pool
unused = record { verified = []; senders = []; single_cap = 1 }

abbrev pool : Pool
pool = push_back (payload 1) unused

pool-IsSound : IsSound pool
unfolding new lookup
pool-IsSound =
    push_back-IsSound (payload 1) unused
      (record { sound = new-IsSound 1 unused refl; room = omega arith; fresh = refl })

add-Added_example :
    (r : Bool × Option AddError) × (q : Pool) × (add (payload 2) ledger pool ≡ some (r, q))
    × IsSound q
    × Added (payload 2) ledger pool r q
add-Added_example = add-Added (payload 2) ledger pool pool-IsSound

remove_stale-IsSound_example :
    IsSound (remove_stale 6 ledger pool)
    × ((h : ℕ)
        → lookup h (remove_stale 6 ledger pool).verified
          ≡ if_live 6 ledger (lookup h pool.verified))
    × ((s : ℕ) → queue_of (remove_stale 6 ledger pool) s ≡ live_only 6 ledger (queue_of pool s))
remove_stale-IsSound_example =
    remove_stale-IsSound 6 ledger pool pool-IsSound (unfold lookup insert in (refl, tt))
