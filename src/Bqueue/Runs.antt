-- ===== src/Bqueue/Runs.antt =====
-- pkg/network/bqueue: a queue on concrete blocks, and the theorems at it.
use epicchain_go.Common.{
  ℕ, zero, suc, ◌+◌, ◌<◌, ◌^◌, ltb, true, false, [], ◌∷◌, ◌≡◌, refl, ◌&&◌, ◌==◌, some, arith,
  get_elem?, set, if◌then◌else◌, ◌%◌,
}
use epicchain_go.Bqueue.Queue.{Block, Queue, pos, incr, new, slot, is_newer, put_block, take_next}
use epicchain_go.Bqueue.Moves.{
  Reach, fresh, next, puts, filled, take_next_idle, put_block_lem, put_block_miscounts,
}
use epicchain_go.Bqueue.Serve.{Blockqueuer, Served, run}
use epicchain_go.Bqueue.CatchUp.{IsForward, IsAhead, IsDone, run-IsDone}
use epicchain_go.Bqueue.Delivered.{put_blocks, Delivers, run-put_blocks}

-- The next block of a chain of height 4.
abbrev block : Block
block = record { index = 5; id = 1 }

abbrev queued : Queue
queued = put_block 4 block new

queued-Reach : Reach queued
queued-Reach = next fresh (puts 4 block)

-- The chain has got the block from elsewhere, and is at 6.
take_next_idle_example : (take_next 4 6 queued).1 ≡ queued
take_next_idle_example = take_next_idle queued 4 6 queued-Reach (omega arith) (omega arith)

put_block_lem_example : get_elem? (put_block 4 block new).queue 5 ≡ (
    if (5 % 2000 == 5) && is_newer block (slot (get_elem? new.queue 5))
    then some (some block)
    else get_elem? new.queue 5)
put_block_lem_example =
    put_block_lem new 4 block fresh refl (omega arith) (omega arith) (omega arith) 5

-- A ring that still has block 5, and the block 2000 above it.
abbrev ring : Queue
ring = record new { queue = set new.queue 5 (some block); len = pos 1 }

abbrev later : Block
later = record { index = 2005; id = 2 }

put_block_miscounts_example :
    ((put_block 10 later ring).len ≡ incr (pos 1))
    × (filled (put_block 10 later ring).queue ≡ filled ring.queue)
put_block_miscounts_example =
    put_block_miscounts ring 10 later block refl (omega arith) (omega arith) refl (omega arith)

-- A chain that is its height, and takes the next block.
abbrev chain : Blockqueuer ℕ
chain = record {
  block_height = λ c. c % 2 ^ 32;
  add_block = λ b c.
      if (b.index == (c % 2 ^ 32) + 1) && ltb b.index (2 ^ 32) then (true, b.index) else (false, c);
}

abbrev IsU32 : Block → Type 0
IsU32 b = b.index < 2 ^ 32

chain-IsForward : IsForward chain IsU32
chain-IsForward = record {
  bounded = λ c. omega arith;
  grows = λ c b. ground arith;
  accepts = λ c b ix good. ground arith;
}

run-IsDone_example : (r : Served ℕ) × ((run chain true 2001 4 4 queued ≡ some r) × IsDone chain r)
unfolding put_block
run-IsDone_example =
    run-IsDone chain true 2001 4 4 queued (λ d. omega arith) queued-Reach refl (omega arith)
      (omega arith)

abbrev sixth : Block
sixth = record { index = 6; id = 7 }

delivered : (i : ℕ) → i < 2 → Delivers (4 + 1 + i) (sixth ∷ block ∷ [])
delivered zero lt = (1, (block, (refl, refl)))
delivered (suc zero) lt = (0, (sixth, (refl, refl)))
delivered (suc (suc i)) lt = absurd (omega arith)

-- Block 6 comes before block 5, and the chain is at 6 after the run.
run-put_blocks_example :
    (r : Served ℕ) × ((run chain true 2001 4 4 (put_blocks 4 (sixth ∷ block ∷ []) new) ≡ some r)
      × IsAhead chain 6 r)
run-put_blocks_example =
    run-put_blocks chain true IsU32 chain-IsForward 2001 2 4 4 sixth (block ∷ [])
      ((omega arith, (omega arith, omega arith)), ((omega arith, (omega arith, omega arith)), tt))
      delivered (omega arith) (omega arith) (omega arith) (omega arith)
