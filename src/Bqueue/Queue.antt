-- ===== src/Bqueue/Queue.antt =====
-- pkg/network/bqueue/queue.go: Queue and its operations. What each holds the lock for is one function; Run
-- takes a block, gives it to the chain and clears its place, and other calls may come in between.
use epicchain_go.Common.{
  ℕ, zero, suc, ◌+◌, ◌-◌, ◌%◌, ◌^◌, Bool, true, false, ◌&&◌, ◌||◌, ◌==◌, ltb, leb, Option, none,
  some, List, [], ◌∷◌, length, get_elem?, set, drop, replicate, if◌then◌else◌,
}

-- A block: its index, and what tells it from others.
pub record Block : Type 0 where
  pub index : ℕ
  pub id : ℕ

-- The Go int of the length, which can be negative.
pub data ℤ : Type 0 where
  pos : ℕ → ℤ
  negsuc : ℕ → ℤ

abbrev pub incr : ℤ → ℤ
incr (pos n) = pos (suc n)
incr (negsuc zero) = pos zero
incr (negsuc (suc n)) = negsuc n

abbrev pub decr : ℤ → ℤ
decr (pos zero) = negsuc zero
decr (pos (suc n)) = pos n
decr (negsuc n) = negsuc (suc n)

-- `signalled` is that checkBlocks, a channel of one place, holds a value.
pub record Queue : Type 0 where
  pub queue : List (Option Block)
  pub last_q : ℕ
  pub signalled : Bool
  pub discarded : Bool
  pub len : ℤ

abbrev pub cache_size : ℕ
cache_size = 2000

abbrev pub index_to_position : ℕ → ℕ
index_to_position i = i % cache_size

abbrev pub new : Queue
new = record {
  queue = replicate cache_size none;
  last_q = 0;
  signalled = false;
  discarded = false;
  len = pos 0;
}

-- bq.queue[i]; all uses are of a position below the size
abbrev pub slot : Option (Option Block) → Option Block
slot none = none
slot (some b) = b

-- bq.queue[pos] == nil || bq.queue[pos].Index < block.Index
abbrev pub is_newer : Block → Option Block → Bool
is_newer block none = true
is_newer block (some b) = ltb b.index block.index

-- The loop that moves lastQ on over the blocks from the position to the end of the slice.
unfoldable pub advance : ℕ → List (Option Block) → ℕ
advance last_q [] = last_q
advance last_q (none ∷ bs) = last_q
advance last_q (some b ∷ bs) =
    let rest = advance b.index bs in if (last_q + 1) % 2 ^ 32 == b.index then rest else last_q

-- The block in its place, if it is newer than what is there.
unfoldable pub enqueue : Block → Queue → Queue
enqueue block bq =
    let p = index_to_position block.index in
    let queue = set bq.queue p (some block) in
    if is_newer block (slot (get_elem? bq.queue p))
    then record bq { queue = queue; len = incr bq.len; last_q = advance bq.last_q (drop p queue) }
    else bq

-- PutBlock, at a height of the chain.
unfoldable pub put_block : ℕ → Block → Queue → Queue
put_block h block bq =
    if bq.discarded || (leb block.index h || ltb ((h + cache_size) % 2 ^ 32) block.index)
    then bq
    else record (enqueue block bq) { signalled = true }

-- One round of the loop that is to clear what the chain got from other sources.
abbrev pub clear_old : ℕ → ℕ → Option Block → Queue → Queue
clear_old i old none bq = bq
clear_old i old (some b) bq =
    if b.index == i then record bq { len = decr bq.len; queue = set bq.queue old none } else bq

-- for i := lastHeight; i < h; i++, with the rounds that are left
unfoldable pub clear_between : ℕ → ℕ → Queue → Queue
clear_between zero i bq = bq
clear_between (suc n) i bq =
    let old = index_to_position ((i + 1) % 2 ^ 32) in
    clear_between n (i + 1) (clear_old i old (slot (get_elem? bq.queue old)) bq)

-- The first part of a round of Run: the block for the next height.
unfoldable pub take_next : ℕ → ℕ → Queue → Option Block × Queue
take_next last_height h bq =
    let p = index_to_position ((h + 1) % 2 ^ 32) in
    (slot (get_elem? bq.queue p), clear_between (h - last_height) last_height bq)

-- if bq.queue[pos] == b { bq.queue[pos] = nil }
abbrev pub clear_same : ℕ → Block → Option Block → Queue → Queue
clear_same p b none bq = bq
clear_same p b (some c) bq =
    if (c.index == b.index) && (c.id == b.id) then record bq { queue = set bq.queue p none } else bq

-- The last part: the block was given to the chain.
unfoldable pub clear_taken : ℕ → Block → Queue → Queue
clear_taken p b bq = clear_same p b (slot (get_elem? bq.queue p)) (record bq { len = decr bq.len })

unfoldable pub last_queued : Queue → ℕ × ℤ
last_queued bq = (bq.last_q, left bq.len)
  where
    left : ℤ → ℤ
    left (pos n) = if leb n cache_size then pos (cache_size - n) else negsuc (n - cache_size - 1)
    left (negsuc n) = pos (cache_size + suc n)

unfoldable pub discard : Queue → Queue
discard bq =
    if bq.discarded
    then bq
    else record bq { discarded = true; queue = replicate (length bq.queue) none; len = pos 0 }
