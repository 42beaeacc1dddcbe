-- ===== src/Bqueue/Serve.antt =====
-- pkg/network/bqueue/queue.go: Run, after a signal. The chain is a Blockqueuer, and no other call comes in
-- between.
use epicchain_go.Common.{
  ℕ, zero, suc, ◌+◌, ◌%◌, ◌^◌, Bool, ◌&&◌, Option, none, some, List, ◌∷◌, false, [], if◌then◌else◌,
}
use epicchain_go.Bqueue.Queue.{Block, Queue, index_to_position, take_next, clear_taken}

-- BlockHeight, and AddBlock: whether it answers no error, and the chain after it.
pub record Blockqueuer (C : Type 0) : Type 0 where
  pub block_height : C → ℕ
  pub add_block : Block → C → Bool × C

-- What a run leaves. `relayed` are the blocks that relayF was called with, the last one first.
pub record Served (C : Type 0) : Type 0 where
  pub chain : C
  pub queue : Queue
  pub last_height : ℕ
  pub relayed : List Block

-- `relays` is that relayF is not nil.
module _ {C : Type 0} (api : Blockqueuer C) (relays : Bool) where
  -- The inner loop of Run, on fuel for its rounds, from the height of the round before.
  unfoldable pub serve : ℕ → ℕ → C → Queue → List Block → Option (Served C)
  serve zero last_height c bq relayed = none
  serve (suc n) last_height c bq relayed =
      let h = api.block_height c in
      let taken = take_next last_height h bq in
      elim taken.0 [
        | none ↦ some (record { chain = c; queue = taken.1; last_height = h; relayed = relayed })
        | some b ↦
            let added = api.add_block b c in
            serve n h added.1 (clear_taken (index_to_position ((h + 1) % 2 ^ 32)) b taken.1)
              (if added.0 && relays then b ∷ relayed else relayed)
      ]

  -- One round of the outer loop: the signal is taken from checkBlocks, and the inner loop runs.
  unfoldable pub run : ℕ → ℕ → C → Queue → Option (Served C)
  run n last_height c bq =
      if bq.signalled then serve n last_height c (record bq { signalled = false }) [] else none
