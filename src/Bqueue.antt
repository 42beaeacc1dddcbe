-- ===== src/Bqueue.antt =====
-- pkg/network/bqueue/queue.go: the ring of blocks that wait to be added to the chain.
pub mod Queue
mod Placed
pub mod Moves
pub mod Serve
pub mod CatchUp
pub mod Delivered
mod Runs
