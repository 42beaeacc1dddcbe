-- ===== src/Mempool.antt =====
-- pkg/core/mempool: the pool of unconfirmed transactions.
pub mod Types
pub mod Fees
pub mod Remove
pub mod Add
pub mod Stale
pub mod Query
pub mod Order
pub mod Items
pub mod Links
pub mod Invariant
pub mod Place
pub mod Register
pub mod PlaceLaw
pub mod Check
pub mod AddLaw
pub mod Findings
pub mod Sweep
pub mod Books
pub mod Solvent
pub mod Data
pub mod Reach
mod Runs
