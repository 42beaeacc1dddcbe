-- ===== src/Storage.antt =====
-- pkg/core/storage: the layers of caches over the node's database.
pub mod Types
pub mod Seek
mod Order
mod Merge
mod SeekLaw
mod View
mod MergeLaw
pub mod Sorted
pub mod CutPrefix
pub mod Memory
pub mod Cached
mod CachedView
pub mod Persist
pub mod MemoryLaw
pub mod Scan
pub mod MemorySeek
mod Runs
