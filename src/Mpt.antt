-- ===== src/Mpt.antt =====
-- pkg/core/mpt: the Merkle Patricia trie.
pub mod Node
pub mod Get
pub mod Put
pub mod Delete
pub mod View
pub mod Paths
pub mod Branches
pub mod Views
pub mod PutFork
pub mod PutLaw
pub mod Shrink
pub mod Joined
pub mod DeleteLaw
pub mod Fans
pub mod Canonical
pub mod GetLaw
pub mod Keys
pub mod Contents
pub mod Roots
pub mod Totals
pub mod Balance
pub mod DeleteBalance
pub mod Refcount
pub mod Counts
pub mod Lost
pub mod Collapse
pub mod CollapseLaw
pub mod Batch
pub mod BatchPaths
pub mod BatchMerge
pub mod BatchBranch
pub mod BatchLaw
pub mod BatchExtension
pub mod BatchNode
pub mod BatchRoot
mod Runs
