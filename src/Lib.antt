-- ===== src/Lib.antt =====
-- epicchain-go: a node of the EpicChain network. This library models parts of it that carry its own logic
-- and states what makes them correct. Paths are from the repository's root.
--
-- The parts, and how they work together:
--
--   Io        pkg/io. Every message, block and stored value is written by a BinWriter and read by a
--             BinReader. `Io/Reader` is pkg/io/binaryReader.go: BinReader is the bytes that are left and
--             the sticky error, and each method is a function from a reader to a value and a reader.
--             `Io/Writer` is pkg/io/binaryWriter.go, binaryBufWriter.go and size.go: BinWriter is the bytes
--             written and the sticky error. `Io/RoundTrip`, `Io/Errors` and `Io/Size` hold the theorems,
--             `Io/Runs` runs.
--   Mempool   pkg/core/mempool. The node keeps the transactions that wait for a block in a pool, sorted by
--             priority. Consensus, RPC and the network add to it, and after each block the ledger has it
--             swept. The modules with the pool's code are `Mempool/Types` (the record `Pool`, Item,
--             CompareTo, what is read of a transaction), `Fees` (checkBalance, tryAddSendersFee,
--             checkTxConflicts, Verify, HasConflicts), `Remove` (Remove, removeInternal,
--             removeConflictsOf), `Add`, `Stale` (RemoveStale, loadPolicy, checkPolicy) and `Query` (the
--             readers). The others hold theorems: `Order`, `Items` and `Links` on the order, the slice and
--             the two side tables, `Invariant` on removal, `Place`, `Register`, `PlaceLaw`, `Check` and
--             `AddLaw` on Add, `Sweep`, `Books` and `Solvent` on RemoveStale, `Data` on TryGetData,
--             `Findings` on what Add leaves behind, and `Reach` on sequences of calls. `Runs` has a pool
--             for one transaction.
--   Storage   pkg/core/storage. Blocks, states and contract data are kept in a database, under layers of
--             MemCachedStore that hold changes until Persist writes them below. `Storage/Memory` is
--             memory_store.go, `MemorySeek` its Seek and SeekGC, and `Storage/Cached` memcached_store.go:
--             Get, Put, Delete, PutChangeSet, and persist as the three moments between which it holds no
--             lock (`hand_over`, `flush`, `take_back`); the database is a record of its calls, with what a
--             cache relies on in `CachedView.IsLawful`. `Storage/Seek` is performSeek, over a callback with
--             a state, and `Scan` the Seek that calls it. `Merge`, `SeekLaw`, `View`, `MergeLaw` and
--             `Sorted` are on performSeek, `CutPrefix` on its cutPrefix, `CachedView`, `Persist` and
--             `MemoryLaw` on the cache.
--   Mpt       pkg/core/mpt. The state of the contracts after a block is a Merkle Patricia trie of all
--             storage items, the hash of which the state roots of the network are. `Mpt/Node` has the
--             nodes of node.go, branch.go, extension.go, leaf.go, hash.go and empty.go with their hashes
--             (base.go), `Get`, `Put` and `Delete` the operations of trie.go of those names, which are one
--             function for each of the Go functions, `Refcount` its addRef and removeRef, and `Collapse`
--             its Collapse, on which `CollapseLaw` is. A hash node is in the model together with what
--             getFromStore answers for it, so that the functions go down through it as the code does; only
--             Collapse, which makes such nodes, takes getFromStore as a parameter. `View` says what a trie
--             is and what it stores; `Paths`, `Branches`, `Views`, `PutFork`, `PutLaw`, `Shrink`,
--             `Joined`, `DeleteLaw`, `GetLaw`, `Keys` and `Contents` are on the operations as those of a
--             map, `Fans`, `Canonical` and `Roots` on the state root, `Totals`, `Balance`, `DeleteBalance`
--             and `Counts` on the reference counts, `Lost` on nodes that the store has not. `Batch` is
--             batch.go, PutBatch and all below it; `BatchPaths`, `BatchMerge`, `BatchBranch`, `BatchLaw`,
--             `BatchExtension`, `BatchNode` and `BatchRoot` are on it.
--   Bqueue    pkg/network/bqueue/queue.go. Blocks that come from peers in any order wait in a ring until
--             the chain can take them. `Bqueue/Queue` has PutBlock, LastQueued, Discard and the two parts
--             of a round of Run that hold the lock; `Placed` and `Moves` hold theorems, over sequences of
--             these. `Serve` is Run after a signal, its rounds put together over the Blockqueuer that stands
--             for the chain, and `CatchUp` and `Delivered` are on it.
--   Extpool   pkg/network/extpool/pool.go. Payloads of consensus and state services are kept in a queue for
--             each sender. `Extpool/Pool` has New, Add, verify, Get and RemoveStale; `Sound` says how the
--             map and the queues fit, `AddLaw` is on Add, `Live` and `SweepLaw` on RemoveStale.
--   Common    Boolean tests, lists by native numbers, Go's maps as association lists (gone over only where
--             Go does so, in the list's order) and sort.Search.
--
-- State and errors. A method that changes its receiver is a function from the state to the new state. A Go
-- error that is returned is a value of an outcome type; a panic (an index out of range, a nil pointer) is
-- `none`. The mempool's calls of its Feer are a record of what the calls answer, the Ledger of the
-- extensible pool likewise; the Blockqueuer of the block queue has a state, which AddBlock changes. The
-- caller's test of RemoveStale is a parameter.
--
-- Numbers are natural numbers. Bytes are below 256 where a theorem needs it; uint64, int64 and uint256
-- wrap around as `% 2 ^ w` where the code computes with them; the int32 counts of the trie are residues.
-- Fees are taken to be what the transaction's own checks guarantee, int64 and not negative.
--
-- Loops are structural recursion on the list that they go over. sort.Search is recursion on fuel, one more
-- than the length of the range, which halves; bits.OnesCount32 goes over 32 bits. PutBatch has fuel for
-- two steps for each nibble of the longest key and four more, since a step either shortens the keys or
-- goes from a hash node to its node; iterateBatch has the length of the batch. The inner loop of the block
-- queue's Run has fuel for 2001 rounds, since a round that does not end it clears one of the ring's 2000
-- places.
--
-- What is not modelled: locks (each call is one step), the channels of the subscriptions (what is sent is
-- a list of signals, pkg/core/mempool/subscriptions.go), readers and writers over other streams than
-- buffers, contexts that are cancelled, the rest of pkg/core/storage (GetBatch, SeekAsync's channel, the
-- adapters of databases), and GetVarSize of types other than strings and byte slices, which goes by
-- reflection. Of the trie Flush, MapToMPTBatch, proofs, Find and the billets are left out, the values
-- cached in nodes (bytes and hashes are computed anew), and where the store's copy of a count is read.
-- Byte slices are lists, without the arrays below them: append(n.key, ...) in getWithPath,
-- deleteFromExtension and mergeExtension is taken to find no other node's key behind n.key. Of the rest of
-- the node nothing is modelled.
mod Common
pub mod Io
pub mod Mpt
pub mod Mempool
pub mod Storage
pub mod Bqueue
pub mod Extpool
