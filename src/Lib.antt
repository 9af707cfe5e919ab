-- ===== src/Lib.antt =====
-- hft-radial-cache: an in-memory cache for market data. Each symbol has a "midpoint", a heap of
-- nodes by priority; nodes expire. Around the cache stand a cache of three levels, whose first is a
-- lock-free queue and whose last a file, a B-tree for ordered queries, Bloom filters, checkpoints,
-- metrics, an error handler and a security manager.
--
-- The parts, the files that model them, and how they correspond to the code:
--
-- - Node (include/node.hpp): the node's record, its constructor, is_expired.
-- - Heap (include/lockfree_heap.hpp, LockFreeHeap): the vector of slots, size and capacity; push,
--   pop, sift_up and sift_down as the code runs them. Heap.Order has the heap order, Heap.Up and
--   Heap.Down the two sifts, Heap.Held the nodes in the slots, Heap.Push and Heap.Pop the
--   operations, Heap.Congr a change of the priorities that no slot sees.
-- - Midpoint (include/midpoint.hpp, MidpointNode): a heap whose lookups delete expired nodes.
-- - Table (include/lockfree_map.hpp, LockFreeHashTable): FNV-1a, 64 buckets of chains, get and
--   get_or_create.
-- - Radial (include/radial_circular_list.hpp, src/radial_circular_list.cpp, RadialCircularList): the
--   cache, which draws its nodes from a pool, finds the midpoint of a symbol in the table, and pushes
--   to and pops from its heap. Radial.Pending names the nodes that wait under a symbol,
--   Radial.Invariant what every call keeps, and one module each the operations; Radial.Life runs
--   sequences of calls from the constructor to the destructor.
-- - BTree (include/b_tree.hpp, src/b_tree.cpp, LockFreeBTree): insert, find, remove, clear,
--   validation; BTree.Walk has the iterator and the range queries, BTree.Range says what get_range
--   finds, BTree.Sorted what the sorted queries find.
-- - Bloom (include/bloom_filter.hpp, src/bloom_filter.cpp): Bloom.Hash is MurmurHash3, Bloom the
--   BloomFilter, Bloom.Member what it contains, Bloom.Reset clear and resize, Bloom.Counting the
--   CountingBloomFilter.
-- - Errors (include/error_handler.hpp, src/error_handler.cpp, ErrorHandler): the history, the
--   counters, the recovery strategies and the emergency mode.
-- - Security (include/security_manager.hpp, src/security_manager.cpp, SecurityManager): users,
--   permissions, rate limits and the audit log; Security.Audit has the readers of the log,
--   Security.Access the logins, Security.Permission what a user may do, Security.Limits the bounds.
-- - Memory (include/memory_manager.hpp, src/memory_manager.cpp, MemoryManager): the pool, the
--   allocations, the cleanup and the destructor; Memory.Account counts bytes, Memory.Freed nodes.
-- - Queue (include/lockfree_queue.hpp, LockFreeQueue): a linked queue in a store of nodes, with its
--   free list. Queue.Chain, Queue.Tail and Queue.Shape say how the nodes are linked, Queue.Link,
--   Queue.Free, Queue.Fifo and Queue.Dequeue what the calls do, Queue.Calls runs sequences of calls
--   and of halves of calls, Queue.Count and Queue.Destroy walk over the whole queue.
-- - MultiLevel (include/multi_level_cache.hpp, src/multi_level_cache.cpp, MultiLevelCache): the
--   fall-through of insert, lookup and remove over the levels, promotion, demotion and eviction.
--   MultiLevel.Front and MultiLevel.Steps reduce each call to a step of the first level,
--   MultiLevel.Count follows sequences of steps, MultiLevel.Lookup and MultiLevel.Insert the results.
-- - Disk (the same two files, DiskBackedCache): the index of the third level, and the file it is
--   written to; Disk.Codec is the format of a node, Disk.Reload of the whole file.
-- - Persistent (include/persistent_cache.hpp, src/persistent_cache.cpp, PersistentCache): checkpoint
--   files and their history. A path is resolved to the file it names by an argument.
-- - Metrics (include/metrics.hpp, src/metrics.cpp, MetricsCollector): Metrics has the records,
--   Metrics.Events sequences of them, Metrics.Tally the counters, Metrics.History the snapshots,
--   Metrics.Alerts the rates and alerts.
-- - Fuzzy (src/advanced_operations.cpp, AdvancedOpsUtils): levenshtein_distance, string_similarity.
-- - Config (include/config.hpp, CacheConfig).
-- - Common: the shared names, lists indexed by native numbers, bytes, 64-bit words, binary digits,
--   doubles as far as they are compared, and Run, the ways in which a call ends.
--
-- Conventions. The calls run one at a time: a compare-and-swap succeeds, and contention between
-- threads is not modelled, but for enqueues of the queue that halt between their two
-- compare-and-swaps while others run. A pointer to a node of the pool, or to a midpoint, is its
-- index; a pointer into the queue is an address in its store, where an address without a node stands
-- for freed memory. A `uint64_t` or `size_t` keeps its wrap-around where the code adds to it. A read
-- of the clock, a random salt, a callback, the answer of the file system, the conversion or division
-- of doubles, and a size computed with logarithms is an argument. `fault` stands for undefined
-- behaviour, such as an index out of range, a null pointer, a remainder by zero or the use of a
-- variable that is not set; `stuck` for a loop that does not end. Loops over data are structural; a
-- sift of an n-node heap has fuel n + 1, more than the heap is deep, and the loop of a lookup has
-- fuel for one round more than there are nodes; the loops of the queue have fuel for two rounds, as
-- the first may have to help a tail that lags behind, and its walks for one more than there ever were
-- addresses; the loop of the iterator takes its fuel as an argument.
--
-- The second level of the multi-level cache is an argument of its calls, since they are calls that
-- RadialCircularList does not have. MultiLevelCache tests the result of LockFreeQueue::enqueue, which
-- is void there: the model takes every enqueue as successful. The node that these files use has fields that include/node.hpp
-- does not have; it is Disk.DiskNode.
--
-- Not modelled: other interleavings of threads; the searches, predictions and statistics of the
-- advanced operations, most of them placeholders; the pooled and the compressed B-tree; reports;
-- the skip list and the advanced memory pool, which the repository only declares; vector
-- intrinsics, NUMA placement, output, and the demo program.
pub mod BTree
pub mod Bloom
pub mod Common
pub mod Config
pub mod Disk
pub mod Errors
pub mod Fuzzy
pub mod Heap
pub mod Memory
pub mod Metrics
pub mod Midpoint
pub mod MultiLevel
pub mod Node
pub mod Persistent
pub mod Queue
pub mod Radial
pub mod Security
pub mod Table
