-- ===== src/Lib.antt =====
-- Verification of the storage and trading programs of system-level-programming.
--
-- Paths are given from system-level-programming/. The parts are independent programs, and each
-- module tree models one of them; all of them use the shared helpers of Prelude.
--
-- Prelude: numbers, Boolean tests, arrays as lists with default reads (Lists), association lists for
-- the maps (Dict), sorting and binary search (Sorted), bit masks (Bits), and the wrapping arithmetic
-- of 64 bits that the two kinds of ring share (Words).
--
-- Tx: 09-database-transactions-and-recovery.
--   Tx.Mvcc is exercises/mvcc_undo_log.hpp: ReadView, TupleSlot with its chain of undo records, and
--     read_tuple_snapshot. The chain of pointers is a list, newest first.
--   Tx.Manager is projects/mini_transactional_engine/transaction_manager.hpp, and Tx.Engine is
--     transactional_engine.hpp beside it: put, get, commit, abort and recover_from_wal, over a log of
--     whole records. Tx.Manager.Snapshot, Tx.Engine.Reads, Tx.Engine.Abort and Tx.Engine.Recovery hold
--     the proofs. The engine calls the manager as the code does, and the mutexes make each call one
--     step. Strings are lists of bytes; ids do not wrap.
--
-- Book: 12-capstone-systems/01-shm-orderbook-feed/orderbook.hpp. L2OrderBook has two arrays of 32
--   levels and their counts, and the loops of update_side run over them by structural recursion on the
--   rounds left. Book.Spec states the update on a list of levels, Book.Refine proves that the arrays
--   do it, Book.Order what it means for prices. Prices are numbers in the order of the doubles (no
--   NaN); the arithmetic of mid_price and spread is a parameter.
--
-- Wal: 12-capstone-systems/02-embedded-lsm-kv-database/wal_storage_engine.hpp: WalStorageEngine with
--   its file as a list of whole and torn blocks. The checksum is computed byte by byte as in the code.
--   The success of a system call is an argument.
--
-- Pool: 07-database-storage-and-buffer-pool/projects/concurrent_buffer_pool_manager.
--   Pool.Replacer is lru_k_replacer.hpp, Pool.Disk is disk_manager.hpp and Pool.Manager is
--   buffer_pool_manager.hpp, which calls the other two. Frames are functions of the frame's number and
--   pages are of any type. Pool.Manager.Invariant states when page table, frames, free list and
--   replacer agree, Content what each page holds across a fetch, and Made what becomes of a page that
--   was just made. Writing into a pinned page is up to the client and is not an operation.
--   Pool.Page is slotted_page.hpp of exercises: header, slots and tuple bytes, with 16-bit wrapping
--   subtraction for the free pointer. Valid holds the invariant, Compact the loop of the compaction,
--   Tuples and Updates what the operations do to the tuples.
--
-- Spsc: 04-hardware-sync-and-lock-free-internals/projects/lockfree_ring_buffers/spsc_queue.hpp:
--   SpscQueue with its two counters, which wrap at 64 bits, and the copies that each side keeps of the
--   other's. The index mask is the bitwise one of the code. A call is one step, the other side's calls
--   fall before or after it. Spsc.Fifo relates the ring to the list of its items, Spsc.Runs any sequence of calls.
--
-- Lsm: 08-database-indexing-and-concurrency/projects/concurrent_lsm_tree_engine, and the database on
--   top of it, 12-capstone-systems/02-embedded-lsm-kv-database/embedded_lsm_database.hpp.
--   Lsm.Bloom is bloom_filter.hpp on 64-bit words, with wrapping arithmetic; the numbers that the
--     constructor takes from logarithms are parameters. Lsm.SsTable is sstable.hpp: a file is the list
--     of its 64-bit words, and Lookup takes build, open and get together.
--   Lsm.SkipList is skiplist_memtable.hpp: pointers are numbers of nodes, node 0 is the head, and the
--     random engine is a parameter. Links and Order say which node each level stands at in a search,
--     Insert, Splice and NewKey what the linking of a node does, Refine that the list is a memtable, and
--     Ends has the loops as relations that end by their own test only.
--   Lsm.MemTable is the interface of a memtable, with its laws. Lsm.Engine is lsm_engine.hpp and
--     Lsm.Database is embedded_lsm_database.hpp, both over any memtable of that interface. Whether a
--     file can be created, opened or written is an argument of the operation. Sizes in bytes do not
--     wrap. The latches make each call one step, but for the two halves of put in Lsm.Database, since
--     the log is written before the latch is taken.
--
-- Futex: 06-systems-ipc-and-shared-memory/exercises/futex_mutex.hpp, with any number of callers. Each
--   function is one atomic operation on the word, with the place of the caller in its call, and Step
--   lets any caller go on with its own. The kernel lets a caller wait only while the word is 2, and may
--   end a wait at any time. Memory is sequentially consistent.
--
-- Alloc: 02-virtual-memory-and-custom-allocators/projects/slab_and_buddy_allocator.
--   Alloc.Buddy is buddy_allocator.hpp. Blocks are offsets, the vectors of free blocks a function of the
--     order. Weight is on any quantity that a block shares out to its halves, Blocks on alignment and
--     buddies, Orders on the two loops that look for an order, Merge on the merges, Client on one call,
--     Runs on any series of calls.
--   Alloc.Slab is slab_allocator.hpp. The links of the free list are read from memory, into which the
--     holder of a chunk writes too. Chunks is on addresses, Chain on the links, Client on one call.
--
-- Mpmc: 04-hardware-sync-and-lock-free-internals/projects/lockfree_ring_buffers/mpmc_queue.hpp, with any
--   number of threads. Place says where a thread stands in emplace or pop, and step lets one thread go on
--   by one atomic operation or one access to a cell. Slots is on the mask, Valid on what holds between the
--   steps and what each of them leaves to the other threads, Steps on each step, Fifo on series of steps.
--   Counters wrap, but series so long that they would are excluded, since a claim could then mistake one
--   turn of the counter for another. Memory is sequentially consistent.
--
-- Shm: the rings in shared memory, 12-capstone-systems/01-shm-orderbook-feed/shm_feed.hpp (Shm.Feed) and
--   06-systems-ipc-and-shared-memory/projects/low_latency_shm_ipc_bus/shm_ipc_bus.hpp (Shm.Bus). Both
--   have the header and 64-bit wrapping counters of Shm.Ring, and the objects, names and handles of
--   Shm.Names. Sizes wrap as in the code, and publish and consume take the bytes that are reached through
--   the handle, those that are mapped as far as the object goes, and give no result beyond them. Shm.Runs
--   is the interface of operations and laws through which a run of calls is reduced to single calls. A
--   call is one step, and whether a system call succeeds is an argument.
--
-- BTree: 08-database-indexing-and-concurrency/exercises/latch_crabbing_btree.hpp. Search and insertion
--   give a result, and the series of latches that the call takes and gives back, shared or exclusive.
--   Leaf and Order are on what the tree holds, Latches on that series. The bound on the keys of a node is a parameter.
--
-- The loops are bounded by a list or a count, with these bounds where the code has none of its own: the
-- walks along a skip list by the number of its nodes, the loop over the blocks of a table by the number
-- of records, and its binary search by the length of the index. Each is enough in what is proved of
-- that loop. The loops of the allocators are bounded as in the code, by the orders left and by the
-- objects of a slab.
--
-- Not modelled: that the pages of Pool.Manager, which are of any type there, are slotted pages; two
-- calls on a ring of Spsc or Shm, or on the tree, whose steps fall between each other; the fiber
-- scheduler, the ELF inspector and the common helpers; and the event engines, the tracing and crash
-- tools and the benchmarks, which are calls of the operating system or timings.
pub mod Prelude
pub mod Tx
pub mod Book
pub mod Wal
pub mod Mpmc
pub mod Pool
pub mod Spsc
pub mod Alloc
pub mod BTree
pub mod Futex
pub mod Lsm
pub mod Shm
