-- ===== src/Lsm.antt =====
-- 08-database-indexing-and-concurrency/projects/concurrent_lsm_tree_engine: the Bloom filter, the
-- memtable's interface, the sorted tables on disk and the engine over them.
pub mod Bloom
pub mod SsTable
pub mod MemTable
pub mod SkipList
pub mod Engine
pub mod Database
mod Tests
