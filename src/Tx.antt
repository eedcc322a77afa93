-- ===== src/Tx.antt =====
-- 09-database-transactions-and-recovery: snapshots, transactions, the engine and its log.
pub mod Mvcc
pub mod Manager
pub mod Engine
mod Tests
