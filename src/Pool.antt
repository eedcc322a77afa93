-- ===== src/Pool.antt =====
-- 07-database-storage-and-buffer-pool: the frame replacer, the disk and the buffer pool.
pub mod Replacer
pub mod Page
pub mod Disk
pub mod Manager
mod Tests
