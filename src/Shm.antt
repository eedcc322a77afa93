-- ===== src/Shm.antt =====
-- The rings in shared memory: 06-systems-ipc-and-shared-memory/projects/low_latency_shm_ipc_bus and
-- 12-capstone-systems/01-shm-orderbook-feed/shm_feed.hpp.
pub mod Ring
pub mod Runs
pub mod Names
pub mod Feed
pub mod Bus
mod Tests
