-- ===== src/Bench.antt =====
-- The programs of cmd/ that measure the library, as far as they compute.
pub mod Ids
pub mod Blobs
pub mod Pairs
pub mod Coordinator
pub mod Nodes
pub mod Raw
pub mod Stats
