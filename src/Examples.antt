-- ===== src/Examples.antt =====
-- The theorems at concrete inputs.
pub mod Extents
pub mod Discards
pub mod Nodes
pub mod Compactions
pub mod Partitions
pub mod Regions
pub mod Streams
pub mod Logs
pub mod Recoveries
