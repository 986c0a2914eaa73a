-- ===== src/RangePartition.antt =====
-- rangepartition: the key-value store on streams.
pub mod Compaction
pub mod Recovery
pub mod GarbageCollection
pub mod DiscardManager
pub mod Flusher
pub mod Keys
pub mod Partition
pub mod Reader
pub mod Requests
pub mod Storage
pub mod Values
pub mod Versions
pub mod Writer
