-- ===== src/Extent.antt =====
-- extent/extent.go: append-only extent files of checksummed blocks.
pub mod Device
pub mod Checksum
pub mod Block
pub mod Header
pub mod File
pub mod Entries
