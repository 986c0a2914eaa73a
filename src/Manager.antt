-- ===== src/Manager.antt =====
-- manager/: the stream manager and what it shares with the partition manager.
pub mod Handler
pub mod EtcdOp
pub mod Policy
pub mod PartitionManager
pub mod StreamManager
