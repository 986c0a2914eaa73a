-- ===== src/StreamClient.antt =====
-- streamclient/: what a client of a stream does.
pub mod Blocks
pub mod ExtentManager
pub mod Iterator
pub mod Appending
