-- ===== src/Utils.antt =====
-- utils/: the helpers that the other packages share.
pub mod SafeMutex
