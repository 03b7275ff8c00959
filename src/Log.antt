-- ===== src/Log.antt =====
-- src/pfs_core/pfs_log.cc, pfs_log.h and pfs_tx.cc: the journal, a ring of log entries in a file, and
-- the leader record that says which part of the ring is in use.
pub mod Ring
pub mod Group
pub mod Trim
pub mod Kept
pub mod Trimmed
mod Tests
pub mod Write
pub mod Wrap
pub mod Circular
pub mod Entries
pub mod Commit
pub mod Anchor
pub mod Committed
pub mod Scan
pub mod Scanned
pub mod Recovered
pub mod Load
pub mod Replay
pub mod Replayed
pub mod Loaded
