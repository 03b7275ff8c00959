-- ===== src/Tx.antt =====
-- src/pfs_core/pfs_tx.cc and pfs_tx.h: transactions, which collect the changes of metadata objects
-- until they are logged and applied to the objects in memory.
pub mod Op
pub mod Queue
pub mod Wf
pub mod Alike
pub mod Init
pub mod Kept
pub mod Close
pub mod Done
pub mod View
pub mod Reached
pub mod Seen
pub mod Entry
pub mod Replay
mod Tests
