-- ===== src/Blkio.antt =====
-- src/pfs_core/pfs_blkio.cc: reads and writes of any range of bytes on a disk that takes whole
-- sectors only.
pub mod Align
pub mod Fits
pub mod Io
pub mod Loop
pub mod Write
pub mod Outside
pub mod Read
pub mod Requests
mod Tests
