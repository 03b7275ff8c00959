-- ===== src/Lease.antt =====
-- src/pfs_core/pfs_paxos.cc, pfs_paxos.h: the lease that lets one host at a time mount the file
-- system for writing. Each host has a sector of its own in the paxos file, and reads those of all.
pub mod Clock
pub mod Fencing
pub mod Record
pub mod Scan
pub mod Wait
pub mod Bad
pub mod Foreign
pub mod Leader
pub mod Ballot
pub mod Protocol
pub mod Tests
