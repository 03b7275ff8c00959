-- ===== src/Lib.antt =====
-- PolarFS: a file system in user space on a shared disk, which one host at a time may write.
--
-- The library models parts of the core, under src/pfs_core:
--
-- * Lease models pfs_paxos.cc and pfs_paxos.h. A host that mounts for writing acquires a lease by a
--   protocol of two phases on the sectors of the paxos file, renews it, and is killed by a timer if
--   it fails to. Lease.Clock has the clocks and ages (timespec_diff_ns to lease_write_expired),
--   Lease.Record the records and how a sector is read and written (pfs_host_record_read,
--   pfs_rw_lease_prepare, pfs_rw_lease_acquire, pfs_ballot_generate), Lease.Foreign the renewal and
--   the planted records, Lease.Scan the three scans over all sectors (pfs_rw_lease_check,
--   pfs_rw_lease_verify_prepare, pfs_rw_lease_check_conflict), Lease.Wait the wait for a holder
--   (pfs_rw_lease_wait_and_check), Lease.Bad the watch on unusable sectors
--   (pfs_rw_lease_wait_bad_sectors), Lease.Leader the file's first sector (pfs_leader_init,
--   verify_leader). Lease.Protocol composes them to a step relation of all hosts, in
--   the order of pfs_leader_load: each step is one access of one host to the disk or to its clocks.
-- * Anode models pfs_alloc.cc: the tree of allocation nodes, by pfs_anode_alloc, pfs_anode_free,
--   pfs_anode_undo and pfs_anode_redo. Anode.Tree views a tree as a set of free objects.
-- * Log models pfs_log.cc and pfs_tx_log of pfs_tx.cc: Log.Ring the offsets in the log file,
--   Log.Write the circular write, Log.Commit the commit and the leader record, Log.Group the trim
--   groups, Log.Trim the trim, Log.Scan the scan of the entries
--   by a reader (pfs_log_scan), Log.Load a mount's load and a reader's poll (pfs_log_load,
--   pfs_log_poll), Log.Replay what a mount does with the transactions that it loads
--   (pfs_load_log of pfs_mount.cc, pfs_txlist_replay of pfs_tx.cc).
-- * Blkio models pfs_blkio.cc: Blkio.Align the window of the next request (pfs_blkio_align), Blkio.Io
--   the segments with their bounce buffer, the loop and its errors (pfs_blkio_read, pfs_blkio_write).
--   Blkio.Loop has what holds of the loop for any segment function.
-- * Tx models pfs_tx.cc and pfs_tx.h: Tx.Op the operations of a transaction (_pfs_tx_new_op,
--   pfs_txop_init, _pfs_tx_done_op), what it shows (pfs_tx_get_mo) and applies (pfs_tx_apply), Tx.Entry
--   its log entries (pfs_txop_log) and their replay (pfs_txop_recreate, pfs_txop_redo, pfs_tx_replay),
--   Tx.Reached the steps of a caller.
-- * Namecache models pfs_namecache.cc: its records and list operations, Namecache.Calls the calls
--   (pfs_namecache_enter, pfs_namecache_lookup, pfs_namecache_delete_by_deno,
--   pfs_namecache_clear_mount) with the eviction, Namecache.Grow the thread that expands the tables
--   (maintenance_thread), Namecache.Steps the steps of all threads.
-- * Namei models the stack of directories of pfs_namei.cc with the path in its buffer (instk_push,
--   instk_pop, pfs_namei_lookup_done); Namei.Text has what strcpy and strrchr do in the buffer,
--   Namei.Walks the pushes and pops of a lookup (pfs_namei_lookup). Namei.Parse takes a path of the
--   user apart (pfs_namei_init).
-- * Prelude has the shared names, lists and integers, and the error codes.
--
-- The journal's leader record lies in the sector before the hosts' records of the paxos file, and
-- only the holder of the lease writes it; the allocation nodes' changes are what a transaction logs.
--
-- Numbers are those of the source with their wrap-around written out: ballots, and the transaction
-- and sequence numbers of a commit, wrap at 2 ^ 64, but those of the scans, trims and replays stay
-- below 2 ^ 63, where the source's signed differences are exact; a generation in a record wraps at
-- 2 ^ 32, and a timestamp is cast to a signed number. A failed PFS_ASSERT is a value of its own.
-- CRCs, the device and the file that a log write goes to are parameters, with what is needed of
-- them as hypotheses.
--
-- Fuel: the search of a leaf and of an inner node runs for as many rounds as there are objects or
-- children, which is where the source's loops return to their start; the circular write runs for as
-- many rounds as there are bytes, which is enough if each write takes a byte; the wait for a holder
-- runs until its record has expired, which is enough if each round's clock advances by a second; the
-- loop of the block I/O runs for as many rounds as there are bytes, and each window has one;
-- a scan runs for as many rounds as there are entries; the eviction of names runs for as many rounds
-- as there are nodes, pfs_namei_lookup_done for as many as there are entries, and the doubling of a
-- table's size for as many as its elements.
--
-- Assumed of the hosts: CLOCK_BOOTTIME and CLOCK_REALTIME advance as real time does, and two hosts'
-- CLOCK_REALTIME differ by no more than paxos_clock_skew_max, as the comments of host_record_live
-- ask for; a host's kill timer fires once the lease duration has passed since its last lease write
-- was issued. In Lease.Protocol sectors are written and read atomically and none is corrupt.
--
-- A call of the name cache is one step, as it runs under a lock of its own; a node's memory is its
-- address, malloc gives none that a node has, and the hash function is a parameter.
--
-- The stack of a lookup holds inodes by their numbers and counts the references on each; a failure
-- of memory or of pfs_inode_get is an argument of a push. In Namei.Walks the root's name is no
-- longer than mnt_pbdname allows, and a name has neither a NUL nor a slash, as strtok_r leaves none.
--
-- Not modelled: threads and requests of the log thread, the rollback and submission of a
-- transaction and its callbacks, the buffers of a trim group and its swap, the watchdog device,
-- the directories that names are looked up in and the loop of pfs_namei_lookup, the name cache if
-- memory runs out for a table of an expansion, its statistics and dump,
-- and the rest of the file system (files, directories, metadata objects, mounts, devices, IPC,
-- the daemon, its client and the tools).
pub mod Prelude
pub mod Lease
pub mod Anode
pub mod Log
pub mod Blkio
pub mod Namecache
pub mod Namei
pub mod Tx
