-- ===== src/Lease/Scan.antt =====
-- src/pfs_core/pfs_paxos.cc: the scans over the sectors of all hosts. Each reads every sector but
-- its own once, in order, while other hosts go on writing; so a scan is a function of what its own
-- reads returned, and of its reading of CLOCK_REALTIME.
pub mod Passes
pub mod Freshest
pub mod Blocker
pub mod Free
use polarfs.Prelude.{
  ℕ, zero, suc, ◌+◌, Bool, true, false, not, ◌&&◌, ◌||◌, List, [], ◌∷◌, ltb, ◌==◌, if◌then◌else◌,
}
use polarfs.Prelude.Errno.{Status, done, fail, ebusy}
use polarfs.Lease.Clock.{Options, host_record_live}
use polarfs.Lease.Record.{
  HostBody, HostRecord, fl_rw, has_flag, same_bytes, Sector, Reading, failed, empty, bad_magic,
  bad_checksum, valid, host_record_read, Mount,
}

-- A corrupt sector that was watched until its writer could be taken for dead.
pub record DeadSector : Type 0 where
  pub host : ℕ
  pub raw : HostRecord

-- The first entry of the host decides.
unfoldable pub lease_sector_dead : List DeadSector → ℕ → HostRecord → Bool
lease_sector_dead [] i raw = false
lease_sector_dead (d ∷ ds) i raw =
    if d.host == i then same_bytes d.raw raw else lease_sector_dead ds i raw

-- What one scan sees: its clock reading in seconds, and what the read of each sector returned.
pub record View : Type 0 where
  pub now : ℕ
  pub sectors : ℕ → Sector

-- The outcome of `pfs_rw_lease_check`: 0, or -EBUSY with `*blocker_ret`.
pub data Check : Type 0 where
  clear : Check
  busy : ℕ → Check

-- One round of the loop of `pfs_rw_lease_check`: return -EBUSY, or go on with the freshest holder.
pub data Round : Type 0 where
  stop : Round
  go : ℕ → ℕ → Round

module _ (o : Options) (dead : List DeadSector) where
  unfoldable pub check_one : ℕ → ℕ → Reading → ℕ → ℕ → Round
  check_one now i (failed e) id ts = stop
  check_one now i (bad_magic raw) id ts = if lease_sector_dead dead i raw then go id ts else stop
  check_one now i (bad_checksum raw) id ts = if lease_sector_dead dead i raw then go id ts else stop
  check_one now i empty id ts = go id ts
  check_one now i (valid hr) id ts =
      if not (has_flag hr fl_rw)
      then go id ts
      else if host_record_live o hr.timestamp now
      then (if ltb ts hr.timestamp || id == 0 then go hr.host_id hr.timestamp else go id ts)
      else go id ts

  -- The round of `pfs_rw_lease_verify_prepare`; `true` goes on, `false` returns -EBUSY.
  unfoldable pub verify_one : ℕ → ℕ → ℕ → Reading → Bool
  verify_one ballot now i (failed e) = false
  verify_one ballot now i empty = true
  verify_one ballot now i (bad_magic raw) = lease_sector_dead dead i raw
  verify_one ballot now i (bad_checksum raw) = lease_sector_dead dead i raw
  verify_one ballot now i (valid hr) =
      if not (host_record_live o hr.timestamp now)
      then true
      else if has_flag hr fl_rw
      then false
      else if ltb ballot hr.mbal
      then false
      else if hr.mbal == ballot
      then false
      else true

  -- The round of `pfs_rw_lease_check_conflict`.
  unfoldable pub conflict_one : ℕ → ℕ → ℕ → Reading → Bool
  conflict_one ballot now i (failed e) = false
  conflict_one ballot now i empty = true
  conflict_one ballot now i (bad_magic raw) = lease_sector_dead dead i raw
  conflict_one ballot now i (bad_checksum raw) = lease_sector_dead dead i raw
  conflict_one ballot now i (valid hr) =
      if not (has_flag hr 3)
      then true
      else if not (host_record_live o hr.timestamp now)
      then true
      else if ltb ballot (if has_flag hr fl_rw then hr.bal else hr.mbal)
      then false
      else true

-- `for (; n rounds left; i++) if (!round(i)) return -EBUSY;`
unfoldable pub all_from : (ℕ → Bool) → ℕ → ℕ → Bool
all_from round zero i = true
all_from round (suc n) i = round i && all_from round n (i + 1)

module _ (o : Options) (crc : HostBody → ℕ) (dead : List DeadSector) (me : ℕ) (v : View) where
  -- Our own sector is passed over.
  unfoldable pub check_round : ℕ → ℕ → ℕ → Round
  unfolding check_one
  check_round i id ts =
      if i == me
      then go id ts
      else check_one o dead v.now i (host_record_read crc (v.sectors i)) id ts

  -- `n` rounds are left, and the next is that of host `i`.
  unfoldable pub check_loop : ℕ → ℕ → ℕ → ℕ → Check
  unfolding check_round
  check_loop zero i id ts = if id == 0 then clear else busy id
  check_loop (suc n) i id ts = elim (check_round i id ts) [
    | stop ↦ busy 0
    | go id' ts' ↦ check_loop n (i + 1) id' ts'
  ]

  unfoldable pub verify_loop : ℕ → ℕ → ℕ → Bool
  unfolding verify_one all_from
  verify_loop ballot =
      all_from λ i. i == me || verify_one o dead ballot v.now i (host_record_read crc (v.sectors i))

  unfoldable pub conflict_loop : ℕ → ℕ → ℕ → Bool
  unfolding conflict_one all_from
  conflict_loop ballot =
      all_from
        λ i. i == me || conflict_one o dead ballot v.now i (host_record_read crc (v.sectors i))

module _ (o : Options) (crc : HostBody → ℕ) (dead : List DeadSector) (m : Mount) (v : View) where
  unfoldable pub rw_lease_check : Check
  unfolding check_loop
  rw_lease_check = check_loop o crc dead m.host_id v m.num_hosts 1 0 0

  unfoldable pub rw_lease_verify_prepare : Status
  unfolding verify_loop
  rw_lease_verify_prepare =
      if verify_loop o crc dead m.host_id v m.current_ballot m.num_hosts 1 then done else fail ebusy

  unfoldable pub rw_lease_check_conflict : Status
  unfolding conflict_loop
  rw_lease_check_conflict =
      if conflict_loop o crc dead m.host_id v m.current_ballot m.num_hosts 1
      then done
      else fail ebusy
