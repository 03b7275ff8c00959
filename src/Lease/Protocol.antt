-- ===== src/Lease/Protocol.antt =====
-- src/pfs_core/pfs_paxos.cc, `pfs_leader_load` and `pfs_rw_lease_renew`: all hosts acquire, hold and
-- renew the lease concurrently. A step is one access of one host to the disk or to its clocks; the
-- steps of the hosts interleave freely, and any host may give up, fail or crash at any point.
-- Sectors are written and read atomically and are not corrupted.
pub mod Invariant
pub mod Pairs
pub mod Moves
pub mod Safety
use polarfs.Prelude.{
  ℕ, zero, suc, ◌+◌, ◌*◌, ◌^◌, ◌≤◌, ◌<◌, ◌≡◌, ◌≢◌, true, false, [], ◌==◌, if◌then◌else◌,
}
use polarfs.Lease.Clock.{Options, ns_per_sec, lease_write_expired}
use polarfs.Lease.Fencing.{Clocks, seconds, boottime}
use polarfs.Lease.Record.{
  HostBody, HostRecord, zero_record, bytes, host_record_read, Mount, ballot_generate,
  prepare_record, acquire_record,
}
use polarfs.Lease.Scan.{verify_one, conflict_one}
use polarfs.Lease.Ballot.{IsHost}

-- Where a host stands in `pfs_leader_load`. A write in flight is a phase of its own. A scan holds
-- the next host to look at, and the time at which it read CLOCK_REALTIME.
pub data Phase : Type 0 where
  idle announcing prepared : Phase
  verifying : ℕ → ℕ → Phase
  promoting acquired timely : Phase
  settling : ℕ → ℕ → Phase
  holding renewing : Phase

-- `disk` is the host's sector. `stamped` is `mnt_lease_write_time`, `prepared_at` is
-- `prepare_issue`, and `pending` is `issue` of a write in flight: real times of those readings.
pub record Host : Type 0 where
  pub mount : Mount
  pub phase : Phase
  pub disk : HostRecord
  pub stamped : ℕ
  pub prepared_at : ℕ
  pub pending : ℕ

abbrev pub IsHolder : Phase → Type 0
IsHolder holding = Unit {0}
IsHolder renewing = Unit {0}
IsHolder _ = ⊥

abbrev pub update {ℓ} : {A : Type ℓ} → (ℕ → A) → ℕ → A → ℕ → A
update f i a j = if i == j then a else f j

-- All hosts, at a real time in nanoseconds.
pub record System : Type 0 where
  pub now : ℕ
  pub host : ℕ → Host

module _ (o : Options) (crc : HostBody → ℕ) (c : Clocks o) (hosts : ℕ) where
  -- A write that was issued at `issue` lands at `now` with a timestamp taken in between.
  pub record Stamp (h issue now stamp : ℕ) : Type 0 where
    pub after : issue ≤ stamp
    pub before : stamp ≤ now
    pub fits : seconds c h stamp < 2 ^ 63

  -- What host `h` can do at time `now`, when `sector` is what the disk holds.
  pub data Move (h now : ℕ) (sector : ℕ → HostRecord) (x : Host) : Host → Type 0 where
    announce :
        (m : Mount)
        → IsHost m
        → m.host_id ≡ h
        → m.num_hosts ≡ hosts
        → m.current_ballot ≡ ballot_generate m
        → x.phase ≡ idle
        → Move h now sector x (record x { mount = m; phase = announcing; pending = now })
    prepare_lands :
        (stamp : ℕ)
        → Stamp h x.pending now stamp
        → x.phase ≡ announcing
        → Move h now sector x (record x {
          phase = prepared;
          disk = prepare_record crc x.mount (seconds c h stamp);
          stamped = x.pending;
          prepared_at = x.pending;
        })
    start_verify : x.phase ≡ prepared → Move h now sector x (record x { phase = verifying 1 now })
    verify_own :
        (i t : ℕ)
        → x.phase ≡ verifying i t
        → i ≡ h
        → Move h now sector x (record x { phase = verifying (i + 1) t })
    verify_other :
        (i t : ℕ)
        → x.phase ≡ verifying i t
        → i ≢ h
        → verify_one o [] x.mount.current_ballot
            (seconds c h t)
            i
            (host_record_read crc (bytes (sector i)))
          ≡ true
        → Move h now sector x (record x { phase = verifying (i + 1) t })
    promote :
        (i t : ℕ)
        → x.phase ≡ verifying i t
        → hosts < i
        → Move h now sector x (record x { phase = promoting; pending = now })
    acquire_lands :
        (stamp : ℕ)
        → Stamp h x.pending now stamp
        → x.phase ≡ promoting
        → Move h now sector x (record x {
          phase = acquired;
          disk = acquire_record crc x.mount (seconds c h stamp);
          stamped = x.pending;
        })
    in_time :
        x.phase ≡ acquired
        → lease_write_expired o (boottime now) (boottime x.prepared_at) ≡ false
        → Move h now sector x (record x { phase = timely })
    start_settle : x.phase ≡ timely → Move h now sector x (record x { phase = settling 1 now })
    settle_own :
        (i t : ℕ)
        → x.phase ≡ settling i t
        → i ≡ h
        → Move h now sector x (record x { phase = settling (i + 1) t })
    settle_other :
        (i t : ℕ)
        → x.phase ≡ settling i t
        → i ≢ h
        → conflict_one o [] x.mount.current_ballot
            (seconds c h t)
            i
            (host_record_read crc (bytes (sector i)))
          ≡ true
        → Move h now sector x (record x { phase = settling (i + 1) t })
    hold :
        (i t : ℕ)
        → x.phase ≡ settling i t
        → hosts < i
        → lease_write_expired o (boottime now) (boottime x.stamped) ≡ false
        → Move h now sector x (record x { phase = holding })
    renew :
        x.phase ≡ holding
        → now < x.stamped + o.duration * ns_per_sec
        → Move h now sector x (record x { phase = renewing; pending = now })
    renew_lands :
        (stamp : ℕ)
        → Stamp h x.pending now stamp
        → x.phase ≡ renewing
        → now < x.stamped + o.duration * ns_per_sec
        → Move h now sector x (record x {
          phase = holding;
          disk = acquire_record crc x.mount (seconds c h stamp);
          stamped = x.pending;
        })
    give_up : Move h now sector x (record x { phase = idle })
    clear : x.phase ≡ idle → Move h now sector x (record x { disk = zero_record })

  pub data Step (s : System) : System → Type 0 where
    tick : (n : ℕ) → Step s (record s { now = s.now + n })
    move :
        (h : ℕ) {x : Host}
        → 1 ≤ h
        → h ≤ hosts
        → Move h s.now (λ i. (s.host i).disk) (s.host h) x
        → Step s (record s { host = update s.host h x })

  pub data Reach (start : System) : System → Type 0 where
    here : Reach start start
    next : {s t : System} → Reach start s → Step s t → Reach start t

-- A host may write to the file system: it holds the lease, and its kill timer, armed for the lease
-- duration after its last write was issued, has not fired.
pub record Writes (o : Options) (s : System) (h : ℕ) : Type 0 where
  pub alive : s.now < (s.host h).stamped + o.duration * ns_per_sec
  pub holds : IsHolder (s.host h).phase
