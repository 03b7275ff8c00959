-- ===== src/Lease/Tests.antt =====
-- Concrete hosts, clocks and sectors for the theorems on the lease.
mod Run
mod Scans
mod Waits
mod Watches
use polarfs.Prelude.{
  ◌%◌, ℕ, ◌+◌, ◌*◌, ◌^◌, ◌≤◌, ◌<◌, ◌≡◌, ◌≢◌, refl, inl, inr, false, true, [], arith, ◌==◌,
  if◌then◌else◌,
}
use polarfs.Lease.Clock.{Options, ns_per_sec, host_record_live}
use polarfs.Lease.Fencing.{Clocks, seconds, dead-ge-duration}
use polarfs.Lease.Record.{
  HostBody, HostRecord, zero_record, bytes, host_record_read, valid, has_flag, Mount,
  ballot_generate, prepare_record, acquire_record, read-prepare_record, read-acquire_record, sealed,
}
use polarfs.Lease.Scan.{
  View, Check, busy, clear, rw_lease_check, rw_lease_verify_prepare, rw_lease_check_conflict,
}
use polarfs.Lease.Scan.Passes.{
  rw_lease_verify_prepare_iff, rw_lease_check_conflict_iff, Unpromised, Outranked,
}
use polarfs.Lease.Leader.{
  LeaderBody, LeaderSector, leader_sector, formatted, leader_init, Room, verify_leader, ok,
  leader_init-verify,
}
use polarfs.Lease.Foreign.{
  renew_record, foreign_record, foreign_prepare_record, mount_of, foreign-own,
}
use polarfs.Lease.Ballot.{IsHost, ballots_differ}

abbrev pub opts : Options
opts = record { duration = 10; skew_max = 2 }

-- A checksum that depends on the record.
abbrev pub sum : HostBody → ℕ
sum b = b.timestamp + b.host_id

-- Host 2 is a second ahead.
abbrev pub wall : ℕ → ℕ → ℕ
wall h t = if h == 2 then t + 1_000_000_000 else t

pub skewed : (g h t : ℕ) → wall g t ≤ wall h t + 2 * ns_per_sec
skewed g h t = ground arith

pub steady : (h t n : ℕ) → wall h (t + n) ≡ wall h t + n
steady h t n = ground arith

abbrev pub clocks : Clocks opts
clocks = record { wall = wall; skewed = skewed; steady = steady }

abbrev pub mount_1 : Mount
mount_1 = record { num_hosts = 2; host_id = 1; generation = 7; current_ballot = 15 }

abbrev pub mount_2 : Mount
mount_2 = record { num_hosts = 2; host_id = 2; generation = 3; current_ballot = 8 }

pub mount_1-IsHost : IsHost mount_1
mount_1-IsHost = record {
  some_host = omega arith;
  known = omega arith;
  few = omega arith;
  mounts = omega arith;
}

mount_2-IsHost : IsHost mount_2
mount_2-IsHost = record {
  some_host = omega arith;
  known = omega arith;
  few = omega arith;
  mounts = omega arith;
}

dead_host :
    host_record_live opts (seconds clocks 2 4_000_000_000) (seconds clocks 1 20_000_000_000) ≡ false
unfolding host_record_live
dead_host = refl

dead-ge-duration_example : 3_000_000_000 + 10 * ns_per_sec ≤ 20_000_000_000
dead-ge-duration_example =
    dead-ge-duration clocks 1 2 3_000_000_000 4_000_000_000 20_000_000_000 (omega arith)
      (omega arith) dead_host

ballots_differ_example :
    (mount_1.host_id ≢ mount_2.host_id → ballot_generate mount_1 ≢ ballot_generate mount_2)
    × (mount_1.generation < mount_2.generation → ballot_generate mount_1 < ballot_generate mount_2)
ballots_differ_example = ballots_differ mount_1 mount_2 mount_1-IsHost mount_2-IsHost refl

abbrev leader_sum : LeaderBody → ℕ
leader_sum b = b.num_hosts + b.log_size

abbrev first_sector : LeaderSector
first_sector = leader_sector leader_sum 4096 254 254 false 1024

formatted_file : leader_init leader_sum 4096 0 0 false 1024 ≡ formatted first_sector 4194304
unfolding leader_init
formatted_file = refl

hosts_254 : first_sector.num_hosts ≡ 254
unfolding leader_sector
hosts_254 = refl
