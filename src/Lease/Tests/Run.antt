-- ===== src/Lease/Tests/Run.antt =====
-- Host 1 of two acquires the lease, from zeroed sectors.
use polarfs.Prelude.{refl, arith}
use polarfs.Lease.Clock.{lease_write_expired}
use polarfs.Lease.Scan.{verify_one, conflict_one}
use polarfs.Lease.Record.{
  zero_record, prepare_record, acquire_record, ballot_generate, host_record_read,
}
use polarfs.Lease.Protocol.{
  Stamp, idle, announcing, prepared, verifying, promoting, acquired, timely, settling, holding,
  Host, update, System, announce, prepare_lands, start_verify, verify_own, verify_other, promote,
  acquire_lands, in_time, start_settle, settle_own, settle_other, hold, move, tick, Reach, here,
  next, Writes,
}
use polarfs.Lease.Protocol.Safety.{mutual_exclusion}
use polarfs.Lease.Tests.{opts, sum, clocks, mount_1, mount_1-IsHost}

abbrev resting : Host
resting = record {
  mount = mount_1;
  phase = idle;
  disk = zero_record;
  stamped = 0;
  prepared_at = 0;
  pending = 0;
}

abbrev start : System
start = record { now = 0; host = λ h. resting }

abbrev becomes : System → Host → System
becomes s x = record s { host = update s.host 1 x }

abbrev x1 : Host
x1 = record resting { phase = announcing; pending = 5_000_000_000 }

abbrev x2 : Host
x2 = record x1 {
  phase = prepared;
  disk = prepare_record sum mount_1 5;
  stamped = 5_000_000_000;
  prepared_at = 5_000_000_000;
}

abbrev x3 : Host
x3 = record x2 { phase = verifying 1 5_000_000_000 }

abbrev x4 : Host
x4 = record x2 { phase = verifying 2 5_000_000_000 }

abbrev x5 : Host
x5 = record x2 { phase = verifying 3 5_000_000_000 }

abbrev x6 : Host
x6 = record x2 { phase = promoting }

abbrev x7 : Host
x7 = record x6 { phase = acquired; disk = acquire_record sum mount_1 5 }

abbrev x8 : Host
x8 = record x7 { phase = timely }

abbrev x9 : Host
x9 = record x7 { phase = settling 1 5_000_000_000 }

abbrev x10 : Host
x10 = record x7 { phase = settling 2 5_000_000_000 }

abbrev x11 : Host
x11 = record x7 { phase = settling 3 5_000_000_000 }

abbrev x12 : Host
x12 = record x7 { phase = holding }

abbrev s0 : System
s0 = record start { now = 5_000_000_000 }

abbrev s1 : System
s1 = becomes s0 x1

abbrev s2 : System
s2 = becomes s1 x2

abbrev s3 : System
s3 = becomes s2 x3

abbrev s4 : System
s4 = becomes s3 x4

abbrev s5 : System
s5 = becomes s4 x5

abbrev s6 : System
s6 = becomes s5 x6

abbrev s7 : System
s7 = becomes s6 x7

abbrev s8 : System
s8 = becomes s7 x8

abbrev s9 : System
s9 = becomes s8 x9

abbrev s10 : System
s10 = becomes s9 x10

abbrev s11 : System
s11 = becomes s10 x11

abbrev s12 : System
s12 = becomes s11 x12

stamp : Stamp opts sum clocks 2 1 5_000_000_000 5_000_000_000 5_000_000_000
stamp = record { after = omega arith; before = omega arith; fits = omega arith }

r0 : Reach opts sum clocks 2 start s0
r0 = next here (tick 5_000_000_000)

r1 : Reach opts sum clocks 2 start s1
unfolding verify_one conflict_one lease_write_expired ballot_generate prepare_record acquire_record
    host_record_read
r1 =
    next r0
      (move 1 (omega arith) (omega arith) (announce mount_1 mount_1-IsHost refl refl refl refl))

r2 : Reach opts sum clocks 2 start s2
unfolding verify_one conflict_one lease_write_expired ballot_generate prepare_record acquire_record
    host_record_read
r2 = next r1 (move 1 (omega arith) (omega arith) (prepare_lands 5_000_000_000 stamp refl))

r3 : Reach opts sum clocks 2 start s3
unfolding verify_one conflict_one lease_write_expired ballot_generate prepare_record acquire_record
    host_record_read
r3 = next r2 (move 1 (omega arith) (omega arith) (start_verify refl))

r4 : Reach opts sum clocks 2 start s4
unfolding verify_one conflict_one lease_write_expired ballot_generate prepare_record acquire_record
    host_record_read
r4 = next r3 (move 1 (omega arith) (omega arith) (verify_own 1 5_000_000_000 refl refl))

r5 : Reach opts sum clocks 2 start s5
unfolding verify_one conflict_one lease_write_expired ballot_generate prepare_record acquire_record
    host_record_read
r5 =
    next r4
      (move 1 (omega arith) (omega arith) (verify_other 2 5_000_000_000 refl (omega arith) refl))

r6 : Reach opts sum clocks 2 start s6
unfolding verify_one conflict_one lease_write_expired ballot_generate prepare_record acquire_record
    host_record_read
r6 = next r5 (move 1 (omega arith) (omega arith) (promote 3 5_000_000_000 refl (omega arith)))

r7 : Reach opts sum clocks 2 start s7
unfolding verify_one conflict_one lease_write_expired ballot_generate prepare_record acquire_record
    host_record_read
r7 = next r6 (move 1 (omega arith) (omega arith) (acquire_lands 5_000_000_000 stamp refl))

r8 : Reach opts sum clocks 2 start s8
unfolding verify_one conflict_one lease_write_expired ballot_generate prepare_record acquire_record
    host_record_read
r8 = next r7 (move 1 (omega arith) (omega arith) (in_time refl refl))

r9 : Reach opts sum clocks 2 start s9
unfolding verify_one conflict_one lease_write_expired ballot_generate prepare_record acquire_record
    host_record_read
r9 = next r8 (move 1 (omega arith) (omega arith) (start_settle refl))

r10 : Reach opts sum clocks 2 start s10
unfolding verify_one conflict_one lease_write_expired ballot_generate prepare_record acquire_record
    host_record_read
r10 = next r9 (move 1 (omega arith) (omega arith) (settle_own 1 5_000_000_000 refl refl))

r11 : Reach opts sum clocks 2 start s11
unfolding verify_one conflict_one lease_write_expired ballot_generate prepare_record acquire_record
    host_record_read
r11 =
    next r10
      (move 1 (omega arith) (omega arith) (settle_other 2 5_000_000_000 refl (omega arith) refl))

r12 : Reach opts sum clocks 2 start s12
unfolding verify_one conflict_one lease_write_expired ballot_generate prepare_record acquire_record
    host_record_read
r12 = next r11 (move 1 (omega arith) (omega arith) (hold 3 5_000_000_000 refl (omega arith) refl))

host_1-Writes : Writes opts s12 1
host_1-Writes = record { alive = omega arith; holds = tt }

mutual_exclusion_example : ¬ Writes opts s12 2
mutual_exclusion_example =
    mutual_exclusion opts sum clocks 2 start s12 1 2 (λ h. refl) r12 (omega arith, omega arith)
      (omega arith, omega arith) (omega arith) host_1-Writes
