-- ===== src/Lease/Tests/Scans.antt =====
-- Host 1 looks at the sector of host 2.
use polarfs.Prelude.{ℕ, ◌≡◌, ◌≢◌, ◌↔◌, refl, Bool, true, false, [], arith, ◌==◌}
use polarfs.Prelude.Errno.{done}
use polarfs.Lease.Clock.{host_record_live}
use polarfs.Lease.Record.{
  HostRecord, Sector, bytes, zero_record, fl_rw, has_flag, valid, acquire_record, host_record_read,
}
use polarfs.Lease.Scan.{
  View, clear, busy, rw_lease_check, rw_lease_verify_prepare, rw_lease_check_conflict,
}
use polarfs.Lease.Scan.Passes.{
  Unpromised, Outranked, Other, rw_lease_verify_prepare_iff, rw_lease_check_conflict_iff,
}
use polarfs.Lease.Scan.Freshest.{Covered, Holds, Named}
use polarfs.Lease.Scan.Blocker.{Blocker}
use polarfs.Lease.Scan.Free.{Free, rw_lease_check_iff}
use polarfs.Lease.Tests.{opts, sum, mount_1, mount_2}

-- Host 2 acquired at second 15.
abbrev held : HostRecord
held = acquire_record sum mount_2 15

abbrev sector : Bool → Sector
sector true = bytes held
sector false = bytes zero_record

abbrev view : View
view = record { now = 20; sectors = λ j. sector (j == 2) }

named_sector : (j : ℕ) (b : Bool) → Named opts [] 20 j (host_record_read sum (sector b))
unfolding host_record_read acquire_record
named_sector j true = omega arith
named_sector j false = tt

named : (j : ℕ) → j ≢ 1 → Named opts [] 20 j (host_record_read sum (sector (j == 2)))
named j ne = named_sector j (j == 2)

blamed : rw_lease_check opts sum [] mount_1 view ≡ busy 2
unfolding rw_lease_check acquire_record host_record_read has_flag host_record_live
blamed = refl

rw_lease_check_iff_example : (rw_lease_check opts sum [] mount_1 view ≡ clear) ↔ (
    (j : ℕ)
    → Other opts sum [] mount_1 view j
    → Free opts sum [] mount_1 view j (host_record_read sum (sector (j == 2))))
rw_lease_check_iff_example = rw_lease_check_iff opts sum [] mount_1 view named

is_valid : host_record_read sum (bytes held) ≡ valid held
unfolding host_record_read acquire_record
is_valid = refl

held_flag : has_flag held fl_rw ≡ true
unfolding has_flag acquire_record
held_flag = refl

Covered-sector : (j : ℕ) (b : Bool) → Covered opts [] 20 j 2 15 (host_record_read sum (sector b))
unfolding host_record_read acquire_record
Covered-sector j true = λ a b. (omega arith, omega arith)
Covered-sector j false = tt

host_2-Holds : Holds opts [] 20 2 2 15 (host_record_read sum (bytes held))
unfolding acquire_record host_record_live has_flag
host_2-Holds = (held, is_valid, refl, refl, refl, refl)

blocker : Blocker opts sum [] mount_1 view named 2 15
blocker = record {
  at = 2;
  other = (omega arith, omega arith, omega arith);
  holds = host_2-Holds;
  freshest = λ j other. Covered-sector j (j == 2);
}

gone : host_record_live opts 15 40 ≡ false
unfolding host_record_live
gone = refl

held_stamp : held.timestamp ≡ 15
unfolding acquire_record
held_stamp = refl

rw_lease_verify_prepare_iff_example : (rw_lease_verify_prepare opts sum [] mount_1 view ≡ done) ↔ (
    (j : ℕ)
    → Other opts sum [] mount_1 view j
    → Unpromised opts [] 15 20 j (host_record_read sum (sector (j == 2))))
rw_lease_verify_prepare_iff_example = rw_lease_verify_prepare_iff opts sum [] mount_1 view

rw_lease_check_conflict_iff_example : (rw_lease_check_conflict opts sum [] mount_1 view ≡ done) ↔ (
    (j : ℕ)
    → Other opts sum [] mount_1 view j
    → Outranked opts [] 15 20 j (host_record_read sum (sector (j == 2))))
rw_lease_check_conflict_iff_example = rw_lease_check_conflict_iff opts sum [] mount_1 view
