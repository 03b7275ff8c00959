-- ===== src/Lease/Scan/Passes.antt =====
-- What `pfs_rw_lease_verify_prepare` and `pfs_rw_lease_check_conflict` accept, host by host.
use polarfs.Prelude.{
  ℕ, zero, suc, ◌+◌, ◌≤◌, ◌<◌, ◌≡◌, ◌≢◌, ◌↔◌, ◌⊎◌, refl, Bool, true, false, List, arith, ◌||◌, ◌==◌,
  if◌then◌else◌,
}
use native.Mathlib.Decide.{ℕ_discrete}
use polarfs.Prelude.Errno.{done, fail, ebusy}
use polarfs.Lease.Clock.{Options, host_record_live}
use polarfs.Lease.Record.{
  HostBody, fl_rw, has_flag, Reading, failed, empty, bad_magic, bad_checksum, valid,
  host_record_read, Mount,
}
use polarfs.Lease.Scan.{
  DeadSector, lease_sector_dead, View, all_from, verify_one, conflict_one, verify_loop,
  conflict_loop, rw_lease_verify_prepare, rw_lease_check_conflict,
}

module _ (o : Options) (dead : List DeadSector) (ballot now i : ℕ) where
  -- Nothing in the sector stands in the way of going on from prepare to acquire.
  abbrev pub Unpromised : Reading → Type 0
  Unpromised (failed e) = ⊥
  Unpromised empty = Unit {0}
  Unpromised (bad_magic raw) = lease_sector_dead dead i raw ≡ true
  Unpromised (bad_checksum raw) = lease_sector_dead dead i raw ≡ true
  Unpromised (valid hr) =
      (host_record_live o hr.timestamp now ≡ false)
      ⊎ ((has_flag hr fl_rw ≡ false) × (hr.mbal < ballot))

  -- Nothing in the sector outranks a lease that has just been written.
  abbrev pub Outranked : Reading → Type 0
  Outranked (failed e) = ⊥
  Outranked empty = Unit {0}
  Outranked (bad_magic raw) = lease_sector_dead dead i raw ≡ true
  Outranked (bad_checksum raw) = lease_sector_dead dead i raw ≡ true
  Outranked (valid hr) =
      (host_record_live o hr.timestamp now ≡ false)
      ⊎ ((has_flag hr 3 ≡ false)
          ⊎ (((has_flag hr fl_rw ≡ true) × (hr.bal ≤ ballot))
              ⊎ ((has_flag hr fl_rw ≡ false) × (hr.mbal ≤ ballot))))

  pub verify_one-Unpromised :
      (r : Reading) → (verify_one o dead ballot now i r ≡ true) ↔ Unpromised r
  unfolding verify_one
  verify_one-Unpromised (failed e) = (λ e. cc, λ e. absurd e)
  verify_one-Unpromised empty = (λ e. tt, λ e. refl)
  verify_one-Unpromised (bad_magic raw) = (λ e. e, λ e. e)
  verify_one-Unpromised (bad_checksum raw) = (λ e. e, λ e. e)
  verify_one-Unpromised (valid hr) = (λ e. ground arith, λ e. ground arith)

  pub conflict_one-Outranked :
      (r : Reading) → (conflict_one o dead ballot now i r ≡ true) ↔ Outranked r
  unfolding conflict_one
  conflict_one-Outranked (failed e) = (λ e. cc, λ e. absurd e)
  conflict_one-Outranked empty = (λ e. tt, λ e. refl)
  conflict_one-Outranked (bad_magic raw) = (λ e. e, λ e. e)
  conflict_one-Outranked (bad_checksum raw) = (λ e. e, λ e. e)
  conflict_one-Outranked (valid hr) = (λ e. ground arith, λ e. ground arith)

-- A scan goes through exactly when every round does.
all_from-true :
    (round : ℕ → Bool) (n i : ℕ)
    → all_from round n i ≡ true
    → (j : ℕ) → i ≤ j
    → j < i + n
    → round j ≡ true
unfolding all_from
all_from-true round zero i e j p q = absurd (omega arith)
all_from-true round (suc n) i e j p q = elim (ℕ_discrete i j) [
  | yes same ↦ rw (← same) (ground arith)
  | no other ↦ all_from-true round n (i + 1) (ground arith) j (omega arith) (omega arith)
]

all_from_of_all :
    (round : ℕ → Bool) (n i : ℕ)
    → ((j : ℕ) → i ≤ j → j < i + n → round j ≡ true)
    → all_from round n i ≡ true
unfolding all_from
all_from_of_all round zero i h = refl
all_from_of_all round (suc n) i h = ground (
  arith,
  h i (omega arith) (omega arith),
  all_from_of_all round n (i + 1) (λ j p q. h j (omega arith) (omega arith)),
)

or_test : (i me : ℕ) (b : Bool) → (i == me || b) ≡ true → i ≢ me → b ≡ true
or_test i me b h ne = ground arith

test_or : (i me : ℕ) (b : Bool) → (i ≢ me → b ≡ true) → (i == me || b) ≡ true
test_or i me b h = elim (ℕ_discrete i me) [
  | yes same ↦ ground arith
  | no other ↦ ground (arith, h other)
]

passed : (b : Bool) → (if b then done else fail ebusy) ≡ done → b ≡ true
passed b e = ground arith

module _ (o : Options) (crc : HostBody → ℕ) (dead : List DeadSector) (m : Mount) (v : View) where
  -- The sector of another host `j`.
  abbrev pub Other : ℕ → Type 0
  Other j = (1 ≤ j) × (j ≤ m.num_hosts) × (j ≢ m.host_id)

  -- `pfs_rw_lease_verify_prepare` returns 0 exactly when each other host's sector is empty, or
  -- corrupt with the bytes of a writer judged dead, or holds a valid record that has expired, or
  -- one that is no RW lease and whose `mbal` is below our ballot.
  pub rw_lease_verify_prepare_iff : (rw_lease_verify_prepare o crc dead m v ≡ done) ↔ (
      (j : ℕ)
      → Other j
      → Unpromised o dead m.current_ballot v.now j (host_record_read crc (v.sectors j)))
  unfolding rw_lease_verify_prepare verify_loop
  rw_lease_verify_prepare_iff = (
    λ e j other. (verify_one-Unpromised o dead m.current_ballot v.now j _).0 (
        or_test j m.host_id _ (all_from-true _ m.num_hosts 1 (passed _ e) j other.0 (omega arith))
          other.2),
    λ all. rw (
        all_from_of_all _ m.num_hosts 1 λ j p q. test_or j m.host_id _ λ ne.
          (verify_one-Unpromised o dead m.current_ballot v.now j _).1 (all j (p, omega arith, ne))),
  )

  -- `pfs_rw_lease_check_conflict` returns 0 exactly when each other host's sector is empty, or
  -- corrupt with the bytes of a writer judged dead, or holds a valid record that has expired, or
  -- has neither flag, or whose ballot (`bal` of an RW lease, else `mbal`) is not above ours.
  pub rw_lease_check_conflict_iff : (rw_lease_check_conflict o crc dead m v ≡ done) ↔ (
      (j : ℕ)
      → Other j
      → Outranked o dead m.current_ballot v.now j (host_record_read crc (v.sectors j)))
  unfolding rw_lease_check_conflict conflict_loop
  rw_lease_check_conflict_iff = (
    λ e j other. (conflict_one-Outranked o dead m.current_ballot v.now j _).0 (
        or_test j m.host_id _ (all_from-true _ m.num_hosts 1 (passed _ e) j other.0 (omega arith))
          other.2),
    λ all. rw (
        all_from_of_all _ m.num_hosts 1 λ j p q. test_or j m.host_id _ λ ne.
          (conflict_one-Outranked o dead m.current_ballot v.now j _).1
            (all j (p, omega arith, ne))),
  )
