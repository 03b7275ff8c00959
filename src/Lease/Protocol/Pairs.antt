-- ===== src/Lease/Protocol/Pairs.antt =====
-- Two hosts: when one has checked the other after writing its lease, and the other has verified the
-- one after its prepare, the one's ballot is not the lower, unless a record has expired.
use mathlib.Core.Path.{subst}
use polarfs.Prelude.{ℕ, suc, ◌+◌, ◌*◌, ◌≤◌, ◌<◌, ◌≡◌, ◌⊎◌, inl, inr, ap, true, false, [], arith}
use polarfs.Lease.Clock.{Options, ns_per_sec, host_record_live}
use polarfs.Lease.Fencing.{Clocks, seconds, dead-ge-duration}
use polarfs.Lease.Record.{
  HostBody, HostRecord, bytes, has_flag, host_record_read, Mount, ballot_generate, prepare_record,
  acquire_record, read-prepare_record, read-acquire_record,
}
use polarfs.Lease.Scan.{verify_one, conflict_one}
use polarfs.Lease.Protocol.{
  Phase, idle, announcing, prepared, verifying, promoting, acquired, timely, settling, holding,
  renewing, Host,
}
use polarfs.Lease.Protocol.Invariant.{Stamped, OwnAt}

module _ (hosts : ℕ) where
  -- The hosts below this number have been read by `pfs_rw_lease_verify_prepare`.
  abbrev pub verified_upto : Phase → ℕ
  verified_upto idle = 0
  verified_upto announcing = 0
  verified_upto prepared = 0
  verified_upto (verifying i t) = i
  verified_upto promoting = suc hosts
  verified_upto acquired = suc hosts
  verified_upto timely = suc hosts
  verified_upto (settling i t) = suc hosts
  verified_upto holding = suc hosts
  verified_upto renewing = suc hosts

  -- The hosts below this number have been read by `pfs_rw_lease_check_conflict`.
  abbrev pub checked_upto : Phase → ℕ
  checked_upto (settling i t) = i
  checked_upto holding = suc hosts
  checked_upto renewing = suc hosts
  checked_upto idle = 0
  checked_upto announcing = 0
  checked_upto prepared = 0
  checked_upto (verifying i t) = 0
  checked_upto promoting = 0
  checked_upto acquired = 0
  checked_upto timely = 0

-- The issue of the write whose deadline the host has to meet next.
abbrev pub base_at : Host → Phase → ℕ
base_at x idle = x.prepared_at
base_at x announcing = x.prepared_at
base_at x prepared = x.prepared_at
base_at x (verifying i t) = x.prepared_at
base_at x promoting = x.prepared_at
base_at x acquired = x.prepared_at
base_at x timely = x.stamped
base_at x (settling i t) = x.stamped
base_at x holding = x.stamped
base_at x renewing = x.stamped

abbrev pub base : Host → ℕ
base x = base_at x x.phase

module _ (o : Options) (crc : HostBody → ℕ) (c : Clocks o) (hosts : ℕ) where
  abbrev pub Meets : ℕ → ℕ → Type 0
  Meets now issue = now < issue + o.duration * ns_per_sec

  -- Host `a` in state `x` at phase `p`, and host `b` in state `y` at phase `q`.
  abbrev pub PairAt : ℕ → ℕ → ℕ → Host → Phase → Host → Phase → Type 0
  PairAt a b now x p y q =
      b < checked_upto hosts p
      → a < verified_upto hosts q
      → Meets now (base_at x p)
      → Meets now (base_at y q)
      → y.mount.current_ballot ≤ x.mount.current_ballot

  abbrev pub Pair : ℕ → ℕ → ℕ → Host → Host → Type 0
  Pair a b now x y = PairAt a b now x x.phase y y.phase

  -- What each round makes of the records that the lease writes.
  conflict-prepare_record :
      (ballot now i ts : ℕ) (m : Mount)
      → conflict_one o [] ballot now i (host_record_read crc (bytes (prepare_record crc m ts)))
        ≡ true
      → (host_record_live o ts now ≡ false) ⊎ (ballot_generate m ≤ ballot)
  unfolding conflict_one prepare_record has_flag
  conflict-prepare_record ballot now i ts m pass =
      ground (arith, ap (conflict_one o [] ballot now i) (read-prepare_record crc m ts))

  conflict-acquire_record :
      (ballot now i ts : ℕ) (m : Mount)
      → conflict_one o [] ballot now i (host_record_read crc (bytes (acquire_record crc m ts)))
        ≡ true
      → (host_record_live o ts now ≡ false) ⊎ (m.current_ballot ≤ ballot)
  unfolding conflict_one acquire_record has_flag
  conflict-acquire_record ballot now i ts m pass =
      ground (arith, ap (conflict_one o [] ballot now i) (read-acquire_record crc m ts))

  verify-acquire_record :
      (ballot now i ts : ℕ) (m : Mount)
      → verify_one o [] ballot now i (host_record_read crc (bytes (acquire_record crc m ts))) ≡ true
      → host_record_live o ts now ≡ false
  unfolding verify_one acquire_record has_flag
  verify-acquire_record ballot now i ts m pass =
      ground (arith, ap (verify_one o [] ballot now i) (read-acquire_record crc m ts))

  module _ (b now a t ballot : ℕ) where
    -- A record that looks expired to host `a` is past its deadline.
    expired :
        {m : Mount} {d : HostRecord} {issue : ℕ} {w : Mount → ℕ → HostRecord}
        → (s : Stamped o crc c hosts b now m d issue w)
        → host_record_live o (seconds c b s.stamp) (seconds c a t) ≡ false
        → issue + o.duration * ns_per_sec ≤ t
    expired {issue = issue} s dead = dead-ge-duration c a b issue s.stamp t s.after s.fits dead

    conflict_prepared :
        {m : Mount} {d : HostRecord} {issue : ℕ}
        → Stamped o crc c hosts b now m d issue (prepare_record crc)
        → conflict_one o [] ballot (seconds c a t) b (host_record_read crc (bytes d)) ≡ true
        → (issue + o.duration * ns_per_sec ≤ t) ⊎ (m.current_ballot ≤ ballot)
    conflict_prepared {m} s pass =
        elim (conflict-prepare_record ballot (seconds c a t) b (seconds c b s.stamp) m (
          subst
            (λ r.
              conflict_one o [] ballot (seconds c a t) b (host_record_read crc (bytes r)) ≡ true)
            s.written pass)) [
              | inl dead ↦ inl (expired s dead)
              | inr le ↦ inr (omega (arith, le, s.mounted.balloted))
            ]

    conflict_acquired :
        {m : Mount} {d : HostRecord} {issue : ℕ}
        → Stamped o crc c hosts b now m d issue (acquire_record crc)
        → conflict_one o [] ballot (seconds c a t) b (host_record_read crc (bytes d)) ≡ true
        → (issue + o.duration * ns_per_sec ≤ t) ⊎ (m.current_ballot ≤ ballot)
    conflict_acquired {m} s pass =
        elim (conflict-acquire_record ballot (seconds c a t) b (seconds c b s.stamp) m (
          subst
            (λ r.
              conflict_one o [] ballot (seconds c a t) b (host_record_read crc (bytes r)) ≡ true)
            s.written pass)) [ inl dead ↦ inl (expired s dead) | inr le ↦ inr le ]

    verify_acquired :
        {m : Mount} {d : HostRecord} {issue : ℕ}
        → Stamped o crc c hosts b now m d issue (acquire_record crc)
        → verify_one o [] ballot (seconds c a t) b (host_record_read crc (bytes d)) ≡ true
        → issue + o.duration * ns_per_sec ≤ t
    verify_acquired {m} s pass = expired s (
        verify-acquire_record ballot (seconds c a t) b (seconds c b s.stamp) m (
          subst
            (λ r. verify_one o [] ballot (seconds c a t) b (host_record_read crc (bytes r)) ≡ true)
            s.written pass))

    -- A conflict check that reads a verified host's sector is passed only by a ballot as high, or
    -- when that host has missed its deadline.
    pub conflict-verified :
        (y : Host) (p : Phase)
        → OwnAt o crc c hosts b now y p
        → 0 < verified_upto hosts p
        → conflict_one o [] ballot (seconds c a t) b (host_record_read crc (bytes y.disk)) ≡ true
        → (base_at y p + o.duration * ns_per_sec ≤ t) ⊎ (y.mount.current_ballot ≤ ballot)
    conflict-verified y idle own v pass = absurd (omega arith)
    conflict-verified y announcing own v pass = absurd (omega arith)
    conflict-verified y prepared own v pass = absurd (omega arith)
    conflict-verified y (verifying i u) own v pass =
        ground (arith, conflict_prepared own.0.0 pass, own.0.1)
    conflict-verified y promoting own v pass =
        ground (arith, conflict_prepared own.0.0 pass, own.0.1)
    conflict-verified y acquired own v pass = ground (arith, conflict_acquired own.0 pass, own.1)
    conflict-verified y timely own v pass = conflict_acquired own pass
    conflict-verified y (settling i u) own v pass = conflict_acquired own.0 pass
    conflict-verified y holding own v pass = conflict_acquired own pass
    conflict-verified y renewing own v pass = conflict_acquired own pass

    -- A verification that reads the sector of a host that has its lease written is passed only when
    -- that host has missed its deadline.
    pub verify-checked :
        (y : Host) (p : Phase)
        → OwnAt o crc c hosts b now y p
        → 0 < checked_upto hosts p
        → verify_one o [] ballot (seconds c a t) b (host_record_read crc (bytes y.disk)) ≡ true
        → base_at y p + o.duration * ns_per_sec ≤ t
    verify-checked y (settling i u) own v pass = verify_acquired own.0 pass
    verify-checked y holding own v pass = verify_acquired own pass
    verify-checked y renewing own v pass = verify_acquired own pass
    verify-checked y _ own v pass = absurd (omega arith)
