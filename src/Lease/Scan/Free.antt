-- ===== src/Lease/Scan/Free.antt =====
-- When `pfs_rw_lease_check` finds no host in the way.
use native.Mathlib.Decide.{ℕ_discrete}
use polarfs.Prelude.{
  ℕ, zero, suc, ◌+◌, ◌≤◌, ◌<◌, ◌≡◌, ◌≢◌, ◌⊎◌, ◌↔◌, inl, inr, refl, sym, ◌∙◌, true, false, List,
  arith, ◌==◌, if◌then◌else◌, Bool-cases,
}
use polarfs.Lease.Clock.{Options, host_record_live}
use polarfs.Lease.Record.{
  HostBody, fl_rw, has_flag, Reading, failed, empty, bad_magic, bad_checksum, valid,
  host_record_read, Mount,
}
use polarfs.Lease.Scan.Passes.{Other}
use polarfs.Lease.Scan.{
  DeadSector, lease_sector_dead, View, clear, busy, go, check_one, check_round, check_loop,
  rw_lease_check,
}
use polarfs.Lease.Scan.Freshest.{Covered, Named}
use polarfs.Lease.Scan.Blocker.{surveyed}

module _ (o : Options) (crc : HostBody → ℕ) (dead : List DeadSector) (m : Mount) (v : View) where
  -- No live RW lease, and no sector that cannot be judged.
  abbrev pub Free : ℕ → Reading → Type 0
  Free j (failed e) = ⊥
  Free j empty = Unit {0}
  Free j (bad_magic raw) = lease_sector_dead dead j raw ≡ true
  Free j (bad_checksum raw) = lease_sector_dead dead j raw ≡ true
  Free j (valid hr) = (has_flag hr fl_rw ≡ false) ⊎ (host_record_live o hr.timestamp v.now ≡ false)

  check_one-Free :
      (j id ts : ℕ) (r : Reading) → Free j r → check_one o dead v.now j r id ts ≡ go id ts
  unfolding check_one
  check_one-Free j id ts (failed e) f = absurd f
  check_one-Free j id ts empty f = refl
  check_one-Free j id ts (bad_magic raw) f = ground arith
  check_one-Free j id ts (bad_checksum raw) f = ground arith
  check_one-Free j id ts (valid hr) f = ground arith

  check_round-Free :
      (i id ts : ℕ)
      → (i ≢ m.host_id → Free i (host_record_read crc (v.sectors i)))
      → check_round o crc dead m.host_id v i id ts ≡ go id ts
  unfolding check_round
  check_round-Free i id ts free = elim (ℕ_discrete i m.host_id) [
    | yes own ↦ ground arith
    | no ne ↦ ground (arith, check_one-Free i id ts (host_record_read crc (v.sectors i)) (free ne))
  ]

  check_loop-Free :
      (n i id ts : ℕ)
      → ((j : ℕ) → i ≤ j → j < i + n → j ≢ m.host_id → Free j (host_record_read crc (v.sectors j)))
      → check_loop o crc dead m.host_id v n i id ts ≡ (if id == 0 then clear else busy id)
  unfolding check_loop
  check_loop-Free zero i id ts all = refl
  check_loop-Free (suc n) i id ts all =
      rw (check_round-Free i id ts (λ ne. all i (omega arith) (omega arith) ne), check_loop)
        (check_loop-Free n (i + 1) id ts λ j p q ne. all j (omega arith) (omega arith) ne)

  Covered-Free : (j id ts : ℕ) (r : Reading) → id ≡ 0 → Covered o dead v.now j id ts r → Free j r
  Covered-Free j id ts (failed e) z c = c
  Covered-Free j id ts empty z c = tt
  Covered-Free j id ts (bad_magic raw) z c = c
  Covered-Free j id ts (bad_checksum raw) z c = c
  Covered-Free j id ts (valid hr) z c = elim (Bool-cases (has_flag hr fl_rw)) [
    | inr none ↦ inl none
    | inl held ↦ elim (Bool-cases (host_record_live o hr.timestamp v.now)) [
      | inr old ↦ inr old
      | inl live ↦ absurd ((c held live).1 z)
    ]
  ]

  -- When every record names its writer, `pfs_rw_lease_check` returns 0 exactly when no other host
  -- holds a live RW lease and no other sector is unreadable or corrupt, but for corrupt ones with
  -- the bytes of a writer judged dead.
  pub rw_lease_check_iff :
      ((j : ℕ) → j ≢ m.host_id → Named o dead v.now j (host_record_read crc (v.sectors j)))
      → (rw_lease_check o crc dead m v ≡ clear)
        ↔ ((j : ℕ) → Other o crc dead m v j → Free j (host_record_read crc (v.sectors j)))
  unfolding rw_lease_check
  rw_lease_check_iff named = (
    λ e j other. elim (surveyed o crc dead m v named) [
      | inl f ↦ cc
      | inr (id, ts, s, f) ↦
          Covered-Free j id ts (host_record_read crc (v.sectors j)) (none_found id (sym e ∙ f))
            (s.covered j other.0 (omega (arith, other.1)) other.2)
    ],
    λ all. check_loop-Free m.num_hosts 1 0 0 λ j p q ne. all j (p, omega arith, ne),
  )
    where
      none_found : (id : ℕ) → clear ≡ (if id == 0 then clear else busy id) → id ≡ 0
      none_found id h = ground arith
