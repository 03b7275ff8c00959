-- ===== src/Lease/Scan/Blocker.antt =====
-- Which host `pfs_rw_lease_check` finds in the way, and that it is the last to expire.
use mathlib.Core.Path.{subst}
use polarfs.Prelude.{
  ℕ, ◌^◌, ◌≤◌, ◌<◌, ◌≡◌, ◌≢◌, ◌⊎◌, inl, inr, refl, sym, ◌∙◌, true, false, List, arith, ◌==◌,
  if◌then◌else◌, Bool-cases,
}
use polarfs.Lease.Clock.{Options, host_record_live, host_record_live_lem}
use polarfs.Lease.Record.{HostBody, HostRecord, fl_rw, has_flag, valid, host_record_read, Mount}
use polarfs.Lease.Scan.Passes.{Other}
use polarfs.Lease.Scan.{DeadSector, View, clear, busy, rw_lease_check}
use polarfs.Lease.Scan.Freshest.{Covered, Holds, Named, Surveyed, check_loop-Surveyed}

module _ (o : Options) (crc : HostBody → ℕ) (dead : List DeadSector) (m : Mount) (v : View)
    (named : (j : ℕ)
      → j ≢ m.host_id
      → Named o dead v.now j (host_record_read crc (v.sectors j))) where
  -- The lease that `pfs_rw_lease_check` blames: it is live, and of all live RW leases freshest.
  pub record Blocker (b ts : ℕ) : Type 0 where
    pub at : ℕ
    pub other : Other o crc dead m v at
    pub holds : Holds o dead v.now at b ts (host_record_read crc (v.sectors at))
    pub freshest :
        (j : ℕ)
        → Other o crc dead m v j
        → Covered o dead v.now j b ts (host_record_read crc (v.sectors j))

  pub surveyed :
      (rw_lease_check o crc dead m v ≡ busy 0)
      ⊎ ((id : ℕ) × (ts : ℕ) × Surveyed o crc dead m.host_id v m.num_hosts 1 0 0 id ts
          × (rw_lease_check o crc dead m v ≡ (if id == 0 then clear else busy id)))
  unfolding rw_lease_check
  surveyed = check_loop-Surveyed o crc dead m.host_id v named m.num_hosts 1 0 0 (λ e. refl)

  -- When every other host's record names its writer: if `pfs_rw_lease_check` names a blocker, that
  -- host holds a live RW lease, and no other host's live RW lease has a later timestamp.
  pub rw_lease_check-Blocker :
      (b : ℕ) → rw_lease_check o crc dead m v ≡ busy b → b ≢ 0 → (ts : ℕ) × Blocker b ts
  rw_lease_check-Blocker b e ne = elim surveyed [
    | inl f ↦ absurd (ne (ground arith))
    | inr (id, ts, s, f) ↦ (ts, blocker_of id ts s (named_id b id (sym e ∙ f) ne) ne)
  ]
    where
      named_id : (a i : ℕ) → busy a ≡ (if i == 0 then clear else busy i) → a ≢ 0 → i ≡ a
      named_id a i h k = ground arith

      blocker_of :
          (i ts : ℕ)
          → Surveyed o crc dead m.host_id v m.num_hosts 1 0 0 i ts
          → i ≡ b
          → b ≢ 0
          → Blocker b ts
      blocker_of i ts s same k = elim s.source [
        | inl (x, y) ↦ absurd (k (sym same ∙ x))
        | inr (j, lo, hi, other, w) ↦ record {
          at = j;
          other = (lo, omega arith, other);
          holds =
              subst (λ a. Holds o dead v.now j a ts (host_record_read crc (v.sectors j))) same w;
          freshest = λ k o'.
              subst (λ a. Covered o dead v.now k a ts (host_record_read crc (v.sectors k))) same
                (s.covered k o'.0 (omega (arith, o'.1)) o'.2);
        }
      ]

  -- While no other host's record is fresher than the blocker's, all of them have expired once the
  -- blocker's has: at any later reading `now` of the clock at which the blocker's record is not
  -- live, no RW lease that the check read is live. (Timestamps fit int64_t.)
  pub Blocker-expires_last :
      (b ts now j : ℕ) (hr : HostRecord)
      → Blocker b ts
      → ts < 2 ^ 63
      → v.now ≤ now
      → host_record_live o ts now ≡ false
      → Other o crc dead m v j
      → host_record_read crc (v.sectors j) ≡ valid hr
      → has_flag hr fl_rw ≡ true
      → hr.timestamp < 2 ^ 63
      → host_record_live o hr.timestamp now ≡ false
  Blocker-expires_last b ts now j hr k small later gone other e rw_flag fits =
      elim (Bool-cases (host_record_live o hr.timestamp v.now)) [
        | inl live ↦
            older hr.timestamp
              ((subst (Covered o dead v.now j b ts) e (k.freshest j other) rw_flag live).0) fits
        | inr old ↦ aged hr.timestamp fits old
      ]
    where
      older : (t : ℕ) → t ≤ ts → t < 2 ^ 63 → host_record_live o t now ≡ false
      older t le f =
          ground (arith, host_record_live_lem o t now f, host_record_live_lem o ts now small)

      aged :
          (t : ℕ)
          → t < 2 ^ 63
          → host_record_live o t v.now ≡ false
          → host_record_live o t now ≡ false
      aged t f old =
          ground (arith, host_record_live_lem o t now f, host_record_live_lem o t v.now f)
