-- ===== src/Lease/Bad/Window.antt =====
-- When a corrupt sector's writer is taken for dead.
use native.Mathlib.Decide.{ℕ_discrete}
use mathlib.Core.Path.{subst, subst₂}
use polarfs.Prelude.{
  ℕ, zero, suc, ◌+◌, ◌≤◌, ◌≡◌, ◌⊎◌, inl, inr, refl, sym, ◌∙◌, true, false, arith, ltb, Bool-cases,
  some,
}
use polarfs.Prelude.Errno.{Errno}
use polarfs.Lease.Clock.{Options}
use polarfs.Lease.Record.{
  HostRecord, same_bytes, Reading, failed, empty, bad_magic, bad_checksum, valid,
}
use polarfs.Lease.Bad.{
  first_look, BadSector, Watch, usable, refused, dead, watching, aged, watch_corrupt, watch_one,
  Look, watch_loop, CorruptAs, Steady, Watched, Verdict, same_bytes_self, aged-Verdict,
}

module _ (o : Options) (looks : ℕ → Look) where
  corrupt_same :
      (k : ℕ) (b : BadSector) (raw : HostRecord)
      → b.unreadable ≡ false
      → same_bytes b.raw raw ≡ true
      → watch_corrupt o (looks k).now (looks k).seen b raw ≡ aged o (looks k).now b
  unfolding watch_corrupt
  corrupt_same k b raw r e = ground arith

  watch_corrupt-Verdict :
      (k : ℕ) (b : BadSector) (raw : HostRecord)
      → ((r : HostRecord) → same_bytes r raw ≡ true → CorruptAs r (looks k).reading)
      → Watched looks k b
      → Verdict o looks k (watch_corrupt o (looks k).now (looks k).seen b raw)
  unfolding watch_corrupt
  watch_corrupt-Verdict k b raw at w = elim (Bool-cases b.unreadable) [
    | inl u ↦ elim (Bool-cases (ltb 2 (b.switches + 1))) [
      | inl many ↦ rw (u, many, watch_corrupt) tt
      | inr few ↦
          rw (u, few, watch_corrupt)
            (aged-Verdict o looks k
              (record b {
                unreadable = false;
                switches = b.switches + 1;
                raw = raw;
                since = (looks k).seen;
              })
              (λ e. (
                k,
                record {
                  before = omega arith;
                  first = refl;
                  same = λ i p q.
                      subst (λ n. CorruptAs raw (looks n).reading) (omega arith)
                        (at raw (same_bytes_self raw));
                },
              )))
    ]
    | inr r ↦ elim (Bool-cases (same_bytes b.raw raw)) [
      | inr changed ↦ rw (r, changed, watch_corrupt) tt
      | inl same ↦ subst (Verdict o looks k) (sym (corrupt_same k b raw r same)) (
          aged-Verdict o looks k b (λ e.
            let (j, s) = w e in
            (
              j,
              record {
                before = omega (arith, s.before);
                first = s.first;
                same = λ i p q. elim (ℕ_discrete k i) [
                  | yes now ↦ subst (λ n. CorruptAs b.raw (looks n).reading) now (at b.raw same)
                  | no past ↦ s.same i p (ground arith)
                ];
              },
            )))
    ]
  ]

  unreadable_twice :
      (k : ℕ) (b : BadSector) (e : Errno)
      → b.unreadable ≡ true
      → watch_one o (looks k).now (looks k).seen b (failed e) ≡ aged o (looks k).now b
  unfolding watch_one
  unreadable_twice k b e u = ground arith

  now_unreadable : (k : ℕ) → BadSector → BadSector
  now_unreadable k b = record b {
    unreadable = true;
    switches = b.switches + 1;
    since = (looks k).seen;
  }

  unreadable_now :
      (k : ℕ) (b : BadSector) (e : Errno)
      → b.unreadable ≡ false
      → ltb 2 (b.switches + 1) ≡ false
      → watch_one o (looks k).now (looks k).seen b (failed e)
        ≡ aged o (looks k).now (now_unreadable k b)
  unfolding watch_one now_unreadable
  unreadable_now k b e u few = ground arith

  unreadable_often :
      (k : ℕ) (b : BadSector) (e : Errno)
      → b.unreadable ≡ false
      → ltb 2 (b.switches + 1) ≡ true
      → watch_one o (looks k).now (looks k).seen b (failed e) ≡ refused
  unfolding watch_one
  unreadable_often k b e u many = ground arith

  not-Watched : (k : ℕ) (b : BadSector) → b.unreadable ≡ true → Watched looks k b
  not-Watched k b u = λ e. absurd (cc)

  watch_one-Verdict :
      (k : ℕ) (b : BadSector) (r : Reading)
      → (looks k).reading ≡ r
      → Watched looks k b
      → Verdict o looks k (watch_one o (looks k).now (looks k).seen b r)
  unfolding watch_one now_unreadable
  watch_one-Verdict k b empty h w = tt
  watch_one-Verdict k b (valid hr) h w = tt
  watch_one-Verdict k b (bad_magic raw) h w =
      watch_corrupt-Verdict k b raw (λ r same. subst (CorruptAs r) (sym h) same) w
  watch_one-Verdict k b (bad_checksum raw) h w =
      watch_corrupt-Verdict k b raw (λ r same. subst (CorruptAs r) (sym h) same) w
  watch_one-Verdict k b (failed e) h w = elim (Bool-cases b.unreadable) [
    | inl u ↦
        subst (Verdict o looks k) (sym (unreadable_twice k b e u))
          (aged-Verdict o looks k b (not-Watched (suc k) b u))
    | inr r ↦ elim (Bool-cases (ltb 2 (b.switches + 1))) [
      | inl many ↦ subst (Verdict o looks k) (sym (unreadable_often k b e r many)) tt
      | inr few ↦ subst (Verdict o looks k) (sym (unreadable_now k b e r few)) (
          aged-Verdict o looks k (now_unreadable k b)
            (not-Watched (suc k) (now_unreadable k b) refl))
    ]
  ]

  Watch-cases :
      (v : Watch)
      → ((v ≡ usable) ⊎ (v ≡ refused))
        ⊎ (((raw : HostRecord) × (v ≡ dead raw)) ⊎ ((b : BadSector) × (v ≡ watching b)))
  Watch-cases usable = inl (inl refl)
  Watch-cases refused = inl (inr refl)
  Watch-cases (dead raw) = inr (inl (raw, refl))
  Watch-cases (watching b) = inr (inr (b, refl))

  watch_loop-dead :
      (n k : ℕ) (b : BadSector) (raw : HostRecord)
      → Watched looks k b
      → watch_loop o looks n k b ≡ dead raw
      → (m : ℕ) × (k ≤ m) × Verdict o looks m (dead raw)
  unfolding watch_loop
  watch_loop-dead zero k b raw w e = absurd (ground arith)
  watch_loop-dead (suc n) k b raw w e =
      elim (Watch-cases (watch_one o (looks k).now (looks k).seen b (looks k).reading)) [
        | inl (inl v) ↦ absurd (ground arith)
        | inl (inr v) ↦ absurd (ground arith)
        | inr (inl (raw', v)) ↦ (
          k,
          omega arith,
          subst (Verdict o looks k) {y = dead raw} (v ∙ ground arith)
              (watch_one-Verdict k b (looks k).reading refl w),
        )
        | inr (inr (b', v)) ↦
            let (m, le, verdict) =
              watch_loop-dead n (k + 1) b' raw
                (subst (λ j. Watched looks j b') (omega arith)
                  (subst (Verdict o looks k) v (watch_one-Verdict k b (looks k).reading refl w)))
                (ground arith) in
            (m, omega (arith, le), verdict)
      ]

  first-Steady :
      (b : BadSector) (hr : HostRecord)
      → b.raw ≡ hr
      → b.since ≡ (looks 0).seen
      → CorruptAs hr (looks 0).reading
      → Steady looks 0 1 b.raw b.since
  first-Steady b hr x y z = record {
    before = omega arith;
    first = y;
    same = λ j p q. subst₂ (λ n x'. CorruptAs x' (looks n).reading) (omega arith) (sym x) z;
  }

  first_look-Watched :
      (i : ℕ) (r : Reading) (b : BadSector)
      → (looks 0).reading ≡ r
      → first_look i (looks 0).seen r ≡ some b
      → Watched looks 1 b
  unfolding first_look
  first_look-Watched i empty b h e = cc
  first_look-Watched i (valid hr) b h e = cc
  first_look-Watched i (failed e') b h e = not-Watched 1 b (ground arith)
  first_look-Watched i (bad_magic hr) b h e = λ u. (
    0,
    first-Steady b hr (ground arith) (ground arith)
        (subst (CorruptAs hr) (sym h) (same_bytes_self hr)),
  )
  first_look-Watched i (bad_checksum hr) b h e = λ u. (
    0,
    first-Steady b hr (ground arith) (ground arith)
        (subst (CorruptAs hr) (sym h) (same_bytes_self hr)),
  )

  -- If the watch on a sector, from its first read (round 0) on, ends with its writer taken for dead,
  -- then from some round on up to the last every read of the sector found the same corrupt bytes,
  -- those that are remembered, and the clock reading before the last of these rounds came the whole
  -- expiry age after the first of the reads had returned.
  pub watch_loop-window :
      (i n : ℕ) (b : BadSector) (raw : HostRecord)
      → first_look i (looks 0).seen (looks 0).reading ≡ some b
      → watch_loop o looks n 1 b ≡ dead raw
      → (m : ℕ) × (1 ≤ m) × Verdict o looks m (dead raw)
  watch_loop-window i n b raw e =
      watch_loop-dead n 1 b raw (first_look-Watched i (looks 0).reading b refl e)
