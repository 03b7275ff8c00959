-- ===== src/Lease/Scan/Freshest.antt =====
-- What the loop of `pfs_rw_lease_check` learns of the sectors that it has gone through.
use mathlib.Core.Path.{subst, subst₂}
use native.Mathlib.Decide.{ℕ_discrete}
use polarfs.Prelude.{
  ℕ, zero, suc, ◌+◌, ◌≤◌, ◌<◌, ◌≡◌, ◌≢◌, ◌⊎◌, inl, inr, refl, sym, ◌∙◌, true, List, arith, ◌==◌,
  if◌then◌else◌,
}
use polarfs.Lease.Clock.{Options, host_record_live}
use polarfs.Lease.Record.{
  HostBody, HostRecord, fl_rw, has_flag, Reading, failed, empty, bad_magic, bad_checksum, valid,
  host_record_read,
}
use polarfs.Lease.Scan.{
  DeadSector, lease_sector_dead, View, clear, busy, Round, stop, go, check_one, check_round,
  check_loop,
}

module _ (o : Options) (dead : List DeadSector) (now i : ℕ) where
  -- What a round that goes on says of the sector: a live RW lease is no fresher than `ts`, and
  -- then a holder `id` has been found.
  abbrev pub Covered : ℕ → ℕ → Reading → Type 0
  Covered id ts (failed e) = ⊥
  Covered id ts empty = Unit {0}
  Covered id ts (bad_magic raw) = lease_sector_dead dead i raw ≡ true
  Covered id ts (bad_checksum raw) = lease_sector_dead dead i raw ≡ true
  Covered id ts (valid hr) =
      has_flag hr fl_rw ≡ true
      → host_record_live o hr.timestamp now ≡ true
      → (hr.timestamp ≤ ts) × (id ≢ 0)

  -- A reading that is the live RW lease of host `id` with timestamp `ts`.
  abbrev pub Holds : ℕ → ℕ → Reading → Type 0
  Holds id ts r =
      (hr : HostRecord) × (r ≡ valid hr)
      × (has_flag hr fl_rw ≡ true)
      × (host_record_live o hr.timestamp now ≡ true)
      × (hr.host_id ≡ id)
      × (hr.timestamp ≡ ts)

  -- A record names its writer, and hosts are numbered from 1.
  abbrev pub Named : Reading → Type 0
  Named (valid hr) = hr.host_id ≢ 0
  Named _ = Unit {0}

  -- What a round that goes on has learned, and which holder it reports.
  record Learned (r : Reading) (id ts id' ts' : ℕ) : Type 0 where
    covered : Covered id' ts' r
    kept : id' ≡ 0 → id ≡ 0
    grown : ts ≤ ts'
    none_yet : id' ≡ 0 → ts' ≡ 0
    source : ((id' ≡ id) × (ts' ≡ ts)) ⊎ Holds id' ts' r

  check_one-Learned :
      (r : Reading) (id ts id' ts' : ℕ)
      → check_one o dead now i r id ts ≡ go id' ts'
      → (id ≡ 0 → ts ≡ 0)
      → Named r
      → Learned r id ts id' ts'
  unfolding check_one
  check_one-Learned (failed e) id ts id' ts' h z nm = cc
  check_one-Learned empty id ts id' ts' h z nm = ground arith
  check_one-Learned (bad_magic raw) id ts id' ts' h z nm = ground arith
  check_one-Learned (bad_checksum raw) id ts id' ts' h z nm = ground arith
  check_one-Learned (valid hr) id ts id' ts' h z nm = record {
    covered = λ a b. ground arith;
    kept = ground arith;
    grown = ground arith;
    none_yet = ground arith;
    source = ground (arith, held);
  }
    where
      held :
          has_flag hr fl_rw ≡ true
          → host_record_live o hr.timestamp now ≡ true
          → hr.host_id ≡ id'
          → hr.timestamp ≡ ts'
          → Holds id' ts' (valid hr)
      held a b c d = (hr, refl, a, b, c, d)

Covered-mono :
    (o : Options) (dead : List DeadSector) (now i id ts id' ts' : ℕ) (r : Reading)
    → ts ≤ ts'
    → (id' ≡ 0 → id ≡ 0)
    → Covered o dead now i id ts r
    → Covered o dead now i id' ts' r
Covered-mono o dead now i id ts id' ts' (failed e) h k c = c
Covered-mono o dead now i id ts id' ts' empty h k c = tt
Covered-mono o dead now i id ts id' ts' (bad_magic raw) h k c = c
Covered-mono o dead now i id ts id' ts' (bad_checksum raw) h k c = c
Covered-mono o dead now i id ts id' ts' (valid hr) h k c =
    λ rw live. (omega (arith, (c rw live).0), λ e. (c rw live).1 (k e))

Round-cases : (r : Round) → (r ≡ stop) ⊎ ((id : ℕ) × (ts : ℕ) × (r ≡ go id ts))
Round-cases stop = inl refl
Round-cases (go id ts) = inr (id, ts, refl)

module _ (o : Options) (crc : HostBody → ℕ) (dead : List DeadSector) (me : ℕ) (v : View) where
  abbrev reading : ℕ → Reading
  reading j = host_record_read crc (v.sectors j)

  -- The same of all rounds from `i` up to `i + n`, our own excepted.
  pub record Surveyed (n i id ts id' ts' : ℕ) : Type 0 where
    pub covered : (j : ℕ) → i ≤ j → j < i + n → j ≢ me → Covered o dead v.now j id' ts' (reading j)
    pub kept : id' ≡ 0 → id ≡ 0
    pub grown : ts ≤ ts'
    pub none_yet : id' ≡ 0 → ts' ≡ 0
    pub source :
        ((id' ≡ id) × (ts' ≡ ts))
        ⊎ ((j : ℕ) × (i ≤ j) × (j < i + n) × (j ≢ me) × Holds o dead v.now j id' ts' (reading j))

  module _ (named : (j : ℕ) → j ≢ me → Named o dead v.now j (reading j)) where
    -- Our own round changes nothing, any other learns from its sector.
    round_cases :
        (i id ts id₁ ts₁ : ℕ)
        → check_round o crc dead me v i id ts ≡ go id₁ ts₁
        → (id ≡ 0 → ts ≡ 0)
        → ((i ≡ me) × (id₁ ≡ id) × (ts₁ ≡ ts))
          ⊎ ((i ≢ me) × Learned o dead v.now i (reading i) id ts id₁ ts₁)
    unfolding check_round
    round_cases i id ts id₁ ts₁ e z = elim (ℕ_discrete i me) [
      | yes same ↦ inl (same, ground arith, ground arith)
      | no other ↦ inr (
        other,
        check_one-Learned o dead v.now i (reading i) id ts id₁ ts₁ (ground arith) z (named i other),
      )
    ]

    round-none_yet :
        (i id ts id₁ ts₁ : ℕ)
        → check_round o crc dead me v i id ts ≡ go id₁ ts₁
        → (id ≡ 0 → ts ≡ 0)
        → id₁ ≡ 0
        → ts₁ ≡ 0
    round-none_yet i id ts id₁ ts₁ e z n = elim (round_cases i id ts id₁ ts₁ e z) [
      | inl (_, p, q) ↦ q ∙ z (sym p ∙ n)
      | inr (_, l) ↦ l.none_yet n
    ]

    -- One more round in front of a survey.
    survey_step :
        (n i id ts id₁ ts₁ id' ts' : ℕ)
        → check_round o crc dead me v i id ts ≡ go id₁ ts₁
        → (id ≡ 0 → ts ≡ 0)
        → Surveyed n (i + 1) id₁ ts₁ id' ts'
        → Surveyed (suc n) i id ts id' ts'
    survey_step n i id ts id₁ ts₁ id' ts' e z s = elim (round_cases i id ts id₁ ts₁ e z) [
      | inl (same, p, q) ↦ record {
        covered = λ j lo hi ne. s.covered j (later j lo (λ r. ne (sym r ∙ same))) (omega arith) ne;
        kept = λ e. sym p ∙ s.kept e;
        grown = omega (arith, s.grown);
        none_yet = s.none_yet;
        source = elim s.source [
          | inl (x, y) ↦ inl (x ∙ p, y ∙ q)
          | inr (j, lo, hi, ne, w) ↦ inr (j, omega arith, omega arith, ne, w)
        ];
      }
      | inr (other, l) ↦ record {
        covered = λ j lo hi ne. elim (ℕ_discrete i j) [
          | yes at ↦
              subst (λ k. Covered o dead v.now k id' ts' (reading k)) at
                (Covered-mono o dead v.now i id₁ ts₁ id' ts' (reading i) s.grown s.kept l.covered)
          | no on ↦ s.covered j (later j lo on) (omega arith) ne
        ];
        kept = λ e. l.kept (s.kept e);
        grown = omega (arith, s.grown, l.grown);
        none_yet = s.none_yet;
        source = elim s.source [
          | inl (x, y) ↦ elim l.source [
            | inl (x', y') ↦ inl (x ∙ x', y ∙ y')
            | inr w ↦ inr (
              i,
              omega arith,
              omega arith,
              other,
              subst₂ (λ a b. Holds o dead v.now i a b (reading i)) (sym x) (sym y) w,
            )
          ]
          | inr (j, lo, hi, ne, w) ↦ inr (j, omega arith, omega arith, ne, w)
        ];
      }
    ]
      where
        later : (j : ℕ) → i ≤ j → i ≢ j → i + 1 ≤ j
        later j lo ne = ground arith

    -- The outcome of the loop, read back as a survey.
    pub check_loop-Surveyed :
        (n i id ts : ℕ)
        → (id ≡ 0 → ts ≡ 0)
        → (check_loop o crc dead me v n i id ts ≡ busy 0)
          ⊎ ((id' : ℕ) × (ts' : ℕ) × Surveyed n i id ts id' ts'
              × (check_loop o crc dead me v n i id ts ≡ (if id' == 0 then clear else busy id')))
    unfolding check_loop
    check_loop-Surveyed zero i id ts z = inr (
      id,
      ts,
      record {
        covered = λ j p q. absurd (omega arith);
        kept = λ e. e;
        grown = omega arith;
        none_yet = z;
        source = inl (refl, refl);
      },
      refl,
    )
    check_loop-Surveyed (suc n) i id ts z =
        elim (Round-cases (check_round o crc dead me v i id ts)) [
          | inl e ↦ inl (rw (e, check_loop))
          | inr (id₁, ts₁, e) ↦
              rw (e, check_loop)
                (elim (check_loop-Surveyed n (i + 1) id₁ ts₁ (round-none_yet i id ts id₁ ts₁ e z)) [
                  | inl f ↦ inl f
                  | inr (id', ts', s, f) ↦
                      inr (id', ts', survey_step n i id ts id₁ ts₁ id' ts' e z s, f)
                ])
        ]
