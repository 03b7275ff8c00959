-- ===== src/Lease/Bad.antt =====
-- src/pfs_core/pfs_paxos.cc, `pfs_rw_lease_wait_bad_sectors`: a sector that cannot be read, or whose
-- record is corrupt, is watched on the host's own clock until it can be judged.
pub mod Window
use native.Mathlib.Decide.{ℕ_discrete}
use mathlib.Core.Path.{subst}
use polarfs.Prelude.{
  ℕ, zero, suc, ◌+◌, ◌≤◌, ◌<◌, ◌≡◌, ◌≢◌, ◌⊎◌, inl, inr, refl, sym, ◌∙◌, Bool, true, false, not,
  List, [], ◌∷◌, ◌++◌, arith, ltb, ◌==◌, if◌then◌else◌, Bool-cases, Option, none, some,
}
use polarfs.Prelude.Int.{ℤ, pos, ltb_ℤ}
use polarfs.Prelude.Errno.{Errno}
use polarfs.Lease.Clock.{Options, Timespec, lease_elapsed_sec, lease_expiry_age}
use polarfs.Lease.Record.{
  HostRecord, zero_record, same_bytes, Reading, failed, empty, bad_magic, bad_checksum, valid,
}
use polarfs.Lease.Scan.{DeadSector}

-- `struct bad_sector`
pub record BadSector : Type 0 where
  pub host : ℕ
  pub unreadable : Bool
  pub switches : ℕ
  pub raw : HostRecord
  pub since : Timespec

-- What a read of a watched sector comes to: it has become usable, -EBUSY is returned, its writer is
-- dead, or it is watched on.
pub data Watch : Type 0 where
  usable refused : Watch
  dead : HostRecord → Watch
  watching : BadSector → Watch

unfoldable pub aged : Options → Timespec → BadSector → Watch
unfolding lease_elapsed_sec lease_expiry_age
aged o now b =
    if ltb_ℤ (lease_elapsed_sec b.since now) (pos (lease_expiry_age o))
    then watching b
    else if b.unreadable
    then refused
    else dead b.raw

unfoldable pub watch_corrupt : Options → Timespec → Timespec → BadSector → HostRecord → Watch
unfolding aged same_bytes
watch_corrupt o now seen b raw =
    if b.unreadable
    then if ltb 2 (b.switches + 1)
      then refused
      else aged o now
          (record b { unreadable = false; switches = b.switches + 1; raw = raw; since = seen })
    else if same_bytes b.raw raw
    then aged o now b
    else refused

-- `now` is read before the round, and `seen` after the read of the sector.
unfoldable pub watch_one : Options → Timespec → Timespec → BadSector → Reading → Watch
unfolding watch_corrupt
watch_one o now seen b empty = usable
watch_one o now seen b (valid hr) = usable
watch_one o now seen b (bad_magic raw) = watch_corrupt o now seen b raw
watch_one o now seen b (bad_checksum raw) = watch_corrupt o now seen b raw
watch_one o now seen b (failed e) =
    if b.unreadable
    then aged o now b
    else if ltb 2 (b.switches + 1)
    then refused
    else aged o now (record b { unreadable = true; switches = b.switches + 1; since = seen })

-- The first scan: the sectors to watch. What a failed read leaves in `raw` is not looked at.
unfoldable pub first_look : ℕ → Timespec → Reading → Option BadSector
first_look i seen empty = none
first_look i seen (valid hr) = none
first_look i seen (failed e) =
    some (record { host = i; unreadable = true; switches = 0; raw = zero_record; since = seen })
first_look i seen (bad_magic hr) =
    some (record { host = i; unreadable = false; switches = 0; raw = hr; since = seen })
first_look i seen (bad_checksum hr) =
    some (record { host = i; unreadable = false; switches = 0; raw = hr; since = seen })

-- One round of the while loop, at each of the sectors: those still watched, and the dead ones.
-- `look` gives what each host's sector read, and the time after.
unfoldable pub watch_round :
    Options
    → Timespec
    → (ℕ → Reading × Timespec)
    → List BadSector
    → List DeadSector
    → Option (List BadSector × List DeadSector)
unfolding watch_one
watch_round o now look [] ds = some ([], ds)
watch_round o now look (b ∷ bs) ds =
    let on = watch_round o now look bs ds in
    elim (watch_one o now (look b.host).1 b (look b.host).0) [
      | usable ↦ on
      | refused ↦ none
      | dead raw ↦ watch_round o now look bs (ds ++ (record { host = b.host; raw = raw } ∷ []))
      | watching b' ↦ elim on [ none ↦ none | some (bs', ds') ↦ some (b' ∷ bs', ds') ]
    ]

-- A round as one sector sees it.
pub record Look : Type 0 where
  pub now : Timespec
  pub seen : Timespec
  pub reading : Reading

-- The rounds of one sector, with `n` of fuel, from round `k` on.
unfoldable pub watch_loop : Options → (ℕ → Look) → ℕ → ℕ → BadSector → Watch
unfolding watch_one
watch_loop o looks zero k b = watching b
watch_loop o looks (suc n) k b =
    elim (watch_one o (looks k).now (looks k).seen b (looks k).reading) [
      | usable ↦ usable
      | refused ↦ refused
      | dead raw ↦ dead raw
      | watching b' ↦ watch_loop o looks n (k + 1) b'
    ]

-- The read found just these bytes, corrupt.
abbrev pub CorruptAs : HostRecord → Reading → Type 0
CorruptAs raw (bad_magic hr) = same_bytes raw hr ≡ true
CorruptAs raw (bad_checksum hr) = same_bytes raw hr ≡ true
CorruptAs raw _ = ⊥

-- All rounds from `j` up to `k` have found these bytes, and `since` is when the first of them did.
pub record Steady (looks : ℕ → Look) (j k : ℕ) (raw : HostRecord) (since : Timespec) : Type 0 where
  pub before : j < k
  pub first : since ≡ (looks j).seen
  pub same : (i : ℕ) → j ≤ i → i < k → CorruptAs raw (looks i).reading

-- A sector that is watched before round `k`.
abbrev pub Watched : (ℕ → Look) → ℕ → BadSector → Type 0
Watched looks k b = b.unreadable ≡ false → (j : ℕ) × Steady looks j k b.raw b.since

-- A verdict of death is one on a window of rounds.
abbrev pub Verdict : Options → (ℕ → Look) → ℕ → Watch → Type 0
Verdict o looks k (dead raw) =
    (j : ℕ) × (since : Timespec) × Steady looks j (suc k) raw since
    × (ltb_ℤ (lease_elapsed_sec since (looks k).now) (pos (lease_expiry_age o)) ≡ false)
Verdict o looks k (watching b) = Watched looks (suc k) b
Verdict o looks k _ = Unit {0}

pub same_bytes_self : (r : HostRecord) → same_bytes r r ≡ true
unfolding same_bytes
same_bytes_self r = ground arith

pub aged-Verdict :
    (o : Options) (looks : ℕ → Look) (k : ℕ) (b : BadSector)
    → Watched looks (suc k) b
    → Verdict o looks k (aged o (looks k).now b)
unfolding aged
aged-Verdict o looks k b w =
    elim (Bool-cases (ltb_ℤ (lease_elapsed_sec b.since (looks k).now) (pos (lease_expiry_age o)))) [
      | inl young ↦ rw (young, aged) w
      | inr old ↦ elim (Bool-cases b.unreadable) [
        | inl u ↦ rw (old, u, aged) tt
        | inr r ↦ rw (old, r, aged) (let (j, s) = w r in (j, b.since, s, old))
      ]
    ]
