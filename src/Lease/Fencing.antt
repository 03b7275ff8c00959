-- ===== src/Lease/Fencing.antt =====
-- src/pfs_core/pfs_paxos.cc: why a host may take another's record for dead. The two hosts' clocks
-- are the assumption that the comments of `host_record_live` state.
use native.Mathlib.Decide.{dec_lt}
use polarfs.Prelude.{ℕ, ◌+◌, ◌-◌, ◌*◌, ◌/◌, ◌%◌, ◌^◌, ◌≤◌, ◌<◌, ◌≡◌, false, arith}
use polarfs.Lease.Clock.{
  Options, Timespec, ns_per_sec, host_record_live, host_record_live_lem, lease_write_expired,
  lease_write_expired_lem,
}

-- Real time and the clocks of all hosts, in nanoseconds. `wall h` is CLOCK_REALTIME of host `h`;
-- CLOCK_BOOTTIME, which is compared with itself only, advances as real time does.
pub record Clocks (o : Options) : Type 0 where
  pub wall : ℕ → ℕ → ℕ
  pub skewed : (g h t : ℕ) → wall g t ≤ wall h t + o.skew_max * ns_per_sec
  pub steady : (h t n : ℕ) → wall h (t + n) ≡ wall h t + n

-- What `tv_sec` of CLOCK_REALTIME reads.
abbrev pub seconds : {o : Options} → Clocks o → ℕ → ℕ → ℕ
seconds c h t = c.wall h t / ns_per_sec

wall_mono : {o : Options} (c : Clocks o) (h t u : ℕ) → t ≤ u → c.wall h t + u ≡ c.wall h u + t
wall_mono c h t u le = rise (u - t) (omega arith)
  where
    rise : (k : ℕ) → t + k ≡ u → c.wall h t + u ≡ c.wall h u + t
    rise k e = rw (← e) (omega (arith, c.steady h t k))

expiry-le :
    (o : Options) (ts now : ℕ)
    → ts < 2 ^ 63
    → host_record_live o ts now ≡ false
    → ts + o.duration + o.skew_max + 1 ≤ now
expiry-le o ts now fits dead = ground (arith, host_record_live_lem o ts now fits)

-- Under the assumptions on the clocks: if host `g` reads its clock at time `n` and by that reading
-- the record is not live whose timestamp host `h` took at `stamp`, no earlier than it issued the
-- write at `issue`, and the timestamp fits int64_t, then at time `n` the lease duration has passed
-- since `issue`, which is the deadline of the kill timer of host `h`.
pub dead-ge-duration :
    {o : Options} (c : Clocks o) (g h issue stamp n : ℕ)
    → issue ≤ stamp
    → seconds c h stamp < 2 ^ 63
    → host_record_live o (seconds c h stamp) (seconds c g n) ≡ false
    → issue + o.duration * ns_per_sec ≤ n
dead-ge-duration {o} c g h issue stamp n p fits dead = elim (dec_lt n stamp) [
  | yes late ↦ absurd (
      omega (
        arith,
        expiry-le o (seconds c h stamp) (seconds c g n) fits dead,
        c.skewed g h n,
        wall_mono c h n stamp (omega arith),
      ))
  | no early ↦ omega (
    arith,
    expiry-le o (seconds c h stamp) (seconds c g n) fits dead,
    c.skewed g h n,
    wall_mono c h stamp n (omega arith),
  )
]

-- A reading of LEASE_CLOCK, which advances as real time does.
abbrev pub boottime : ℕ → Timespec
boottime t = record { sec = t / ns_per_sec; nsec = t % ns_per_sec }

-- `lease_write_expired` is false just until the lease duration has passed since the write's issue.
pub lease_write_expired-boottime :
    (o : Options) (now issue : ℕ)
    → lease_write_expired o (boottime now) (boottime issue) ≡ false
    → now < issue + o.duration * ns_per_sec
lease_write_expired-boottime o now issue e =
    ground (arith, lease_write_expired_lem o (boottime now) (boottime issue))
