-- ===== src/Lease/Clock.antt =====
-- src/pfs_core/pfs_paxos.cc: the clocks of the RW lease. The age of another host's record is taken
-- on CLOCK_REALTIME, a deadline of the host's own on LEASE_CLOCK (CLOCK_BOOTTIME).
use polarfs.Prelude.{ℕ, ◌+◌, ◌-◌, ◌*◌, ◌^◌, ◌<◌, ◌≡◌, Bool, not, arith, ltb, leb, if◌then◌else◌}
use polarfs.Prelude.Int.{ℤ, pos, negsuc, ltb_ℤ, sub_ℕ, ◌+ℤ◌, ◌-ℤ◌, ◌*ℤ◌}

-- The options: `paxos_lease_duration` (positive) and `paxos_clock_skew_max` (not negative), seconds.
pub record Options : Type 0 where
  pub duration : ℕ
  pub skew_max : ℕ

pub record Timespec : Type 0 where
  pub sec : ℕ
  pub nsec : ℕ

abbrev pub ns_per_sec : ℕ
ns_per_sec = 1_000_000_000

-- The cast of a uint64_t to int64_t.
abbrev int64 : ℕ → ℤ
int64 w = if ltb w (2 ^ 63) then pos w else negsuc (2 ^ 64 - 1 - w)

unfoldable pub timespec_diff_ns : Timespec → Timespec → ℤ
unfolding ◌+ℤ◌ ◌*ℤ◌
timespec_diff_ns later earlier =
    sub_ℕ later.sec earlier.sec *ℤ pos ns_per_sec +ℤ sub_ℕ later.nsec earlier.nsec

-- `now` is `now->tv_sec`: the code reads no more of it.
unfoldable pub host_record_age : ℕ → ℕ → ℤ
unfolding ◌-ℤ◌
host_record_age ts now = pos now -ℤ int64 ts

unfoldable pub lease_expiry_age : Options → ℕ
lease_expiry_age o = o.duration + o.skew_max + 1

unfoldable pub host_record_live : Options → ℕ → ℕ → Bool
unfolding host_record_age lease_expiry_age
host_record_live o ts now = ltb_ℤ (host_record_age ts now) (pos (lease_expiry_age o))

-- `now` is what `lease_clock_now` reads.
unfoldable pub lease_write_expired : Options → Timespec → Timespec → Bool
unfolding timespec_diff_ns
lease_write_expired o now issue =
    not (ltb_ℤ (timespec_diff_ns now issue) (pos (o.duration * ns_per_sec)))

unfoldable pub lease_elapsed_sec : Timespec → Timespec → ℤ
unfolding ◌-ℤ◌
lease_elapsed_sec since now =
    sub_ℕ now.sec since.sec -ℤ pos (if ltb now.nsec since.nsec then 1 else 0)

abbrev pub to_ns : Timespec → ℕ
to_ns t = t.sec * ns_per_sec + t.nsec

-- A timestamp that fits int64_t is live until the expiry age has passed.
pub host_record_live_lem :
    (o : Options) (ts now : ℕ)
    → ts < 2 ^ 63
    → host_record_live o ts now ≡ ltb now (ts + o.duration + o.skew_max + 1)
unfolding host_record_live
host_record_live_lem o ts now h = ground arith

-- The difference of the two readings, in nanoseconds, decides.
pub lease_write_expired_lem :
    (o : Options) (now issue : Timespec)
    → lease_write_expired o now issue ≡ leb (to_ns issue + o.duration * ns_per_sec) (to_ns now)
unfolding lease_write_expired
lease_write_expired_lem o now issue = ground arith
