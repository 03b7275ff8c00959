-- ===== src/Lease/Tests/Watches.antt =====
-- The sector of host 2 holds the same corrupt bytes for as long as it is watched.
use polarfs.Prelude.{ℕ, ◌+◌, ◌≤◌, ◌≡◌, refl, some, false}
use polarfs.Lease.Record.{zero_record, bad_checksum}
use polarfs.Lease.Bad.{BadSector, dead, Look, first_look, watch_loop, Verdict}
use polarfs.Lease.Bad.Window.{watch_loop-window}
use polarfs.Lease.Tests.{opts}

-- Round `k` reads the clock at second 100 + k, and the sector half a second later.
abbrev looks : ℕ → Look
looks k = record {
  now = record { sec = 100 + k; nsec = 0 };
  seen = record { sec = 100 + k; nsec = 500_000_000 };
  reading = bad_checksum zero_record;
}

abbrev bad : BadSector
bad = record {
  host = 2;
  unreadable = false;
  switches = 0;
  raw = zero_record;
  since = (looks 0).seen;
}

first : first_look 2 (looks 0).seen (looks 0).reading ≡ some bad
unfolding first_look
first = refl

died : watch_loop opts looks 20 1 bad ≡ dead zero_record
unfolding watch_loop
died = refl

watch_loop-window_example : (m : ℕ) × (1 ≤ m) × Verdict opts looks m (dead zero_record)
watch_loop-window_example = watch_loop-window opts looks 2 20 bad zero_record first died
