-- ===== src/Lease/Tests/Waits.antt =====
-- Host 2 has stopped renewing; its record is polled each second.
use polarfs.Prelude.{ℕ, ◌+◌, arith}
use polarfs.Lease.Record.{valid, acquire_record}
use polarfs.Lease.Wait.{Poll, wait_loop, Ended, wait_loop-Ended}
use polarfs.Lease.Tests.{opts, sum, mount_2}

abbrev polls : ℕ → Poll
polls k = record { now = 20 + k; reading = valid (acquire_record sum mount_2 15) }

wait_loop-Ended_example : Ended opts 15 polls 0 (wait_loop opts 15 polls 9 0)
wait_loop-Ended_example =
    wait_loop-Ended opts 15 polls 20 8 0 (omega arith) (λ i. omega arith) (omega arith)
