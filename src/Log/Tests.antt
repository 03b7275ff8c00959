-- ===== src/Log/Tests.antt =====
-- A small ring, its leader record and trim groups, for the theorems on the log.
mod Scans
use polarfs.Prelude.{
  ℕ, ◌+◌, ◌*◌, ◌/◌, ◌%◌, ◌≤◌, ◌<◌, ◌≡◌, ◌≢◌, refl, some, List, [], ◌∷◌, arith, length, replicate,
}
use polarfs.Prelude.Errno.{eio, aio_timeout, etimedout, Status, done, fail}
use polarfs.Log.Ring.{
  entry_size, log_usedspace, log_space, Between, log_usedspace_lem, log_read_at, frag_size,
  log_read_at_lem,
}
use polarfs.Log.Write.{Wrote, wrote, refused, logged, log_write, tx_log}
use polarfs.Log.Wrap.{ringed, Works}
use polarfs.Log.Circular.{log_write-ringed, log_write-keeps}
use polarfs.Log.Entries.{joined, AreEntries, tx_log-ringed}
use polarfs.Log.Commit.{LeaderRecord, Log, commit, paxos_try_acquire}
use polarfs.Log.Committed.{Committed, commit-fail, commit-done}
use polarfs.Log.Group.{Group, IsWf, trimgroup_insert, trimgroup_delete}
use polarfs.Log.Kept.{trimgroup_insert-IsWf, trimgroup_delete-IsWf}
use polarfs.Log.Trim.{Groups, log_trim}
use polarfs.Log.Trimmed.{log_trim-fail, log_trim-done}

-- Each write takes half of what it is given, and one byte more if that is odd.
abbrev halves : ℕ → ℕ → ℕ → Wrote
halves n w o = wrote ((w + 1) / 2)

halves-Works : Works halves
halves-Works n w o h = ((w + 1) / 2, refl, omega arith, omega arith)

halves-le : (n w o k : ℕ) → halves n w o ≡ wrote k → k ≤ w
halves-le n w o k e = ground arith

abbrev blank : ℕ → ℕ
blank p = 0

abbrev bytes : List ℕ
bytes = 7 ∷ 8 ∷ 9 ∷ []

-- A ring of 8 bytes, written from offset 6 on.
log_write-ringed_example :
    ((log_write 8 halves 5 blank bytes 6).1 ≡ logged 3)
    × ((p : ℕ) → p < 8 → (log_write 8 halves 5 blank bytes 6).0 p ≡ ringed 8 blank 6 bytes p)
log_write-ringed_example =
    log_write-ringed 8 halves 5 blank bytes 6 halves-Works (omega arith) (omega arith) (omega arith)

abbrev entry : List ℕ
entry = replicate 256 1

two-AreEntries : AreEntries (entry ∷ entry ∷ [])
two-AreEntries = (refl, (refl, tt))

tx_log-ringed_example :
    ((tx_log 1024 halves 1024 (1 * entry_size) blank (entry ∷ entry ∷ []) 768).1
      ≡ logged (length (joined (entry ∷ entry ∷ []))))
    × ((p : ℕ)
        → p < 1024
        → (tx_log 1024 halves 1024 (1 * entry_size) blank (entry ∷ entry ∷ []) 768).0 p
          ≡ ringed 1024 blank 768 (joined (entry ∷ entry ∷ [])) p)
tx_log-ringed_example =
    tx_log-ringed 1024 halves 1024 1 blank entry (entry ∷ []) 768 halves-Works (omega arith)
      (omega arith) two-AreEntries (omega arith) (omega arith)

abbrev leader : LeaderRecord
leader = record {
  paxos = 5;
  tail_txid = 3;
  head_txid = 5;
  tail_offset = 512;
  head_offset = 768;
  log_size = 1024;
  head_lsn = 9;
  checksum = 0;
}

abbrev log : Log
log = record { leader = leader; latest = leader }

between : Between 1024 512 768 256
between = record {
  tail_in = omega arith;
  head_in = omega arith;
  free = omega arith;
  whole = refl;
  ahead = refl;
}

abbrev crc : LeaderRecord → ℕ
crc lr = lr.head_txid + lr.tail_txid

abbrev succeeds : LeaderRecord → Status
succeeds lr = done

abbrev hangs : LeaderRecord → Status
hangs lr = fail aio_timeout

commit-done_example :
    (log' : Log) × (f' : ℕ → ℕ) × (commit crc succeeds halves
        (1 * entry_size)
        (paxos_try_acquire log)
        blank
        (entry ∷ entry ∷ [])
        leader
      ≡ some (log', f', done))
    × Committed crc succeeds log log' blank f' (joined (entry ∷ entry ∷ [])) 2 256
commit-done_example =
    commit-done crc succeeds halves 1 log blank entry (entry ∷ []) 256 halves-Works (omega arith)
      two-AreEntries between (omega arith) (omega arith) (omega arith) refl

abbrev refuses : ℕ → ℕ → ℕ → Wrote
refuses n w o = refused eio

failed_commit :
    commit crc succeeds refuses (1 * entry_size) log blank (entry ∷ []) leader
    ≡ some (log, blank, fail eio)
unfolding commit
failed_commit = refl

commit-fail_example : log ≡ log
commit-fail_example =
    commit-fail crc succeeds refuses (1 * entry_size) log log blank blank (entry ∷ []) leader eio
      failed_commit

abbrev waiting : Group
waiting = record {
  ltxid = 3;
  rtxid = 5;
  roffset = 768;
  nsects = 2;
  sects = record { bda = 40; txid = 4 } ∷ record { bda = 60; txid = 5 } ∷ [];
}

abbrev working : Group
working = record { ltxid = 5; rtxid = 5; roffset = 768; nsects = 0; sects = [] }

abbrev groups : Groups
groups = record { wait = waiting; work = working }

waiting-IsWf : IsWf waiting
waiting-IsWf = record {
  range = omega arith;
  counted = refl;
  ordered = (omega arith, (omega arith, tt));
  below = (omega arith, (omega arith, tt));
}

working-IsWf : IsWf working
working-IsWf = record { range = omega arith; counted = refl; ordered = tt; below = tt }

abbrev disk : ℕ → Status
disk b = done

failed_trim : log_trim crc hangs disk log groups ≡ some (log, groups, fail etimedout)
unfolding log_trim
failed_trim = refl

some_sects : waiting.sects ≢ []
some_sects e = cc

log_trim-done_example :
    (log' : Log) × (gs' : Groups) × (log_trim crc succeeds disk log groups ≡ some (log', gs', done))
    × (log'.leader ≡ record leader { tail_txid = 5; tail_offset = 768 })
    × (gs'.wait.sects ≡ [])
    × (gs'.wait.ltxid ≡ gs'.wait.rtxid)
    × (gs'.work.ltxid ≡ log'.leader.tail_txid)
    × IsWf gs'.wait
    × IsWf gs'.work
log_trim-done_example =
    log_trim-done crc succeeds disk log groups 256 between waiting-IsWf working-IsWf (omega arith)
      some_sects refl refl refl (λ b. refl) (λ lr. refl)
