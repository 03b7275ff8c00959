-- ===== src/Log/Commit.antt =====
-- src/pfs_core/pfs_log.cc: `pfs_log_commit` and `pfs_log_paxos_forward_leader`: first the entries are
-- written, then the leader record that makes them part of the log.
use polarfs.Prelude.{
  ℕ, ◌+◌, ◌-◌, ◌/◌, ◌%◌, ◌^◌, Bool, ◌&&◌, ◌||◌, Option, none, some, List, ltb, leb, ◌==◌,
  if◌then◌else◌,
}
use polarfs.Prelude.Errno.{Errno, aio_timeout, etimedout, eagain, Status, done, fail}
use polarfs.Log.Ring.{off_modular_add, entry_size, log_space}
use polarfs.Log.Write.{Wrote, Logged, logged, failed, assert_failed, out_of_fuel, tx_log}

-- `pfs_leader_record_t`: `paxos` stands for the fields before `tail_txid`, read as one number.
pub record LeaderRecord : Type 0 where
  pub paxos : ℕ
  pub tail_txid : ℕ
  pub head_txid : ℕ
  pub tail_offset : ℕ
  pub head_offset : ℕ
  pub log_size : ℕ
  pub head_lsn : ℕ
  pub checksum : ℕ

-- `log_leader` and `log_leader_latest` of `pfs_log_t`.
pub record Log : Type 0 where
  pub leader : LeaderRecord
  pub latest : LeaderRecord

-- The memcmp of two leader records.
unfoldable pub same_leader : LeaderRecord → LeaderRecord → Bool
same_leader a b =
    a.paxos == b.paxos
    && (a.tail_txid == b.tail_txid
        && (a.head_txid == b.head_txid
            && (a.tail_offset == b.tail_offset
                && (a.head_offset == b.head_offset
                    && (a.log_size == b.log_size
                        && (a.head_lsn == b.head_lsn && a.checksum == b.checksum))))))

unfoldable pub paxos_try_acquire : Log → Log
paxos_try_acquire log = record log { latest = log.leader }

-- The log anchor of `lr`, with the paxos part of `latest`.
unfoldable pub with_anchor : LeaderRecord → LeaderRecord → LeaderRecord
with_anchor latest lr = record latest {
  tail_txid = lr.tail_txid;
  head_txid = lr.head_txid;
  tail_offset = lr.tail_offset;
  head_offset = lr.head_offset;
  log_size = lr.log_size;
  head_lsn = lr.head_lsn;
}

-- The first three assertions of `pfs_log_paxos_forward_leader`.
unfoldable pub moves_forward : LeaderRecord → LeaderRecord → Bool
moves_forward latest lr =
    (leb latest.tail_txid lr.tail_txid
      && (leb latest.head_txid lr.head_txid && leb latest.head_lsn lr.head_lsn))
    && (ltb latest.tail_txid lr.tail_txid
        || (ltb latest.head_txid lr.head_txid && ltb latest.head_lsn lr.head_lsn))

abbrev pub timed_out : Errno → Errno
timed_out aio_timeout = etimedout
timed_out e = e

-- The leader after `rv` bytes have been logged.
unfoldable pub advance_head : LeaderRecord → ℕ → LeaderRecord
advance_head lr rv = record lr {
  head_txid = (lr.head_txid + 1) % 2 ^ 64;
  head_lsn = (lr.head_lsn + rv / entry_size) % 2 ^ 64;
  head_offset = off_modular_add lr.head_offset rv lr.log_size;
}

-- `leader_write` is what `pfs_leader_write` returns of a record; `crc` is its `leader_checksum`,
-- which a write leaves in the record. `none` is a failed PFS_ASSERT.
module _ (crc : LeaderRecord → ℕ) (leader_write : LeaderRecord → Status) where
  unfoldable pub forward_leader : Log → Option (Log × Status)
  unfolding same_leader with_anchor moves_forward
  forward_leader log =
      let moved = with_anchor log.latest log.leader in
      if moves_forward log.latest log.leader && same_leader moved log.leader
      then (elim (leader_write moved) [
        | done ↦ some (record log { latest = record moved { checksum = crc moved } }, done)
        | fail e ↦ some (log, fail (timed_out e))
      ])
      else none

  -- From `pfs_tx_log` on: `f` is the log file after it, and `r` what it returned.
  unfoldable pub commit_anchor {ℓ} : {F : Type ℓ} → Log → F → Logged → Option (Log × F × Status)
  unfolding forward_leader advance_head
  commit_anchor log f (failed e) = some (log, f, fail e)
  commit_anchor log f assert_failed = none
  commit_anchor log f out_of_fuel = none
  commit_anchor log f (logged rv) =
      elim (forward_leader (record log { leader = advance_head log.leader rv })) [
        | none ↦ none
        | some (log', done) ↦ some (log', f, done)
        | some (log', fail e) ↦ some (record log' { leader = log.leader }, f, fail e)
      ]

  module _ {ℓ} {A : Type ℓ} (pwrite : ℕ → ℕ → ℕ → Wrote) (buflen : ℕ) where
    unfoldable pub commit :
        Log → (ℕ → A) → List (List A) → LeaderRecord → Option (Log × (ℕ → A) × Status)
    unfolding commit_anchor log_space tx_log
    commit log f entries latest =
        let lr = log.leader in
        if ltb (2 ^ 63 - 1) ((lr.head_txid + 2 ^ 64 - latest.head_txid) % 2 ^ 64)
        then some (log, f, fail eagain)
        else elim (log_space lr.log_size lr.tail_offset lr.head_offset) [
          | none ↦ none
          | some space ↦
              let (f', r) = tx_log lr.log_size pwrite space buflen f entries lr.head_offset in
              commit_anchor log f' r
        ]
