-- ===== src/Log/Loaded.antt =====
-- A mount and a reader that catch up with the writer's log.
use mathlib.Core.Path.{subst}
use polarfs.Prelude.{
  some, ℕ, ◌+◌, ◌*◌, ◌≤◌, ◌<◌, ◌≡◌, refl, false, List, [], ltb, length, arith, le→leb,
}
use polarfs.Log.Ring.{entry_size}
use polarfs.Log.Commit.{LeaderRecord}
use polarfs.Log.Scan.{scanned, log_scan}
use polarfs.Log.Scanned.{Delivers}
use polarfs.Log.Recovered.{
  Transactions, AreTxs, all_entries, all_rounds, queue, log_scan-Transactions,
}
use polarfs.Log.Load.{loaded, log_load}
use polarfs.Log.Replay.{replay_loaded}
use polarfs.Log.Replayed.{replay_loaded-queue}
use polarfs.Tx.Op.{MetaObj}
use polarfs.Tx.Entry.{Entry, replay}

not_lt : (a b : ℕ) → b ≤ a → ltb a b ≡ false
not_lt a b h = ground arith

-- A mount whose own leader record overlaps the latest one, and whose ring holds the transactions from
-- its own tail up to the latest head, loads just these transactions; its record gets the latest
-- tail, head and log sequence number and stays the same otherwise; and what it then does with the
-- queue, its assertions included, is to its objects the replay of the transactions' entries one
-- after the other.
pub log_load-Transactions :
    (crc : MetaObj → ℕ) (read : ℕ → List Entry) (lr latest : LeaderRecord) (lsn : ℕ)
    (ts : Transactions) (n : ℕ) (locate : ℕ → ℕ → ℕ) (meta : ℕ → MetaObj)
    → lr.tail_txid ≤ latest.tail_txid
    → latest.tail_txid ≤ lr.head_txid
    → lr.head_txid ≤ latest.head_txid
    → lr.tail_offset < lr.log_size
    → AreTxs crc lr.tail_txid lsn ts
    → lr.tail_txid + length ts ≡ latest.head_txid
    → Delivers lr.log_size read [] lr.tail_offset 0 (all_entries ts)
    → (log_load crc read (all_rounds ts n) lr latest ≡ (
      record lr {
        tail_txid = latest.tail_txid;
        tail_offset = latest.tail_offset;
        head_txid = latest.head_txid;
        head_offset = latest.head_offset;
        head_lsn = latest.head_lsn;
      },
      loaded (length (all_entries ts) * entry_size) (queue [] lr.tail_txid ts),
    ))
      × (replay_loaded locate
            (length (all_entries ts) * entry_size)
            (queue [] lr.tail_txid ts)
            (some meta)
          ≡ replay crc locate (all_entries ts) meta)
unfolding log_load
log_load-Transactions crc read lr latest lsn ts n locate meta tails overlap heads inside txs upto
      d =
    (
      rw
          (
            le→leb lr.tail_txid latest.tail_txid tails,
            le→leb lr.head_txid latest.head_txid heads,
            not_lt lr.head_txid latest.tail_txid overlap,
            subst
                (λ stop.
                  log_scan crc lr.log_size read lr.tail_txid stop (all_rounds ts n) lr.tail_offset
                  ≡ scanned (length (all_entries ts) * entry_size) (queue [] lr.tail_txid ts))
                upto
                (log_scan-Transactions crc lr.log_size read lr.tail_txid lsn lr.tail_offset ts n
                  inside txs d),
          )
          refl,
      replay_loaded-queue crc locate lr.tail_txid lsn ts meta txs,
    )
