-- ===== src/Log/Load.antt =====
-- src/pfs_core/pfs_log.cc: `pfs_log_load` and `pfs_log_poll`, once the latest leader record is read.
-- A mount loads what lies between its own tail and the latest head; a reader polls what lies behind
-- its own head. Where the source exits because metadata must be reloaded, `reload_needed` stands.
use polarfs.Prelude.{ℕ, Bool, ◌&&◌, List, [], ltb, leb, if◌then◌else◌}
use polarfs.Prelude.Errno.{Errno, eagain}
use polarfs.Log.Commit.{LeaderRecord}
use polarfs.Log.Trim.{Groups, log_del_trimentry}
use polarfs.Log.Scan
use polarfs.Log.Scan.{Txq, Scanned, scanned, log_scan}
use polarfs.Tx.Op.{MetaObj}
use polarfs.Tx.Entry.{Entry}

-- How many bytes of entries were read, and the transactions to replay.
pub data Loaded : Type 0 where
  loaded : ℕ → Txq → Loaded
  failed : Errno → Loaded
  reload_needed : Loaded
  assert_failed : Loaded
  out_of_fuel : Loaded

-- The head of `latest`.
abbrev pub anchor_head : LeaderRecord → LeaderRecord → LeaderRecord
anchor_head lr latest = record lr {
  head_txid = latest.head_txid;
  head_offset = latest.head_offset;
  head_lsn = latest.head_lsn;
}

abbrev pub anchor_tail : LeaderRecord → LeaderRecord → LeaderRecord
anchor_tail lr latest = record lr { tail_txid = latest.tail_txid; tail_offset = latest.tail_offset }

-- `lr` takes over what the scan comes to.
abbrev pub after_scan : LeaderRecord → LeaderRecord → Scanned → LeaderRecord × Loaded
after_scan old new (scanned n txs) = (new, loaded n txs)
after_scan old new Scan.assert_failed = (old, assert_failed)
after_scan old new Scan.out_of_fuel = (old, out_of_fuel)

module _ (crc : MetaObj → ℕ) (read : ℕ → List Entry) where
  unfoldable pub log_load : ℕ → LeaderRecord → LeaderRecord → LeaderRecord × Loaded
  log_load n lr latest =
      if leb lr.tail_txid latest.tail_txid && leb lr.head_txid latest.head_txid
      then if ltb lr.head_txid latest.tail_txid
        then (lr, failed eagain)
        else after_scan lr (anchor_head (anchor_tail lr latest) latest)
            (log_scan crc lr.log_size read lr.tail_txid latest.head_txid n lr.tail_offset)
      else (lr, assert_failed)

  -- `le_txid` is the transaction of the entry at the head, which the poll looks at first; `probe` is
  -- whether it does.
  unfoldable pub log_poll :
      ℕ → Bool → ℕ → LeaderRecord → LeaderRecord → Groups → (LeaderRecord × Loaded) × Groups
  log_poll n probe le_txid lr latest gs =
      if probe && leb le_txid lr.head_txid
      then ((lr, loaded 0 []), gs)
      else if ltb lr.head_txid latest.tail_txid
      then ((lr, reload_needed), gs)
      else (let trimmed = ltb lr.tail_txid latest.tail_txid in
          let lr' = if trimmed then anchor_tail lr latest else lr in
          let gs' = if trimmed then log_del_trimentry gs latest.tail_txid else gs in
          (
            after_scan lr' (anchor_head lr' latest)
                (log_scan crc lr.log_size read lr.head_txid latest.head_txid n lr.head_offset),
            gs',
          ))
