-- ===== src/Log/Scan.antt =====
-- src/pfs_core/pfs_log.cc, `pfs_log_scan`: the log entries of the transactions after one and up to
-- another, made operations again. Transaction and sequence numbers are below 2 ^ 63, where the
-- source's signed differences are exact.
use polarfs.Prelude.{
  ℕ, zero, suc, ◌+◌, ◌*◌, Bool, true, not, ◌&&◌, ◌||◌, Option, none, some, List, [], ◌∷◌, ltb, leb,
  ◌==◌, if◌then◌else◌, length,
}
use polarfs.Log.Ring.{off_modular_add, entry_size}
use polarfs.Tx.Op.{MetaObj, Op}
use polarfs.Tx.Entry.{Entry, txop_recreate}

-- The transactions made so far (`r_otxq`) with their numbers and operations, the last first.
abbrev pub Txq : Type 0
Txq = List (ℕ × List Op)

-- What a scan comes to: the bytes of the entries and the transactions, or a failed PFS_ASSERT.
pub data Scanned : Type 0 where
  scanned : ℕ → Txq → Scanned
  assert_failed : Scanned
  out_of_fuel : Scanned

-- `buf` holds the entries from `le` on of the last read, which took `readlen` bytes at `offset`.
pub record Cursor : Type 0 where
  pub buf : List Entry
  pub offset : ℕ
  pub readlen : ℕ
  pub last_lsn : Option ℕ
  pub last_txid : ℕ

-- The operation goes to the last transaction, or to a new one if that has another number.
unfoldable pub recreate_op : Txq → ℕ → Op → Txq
recreate_op [] txid op = (txid, op ∷ []) ∷ []
recreate_op ((t_id, ops) ∷ txs) txid op =
    if t_id == txid then (t_id, op ∷ ops) ∷ txs else (txid, op ∷ []) ∷ (t_id, ops) ∷ txs

abbrev pub follows : Option ℕ → ℕ → Bool
follows none lsn = true
follows (some last) lsn = lsn == last + 1

-- `read` is what `pfs_log_read` brings of the ring at an offset.
module _ (crc : MetaObj → ℕ) (log_size : ℕ) (read : ℕ → List Entry) (start_txid stop_txid : ℕ) where
  -- The refill of an exhausted buffer.
  unfoldable pub refill : Cursor → Cursor
  refill c = elim c.buf [
    | [] ↦
        let offset = off_modular_add c.offset c.readlen log_size in
        let buf = read offset in
        record c { buf = buf; offset = offset; readlen = length buf * entry_size }
    | le ∷ rest ↦ c
  ]

  -- The assertion before a refill.
  unfoldable pub may_refill : Cursor → Bool
  may_refill c = elim c.buf [ [] ↦ ltb c.offset log_size | le ∷ rest ↦ true ]

  -- The assertions on an entry.
  unfoldable pub in_order : Cursor → Entry → Bool
  in_order c le =
      follows c.last_lsn le.le_lsn
      && (le.le_txid == c.last_txid || le.le_txid == c.last_txid + 1)
      && ltb start_txid le.le_txid
      && leb le.le_txid stop_txid

  -- The loop, with `n` rounds left and `nentry` entries done.
  unfoldable pub scan_loop : ℕ → Cursor → ℕ → Txq → Scanned
  unfolding refill may_refill in_order recreate_op
  scan_loop zero c nentry txs = out_of_fuel
  scan_loop (suc n) c nentry txs =
      let c' = refill c in
      if may_refill c
      then elim c'.buf [
        | [] ↦ assert_failed
        | le ∷ rest ↦
            if in_order c' le
            then elim (txop_recreate crc le) [
              | none ↦ assert_failed
              | some op ↦
                  let txs' = recreate_op txs le.le_txid op in
                  let later =
                    scan_loop n
                      (record c' { buf = rest; last_lsn = some le.le_lsn; last_txid = le.le_txid })
                      (nentry + 1) txs' in
                  if le.le_txid == stop_txid && not le.le_more
                  then scanned ((nentry + 1) * entry_size) txs'
                  else later
            ]
            else assert_failed
      ]
      else assert_failed

  unfoldable pub log_scan : ℕ → ℕ → Scanned
  unfolding scan_loop
  log_scan n start_offset =
      if not (ltb start_offset log_size)
      then assert_failed
      else if start_txid == stop_txid
      then scanned 0 []
      else scan_loop n
          (record {
            buf = [];
            offset = start_offset;
            readlen = 0;
            last_lsn = none;
            last_txid = start_txid;
          })
          0 []
