-- ===== src/Log/Tests/Scans.antt =====
-- A scan of two transactions that go round the end of a ring of four entries.
use polarfs.Prelude.{
  some, ℕ, ◌≡◌, refl, Bool, true, false, List, [], ◌∷◌, arith, ◌==◌, if◌then◌else◌,
}
use polarfs.Log.Loaded.{log_load-Transactions}
use polarfs.Log.Load.{log_load, loaded}
use polarfs.Log.Commit.{LeaderRecord}
use polarfs.Log.Group.{Group}
use polarfs.Log.Trim.{Groups}
use polarfs.Log.Recovered.{
  queue, Transactions, AreTxs, all_entries, all_rounds, log_scan-Transactions,
}
use polarfs.Log.Scan.{scanned, log_scan}
use polarfs.Log.Scanned.{Delivers, ended, held, fetched}
use polarfs.Log.Replay.{replay_loaded}
use polarfs.Tx.Op.{MetaObj, Op, create}
use polarfs.Tx.Entry.{replay, Entry, is_valid, txop_recreate}

abbrev old_sum : MetaObj → ℕ
old_sum mo = 9

-- The entry of an object with no checksum.
abbrev entry : ℕ → ℕ → ℕ → Bool → Entry
entry txid lsn number more = record {
  le_obj_val = record { mo_number = number; mo_type = 1; mo_used = 1; rest = 0; mo_checksum = 0 };
  le_lsn = lsn;
  le_sector_bda = 4096;
  le_txid = txid;
  le_obj_idx = 3;
  le_checksum = 0;
  le_more = more;
}

abbrev op_of : Entry → Op
op_of le = record create {
  recreate = true;
  idx = le.le_obj_idx;
  bda = le.le_sector_bda;
  value = le.le_obj_val;
}

abbrev two : Transactions
two =
    (
      entry 5 20 7 true ∷ entry 5 21 8 false ∷ [],
      op_of (entry 5 20 7 true) ∷ op_of (entry 5 21 8 false) ∷ [],
    )
    ∷ (entry 6 22 9 false ∷ [], op_of (entry 6 22 9 false) ∷ [])
    ∷ []

-- The last slot, and then the others up to the end.
abbrev ring_read : ℕ → List Entry
ring_read o =
    if o == 768
    then entry 5 20 7 true ∷ []
    else entry 5 21 8 false ∷ entry 6 22 9 false ∷ entry 1 3 1 false ∷ []

two-AreTxs : AreTxs old_sum 4 20 two
unfolding txop_recreate is_valid
two-AreTxs = (
  (
    record { is_txid = refl; is_lsn = refl; is_more = refl; recreates = refl },
    record { is_txid = refl; is_lsn = refl; is_more = refl; recreates = refl },
  ),
  (record { is_txid = refl; is_lsn = refl; is_more = refl; recreates = refl }, tt),
)

two-Delivers : Delivers 1024 ring_read [] 768 0 (all_entries two)
two-Delivers =
    fetched (entry 5 20 7 true) [] 768 0 (entry 5 21 8 false ∷ entry 6 22 9 false ∷ [])
      (omega arith) refl
      (fetched (entry 5 21 8 false) (entry 6 22 9 false ∷ entry 1 3 1 false ∷ []) 768 256
        (entry 6 22 9 false ∷ []) (omega arith) refl
        (held (entry 6 22 9 false) (entry 1 3 1 false ∷ []) 0 768 []
          (ended (entry 1 3 1 false ∷ []) 0 768)))

log_scan-Transactions_example :
    log_scan old_sum 1024 ring_read 4 6 (all_rounds two 0) 768
    ≡ scanned 768 (
        (6, op_of (entry 6 22 9 false) ∷ [])
        ∷ (5, op_of (entry 5 21 8 false) ∷ op_of (entry 5 20 7 true) ∷ [])
        ∷ [])
log_scan-Transactions_example =
    log_scan-Transactions old_sum 1024 ring_read 4 20 768 two 0 (omega arith) two-AreTxs
      two-Delivers

-- A mount that has read transactions up to 5, and a reader that has up to 4.
abbrev mounted : LeaderRecord
mounted = record {
  paxos = 1;
  tail_txid = 4;
  head_txid = 5;
  tail_offset = 768;
  head_offset = 256;
  log_size = 1024;
  head_lsn = 21;
  checksum = 0;
}

abbrev reader : LeaderRecord
reader = record {
  paxos = 1;
  tail_txid = 3;
  head_txid = 4;
  tail_offset = 512;
  head_offset = 768;
  log_size = 1024;
  head_lsn = 19;
  checksum = 0;
}

abbrev newest : LeaderRecord
newest = record {
  paxos = 2;
  tail_txid = 4;
  head_txid = 6;
  tail_offset = 768;
  head_offset = 512;
  log_size = 1024;
  head_lsn = 22;
  checksum = 0;
}

abbrev waiting : Group
waiting = record {
  ltxid = 3;
  rtxid = 4;
  roffset = 768;
  nsects = 2;
  sects = record { bda = 40; txid = 4 } ∷ record { bda = 60; txid = 4 } ∷ [];
}

abbrev working : Group
working = record { ltxid = 4; rtxid = 4; roffset = 768; nsects = 0; sects = [] }

abbrev groups : Groups
groups = record { wait = waiting; work = working }

-- The latest anchor in the mount's and the reader's records.
abbrev caught_up : ℕ → LeaderRecord
caught_up paxos = record newest { paxos = paxos }

-- A replica has each object at its number.
abbrev by_number : ℕ → ℕ → ℕ
by_number type number = number

abbrev blank : ℕ → MetaObj
blank a = record { mo_number = a; mo_type = 1; mo_used = 0; rest = 0; mo_checksum = 0 }

log_load-Transactions_example :
    (log_load old_sum ring_read (all_rounds two 0) mounted newest
      ≡ (caught_up 1, loaded 768 (queue [] 4 two)))
    × (replay_loaded by_number 768 (queue [] 4 two) (some blank)
        ≡ replay old_sum by_number (all_entries two) blank)
log_load-Transactions_example =
    log_load-Transactions old_sum ring_read mounted newest 20 two 0 by_number blank (omega arith)
      (omega arith) (omega arith) (omega arith) two-AreTxs refl two-Delivers
