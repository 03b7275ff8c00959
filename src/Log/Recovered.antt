-- ===== src/Log/Recovered.antt =====
-- A scan makes of a log the transactions that were written to it.
use mathlib.Core.Path.{subst, ap₂}
use polarfs.Prelude.{
  ℕ, suc, ◌+◌, ◌*◌, ◌≤◌, ◌<◌, ◌≡◌, refl, sym, ap, ◌∙◌, inl, inr, true, false, Bool-cases, ==_iff,
  none, List, [], ◌∷◌, ◌++◌, ◌==◌, length, length-append, arith, lt→ltb, eq→==,
}
use polarfs.Log.Ring.{entry_size}
use polarfs.Log.Scan.{Txq, scanned, Cursor, recreate_op, follows, scan_loop, log_scan}
use polarfs.Log.Scanned.{Delivers, collect, AreEntries, rounds, scan-tx}
use polarfs.Tx.Op.{MetaObj, Op}
use polarfs.Tx.Entry.{Entry}

-- Transactions, each by its entries and the operations that these record.
abbrev pub Transactions : Type 0
Transactions = List (List Entry × List Op)

-- They are numbered from `t + 1` on, and their entries from `lsn` on.
abbrev pub AreTxs : (MetaObj → ℕ) → ℕ → ℕ → Transactions → Type 0
AreTxs crc t lsn [] = Unit
AreTxs crc t lsn ((es, ops) ∷ ts) =
    AreEntries crc (t + 1) lsn es ops × AreTxs crc (t + 1) (lsn + length es) ts

abbrev pub all_entries : Transactions → List Entry
all_entries [] = []
all_entries ((es, ops) ∷ ts) = es ++ all_entries ts

abbrev pub all_rounds : Transactions → ℕ → ℕ
all_rounds [] n = n
all_rounds ((es, ops) ∷ ts) n = rounds es (all_rounds ts n)

abbrev pub rev_onto : List Op → List Op → List Op
rev_onto [] acc = acc
rev_onto (op ∷ ops) acc = rev_onto ops (op ∷ acc)

-- The queue of the transactions, in which the last stands first.
abbrev pub queue : Txq → ℕ → Transactions → Txq
queue acc t [] = acc
queue acc t ((es, ops) ∷ ts) = queue ((t + 1, rev_onto ops []) ∷ acc) (t + 1) ts

-- No transaction of the queue that may be joined is numbered after `t`.
abbrev pub Ends : Txq → ℕ → Type 0
Ends [] t = Unit
Ends ((t_id, ops) ∷ txs) t = t_id ≤ t

collect-top :
    (txs : Txq) (t : ℕ) (acc ops : List Op)
    → collect ((t, acc) ∷ txs) t ops ≡ (t, rev_onto ops acc) ∷ txs
unfolding recreate_op
collect-top txs t acc [] = refl
collect-top txs t acc (op ∷ ops) = rw (eq→== t t refl) (collect-top txs t (op ∷ acc) ops)

recreate_op_new :
    (txs : Txq) (t : ℕ) (op : Op) → Ends txs t → recreate_op txs (t + 1) op ≡ (t + 1, op ∷ []) ∷ txs
unfolding recreate_op
recreate_op_new [] t op e = refl
recreate_op_new ((t_id, ops) ∷ txs) t op e = elim (Bool-cases (t_id == t + 1)) [
  | inl k ↦ absurd (omega (arith, (==_iff t_id (t + 1)).0 k))
  | inr k ↦ rw k refl
]

collect-queue :
    (txs : Txq) (t lsn : ℕ) (crc : MetaObj → ℕ) (es : List Entry) (ops : List Op)
    → AreEntries crc (t + 1) lsn es ops
    → Ends txs t
    → collect txs (t + 1) ops ≡ (t + 1, rev_onto ops []) ∷ txs
collect-queue txs t lsn crc [] ops a e = absurd a
collect-queue txs t lsn crc (le ∷ es) [] a e = absurd a
collect-queue txs t lsn crc (le ∷ es) (op ∷ ops) a e =
    ap (λ q. collect q (t + 1) ops) (recreate_op_new txs t op e)
    ∙ collect-top txs (t + 1) (op ∷ []) ops

module _ (crc : MetaObj → ℕ) (log_size : ℕ) (read : ℕ → List Entry) (start stop : ℕ) where
  scan-txs :
      (n : ℕ) (c : Cursor) (nentry : ℕ) (acc : Txq) (t lsn : ℕ) (es : List Entry) (ops : List Op)
      (ts : Transactions)
      → AreTxs crc t lsn ((es, ops) ∷ ts)
      → Delivers log_size read c.buf c.offset c.readlen (all_entries ((es, ops) ∷ ts))
      → follows c.last_lsn lsn ≡ true
      → c.last_txid ≡ t
      → start ≤ t
      → t + (1 + length ts) ≡ stop
      → Ends acc t
      → scan_loop crc log_size read start stop (all_rounds ((es, ops) ∷ ts) n) c nentry acc
        ≡ scanned
            ((nentry + length (all_entries ((es, ops) ∷ ts))) * entry_size)
            (queue acc t ((es, ops) ∷ ts))
  scan-txs n c nentry acc t lsn es ops [] (a, u) d f last above total ends =
      let (k, count, after) =
        scan-tx crc log_size read start stop n c nentry acc (t + 1) lsn es ops [] a d f
          (inr (omega (arith, last))) (omega arith) (omega arith) in
      elim after [
        | inl (e, r) ↦
            r
            ∙ ap₂ (λ m q. scanned (m * entry_size) q) (omega (arith, length-append es []))
                (collect-queue acc t lsn crc es ops a ends)
        | inr (ne, rest) ↦ absurd (ne (omega arith))
      ]
  scan-txs n c nentry acc t lsn es ops ((es', ops') ∷ ts) (a, b) d f last above total ends =
      let (k, count, after) =
        scan-tx crc log_size read start stop (all_rounds ((es', ops') ∷ ts) n) c nentry acc (t + 1)
          lsn es ops (all_entries ((es', ops') ∷ ts)) a d f (inr (omega (arith, last)))
          (omega arith) (omega arith) in
      elim after [
        | inl (e, r) ↦ absurd (omega arith)
        | inr (ne, (c', d', el, et, r)) ↦
            r
            ∙ scan-txs n c' (nentry + length es) (collect acc (t + 1) ops) (t + 1) (lsn + length es)
                es' ops' ts b d'
                (ap (λ l. follows l (lsn + length es)) el
                  ∙ eq→== (lsn + length es) (k + 1) (sym count))
                et (omega arith) (omega arith)
                (subst (λ q. Ends q (t + 1)) (sym (collect-queue acc t lsn crc es ops a ends))
                  (omega arith))
            ∙ ap₂ (λ m q. scanned (m * entry_size) q)
                (omega (arith, length-append es (all_entries ((es', ops') ∷ ts))))
                (ap (λ q. queue q (t + 1) ((es', ops') ∷ ts))
                  (collect-queue acc t lsn crc es ops a ends))
      ]

-- Where reading on from the start offset brings the entries of transactions numbered one after the
-- other from the start on, in whatever pieces the reads bring them and whatever follows the last, a
-- scan up to the last fails no assertion and ends: it returns the bytes of just these entries, and
-- its queue has just these transactions with the operations that they record.
pub log_scan-Transactions :
    (crc : MetaObj → ℕ) (log_size : ℕ) (read : ℕ → List Entry) (start lsn start_offset : ℕ)
    (ts : Transactions) (n : ℕ)
    → start_offset < log_size
    → AreTxs crc start lsn ts
    → Delivers log_size read [] start_offset 0 (all_entries ts)
    → log_scan crc log_size read start (start + length ts) (all_rounds ts n) start_offset
      ≡ scanned (length (all_entries ts) * entry_size) (queue [] start ts)
unfolding log_scan
log_scan-Transactions crc log_size read start lsn start_offset [] n inside txs d =
    rw (lt→ltb start_offset log_size inside, eq→== start (start + 0) (omega arith)) refl
log_scan-Transactions crc log_size read start lsn start_offset ((es, ops) ∷ ts) n inside txs d =
    rw (lt→ltb start_offset log_size inside, apart)
      (scan-txs crc log_size read start (start + suc (length ts)) n
          (record {
            buf = [];
            offset = start_offset;
            readlen = 0;
            last_lsn = none;
            last_txid = start;
          })
          0 [] start lsn es ops ts txs d refl refl (omega arith) (omega arith) tt
        ∙ ap (λ m. scanned (m * entry_size) (queue [] start ((es, ops) ∷ ts))) (omega arith))
  where
    apart : start == start + suc (length ts) ≡ false
    apart = ground arith
