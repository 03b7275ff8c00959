-- ===== src/Log/Scanned.antt =====
-- A scan of what the transactions' writers logged makes just their operations again.
use native.Mathlib.Decide.{ℕ_discrete}
use mathlib.Core.Path.{subst, subst₂, ap₂}
use polarfs.Prelude.{
  Bool-cases, ==_iff, ℕ, suc, ◌+◌, ◌*◌, ◌≤◌, ◌<◌, ◌≡◌, ◌≢◌, refl, sym, ap, ◌∙◌, ◌⊎◌, inl, inr, Bool,
  true, false, not, ◌&&◌, ◌||◌, Option, some, List, [], ◌∷◌, ◌++◌, ◌==◌, if◌then◌else◌, length,
  arith, le→leb, lt→ltb, eq→==,
}
use polarfs.Log.Ring.{off_modular_add, entry_size}
use polarfs.Log.Scan.{
  may_refill, Txq, Scanned, scanned, Cursor, recreate_op, follows, refill, in_order, scan_loop,
}
use polarfs.Tx.Op.{MetaObj, Op}
use polarfs.Tx.Entry.{Entry, txop_recreate}

-- Reading on from a buffer, and then from the ring, brings these entries.
pub data Delivers (log_size : ℕ) (read : ℕ → List Entry)
    : List Entry → ℕ → ℕ → List Entry → Type 0 where
  ended : (buf : List Entry) (o r : ℕ) → Delivers log_size read buf o r []
  held :
      (le : Entry) (buf : List Entry) (o r : ℕ) (les : List Entry)
      → Delivers log_size read buf o r les
      → Delivers log_size read (le ∷ buf) o r (le ∷ les)
  fetched :
      (le : Entry) (buf : List Entry) (o r : ℕ) (les : List Entry)
      → o < log_size
      → read (off_modular_add o r log_size) ≡ le ∷ buf
      → Delivers log_size read buf
          (off_modular_add o r log_size)
          (length (le ∷ buf) * entry_size)
          les
      → Delivers log_size read [] o r (le ∷ les)

-- An entry of transaction `txid` with a number, and whether the transaction has more.
pub record IsEntry (crc : MetaObj → ℕ) (txid lsn : ℕ) (more : Bool) (le : Entry) (op : Op)
    : Type 0 where
  pub is_txid : le.le_txid ≡ txid
  pub is_lsn : le.le_lsn ≡ lsn
  pub is_more : le.le_more ≡ more
  pub recreates : txop_recreate crc le ≡ some op

module _ (crc : MetaObj → ℕ) (log_size : ℕ) (read : ℕ → List Entry) (start stop : ℕ) where
  refill-Delivers :
      (buf : List Entry) (o r : ℕ) (l : Option ℕ) (t : ℕ) (le : Entry) (les : List Entry)
      → Delivers log_size read buf o r (le ∷ les)
      → let c =
          refill crc log_size read start stop
            (record { buf = buf; offset = o; readlen = r; last_lsn = l; last_txid = t }) in
        (rest : List Entry) × (c.buf ≡ le ∷ rest)
        × Delivers log_size read rest c.offset c.readlen les
        × (c.last_lsn ≡ l)
        × (c.last_txid ≡ t)
        × (may_refill crc log_size read start stop
              (record { buf = buf; offset = o; readlen = r; last_lsn = l; last_txid = t })
            ≡ true)
  unfolding refill may_refill
  refill-Delivers buf o r l t le les (held le' buf' o' r' les' d) =
      (buf', refl, d, refl, refl, refl)
  refill-Delivers buf o r l t le les (fetched le' buf' o' r' les' inside e d) = (
    buf',
    e,
    subst
        (λ b.
          Delivers log_size read buf' (off_modular_add o' r' log_size) (length b * entry_size) les')
        (sym e) d,
    refl,
    refl,
    lt→ltb o' log_size inside,
  )

  in_order-true :
      (c : Cursor) (le : Entry) (l : Option ℕ) (t lsn txid : ℕ)
      → c.last_lsn ≡ l
      → c.last_txid ≡ t
      → le.le_lsn ≡ lsn
      → le.le_txid ≡ txid
      → follows l lsn ≡ true
      → (txid ≡ t) ⊎ (txid ≡ t + 1)
      → start < txid
      → txid ≤ stop
      → in_order crc log_size read start stop c le ≡ true
  unfolding in_order
  in_order-true c le l t lsn txid el et en ei f near above below =
      rw (el, et, en, ei, f, near_test, lt→ltb start txid above, le→leb txid stop below) refl
    where
      near_test : txid == t || txid == t + 1 ≡ true
      near_test = ground arith

  -- One round.
  scan-step :
      (n : ℕ) (c : Cursor) (nentry : ℕ) (txs : Txq) (le : Entry) (rest : List Entry) (op : Op)
      → (refill crc log_size read start stop c).buf ≡ le ∷ rest
      → may_refill crc log_size read start stop c ≡ true
      → in_order crc log_size read start stop (refill crc log_size read start stop c) le ≡ true
      → txop_recreate crc le ≡ some op
      → scan_loop crc log_size read start stop (suc n) c nentry txs ≡ (
          if le.le_txid == stop && not le.le_more
          then scanned ((nentry + 1) * entry_size) (recreate_op txs le.le_txid op)
          else scan_loop crc log_size read start stop n
              (record (refill crc log_size read start stop c) {
                buf = rest;
                last_lsn = some le.le_lsn;
                last_txid = le.le_txid;
              })
              (nentry + 1)
              (recreate_op txs le.le_txid op))
  unfolding scan_loop
  scan-step n c nentry txs le rest op b i o r = rw (b, i, o, r, scan_loop) refl

  -- A round on the next entry of transaction `t`.
  scan-entry :
      (n : ℕ) (c : Cursor) (nentry : ℕ) (txs : Txq) (le : Entry) (les : List Entry) (op : Op)
      (lsn t : ℕ) (more : Bool)
      → Delivers log_size read c.buf c.offset c.readlen (le ∷ les)
      → IsEntry crc t lsn more le op
      → follows c.last_lsn lsn ≡ true
      → (t ≡ c.last_txid) ⊎ (t ≡ c.last_txid + 1)
      → start < t
      → t ≤ stop
      → (c' : Cursor) × Delivers log_size read c'.buf c'.offset c'.readlen les
        × (c'.last_lsn ≡ some lsn)
        × (c'.last_txid ≡ t)
        × (scan_loop crc log_size read start stop (suc n) c nentry txs ≡ (
            if t == stop && not more
            then scanned ((nentry + 1) * entry_size) (recreate_op txs t op)
            else scan_loop crc log_size read start stop n c' (nentry + 1) (recreate_op txs t op)))
  scan-entry n c nentry txs le les op lsn t more d is f near above below =
      let (rest, b, d', el, et, may) =
        refill-Delivers c.buf c.offset c.readlen c.last_lsn c.last_txid le les d in
      (
        record (refill crc log_size read start stop c) {
          buf = rest;
          last_lsn = some le.le_lsn;
          last_txid = le.le_txid;
        },
        d',
        ap some is.is_lsn,
        is.is_txid,
        scan-step n c nentry txs le rest op b may
              (in_order-true (refill crc log_size read start stop c) le c.last_lsn c.last_txid lsn t
                el et is.is_lsn is.is_txid f near above below)
              is.recreates
            ∙ ap₂
                (λ i m.
                  if i == stop && not m
                  then scanned ((nentry + 1) * entry_size) (recreate_op txs i op)
                  else scan_loop crc log_size read start stop n
                      (record (refill crc log_size read start stop c) {
                        buf = rest;
                        last_lsn = some le.le_lsn;
                        last_txid = le.le_txid;
                      })
                      (nentry + 1) (recreate_op txs i op))
                is.is_txid is.is_more,
      )

-- The operations added one after the other.
abbrev pub collect : Txq → ℕ → List Op → Txq
collect txs t [] = txs
collect txs t (op ∷ ops) = collect (recreate_op txs t op) t ops

-- The entries of transaction `t`, from number `lsn` on, and the operations that they record.
abbrev pub AreEntries : (MetaObj → ℕ) → ℕ → ℕ → List Entry → List Op → Type 0
AreEntries crc t lsn [] ops = ⊥
AreEntries crc t lsn (le ∷ les) [] = ⊥
AreEntries crc t lsn (le ∷ []) (op ∷ []) = IsEntry crc t lsn false le op
AreEntries crc t lsn (le ∷ []) (op ∷ op' ∷ ops) = ⊥
AreEntries crc t lsn (le ∷ le' ∷ les) (op ∷ ops) =
    IsEntry crc t lsn true le op × AreEntries crc t (lsn + 1) (le' ∷ les) ops

-- A round for each entry.
abbrev pub rounds : List Entry → ℕ → ℕ
rounds [] n = n
rounds (le ∷ les) n = suc (rounds les n)

pub and-false : (b : Bool) → b && false ≡ false
and-false true = refl
and-false false = refl

module _ (crc : MetaObj → ℕ) (log_size : ℕ) (read : ℕ → List Entry) (start stop : ℕ) where
  -- What the loop comes to after all entries of transaction `t`.
  abbrev pub After : ℕ → ℕ → ℕ → ℕ → List Entry → Txq → Scanned → Type 0
  After n nentry t k les txs r =
      ((t ≡ stop) × (r ≡ scanned (nentry * entry_size) txs))
      ⊎ ((t ≢ stop)
          × ((c' : Cursor) × Delivers log_size read c'.buf c'.offset c'.readlen les
              × (c'.last_lsn ≡ some k)
              × (c'.last_txid ≡ t)
              × (r ≡ scan_loop crc log_size read start stop n c' nentry txs)))

  other : (t : ℕ) → t ≢ stop → t == stop ≡ false
  other t ne = elim (Bool-cases (t == stop)) [
    | inl e ↦ absurd (ne ((==_iff t stop).0 e))
    | inr e ↦ e
  ]

  pub scan-tx :
      (n : ℕ) (c : Cursor) (nentry : ℕ) (txs : Txq) (t lsn : ℕ) (es : List Entry) (ops : List Op)
      (les : List Entry)
      → AreEntries crc t lsn es ops
      → Delivers log_size read c.buf c.offset c.readlen (es ++ les)
      → follows c.last_lsn lsn ≡ true
      → (t ≡ c.last_txid) ⊎ (t ≡ c.last_txid + 1)
      → start < t
      → t ≤ stop
      → (k : ℕ) × (k + 1 ≡ lsn + length es)
        × After n
            (nentry + length es)
            t
            k
            les
            (collect txs t ops)
            (scan_loop crc log_size read start stop (rounds es n) c nentry txs)
  scan-tx n c nentry txs t lsn [] ops les a d f near above below = absurd a
  scan-tx n c nentry txs t lsn (le ∷ es) [] les a d f near above below = absurd a
  scan-tx n c nentry txs t lsn (le ∷ []) (op ∷ []) les is d f near above below =
      let (c', d', el, et, e) =
        scan-entry crc log_size read start stop n c nentry txs le les op lsn t false d is f near
          above below in
      (
        lsn,
        refl,
        elim (ℕ_discrete t stop) [
          | yes k ↦ inl (k, e ∙ rw (eq→== t stop k) refl)
          | no ne ↦ inr (ne, (c', d', el, et, e ∙ rw (other t ne) refl))
        ],
      )
  scan-tx n c nentry txs t lsn (le ∷ []) (op ∷ op' ∷ ops) les a d f near above below = absurd a
  scan-tx n c nentry txs t lsn (le ∷ le' ∷ es) (op ∷ ops) les (is, more) d f near above below =
      let (c', d', el, et, e) =
        scan-entry crc log_size read start stop (rounds (le' ∷ es) n) c nentry txs le
          (le' ∷ es ++ les) op lsn t true d is f near above below in
      let (k, count, after) =
        scan-tx n c' (nentry + 1) (recreate_op txs t op) t (lsn + 1) (le' ∷ es) ops les more d'
          (ap (λ l. follows l (lsn + 1)) el ∙ eq→== (lsn + 1) (lsn + 1) refl) (inl (sym et)) above
          below in
      (
        k,
        omega (arith, count),
        subst₂ (λ m r. After n m t k les (collect (recreate_op txs t op) t ops) r) (omega arith)
            (sym (e ∙ rw (and-false (t == stop)) refl)) after,
      )
