-- ===== src/Tx/Replay.antt =====
-- A replica that replays a transaction's log entries has the objects that the writer applied.
use polarfs.Prelude.{
  ℕ, ◌+◌, ◌≡◌, ◌≢◌, refl, sym, ap, ◌∙◌, inl, inr, Bool, true, false, List, [], ◌∷◌, arith, some,
  Option-cases,
}
use polarfs.Tx.Reached.{Reached}
use polarfs.Tx.Seen.{Reached-apply}
use polarfs.Tx.View.{AreKeyed}
use polarfs.Tx.Op.{MetaObj, Op, Tx, put, address, apply}
use polarfs.Tx.Queue.{Mem}
use polarfs.Tx.Wf.{none-ne-some, of_some}
use polarfs.Tx.View.{unbound, bound}
use mathlib.Core.Path.{subst}
use polarfs.Tx.Entry.{Entry, is_valid, txop_log, has_more, entries, replay}

module _ (crc : MetaObj → ℕ) (entry_crc : Entry → ℕ) where
  -- An operation that may be logged, for an object that the replica has at the same place.
  pub record IsLoggable (locate : ℕ → ℕ → ℕ) (op : Op) : Type 0 where
    pub closed : op.finished ≡ true
    pub sealed : op.value.mo_checksum ≡ crc op.value
    pub typed : op.value.mo_type ≢ 0
    pub placed : address op ≡ some (locate op.value.mo_type op.value.mo_number)

  -- The entries of transaction `txid` from sequence number `lsn` on: all but the last have more.
  abbrev pub AreNumbered : ℕ → ℕ → List Entry → Type 0
  AreNumbered txid lsn [] = Unit
  AreNumbered txid lsn (le ∷ []) = (le.le_txid ≡ txid) × (le.le_lsn ≡ lsn) × (le.le_more ≡ false)
  AreNumbered txid lsn (le ∷ le' ∷ les) =
      ((le.le_txid ≡ txid) × (le.le_lsn ≡ lsn) × (le.le_more ≡ true))
      × AreNumbered txid (lsn + 1) (le' ∷ les)

  abbrev pub has_entries : List Entry → Bool
  has_entries [] = false
  has_entries (le ∷ les) = true

  AreNumbered-cons :
      (txid lsn lsn' : ℕ) (le : Entry) (les : List Entry)
      → le.le_txid ≡ txid
      → le.le_lsn ≡ lsn
      → le.le_more ≡ has_entries les
      → lsn' ≡ lsn + 1
      → AreNumbered txid lsn' les
      → AreNumbered txid lsn (le ∷ les)
  AreNumbered-cons txid lsn lsn' le [] t l m e n = (t, l, m)
  AreNumbered-cons txid lsn lsn' le (le' ∷ les) t l m e n =
      ((t, l, m), subst (λ k. AreNumbered txid k (le' ∷ les)) e n)

  abbrev logged : Op → ℕ → ℕ → Bool → Entry
  logged op txid lsn more =
      let le : Entry = record {
        le_obj_val = op.value;
        le_lsn = lsn;
        le_sector_bda = op.bda;
        le_txid = txid;
        le_obj_idx = op.idx;
        le_checksum = 0;
        le_more = more;
      } in
      record le { le_checksum = entry_crc le }

  module _ (locate : ℕ → ℕ → ℕ) where
    loggable-is_valid : (op : Op) → IsLoggable locate op → is_valid crc op.value ≡ true
    unfolding is_valid
    loggable-is_valid op l = ground (arith, l.sealed, l.typed)

    txop_log-loggable :
        (op : Op) (txid lsn : ℕ) (more : Bool)
        → IsLoggable locate op
        → txop_log crc entry_crc op txid lsn more ≡ some (logged op txid lsn more)
    unfolding txop_log
    txop_log-loggable op txid lsn more l = rw (l.closed, loggable-is_valid op l, txop_log) refl

    replay-logged :
        (op : Op) (txid lsn : ℕ) (more : Bool) (les : List Entry) (meta : ℕ → MetaObj)
        → IsLoggable locate op
        → replay crc locate (logged op txid lsn more ∷ les) meta
          ≡ replay crc locate les (put meta (locate op.value.mo_type op.value.mo_number) op.value)
    unfolding replay
    replay-logged op txid lsn more les meta l = rw (loggable-is_valid op l, replay) refl

    apply-cons :
        (ops : ℕ → Op) (i : ℕ) (is : List ℕ) (meta : ℕ → MetaObj) (a : ℕ)
        → address (ops i) ≡ some a
        → apply ops (i ∷ is) meta ≡ apply ops is (put meta a (ops i).value)
    unfolding apply
    apply-cons ops i is meta a e = elim (Option-cases (ops i).buf) [
      | inl n ↦ absurd (none-ne-some a (sym (unbound (ops i) n) ∙ e))
      | inr (buf, b) ↦
          rw (b, apply)
            (ap (λ k. apply ops is (put meta k (ops i).value))
              (of_some (buf + (ops i).idx) a (sym (bound (ops i) buf b) ∙ e)))
    ]

    -- Operations that are done and sealed are logged without a failed assertion, in entries that are
    -- numbered from the head on; a replica that recreates and redoes them fails no assertion either
    -- and has the objects that the writer has after applying them.
    pub replay-entries :
        (ops : ℕ → Op) (ids : List ℕ) (head_txid head_lsn nle : ℕ)
        → ((i : ℕ) → Mem i ids → IsLoggable locate (ops i))
        → (les : List Entry) × (entries crc entry_crc ops ids head_txid head_lsn nle ≡ some les)
          × AreNumbered (head_txid + 1) (head_lsn + (nle + 1)) les
          × (has_more ids ≡ has_entries les)
          × ((meta : ℕ → MetaObj) → replay crc locate les meta ≡ some (apply ops ids meta))
    unfolding entries replay apply
    replay-entries ops [] head_txid head_lsn nle all = ([], refl, tt, refl, λ meta. refl)
    replay-entries ops (i ∷ is) head_txid head_lsn nle all =
        let l = all i (inl refl) in
        let (les, e, numbered, more, same) =
          replay-entries ops is head_txid head_lsn (nle + 1) (λ j m. all j (inr m)) in
        let le = logged (ops i) (head_txid + 1) (head_lsn + (nle + 1)) (has_more is) in
        (
          le ∷ les,
          rw
              (
                txop_log-loggable (ops i) (head_txid + 1) (head_lsn + (nle + 1)) (has_more is) l,
                e,
                entries,
              )
              refl,
          AreNumbered-cons (head_txid + 1) (head_lsn + (nle + 1)) (head_lsn + (nle + 1 + 1)) le les
              refl refl more (omega arith) numbered,
          refl,
          λ meta.
              replay-logged (ops i) (head_txid + 1) (head_lsn + (nle + 1)) (has_more is) les meta l
              ∙ same (put meta (locate (ops i).value.mo_type (ops i).value.mo_number) (ops i).value)
              ∙ ap some (
                  sym (
                    apply-cons ops i is meta (locate (ops i).value.mo_type (ops i).value.mo_number)
                      l.placed)),
        )

-- A caller's changes, made in a transaction, logged, and replayed on a replica that had the same
-- objects: once the operations are done and sealed, neither the log nor the replay fails an
-- assertion, the entries are numbered from the one after the head on and all but the last have more,
-- and the replica has the objects as the changes left them.
pub Reached-replay :
    (meta : ℕ → MetaObj) (crc : MetaObj → ℕ) (entry_crc : Entry → ℕ) (locate : ℕ → ℕ → ℕ) (tx : Tx)
    (v : ℕ → MetaObj) (head_txid head_lsn : ℕ)
    → AreKeyed meta
    → Reached meta crc tx v
    → ((i : ℕ) → Mem i tx.t_ops → IsLoggable crc entry_crc locate (tx.ops i))
    → (les : List Entry) × (entries crc entry_crc tx.ops tx.t_ops head_txid head_lsn 0 ≡ some les)
      × AreNumbered crc entry_crc (head_txid + 1) (head_lsn + 1) les
      × ((meta' : ℕ → MetaObj) × (replay crc locate les meta ≡ some meta')
          × ((a : ℕ) → meta' a ≡ v a))
Reached-replay meta crc entry_crc locate tx v head_txid head_lsn keyed r all =
    let (les, e, numbered, more, same) =
      replay-entries crc entry_crc locate tx.ops tx.t_ops head_txid head_lsn 0 all in
    (
      les,
      e,
      numbered,
      (
        apply tx.ops tx.t_ops meta,
        same meta,
        λ a. (Reached-apply meta crc tx v keyed r (λ i m. (all i m).closed) a).0,
      ),
    )
