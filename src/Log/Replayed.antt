-- ===== src/Log/Replayed.antt =====
-- The replay of a queue that a scan has made changes the objects as its entries, one after the other.
use polarfs.Prelude.{
  eq→==, Option-cases, inl, inr, ℕ, zero, suc, ◌+◌, ◌*◌, ◌<◌, ◌≡◌, refl, sym, ap, ◌∙◌, none, some,
  List, [], ◌∷◌, ◌++◌, length, arith,
}
use polarfs.Log.Ring.{entry_size}
use polarfs.Log.Scan.{Txq}
use polarfs.Log.Scanned.{AreEntries}
use polarfs.Log.Recovered.{Transactions, AreTxs, all_entries, rev_onto, queue}
use polarfs.Log.Replay.{
  Replica, first_tid, txop_replay, tx_replay, replay_all, txlist_replay, replay_loaded,
}
use polarfs.Tx.Op.{MetaObj, Op}
use polarfs.Tx.Entry.{Entry, txop_recreate, txop_redo, replay}

module _ (crc : MetaObj → ℕ) (locate : ℕ → ℕ → ℕ) where
  -- The operations in their order.
  abbrev after : List Op → Replica → Replica
  after [] meta = meta
  after (op ∷ ops) meta = after ops (txop_replay locate op meta)

  abbrev after_txs : Transactions → Replica → Replica
  after_txs [] meta = meta
  after_txs ((es, ops) ∷ ts) meta = after_txs ts (after ops meta)

  tx_replay-rev :
      (ops acc : List Op) (meta : Replica)
      → tx_replay locate (rev_onto ops acc) meta ≡ after ops (tx_replay locate acc meta)
  unfolding tx_replay
  tx_replay-rev [] acc meta = refl
  tx_replay-rev (op ∷ ops) acc meta = tx_replay-rev ops (op ∷ acc) meta

  replay_all-queue :
      (q : Txq) (t : ℕ) (ts : Transactions) (meta : Replica)
      → replay_all locate (queue q t ts) meta ≡ after_txs ts (replay_all locate q meta)
  unfolding replay_all tx_replay
  replay_all-queue q t [] meta = refl
  replay_all-queue q t ((es, ops) ∷ ts) meta =
      replay_all-queue ((t + 1, rev_onto ops []) ∷ q) (t + 1) ts meta
      ∙ ap (after_txs ts) (tx_replay-rev ops [] (replay_all locate q meta))

  -- `pfs_tx_replay` on entries, of a replica that may have failed.
  abbrev replayed : List Entry → Replica → Replica
  replayed les none = none
  replayed les (some meta) = replay crc locate les meta

  replayed-nil : (meta : Replica) → replayed [] meta ≡ meta
  unfolding replay
  replayed-nil none = refl
  replayed-nil (some meta) = refl

  replayed-cons :
      (le : Entry) (op : Op) (les : List Entry) (meta : Replica)
      → txop_recreate crc le ≡ some op
      → replayed (le ∷ les) meta ≡ replayed les (txop_replay locate op meta)
  unfolding replay txop_replay
  replayed-cons le op les none e = refl
  replayed-cons le op les (some meta) e =
      elim (Option-cases (txop_redo op (meta (locate op.value.mo_type op.value.mo_number)))) [
        | inl z ↦ rw (e, z, replay, txop_replay) refl
        | inr (r, z) ↦ rw (e, z, replay, txop_replay) refl
      ]

  replayed-entries :
      (t lsn : ℕ) (es rest : List Entry) (ops : List Op) (meta : Replica)
      → AreEntries crc t lsn es ops
      → replayed (es ++ rest) meta ≡ replayed rest (after ops meta)
  replayed-entries t lsn [] rest ops meta a = absurd a
  replayed-entries t lsn (le ∷ es) rest [] meta a = absurd a
  replayed-entries t lsn (le ∷ []) rest (op ∷ []) meta a = replayed-cons le op rest meta a.recreates
  replayed-entries t lsn (le ∷ []) rest (op ∷ op' ∷ ops) meta a = absurd a
  replayed-entries t lsn (le ∷ le' ∷ es) rest (op ∷ ops) meta a =
      replayed-cons le op (le' ∷ es ++ rest) meta a.0.recreates
      ∙ replayed-entries t (lsn + 1) (le' ∷ es) rest ops (txop_replay locate op meta) a.1

  replayed-txs :
      (t lsn : ℕ) (ts : Transactions) (meta : Replica)
      → AreTxs crc t lsn ts
      → replayed (all_entries ts) meta ≡ after_txs ts meta
  replayed-txs t lsn [] meta a = replayed-nil meta
  replayed-txs t lsn ((es, ops) ∷ ts) meta a =
      replayed-entries (t + 1) lsn es (all_entries ts) ops meta a.0
      ∙ replayed-txs (t + 1) (lsn + length es) ts (after ops meta) a.1

  -- The numbers of a queue follow each other, as `pfs_txlist_replay` asserts.
  txlist_replay-queue :
      (rest : Txq) (t : ℕ) (ops : List Op) (ts : Transactions) (meta : Replica)
      → first_tid t rest + (length rest + 1) ≡ t + 1
      → txlist_replay locate (queue ((t, ops) ∷ rest) t ts) meta
        ≡ replay_all locate (queue ((t, ops) ∷ rest) t ts) meta
  unfolding txlist_replay
  txlist_replay-queue rest t ops [] meta h =
      rw (eq→== (t + 1) (first_tid t rest + (length rest + 1)) (sym h)) refl
  txlist_replay-queue rest t ops ((es, ops') ∷ ts) meta h =
      txlist_replay-queue ((t, ops) ∷ rest) (t + 1) (rev_onto ops' []) ts meta (omega (arith, h))

  loaded_some :
      (rv : ℕ) (q : Txq) (meta : Replica)
      → 0 < rv
      → replay_loaded locate rv q meta ≡ txlist_replay locate q meta
  unfolding replay_loaded
  loaded_some zero q meta h = absurd (omega arith)
  loaded_some (suc rv) q meta h = refl

  some_entries :
      (t lsn : ℕ) (es rest : List Entry) (ops : List Op)
      → AreEntries crc t lsn es ops
      → 0 < length (es ++ rest)
  some_entries t lsn [] rest ops a = absurd a
  some_entries t lsn (le ∷ es) rest ops a = omega arith

  -- The end of a mount's load, with the queue that the scan of some transactions makes, fails just if
  -- the replay of their entries one after the other does, and else leaves the same objects.
  pub replay_loaded-queue :
      (t lsn : ℕ) (ts : Transactions) (meta : ℕ → MetaObj)
      → AreTxs crc t lsn ts
      → replay_loaded locate (length (all_entries ts) * entry_size) (queue [] t ts) (some meta)
        ≡ replay crc locate (all_entries ts) meta
  unfolding replay_loaded replay replay_all
  replay_loaded-queue t lsn [] meta a = refl
  replay_loaded-queue t lsn ((es, ops) ∷ ts) meta a =
      let n = some_entries (t + 1) lsn es (all_entries ts) ops a.0 in
      loaded_some (length (es ++ all_entries ts) * entry_size) (queue [] t ((es, ops) ∷ ts))
        (some meta) (omega (arith, n))
      ∙ txlist_replay-queue [] (t + 1) (rev_onto ops []) ts (some meta) refl
      ∙ replay_all-queue [] t ((es, ops) ∷ ts) (some meta)
      ∙ sym (replayed-txs t lsn ((es, ops) ∷ ts) (some meta) a)
