-- ===== src/Log/Replay.antt =====
-- src/pfs_core/pfs_tx.cc, `pfs_txlist_replay`: the transactions of a queue, which a load or a poll has
-- made, are replayed from the first to the last; src/pfs_core/pfs_mount.cc, what a mount does with
-- them. A queue and a transaction have their last element first. Left out are `mt_redo_fini` of the
-- types of objects, and LOG_REPLAYDONE, which empties the queue.
use polarfs.Prelude.{
  zero, suc, ℕ, ◌+◌, Option, none, some, List, [], ◌∷◌, ◌==◌, if◌then◌else◌, length,
}
use polarfs.Log.Scan.{Txq}
use polarfs.Tx.Op.{put, MetaObj, Op}
use polarfs.Tx.Entry.{txop_redo}

-- The objects by their places, or a failed PFS_ASSERT.
abbrev pub Replica : Type 0
Replica = Option (ℕ → MetaObj)

-- The number of the first transaction.
abbrev pub first_tid : ℕ → Txq → ℕ
first_tid t [] = t
first_tid t ((t', ops) ∷ earlier) = first_tid t' earlier

module _ (locate : ℕ → ℕ → ℕ) where
  -- `locate` says where the replica has the object of a type and number.
  unfoldable pub txop_replay : Op → Replica → Replica
  unfolding txop_redo
  txop_replay op none = none
  txop_replay op (some meta) =
      let a = locate op.value.mo_type op.value.mo_number in
      elim (txop_redo op (meta a)) [ none ↦ none | some (delta, mo) ↦ some (put meta a mo) ]

  unfoldable pub tx_replay : List Op → Replica → Replica
  tx_replay [] meta = meta
  tx_replay (op ∷ earlier) meta = txop_replay op (tx_replay earlier meta)

  unfoldable pub replay_all : Txq → Replica → Replica
  replay_all [] meta = meta
  replay_all ((t, ops) ∷ earlier) meta = tx_replay ops (replay_all earlier meta)

  unfoldable pub txlist_replay : Txq → Replica → Replica
  txlist_replay [] meta = none
  txlist_replay ((t, ops) ∷ earlier) meta =
      if t + 1 == first_tid t earlier + (length earlier + 1)
      then replay_all ((t, ops) ∷ earlier) meta
      else none

  -- The end of a mount's load, by the bytes that `pfs_log_load` returned and its queue.
  unfoldable pub replay_loaded : ℕ → Txq → Replica → Replica
  replay_loaded zero [] meta = meta
  replay_loaded zero (tx ∷ txs) meta = none
  replay_loaded (suc rv) txs meta = txlist_replay txs meta
