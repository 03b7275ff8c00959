-- ===== src/Log/Trim.antt =====
-- src/pfs_core/pfs_log.cc, `pfs_log_trim`: the waiting group's sectors are written to their places,
-- then the leader record that drops their transactions from the log, and then they are forgotten.
use polarfs.Prelude.{
  ℕ, ◌+◌, Bool, true, false, ◌&&◌, ◌||◌, Option, none, some, List, [], ◌∷◌, ltb, leb, ◌==◌,
  if◌then◌else◌,
}
use polarfs.Prelude.Errno.{Errno, Status, done, fail}
use polarfs.Log.Ring.{log_space}
use polarfs.Log.Commit.{LeaderRecord, Log, forward_leader}
use polarfs.Log.Group.{Sect, Group, trimgroup_insert, trimgroup_delete, group_ntx}

-- `log_waitgrp`, which a trim writes out, and `log_workgrp`, which takes the new transactions.
pub record Groups : Type 0 where
  pub wait : Group
  pub work : Group

-- `trimgroup_nsect_threshold`, `trimgroup_ntx_threshold` and `trimgroup_ntx_threshold_hard`.
pub record Thresholds : Type 0 where
  pub nsect : ℕ
  pub ntx : ℕ
  pub ntx_hard : ℕ

unfoldable pub log_add_trimentry : Groups → ℕ → ℕ → List ℕ → ℕ → Option Groups
unfolding trimgroup_insert
log_add_trimentry gs txid txspace ops logsize =
    elim (trimgroup_insert gs.work txid txspace ops logsize) [
      | none ↦ none
      | some g ↦ some (record gs { work = g })
    ]

unfoldable pub log_del_trimentry : Groups → ℕ → Groups
unfolding trimgroup_delete
log_del_trimentry gs to = record {
  wait = trimgroup_delete gs.wait to;
  work = trimgroup_delete gs.work to;
}

-- `none` is a failed PFS_ASSERT.
unfoldable pub log_need_trim : Thresholds → LeaderRecord → Groups → Option Bool
unfolding group_ntx
log_need_trim th lr gs =
    if lr.tail_txid == lr.head_txid
    then if gs.work.ltxid == gs.work.rtxid && gs.wait.ltxid == gs.wait.rtxid
      then some false
      else none
    else some (
        (leb th.nsect gs.work.nsects || leb th.ntx (group_ntx gs.work))
        && ltb gs.wait.ltxid gs.wait.rtxid)

unfoldable pub log_need_trim_hard : Thresholds → Groups → Option Bool
unfolding group_ntx
log_need_trim_hard th gs =
    if leb th.ntx_hard (group_ntx gs.work)
    then if ltb th.ntx th.ntx_hard then some true else none
    else some false

-- `disk` is what `pfsdev_pwrite` of a sector returns. The result is the number of sectors written,
-- an error, or a failed PFS_ASSERT.
pub data Flushed : Type 0 where
  flushed : ℕ → Flushed
  broken : Errno → Flushed
  assert_failed : Flushed

unfoldable pub flush_loop : (ℕ → Status) → Group → List Sect → ℕ → Flushed
flush_loop disk g [] n = flushed n
flush_loop disk g (s ∷ ss) n =
    let rest = flush_loop disk g ss (n + 1) in
    if ltb g.ltxid s.txid && leb s.txid g.rtxid
    then (elim (disk s.bda) [ done ↦ rest | fail e ↦ broken e ])
    else assert_failed

module _ (crc : LeaderRecord → ℕ) (leader_write : LeaderRecord → Status) (disk : ℕ → Status) where
  -- After the flush of some sectors.
  unfoldable pub trim_anchor : Log → Groups → Option (Log × Groups × Status)
  unfolding forward_leader log_del_trimentry
  trim_anchor log gs =
      let lr = record log.leader { tail_txid = gs.wait.rtxid; tail_offset = gs.wait.roffset } in
      let after = log_del_trimentry gs gs.wait.rtxid in
      elim (forward_leader crc leader_write (record log { leader = lr })) [
        | none ↦ none
        | some (log', fail e) ↦ some (record log' { leader = log.leader }, gs, fail e)
        | some (log', done) ↦
            if after.wait.ltxid == after.wait.rtxid then some (log', after, done) else none
      ]

  -- pfs_log_trim once it has computed the free space, which it only prints.
  unfoldable pub trim_wait : Log → Groups → Option (Log × Groups × Status)
  unfolding trim_anchor flush_loop
  trim_wait log gs =
      let anchored = trim_anchor log gs in
      if gs.wait.ltxid == gs.wait.rtxid
      then some (log, gs, done)
      else if log.leader.tail_txid == gs.wait.ltxid && gs.wait.rtxid == gs.work.ltxid
      then (elim (flush_loop disk gs.wait gs.wait.sects 0) [
        | assert_failed ↦ none
        | broken e ↦ some (log, gs, fail e)
        | flushed n ↦ if n == 0 then some (log, gs, done) else anchored
      ])
      else none

  unfoldable pub log_trim : Log → Groups → Option (Log × Groups × Status)
  unfolding trim_wait log_space
  log_trim log gs =
      elim (log_space log.leader.log_size log.leader.tail_offset log.leader.head_offset) [
        | none ↦ none
        | some logspace ↦ trim_wait log gs
      ]
