-- ===== src/Log/Trimmed.antt =====
-- What `pfs_log_trim` does to the leader record and to the groups.
use polarfs.Prelude.{
  ℕ, ◌+◌, ◌<◌, ◌≡◌, ◌≢◌, refl, ap, ◌∙◌, true, false, ◌&&◌, some, List, [], ◌∷◌, arith, ◌==◌, length,
  Bool-cases, Option-cases, inl, inr, ◌⊎◌,
}
use polarfs.Prelude.Errno.{Errno, Status, done, fail}
use polarfs.Log.Ring.{log_space, Between, log_usedspace_lem}
use polarfs.Log.Commit.{LeaderRecord, Log, with_anchor, same_leader, moves_forward, forward_leader}
use polarfs.Log.Anchor.{forward_leader-fail, forward_leader-done, Forwarded-cases}
use polarfs.Log.Group.{Sect, Group, IsWf, Ordered, AllBelow}
use polarfs.Log.Trim.{
  Groups, log_del_trimentry, Flushed, flushed, broken, assert_failed, flush_loop, trim_anchor,
  trim_wait, log_trim,
}
use polarfs.Log.Kept.{trimgroup_delete-IsWf}

Flushed-cases :
    (r : Flushed)
    → ((n : ℕ) × (r ≡ flushed n)) ⊎ (((e : Errno) × (r ≡ broken e)) ⊎ (r ≡ assert_failed))
Flushed-cases (flushed n) = inl (n, refl)
Flushed-cases (broken e) = inr (inl (e, refl))
Flushed-cases assert_failed = inr (inr refl)

module _ (crc : LeaderRecord → ℕ) (leader_write : LeaderRecord → Status) where
  trim_anchor-fail :
      (log log' : Log) (gs gs' : Groups) (e : Errno) (disk : ℕ → Status)
      → trim_anchor crc leader_write disk log gs ≡ some (log', gs', fail e)
      → (log' ≡ log) × (gs' ≡ gs)
  unfolding trim_anchor
  trim_anchor-fail log log' gs gs' e disk h =
      let lr = record log.leader { tail_txid = gs.wait.rtxid; tail_offset = gs.wait.roffset } in
      let next = record log { leader = lr } in
      elim (Forwarded-cases crc leader_write (forward_leader crc leader_write next)) [
        | inl stop ↦ absurd (ground arith)
        | inr (inl (l, ok)) ↦ absurd (ground arith)
        | inr (inr (l, e', bad)) ↦ (
          restored (forward_leader-fail crc leader_write next l e' bad) (ground arith),
          ground arith,
        )
      ]
    where
      restored :
          {l : Log}
          → l ≡ record log {
            leader = record log.leader { tail_txid = gs.wait.rtxid; tail_offset = gs.wait.roffset };
          }
          → log' ≡ record l { leader = log.leader }
          → log' ≡ log
      restored a b = b ∙ ap {A = Log} (λ k. record k { leader = log.leader }) a

  trim_wait-fail :
      (disk : ℕ → Status) (log log' : Log) (gs gs' : Groups) (e : Errno)
      → trim_wait crc leader_write disk log gs ≡ some (log', gs', fail e)
      → (log' ≡ log) × (gs' ≡ gs)
  unfolding trim_wait
  trim_wait-fail disk log log' gs gs' e h = elim (Bool-cases (gs.wait.ltxid == gs.wait.rtxid)) [
    | inl none_waits ↦ absurd (ground arith)
    | inr waits ↦
        elim (Bool-cases
          (log.leader.tail_txid == gs.wait.ltxid && gs.wait.rtxid == gs.work.ltxid)) [
            | inr apart ↦ absurd (ground arith)
            | inl joined ↦ elim (Flushed-cases (flush_loop disk gs.wait gs.wait.sects 0)) [
              | inr (inr stop) ↦ absurd (ground arith)
              | inr (inl (e', bad)) ↦ (ground arith, ground arith)
              | inl (n, ok) ↦ elim (Bool-cases (n == 0)) [
                | inl nothing ↦ absurd (ground arith)
                | inr some_sects ↦ trim_anchor-fail log log' gs gs' e disk (ground arith)
              ]
            ]
          ]
  ]

  -- If `pfs_log_trim` returns an error, the leader records and both trim groups are as before: no
  -- sector is forgotten that a later trim would have to write.
  pub log_trim-fail :
      (disk : ℕ → Status) (log log' : Log) (gs gs' : Groups) (e : Errno)
      → log_trim crc leader_write disk log gs ≡ some (log', gs', fail e)
      → (log' ≡ log) × (gs' ≡ gs)
  unfolding log_trim
  log_trim-fail disk log log' gs gs' e h =
      elim (Option-cases
        (log_space log.leader.log_size log.leader.tail_offset log.leader.head_offset)) [
          | inl odd ↦ absurd (ground arith)
          | inr (space, ok) ↦ trim_wait-fail disk log log' gs gs' e (ground arith)
        ]

-- Every sector is written, if the disk takes it.
flush_loop-all :
    (disk : ℕ → Status) (g : Group) (ss : List Sect) (lo n : ℕ)
    → ((b : ℕ) → disk b ≡ done)
    → g.ltxid < lo
    → Ordered lo ss
    → AllBelow g.rtxid ss
    → flush_loop disk g ss n ≡ flushed (n + length ss)
unfolding flush_loop
flush_loop-all disk g [] lo n ok l o u = ap flushed (omega arith)
flush_loop-all disk g (s ∷ ss) lo n ok l o u = ground (
  arith,
  o.0,
  u.0,
  ok s.bda,
  flush_loop-all disk g ss s.txid (n + 1) ok (omega (arith, o.0)) o.1 u.1,
)

-- A new tail lies ahead, and the rest of the record is the same.
trim-forward :
    (lr : LeaderRecord) (txid offset : ℕ)
    → lr.tail_txid < txid
    → (moves_forward lr (record lr { tail_txid = txid; tail_offset = offset })
        && same_leader
            (with_anchor lr (record lr { tail_txid = txid; tail_offset = offset }))
            (record lr { tail_txid = txid; tail_offset = offset }))
      ≡ true
unfolding moves_forward same_leader with_anchor
trim-forward lr txid offset h = ground arith

has_sects : (ss : List Sect) → ss ≢ [] → (length ss == 0) ≡ false
has_sects [] h = absurd (h refl)
has_sects (s ∷ ss) h = ground arith

-- With whole entries between the log's tail and its head, both groups well formed and joined to each other and to the leader record, which is the
-- latest, a waiting group that has transactions and sectors, a disk that takes every sector, and
-- the leader record's write succeeding: `pfs_log_trim` succeeds; the log's tail is where the
-- waiting group ended, the waiting group is empty, the working group starts at the new tail, and
-- both are well formed.
pub log_trim-done :
    (crc : LeaderRecord → ℕ) (leader_write : LeaderRecord → Status) (disk : ℕ → Status) (log : Log)
    (gs : Groups) (used : ℕ)
    → Between log.leader.log_size log.leader.tail_offset log.leader.head_offset used
    → IsWf gs.wait
    → IsWf gs.work
    → gs.wait.ltxid < gs.wait.rtxid
    → gs.wait.sects ≢ []
    → log.leader.tail_txid ≡ gs.wait.ltxid
    → gs.wait.rtxid ≡ gs.work.ltxid
    → log.latest ≡ log.leader
    → ((b : ℕ) → disk b ≡ done)
    → ((lr : LeaderRecord) → leader_write lr ≡ done)
    → (log' : Log) × (gs' : Groups) × (log_trim crc leader_write disk log gs
        ≡ some (log', gs', done))
      × (log'.leader
          ≡ record log.leader { tail_txid = gs.wait.rtxid; tail_offset = gs.wait.roffset })
      × (gs'.wait.sects ≡ [])
      × (gs'.wait.ltxid ≡ gs'.wait.rtxid)
      × (gs'.work.ltxid ≡ log'.leader.tail_txid)
      × IsWf gs'.wait
      × IsWf gs'.work
unfolding log_trim trim_wait trim_anchor log_del_trimentry
log_trim-done crc leader_write disk log gs used b wf wk some_tx some_sects tail join same ok io =
    let lr = record log.leader { tail_txid = gs.wait.rtxid; tail_offset = gs.wait.roffset } in
    let space =
      (log_usedspace_lem log.leader.log_size log.leader.tail_offset log.leader.head_offset used
        b).1 in
    let (log', fwd, l) =
      forward_leader-done crc leader_write (record log { leader = lr })
        (rw same
          (trim-forward log.leader gs.wait.rtxid gs.wait.roffset (omega (arith, tail, some_tx))))
        (io _) in
    let (w, wl, wr, we) = trimgroup_delete-IsWf gs.wait gs.wait.rtxid wf in
    let (k, kl, kr, ke) = trimgroup_delete-IsWf gs.work gs.wait.rtxid wk in
    let flush =
      flush_loop-all disk gs.wait gs.wait.sects (gs.wait.ltxid + 1) 0 ok (omega arith) wf.ordered
        wf.below in
    (
      log',
      log_del_trimentry gs gs.wait.rtxid,
      ground (arith, space, fwd, flush, wl, has_sects gs.wait.sects some_sects),
      l,
      we (omega arith) some_tx,
      ground arith,
      ground arith,
      w,
      k,
    )
