-- ===== src/Log/Committed.antt =====
-- What a commit does to the leader record and to the log file.
use native.Mathlib.Nat.{mod-eq_of_lt, mod-eq-sub-mod}
use polarfs.Prelude.{
  leb→le, sym, leb, ◌∙◌, ap, ℕ, ◌+◌, ◌-◌, ◌*◌, ◌/◌, ◌%◌, ◌^◌, ◌≤◌, ◌<◌, ◌≡◌, refl, false, some,
  List, [], ◌∷◌, arith, ltb, length, Option-cases, Bool-cases, inl, inr,
}
use polarfs.Prelude.Errno.{Errno, Status, done, fail}
use polarfs.Log.Ring.{
  entry_size, off_modular_add, log_space, Between, log_usedspace_lem, Between-append,
}
use polarfs.Log.Write.{Wrote, logged, tx_log}
use polarfs.Prelude.{length-append}
use polarfs.Log.Wrap.{ringed, Works}
use polarfs.Log.Entries.{joined, AreEntries, tx_log-ringed}
use polarfs.Log.Commit.{LeaderRecord, Log, with_anchor, advance_head, commit_anchor, commit}
use polarfs.Log.Commit.{paxos_try_acquire}
use polarfs.Log.Anchor.{commit_anchor-fail, next-forward, forward_leader-done}

-- The leader record with its head one transaction, `count` entries and `bytes` bytes further.
abbrev pub moved : LeaderRecord → ℕ → ℕ → LeaderRecord
moved lr bytes count = record lr {
  head_txid = lr.head_txid + 1;
  head_lsn = lr.head_lsn + count;
  head_offset = (lr.head_offset + bytes) % lr.log_size;
}

modular : (a b m : ℕ) → a < m → b < m → off_modular_add a b m ≡ (a + b) % m
modular a b m p q = elim (Bool-cases (leb m (a + b))) [
  | inl past ↦
      rw past (sym (mod-eq_of_lt (omega arith)) ∙ sym (mod-eq-sub-mod (leb→le m (a + b) past)))
  | inr inside ↦ rw inside (sym (mod-eq_of_lt (ground arith)))
]

advance_head-moved :
    (lr : LeaderRecord) (bytes count : ℕ)
    → lr.head_txid + 1 < 2 ^ 64
    → lr.head_lsn + count < 2 ^ 64
    → bytes ≡ count * entry_size
    → lr.head_offset < lr.log_size
    → bytes < lr.log_size
    → advance_head lr bytes ≡ moved lr bytes count
unfolding advance_head
advance_head-moved lr bytes count p q e h l =
    let d : bytes / entry_size ≡ count = omega (arith, e) in
    rw (d, mod-eq_of_lt p, mod-eq_of_lt q, modular lr.head_offset bytes lr.log_size h l) refl

module _ (crc : LeaderRecord → ℕ) (leader_write : LeaderRecord → Status) where
  -- If `pfs_log_commit` returns an error, `log_leader` and `log_leader_latest` are as they were
  -- before, at whichever of its steps it failed.
  pub commit-fail {ℓ} :
      {A : Type ℓ} (pwrite : ℕ → ℕ → ℕ → Wrote) (buflen : ℕ) (log log' : Log) (f f' : ℕ → A)
      (entries : List (List A)) (latest : LeaderRecord) (e : Errno)
      → commit crc leader_write pwrite buflen log f entries latest ≡ some (log', f', fail e)
      → log' ≡ log
  unfolding commit
  commit-fail pwrite buflen log log' f f' entries latest e h =
      elim (Bool-cases
        (ltb (2 ^ 63 - 1) ((log.leader.head_txid + 2 ^ 64 - latest.head_txid) % 2 ^ 64))) [
          | inl stale ↦ ground arith
          | inr fresh ↦
              elim (Option-cases
                (log_space log.leader.log_size log.leader.tail_offset log.leader.head_offset)) [
                  | inl odd ↦ absurd (ground arith)
                  | inr (space, ok) ↦
                      commit_anchor-fail crc leader_write log log'
                        (tx_log log.leader.log_size pwrite space buflen f entries
                          log.leader.head_offset).0
                        f'
                        (tx_log log.leader.log_size pwrite space buflen f entries
                          log.leader.head_offset).1
                        e (ground arith)
                ]
        ]

  -- What a successful commit of `count` entries, which are `bytes` together, leaves.
  pub record Committed {ℓ} {A : Type ℓ} (log log' : Log) (f f' : ℕ → A) (bytes : List A)
      (count used : ℕ) : Type ℓ where
    pub leader : log'.leader ≡ moved log.leader (length bytes) count
    pub between :
        Between log.leader.log_size log.leader.tail_offset log'.leader.head_offset
          (used + length bytes)
    pub file :
        (p : ℕ)
        → p < log.leader.log_size
        → f' p ≡ ringed log.leader.log_size f log.leader.head_offset bytes p

  anchored {ℓ} :
      {F : Type ℓ} (log : Log) (f : F) (n : ℕ)
      → log.leader.head_txid + 1 < 2 ^ 64
      → log.leader.head_lsn + n / entry_size < 2 ^ 64
      → entry_size ≤ n
      → log.latest ≡ log.leader
      → leader_write (with_anchor log.leader (advance_head log.leader n)) ≡ done
      → (log' : Log) × (commit_anchor crc leader_write log f (logged n) ≡ some (log', f, done))
        × (log'.leader ≡ advance_head log.leader n)
  unfolding commit_anchor
  anchored log f n p q le same io =
      let next = record log { leader = advance_head log.leader n } in
      let (log', e, l) =
        forward_leader-done crc leader_write next (rw same (next-forward log.leader n p q le))
          (rw same io) in
      (log', rw (e, commit_anchor) refl, l)

joined-whole {ℓ} :
    {A : Type ℓ} (es : List (List A)) → AreEntries es → length (joined es) ≡ length es * entry_size
joined-whole [] all = refl
joined-whole (e ∷ es) all = omega (arith, length-append e (joined es), all.0, joined-whole es all.1)

next-Between :
    (lr next : LeaderRecord) (used n : ℕ)
    → next ≡ advance_head lr n
    → Between lr.log_size lr.tail_offset lr.head_offset used
    → used + n < lr.log_size
    → n % entry_size ≡ 0
    → Between lr.log_size lr.tail_offset next.head_offset (used + n)
unfolding advance_head
next-Between lr next used n e b fits whole =
    rw e (Between-append lr.log_size lr.tail_offset lr.head_offset used n b fits whole)

-- A transaction of at least one entry, whose entries are fewer bytes than are free, committed on
-- the node's own leader record, when the file takes its writes, the leader record's write
-- succeeds, the buffer holds whole entries and the next numbers are below 2 ^ 64: `pfs_log_commit`
-- succeeds, the entries lie in the ring from the old head on and nothing else in the ring has
-- changed, the head has moved past them by one transaction and as many log sequence numbers as
-- entries, and the bytes in use are those between the tail and the new head.
pub commit-done {ℓ} :
    {A : Type ℓ} (crc : LeaderRecord → ℕ) (leader_write : LeaderRecord → Status)
    (pwrite : ℕ → ℕ → ℕ → Wrote) (c : ℕ) (log : Log) (f : ℕ → A) (e : List A) (es : List (List A))
    (used : ℕ)
    → Works pwrite
    → 0 < c
    → AreEntries (e ∷ es)
    → Between log.leader.log_size log.leader.tail_offset log.leader.head_offset used
    → used + length (joined (e ∷ es)) < log.leader.log_size
    → log.leader.head_txid + 1 < 2 ^ 64
    → log.leader.head_lsn + length (e ∷ es) < 2 ^ 64
    → leader_write (moved log.leader (length (joined (e ∷ es))) (length (e ∷ es))) ≡ done
    → (log' : Log) × (f' : ℕ → A) × (commit crc leader_write pwrite
          (c * entry_size)
          (paxos_try_acquire log)
          f
          (e ∷ es)
          log.leader
        ≡ some (log', f', done))
      × Committed crc leader_write log log' f f' (joined (e ∷ es)) (length (e ∷ es)) used
unfolding commit paxos_try_acquire
commit-done crc leader_write pwrite c log f e es used works pos all b fits txid lsn io =
    let lr = log.leader in
    let n = length (joined (e ∷ es)) in
    let whole = joined-whole (e ∷ es) all in
    let same = advance_head-moved lr n (length (e ∷ es)) txid lsn whole b.head_in (omega arith) in
    let (ret, file) =
      tx_log-ringed lr.log_size pwrite (lr.log_size - used) c f e es lr.head_offset works
        (omega arith) pos all (omega arith) b.head_in in
    let f' =
      (tx_log lr.log_size pwrite (lr.log_size - used) (c * entry_size) f (e ∷ es)
        lr.head_offset).0 in
    let (log', ok, l) =
      anchored crc leader_write (record log { latest = log.leader }) f' n txid
        (omega (arith, whole)) (omega (arith, whole)) refl (ap leader_write same ∙ io) in
    (
      log',
      f',
      rw
          (
            own lr.head_txid,
            (log_usedspace_lem lr.log_size lr.tail_offset lr.head_offset used b).1,
            ret,
            commit,
          )
          ok,
      record {
        leader = l ∙ same;
        between = next-Between lr log'.leader used n l b fits (omega (arith, whole));
        file = file;
      },
    )
  where
    own : (t : ℕ) → ltb (2 ^ 63 - 1) ((t + 2 ^ 64 - t) % 2 ^ 64) ≡ false
    own t = ground arith
