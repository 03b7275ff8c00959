-- ===== src/Log/Anchor.antt =====
-- What the write of the leader record does to the leader records in memory.
use native.Mathlib.Nat.{mod-eq_of_lt}
use polarfs.Prelude.{
  ℕ, ◌+◌, ◌/◌, ◌^◌, ◌≤◌, ◌<◌, ◌≡◌, refl, ap, ◌∙◌, true, ◌&&◌, Option, none, some, arith, inl, inr,
  ◌⊎◌,
}
use polarfs.Prelude.Errno.{Errno, Status, done, fail}
use polarfs.Log.Ring.{entry_size}
use polarfs.Log.Write.{Logged, logged, failed, assert_failed, out_of_fuel}
use polarfs.Log.Commit.{
  LeaderRecord, Log, same_leader, with_anchor, moves_forward, forward_leader, advance_head,
  commit_anchor,
}

module _ (crc : LeaderRecord → ℕ) (leader_write : LeaderRecord → Status) where
  Status-cases : (s : Status) → (s ≡ done) ⊎ ((e : Errno) × (s ≡ fail e))
  Status-cases done = inl refl
  Status-cases (fail e) = inr (e, refl)

  -- An error of the leader's write changes nothing in memory.
  pub forward_leader-fail :
      (log log' : Log) (e : Errno)
      → forward_leader crc leader_write log ≡ some (log', fail e)
      → log' ≡ log
  unfolding forward_leader
  forward_leader-fail log log' e h =
      elim (Status-cases (leader_write (with_anchor log.latest log.leader))) [
        | inl ok ↦ absurd (ground arith)
        | inr (e', bad) ↦ ground arith
      ]

  pub Forwarded-cases :
      (r : Option (Log × Status))
      → (r ≡ none)
        ⊎ (((l : Log) × (r ≡ some (l, done))) ⊎ ((l : Log) × (e : Errno) × (r ≡ some (l, fail e))))
  Forwarded-cases none = inl refl
  Forwarded-cases (some (l, done)) = inr (inl (l, refl))
  Forwarded-cases (some (l, fail e)) = inr (inr (l, e, refl))

  pub commit_anchor-fail {ℓ} :
      {F : Type ℓ} (log log' : Log) (f f' : F) (r : Logged) (e : Errno)
      → commit_anchor crc leader_write log f r ≡ some (log', f', fail e)
      → log' ≡ log
  unfolding commit_anchor
  commit_anchor-fail log log' f f' (failed e') e h = ground arith
  commit_anchor-fail log log' f f' assert_failed e h = cc
  commit_anchor-fail log log' f f' out_of_fuel e h = cc
  commit_anchor-fail log log' f f' (logged rv) e h =
      let next = record log { leader = advance_head log.leader rv } in
      elim (Forwarded-cases (forward_leader crc leader_write next)) [
        | inl stop ↦ absurd (ground arith)
        | inr (inl (l, ok)) ↦ absurd (ground arith)
        | inr (inr (l, e', bad)) ↦ restored (forward_leader-fail next l e' bad) (ground arith)
      ]
    where
      restored :
          {l : Log}
          → l ≡ record log { leader = advance_head log.leader rv }
          → log' ≡ record l { leader = log.leader }
          → log' ≡ log
      restored a b = b ∙ ap {A = Log} (λ k. record k { leader = log.leader }) a

-- The anchor of the next leader record lies ahead, and the rest of the record is the same.
pub next-forward :
    (lr : LeaderRecord) (n : ℕ)
    → lr.head_txid + 1 < 2 ^ 64
    → lr.head_lsn + n / entry_size < 2 ^ 64
    → entry_size ≤ n
    → (moves_forward lr (advance_head lr n)
        && same_leader (with_anchor lr (advance_head lr n)) (advance_head lr n))
      ≡ true
unfolding moves_forward same_leader with_anchor advance_head
next-forward lr n p q le = rw (mod-eq_of_lt p, mod-eq_of_lt q) (ground arith)

module _ (crc : LeaderRecord → ℕ) (leader_write : LeaderRecord → Status) where
  pub forward_leader-done :
      (log : Log)
      → (moves_forward log.latest log.leader
          && same_leader (with_anchor log.latest log.leader) log.leader)
        ≡ true
      → leader_write (with_anchor log.latest log.leader) ≡ done
      → (log' : Log) × (forward_leader crc leader_write log ≡ some (log', done))
        × (log'.leader ≡ log.leader)
  unfolding forward_leader
  forward_leader-done log ok io = (
    record log {
      latest = record (with_anchor log.latest log.leader) {
        checksum = crc (with_anchor log.latest log.leader);
      };
    },
    rw (ok, io, forward_leader) refl,
    refl,
  )
