-- ===== src/Lease/Wait.antt =====
-- src/pfs_core/pfs_paxos.cc, `pfs_rw_lease_wait_and_check`: the wait for the host in the way to renew
-- its lease, to release it or to die.
use mathlib.Core.Path.{subst}
use native.Mathlib.Decide.{ℕ_discrete}
use polarfs.Prelude.{
  ℕ, zero, suc, ◌+◌, ◌^◌, ◌≤◌, ◌<◌, ◌≡◌, ◌≢◌, ◌⊎◌, inl, inr, refl, Bool, true, false, not, arith,
  ◌==◌, if◌then◌else◌, Bool-cases, sym, Option, none, some,
}
use polarfs.Lease.Clock.{Options, host_record_live, host_record_live_lem}
use polarfs.Lease.Record.{
  HostRecord, fl_rw, has_flag, Reading, failed, empty, bad_magic, bad_checksum, valid,
}
use polarfs.Lease.Scan.{Check, busy}

-- One round of the polling: the clock's reading, and what the read of the sector returned.
pub record Poll : Type 0 where
  pub now : ℕ
  pub reading : Reading

-- How the polling ends: with a full re-check, or with -EBUSY as the holder has renewed.
pub data Waited : Type 0 where
  recheck renewed out_of_fuel : Waited

module _ (o : Options) (ts : ℕ) where
  -- One round; `rest` is what the next rounds come to.
  unfoldable pub wait_one : ℕ → Reading → Waited → Waited
  wait_one now empty rest = recheck
  wait_one now (failed e) rest = recheck
  wait_one now (bad_magic raw) rest = recheck
  wait_one now (bad_checksum raw) rest = recheck
  wait_one now (valid hr) rest =
      if not (hr.timestamp == ts)
      then renewed
      else if not (host_record_live o ts now)
      then recheck
      else rest

  -- The loop from round `k` on, with `n` rounds of fuel.
  unfoldable pub wait_loop : (ℕ → Poll) → ℕ → ℕ → Waited
  unfolding wait_one
  wait_loop polls zero k = out_of_fuel
  wait_loop polls (suc n) k = wait_one (polls k).now (polls k).reading (wait_loop polls n (k + 1))

  -- In such a round the record is as it was at first, and live.
  abbrev pub Unchanged : Poll → Type 0
  Unchanged p =
      (hr : HostRecord) × (p.reading ≡ valid hr)
      × (hr.timestamp ≡ ts)
      × (host_record_live o ts p.now ≡ true)

  -- The holder has written its record again.
  abbrev pub Renewed : Poll → Type 0
  Renewed p = (hr : HostRecord) × (p.reading ≡ valid hr) × (hr.timestamp ≢ ts)

  -- There is no valid record, or it is the old one and has expired.
  abbrev pub Gone : Poll → Type 0
  Gone p =
      (hr : HostRecord)
      → p.reading ≡ valid hr
      → (hr.timestamp ≡ ts) × (host_record_live o ts p.now ≡ false)

  -- The loop has gone through unchanged rounds from `k` on, and ended at the round `j`.
  pub record Ended (polls : ℕ → Poll) (k : ℕ) (r : Waited) : Type 0 where
    pub at : ℕ
    pub from : k ≤ at
    pub quiet : (i : ℕ) → k ≤ i → i < at → Unchanged (polls i)
    pub outcome : ((r ≡ recheck) × Gone (polls at)) ⊎ ((r ≡ renewed) × Renewed (polls at))

  data OneRound (p : Poll) (rest : Waited) : Waited → Type 0 where
    goes_on : Unchanged p → OneRound p rest rest
    stops : Gone p → OneRound p rest recheck
    renews : Renewed p → OneRound p rest renewed

  wait_one-renewed :
      (now : ℕ) (hr : HostRecord) (rest : Waited)
      → hr.timestamp ≢ ts
      → wait_one now (valid hr) rest ≡ renewed
  unfolding wait_one
  wait_one-renewed now hr rest ne = ground arith

  wait_one-same :
      (now : ℕ) (hr : HostRecord) (rest : Waited) (live : Bool)
      → hr.timestamp ≡ ts
      → host_record_live o ts now ≡ live
      → wait_one now (valid hr) rest ≡ (if live then rest else recheck)
  unfolding wait_one
  wait_one-same now hr rest true e l = ground arith
  wait_one-same now hr rest false e l = ground arith

  the_record :
      (now : ℕ) (hr : HostRecord)
      → hr.timestamp ≡ ts
      → host_record_live o ts now ≡ false
      → Gone (record { now = now; reading = valid hr })
  the_record now hr e l k same = (ground arith, l)

  one_round :
      (now : ℕ) (r : Reading) (rest : Waited)
      → OneRound (record { now = now; reading = r }) rest (wait_one now r rest)
  unfolding wait_one
  one_round now empty rest = stops λ hr e. absurd (cc)
  one_round now (failed e) rest = stops λ hr e'. absurd (cc)
  one_round now (bad_magic raw) rest = stops λ hr e. absurd (cc)
  one_round now (bad_checksum raw) rest = stops λ hr e. absurd (cc)
  one_round now (valid hr) rest = elim (ℕ_discrete hr.timestamp ts) [
    | no ne ↦
        subst (OneRound (record { now = now; reading = valid hr }) rest)
          (sym (wait_one-renewed now hr rest ne)) (renews (hr, refl, ne))
    | yes e ↦ elim (Bool-cases (host_record_live o ts now)) [
      | inl live ↦
          subst (OneRound (record { now = now; reading = valid hr }) rest)
            (sym (wait_one-same now hr rest true e live)) (goes_on (hr, refl, e, live))
      | inr old ↦
          subst (OneRound (record { now = now; reading = valid hr }) rest)
            (sym (wait_one-same now hr rest false e old)) (stops (the_record now hr e old))
    ]
  ]

  Ended-by :
      (polls : ℕ → Poll) (k : ℕ) {rest r : Waited}
      → OneRound (polls k) rest r
      → (Unchanged (polls k) → Ended polls (k + 1) rest)
      → Ended polls k r
  Ended-by polls k (goes_on u) later =
      let e = later u in
      record {
        at = e.at;
        from = omega (arith, e.from);
        quiet = λ i p q. elim (ℕ_discrete k i) [
          | yes same ↦ subst (λ j. Unchanged (polls j)) same u
          | no other ↦ e.quiet i (ground arith) q
        ];
        outcome = e.outcome;
      }
  Ended-by polls k (stops g) later = record {
    at = k;
    from = omega arith;
    quiet = λ i p q. absurd (omega arith);
    outcome = inl (refl, g);
  }
  Ended-by polls k (renews w) later = record {
    at = k;
    from = omega arith;
    quiet = λ i p q. absurd (omega arith);
    outcome = inr (refl, w);
  }

  -- When the clock reading of round `i` is at least `start` + `i` seconds, and the record's
  -- timestamp fits int64_t: with fuel up to a round by which the record has expired, the polling
  -- ends by itself, and in all rounds before the last the record is unchanged and live. It ends
  -- with -EBUSY only if a valid record has another timestamp, and with a re-check only if there is
  -- no valid record, or it has the old timestamp and has expired.
  pub wait_loop-Ended :
      (polls : ℕ → Poll) (start n k : ℕ)
      → ts < 2 ^ 63
      → ((i : ℕ) → start + i ≤ (polls i).now)
      → ts + o.duration + o.skew_max + 1 ≤ start + k + n
      → Ended polls k (wait_loop polls (suc n) k)
  unfolding wait_loop
  wait_loop-Ended polls start zero k fits clock enough =
      Ended-by polls k (one_round (polls k).now (polls k).reading out_of_fuel)
        λ u. absurd (ground (arith, u.3, clock k, host_record_live_lem o ts (polls k).now fits))
  wait_loop-Ended polls start (suc n) k fits clock enough =
      Ended-by polls k (one_round (polls k).now (polls k).reading (wait_loop polls (suc n) (k + 1)))
        λ u. wait_loop-Ended polls start n (k + 1) fits clock (omega arith)

-- `again` is what the full re-check returns. `none` is a loop that goes on.
abbrev pub after_wait : Waited → Check → Option Check
after_wait recheck again = some again
after_wait renewed again = some (busy 0)
after_wait out_of_fuel again = none

-- The whole of it: `first` is the first read of the blocker's sector.
unfoldable pub rw_lease_wait_and_check : Options → Reading → (ℕ → Poll) → ℕ → Check → Option Check
unfolding wait_loop
rw_lease_wait_and_check o (valid hr) polls n again =
    if has_flag hr fl_rw then after_wait (wait_loop o hr.timestamp polls n 0) again else some again
rw_lease_wait_and_check o _ polls n again = some again
