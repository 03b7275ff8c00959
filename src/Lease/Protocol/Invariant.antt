-- ===== src/Lease/Protocol/Invariant.antt =====
-- What holds of each host at each phase, and what a read of its sector tells another host.
use mathlib.Core.Path.{subst}
use polarfs.Prelude.{ℕ, ◌+◌, ◌^◌, ◌≤◌, ◌<◌, ◌≡◌, refl, sym, arith}
use polarfs.Lease.Clock.{Options}
use polarfs.Lease.Fencing.{Clocks, seconds}
use polarfs.Lease.Record.{
  HostBody, HostRecord, zero_record, Mount, ballot_generate, prepare_record, acquire_record,
}
use polarfs.Lease.Ballot.{IsHost}
use polarfs.Lease.Protocol.{
  Phase, idle, announcing, prepared, verifying, promoting, acquired, timely, settling, holding,
  renewing, Host, Stamp, Move, announce, prepare_lands, start_verify, verify_own, verify_other,
  promote, acquire_lands, in_time, start_settle, settle_own, settle_other, hold, renew, renew_lands,
  give_up, clear,
}

module _ (o : Options) (crc : HostBody → ℕ) (c : Clocks o) (hosts : ℕ) where
  -- The host's identity and its ballot.
  pub record Mounted (h : ℕ) (m : Mount) : Type 0 where
    pub is_host : IsHost m
    pub named : m.host_id ≡ h
    pub all_hosts : m.num_hosts ≡ hosts
    pub balloted : m.current_ballot ≡ ballot_generate m

  -- The sector holds what prepare, or what acquire and renew, wrote with a timestamp no earlier than
  -- the issue of that write.
  pub record Stamped (h now : ℕ) (m : Mount) (d : HostRecord) (issue : ℕ)
      (written_by : Mount → ℕ → HostRecord) : Type 0 where
    pub mounted : Mounted h m
    pub stamp : ℕ
    pub fits : seconds c h stamp < 2 ^ 63
    pub after : issue ≤ stamp
    pub past : issue ≤ now
    pub written : d ≡ written_by m (seconds c h stamp)

  abbrev pub Prepares : ℕ → ℕ → Host → Type 0
  Prepares h now x =
      Stamped h now x.mount x.disk x.stamped (prepare_record crc) × (x.prepared_at ≡ x.stamped)

  abbrev pub Acquires : ℕ → ℕ → Host → Type 0
  Acquires h now x = Stamped h now x.mount x.disk x.stamped (acquire_record crc)

  abbrev pub OwnAt : ℕ → ℕ → Host → Phase → Type 0
  OwnAt h now x idle = Unit
  OwnAt h now x announcing = Mounted h x.mount
  OwnAt h now x prepared = Prepares h now x
  OwnAt h now x (verifying i t) = Prepares h now x × (t ≤ now)
  OwnAt h now x promoting = Prepares h now x × (x.prepared_at ≤ x.pending)
  OwnAt h now x acquired = Acquires h now x × (x.prepared_at ≤ x.stamped)
  OwnAt h now x timely = Acquires h now x
  OwnAt h now x (settling i t) = Acquires h now x × (t ≤ now)
  OwnAt h now x holding = Acquires h now x
  OwnAt h now x renewing = Acquires h now x

  abbrev pub Own : ℕ → ℕ → Host → Type 0
  Own h now x = OwnAt h now x x.phase

  module _ (h now : ℕ) (sector : ℕ → HostRecord) where
    own_at : (x : Host) (p : Phase) → x.phase ≡ p → Own h now x → OwnAt h now x p
    own_at x p e own = subst (OwnAt h now x) e own

    landed :
        {m : Mount} {issue stamp : ℕ} (w : Mount → ℕ → HostRecord)
        → Mounted h m
        → Stamp o crc c hosts h issue now stamp
        → Stamped h now m (w m (seconds c h stamp)) issue w
    landed {stamp = stamp} w m s = record {
      mounted = m;
      stamp = stamp;
      fits = s.fits;
      after = s.after;
      past = omega (arith, s.after, s.before);
      written = refl;
    }

    -- Every move of a host keeps what its phase says.
    pub Move-Own : {x y : Host} → Move o crc c hosts h now sector x y → Own h now x → Own h now y
    Move-Own (announce m v n a b e) own = record {
      is_host = v;
      named = n;
      all_hosts = a;
      balloted = b;
    }
    Move-Own {x} (prepare_lands stamp w e) own =
        (landed (prepare_record crc) (own_at x announcing e own) w, refl)
    Move-Own {x} (start_verify e) own = (own_at x prepared e own, omega arith)
    Move-Own {x} (verify_own i t e same) own = own_at x (verifying i t) e own
    Move-Own {x} (verify_other i t e ne pass) own = own_at x (verifying i t) e own
    Move-Own {x} (promote i t e over) own =
        let p = (own_at x (verifying i t) e own).0 in (p, omega (arith, p.1, p.0.past))
    Move-Own {x} (acquire_lands stamp w e) own =
        let p = own_at x promoting e own in (landed (acquire_record crc) p.0.0.mounted w, p.1)
    Move-Own {x} (in_time e fresh) own = (own_at x acquired e own).0
    Move-Own {x} (start_settle e) own = (own_at x timely e own, omega arith)
    Move-Own {x} (settle_own i t e same) own = own_at x (settling i t) e own
    Move-Own {x} (settle_other i t e ne pass) own = own_at x (settling i t) e own
    Move-Own {x} (hold i t e over fresh) own = (own_at x (settling i t) e own).0
    Move-Own {x} (renew e alive) own = own_at x holding e own
    Move-Own {x} (renew_lands stamp w e alive) own =
        landed (acquire_record crc) (own_at x renewing e own).mounted w
    Move-Own give_up own = tt
    Move-Own {x} (clear e) own = subst (OwnAt h now (record x { disk = zero_record })) (sym e) tt

  -- Time that passes changes nothing of it.
  module _ (h now n : ℕ) where
    Stamped-tick :
        {m : Mount} {d : HostRecord} {issue : ℕ} {w : Mount → ℕ → HostRecord}
        → Stamped h now m d issue w
        → Stamped h (now + n) m d issue w
    Stamped-tick s = record {
      mounted = s.mounted;
      stamp = s.stamp;
      fits = s.fits;
      after = s.after;
      past = omega (arith, s.past);
      written = s.written;
    }

    OwnAt-tick : (x : Host) (p : Phase) → OwnAt h now x p → OwnAt h (now + n) x p
    OwnAt-tick x idle own = tt
    OwnAt-tick x announcing own = own
    OwnAt-tick x prepared own = (Stamped-tick own.0, own.1)
    OwnAt-tick x (verifying i t) own = ((Stamped-tick own.0.0, own.0.1), omega (arith, own.1))
    OwnAt-tick x promoting own = ((Stamped-tick own.0.0, own.0.1), own.1)
    OwnAt-tick x acquired own = (Stamped-tick own.0, own.1)
    OwnAt-tick x timely own = Stamped-tick own
    OwnAt-tick x (settling i t) own = (Stamped-tick own.0, omega (arith, own.1))
    OwnAt-tick x holding own = Stamped-tick own
    OwnAt-tick x renewing own = Stamped-tick own

    pub Own-tick : (x : Host) → Own h now x → Own h (now + n) x
    Own-tick x own = OwnAt-tick x x.phase own
