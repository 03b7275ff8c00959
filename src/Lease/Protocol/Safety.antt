-- ===== src/Lease/Protocol/Safety.antt =====
-- No two hosts ever write to the file system at once.
use mathlib.Core.Path.{subst}
use native.Mathlib.Decide.{ℕ_discrete}
use polarfs.Prelude.{ℕ, ◌≤◌, ◌<◌, ◌≡◌, ◌≢◌, refl, sym, ap, ◌∙◌, arith}
use polarfs.Lease.Clock.{Options}
use polarfs.Lease.Fencing.{Clocks}
use polarfs.Lease.Record.{HostBody, Mount}
use polarfs.Lease.Ballot.{ballots_differ}
use polarfs.Lease.Protocol.{
  Phase, idle, holding, renewing, Host, update, Move, System, Step, tick, move, Reach, here, next,
  Writes, IsHolder,
}
use polarfs.Lease.Protocol.Invariant.{Mounted, Own, OwnAt, Move-Own, Own-tick}
use polarfs.Lease.Protocol.Pairs.{Pair, checked_upto, verified_upto, base_at}
use polarfs.Lease.Protocol.Moves.{Move-Pair_left, Move-Pair_right}

module _ (o : Options) (crc : HostBody → ℕ) (c : Clocks o) (hosts : ℕ) where
  abbrev IsIn : ℕ → Type 0
  IsIn a = (1 ≤ a) × (a ≤ hosts)

  -- All hosts in their places, and any two of them ordered as their checks found them.
  record Inv (s : System) : Type 0 where
    owns : (a : ℕ) → IsIn a → Own o crc c hosts a s.now (s.host a)
    pairs : (a b : ℕ) → IsIn a → IsIn b → a ≢ b → Pair o crc c hosts a b s.now (s.host a) (s.host b)

  update-cases {ℓ} :
      (P : Host → Type ℓ) (f : ℕ → Host) (h : ℕ) (x : Host) (i : ℕ)
      → (h ≡ i → P x)
      → (h ≢ i → P (f i))
      → P (update f h x i)
  update-cases P f h x i hit miss = elim (ℕ_discrete h i) [
    | yes e ↦ subst P (ground arith) (hit e)
    | no n ↦ subst P (ground arith) (miss n)
  ]

  Move-Inv :
      (s : System) (h : ℕ) (x : Host)
      → IsIn h
      → Move o crc c hosts h s.now (λ i. (s.host i).disk) (s.host h) x
      → Inv s
      → Inv (record s { host = update s.host h x })
  Move-Inv s h x h_in m v = record { owns = own; pairs = λ a b i j ne. pair a b i j ne }
    where
      own' : Own o crc c hosts h s.now x
      own' = Move-Own o crc c hosts h s.now _ m (v.owns h h_in)

      own : (a : ℕ) → IsIn a → Own o crc c hosts a s.now (update s.host h x a)
      own a i =
          update-cases (Own o crc c hosts a s.now) s.host h x a
            (λ e. subst (λ k. Own o crc c hosts k s.now x) e own') (λ e. v.owns a i)

      left : (a b : ℕ) → h ≡ a → IsIn b → a ≢ b → Pair o crc c hosts a b s.now x (s.host b)
      left a b e j ne =
          subst (λ k. Pair o crc c hosts k b s.now x (s.host b)) e
            (Move-Pair_left o crc c hosts h b s.now _ h_in.0 j.0 h_in.1 j.1 (λ q. ne (sym e ∙ q)) m
              (s.host b) refl (v.owns h h_in) (v.owns b j)
              (v.pairs h b h_in j (λ q. ne (sym e ∙ q))))

      right : (a b : ℕ) → h ≡ b → IsIn a → a ≢ b → Pair o crc c hosts a b s.now (s.host a) x
      right a b e i ne =
          subst (λ k. Pair o crc c hosts a k s.now (s.host a) x) e
            (Move-Pair_right o crc c hosts a h s.now _ i.0 h_in.0 i.1 h_in.1 (λ q. ne (q ∙ e)) m
              (s.host a) refl (v.owns a i) (v.owns h h_in) (v.pairs a h i h_in (λ q. ne (q ∙ e))))

      pair :
          (a b : ℕ)
          → IsIn a
          → IsIn b
          → a ≢ b
          → Pair o crc c hosts a b s.now (update s.host h x a) (update s.host h x b)
      pair a b i j ne =
          update-cases (λ y. Pair o crc c hosts a b s.now y (update s.host h x b)) s.host h x a
            (λ e.
              update-cases (Pair o crc c hosts a b s.now x) s.host h x b
                (λ f. absurd (ne (sym e ∙ f))) (λ f. left a b e j ne))
            (λ e.
              update-cases (Pair o crc c hosts a b s.now (s.host a)) s.host h x b
                (λ f. right a b f i ne) (λ f. v.pairs a b i j ne))

  Step-Inv : {s t : System} → Step o crc c hosts s t → Inv s → Inv t
  Step-Inv {s} (tick n) v = record {
    owns = λ a i. Own-tick o crc c hosts a s.now n (s.host a) (v.owns a i);
    pairs = λ a b i j ne p q u w. v.pairs a b i j ne p q (omega arith) (omega arith);
  }
  Step-Inv {s} (move h {x} lo hi m) v = Move-Inv s h x (lo, hi) m v

  Reach-Inv : {s t : System} → Inv s → Reach o crc c hosts s t → Inv t
  Reach-Inv v here = v
  Reach-Inv v (next r st) = Step-Inv st (Reach-Inv v r)

  -- Every host starts with no attempt under way; its sector may hold anything.
  abbrev AllIdle : System → Type 0
  AllIdle s = (a : ℕ) → (s.host a).phase ≡ idle

  AllIdle-Inv : (s : System) → AllIdle s → Inv s
  AllIdle-Inv s rest = record {
    owns = λ a i. subst (OwnAt o crc c hosts a s.now (s.host a)) (sym (rest a)) tt;
    pairs = λ a b i j ne p. absurd (none b (s.host a).phase (rest a) p);
  }
    where
      none : (b : ℕ) (p : Phase) → p ≡ idle → b < checked_upto hosts p → ⊥
      none b p e lt = absurd (omega (arith, ap (checked_upto hosts) e))

  IsHolder-checks :
      (b : ℕ) (p : Phase)
      → IsHolder p
      → b ≤ hosts
      → (b < checked_upto hosts p) × (b < verified_upto hosts p)
  IsHolder-checks b holding h le = omega arith
  IsHolder-checks b renewing h le = omega arith
  IsHolder-checks b _ h le = absurd h

  holder_base : (x : Host) (p : Phase) → IsHolder p → base_at x p ≡ x.stamped
  holder_base x holding h = refl
  holder_base x renewing h = refl
  holder_base x _ h = absurd h

  holder-Mounted :
      (a now : ℕ) (x : Host) (p : Phase)
      → IsHolder p
      → OwnAt o crc c hosts a now x p
      → Mounted o crc c hosts a x.mount
  holder-Mounted a now x holding h own = own.mounted
  holder-Mounted a now x renewing h own = own.mounted
  holder-Mounted a now x _ h own = absurd h

  -- Both hosts' ballots are bounded by each other's.
  outranks :
      (s : System) (a b : ℕ)
      → Inv s
      → IsIn a
      → IsIn b
      → a ≢ b
      → Writes o s a
      → Writes o s b
      → (s.host b).mount.current_ballot ≤ (s.host a).mount.current_ballot
  outranks s a b v i j ne w u =
      v.pairs a b i j ne (IsHolder-checks b (s.host a).phase w.holds j.1).0
        (IsHolder-checks a (s.host b).phase u.holds i.1).1
        (rw (holder_base (s.host a) (s.host a).phase w.holds) w.alive)
        (rw (holder_base (s.host b) (s.host b).phase u.holds) u.alive)

  equal_ballots :
      (a b : ℕ) (m k : Mount)
      → a ≢ b
      → Mounted o crc c hosts a m
      → Mounted o crc c hosts b k
      → m.current_ballot ≤ k.current_ballot
      → k.current_ballot ≤ m.current_ballot
      → ⊥
  equal_ballots a b m k ne p q le ge =
      (ballots_differ m k p.is_host q.is_host (p.all_hosts ∙ sym q.all_hosts)).0
        (λ e. ne (sym p.named ∙ e ∙ q.named)) (omega (arith, p.balloted, q.balloted))

  -- From any start at which no host has an attempt under way, whatever the sectors hold then, two
  -- different hosts are never both holders of the lease with their kill timers unexpired, however
  -- their steps, failures and restarts interleave; while each host's clocks run at the rate of real
  -- time and two hosts' CLOCK_REALTIME differ by no more than `paxos_clock_skew_max`.
  pub mutual_exclusion :
      (s t : System) (a b : ℕ)
      → ((h : ℕ) → (s.host h).phase ≡ idle)
      → Reach o crc c hosts s t
      → (1 ≤ a) × (a ≤ hosts)
      → (1 ≤ b) × (b ≤ hosts)
      → a ≢ b
      → Writes o t a
      → ¬ Writes o t b
  mutual_exclusion s t a b rest r a_in b_in ne w u =
      equal_ballots a b (t.host a).mount (t.host b).mount ne
        (holder-Mounted a t.now (t.host a) (t.host a).phase w.holds (v.owns a a_in))
        (holder-Mounted b t.now (t.host b) (t.host b).phase u.holds (v.owns b b_in))
        (outranks t b a v b_in a_in (λ e. ne (sym e)) u w) (outranks t a b v a_in b_in ne w u)
    where
      v : Inv t
      v = Reach-Inv (AllIdle-Inv s rest) r
