-- ===== src/Lease/Protocol/Moves.antt =====
-- Every move of either of two hosts keeps what their checks of each other have found.
use mathlib.Core.Path.{subst, subst₂}
use native.Mathlib.Decide.{ℕ_discrete}
use polarfs.Prelude.{ℕ, ◌+◌, ◌*◌, ◌≤◌, ◌<◌, ◌≡◌, ◌≢◌, ◌⊎◌, inl, inr, ap, ◌∙◌, true, [], arith}
use polarfs.Lease.Clock.{Options, ns_per_sec}
use polarfs.Lease.Fencing.{Clocks, seconds, lease_write_expired-boottime}
use polarfs.Lease.Record.{HostBody, HostRecord, bytes, host_record_read}
use polarfs.Lease.Scan.{verify_one, conflict_one}
use polarfs.Lease.Protocol.{
  Phase, verifying, promoting, acquired, timely, settling, holding, renewing, Host, Move, announce,
  prepare_lands, start_verify, verify_own, verify_other, promote, acquire_lands, in_time,
  start_settle, settle_own, settle_other, hold, renew, renew_lands, give_up, clear,
}
use polarfs.Lease.Protocol.Invariant.{Own, OwnAt}
use polarfs.Lease.Protocol.Pairs.{base, Meets, PairAt, Pair, conflict-verified, verify-checked}

module _ (o : Options) (crc : HostBody → ℕ) (c : Clocks o) (hosts : ℕ) where
  module _ (a b now : ℕ) (sector : ℕ → HostRecord) (a_pos : 1 ≤ a) (b_pos : 1 ≤ b)
      (a_in : a ≤ hosts) (b_in : b ≤ hosts) (ne : a ≢ b) where
    left_at :
        (x : Host) (p : Phase)
        → x.phase ≡ p
        → (y : Host) → Pair o crc c hosts a b now x y
        → PairAt o crc c hosts a b now x p y y.phase
    left_at x p e y pair = subst (λ r. PairAt o crc c hosts a b now x r y y.phase) e pair

    -- A move of the host that checks.
    pub Move-Pair_left :
        {x x' : Host}
        → Move o crc c hosts a now sector x x'
        → (y : Host) → sector b ≡ y.disk
        → Own o crc c hosts a now x
        → Own o crc c hosts b now y
        → Pair o crc c hosts a b now x y
        → Pair o crc c hosts a b now x' y
    Move-Pair_left (announce m v n al ba e) y disk own own' pair = λ p. absurd (omega arith)
    Move-Pair_left (prepare_lands st w e) y disk own own' pair = λ p. absurd (omega arith)
    Move-Pair_left (start_verify e) y disk own own' pair = λ p. absurd (omega arith)
    Move-Pair_left (verify_own i t e same) y disk own own' pair = λ p. absurd (omega arith)
    Move-Pair_left (verify_other i t e i_ne pass) y disk own own' pair = λ p. absurd (omega arith)
    Move-Pair_left (promote i t e over) y disk own own' pair = λ p. absurd (omega arith)
    Move-Pair_left (acquire_lands st w e) y disk own own' pair = λ p. absurd (omega arith)
    Move-Pair_left (in_time e fresh) y disk own own' pair = λ p. absurd (omega arith)
    Move-Pair_left (start_settle e) y disk own own' pair = λ p. absurd (omega arith)
    Move-Pair_left {x} (settle_own i t e same) y disk own own' pair =
        λ p q u v. left_at x (settling i t) e y pair (step i p same) q u v
      where
        step : (i : ℕ) → b < i + 1 → i ≡ a → b < i
        step i p same = omega (arith, ne)
    Move-Pair_left {x} (settle_other i t e i_ne pass) y disk own own' pair = λ p q u v.
        elim (ℕ_discrete i b) [
          | no before ↦ left_at x (settling i t) e y pair (ground arith) q u v
          | yes same ↦
              settled t (subst (OwnAt o crc c hosts a now x) e own).1
                (conflict-verified o crc c hosts b now a t x.mount.current_ballot y y.phase own'
                  (omega arith)
                  (subst₂
                    (λ k d.
                      conflict_one o [] x.mount.current_ballot (seconds c a t) k
                        (host_record_read crc (bytes d))
                      ≡ true)
                    same (ap sector same ∙ disk) pass))
                v
        ]
      where
        settled :
            (t : ℕ)
            → t ≤ now
            → (base y + o.duration * ns_per_sec ≤ t)
              ⊎ (y.mount.current_ballot ≤ x.mount.current_ballot)
            → Meets o crc c hosts now (base y)
            → y.mount.current_ballot ≤ x.mount.current_ballot
        settled t le (inl past) v = absurd (omega arith)
        settled t le (inr ok) v = ok
    Move-Pair_left {x} (hold i t e over fresh) y disk own own' pair =
        λ p q u v. left_at x (settling i t) e y pair (omega arith) q u v
    Move-Pair_left {x} (renew e alive) y disk own own' pair =
        λ p q u v. left_at x holding e y pair p q u v
    Move-Pair_left {x} (renew_lands st w e alive) y disk own own' pair =
        λ p q u v. left_at x renewing e y pair p q alive v
    Move-Pair_left give_up y disk own own' pair = λ p. absurd (omega arith)
    Move-Pair_left (clear e) y disk own own' pair = pair

    right_at :
        (x y : Host) (q : Phase)
        → y.phase ≡ q
        → Pair o crc c hosts a b now x y
        → PairAt o crc c hosts a b now x x.phase y q
    right_at x y q e pair = subst (λ r. PairAt o crc c hosts a b now x x.phase y r) e pair

    -- A move of the host that verifies.
    pub Move-Pair_right :
        {y y' : Host}
        → Move o crc c hosts b now sector y y'
        → (x : Host) → sector a ≡ x.disk
        → Own o crc c hosts a now x
        → Own o crc c hosts b now y
        → Pair o crc c hosts a b now x y
        → Pair o crc c hosts a b now x y'
    Move-Pair_right (announce m v n al ba e) x disk own own' pair = λ p q. absurd (omega arith)
    Move-Pair_right (prepare_lands st w e) x disk own own' pair = λ p q. absurd (omega arith)
    Move-Pair_right (start_verify e) x disk own own' pair = λ p q. absurd (omega arith)
    Move-Pair_right {y} (verify_own i t e same) x disk own own' pair =
        λ p q u v. right_at x y (verifying i t) e pair p (step i q same) u v
      where
        step : (i : ℕ) → a < i + 1 → i ≡ b → a < i
        step i q same = omega (arith, ne)
    Move-Pair_right {y} (verify_other i t e i_ne pass) x disk own own' pair = λ p q u v.
        elim (ℕ_discrete i a) [
          | no before ↦ right_at x y (verifying i t) e pair p (ground arith) u v
          | yes same ↦ absurd (
              missed t (subst (OwnAt o crc c hosts b now y) e own').1
                (verify-checked o crc c hosts a now b t y.mount.current_ballot x x.phase own
                  (omega arith)
                  (subst₂
                    (λ k d.
                      verify_one o [] y.mount.current_ballot (seconds c b t) k
                        (host_record_read crc (bytes d))
                      ≡ true)
                    same (ap sector same ∙ disk) pass))
                u)
        ]
      where
        missed :
            (t : ℕ)
            → t ≤ now
            → base x + o.duration * ns_per_sec ≤ t
            → Meets o crc c hosts now (base x)
            → ⊥
        missed t le past u = omega arith
    Move-Pair_right {y} (promote i t e over) x disk own own' pair =
        λ p q u v. right_at x y (verifying i t) e pair p (omega arith) u v
    Move-Pair_right {y} (acquire_lands st w e) x disk own own' pair =
        λ p q u v. right_at x y promoting e pair p q u v
    Move-Pair_right {y} (in_time e fresh) x disk own own' pair = λ p q u v.
        right_at x y acquired e pair p q u (lease_write_expired-boottime o now y.prepared_at fresh)
    Move-Pair_right {y} (start_settle e) x disk own own' pair =
        λ p q u v. right_at x y timely e pair p q u v
    Move-Pair_right {y} (settle_own i t e same) x disk own own' pair =
        λ p q u v. right_at x y (settling i t) e pair p q u v
    Move-Pair_right {y} (settle_other i t e i_ne pass) x disk own own' pair =
        λ p q u v. right_at x y (settling i t) e pair p q u v
    Move-Pair_right {y} (hold i t e over fresh) x disk own own' pair =
        λ p q u v. right_at x y (settling i t) e pair p q u v
    Move-Pair_right {y} (renew e alive) x disk own own' pair =
        λ p q u v. right_at x y holding e pair p q u v
    Move-Pair_right {y} (renew_lands st w e alive) x disk own own' pair =
        λ p q u v. right_at x y renewing e pair p q u alive
    Move-Pair_right give_up x disk own own' pair = λ p q. absurd (omega arith)
    Move-Pair_right {y} (clear e) x disk own own' pair = pair
