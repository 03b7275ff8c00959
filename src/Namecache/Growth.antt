-- ===== src/Namecache/Growth.antt =====
-- The expansion of the tables ends, whatever the calls between two holds of its thread do.
use polarfs.Namecache.{remove_entry, Cache, nc_hard_limit, find, deno_chain, calc_deno_hash}
use polarfs.Namecache.Calls.{is_deno, delete_by_deno}
use polarfs.Namecache.Grow.{maintenance_round}
use polarfs.Namecache.Answers.{lookup-view}
use polarfs.Namecache.Cleared.{clear_mount-Frame}
use polarfs.Namecache.Frame.{left, Frame, Frame-refl, Frame-trans, stats-Frame, remove_entry-Frame}
use polarfs.Namecache.Rounds.{maintenance_round-Rounded, cancel-IsWf}
use polarfs.Namecache.Steps.{
  Step, entered, looked, deleted, cleared, held, cancelled, tuned, Step-IsWf, enter-Kept, Runs,
  began, went, Runs-IsWf,
}
use polarfs.Namecache.Wf.{IsWf}
use mathlib.Core.Option.{some-injective}
use mathlib.Core.Path.{subst, subst⁻¹}
use polarfs.Prelude.{
  ℕ, suc, ◌+◌, ◌≤◌, ◌<◌, true, List, ◌≡◌, inl, inr, arith, some, Option-cases, refl, sym, ◌∙◌,
}

module _ (fnv : List ℕ → ℕ → ℕ) where
  delete_by_deno-Frame : (c : Cache) (mnt deno : ℕ) → Frame c (delete_by_deno fnv c mnt deno).0
  unfolding delete_by_deno
  delete_by_deno-Frame c mnt deno =
      elim (Option-cases (find (is_deno mnt deno) (deno_chain c (calc_deno_hash fnv mnt deno)))) [
        | inl h ↦ rw (h, delete_by_deno) (Frame-refl c)
        | inr (e, h) ↦
            rw (h, delete_by_deno)
              (Frame-trans (remove_entry-Frame c e) (stats-Frame (remove_entry c e) _))
      ]

  -- What a step leaves of an expansion.
  record Goes (c d : Cache) : Type 0 where
    bulk : d.bulk_move ≡ c.bulk_move
    fewer : c.expanding ≡ true → left d ≤ left c

  Goes-Frame : {c d : Cache} → Frame c d → Goes c d
  Goes-Frame f = record { bulk = f.bulk; fewer = λ y. omega (arith, (f.growing y).1) }

  Step-Goes : (c d : Cache) → IsWf fnv nc_hard_limit c → Step fnv c d → Goes c d
  Step-Goes c d w (entered env mnt parent_ino child_ino name deno freed fresh q) =
      Goes-Frame (enter-Kept fnv c w env mnt parent_ino child_ino name deno d freed fresh q).1
  Step-Goes c d w (looked now mnt parent_ino name q) =
      subst⁻¹ (Goes c) q (Goes-Frame (lookup-view fnv c w now mnt parent_ino name).1.frame)
  Step-Goes c d w (deleted mnt deno q) =
      subst⁻¹ (Goes c) q (Goes-Frame (delete_by_deno-Frame c mnt deno))
  Step-Goes c d w (cleared mnt off q) =
      subst⁻¹ (Goes c) q (Goes-Frame (clear_mount-Frame fnv mnt c off w))
  Step-Goes c d w (held y q) =
      let (c', p, r) = maintenance_round-Rounded fnv nc_hard_limit c y w in
      subst (Goes c) (some-injective c' d (sym p ∙ q))
        (record { bulk = r.bulk; fewer = λ z. omega (arith, r.fewer) })
  Step-Goes c d w (cancelled y z q) =
      let (c', p, v, nodes, off, same) = cancel-IsWf fnv nc_hard_limit c y z w in
      subst (Goes c) (some-injective c' d (sym p ∙ q))
        (record { bulk = same; fewer = λ t. ground (arith, off) })
  Step-Goes c d w (tuned on max window len q) =
      subst⁻¹ (Goes c) q (record { bulk = refl; fewer = λ y. omega arith })

  -- A stretch of steps at each of which an expansion is under way, with the number of times that
  -- the thread held the lock.
  pub data Growing (c : Cache) : ℕ → Cache → Type 0 where
    start : Growing c 0 c
    other :
        {k : ℕ} {d e : Cache} → Growing c k d → Step fnv d e → e.expanding ≡ true → Growing c k e
    hold :
        {k : ℕ} {d e : Cache}
        → Growing c k d
        → maintenance_round fnv d ≡ some e
        → e.expanding ≡ true
        → Growing c (suc k) e

  record Progress (c : Cache) (k : ℕ) (d : Cache) : Type 0 where
    wf : IsWf fnv nc_hard_limit d
    bulk : d.bulk_move ≡ c.bulk_move
    on : d.expanding ≡ true
    gone : k + left d ≤ left c

  Growing-Progress :
      (c : Cache)
      → IsWf fnv nc_hard_limit c
      → c.expanding ≡ true
      → 0 < c.bulk_move
      → (k : ℕ) (d : Cache) → Growing c k d
      → Progress c k d
  Growing-Progress c w y b k d start = record { wf = w; bulk = refl; on = y; gone = omega arith }
  Growing-Progress c w y b k d (other {d = d'} g s y') =
      let p = Growing-Progress c w y b k d' g in
      let r = Step-Goes d' d p.wf s in
      record {
        wf = Step-IsWf fnv d' d p.wf s;
        bulk = r.bulk ∙ p.bulk;
        on = y';
        gone = omega (arith, r.fewer p.on, p.gone);
      }
  Growing-Progress c w y b k d (hold {k = k'} {d = d'} g q y') =
      let p = Growing-Progress c w y b k' d' g in
      let (e, h, r) = maintenance_round-Rounded fnv nc_hard_limit d' p.on p.wf in
      subst (Progress c (suc k')) (some-injective e d (sym h ∙ q)) (record {
        wf = r.wf;
        bulk = r.bulk ∙ p.bulk;
        on = subst⁻¹ (λ (t : Cache). t.expanding ≡ true) (some-injective e d (sym h ∙ q)) y';
        gone = omega (arith, r.fewer, p.gone, p.bulk, b);
      })

  Runs-bulk : {c : Cache} → Runs fnv c → c.bulk_move ≡ 1
  Runs-bulk (began on max) = refl
  Runs-bulk (went {c = c} r s) = (Step-Goes c _ (Runs-IsWf fnv r) s).bulk ∙ Runs-bulk r

  left-pos : (c : Cache) → c.expanding ≡ true → c.expand.bucket < c.tbl.sz → 0 < left c
  left-pos c y lt = ground arith

  left-le : (c : Cache) → left c ≤ c.tbl.sz
  left-le c = ground arith

  -- While an expansion is under way its thread holds the lock less often than there are buckets,
  -- whatever steps come between, and no hold fails an assertion: so the expansion ends.
  pub expansion_ends :
      {c : Cache}
      → Runs fnv c
      → c.expanding ≡ true
      → (k : ℕ) (d : Cache) → Growing c k d
      → (k < c.tbl.sz) × ((e : Cache) × (maintenance_round fnv d ≡ some e) × (left e < left d))
  expansion_ends {c} r y k d g =
      let b = Runs-bulk r in
      let p = Growing-Progress c (Runs-IsWf fnv r) y (omega (arith, b)) k d g in
      let (e, h, q) = maintenance_round-Rounded fnv nc_hard_limit d p.on p.wf in
      (
        omega (arith, p.gone, left-pos d p.on (p.wf.moving p.on), left-le c),
        (e, h, omega (arith, q.fewer, p.bulk, b)),
      )
