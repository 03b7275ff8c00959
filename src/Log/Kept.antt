-- ===== src/Log/Kept.antt =====
-- What the trim groups keep, and what a trim does.
use Prim.Native.Nat.{max}
use polarfs.Prelude.{
  leb→le, ap, ltb, sym, lt→ltb, ℕ, ◌+◌, ◌≤◌, ◌<◌, ◌≡◌, refl, ◌∙◌, some, List, [], ◌∷◌, arith, leb,
  if◌then◌else◌, length, min, Bool-cases, inl, inr,
}
use polarfs.Log.Ring.{off_modular_add}
use polarfs.Log.Group.{
  Sect, Group, insert_one, insert_all, trimgroup_insert, trimgroup_delete, delete_upto, IsWf,
  Ordered, AllBelow, Ordered-mono, AllBelow-mono, During, insert_one-During,
}

insert_all-During : (t : ℕ) (g : Group) (bs : List ℕ) → During t g → During t (insert_all t g bs)
unfolding insert_all
insert_all-During t g [] d = d
insert_all-During t g (b ∷ bs) d =
    insert_all-During t (insert_one t g b) bs (insert_one-During t g b d)

insert_one-ltxid : (t : ℕ) (g : Group) (b : ℕ) → (insert_one t g b).ltxid ≡ g.ltxid
unfolding insert_one
insert_one-ltxid t g b = ground arith

insert_all-ltxid : (t : ℕ) (g : Group) (bs : List ℕ) → (insert_all t g bs).ltxid ≡ g.ltxid
unfolding insert_all
insert_all-ltxid t g [] = refl
insert_all-ltxid t g (b ∷ bs) = insert_all-ltxid t (insert_one t g b) bs ∙ insert_one-ltxid t g b

-- The transaction next to a well-formed group is taken in without a failed assertion: the group is
-- well formed, ends with that transaction, and its end has moved by the transaction's log space.
pub trimgroup_insert-IsWf :
    (g : Group) (logused logsize : ℕ) (ops : List ℕ)
    → IsWf g
    → (g' : Group) × (trimgroup_insert g (g.rtxid + 1) logused ops logsize ≡ some g')
      × IsWf g'
      × (g'.ltxid ≡ g.ltxid)
      × (g'.rtxid ≡ g.rtxid + 1)
      × (g'.roffset ≡ off_modular_add g.roffset logused logsize)
unfolding trimgroup_insert
trimgroup_insert-IsWf g logused logsize ops wf =
    let d = insert_all-During (g.rtxid + 1) g ops (record {
      counted = wf.counted;
      ordered = wf.ordered;
      below = AllBelow-mono g.rtxid (g.rtxid + 1) g.sects (omega arith) wf.below;
      late = omega (arith, wf.range);
    }) in
    (
      record (insert_all (g.rtxid + 1) g ops) {
        rtxid = g.rtxid + 1;
        roffset = off_modular_add g.roffset logused logsize;
      },
      ground arith,
      record {
        range = omega (arith, d.late);
        counted = d.counted;
        ordered = d.ordered;
        below = d.below;
      },
      insert_all-ltxid (g.rtxid + 1) g ops,
      refl,
      refl,
    )

-- What the loop of delete leaves: the sectors past `to`.
delete-keeps :
    (lo hi to : ℕ) (ss : List Sect)
    → Ordered lo ss
    → AllBelow hi ss
    → Ordered (to + 1) (delete_upto to ss)
      × AllBelow hi (delete_upto to ss)
      × (length (delete_upto to ss) ≤ length ss)
unfolding delete_upto
delete-keeps lo hi to [] o u = (tt, tt, omega arith)
delete-keeps lo hi to (s ∷ ss) o u = elim (Bool-cases (leb s.txid to)) [
  | inl gone ↦
      let (o', u', n) = delete-keeps s.txid hi to ss o.1 u.1 in
      rw (gone, delete_upto) (o', u', omega (arith, n))
  | inr stays ↦ rw (stays, delete_upto) ((ground arith, o.1), u, omega arith)
]

delete-none : (hi to : ℕ) (ss : List Sect) → AllBelow hi ss → hi ≤ to → delete_upto to ss ≡ []
unfolding delete_upto
delete-none hi to [] u h = refl
delete-none hi to (s ∷ ss) u h = ground (arith, u.0, delete-none hi to ss u.1 h)

-- `pfs_trimgroup_delete` keeps a well-formed group well formed and its end where it is; the group
-- then starts at the transaction that was asked for, or at its own end if that comes first, or
-- where it started before if that comes later; if that transaction is past the end, no sector is
-- left.
pub trimgroup_delete-IsWf :
    (g : Group) (to : ℕ)
    → IsWf g
    → IsWf (trimgroup_delete g to)
      × ((trimgroup_delete g to).ltxid ≡ (if leb to g.ltxid then g.ltxid else min to g.rtxid))
      × ((trimgroup_delete g to).rtxid ≡ g.rtxid)
      × (g.rtxid ≤ to → g.ltxid < to → (trimgroup_delete g to).sects ≡ [])
unfolding trimgroup_delete
trimgroup_delete-IsWf g to wf = elim (Bool-cases (leb to g.ltxid)) [
  | inl early ↦ rw (early, trimgroup_delete) (wf, refl, refl, λ p q. absurd (ground arith))
  | inr late ↦
      let (o, u, n) = delete-keeps (g.ltxid + 1) g.rtxid to g.sects wf.ordered wf.below in
      rw (late, trimgroup_delete)
        (
          record {
            range = omega arith;
            counted = omega (arith, wf.counted, n);
            ordered =
                Ordered-mono (to + 1) (min to g.rtxid + 1) (delete_upto to g.sects) (omega arith) o;
            below = u;
          },
          refl,
          refl,
          λ p q. delete-none g.rtxid to g.sects wf.below p,
        )
]

-- The sectors of later transactions.
abbrev pub later : ℕ → List Sect → List Sect
later to [] = []
later to (s ∷ ss) = if ltb to s.txid then s ∷ later to ss else later to ss

later-all : (lo to : ℕ) (ss : List Sect) → Ordered lo ss → to < lo → later to ss ≡ ss
later-all lo to [] o h = refl
later-all lo to (s ∷ ss) o h =
    rw (lt→ltb to s.txid (omega (arith, o.0)))
      (ap (λ l. s ∷ l) (later-all s.txid to ss o.1 (omega (arith, o.0))))

delete_upto-later : (lo to : ℕ) (ss : List Sect) → Ordered lo ss → delete_upto to ss ≡ later to ss
unfolding delete_upto
delete_upto-later lo to [] o = refl
delete_upto-later lo to (s ∷ ss) o =
    let rest = delete_upto-later s.txid to ss o.1 in
    elim (Bool-cases (leb s.txid to)) [
      | inl gone ↦ ground (arith, rest)
      | inr stays ↦ ground (arith, later-all s.txid to ss o.1 (ground arith))
    ]

-- A group from which the transactions up to `to` are deleted: its sectors are those of later
-- transactions, and its range ends where it did.
pub record IsCut (to : ℕ) (g g' : Group) : Type 0 where
  pub wf : IsWf g'
  pub sects : g'.sects ≡ later to g.sects
  pub start : g'.ltxid ≡ max g.ltxid (min to g.rtxid)
  pub end : g'.rtxid ≡ g.rtxid

pub kept-IsCut : (g : Group) (to : ℕ) → IsWf g → to ≤ g.ltxid → IsCut to g g
kept-IsCut g to wf h = record {
  wf = wf;
  sects = sym (later-all (g.ltxid + 1) to g.sects wf.ordered (omega arith));
  start = omega (arith, wf.range);
  end = refl;
}

trimgroup_delete-sects :
    (g : Group) (to : ℕ) → IsWf g → (trimgroup_delete g to).sects ≡ later to g.sects
unfolding trimgroup_delete
trimgroup_delete-sects g to wf = elim (Bool-cases (leb to g.ltxid)) [
  | inl early ↦
      rw early (
        sym
          (later-all (g.ltxid + 1) to g.sects wf.ordered (omega (arith, leb→le to g.ltxid early))))
  | inr late ↦ rw late (delete_upto-later (g.ltxid + 1) to g.sects wf.ordered)
]

pub trimgroup_delete-IsCut : (g : Group) (to : ℕ) → IsWf g → IsCut to g (trimgroup_delete g to)
trimgroup_delete-IsCut g to wf =
    let (w, l, r, n) = trimgroup_delete-IsWf g to wf in
    record {
      wf = w;
      sects = trimgroup_delete-sects g to wf;
      start = ground (arith, l, wf.range);
      end = r;
    }
