-- ===== src/Log/Group.antt =====
-- src/pfs_core/pfs_log.cc: the trim groups, which hold the metadata sectors that logged transactions
-- have changed, in the order of the transactions, until a trim writes them to their places.
use polarfs.Prelude.{
  ℕ, ◌+◌, ◌-◌, ◌≤◌, ◌<◌, ◌≡◌, Bool, true, false, ◌||◌, Option, none, some, List, [], ◌∷◌, ◌++◌,
  arith, leb, ◌==◌, if◌then◌else◌, length, length-append, min, Bool-cases, inl, inr,
}
use polarfs.Log.Ring.{off_modular_add}

-- `pfs_sectbuf_t`, without its buffers: the sector's address, and the last transaction to change it.
pub record Sect : Type 0 where
  pub bda : ℕ
  pub txid : ℕ

-- `pfs_trimgroup_t`: the sectors of the transactions (ltxid, rtxid], and where the last one ends.
pub record Group : Type 0 where
  pub ltxid : ℕ
  pub rtxid : ℕ
  pub roffset : ℕ
  pub nsects : ℕ
  pub sects : List Sect

unfoldable pub group_ntx : Group → ℕ
group_ntx g = g.rtxid - g.ltxid

-- The tree search by address, and TAILQ_REMOVE.
unfoldable pub has_sect : ℕ → List Sect → Bool
has_sect b [] = false
has_sect b (s ∷ ss) = s.bda == b || has_sect b ss

unfoldable pub remove_sect : ℕ → List Sect → List Sect
remove_sect b [] = []
remove_sect b (s ∷ ss) = if s.bda == b then ss else s ∷ remove_sect b ss

-- One round of `pfs_trimgroup_insert`, for an operation on the sector at `b`.
unfoldable pub insert_one : ℕ → Group → ℕ → Group
unfolding has_sect remove_sect
insert_one txid g b =
    if has_sect b g.sects
    then record g { sects = remove_sect b g.sects ++ (record { bda = b; txid = txid } ∷ []) }
    else record g {
      nsects = g.nsects + 1;
      sects = g.sects ++ (record { bda = b; txid = txid } ∷ []);
    }

unfoldable pub insert_all : ℕ → Group → List ℕ → Group
unfolding insert_one
insert_all txid g [] = g
insert_all txid g (b ∷ bs) = insert_all txid (insert_one txid g b) bs

-- `none` is a failed PFS_ASSERT.
unfoldable pub trimgroup_insert : Group → ℕ → ℕ → List ℕ → ℕ → Option Group
unfolding insert_all
trimgroup_insert g txid logused ops logsize =
    if txid == g.rtxid + 1
    then some (record (insert_all txid g ops) {
      rtxid = txid;
      roffset = off_modular_add g.roffset logused logsize;
    })
    else none

-- The while loop of `pfs_trimgroup_delete`.
unfoldable pub delete_upto : ℕ → List Sect → List Sect
delete_upto to [] = []
delete_upto to (s ∷ ss) = if leb s.txid to then delete_upto to ss else s ∷ ss

unfoldable pub trimgroup_delete : Group → ℕ → Group
unfolding delete_upto
trimgroup_delete g to = if leb to g.ltxid then g else record g {
  sects = delete_upto to g.sects;
  nsects = g.nsects - (length g.sects - length (delete_upto to g.sects));
  ltxid = min to g.rtxid;
}

-- The transactions' numbers do not fall along the list, and none is below `lo`.
abbrev pub Ordered : ℕ → List Sect → Type 0
Ordered lo [] = Unit {0}
Ordered lo (s ∷ ss) = (lo ≤ s.txid) × Ordered s.txid ss

abbrev pub AllBelow : ℕ → List Sect → Type 0
AllBelow hi [] = Unit {0}
AllBelow hi (s ∷ ss) = (s.txid ≤ hi) × AllBelow hi ss

pub record IsWf (g : Group) : Type 0 where
  pub range : g.ltxid ≤ g.rtxid
  pub counted : g.nsects ≡ length g.sects
  pub ordered : Ordered (g.ltxid + 1) g.sects
  pub below : AllBelow g.rtxid g.sects

pub Ordered-mono : (lo lo' : ℕ) (ss : List Sect) → lo' ≤ lo → Ordered lo ss → Ordered lo' ss
Ordered-mono lo lo' [] h o = tt
Ordered-mono lo lo' (s ∷ ss) h o = (omega (arith, o.0), o.1)

pub AllBelow-mono : (hi hi' : ℕ) (ss : List Sect) → hi ≤ hi' → AllBelow hi ss → AllBelow hi' ss
AllBelow-mono hi hi' [] h b = tt
AllBelow-mono hi hi' (s ∷ ss) h b = (omega (arith, b.0), AllBelow-mono hi hi' ss h b.1)

Ordered-snoc :
    (lo t b : ℕ) (ss : List Sect)
    → lo ≤ t
    → Ordered lo ss
    → AllBelow t ss
    → Ordered lo (ss ++ (record { bda = b; txid = t } ∷ []))
Ordered-snoc lo t b [] h o u = (h, tt)
Ordered-snoc lo t b (s ∷ ss) h o u = (o.0, Ordered-snoc s.txid t b ss u.0 o.1 u.1)

AllBelow-snoc :
    (t b : ℕ) (ss : List Sect)
    → AllBelow t ss
    → AllBelow t (ss ++ (record { bda = b; txid = t } ∷ []))
AllBelow-snoc t b [] u = (omega arith, tt)
AllBelow-snoc t b (s ∷ ss) u = (u.0, AllBelow-snoc t b ss u.1)

remove-keeps :
    (lo hi b : ℕ) (ss : List Sect)
    → Ordered lo ss
    → AllBelow hi ss
    → Ordered lo (remove_sect b ss) × AllBelow hi (remove_sect b ss)
unfolding remove_sect
remove-keeps lo hi b [] o u = (tt, tt)
remove-keeps lo hi b (s ∷ ss) o u = elim (Bool-cases (s.bda == b)) [
  | inl same ↦ rw (same, remove_sect) (Ordered-mono s.txid lo ss o.0 o.1, u.1)
  | inr other ↦
      let (o', u') = remove-keeps s.txid hi b ss o.1 u.1 in
      rw (other, remove_sect) ((o.0, o'), (u.0, u'))
]

remove-length :
    (b : ℕ) (ss : List Sect) → has_sect b ss ≡ true → length (remove_sect b ss) + 1 ≡ length ss
unfolding has_sect remove_sect
remove-length b [] h = cc
remove-length b (s ∷ ss) h = ground (arith, remove-length b ss)

-- The group while transaction `t` is being inserted.
pub record During (t : ℕ) (g : Group) : Type 0 where
  pub counted : g.nsects ≡ length g.sects
  pub ordered : Ordered (g.ltxid + 1) g.sects
  pub below : AllBelow t g.sects
  pub late : g.ltxid < t

pub insert_one-During : (t : ℕ) (g : Group) (b : ℕ) → During t g → During t (insert_one t g b)
unfolding insert_one
insert_one-During t g b d = elim (Bool-cases (has_sect b g.sects)) [
  | inl old ↦
      let (o, u) = remove-keeps (g.ltxid + 1) t b g.sects d.ordered d.below in
      rw (old, insert_one)
        (record {
          counted = omega (
            arith,
            d.counted,
            remove-length b g.sects old,
            length-append (remove_sect b g.sects) (record { bda = b; txid = t } ∷ []),
          );
          ordered =
              Ordered-snoc (g.ltxid + 1) t b (remove_sect b g.sects) (omega (arith, d.late)) o u;
          below = AllBelow-snoc t b (remove_sect b g.sects) u;
          late = d.late;
        })
  | inr fresh ↦
      rw (fresh, insert_one)
        (record {
          counted =
              omega (arith, d.counted, length-append g.sects (record { bda = b; txid = t } ∷ []));
          ordered =
              Ordered-snoc (g.ltxid + 1) t b g.sects (omega (arith, d.late)) d.ordered d.below;
          below = AllBelow-snoc t b g.sects d.below;
          late = d.late;
        })
]
