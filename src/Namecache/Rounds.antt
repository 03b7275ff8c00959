-- ===== src/Namecache/Rounds.antt =====
-- A hold of the lock by the thread that grows the tables, and the expansion that cannot start.
use polarfs.Namecache.{Cache}
use polarfs.Namecache.Calls.{name_hash, deno_hash}
use polarfs.Namecache.Grow.{
  move_bucket, free_expand_info, move_bulk, maintenance_round, cancel, no_expand,
}
use polarfs.Namecache.Spread.{Placed-moving, Placed-cancel, new_empty, all_empty_lem}
use polarfs.Namecache.Frame.{left}
use polarfs.Namecache.Expanded.{move_bucket-IsWf, grown, finish-grown, grown-IsWf}
use polarfs.Namecache.Placed.{Placed}
use polarfs.Namecache.Wf.{IsWf}
use polarfs.Prelude.{
  ◌≢◌, ==_iff, ℕ, zero, suc, ◌+◌, ◌≤◌, ◌<◌, true, false, List, ◌≡◌, inl, inr, arith, some,
  Bool-cases, refl, ◌==◌, min, ◌∙◌,
}

==→ne : (a b : ℕ) → (a == b) ≡ false → a ≢ b
==→ne a b h = ground arith

left-pos :
    (m : ℕ) (c : Cache)
    → c.expanding ≡ true
    → c.expand.bucket < c.tbl.sz
    → 0 + min (suc m) 1 ≤ left c
left-pos m c y lt = ground arith

module _ (fnv : List ℕ → ℕ → ℕ) (n : ℕ) where
  -- The nodes stay, and up to `m` buckets fewer are left to move.
  pub record Rounded (m : ℕ) (c c' : Cache) : Type 0 where
    pub wf : IsWf fnv n c'
    pub nodes : c'.lru ≡ c.lru
    pub bulk : c'.bulk_move ≡ c.bulk_move
    pub fewer : left c' + min m 1 ≤ left c

  record Moved (c c' : Cache) : Type 0 where
    nodes : c'.lru ≡ c.lru
    bulk : c'.bulk_move ≡ c.bulk_move
    expanding : c'.expanding ≡ c.expanding
    bucket : c'.expand.bucket ≡ c.expand.bucket + 1
    sz : c'.tbl.sz ≡ c.tbl.sz

  move_bucket-Moved : (c : Cache) → Moved c (move_bucket fnv c)
  unfolding move_bucket
  move_bucket-Moved c = record {
    nodes = refl;
    bulk = refl;
    expanding = refl;
    bucket = refl;
    sz = refl;
  }

  -- A further bucket moved before the rest of the hold.
  Rounded-suc :
      (m : ℕ) (c d c' : Cache)
      → c.expanding ≡ true
      → c.expand.bucket < c.tbl.sz
      → Moved c d
      → Rounded m d c'
      → Rounded (suc m) c c'
  Rounded-suc m c d c' y lt v r = record {
    wf = r.wf;
    nodes = r.nodes ∙ v.nodes;
    bulk = r.bulk ∙ v.bulk;
    fewer = ground (arith, r.fewer, v.expanding, v.bucket, v.sz);
  }

  pub move_bulk_lem :
      (m : ℕ) (c : Cache)
      → c.expanding ≡ true
      → IsWf fnv n c
      → (c' : Cache) × (move_bulk fnv m c ≡ some c') × Rounded m c c'
  unfolding move_bulk
  move_bulk_lem zero c y w =
      (c, refl, record { wf = w; nodes = refl; bulk = refl; fewer = omega arith })
  move_bulk_lem (suc m) c y w =
      let v = move_bucket-Moved c in
      elim (Bool-cases ((move_bucket fnv c).expand.bucket == (move_bucket fnv c).tbl.sz)) [
        | inl e ↦
            let k : c.tbl.sz ≤ c.expand.bucket + 1 =
              omega (arith, (==_iff _ _).0 e, v.bucket, v.sz) in
            rw (e, move_bulk)
              (
                grown fnv n c,
                finish-grown fnv n c y k w,
                record {
                  wf = grown-IsWf fnv n c y k w;
                  nodes = v.nodes;
                  bulk = v.bulk;
                  fewer = left-pos m c y (w.moving y);
                },
              )
        | inr e ↦
            let k : c.expand.bucket + 1 < c.tbl.sz =
              omega (arith, ==→ne _ _ e, v.bucket, v.sz, w.moving y) in
            let (c', q, r) =
              move_bulk_lem m (move_bucket fnv c) (v.expanding ∙ y)
                (move_bucket-IsWf fnv n c y k w) in
            rw (e, move_bulk) (c', q, Rounded-suc m c _ c' y (w.moving y) v r)
      ]

  -- The thread finds no assertion failing, and gets on while it has buckets to move.
  pub maintenance_round-Rounded :
      (c : Cache)
      → c.expanding ≡ true
      → IsWf fnv n c
      → (c' : Cache) × (maintenance_round fnv c ≡ some c') × Rounded c.bulk_move c c'
  unfolding maintenance_round
  maintenance_round-Rounded c y w = move_bulk_lem c.bulk_move c y w

  -- Until a bucket has been moved, the expansion can be given up.
  pub cancel-IsWf :
      (c : Cache)
      → c.expanding ≡ true
      → c.expand.bucket ≡ 0
      → IsWf fnv n c
      → (c' : Cache) × (cancel c ≡ some c')
        × IsWf fnv n c'
        × (c'.lru ≡ c.lru)
        × (c'.expanding ≡ false)
        × (c'.bulk_move ≡ c.bulk_move)
  unfolding cancel free_expand_info
  cancel-IsWf c y z w = (
    record c { expanding = false; expand = no_expand },
    rw (
      all_empty_lem c.expand.tables.sz c.expand.tables.names λ x i lt.
          new_empty (name_hash fnv) c.tbl.mask c.tbl.names c.lru c.expand.tables.mask i
            c.expand.tables.names x names,
      all_empty_lem c.expand.tables.sz c.expand.tables.denos λ x i lt.
          new_empty (deno_hash fnv) c.tbl.mask c.tbl.denos c.lru c.expand.tables.mask i
            c.expand.tables.denos x denos,
    ),
    record {
      names = Placed-cancel (name_hash fnv) c.tbl.mask c.tbl.names c.lru _ _ _ _ _ names;
      denos = Placed-cancel (deno_hash fnv) c.tbl.mask c.tbl.denos c.lru _ _ _ _ _ denos;
      distinct = w.distinct;
      keys = w.keys;
      counted = w.counted;
      bounded = w.bounded;
      masked = w.masked;
      masked' = λ t. absurd (ground arith);
      moving = λ t. absurd (ground arith);
    },
    refl,
    refl,
    refl,
  )
    where
      names :
          Placed
            (name_hash fnv)
            true
            0
            c.tbl.mask
            c.expand.tables.mask
            c.tbl.names
            c.expand.tables.names
            c.lru
      names = rw z at (
          Placed-moving (name_hash fnv) c.tbl.mask c.tbl.names c.lru _ _ c.expand.bucket
            c.expand.tables.mask c.expand.tables.names y w.names)

      denos :
          Placed
            (deno_hash fnv)
            true
            0
            c.tbl.mask
            c.expand.tables.mask
            c.tbl.denos
            c.expand.tables.denos
            c.lru
      denos = rw z at (
          Placed-moving (deno_hash fnv) c.tbl.mask c.tbl.denos c.lru _ _ c.expand.bucket
            c.expand.tables.mask c.expand.tables.denos y w.denos)
