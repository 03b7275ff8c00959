-- ===== src/Namecache/Expanded.antt =====
-- The growth of the tables keeps the cache well formed and its nodes as they are.
use polarfs.Namecache.{NameEntry, Cache, get_nc_max, search_depth}
use polarfs.Namecache.Calls.{
  name_hash, deno_hash, double_upto, hash_init, should_rehash, rehash, hash_alloc,
}
use polarfs.Namecache.Grow.{move_bucket, finish, no_expand}
use polarfs.Namecache.Placed.{Placed, slot}
use polarfs.Namecache.Spread.{
  Placed-moving, Placed-start, Placed-move, Placed-finish, old_empty, all_empty_lem,
}
use polarfs.Namecache.Wf.{IsWf}
use polarfs.Prelude.Bits.{bit_and-le}
use polarfs.Prelude.{
  sym, ℕ, zero, suc, ◌+◌, ◌-◌, ◌*◌, ◌/◌, ◌≤◌, ◌<◌, Bool, true, false, ◌&&◌, List, ◌≡◌, inl, inr,
  arith, some, Bool-cases,
}

double_upto-pos : (fuel n s : ℕ) → 0 < s → 0 < double_upto fuel n s
unfolding double_upto
double_upto-pos zero n s h = h
double_upto-pos (suc fuel) n s h = ground (arith, double_upto-pos fuel n (s * 2))

double_upto-ge : (fuel n s : ℕ) → 0 < s → n ≤ s + fuel → n ≤ double_upto fuel n s
unfolding double_upto
double_upto-ge zero n s h k = omega arith
double_upto-ge (suc fuel) n s h k = ground (arith, double_upto-ge fuel n (s * 2))

pub hash_init-pos : (n : ℕ) → 0 < hash_init n
unfolding hash_init
hash_init-pos n = double_upto-pos n n 1 (omega arith)

pub hash_init-ge : (n : ℕ) → n ≤ hash_init n
unfolding hash_init
hash_init-ge n = double_upto-ge n n 1 (omega arith) (omega arith)

module _ (fnv : List ℕ → ℕ → ℕ) (n : ℕ) where
  module _ (c : Cache) where
    rehash_started :
        (e : ℕ)
        → 0 < e
        → c.expanding ≡ false
        → IsWf fnv n c
        → IsWf fnv n
            (record c { expanding = true; expand = record { bucket = 0; tables = hash_alloc e } })
    rehash_started e pos still w = record {
      names =
          Placed-start (name_hash fnv) c.tbl.mask c.tbl.names c.lru c.expand.bucket
            c.expand.tables.mask (e - 1) c.expand.tables.names
            (Placed-moving (name_hash fnv) c.tbl.mask c.tbl.names c.lru _ _ c.expand.bucket
              c.expand.tables.mask c.expand.tables.names still w.names);
      denos =
          Placed-start (deno_hash fnv) c.tbl.mask c.tbl.denos c.lru c.expand.bucket
            c.expand.tables.mask (e - 1) c.expand.tables.denos
            (Placed-moving (deno_hash fnv) c.tbl.mask c.tbl.denos c.lru _ _ c.expand.bucket
              c.expand.tables.mask c.expand.tables.denos still w.denos);
      distinct = w.distinct;
      keys = w.keys;
      counted = w.counted;
      bounded = w.bounded;
      masked = w.masked;
      masked' = λ t. omega arith;
      moving = λ t. omega (arith, w.masked);
    }

    pub rehash-IsWf : (memory : Bool) → IsWf fnv n c → IsWf fnv n (rehash memory c)
    unfolding rehash
    rehash-IsWf memory w = elim (Bool-cases (should_rehash c && memory)) [
      | inr y ↦ rw y w
      | inl y ↦ rw y (
          rehash_started _ (hash_init-pos ((get_nc_max c + search_depth - 1) / search_depth))
            (still y) w)
    ]
      where
        still : should_rehash c && memory ≡ true → c.expanding ≡ false
        still y = unfold should_rehash in ground arith

    pub lru-rehash : (memory : Bool) → (rehash memory c).lru ≡ c.lru
    unfolding rehash
    lru-rehash memory = ground arith

    slot-lt : (h : NameEntry → ℕ) → IsWf fnv n c → (x : NameEntry) → slot h c.tbl.mask x < c.tbl.sz
    slot-lt h w x = omega (arith, bit_and-le (h x) c.tbl.mask, w.masked)

    moved_names :
        c.expanding ≡ true
        → IsWf fnv n c
        → Placed
            (name_hash fnv)
            true
            (c.expand.bucket + 1)
            c.tbl.mask
            c.expand.tables.mask
            (move_bucket fnv c).tbl.names
            (move_bucket fnv c).expand.tables.names
            c.lru
    unfolding move_bucket
    moved_names y w =
        Placed-move (name_hash fnv) c.tbl.mask c.tbl.names c.lru c.expand.bucket
          c.expand.tables.mask c.expand.tables.names w.distinct
          (Placed-moving (name_hash fnv) c.tbl.mask c.tbl.names c.lru _ _ c.expand.bucket
            c.expand.tables.mask c.expand.tables.names y w.names)

    moved_denos :
        c.expanding ≡ true
        → IsWf fnv n c
        → Placed
            (deno_hash fnv)
            true
            (c.expand.bucket + 1)
            c.tbl.mask
            c.expand.tables.mask
            (move_bucket fnv c).tbl.denos
            (move_bucket fnv c).expand.tables.denos
            c.lru
    unfolding move_bucket
    moved_denos y w =
        Placed-move (deno_hash fnv) c.tbl.mask c.tbl.denos c.lru c.expand.bucket
          c.expand.tables.mask c.expand.tables.denos w.distinct
          (Placed-moving (deno_hash fnv) c.tbl.mask c.tbl.denos c.lru _ _ c.expand.bucket
            c.expand.tables.mask c.expand.tables.denos y w.denos)

    pub move_bucket-IsWf :
        c.expanding ≡ true
        → c.expand.bucket + 1 < c.tbl.sz
        → IsWf fnv n c
        → IsWf fnv n (move_bucket fnv c)
    unfolding move_bucket
    move_bucket-IsWf y lt w = record {
      names =
          Placed-moving (name_hash fnv) c.tbl.mask _ c.lru _ _ (c.expand.bucket + 1)
            c.expand.tables.mask _ (sym y) (moved_names y w);
      denos =
          Placed-moving (deno_hash fnv) c.tbl.mask _ c.lru _ _ (c.expand.bucket + 1)
            c.expand.tables.mask _ (sym y) (moved_denos y w);
      distinct = w.distinct;
      keys = w.keys;
      counted = w.counted;
      bounded = w.bounded;
      masked = w.masked;
      masked' = w.masked';
      moving = λ t. lt;
    }

    -- The tables after the last bucket has been moved, and their assertions.
    abbrev pub grown : Cache
    grown = record (move_bucket fnv c) {
      tbl = (move_bucket fnv c).expand.tables;
      expanding = false;
      expand = no_expand;
    }

    pub finish-grown :
        c.expanding ≡ true
        → c.tbl.sz ≤ c.expand.bucket + 1
        → IsWf fnv n c
        → finish (move_bucket fnv c) ≡ some grown
    unfolding finish
    finish-grown y all w = rw (
      all_empty_lem (move_bucket fnv c).tbl.sz (move_bucket fnv c).tbl.names λ x i lt.
          old_empty (name_hash fnv) c.tbl.mask (move_bucket fnv c).tbl.names c.lru
            (c.expand.bucket + 1) c.expand.tables.mask i (move_bucket fnv c).expand.tables.names x
            (below lt) (moved_names y w),
      all_empty_lem (move_bucket fnv c).tbl.sz (move_bucket fnv c).tbl.denos λ x i lt.
          old_empty (deno_hash fnv) c.tbl.mask (move_bucket fnv c).tbl.denos c.lru
            (c.expand.bucket + 1) c.expand.tables.mask i (move_bucket fnv c).expand.tables.denos x
            (below lt) (moved_denos y w),
    )
      where
        below : {i : ℕ} → i < (move_bucket fnv c).tbl.sz → i < c.expand.bucket + 1
        below lt = unfold move_bucket in omega arith

    pub grown-IsWf :
        c.expanding ≡ true → c.tbl.sz ≤ c.expand.bucket + 1 → IsWf fnv n c → IsWf fnv n grown
    unfolding move_bucket
    grown-IsWf y all w = record {
      names =
          Placed-finish (name_hash fnv) c.tbl.mask _ c.lru c.tbl.sz (c.expand.bucket + 1) _
            c.expand.tables.mask _ _ _ (slot-lt (name_hash fnv) w) all (moved_names y w);
      denos =
          Placed-finish (deno_hash fnv) c.tbl.mask _ c.lru c.tbl.sz (c.expand.bucket + 1) _
            c.expand.tables.mask _ _ _ (slot-lt (deno_hash fnv) w) all (moved_denos y w);
      distinct = w.distinct;
      keys = w.keys;
      counted = w.counted;
      bounded = w.bounded;
      masked = w.masked' y;
      masked' = λ t. absurd (ground arith);
      moving = λ t. absurd (ground arith);
    }
