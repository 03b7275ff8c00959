-- ===== src/Namecache/Wf.antt =====
-- What holds of the name cache between two calls, and through the linking and unlinking of a node.
use polarfs.Namecache.{NameEntry, Cache, Stats, unlink, remove_entry, promote_entry, is_first}
use polarfs.Namecache.Calls.{name_hash, deno_hash, insert}
use polarfs.Namecache.Members.{
  same_addr, In, Distinct, In-unlink, unlink-In, unlink-Distinct, length-unlink,
}
use polarfs.Namecache.Placed.{Placed, Placed-push, Placed-same, Placed-unlink}
use native.Mathlib.Decide.{ℕ_discrete}
use polarfs.Prelude.{
  ◌↔◌, ℕ, suc, ◌≤◌, ◌<◌, ◌^◌, true, List, ◌∷◌, ◌≡◌, ◌≢◌, inl, inr, length, arith, Bool-cases, sym,
  ◌∙◌,
}

-- Two nodes for one name in one directory.
abbrev pub SameKey : NameEntry → NameEntry → Type 0
SameKey x y = (x.mnt ≡ y.mnt) × (x.parent_ino ≡ y.parent_ino) × (x.name ≡ y.name)

SameKey-symm : (x y : NameEntry) → SameKey x y → SameKey y x
SameKey-symm x y k = (sym k.0, sym k.1, sym k.2)

module _ (fnv : List ℕ → ℕ → ℕ) where
  abbrev pub NamesPlaced : Cache → Type 0
  NamesPlaced c =
      Placed (name_hash fnv) c.expanding c.expand.bucket c.tbl.mask c.expand.tables.mask c.tbl.names
        c.expand.tables.names c.lru

  abbrev pub DenosPlaced : Cache → Type 0
  DenosPlaced c =
      Placed (deno_hash fnv) c.expanding c.expand.bucket c.tbl.mask c.expand.tables.mask c.tbl.denos
        c.expand.tables.denos c.lru

  pub record IsWf (n : ℕ) (c : Cache) : Type 0 where
    pub names : NamesPlaced c
    pub denos : DenosPlaced c
    pub distinct : Distinct c.lru
    pub keys : (x y : NameEntry) → In x c.lru → In y c.lru → SameKey x y → x ≡ y
    pub counted : c.numcache ≡ length c.lru
    pub bounded : length c.lru ≤ n
    pub masked : c.tbl.sz ≡ suc c.tbl.mask
    pub masked' : c.expanding ≡ true → c.expand.tables.sz ≡ suc c.expand.tables.mask
    pub moving : c.expanding ≡ true → c.expand.bucket < c.tbl.sz

  -- The counters do not matter.
  pub stats-IsWf : (n : ℕ) (c : Cache) (s : Stats) → IsWf n c → IsWf n (record c { stats = s })
  stats-IsWf n c s w = record {
    names = w.names;
    denos = w.denos;
    distinct = w.distinct;
    keys = w.keys;
    counted = w.counted;
    bounded = w.bounded;
    masked = w.masked;
    masked' = w.masked';
    moving = w.moving;
  }

  module _ (n : ℕ) (c : Cache) where
    pub remove_entry-IsWf :
        (e : NameEntry) → n < 2 ^ 64 → In e c.lru → IsWf n c → IsWf n (remove_entry c e)
    unfolding remove_entry
    remove_entry-IsWf e lt m w = record {
      names =
          Placed-unlink (name_hash fnv) c.expanding c.expand.bucket c.tbl.mask c.expand.tables.mask
            c.tbl.names c.expand.tables.names c.lru e.addr w.names;
      denos =
          Placed-unlink (deno_hash fnv) c.expanding c.expand.bucket c.tbl.mask c.expand.tables.mask
            c.tbl.denos c.expand.tables.denos c.lru e.addr w.denos;
      distinct = unlink-Distinct e.addr c.lru w.distinct;
      keys =
          λ x y mx my. w.keys x y (In-unlink x e.addr c.lru mx).0 (In-unlink y e.addr c.lru my).0;
      counted = omega (arith, w.counted, w.bounded, length-unlink e c.lru w.distinct m);
      bounded = omega (arith, w.bounded, length-unlink e c.lru w.distinct m);
      masked = w.masked;
      masked' = w.masked';
      moving = w.moving;
    }

    -- A node at a new address, for a name that is not there.
    pub insert-IsWf :
        (e : NameEntry) (now : ℕ)
        → suc n < 2 ^ 64
        → ((x : NameEntry) → In x c.lru → x.addr ≢ e.addr)
        → ((x : NameEntry) → In x c.lru → ¬ SameKey x e)
        → IsWf n c
        → IsWf (suc n) (insert fnv c e now)
    unfolding insert
    insert-IsWf e now lt fresh unknown w = record {
      names =
          Placed-push (name_hash fnv) c.expanding c.expand.bucket c.tbl.mask c.expand.tables.mask
            c.tbl.names c.expand.tables.names c.lru e fresh w.names;
      denos =
          Placed-push (deno_hash fnv) c.expanding c.expand.bucket c.tbl.mask c.expand.tables.mask
            c.tbl.denos c.expand.tables.denos c.lru e fresh w.denos;
      distinct = (fresh, w.distinct);
      keys = λ x y mx my k. elim mx [
        | inl p ↦ elim my [
          | inl q ↦ p ∙ sym q
          | inr my' ↦ absurd (unknown y my' (rw p at (SameKey-symm x y k)))
        ]
        | inr mx' ↦ elim my [
          | inl q ↦ absurd (unknown x mx' (rw q at k))
          | inr my' ↦ w.keys x y mx' my' k
        ]
      ];
      counted = omega (arith, w.counted, w.bounded);
      bounded = omega (arith, w.bounded);
      masked = w.masked;
      masked' = w.masked';
      moving = w.moving;
    }

    promoted_In : (e x : NameEntry) → In e c.lru → In x (e ∷ unlink e.addr c.lru) → In x c.lru
    promoted_In e x m (inl q) = rw q m
    promoted_In e x m (inr r) = (In-unlink x e.addr c.lru r).0

    In-promoted :
        (e x : NameEntry)
        → Distinct c.lru
        → In e c.lru
        → In x c.lru
        → In x (e ∷ unlink e.addr c.lru)
    In-promoted e x d m k = elim (ℕ_discrete x.addr e.addr) [
      | yes p ↦ inl (same_addr x e c.lru d k m p)
      | no p ↦ inr (unlink-In x e.addr c.lru k p)
    ]

    pub promote_entry-IsWf :
        (e : NameEntry) (now : ℕ) → In e c.lru → IsWf n c → IsWf n (promote_entry c e now)
    unfolding promote_entry
    promote_entry-IsWf e now m w = elim (Bool-cases (is_first e c.lru)) [
      | inl y ↦ rw y w
      | inr z ↦ rw z (record {
        names =
            Placed-same (name_hash fnv) c.expanding c.expand.bucket c.tbl.mask c.expand.tables.mask
              c.tbl.names c.expand.tables.names c.lru (e ∷ unlink e.addr c.lru)
              (λ x k. In-promoted e x w.distinct m k) (λ x k. promoted_In e x m k) w.names;
        denos =
            Placed-same (deno_hash fnv) c.expanding c.expand.bucket c.tbl.mask c.expand.tables.mask
              c.tbl.denos c.expand.tables.denos c.lru (e ∷ unlink e.addr c.lru)
              (λ x k. In-promoted e x w.distinct m k) (λ x k. promoted_In e x m k) w.denos;
        distinct = (λ x k. (In-unlink x e.addr c.lru k).1, unlink-Distinct e.addr c.lru w.distinct);
        keys = λ x y mx my. w.keys x y (promoted_In e x m mx) (promoted_In e y m my);
        counted = omega (arith, w.counted, length-unlink e c.lru w.distinct m);
        bounded = omega (arith, w.bounded, length-unlink e c.lru w.distinct m);
        masked = w.masked;
        masked' = w.masked';
        moving = w.moving;
      })
    ]

    -- A promotion keeps the nodes.
    pub promote_entry-same :
        (e x : NameEntry) (now : ℕ)
        → In e c.lru
        → IsWf n c
        → In x (promote_entry c e now).lru ↔ In x c.lru
    unfolding promote_entry
    promote_entry-same e x now m w = elim (Bool-cases (is_first e c.lru)) [
      | inl y ↦ rw y (λ k. k, λ k. k)
      | inr z ↦ rw z (λ k. promoted_In e x m k, λ k. In-promoted e x w.distinct m k)
    ]
