-- ===== src/Namecache/Calls.antt =====
-- The operations of pfs_namecache.cc, each of which runs under nch_lock; what they free is returned.
use polarfs.Namecache.{
  NameEntry, Buckets, Tables, Cache, search_depth, inc, get_nc_max, calc_hash, calc_deno_hash,
  is_key, find, chain_steps, head, name_chain, deno_chain, link, remove_entry, should_promote,
  promote_entry, set_promoted,
}
use polarfs.Prelude.{
  ℕ, zero, suc, ◌+◌, ◌-◌, ◌*◌, ◌/◌, ◌%◌, ◌^◌, Bool, true, false, not, ◌&&◌, ◌||◌, Option, none,
  some, List, [], ◌∷◌, length, ltb, leb, ◌==◌, if◌then◌else◌,
}

-- for (hashsize = 1; hashsize < elements; hashsize <<= 1)
unfoldable pub double_upto : ℕ → ℕ → ℕ → ℕ
double_upto zero elements hashsize = hashsize
double_upto (suc fuel) elements hashsize =
    let rest = double_upto fuel elements (hashsize * 2) in
    if ltb hashsize elements then rest else hashsize

unfoldable pub hash_init : ℕ → ℕ
unfolding double_upto
hash_init elements = double_upto elements elements 1

abbrev pub empty_buckets : Buckets
empty_buckets i = []

abbrev pub hash_alloc : ℕ → Tables
hash_alloc hsize = record {
  names = empty_buckets;
  denos = empty_buckets;
  sz = hsize;
  mask = hsize - 1;
}

unfoldable pub should_rehash : Cache → Bool
unfolding get_nc_max
should_rehash c = ltb (c.tbl.sz * search_depth) (get_nc_max c) && not c.expanding

-- rehash_namecache up to the start of the thread; `memory` tells if expand_info is allocated, and
-- its tables are then allocated too.
unfoldable pub rehash : Bool → Cache → Cache
rehash memory c =
    if should_rehash c && memory
    then record c {
      expanding = true;
      expand = record {
        bucket = 0;
        tables = hash_alloc (hash_init ((get_nc_max c + search_depth - 1) / search_depth));
      };
    }
    else c

-- TAILQ_LAST
unfoldable pub last : List NameEntry → Option NameEntry
last [] = none
last (e ∷ []) = some e
last (e ∷ f ∷ l) = last (f ∷ l)

unfoldable pub evict_one : Cache → NameEntry → Cache
unfolding remove_entry
evict_one c e =
    let r = remove_entry c e in
    record r { stats = record r.stats { numevicts = inc r.stats.numevicts } }

-- The removed nodes go to the head of `todel`.
unfoldable pub evict_entries : ℕ → Cache → List NameEntry → Cache × List NameEntry
evict_entries zero c todel = (c, todel)
evict_entries (suc fuel) c todel = elim (ltb (get_nc_max c) c.numcache) [
  | false ↦ (c, todel)
  | true ↦ elim (last c.lru) [
    | none ↦ (c, todel)
    | some e ↦ evict_entries fuel (evict_one c e) (e ∷ todel)
  ]
]

-- What the surroundings give a call: malloc's answer, the clock, and if rehash finds memory.
pub record Env : Type 0 where
  pub addr : Option ℕ
  pub now : ℕ
  pub memory : Bool

-- The empty name, "." and ".." are not cached.
unfoldable pub is_skipped : List ℕ → Bool
is_skipped [] = true
is_skipped (c ∷ []) = c == b'.'
is_skipped (c ∷ d ∷ []) = c == b'.' && d == b'.'
is_skipped (c ∷ d ∷ e ∷ l) = false

abbrev pub is_deno : ℕ → ℕ → NameEntry → Bool
is_deno mnt deno e = e.mnt == mnt && e.deno == deno

abbrev pub is_dot : List ℕ → Bool
is_dot [] = false
is_dot (c ∷ []) = c == b'.'
is_dot (c ∷ d ∷ l) = false

unfoldable pub enter_known : Cache → Env → NameEntry → Cache
enter_known c env f =
    rehash env.memory (if should_promote c env.now f then promote_entry c f env.now else c)

module _ (fnv : List ℕ → ℕ → ℕ) where
  abbrev pub name_hash : NameEntry → ℕ
  name_hash e = calc_hash fnv e.mnt e.parent_ino e.name

  abbrev pub deno_hash : NameEntry → ℕ
  deno_hash e = calc_deno_hash fnv e.mnt e.deno

  -- The new node goes to the head of its two chains and of `lru`.
  unfoldable pub insert : Cache → NameEntry → ℕ → Cache
  unfolding link head set_promoted
  insert c e now =
      let r = link c (head c (name_hash e)) (head c (deno_hash e)) e in
      record r { lru = e ∷ r.lru; promoted = set_promoted r.promoted e.addr now }

  unfoldable pub enter_new : Cache → Env → NameEntry → Cache × List NameEntry
  enter_new c env e =
      let r = insert c e env.now in
      let (r', todel) = evict_entries (length r.lru) r [] in (rehash env.memory r', todel)

  -- pfs_namecache_enter behind the allocation. `none` is the failed PFS_ASSERT.
  unfoldable pub enter_entry : Cache → Env → NameEntry → Option (Cache × List NameEntry)
  enter_entry c env e =
      let chain = name_chain c (name_hash e) in
      let p = is_key e.mnt e.parent_ino e.name in
      elim (find p chain) [
        | some f ↦
            if not (e.ino == f.ino) || not (e.deno == f.deno)
            then none
            else some (enter_known c env f, e ∷ [])
        | none ↦
            let s = record c.stats { numrejects = inc c.stats.numrejects } in
            if leb c.max_bucket_len (chain_steps p chain)
            then some (rehash env.memory (record c { stats = s }), e ∷ [])
            else some (enter_new c env e)
      ]

  -- The call by what malloc gave.
  unfoldable pub enter_at :
      Option ℕ → Cache → Env → ℕ → ℕ → ℕ → List ℕ → ℕ → Option (Cache × List NameEntry)
  enter_at none c env mnt parent_ino child_ino name deno = some (c, [])
  enter_at (some a) c env mnt parent_ino child_ino name deno = enter_entry c env (record {
    addr = a;
    mnt = mnt;
    parent_ino = parent_ino;
    ino = child_ino;
    deno = deno;
    name = name;
  })

  unfoldable pub enter : Cache → Env → ℕ → ℕ → ℕ → List ℕ → ℕ → Option (Cache × List NameEntry)
  enter c env mnt parent_ino child_ino name deno =
      if not c.enable || is_skipped name
      then some (c, [])
      else enter_at env.addr c env mnt parent_ino child_ino name deno

  unfoldable pub delete_by_deno : Cache → ℕ → ℕ → Cache × List NameEntry
  delete_by_deno c mnt deno =
      elim (find (is_deno mnt deno) (deno_chain c (calc_deno_hash fnv mnt deno))) [
        | none ↦ (c, [])
        | some e ↦
            let r = remove_entry c e in
            let s = record r.stats { numdelbydeno = inc r.stats.numdelbydeno } in
            (record r { stats = s }, e ∷ [])
      ]

  -- pfs_namecache_lookup from the computation of the hash on; `none` is -ENOENT.
  unfoldable pub lookup_hashed : Cache → ℕ → ℕ → ℕ → List ℕ → Cache × Option ℕ
  lookup_hashed c now mnt parent_ino name =
      let p = is_key mnt parent_ino name in
      let chain = name_chain c (calc_hash fnv mnt parent_ino name) in
      let checks = (c.stats.numchecks + chain_steps p chain) % 2 ^ 64 in
      let miss = record c.stats { numchecks = checks; nummiss = inc c.stats.nummiss } in
      let hit = record c.stats { numchecks = checks; numhits = inc c.stats.numhits } in
      elim (find p chain) [
        | none ↦ (record c { stats = miss }, none)
        | some e ↦
            let r = if should_promote c now e then promote_entry c e now else c in
            (record r { stats = hit }, some e.ino)
      ]

  unfoldable pub lookup : Cache → ℕ → ℕ → ℕ → List ℕ → Cache × Option ℕ
  lookup c now mnt parent_ino name =
      if not c.enable
      then (c, none)
      else if is_dot name
      then (c, some parent_ino)
      else lookup_hashed c now mnt parent_ino name

-- The inner loop of pfs_namecache_clear_mount, over one chain.
unfoldable pub clear_chain : ℕ → List NameEntry → Cache → List NameEntry → Cache × List NameEntry
clear_chain mnt [] c todel = (c, todel)
clear_chain mnt (e ∷ l) c todel =
    clear_chain mnt l (if e.mnt == mnt then remove_entry c e else c)
      (if e.mnt == mnt then e ∷ todel else todel)

unfoldable pub clear_loop : ℕ → ℕ → ℕ → Cache → List NameEntry → Cache × List NameEntry
clear_loop zero mnt i c todel = (c, todel)
clear_loop (suc n) mnt i c todel =
    let (c', todel') = clear_chain mnt (c.tbl.names i) c todel in clear_loop n mnt (suc i) c' todel'

-- pfs_namecache_clear_mount once it has waited for the end of an expansion
unfoldable pub clear_mount : Cache → ℕ → Cache × List NameEntry
clear_mount c mnt = clear_loop c.tbl.sz mnt 0 c []
