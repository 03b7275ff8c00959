-- ===== src/Namecache.antt =====
-- The cache of directory entries (pfs_core/pfs_namecache.cc): chained hash tables by name and by
-- entry number, which grow one bucket at a time, and a list of the nodes by their last use. A
-- node's pointer is its `addr`; all nodes are in `lru`. `fnv` is fnv_32_buf of lib/fnv_hash.h.
pub mod Members
pub mod Calls
pub mod Grow
pub mod Placed
pub mod Spread
pub mod Wf
pub mod Search
pub mod Frame
pub mod Evicted
pub mod Expanded
pub mod Rounds
pub mod Entered
pub mod Answers
pub mod Named
pub mod Enter
pub mod Deleted
pub mod Cleared
pub mod Steps
pub mod Growth
mod Tests
use Prim.Native.Nat.{bit_and}
use polarfs.Prelude.{
  ℕ, zero, suc, ◌+◌, ◌-◌, ◌*◌, ◌/◌, ◌%◌, ◌^◌, Bool, true, false, not, ◌&&◌, ◌||◌, Option, none,
  some, List, [], ◌∷◌, length, ltb, leb, ◌==◌, if◌then◌else◌,
}

pub record NameEntry : Type 0 where
  pub addr : ℕ
  pub mnt : ℕ
  pub parent_ino : ℕ
  pub ino : ℕ
  pub deno : ℕ
  pub name : List ℕ

abbrev pub Buckets : Type 0
Buckets = ℕ → List NameEntry

-- nchashtbl, denohashtbl, nchash_sz, nchash_mask
pub record Tables : Type 0 where
  pub names : Buckets
  pub denos : Buckets
  pub sz : ℕ
  pub mask : ℕ

-- struct expand_info_ctl
pub record Expand : Type 0 where
  pub bucket : ℕ
  pub tables : Tables

-- The counters.
pub record Stats : Type 0 where
  pub nummiss : ℕ
  pub numchecks : ℕ
  pub numhits : ℕ
  pub numdelbydeno : ℕ
  pub numevicts : ℕ
  pub numrejects : ℕ

-- `expand` is what expand_info points to, and is read only while `expanding`.
pub record Cache : Type 0 where
  pub enable : Bool
  pub nc_max : ℕ
  pub lru_window : ℕ
  pub max_bucket_len : ℕ
  pub bulk_move : ℕ
  pub tbl : Tables
  pub expanding : Bool
  pub expand : Expand
  pub lru : List NameEntry
  pub promoted : ℕ → ℕ
  pub numcache : ℕ
  pub stats : Stats

abbrev pub search_depth : ℕ
search_depth = 4

abbrev pub nc_hard_limit : ℕ
nc_hard_limit = 131072

-- ++ and -- of a u_long
abbrev pub inc : ℕ → ℕ
inc n = (n + 1) % 2 ^ 64

abbrev pub dec : ℕ → ℕ
dec n = (n + 2 ^ 64 - 1) % 2 ^ 64

unfoldable pub get_nc_max : Cache → ℕ
get_nc_max c = if ltb c.nc_max nc_hard_limit then c.nc_max else nc_hard_limit

-- The bytes of an integer in memory, lowest first.
unfoldable pub int_bytes : ℕ → ℕ → List ℕ
int_bytes zero n = []
int_bytes (suc k) n = (n % 256) ∷ int_bytes k (n / 256)

module _ (fnv : List ℕ → ℕ → ℕ) where
  unfoldable pub calc_hash : ℕ → ℕ → List ℕ → ℕ
  unfolding int_bytes
  calc_hash mnt ino name = fnv (int_bytes 8 mnt) (fnv (int_bytes 8 ino) (fnv name 33554467))

  unfoldable pub calc_deno_hash : ℕ → ℕ → ℕ
  unfolding int_bytes
  calc_deno_hash mnt deno = fnv (int_bytes 8 mnt) (fnv (int_bytes 8 deno) 33554467)

-- memcmp(a, b, n) == 0
unfoldable pub memcmp_eq : ℕ → List ℕ → List ℕ → Bool
memcmp_eq zero a b = true
memcmp_eq (suc n) (x ∷ a) (y ∷ b) = x == y && memcmp_eq n a b
memcmp_eq (suc n) a b = false

unfoldable pub is_key : ℕ → ℕ → List ℕ → NameEntry → Bool
is_key mnt parent_ino name e =
    e.mnt == mnt
    && e.parent_ino == parent_ino
    && length e.name == length name
    && memcmp_eq (length name) e.name name

-- LIST_FOREACH up to the first node that passes the test, and how many nodes that looks at.
unfoldable pub find : (NameEntry → Bool) → List NameEntry → Option NameEntry
find p [] = none
find p (e ∷ l) = if p e then some e else find p l

unfoldable pub chain_steps : (NameEntry → Bool) → List NameEntry → ℕ
chain_steps p [] = 0
chain_steps p (e ∷ l) = if p e then 1 else chain_steps p l + 1

-- LIST_REMOVE and TAILQ_REMOVE: the node leaves the list that it stands in.
unfoldable pub unlink : ℕ → List NameEntry → List NameEntry
unlink a [] = []
unlink a (e ∷ l) = let rest = unlink a l in if e.addr == a then rest else e ∷ rest

unfoldable pub detach : ℕ → Buckets → Buckets
detach a b = λ i. unlink a (b i)

-- LIST_INSERT_HEAD
unfoldable pub push : ℕ → NameEntry → Buckets → Buckets
push i e b = λ j. if i == j then e ∷ b j else b j

-- A pointer to a bucket: one of the table, or one of the table that is being built.
pub data Head : Type 0 where
  old new : ℕ → Head

-- get_namehash_head and get_denohash_head, for a hash of either kind
unfoldable pub head : Cache → ℕ → Head
head c hash =
    let idx = bit_and hash c.tbl.mask in
    if not c.expanding || leb c.expand.bucket idx
    then old idx
    else new (bit_and hash c.expand.tables.mask)

unfoldable pub bucket_at : Head → Buckets → Buckets → List NameEntry
bucket_at (old i) b b' = b i
bucket_at (new j) b b' = b' j

unfoldable pub name_chain : Cache → ℕ → List NameEntry
unfolding head bucket_at
name_chain c hash = bucket_at (head c hash) c.tbl.names c.expand.tables.names

unfoldable pub deno_chain : Cache → ℕ → List NameEntry
unfolding head bucket_at
deno_chain c hash = bucket_at (head c hash) c.tbl.denos c.expand.tables.denos

unfoldable pub push_old : Head → NameEntry → Buckets → Buckets
unfolding push
push_old (old i) e b = push i e b
push_old (new j) e b = b

unfoldable pub push_new : Head → NameEntry → Buckets → Buckets
unfolding push
push_new (old i) e b = b
push_new (new j) e b = push j e b

-- LIST_INSERT_HEAD in the chains that `nhh` and `dhh` point to
unfoldable pub link : Cache → Head → Head → NameEntry → Cache
unfolding push_old push_new
link c nhh dhh e = record c {
  tbl = record c.tbl { names = push_old nhh e c.tbl.names; denos = push_old dhh e c.tbl.denos };
  expand = record c.expand {
    tables = record c.expand.tables {
      names = push_new nhh e c.expand.tables.names;
      denos = push_new dhh e c.expand.tables.denos;
    };
  };
  numcache = inc c.numcache;
}

unfoldable pub remove_entry : Cache → NameEntry → Cache
unfolding unlink detach
remove_entry c e = record c {
  lru = unlink e.addr c.lru;
  tbl = record c.tbl { names = detach e.addr c.tbl.names; denos = detach e.addr c.tbl.denos };
  expand = record c.expand {
    tables = record c.expand.tables {
      names = detach e.addr c.expand.tables.names;
      denos = detach e.addr c.expand.tables.denos;
    };
  };
  numcache = dec c.numcache;
}

-- The difference is cast to a signed number.
unfoldable pub should_promote : Cache → ℕ → NameEntry → Bool
should_promote c now e =
    let diff = (now + 2 ^ 64 - c.promoted e.addr) % 2 ^ 64 in
    leb (2 ^ 63) diff || leb c.lru_window diff

abbrev pub is_first : NameEntry → List NameEntry → Bool
is_first e [] = false
is_first e (f ∷ l) = f.addr == e.addr

unfoldable pub set_promoted : (ℕ → ℕ) → ℕ → ℕ → ℕ → ℕ
set_promoted t a now b = if a == b then now else t b

unfoldable pub promote_entry : Cache → NameEntry → ℕ → Cache
unfolding unlink set_promoted
promote_entry c e now =
    if is_first e c.lru
    then c
    else record c { lru = e ∷ unlink e.addr c.lru; promoted = set_promoted c.promoted e.addr now }
