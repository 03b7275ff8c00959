-- ===== src/Namecache/Grow.antt =====
-- The expansion of the tables (maintenance_thread of pfs_core/pfs_namecache.cc).
use polarfs.Namecache.{NameEntry, Buckets, Expand, Cache, push}
use polarfs.Namecache.Calls.{name_hash, deno_hash, hash_alloc}
use Prim.Native.Nat.{bit_and}
use polarfs.Prelude.{
  ℕ, zero, suc, ◌+◌, Bool, true, false, ◌&&◌, Option, none, some, List, [], ◌∷◌, ◌==◌,
  if◌then◌else◌,
}

-- One chain is taken off node by node, and each goes to the head of its new chain.
unfoldable pub move_chain : (NameEntry → ℕ) → ℕ → List NameEntry → Buckets → Buckets
unfolding push
move_chain h mask [] b = b
move_chain h mask (e ∷ l) b = move_chain h mask l (push (bit_and (h e) mask) e b)

unfoldable pub drained : ℕ → Buckets → Buckets
drained i b = λ j. if i == j then [] else b j

abbrev pub is_empty : List NameEntry → Bool
is_empty [] = true
is_empty (e ∷ l) = false

-- The assertions of free_expand_info on the chains below `n`.
unfoldable pub all_empty : ℕ → Buckets → Bool
all_empty zero b = true
all_empty (suc n) b = is_empty (b n) && all_empty n b

abbrev pub no_expand : Expand
no_expand = record { bucket = 0; tables = hash_alloc 0 }

-- free_expand_info, on tables that may be in use only by mistake; `none` is a failed PFS_ASSERT.
unfoldable pub free_expand_info : Cache → Option Cache
unfolding all_empty
free_expand_info c =
    let x = c.expand.tables in
    if all_empty x.sz x.names && all_empty x.sz x.denos
    then some (record c { expanding = false; expand = no_expand })
    else none

-- The tables are swapped, and the old ones freed.
unfoldable pub finish : Cache → Option Cache
unfolding free_expand_info
finish c =
    free_expand_info
      (record c { tbl = c.expand.tables; expand = record c.expand { tables = c.tbl } })

-- rehash_namecache when its thread cannot be started
unfoldable pub cancel : Cache → Option Cache
unfolding free_expand_info
cancel c = free_expand_info c

module _ (fnv : List ℕ → ℕ → ℕ) where
  unfoldable pub move_bucket : Cache → Cache
  unfolding move_chain drained
  move_bucket c =
      let i = c.expand.bucket in
      let x = c.expand.tables in
      record c {
        tbl = record c.tbl { names = drained i c.tbl.names; denos = drained i c.tbl.denos };
        expand = record {
          bucket = i + 1;
          tables = record x {
            names = move_chain (name_hash fnv) x.mask (c.tbl.names i) x.names;
            denos = move_chain (deno_hash fnv) x.mask (c.tbl.denos i) x.denos;
          };
        };
      }

  -- The `for` loop under one hold of the lock, until `done`.
  unfoldable pub move_bulk : ℕ → Cache → Option Cache
  unfolding move_bucket finish
  move_bulk zero c = some c
  move_bulk (suc n) c =
      let c' = move_bucket c in
      elim (c'.expand.bucket == c'.tbl.sz) [ true ↦ finish c' | false ↦ move_bulk n c' ]

  unfoldable pub maintenance_round : Cache → Option Cache
  unfolding move_bulk
  maintenance_round c = move_bulk c.bulk_move c
