-- ===== src/Namecache/Tests.antt =====
-- The name cache on small inputs, with the hash of lib/fnv_hash.h, and the theorems at them.
use polarfs.Namecache.{
  NameEntry, Cache, nc_hard_limit, get_nc_max, calc_hash, calc_deno_hash, memcmp_eq, is_key, find,
  chain_steps, unlink, detach, push, head, name_chain, deno_chain, link, remove_entry,
  should_promote, promote_entry,
}
use polarfs.Namecache.Calls.{
  Env, hash_init, should_rehash, rehash, last, evict_one, evict_entries, is_skipped, insert,
  enter_new, enter_known, enter_entry, enter_at, enter, delete_by_deno, lookup_hashed, lookup,
  clear_chain, clear_loop, clear_mount,
}
use polarfs.Namecache.Grow.{
  move_chain, drained, all_empty, move_bucket, finish, free_expand_info, move_bulk,
  maintenance_round, cancel,
}
use polarfs.Namecache.Answers.{lookup-view}
use polarfs.Namecache.Cleared.{clear_mount-others}
use polarfs.Namecache.Deleted.{delete_by_deno-others}
use polarfs.Namecache.Enter.{
  IsReplaced, node, enter_it, enter-none_iff, enter-Inserted, lookup-enter,
}
use polarfs.Namecache.Entered.{Same, Inserted}
use polarfs.Namecache.Growth.{Growing, start, hold, expansion_ends}
use polarfs.Namecache.Named.{IsCached}
use polarfs.Namecache.Members.{In}
use polarfs.Namecache.Steps.{nchinit, entered, Runs, began, went, Runs-IsWf}
use polarfs.Namecache.Frame.{left}
use polarfs.Namecache.Wf.{IsWf}
use Prim.Native.Nat.{bit_xor}
use polarfs.Prelude.{
  sym, ◌∙◌, ap, ℕ, ◌*◌, ◌%◌, ◌^◌, ◌<◌, Bool, true, List, [], ◌∷◌, ◌≡◌, ◌≢◌, ◌↔◌, inl, inr, arith,
  Option, none, some, refl,
}

abbrev fnv_32 : List ℕ → ℕ → ℕ
fnv_32 [] h = h
fnv_32 (b ∷ s) h = fnv_32 s (bit_xor (h * 0x01000193 % 2 ^ 32) b)

program : Unit {0}
unfolding get_nc_max calc_hash calc_deno_hash memcmp_eq is_key find chain_steps unlink detach push
    head name_chain deno_chain link remove_entry should_promote promote_entry hash_init
    should_rehash rehash last evict_one evict_entries is_skipped insert enter_new enter_known
    enter_entry enter_at enter delete_by_deno lookup_hashed lookup clear_chain clear_loop
    clear_mount move_chain drained all_empty move_bucket finish free_expand_info move_bulk
    maintenance_round cancel
program = tt

-- A name of mount 7 in directory 0, in a cache that may keep 40000 nodes and starts to grow.
abbrev env : Env
env = record { addr = some 4096; now = 5000000; memory = true }

abbrev fresh : Cache
fresh = nchinit true 40000

abbrev data_name : List ℕ
data_name = b'd' ∷ b'b' ∷ []

abbrev of_result : Option (Cache × List NameEntry) → Cache
of_result none = fresh
of_result (some r) = r.0

abbrev one : Cache
one = of_result (enter fnv_32 fresh env 7 0 12 data_name 3)

one_sizes : ◌≡◌ {A = ℕ × ℕ × Bool} (one.numcache, one.tbl.sz, one.expanding) (1, 8192, true)
unfolding program
one_sizes = refl

one_entered : enter fnv_32 fresh env 7 0 12 data_name 3 ≡ some (one, [])
unfolding program
one_entered = refl

one-Runs : Runs fnv_32 one
one-Runs = went (began true 40000) (entered env 7 0 12 data_name 3 [] (λ x m. absurd m) one_entered)

one-IsWf : IsWf fnv_32 nc_hard_limit one
one-IsWf = Runs-IsWf fnv_32 one-Runs

Runs-IsWf_example : IsWf fnv_32 nc_hard_limit one
Runs-IsWf_example = Runs-IsWf fnv_32 one-Runs

lookup-view_example :
    ((lookup fnv_32 one 6000000 7 0 data_name).1 ≡ some 12)
    × Same fnv_32 one (lookup fnv_32 one 6000000 7 0 data_name).0
unfolding program
lookup-view_example = lookup-view fnv_32 one one-IsWf 6000000 7 0 data_name

abbrev log_name : List ℕ
log_name = b'l' ∷ b'o' ∷ b'g' ∷ []

log_fresh : (x : NameEntry) → In x one.lru → x.addr ≢ 8192
unfolding program
log_fresh x (inl e) q = ground (arith, ap (λ (t : NameEntry). t.addr) e)
log_fresh x (inr m) q = absurd m

enter-Inserted_example :
    (c' : Cache) × (freed : List NameEntry) × (enter_it fnv_32 one 8192 5000001 true 7 0 13 log_name
        4
      ≡ some (c', freed))
    × Inserted fnv_32 one (node fnv_32 one 8192 5000001 true 7 0 13 log_name 4) c' freed
unfolding program
enter-Inserted_example =
    enter-Inserted fnv_32 one 8192 5000001 true 7 0 13 log_name 4 one-IsWf refl refl log_fresh refl
      (omega arith)

abbrev two : Cache
two = of_result (enter_it fnv_32 one 8192 5000001 true 7 0 13 log_name 4)

lookup-enter_example : (lookup fnv_32 two 6000000 7 0 log_name).1 ≡ some 13
unfolding program
lookup-enter_example =
    lookup-enter fnv_32 one 8192 5000001 true 7 0 13 log_name 4 one-IsWf refl refl log_fresh two []
      6000000 (omega arith) (omega arith) refl

enter-none_iff_example : (enter fnv_32 one env 7 0 99 data_name 3 ≡ none) ↔ (
    (one.enable ≡ true)
    × IsCached data_name
    × (env.addr ≢ none)
    × IsReplaced one 7 0 99 data_name 3)
enter-none_iff_example = enter-none_iff fnv_32 one env 7 0 99 data_name 3 one-IsWf

replaced : enter fnv_32 one env 7 0 99 data_name 3 ≡ none
unfolding program
replaced = refl

only_node : (x y : NameEntry) → In x one.lru → In y one.lru → x ≡ y
unfolding program
only_node x y (inl p) (inl q) = p ∙ sym q
only_node x y (inl p) (inr q) = absurd q
only_node x y (inr p) q = absurd p

delete_by_deno-others_example :
    (In
        (node fnv_32 fresh 4096 5000000 true 7 0 12 data_name 3)
        (delete_by_deno fnv_32 one 7 3).0.lru
      ↔ (In (node fnv_32 fresh 4096 5000000 true 7 0 12 data_name 3) one.lru
          × ¬ (◌≡◌ {A = ℕ} 7 7 × ◌≡◌ {A = ℕ} 3 3)))
    × (In (node fnv_32 fresh 4096 5000000 true 7 0 12 data_name 3) (delete_by_deno fnv_32 one 7 3).1
        ↔ (In (node fnv_32 fresh 4096 5000000 true 7 0 12 data_name 3) one.lru
            × (◌≡◌ {A = ℕ} 7 7 × ◌≡◌ {A = ℕ} 3 3)))
delete_by_deno-others_example =
    delete_by_deno-others fnv_32 one 7 3 one-IsWf (λ x y m k a b. only_node x y m k)
      (node fnv_32 fresh 4096 5000000 true 7 0 12 data_name 3)

-- A cache that does not grow.
abbrev still : Cache
still = of_result (enter fnv_32 (nchinit true 4) env 7 0 12 data_name 3)

still-Runs : Runs fnv_32 still
unfolding program
still-Runs = went (began true 4) (entered env 7 0 12 data_name 3 [] (λ x m. absurd m) refl)

clear_mount-others_example :
    IsWf fnv_32 nc_hard_limit (clear_mount still 8).0
    × ((x : NameEntry) → In x (clear_mount still 8).0.lru ↔ (In x still.lru × (x.mnt ≢ 8)))
unfolding program
clear_mount-others_example = clear_mount-others fnv_32 8 still refl (Runs-IsWf fnv_32 still-Runs)

-- The expansion after its first bucket.
abbrev held_once : Option Cache → Cache
held_once none = fresh
held_once (some c) = c

abbrev moved : Cache
moved = held_once (maintenance_round fnv_32 one)

moved-Growing : Growing fnv_32 one 1 moved
unfolding program
moved-Growing = hold start refl refl

one_expands : one.expanding ≡ true
unfolding program
one_expands = refl

expansion_ends_example :
    (1 < one.tbl.sz)
    × ((e : Cache) × (maintenance_round fnv_32 moved ≡ some e) × (left e < left moved))
expansion_ends_example = expansion_ends fnv_32 one-Runs one_expands 1 moved moved-Growing
