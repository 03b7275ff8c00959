-- ===== src/Namecache/Entered.antt =====
-- What pfs_namecache_enter does with a node, by whether its name is there.
use polarfs.Namecache.{
  NameEntry, Cache, Stats, nc_hard_limit, get_nc_max, inc, is_key, find, chain_steps, name_chain,
  promote_entry, should_promote,
}
use polarfs.Namecache.Calls.{
  Env, name_hash, rehash, evict_entries, insert, enter_new, enter_known, enter_entry,
}
use polarfs.Namecache.Evicted.{get_nc_max-le, evict_entries-Evicted}
use polarfs.Namecache.Expanded.{rehash-IsWf, lru-rehash}
use polarfs.Namecache.Frame.{
  Frame, Frame-refl, Frame-trans, stats-Frame, promote_entry-Frame, insert-Frame, rehash-Frame,
}
use polarfs.Namecache.Members.{In, find-none}
use polarfs.Namecache.Search.{HasKey→is_key, find-name_chain}
use polarfs.Namecache.Wf.{
  IsWf, SameKey, stats-IsWf, insert-IsWf, promote_entry-IsWf, promote_entry-same,
}
use mathlib.Core.List.{append-nil}
use mathlib.Core.Path.{ap₂}
use polarfs.Prelude.{
  ap, ℕ, suc, ◌≤◌, Bool, not, ◌||◌, List, [], ◌∷◌, ◌≡◌, ◌≢◌, ◌↔◌, inl, inr, arith, none, some,
  Bool-cases, refl, ◌==◌, if◌then◌else◌, leb, length, take, drop, length-take, ◌∙◌,
}

module _ (fnv : List ℕ → ℕ → ℕ) where
  IsWf-narrow : (n m : ℕ) (c : Cache) → length c.lru ≤ m → IsWf fnv n c → IsWf fnv m c
  IsWf-narrow n m c le w = record {
    names = w.names;
    denos = w.denos;
    distinct = w.distinct;
    keys = w.keys;
    counted = w.counted;
    bounded = le;
    masked = w.masked;
    masked' = w.masked';
    moving = w.moving;
  }

  -- The cache is as good as before, and has the same nodes.
  pub record Same (c c' : Cache) : Type 0 where
    pub wf : IsWf fnv nc_hard_limit c'
    pub nodes : (x : NameEntry) → In x c'.lru ↔ In x c.lru
    pub frame : Frame c c'

  Same-lru :
      (c c' d : Cache)
      → IsWf fnv nc_hard_limit d
      → d.lru ≡ c'.lru
      → Frame c' d
      → Same c c'
      → Same c d
  Same-lru c c' d w e b s = record {
    wf = w;
    nodes = λ x. rw e (s.nodes x);
    frame = Frame-trans s.frame b;
  }

  pub Same-refl : (c : Cache) → IsWf fnv nc_hard_limit c → Same c c
  Same-refl c w = record { wf = w; nodes = λ x. (λ k. k, λ k. k); frame = Frame-refl c }

  pub Same-stats : (c d : Cache) (s : Stats) → Same c d → Same c (record d { stats = s })
  Same-stats c d s r = record {
    wf = stats-IsWf fnv nc_hard_limit d s r.wf;
    nodes = r.nodes;
    frame = Frame-trans r.frame (stats-Frame d s);
  }

  pub promote-Same :
      (c : Cache) (f : NameEntry) (now : ℕ)
      → In f c.lru
      → IsWf fnv nc_hard_limit c
      → Same c (if should_promote c now f then promote_entry c f now else c)
  promote-Same c f now m w = elim (Bool-cases (should_promote c now f)) [
    | inl y ↦ rw y (record {
      wf = promote_entry-IsWf fnv nc_hard_limit c f now m w;
      nodes = λ x. promote_entry-same fnv nc_hard_limit c f x now m w;
      frame = promote_entry-Frame c f now;
    })
    | inr y ↦ rw y (Same-refl c w)
  ]

  pub rehash-Same : (c d : Cache) (memory : Bool) → Same c d → Same c (rehash memory d)
  rehash-Same c d memory s =
      Same-lru c d (rehash memory d) (rehash-IsWf fnv nc_hard_limit d memory s.wf)
        (lru-rehash fnv nc_hard_limit d memory) (rehash-Frame memory d) s

  -- `lru` after a new node, and what was freed.
  pub record Inserted (c : Cache) (e : NameEntry) (c' : Cache) (freed : List NameEntry)
      : Type 0 where
    pub wf : IsWf fnv nc_hard_limit c'
    pub lru : c'.lru ≡ take (get_nc_max c) (e ∷ c.lru)
    pub rest : freed ≡ drop (get_nc_max c) (e ∷ c.lru)
    pub frame : Frame c c'

  module _ (c : Cache) (env : Env) (e : NameEntry) (w : IsWf fnv nc_hard_limit c) where
    lru-insert : (insert fnv c e env.now).lru ≡ e ∷ c.lru
    unfolding insert
    lru-insert = refl

    get_nc_max-insert : get_nc_max (insert fnv c e env.now) ≡ get_nc_max c
    unfolding insert get_nc_max
    get_nc_max-insert = refl

    cut :
        (memory : Bool) (d : Cache)
        → d.lru ≡ e ∷ c.lru
        → get_nc_max d ≡ get_nc_max c
        → Frame c d
        → IsWf fnv (suc nc_hard_limit) d
        → Inserted c e
            (rehash memory (evict_entries (length d.lru) d []).0)
            (evict_entries (length d.lru) d []).1
    cut memory d p q b v =
        let r =
          evict_entries-Evicted fnv (suc nc_hard_limit) (length d.lru) d [] (omega arith)
            (omega arith) v in
        let kept = r.kept ∙ ap₂ (λ k l. take k l) q p in
        let fits : length (evict_entries (length d.lru) d []).0.lru ≤ nc_hard_limit =
          omega (arith, ap length kept, length-take (get_nc_max c) (e ∷ c.lru), get_nc_max-le c) in
        let narrow = IsWf-narrow (suc nc_hard_limit) nc_hard_limit _ fits r.wf in
        record {
          wf = rehash-IsWf fnv nc_hard_limit _ memory narrow;
          lru = lru-rehash fnv nc_hard_limit _ memory ∙ kept;
          frame = Frame-trans b (Frame-trans r.frame (rehash-Frame memory _));
          rest = r.freed ∙ append-nil _ ∙ ap₂ (λ k l. drop k l) q p;
        }

    unknown :
        find (is_key e.mnt e.parent_ino e.name) c.lru ≡ none
        → (x : NameEntry) → In x c.lru
        → ¬ SameKey x e
    unknown absent x m k = absurd (
        ground (
          arith,
          find-none (is_key e.mnt e.parent_ino e.name) x c.lru absent m,
          HasKey→is_key e.mnt e.parent_ino e.name x k,
        ))

    pub enter_new-Inserted :
        ((x : NameEntry) → In x c.lru → x.addr ≢ e.addr)
        → find (is_key e.mnt e.parent_ino e.name) c.lru ≡ none
        → Inserted c e (enter_new fnv c env e).0 (enter_new fnv c env e).1
    unfolding enter_new
    enter_new-Inserted fresh absent =
        cut env.memory (insert fnv c e env.now) lru-insert get_nc_max-insert
          (insert-Frame fnv c e env.now)
          (insert-IsWf fnv nc_hard_limit c e env.now (omega arith) fresh (unknown absent) w)

    pub enter_entry-known :
        (f : NameEntry)
        → find (is_key e.mnt e.parent_ino e.name) c.lru ≡ some f
        → enter_entry fnv c env e ≡ (
            if not (e.ino == f.ino) || not (e.deno == f.deno)
            then none
            else some (enter_known c env f, e ∷ []))
    unfolding enter_entry
    enter_entry-known f h =
        rw (find-name_chain e.mnt e.parent_ino e.name fnv nc_hard_limit c w, h, enter_entry)

    pub enter_known-Same : (f : NameEntry) → In f c.lru → Same c (enter_known c env f)
    unfolding enter_known
    enter_known-Same f m = rehash-Same c _ env.memory (promote-Same c f env.now m w)

    pub enter_entry-absent :
        find (is_key e.mnt e.parent_ino e.name) c.lru ≡ none
        → enter_entry fnv c env e ≡ (
            if leb c.max_bucket_len
              (chain_steps (is_key e.mnt e.parent_ino e.name) (name_chain c (name_hash fnv e)))
            then some (
              rehash env.memory
                  (record c { stats = record c.stats { numrejects = inc c.stats.numrejects } }),
              e ∷ [],
            )
            else some (enter_new fnv c env e))
    unfolding enter_entry
    enter_entry-absent h =
        rw (find-name_chain e.mnt e.parent_ino e.name fnv nc_hard_limit c w, h, enter_entry)
