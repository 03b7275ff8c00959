-- ===== src/Namecache/Steps.antt =====
-- The name cache from its start (pfs_nchinit), through the calls of all threads and the expansion.
use polarfs.Namecache.{name_chain, chain_steps, leb, NameEntry, Cache, nc_hard_limit, find, is_key}
use polarfs.Namecache.Calls.{
  deno_hash, empty_buckets, enter_at, name_hash, Env, hash_init, hash_alloc, enter_entry,
  is_skipped, enter, lookup, delete_by_deno, clear_mount,
}
use polarfs.Namecache.Grow.{no_expand, maintenance_round, cancel}
use polarfs.Namecache.Answers.{lookup-view}
use polarfs.Namecache.Enter.{if_else}
use polarfs.Namecache.Cleared.{clear_mount-others}
use polarfs.Namecache.Deleted.{delete_by_deno-IsWf}
use polarfs.Namecache.Entered.{
  Same, Same-refl, Same-stats, rehash-Same, enter_new-Inserted, enter_entry-known, enter_known-Same,
  enter_entry-absent,
}
use polarfs.Namecache.Expanded.{hash_init-pos}
use polarfs.Namecache.Frame.{Frame, Frame-refl}
use polarfs.Namecache.Members.{In, find-some}
use polarfs.Namecache.Rounds.{maintenance_round-Rounded, cancel-IsWf}
use polarfs.Namecache.Wf.{IsWf}
use polarfs.Namecache.Placed.{Placed}
use mathlib.Core.Option.{some-injective}
use mathlib.Core.Path.{subst, subst⁻¹}
use Prim.Native.Nat.{◌-◌}
use polarfs.Prelude.{
  ap, ℕ, Bool, true, false, not, ◌||◌, List, [], ◌≡◌, ◌≢◌, inl, inr, arith, Option, none, some,
  Bool-cases, Option-cases, refl, ◌==◌, if◌then◌else◌, sym, ◌∙◌,
}

-- pfs_nchinit, with the options as they are set
abbrev pub nchinit : Bool → ℕ → Cache
nchinit on max = record {
  enable = on;
  nc_max = max;
  lru_window = 100000;
  max_bucket_len = 200;
  bulk_move = 1;
  tbl = hash_alloc (hash_init 8192);
  expanding = false;
  expand = no_expand;
  lru = [];
  promoted = λ a. 0;
  numcache = 0;
  stats = record {
    nummiss = 0;
    numchecks = 0;
    numhits = 0;
    numdelbydeno = 0;
    numevicts = 0;
    numrejects = 0;
  };
}

none-ne-some : {A : Type 0} {a : A} → none ≡ some a → ⊥
none-ne-some h = cc

if_then : {A : Type 0} {b : Bool} (x y : A) → b ≡ true → (if b then x else y) ≡ x
if_then x y h = rw h

module _ (fnv : List ℕ → ℕ → ℕ) where
  -- malloc gives no address that a node has. A clear waits for the end of an expansion; a hold of
  -- the thread and the cancellation, before any bucket is moved, come during one.
  pub data Step (c d : Cache) : Type 0 where
    entered :
        (env : Env) (mnt parent_ino child_ino : ℕ) (name : List ℕ) (deno : ℕ)
        (freed : List NameEntry)
        → ((x : NameEntry) → In x c.lru → env.addr ≢ some x.addr)
        → enter fnv c env mnt parent_ino child_ino name deno ≡ some (d, freed)
        → Step c d
    looked :
        (now mnt parent_ino : ℕ) (name : List ℕ)
        → d ≡ (lookup fnv c now mnt parent_ino name).0
        → Step c d
    deleted : (mnt deno : ℕ) → d ≡ (delete_by_deno fnv c mnt deno).0 → Step c d
    cleared : (mnt : ℕ) → c.expanding ≡ false → d ≡ (clear_mount c mnt).0 → Step c d
    held : c.expanding ≡ true → maintenance_round fnv c ≡ some d → Step c d
    cancelled : c.expanding ≡ true → c.expand.bucket ≡ 0 → cancel c ≡ some d → Step c d
    tuned :
        (on : Bool) (max window len : ℕ)
        → d ≡ record c { enable = on; nc_max = max; lru_window = window; max_bucket_len = len }
        → Step c d

  Placed-empty :
      (h : NameEntry → ℕ) (mask mask' : ℕ)
      → Placed h false 0 mask mask' empty_buckets empty_buckets []
  Placed-empty h mask mask' = record {
    from_old = λ x i m. absurd m;
    to_old = λ x m y. absurd m;
    from_new = λ x j y m. absurd m;
    to_new = λ x m y. absurd m;
    once = λ i. tt;
    once' = λ y j. tt;
  }

  pub nchinit-IsWf : (on : Bool) (max : ℕ) → IsWf fnv nc_hard_limit (nchinit on max)
  nchinit-IsWf on max = record {
    names = Placed-empty (name_hash fnv) (hash_init 8192 - 1) 0;
    denos = Placed-empty (deno_hash fnv) (hash_init 8192 - 1) 0;
    distinct = tt;
    keys = λ x y m. absurd m;
    counted = refl;
    bounded = omega arith;
    masked = omega (arith, hash_init-pos 8192);
    masked' = λ y. absurd (ground arith);
    moving = λ y. absurd (ground arith);
  }

  module _ (c : Cache) (w : IsWf fnv nc_hard_limit c) where
    -- What a successful call of enter leaves.
    abbrev pub Kept : Cache → Type 0
    Kept d = IsWf fnv nc_hard_limit d × Frame c d

    Same-Kept : {d : Cache} → Same fnv c d → Kept d
    Same-Kept s = (s.wf, s.frame)

    result-Kept :
        (o : Option (Cache × List NameEntry)) (r : Cache × List NameEntry) (d : Cache)
        (freed : List NameEntry)
        → o ≡ some r
        → o ≡ some (d, freed)
        → Kept r.0
        → Kept d
    result-Kept o r d freed p q k =
        subst (λ (t : Cache × List NameEntry). Kept t.0) (some-injective r (d, freed) (sym p ∙ q)) k

    enter_entry-Kept :
        (env : Env) (e : NameEntry) (d : Cache) (freed : List NameEntry)
        → ((x : NameEntry) → In x c.lru → x.addr ≢ e.addr)
        → enter_entry fnv c env e ≡ some (d, freed)
        → Kept d
    enter_entry-Kept env e d freed fresh q =
        elim (Option-cases (find (is_key e.mnt e.parent_ino e.name) c.lru)) [
          | inl absent ↦
              let p = enter_entry-absent fnv c env e w absent in
              elim (Bool-cases (
                leb c.max_bucket_len (
                  chain_steps (is_key e.mnt e.parent_ino e.name)
                    (name_chain c (name_hash fnv e))))) [
                      | inl full ↦ result-Kept _ _ d freed (p ∙ if_then _ _ full) q (
                          Same-Kept (
                            rehash-Same fnv c _ env.memory
                              (Same-stats fnv c c _ (Same-refl fnv c w))))
                      | inr room ↦
                          let v = enter_new-Inserted fnv c env e w fresh absent in
                          result-Kept _ _ d freed (p ∙ if_else _ _ room) q (v.wf, v.frame)
                    ]
          | inr (f, h) ↦
              let p = enter_entry-known fnv c env e w f h in
              let s =
                enter_known-Same fnv c env e w f
                  (find-some (is_key e.mnt e.parent_ino e.name) f c.lru h).0 in
              elim (Bool-cases (not (e.ino == f.ino) || not (e.deno == f.deno))) [
                | inl y ↦ absurd (none-ne-some (sym (p ∙ if_then _ _ y) ∙ q))
                | inr y ↦ result-Kept _ _ d freed (p ∙ if_else _ _ y) q (Same-Kept s)
              ]
        ]

    module _ (env : Env) (mnt parent_ino child_ino : ℕ) (name : List ℕ) (deno : ℕ) (d : Cache)
        (freed : List NameEntry) where
      enter_at-Kept :
          (o : Option ℕ)
          → ((x : NameEntry) → In x c.lru → o ≢ some x.addr)
          → enter_at fnv o c env mnt parent_ino child_ino name deno ≡ some (d, freed)
          → Kept d
      unfolding enter_at
      enter_at-Kept none fresh q = result-Kept _ (c, []) d freed refl q (w, Frame-refl c)
      enter_at-Kept (some a) fresh q =
          enter_entry-Kept env _ d freed (λ x m e. fresh x m (ap some (sym e))) q

      pub enter-Kept :
          ((x : NameEntry) → In x c.lru → env.addr ≢ some x.addr)
          → enter fnv c env mnt parent_ino child_ino name deno ≡ some (d, freed)
          → Kept d
      unfolding enter
      enter-Kept fresh q = elim (Bool-cases (not c.enable || is_skipped name)) [
        | inl y ↦ result-Kept _ (c, []) d freed refl (sym (if_then _ _ y) ∙ q) (w, Frame-refl c)
        | inr y ↦ enter_at-Kept env.addr fresh (sym (if_else _ _ y) ∙ q)
      ]

  -- Whatever a thread does keeps the cache well formed.
  pub Step-IsWf : (c d : Cache) → IsWf fnv nc_hard_limit c → Step c d → IsWf fnv nc_hard_limit d
  Step-IsWf c d w (entered env mnt parent_ino child_ino name deno freed fresh q) =
      (enter-Kept c w env mnt parent_ino child_ino name deno d freed fresh q).0
  Step-IsWf c d w (looked now mnt parent_ino name q) =
      subst⁻¹ (IsWf fnv nc_hard_limit) q (lookup-view fnv c w now mnt parent_ino name).1.wf
  Step-IsWf c d w (deleted mnt deno q) =
      subst⁻¹ (IsWf fnv nc_hard_limit) q (delete_by_deno-IsWf fnv c mnt deno w)
  Step-IsWf c d w (cleared mnt off q) =
      subst⁻¹ (IsWf fnv nc_hard_limit) q (clear_mount-others fnv mnt c off w).0
  Step-IsWf c d w (held y q) =
      let (c', p, r) = maintenance_round-Rounded fnv nc_hard_limit c y w in
      subst (IsWf fnv nc_hard_limit) (some-injective c' d (sym p ∙ q)) r.wf
  Step-IsWf c d w (cancelled y z q) =
      let (c', p, v, _, _, _) = cancel-IsWf fnv nc_hard_limit c y z w in
      subst (IsWf fnv nc_hard_limit) (some-injective c' d (sym p ∙ q)) v
  Step-IsWf c d w (tuned on max window len q) = subst⁻¹ (IsWf fnv nc_hard_limit) q (record {
    names = w.names;
    denos = w.denos;
    distinct = w.distinct;
    keys = w.keys;
    counted = w.counted;
    bounded = w.bounded;
    masked = w.masked;
    masked' = w.masked';
    moving = w.moving;
  })

  -- The caches that the program reaches.
  pub data Runs : Cache → Type 0 where
    began : (on : Bool) (max : ℕ) → Runs (nchinit on max)
    went : {c d : Cache} → Runs c → Step c d → Runs d

  -- Every node of a cache that the program reaches is in its chain of either table, wherever an
  -- expansion stands, once and in no other chain; addresses and names are not repeated; the number
  -- of nodes is counted right and within the limit.
  pub Runs-IsWf : {c : Cache} → Runs c → IsWf fnv nc_hard_limit c
  Runs-IsWf (began on max) = nchinit-IsWf on max
  Runs-IsWf (went r s) = Step-IsWf _ _ (Runs-IsWf r) s
