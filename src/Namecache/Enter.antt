-- ===== src/Namecache/Enter.antt =====
-- pfs_namecache_enter: its assertion, a new node, and a lookup that follows.
use mathlib.Core.Option.{some-injective}
use polarfs.Namecache.{
  NameEntry, Cache, nc_hard_limit, get_nc_max, is_key, find, chain_steps, name_chain,
}
use polarfs.Namecache.Calls.{
  enter_at, Env, name_hash, enter_new, enter_known, enter_entry, is_skipped, enter, lookup,
}
use polarfs.Namecache.Answers.{view, lookup-view}
use polarfs.Namecache.Entered.{
  Same, Inserted, enter_new-Inserted, enter_entry-known, enter_known-Same, enter_entry-absent,
}
use polarfs.Namecache.Named.{IsCached, is_skipped-is_dot, is_skipped-IsCached, IsCached-is_skipped}
use polarfs.Namecache.Members.{find_only, In, find-some}
use polarfs.Namecache.Search.{same_node, is_key→HasKey, HasKey→is_key}
use polarfs.Namecache.Wf.{IsWf}
use mathlib.Core.Option
use polarfs.Prelude.{
  Bool-cases, ap, ℕ, zero, suc, ◌<◌, Bool, true, false, not, ◌||◌, List, [], ◌∷◌, ◌≡◌, ◌≢◌, ◌⊎◌,
  ◌↔◌, inl, inr, arith, Option, none, some, Option-cases, refl, ◌==◌, if◌then◌else◌, leb, take, sym,
  ◌∙◌,
}

same_result :
    {A B : Type 0} {a c : A} {b d : B}
    → ◌≡◌ {A = Option (A × B)} (some (a, b)) (some (c, d))
    → a ≡ c
same_result h = ap (λ t. t.0) (some-injective _ _ h)

pub if_else : {A : Type 0} {b : Bool} (x y : A) → b ≡ false → (if b then x else y) ≡ y
if_else x y h = rw h

find-take :
    (p : NameEntry → Bool) (k : ℕ) (x : NameEntry) (l : List NameEntry)
    → 0 < k
    → p x ≡ true
    → find p (take k (x ∷ l)) ≡ some x
unfolding find
find-take p zero x l h y = absurd (omega arith)
find-take p (suc k) x l h y = rw y

get_nc_max-pos : (c : Cache) → 0 < c.nc_max → 0 < get_nc_max c
unfolding get_nc_max
get_nc_max-pos c h = ground arith

-- A node of the cache has the name, with another inode or another entry number.
abbrev pub IsReplaced : Cache → ℕ → ℕ → ℕ → List ℕ → ℕ → Type 0
IsReplaced c mnt parent_ino child_ino name deno =
    (f : NameEntry) × (find (is_key mnt parent_ino name) c.lru ≡ some f)
    × ((f.ino ≢ child_ino) ⊎ (f.deno ≢ deno))

module _ (fnv : List ℕ → ℕ → ℕ) (c : Cache) (a now : ℕ) (memory : Bool)
    (mnt parent_ino child_ino : ℕ) (name : List ℕ) (deno : ℕ) where
  -- What malloc and the clock give the call, and the node that it makes.
  abbrev pub given : Env
  given = record { addr = some a; now = now; memory = memory }

  abbrev pub node : NameEntry
  node = record {
    addr = a;
    mnt = mnt;
    parent_ino = parent_ino;
    ino = child_ino;
    deno = deno;
    name = name;
  }

  abbrev pub enter_it : Option (Cache × List NameEntry)
  enter_it = enter fnv c given mnt parent_ino child_ino name deno

  -- The name's chain has room.
  abbrev pub HasRoom : Type 0
  HasRoom =
      chain_steps (is_key mnt parent_ino name) (name_chain c (name_hash fnv node))
      < c.max_bucket_len

  no_room :
      HasRoom
      → leb c.max_bucket_len
          (chain_steps (is_key mnt parent_ino name) (name_chain c (name_hash fnv node)))
        ≡ false
  no_room room = ground arith

  module _ (w : IsWf fnv nc_hard_limit c) (on : c.enable ≡ true)
      (named : is_skipped name ≡ false) where
    enter-eq_entry : enter_it ≡ enter_entry fnv c given node
    unfolding enter enter_at
    enter-eq_entry = ground arith

    enter-known :
        (f : NameEntry)
        → find (is_key mnt parent_ino name) c.lru ≡ some f
        → enter_it ≡ (
            if not (child_ino == f.ino) || not (deno == f.deno)
            then none
            else some (enter_known c given f, node ∷ []))
    enter-known f h = enter-eq_entry ∙ enter_entry-known fnv c given node w f h

    abbrev Replaces : Type 0
    Replaces = IsReplaced c mnt parent_ino child_ino name deno

    replaces-none : Replaces → enter_it ≡ none
    replaces-none (f, h, d) = ground (arith, enter-known f h)

    none-replaces : enter_it ≡ none → Replaces
    none-replaces e = elim (Option-cases (find (is_key mnt parent_ino name) c.lru)) [
      | inl absent ↦
          absurd (ground (arith, enter-eq_entry, enter_entry-absent fnv c given node w absent))
      | inr (f, h) ↦ (f, h, ground (arith, enter-known f h))
    ]

    replaces_iff : (enter_it ≡ none) ↔ Replaces
    replaces_iff = (none-replaces, replaces-none)

    module _ (fresh : (x : NameEntry) → In x c.lru → x.addr ≢ a) where
      -- With the cache enabled, a name that is not empty, "." or "..", and a node from malloc: a name
      -- that is not there, in a chain with room, makes `lru` the new node and then the nodes so far
      -- in their order, cut to the number that may be kept; what is cut off at the end is freed.
      pub enter-Inserted :
          find (is_key mnt parent_ino name) c.lru ≡ none
          → HasRoom
          → (c' : Cache) × (freed : List NameEntry) × (enter_it ≡ some (c', freed))
            × Inserted fnv c node c' freed
      enter-Inserted absent room =
          let r = enter_new fnv c given node in
          (
            r.0,
            r.1,
            enter-eq_entry
                ∙ enter_entry-absent fnv c given node w absent
                ∙ if_else _ _ (no_room room),
            enter_new-Inserted fnv c given node w fresh absent,
          )

      looked :
          (c' : Cache) (later : ℕ)
          → IsWf fnv nc_hard_limit c'
          → c'.enable ≡ c.enable
          → view c' mnt parent_ino name ≡ some child_ino
          → (lookup fnv c' later mnt parent_ino name).1 ≡ some child_ino
      looked c' later v b q =
          (lookup-view fnv c' v later mnt parent_ino name).0
          ∙ if_else _ _ (ap not (b ∙ on))
          ∙ if_else _ _ (is_skipped-is_dot name named)
          ∙ q

      view-Inserted :
          (c' : Cache) (freed : List NameEntry)
          → 0 < c.nc_max
          → Inserted fnv c node c' freed
          → view c' mnt parent_ino name ≡ some child_ino
      view-Inserted c' freed pos v =
          ap (λ l. Option.map (λ (x : NameEntry). x.ino) (find (is_key mnt parent_ino name) l))
            v.lru
          ∙ ap (Option.map (λ (x : NameEntry). x.ino)) (
              find-take (is_key mnt parent_ino name) (get_nc_max c) node c.lru
                (get_nc_max-pos c pos) (HasKey→is_key mnt parent_ino name node (refl, refl, refl)))

      view-Same :
          (c' : Cache) (f : NameEntry)
          → find (is_key mnt parent_ino name) c.lru ≡ some f
          → Same fnv c c'
          → view c' mnt parent_ino name ≡ some f.ino
      view-Same c' f h s =
          let (m, k) = find-some (is_key mnt parent_ino name) f c.lru h in
          ap (Option.map (λ (x : NameEntry). x.ino)) (
            find_only (is_key mnt parent_ino name) f c'.lru ((s.nodes f).1 m) k λ y my ky.
              same_node mnt parent_ino name fnv nc_hard_limit c' s.wf y f my ((s.nodes f).1 m)
                (is_key→HasKey mnt parent_ino name y ky) (is_key→HasKey mnt parent_ino name f k))

      -- With the cache enabled, a name that is not empty, "." or "..", and a node from malloc: once an
      -- entry is made without a failed assertion, and unless no node may be kept or the chain had no room, a lookup of
      -- the name finds its inode.
      pub lookup-enter :
          (c' : Cache) (freed : List NameEntry) (later : ℕ)
          → HasRoom
          → 0 < c.nc_max
          → enter_it ≡ some (c', freed)
          → (lookup fnv c' later mnt parent_ino name).1 ≡ some child_ino
      lookup-enter c' freed later room some_kept e =
          elim (Option-cases (find (is_key mnt parent_ino name) c.lru)) [
            | inl absent ↦
                let (d, rest, q, v) = enter-Inserted absent room in
                let p : d ≡ c' = same_result (sym q ∙ e) in
                rw (← p) (looked d later v.wf v.frame.enable (view-Inserted d rest some_kept v))
            | inr (f, h) ↦
                let d = enter_known c given f in
                let s =
                  enter_known-Same fnv c given node w f
                    (find-some (is_key mnt parent_ino name) f c.lru h).0 in
                let p : d ≡ c' = ground (arith, enter-known f h) in
                let i : f.ino ≡ child_ino = ground (arith, enter-known f h) in
                rw (← p) (looked d later s.wf s.frame.enable (view-Same d f h s ∙ ap some i))
          ]

module _ (fnv : List ℕ → ℕ → ℕ) (c : Cache) (env : Env) (mnt parent_ino child_ino : ℕ)
    (name : List ℕ) (deno : ℕ) where
  abbrev entered : Option (Cache × List NameEntry)
  entered = enter fnv c env mnt parent_ino child_ino name deno

  entered-none :
      entered ≡ none
      → (c.enable ≡ true) × (is_skipped name ≡ false) × ((a : ℕ) × (env.addr ≡ some a))
  unfolding enter enter_at
  entered-none e = elim (Bool-cases c.enable) [
    | inr off ↦ absurd (ground arith)
    | inl on ↦ elim (Bool-cases (is_skipped name)) [
      | inl skipped ↦ absurd (ground arith)
      | inr named ↦ elim (Option-cases env.addr) [
        | inl full ↦ absurd (ground arith)
        | inr (a, q) ↦ (on, named, (a, q))
      ]
    ]
  ]

  -- The call by the node that malloc gives.
  entered-at :
      (a : ℕ)
      → env.addr ≡ some a
      → entered ≡ enter_it fnv c a env.now env.memory mnt parent_ino child_ino name deno
  entered-at a q =
      ap
        (λ (o : Option ℕ).
          enter fnv c (record { addr = o; now = env.now; memory = env.memory }) mnt parent_ino
            child_ino name deno)
        q

  -- The assertion of pfs_namecache_enter fails exactly if the cache is enabled, the name is not
  -- empty, "." or "..", malloc gives a node, and the name is there with another inode or another
  -- entry number.
  pub enter-none_iff :
      IsWf fnv nc_hard_limit c
      → (enter fnv c env mnt parent_ino child_ino name deno ≡ none) ↔ (
          (c.enable ≡ true)
          × IsCached name
          × (env.addr ≢ none)
          × IsReplaced c mnt parent_ino child_ino name deno)
  enter-none_iff w = (forth, back)
    where
      forth :
          entered ≡ none
          → (c.enable ≡ true)
            × IsCached name
            × (env.addr ≢ none)
            × IsReplaced c mnt parent_ino child_ino name deno
      forth e =
          let (on, named, (a, q)) = entered-none e in
          (
            on,
            is_skipped-IsCached name named,
            (λ z. ground (arith, q, z)),
            (replaces_iff fnv c a env.now env.memory mnt parent_ino child_ino name deno w on
                  named).0
                (sym (entered-at a q) ∙ e),
          )

      back :
          (c.enable ≡ true)
            × IsCached name
            × (env.addr ≢ none)
            × IsReplaced c mnt parent_ino child_ino name deno
          → entered ≡ none
      back (on, named, gives, r) = elim (Option-cases env.addr) [
        | inl z ↦ absurd (gives z)
        | inr (a, q) ↦
            entered-at a q
            ∙ (replaces_iff fnv c a env.now env.memory mnt parent_ino child_ino name deno w on
                  (IsCached-is_skipped name named)).1
                r
      ]
