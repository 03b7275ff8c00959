-- ===== src/Namecache/Search.antt =====
-- A search along a hash chain finds what a search of all nodes finds.
use polarfs.Namecache.{
  NameEntry, Cache, memcmp_eq, is_key, find, name_chain, deno_chain, calc_hash, calc_deno_hash,
}
use polarfs.Namecache.Calls.{name_hash, deno_hash, is_deno}
use polarfs.Namecache.Members.{In, find-some, find-none, find_only, find_absent}
use polarfs.Namecache.Placed.{chain-In, In-chain}
use polarfs.Namecache.Wf.{IsWf}
use polarfs.Prelude.{
  ℕ, true, List, [], ◌∷◌, ◌≡◌, inl, inr, length, arith, Option-cases, refl, sym, ◌∙◌,
}

memcmp_eq_lem : (a b : List ℕ) → length a ≡ length b → memcmp_eq (length b) a b ≡ true → a ≡ b
unfolding memcmp_eq
memcmp_eq_lem [] [] l h = refl
memcmp_eq_lem [] (y ∷ b) l h = absurd (omega arith)
memcmp_eq_lem (x ∷ a) [] l h = absurd (omega arith)
memcmp_eq_lem (x ∷ a) (y ∷ b) l h = ground (arith, memcmp_eq_lem a b (omega arith) (ground arith))

memcmp_eq_refl : (a : List ℕ) → memcmp_eq (length a) a a ≡ true
unfolding memcmp_eq
memcmp_eq_refl [] = refl
memcmp_eq_refl (x ∷ a) = ground (arith, memcmp_eq_refl a)

module _ (mnt parent_ino : ℕ) (name : List ℕ) where
  abbrev pub HasKey : NameEntry → Type 0
  HasKey e = (e.mnt ≡ mnt) × (e.parent_ino ≡ parent_ino) × (e.name ≡ name)

  pub is_key→HasKey : (e : NameEntry) → is_key mnt parent_ino name e ≡ true → HasKey e
  unfolding is_key
  is_key→HasKey e h =
      (ground arith, ground arith, memcmp_eq_lem e.name name (ground arith) (ground arith))

  pub HasKey→is_key : (e : NameEntry) → HasKey e → is_key mnt parent_ino name e ≡ true
  unfolding is_key
  HasKey→is_key e h = rw h.2 (ground (arith, memcmp_eq_refl name))

  module _ (fnv : List ℕ → ℕ → ℕ) (n : ℕ) (c : Cache) (w : IsWf fnv n c) where
    name_chain-In :
        (x : NameEntry) → In x (name_chain c (calc_hash fnv mnt parent_ino name)) → In x c.lru
    unfolding name_chain
    name_chain-In x m =
        chain-In (name_hash fnv) c.expanding c.expand.bucket c.tbl.mask c.expand.tables.mask
          c.tbl.names c.expand.tables.names c.lru w.names (calc_hash fnv mnt parent_ino name) x m

    In-name_chain :
        (x : NameEntry)
        → In x c.lru
        → HasKey x
        → In x (name_chain c (calc_hash fnv mnt parent_ino name))
    unfolding name_chain
    In-name_chain x m k =
        rw (← k.0, ← k.1, ← k.2)
          (In-chain (name_hash fnv) c.expanding c.expand.bucket c.tbl.mask c.expand.tables.mask
            c.tbl.names c.expand.tables.names c.lru w.names x m)

    pub same_node : (x y : NameEntry) → In x c.lru → In y c.lru → HasKey x → HasKey y → x ≡ y
    same_node x y mx my kx ky = w.keys x y mx my (kx.0 ∙ sym ky.0, kx.1 ∙ sym ky.1, kx.2 ∙ sym ky.2)

    pub find-name_chain :
        find (is_key mnt parent_ino name) (name_chain c (calc_hash fnv mnt parent_ino name))
        ≡ find (is_key mnt parent_ino name) c.lru
    find-name_chain = elim (Option-cases (find (is_key mnt parent_ino name) c.lru)) [
      | inl no_node ↦ rw no_node (
          find_absent _ _
            λ x m. find-none (is_key mnt parent_ino name) x c.lru no_node (name_chain-In x m))
      | inr found ↦
          let (x, e) = found in
          let (m, h) = find-some (is_key mnt parent_ino name) x c.lru e in
          let k = is_key→HasKey x h in
          rw e (
            find_only _ x _ (In-name_chain x m k) h
              λ y my hy. same_node y x (name_chain-In y my) m (is_key→HasKey y hy) k)
    ]

module _ (mnt deno : ℕ) (fnv : List ℕ → ℕ → ℕ) (n : ℕ) (c : Cache) (w : IsWf fnv n c) where
  pub deno_chain-In :
      (x : NameEntry) → In x (deno_chain c (calc_deno_hash fnv mnt deno)) → In x c.lru
  unfolding deno_chain
  deno_chain-In x m =
      chain-In (deno_hash fnv) c.expanding c.expand.bucket c.tbl.mask c.expand.tables.mask
        c.tbl.denos c.expand.tables.denos c.lru w.denos (calc_deno_hash fnv mnt deno) x m

  pub In-deno_chain :
      (x : NameEntry)
      → In x c.lru
      → is_deno mnt deno x ≡ true
      → In x (deno_chain c (calc_deno_hash fnv mnt deno))
  unfolding deno_chain
  In-deno_chain x m h =
      let p : x.mnt ≡ mnt = ground arith in
      let q : x.deno ≡ deno = ground arith in
      rw (← p, ← q)
        (In-chain (deno_hash fnv) c.expanding c.expand.bucket c.tbl.mask c.expand.tables.mask
          c.tbl.denos c.expand.tables.denos c.lru w.denos x m)
