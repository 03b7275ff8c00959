-- ===== src/Namecache/Deleted.antt =====
-- pfs_namecache_delete_by_deno and pfs_namecache_clear_mount: which nodes go.
use polarfs.Namecache.{
  NameEntry, Cache, nc_hard_limit, find, deno_chain, calc_deno_hash, remove_entry, unlink,
}
use polarfs.Namecache.Calls.{is_deno, delete_by_deno}
use polarfs.Namecache.Members.{In, Distinct, In-unlink, unlink-In, find-some, find-none, same_addr}
use polarfs.Namecache.Search.{deno_chain-In, In-deno_chain}
use polarfs.Namecache.Wf.{IsWf, stats-IsWf, remove_entry-IsWf}
use polarfs.Prelude.{
  ap, ℕ, true, List, ◌≡◌, ◌≢◌, ◌↔◌, inl, inr, arith, none, some, Option-cases, refl,
}

module _ (fnv : List ℕ → ℕ → ℕ) where
  lru-remove_entry : (c : Cache) (e : NameEntry) → (remove_entry c e).lru ≡ unlink e.addr c.lru
  unfolding remove_entry
  lru-remove_entry c e = refl

  -- What a removal leaves is all but the node.
  pub In-removed :
      (c : Cache) (e x : NameEntry)
      → Distinct c.lru
      → In e c.lru
      → In x (remove_entry c e).lru ↔ (In x c.lru × (x ≢ e))
  unfolding remove_entry
  In-removed c e x d m = (
    λ k.
        let (k', n) = In-unlink x e.addr c.lru k in (k', λ p. n (ap (λ (t : NameEntry). t.addr) p)),
    λ k. unlink-In x e.addr c.lru k.0 (λ p. k.1 (same_addr x e c.lru d k.0 m p)),
  )

  module _ (c : Cache) (mnt deno : ℕ) (w : IsWf fnv nc_hard_limit c) where
    abbrev HasDeno : NameEntry → Type 0
    HasDeno x = (x.mnt ≡ mnt) × (x.deno ≡ deno)

    has_deno : (x : NameEntry) → HasDeno x → is_deno mnt deno x ≡ true
    has_deno x h = ground arith

    abbrev deleted : Cache × List NameEntry
    deleted = delete_by_deno fnv c mnt deno

    found :
        (e : NameEntry)
        → find (is_deno mnt deno) (deno_chain c (calc_deno_hash fnv mnt deno)) ≡ some e
        → In e c.lru × HasDeno e
    found e h =
        let (m, q) = find-some (is_deno mnt deno) e _ h in
        (deno_chain-In mnt deno fnv nc_hard_limit c w e m, (ground arith, ground arith))

    missing :
        (x : NameEntry)
        → find (is_deno mnt deno) (deno_chain c (calc_deno_hash fnv mnt deno)) ≡ none
        → In x c.lru
        → ¬ HasDeno x
    missing x h m q =
        let p = has_deno x q in
        absurd (
          ground (
            arith,
            find-none (is_deno mnt deno) x _ h (In-deno_chain mnt deno fnv nc_hard_limit c w x m p),
          ))

    pub delete_by_deno-IsWf : IsWf fnv nc_hard_limit deleted.0
    unfolding delete_by_deno
    delete_by_deno-IsWf =
        elim (Option-cases (find (is_deno mnt deno) (deno_chain c (calc_deno_hash fnv mnt deno)))) [
          | inl h ↦ rw (h, delete_by_deno) w
          | inr (e, h) ↦
              rw (h, delete_by_deno)
                (stats-IsWf fnv nc_hard_limit (remove_entry c e) _
                  (remove_entry-IsWf fnv nc_hard_limit c e (omega arith) (found e h).0 w))
        ]

    -- If no two nodes of a mount have the entry number, its deletion leaves exactly the nodes that
    -- do not have it, and frees the one that has it.
    pub delete_by_deno-others :
        ((x y : NameEntry) → In x c.lru → In y c.lru → HasDeno x → HasDeno y → x ≡ y)
        → (x : NameEntry)
        → (In x deleted.0.lru ↔ (In x c.lru × ¬ HasDeno x))
          × (In x deleted.1 ↔ (In x c.lru × HasDeno x))
    unfolding delete_by_deno
    delete_by_deno-others unique x =
        elim (Option-cases (find (is_deno mnt deno) (deno_chain c (calc_deno_hash fnv mnt deno)))) [
          | inl h ↦
              rw (h, delete_by_deno)
                (
                  (λ m. (m, missing x h m), λ k. k.0),
                  (λ m. absurd m, λ k. absurd (missing x h k.0 k.1)),
                )
          | inr (e, h) ↦
              let (m, q) = found e h in
              let r = In-removed c e x w.distinct m in
              rw (h, delete_by_deno)
                (
                  (
                    λ k. ((r.0 k).0, λ y. (r.0 k).1 (unique x e (r.0 k).0 m y q)),
                    λ k. r.1 (k.0, λ p. k.1 (rw p q)),
                  ),
                  (
                    λ k. elim k [ inl p ↦ rw p (m, q) | inr z ↦ absurd z ],
                    λ k. inl (unique x e k.0 m k.1 q),
                  ),
                )
        ]
