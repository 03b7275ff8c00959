-- ===== src/Namecache/Cleared.antt =====
-- pfs_namecache_clear_mount: the nodes of one mount go, bucket by bucket.
use polarfs.Namecache.{NameEntry, Cache, nc_hard_limit, remove_entry}
use polarfs.Namecache.Calls.{clear_chain, clear_loop, clear_mount, name_hash}
use polarfs.Namecache.Members.{In, Distinct}
use polarfs.Namecache.Placed.{slot, stays}
use polarfs.Namecache.Deleted.{In-removed}
use polarfs.Namecache.Frame.{Frame, Frame-refl, Frame-trans, remove_entry-Frame}
use polarfs.Namecache.Wf.{IsWf, remove_entry-IsWf}
use native.Mathlib.Decide.{ℕ_discrete}
use mathlib.Core.Path.{subst}
use polarfs.Prelude.Bits.{bit_and-le}
use polarfs.Prelude.{
  ap, ℕ, zero, suc, ◌+◌, ◌≤◌, ◌<◌, Bool, true, false, List, [], ◌∷◌, ◌≡◌, ◌≢◌, ◌⊎◌, ◌↔◌, inl, inr,
  arith, Bool-cases, refl, ◌==◌, ◌∙◌,
}

module _ (fnv : List ℕ → ℕ → ℕ) (mnt : ℕ) where
  -- The nodes of the mount that are `gone` have been removed, and no others.
  pub record Cleared (gone : NameEntry → Type 0) (c r : Cache) : Type 0 where
    pub wf : IsWf fnv nc_hard_limit r
    pub still : r.expanding ≡ c.expanding
    pub sz : r.tbl.sz ≡ c.tbl.sz
    pub frame : Frame c r
    pub mask : r.tbl.mask ≡ c.tbl.mask
    pub rest : (x : NameEntry) → In x r.lru → In x c.lru × ¬ (gone x × (x.mnt ≡ mnt))
    pub kept : (x : NameEntry) → In x c.lru → ¬ (gone x × (x.mnt ≡ mnt)) → In x r.lru

  Cleared-none : (c : Cache) → IsWf fnv nc_hard_limit c → Cleared (λ x. ⊥) c c
  Cleared-none c w = record {
    wf = w;
    still = refl;
    sz = refl;
    mask = refl;
    frame = Frame-refl c;
    rest = λ x m. (m, λ k. k.0);
    kept = λ x m k. m;
  }

  Cleared-one :
      (c : Cache) (e : NameEntry)
      → IsWf fnv nc_hard_limit c
      → In e c.lru
      → e.mnt ≡ mnt
      → Cleared (λ x. x ≡ e) c (remove_entry c e)
  unfolding remove_entry
  Cleared-one c e w m q = record {
    wf = remove_entry-IsWf fnv nc_hard_limit c e (omega arith) m w;
    still = refl;
    sz = refl;
    mask = refl;
    frame = remove_entry-Frame c e;
    rest = λ x k. let (k', n) = (In-removed fnv c e x w.distinct m).0 k in (k', λ z. n z.0);
    kept = λ x k n.
        (In-removed fnv c e x w.distinct m).1 (k, λ p. n (p, ap (λ (t : NameEntry). t.mnt) p ∙ q));
  }

  -- Two removals one after the other, and another word for what is gone.
  Cleared-then :
      (g g' h : NameEntry → Type 0) (c d r : Cache)
      → ((x : NameEntry) → In x c.lru → x.mnt ≡ mnt → h x → g x ⊎ g' x)
      → ((x : NameEntry) → In x c.lru → x.mnt ≡ mnt → g x → h x)
      → ((x : NameEntry) → In x d.lru → x.mnt ≡ mnt → g' x → h x)
      → Cleared g c d
      → Cleared g' d r
      → Cleared h c r
  Cleared-then g g' h c d r split one two a b = record {
    wf = b.wf;
    still = b.still ∙ a.still;
    sz = b.sz ∙ a.sz;
    mask = b.mask ∙ a.mask;
    frame = Frame-trans a.frame b.frame;
    rest = λ x m.
        let (m', n') = b.rest x m in
        let (m'', n) = a.rest x m' in
        (m'', λ k. elim (split x m'' k.1 k.0) [ inl y ↦ n (y, k.1) | inr y ↦ n' (y, k.1) ]);
    kept = λ x m n.
        let m' = a.kept x m (λ k. n (one x m k.1 k.0, k.1)) in
        b.kept x m' (λ k. n (two x m' k.1 k.0, k.1));
  }

  clear_chain-Cleared :
      (l : List NameEntry) (c : Cache) (todel : List NameEntry)
      → IsWf fnv nc_hard_limit c
      → Distinct l
      → ((x : NameEntry) → In x l → In x c.lru)
      → Cleared (λ x. In x l) c (clear_chain mnt l c todel).0
  unfolding clear_chain
  clear_chain-Cleared [] c todel w d sub = Cleared-none c w
  clear_chain-Cleared (e ∷ l) c todel w d sub = elim (Bool-cases (e.mnt == mnt)) [
    | inl y ↦
        let q : e.mnt ≡ mnt = ground arith in
        let a = Cleared-one c e w (sub e (inl refl)) q in
        rw (y, clear_chain)
          (Cleared-then (λ x. x ≡ e) (λ x. In x l) (λ x. In x (e ∷ l)) c (remove_entry c e) _
            (λ x m k h. h) (λ x m k h. inl h) (λ x m k h. inr h) a
            (clear_chain-Cleared l (remove_entry c e) (e ∷ todel) a.wf d.1
              λ x m. a.kept x (sub x (inr m)) λ k. d.0 x m (ap (λ (t : NameEntry). t.addr) k.0)))
    | inr n ↦
        rw (n, clear_chain)
          (Cleared-then (λ x. ⊥) (λ x. In x l) (λ x. In x (e ∷ l)) c c _
            (λ x m k h. elim h [
              | inl p ↦ absurd (ground (arith, ap (λ (t : NameEntry). t.mnt) p))
              | inr h' ↦ inr h'
            ])
            (λ x m k h. absurd h) (λ x m k h. inr h) (Cleared-none c w)
            (clear_chain-Cleared l c todel w d.1 (λ x m. sub x (inr m))))
  ]

  stays_off : (k i : ℕ) {b : Bool} → b ≡ false → stays b k i ≡ true
  stays_off k i h = ground arith

  abbrev at_slot : Cache → NameEntry → ℕ
  at_slot c x = slot (name_hash fnv) c.tbl.mask x

  clear_loop-Cleared :
      (n i : ℕ) (c : Cache) (todel : List NameEntry)
      → c.expanding ≡ false
      → IsWf fnv nc_hard_limit c
      → Cleared (λ x. (i ≤ at_slot c x) × (at_slot c x < i + n)) c (clear_loop n mnt i c todel).0
  unfolding clear_loop
  clear_loop-Cleared zero i c todel off w =
      Cleared-then (λ x. ⊥) (λ x. ⊥) _ c c c (λ x m k h. absurd (omega arith)) (λ x m k h. absurd h)
        (λ x m k h. absurd h) (Cleared-none c w) (Cleared-none c w)
  clear_loop-Cleared (suc n) i c todel off w =
      let a =
        clear_chain-Cleared (c.tbl.names i) c todel w (w.names.once i)
          (λ x m. (w.names.from_old x i m).0) in
      let r = clear_chain mnt (c.tbl.names i) c todel in
      let b = clear_loop-Cleared n (suc i) r.0 r.1 (a.still ∙ off) a.wf in
      let same = λ (x : NameEntry). ap (λ (k : ℕ). slot (name_hash fnv) k x) a.mask in
      Cleared-then (λ x. In x (c.tbl.names i)) _ _ c r.0 _
        (λ x m k h. elim (ℕ_discrete (at_slot c x) i) [
          | yes p ↦
              inl (subst (λ j. In x (c.tbl.names j)) p (w.names.to_old x m (stays_off _ _ off)))
          | no p ↦ inr (omega (arith, h, same x), omega (arith, h, same x))
        ])
        (λ x m k g. let q = (w.names.from_old x i g).1 in (omega (arith, q), omega (arith, q)))
        (λ x m k g. (omega (arith, g, same x), omega (arith, g, same x))) a b

  -- Once no expansion is under way, the removal of a mount leaves a well-formed cache with exactly
  -- the nodes of the other mounts.
  pub clear_mount-others :
      (c : Cache)
      → c.expanding ≡ false
      → IsWf fnv nc_hard_limit c
      → IsWf fnv nc_hard_limit (clear_mount c mnt).0
        × ((x : NameEntry) → In x (clear_mount c mnt).0.lru ↔ (In x c.lru × (x.mnt ≢ mnt)))
  unfolding clear_mount
  clear_mount-others c off w =
      let r = clear_loop-Cleared c.tbl.sz 0 c [] off w in
      let all = λ (x : NameEntry). bit_and-le (name_hash fnv x) c.tbl.mask in
      (
        r.wf,
        λ x. (
          λ m.
              let (m', n) = r.rest x m in
              (m', λ q. n ((omega arith, omega (arith, all x, w.masked)), q)),
          λ k. r.kept x k.0 (λ g. k.1 g.1),
        ),
      )

  pub clear_mount-Frame :
      (c : Cache) → c.expanding ≡ false → IsWf fnv nc_hard_limit c → Frame c (clear_mount c mnt).0
  unfolding clear_mount
  clear_mount-Frame c off w = (clear_loop-Cleared c.tbl.sz 0 c [] off w).frame
