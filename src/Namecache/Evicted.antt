-- ===== src/Namecache/Evicted.antt =====
-- Eviction keeps the first nodes of `lru`, by number, and returns the others.
use polarfs.Namecache.{NameEntry, Cache, get_nc_max, nc_hard_limit, remove_entry, unlink}
use polarfs.Namecache.Calls.{evict_one, last, evict_entries}
use polarfs.Namecache.Members.{In-last, last-none, unlink-last, length-unlink, cut_last}
use polarfs.Namecache.Frame.{Frame, Frame-refl, Frame-trans, evict_one-Frame}
use polarfs.Namecache.Wf.{IsWf, stats-IsWf, remove_entry-IsWf}
use polarfs.Prelude.{
  ℕ, zero, suc, ◌≤◌, ◌<◌, ◌^◌, false, List, [], ◌∷◌, ◌++◌, ◌≡◌, inl, inr, length, take, drop, arith,
  some, Bool-cases, Option-cases, refl, ap, ltb, sym, ◌∙◌, ltb→lt,
}

pub get_nc_max-le : (c : Cache) → get_nc_max c ≤ nc_hard_limit
unfolding get_nc_max
get_nc_max-le c = ground arith

module _ (fnv : List ℕ → ℕ → ℕ) (n : ℕ) where
  -- What `evict_entries` makes of a cache: the tables take part through `IsWf`.
  pub record Evicted (c c' : Cache) (todel todel' : List NameEntry) : Type 0 where
    pub wf : IsWf fnv n c'
    pub kept : c'.lru ≡ take (get_nc_max c) c.lru
    pub freed : todel' ≡ drop (get_nc_max c) c.lru ++ todel
    pub max : get_nc_max c' ≡ get_nc_max c
    pub frame : Frame c c'

  not_ltb : {a b : ℕ} → ltb a b ≡ false → b ≤ a
  not_ltb h = ground arith

  take_all : (k : ℕ) (l : List NameEntry) → length l ≤ k → (take k l ≡ l) × (drop k l ≡ [])
  take_all zero [] h = (refl, refl)
  take_all zero (e ∷ l) h = absurd (omega arith)
  take_all (suc k) [] h = (refl, refl)
  take_all (suc k) (e ∷ l) h = let r = take_all k l (omega arith) in (ap (◌∷◌ e) r.0, r.1)

  evict_one-IsWf :
      (c : Cache) (x : NameEntry)
      → n < 2 ^ 64
      → last c.lru ≡ some x
      → IsWf fnv n c
      → IsWf fnv n (evict_one c x)
  unfolding evict_one
  evict_one-IsWf c x lt e w =
      stats-IsWf fnv n (remove_entry c x) _ (remove_entry-IsWf fnv n c x lt (In-last x c.lru e) w)

  lru-evict_one : (c : Cache) (x : NameEntry) → (evict_one c x).lru ≡ unlink x.addr c.lru
  unfolding evict_one
  lru-evict_one c x = refl

  get_nc_max-evict_one : (c : Cache) (x : NameEntry) → get_nc_max (evict_one c x) ≡ get_nc_max c
  unfolding evict_one get_nc_max
  get_nc_max-evict_one c x = refl

  -- What is evicted next is the last node behind the cut.
  Evicted-one :
      (c c' : Cache) (x : NameEntry) (todel todel' : List NameEntry)
      → get_nc_max c < length c.lru
      → last c.lru ≡ some x
      → IsWf fnv n c
      → Evicted (evict_one c x) c' (x ∷ todel) todel'
      → Evicted c c' todel todel'
  Evicted-one c c' x todel todel' lt e w v =
      let q = unlink-last x c.lru w.distinct e in
      let r = cut_last (get_nc_max c) x c.lru (unlink x.addr c.lru) todel q lt in
      record {
        wf = v.wf;
        kept = (rw (get_nc_max-evict_one c x, lru-evict_one c x) at v.kept) ∙ r.0;
        freed = (rw (get_nc_max-evict_one c x, lru-evict_one c x) at v.freed) ∙ r.1;
        max = v.max ∙ get_nc_max-evict_one c x;
        frame = Frame-trans (evict_one-Frame c x) v.frame;
      }

  pub evict_entries-Evicted :
      (fuel : ℕ) (c : Cache) (todel : List NameEntry)
      → n < 2 ^ 64
      → length c.lru ≤ fuel
      → IsWf fnv n c
      → Evicted c (evict_entries fuel c todel).0 todel (evict_entries fuel c todel).1
  unfolding evict_entries
  evict_entries-Evicted zero c todel lt f w =
      let r = take_all (get_nc_max c) c.lru (omega arith) in
      record { wf = w; kept = sym r.0; freed = rw r.1; max = refl; frame = Frame-refl c }
  evict_entries-Evicted (suc fuel) c todel lt f w =
      elim (Bool-cases (ltb (get_nc_max c) c.numcache)) [
        | inr m ↦
            let r = take_all (get_nc_max c) c.lru (omega (arith, not_ltb m, w.counted)) in
            rw (m, evict_entries)
              (record { wf = w; kept = sym r.0; freed = rw r.1; max = refl; frame = Frame-refl c })
        | inl l ↦ elim (Option-cases (last c.lru)) [
          | inl e ↦ absurd (omega (arith, ltb→lt _ _ l, w.counted, ap length (last-none c.lru e)))
          | inr (x, e) ↦
              let m = ltb→lt _ _ l in
              let e' = length-unlink x c.lru w.distinct (In-last x c.lru e) in
              rw (l, e, evict_entries)
                (Evicted-one c _ x todel _ (omega (arith, m, w.counted)) e w (
                  evict_entries-Evicted fuel (evict_one c x) (x ∷ todel) lt
                    (rw (lru-evict_one c x) (omega arith)) (evict_one-IsWf c x lt e w)))
        ]
      ]
