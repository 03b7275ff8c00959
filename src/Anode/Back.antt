-- ===== src/Anode/Back.antt =====
-- Allocation and free, redo and undo: each gives back what the other took.
use polarfs.Prelude.{
  ℕ, ◌+◌, ◌≡◌, refl, ap, Bool, true, false, not, some, arith, ◌==◌, if◌then◌else◌,
}
use native.Mathlib.Decide.{ℕ_discrete}
use polarfs.Anode.{Anode, info, mono_make, got, alloc, free, undo, redo}
use polarfs.Anode.Counts.{bit}
use polarfs.Anode.Tree.{Has, is_free, free_count, IsWf, is_free-Has}
use polarfs.Anode.Taken.{alloc-Takes}
use polarfs.Anode.Turn.{Turned, delta_of}
use polarfs.Anode.Freed.{free-Turned, redo-Turned, undo-Turned}

-- The same objects are free in both trees, and the second is well formed.
pub record SameFree (t u : Anode) : Type 0 where
  pub same : (w : ℕ) → is_free u w ≡ is_free t w
  pub count : free_count u ≡ free_count t
  pub well : IsWf u

not-not : (b : Bool) → not (not b) ≡ b
not-not true = refl
not-not false = refl

turned_twice :
    (b : Bool) (w u : ℕ) (f g h : ℕ → Bool)
    → f w ≡ not b
    → g u ≡ (if u == w then b else f u)
    → h u ≡ (if u == w then not b else g u)
    → h u ≡ f u
turned_twice b w u f g h e p q = elim (ℕ_discrete u w) [
  | yes same ↦ ground (arith, ap f same)
  | no other ↦ ground arith
]

-- If `pfs_anode_alloc` gets an object from a well-formed tree, then `pfs_anode_free` of that object
-- succeeds, and the same objects are free as before the allocation, in a well-formed tree.
pub free-alloc :
    (accepts : ℕ → ℕ → Bool) (t : Anode) (x : ℕ) (t' : Anode)
    → IsWf t
    → alloc accepts t ≡ got x t'
    → (w : ℕ) × (u : Anode) × (x ≡ mono_make (info t) w) × (free t' w ≡ some u) × SameFree t u
free-alloc accepts t x t' wf e =
    let (w, value, taken) = alloc-Takes accepts t x t' wf e in
    let (u, freed, turned) =
      free-Turned t' w taken.well (taken.has w (is_free-Has t w wf taken.was_free))
        (ground (arith, taken.now w)) in
    (
      w,
      u,
      value,
      freed,
      record {
        same = λ v.
            turned_twice false w v (is_free t) (is_free t') (is_free u) taken.was_free (taken.now v)
              (turned.now v);
        count = omega (arith, taken.fewer, turned.counted);
        well = turned.well;
      },
    )

-- In a well-formed tree, `pfs_anode_redo` with delta +1 (`b` true) of an object that is taken, or
-- with delta -1 of one that is free, turns that object alone, and `pfs_anode_undo` with the opposite
-- delta then succeeds: the same objects are free as before, in a well-formed tree.
pub undo-redo :
    (b : Bool) (t : Anode) (w : ℕ)
    → IsWf t
    → Has t w
    → is_free t w ≡ not b
    → (t' : Anode) × (u : Anode) × (redo (delta_of b) t w ≡ some t')
      × Turned b t w t'
      × (undo (delta_of (not b)) t' w ≡ some u)
      × SameFree t u
undo-redo b t w wf has e =
    let (t', redone, turned) = redo-Turned b t w wf has e in
    let (u, undone, back) =
      undo-Turned (not b) t' w turned.well (turned.has w has) (now_b t' turned) in
    (
      t',
      u,
      redone,
      turned,
      undone,
      record {
        same = λ v.
            turned_twice b w v (is_free t) (is_free t') (is_free u) e (turned.now v) (back.now v);
        count =
            restored (free_count t) (free_count t') (free_count u) b turned.counted back.counted;
        well = back.well;
      },
    )
  where
    now_b : (t' : Anode) → Turned b t w t' → is_free t' w ≡ not (not b)
    now_b t' turned = ground (arith, turned.now w, not-not b)

    restored :
        (m n k : ℕ) (c : Bool)
        → n + bit (not c) ≡ m + bit c
        → k + bit (not (not c)) ≡ n + bit (not c)
        → k ≡ m
    restored m n k true p q = omega arith
    restored m n k false p q = omega arith
