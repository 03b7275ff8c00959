-- ===== src/Anode/Freed.antt =====
-- src/pfs_core/pfs_alloc.cc: `pfs_anode_free`, `pfs_anode_undo` and `pfs_anode_redo` find the object
-- and give it back, or take it, through all levels of the tree.
use polarfs.Prelude.{
  ℕ, zero, suc, ◌+◌, ◌/◌, ◌%◌, ◌^◌, ◌<◌, ◌≡◌, refl, ap, ◌∙◌, Bool, true, false, not, ◌&&◌, some,
  arith, ◌==◌, if◌then◌else◌, min,
}
use polarfs.Anode.{
  Info, Anode, node, Children, nil, cons, info, nfree_inc_inner, Delta, at_leaf, at_child, free,
  undo, redo,
}
use polarfs.Anode.Tree.{Has, ChildHas, is_free, child_free, free_count, Fits, IsWf, AllWf}
use polarfs.Anode.Turn.{Turned, ChildTurned, delta_of, turn_leaf, leaf-Turned, inner-Turned}

Turned-Fits : {b : Bool} {k s w : ℕ} {a a' : Anode} → Fits k s a → Turned b a w a' → Fits k s a'
Turned-Fits f t = record {
  id = t.same_id ∙ f.id;
  shift = t.same_shift ∙ f.shift;
  room = omega (arith, f.room, t.same_span);
  word = f.word;
}

head-ChildTurned :
    (b : Bool) (k s w : ℕ) (a a' : Anode) (more : Children)
    → AllWf k s (cons a more)
    → Turned b a w a'
    → ChildTurned b k s (cons a more) 0 w (cons a' more)
unfolding IsWf is_free free_count Has
head-ChildTurned b k s w a a' more wf t = record {
  now = now;
  counted = omega (arith, t.counted);
  well = (t.well, Turned-Fits wf.1 t, wf.2);
  same_count = refl;
  same_first = t.same_shift;
  has = has;
}
  where
    now :
        (m u : ℕ)
        → child_free (cons a' more) m u
          ≡ (if m == 0 && u == w then b else child_free (cons a more) m u)
    now zero u = ground (arith, t.now u)
    now (suc m) u = ground arith

    has : (m u : ℕ) → ChildHas (cons a more) m u → ChildHas (cons a' more) m u
    has zero u = t.has u
    has (suc m) u = λ h. h

tail-ChildTurned :
    (b : Bool) (k s j w : ℕ) (a : Anode) (more more' : Children)
    → AllWf k s (cons a more)
    → ChildTurned b (k + 1) s more j w more'
    → ChildTurned b k s (cons a more) (suc j) w (cons a more')
unfolding IsWf is_free free_count Has
tail-ChildTurned b k s j w a more more' wf t = record {
  now = now;
  counted = omega (arith, t.counted);
  well = (wf.0, wf.1, t.well);
  same_count = ap suc t.same_count;
  same_first = refl;
  has = has;
}
  where
    now :
        (m u : ℕ)
        → child_free (cons a more') m u
          ≡ (if m == suc j && u == w then b else child_free (cons a more) m u)
    now zero u = ground arith
    now (suc m) u = ground (arith, t.now m u)

    has : (m u : ℕ) → ChildHas (cons a more) m u → ChildHas (cons a more') m u
    has zero u = λ h. h
    has (suc m) u = t.has m u

first_shift-AllWf :
    (k s : ℕ) (a : Anode) (more : Children) → AllWf k s (cons a more) → (info a).shift ≡ s
unfolding IsWf
first_shift-AllWf k s a more wf = wf.1.shift

module _ (leaf : Info → ℕ → Info) (d : Delta) where
  at_leaf_leaf : (i : Info) (v : ℕ) → at_leaf leaf d (node i nil) v ≡ some (node (leaf i v) nil)
  unfolding at_leaf
  at_leaf_leaf i v = refl

  at_leaf_inner :
      (i : Info) (a : Anode) (more kids : Children) (v : ℕ)
      → at_child leaf d (cons a more) (v / 2 ^ (info a).shift) v ≡ some kids
      → at_leaf leaf d (node i (cons a more)) v ≡ some (node (nfree_inc_inner i d) kids)
  unfolding at_leaf
  at_leaf_inner i a more kids v e = ground arith

  at_child-zero :
      (a a' : Anode) (more : Children) (v : ℕ)
      → at_leaf leaf d a (v % 2 ^ (info a).shift) ≡ some a'
      → at_child leaf d (cons a more) 0 v ≡ some (cons a' more)
  unfolding at_leaf
  at_child-zero a a' more v e = ground arith

  at_child-suc :
      (a : Anode) (more more' : Children) (j v : ℕ)
      → at_child leaf d more j v ≡ some more'
      → at_child leaf d (cons a more) (suc j) v ≡ some (cons a more')
  unfolding at_leaf
  at_child-suc a more more' j v e = ground arith

-- The next guess that is left is an object of the leaf.
abbrev pub Guesses : (Info → ℕ → ℕ) → Type 0
Guesses g = (i : Info) (v : ℕ) → v < i.nall → i.next < i.nall → g i v < i.nall

mutual
  unfolding IsWf Has is_free

  at_leaf-Turned :
      (b : Bool) (g : Info → ℕ → ℕ) (t : Anode) (w : ℕ)
      → Guesses g
      → IsWf t
      → Has t w
      → is_free t w ≡ not b
      → (t' : Anode) × (at_leaf (turn_leaf b g) (delta_of b) t w ≡ some t') × Turned b t w t'
  at_leaf-Turned b g (node i nil) w gs wf has e = (
    node (turn_leaf b g i w) nil,
    at_leaf_leaf (turn_leaf b g) (delta_of b) i w,
    leaf-Turned b g i w wf has e (gs i w has wf.2),
  )
  at_leaf-Turned b g (node i (cons a more)) w gs wf has e =
      let (kids', h, turned) =
        at_child-ChildTurned b g 0 (info a).shift (cons a more) (w / 2 ^ (info a).shift) w gs wf.1
          has e in
      (
        node (nfree_inc_inner i (delta_of b)) kids',
        at_leaf_inner (turn_leaf b g) (delta_of b) i a more kids' w h,
        inner-Turned b i a more kids' w wf turned,
      )

  at_child-ChildTurned :
      (b : Bool) (g : Info → ℕ → ℕ) (k s : ℕ) (kids : Children) (j v : ℕ)
      → Guesses g
      → AllWf k s kids
      → ChildHas kids j (v % 2 ^ s)
      → child_free kids j (v % 2 ^ s) ≡ not b
      → (kids' : Children) × (at_child (turn_leaf b g) (delta_of b) kids j v ≡ some kids')
        × ChildTurned b k s kids j (v % 2 ^ s) kids'
  at_child-ChildTurned b g k s nil j v gs wf has e = absurd has
  at_child-ChildTurned b g k s (cons a more) zero v gs wf has e =
      let (a', h, turned) = at_leaf-Turned b g a (v % 2 ^ s) gs wf.0 has e in
      (
        cons a' more,
        at_child-zero (turn_leaf b g) (delta_of b) a a' more v
            (rw (first_shift-AllWf k s a more wf) h),
        head-ChildTurned b k s (v % 2 ^ s) a a' more wf turned,
      )
  at_child-ChildTurned b g k s (cons a more) (suc j) v gs wf has e =
      let (more', h, turned) = at_child-ChildTurned b g (k + 1) s more j v gs wf.2 has e in
      (
        cons a more',
        at_child-suc (turn_leaf b g) (delta_of b) a more more' j v h,
        tail-ChildTurned b k s j (v % 2 ^ s) a more more' wf turned,
      )

-- Given the number of an object that is taken, in a well-formed tree, `pfs_anode_free` runs into no
-- assertion, and of the objects only that one changes: it is free; there is one free object more,
-- and the tree is well formed again.
pub free-Turned :
    (t : Anode) (w : ℕ)
    → IsWf t
    → Has t w
    → is_free t w ≡ false
    → (t' : Anode) × (free t w ≡ some t') × Turned true t w t'
unfolding free
free-Turned t w wf has e =
    at_leaf-Turned true (λ i v. min v i.next) t w (λ i v p q. omega arith) wf has e

pub redo-Turned :
    (b : Bool) (t : Anode) (w : ℕ)
    → IsWf t
    → Has t w
    → is_free t w ≡ not b
    → (t' : Anode) × (redo (delta_of b) t w ≡ some t') × Turned b t w t'
unfolding redo
redo-Turned b t w wf has e = at_leaf-Turned b (λ i v. 0) t w (λ i v p q. omega arith) wf has e

pub undo-Turned :
    (b : Bool) (t : Anode) (w : ℕ)
    → IsWf t
    → Has t w
    → is_free t w ≡ not b
    → (t' : Anode) × (undo (delta_of b) t w ≡ some t') × Turned b t w t'
unfolding undo
undo-Turned b t w wf has e = at_leaf-Turned b (λ i v. 0) t w (λ i v p q. omega arith) wf has e
