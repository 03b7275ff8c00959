-- ===== src/Anode/Taken.antt =====
-- An allocation takes one free object, through all levels of the tree.
use mathlib.Core.Path.{subst}
use native.Mathlib.Nat.{mod-eq_of_lt, zero-add, add-zero}
use polarfs.Prelude.Errno.{Errno}
use polarfs.Prelude.Bits.{bit_or-shifted}
use polarfs.Prelude.{
  ℕ, zero, suc, ◌+◌, ◌*◌, ◌/◌, ◌%◌, ◌^◌, ◌<◌, ◌≡◌, refl, sym, ap, ◌∙◌, Bool, false, ◌&&◌, inl, inr,
  ◌⊎◌, arith, ◌==◌, if◌then◌else◌,
}
use polarfs.Anode.{
  Info, Anode, node, Children, nil, cons, info, nchild, mono_make, nfree_inc_inner, dec, Outcome,
  got, refused, hit, inner_alloc, leaf_alloc, alloc, alloc_nth,
}
use polarfs.Anode.Digits.{split_parts, split_at, within}
use polarfs.Anode.Tree.{
  Has, ChildHas, is_free, child_free, free_count, total, span, Fits, IsWf, AllWf,
}
use polarfs.Anode.Alloc.{
  Takes, ChildTakes, leaf_alloc-Takes, inner_alloc-got, one_less, Attempt-cases,
}

-- A child's value is its own number, with its index in front.
child_value :
    (k s w : ℕ) (a : Anode) → Fits k s a → w < span a → mono_make (info a) w ≡ k * 2 ^ s + w
unfolding mono_make
child_value k s w a f lt =
    rw (f.id, f.shift, mod-eq_of_lt f.word) (bit_or-shifted s k w (omega (arith, f.room)))

-- A value that Fits says the same of the tree after.
Takes-Fits : {k s w : ℕ} {a a' : Anode} → Fits k s a → Takes a w a' → Fits k s a'
Takes-Fits f t = record {
  id = t.same_id ∙ f.id;
  shift = t.same_shift ∙ f.shift;
  room = omega (arith, f.room, t.same_span);
  word = f.word;
}

-- Child `j` of an inner node takes the object, and the node's count follows.
inner-Takes :
    (i : Info) (a : Anode) (more kids' : Children) (j w : ℕ)
    → IsWf (node i (cons a more))
    → ChildTakes 0 (info a).shift (cons a more) j w kids'
    → Takes (node i (cons a more)) (j * 2 ^ (info a).shift + w) (node (nfree_inc_inner i dec) kids')
unfolding IsWf is_free free_count nfree_inc_inner Has
inner-Takes i a more nil j w wf t = absurd (omega (arith, t.same_count))
inner-Takes i a more (cons a' more') j w wf t = record {
  below = within p j w (suc (nchild more)) t.below t.among;
  was_free = rw (parts.0, parts.1) t.was_free;
  now = λ u. rw (t.same_first) (
      t.now (u / p) (u % p)
      ∙ ap (λ b. if b then false else child_free (cons a more) (u / p) (u % p))
          (split_at p j w u t.below));
  fewer = t.fewer;
  well = (
    rw wf.0 (one_less (total (cons a' more')) (total (cons a more)) t.fewer),
    rw t.same_first t.well,
  );
  same_span = rw (t.same_first, t.same_count);
  same_id = refl;
  same_shift = refl;
  has = λ u h. rw t.same_first (t.has (u / p) (u % p) h);
}
  where
    p : ℕ
    p = 2 ^ (info a).shift

    parts : ((j * p + w) / p ≡ j) × ((j * p + w) % p ≡ w)
    parts = split_parts p j w t.below

Outcome-cases :
    (r : Outcome) → ((x : ℕ) × (t : Anode) × (r ≡ got x t)) ⊎ ((e : Errno) × (r ≡ refused e))
Outcome-cases (got x t) = inl (x, t, refl)
Outcome-cases (refused e) = inr (e, refl)

shift_index : (k j : ℕ) → k + 1 + j ≡ k + suc j
shift_index k j = omega arith

module _ (accepts : ℕ → ℕ → Bool) where
  alloc_leaf : (i : Info) → alloc accepts (node i nil) ≡ leaf_alloc accepts i
  unfolding alloc
  alloc_leaf i = refl

  alloc_nth_nil : (j v : ℕ) (kids : Children) → alloc_nth accepts nil j ≡ hit v kids → ⊥
  unfolding alloc
  alloc_nth_nil j v kids e = cc

  alloc_nth-zero :
      (a : Anode) (more kids' : Children) (v : ℕ)
      → alloc_nth accepts (cons a more) 0 ≡ hit v kids'
      → (a' : Anode) × (alloc accepts a ≡ got v a') × (kids' ≡ cons a' more)
  unfolding alloc
  alloc_nth-zero a more kids' v e = elim (Outcome-cases (alloc accepts a)) [
    | inl (x, a', h) ↦ (a', ground arith, ground arith)
    | inr (f, h) ↦ absurd (ground arith)
  ]

  alloc_nth-suc :
      (a : Anode) (more kids' : Children) (j v : ℕ)
      → alloc_nth accepts (cons a more) (suc j) ≡ hit v kids'
      → (more' : Children) × (alloc_nth accepts more j ≡ hit v more') × (kids' ≡ cons a more')
  unfolding alloc
  alloc_nth-suc a more kids' j v e = elim (Attempt-cases (alloc_nth accepts more j)) [
    | inl (x, more', h) ↦ (more', ground arith, ground arith)
    | inr h ↦ absurd (ground arith)
  ]

  alloc_inner :
      (i : Info) (a : Anode) (more : Children)
      → alloc accepts (node i (cons a more))
        ≡ inner_alloc accepts i (cons a more) (alloc_nth accepts (cons a more))
  unfolding alloc
  alloc_inner i a more = refl

first-AllWf : (k s : ℕ) (a : Anode) (more : Children) → AllWf k s (cons a more) → (info a).shift ≡ s
unfolding IsWf
first-AllWf k s a more wf = wf.1.shift

head-ChildTakes :
    (k s w : ℕ) (a a' : Anode) (more : Children)
    → AllWf k s (cons a more)
    → Takes a w a'
    → ChildTakes k s (cons a more) 0 w (cons a' more)
unfolding IsWf is_free free_count Has
head-ChildTakes k s w a a' more wf t = record {
  below = omega (arith, t.below, wf.1.room);
  among = omega arith;
  was_free = t.was_free;
  now = λ m u. now m u;
  fewer = omega (arith, t.fewer);
  well = (t.well, Takes-Fits wf.1 t, wf.2);
  same_count = refl;
  same_first = t.same_shift;
  has = has;
}
  where
    now :
        (m u : ℕ)
        → child_free (cons a' more) m u
          ≡ (if m == 0 && u == w then false else child_free (cons a more) m u)
    now zero u = ground (arith, t.now u)
    now (suc m) u = ground arith

    has : (m u : ℕ) → ChildHas (cons a more) m u → ChildHas (cons a' more) m u
    has zero u = t.has u
    has (suc m) u = λ h. h

tail-ChildTakes :
    (k s j w : ℕ) (a : Anode) (more more' : Children)
    → AllWf k s (cons a more)
    → ChildTakes (k + 1) s more j w more'
    → ChildTakes k s (cons a more) (suc j) w (cons a more')
unfolding IsWf is_free free_count Has
tail-ChildTakes k s j w a more more' wf t = record {
  below = t.below;
  among = omega (arith, t.among);
  was_free = t.was_free;
  now = λ m u. now m u;
  fewer = omega (arith, t.fewer);
  well = (wf.0, wf.1, t.well);
  same_count = ap suc t.same_count;
  same_first = refl;
  has = has;
}
  where
    now :
        (m u : ℕ)
        → child_free (cons a more') m u
          ≡ (if m == suc j && u == w then false else child_free (cons a more) m u)
    now zero u = ground arith
    now (suc m) u = ground (arith, t.now m u)

    has : (m u : ℕ) → ChildHas (cons a more) m u → ChildHas (cons a more') m u
    has zero u = λ h. h
    has (suc m) u = t.has m u

mutual
  unfolding IsWf

  -- Allocation from a node.
  alloc_taken :
      (accepts : ℕ → ℕ → Bool) (t : Anode) (x : ℕ) (t' : Anode)
      → IsWf t
      → alloc accepts t ≡ got x t'
      → (w : ℕ) × (x ≡ mono_make (info t) w) × Takes t w t'
  alloc_taken accepts (node i nil) x t' wf e =
      leaf_alloc-Takes accepts i x t' wf (sym (alloc_leaf accepts i) ∙ e)
  alloc_taken accepts (node i (cons a more)) x t' wf e =
      let (j, v, kids', h, value, tree) =
        inner_alloc-got accepts i (cons a more) (alloc_nth accepts (cons a more)) x t'
          (sym (alloc_inner accepts i a more) ∙ e) in
      let (w, index, taken) =
        alloc_nth_taken accepts 0 (info a).shift (cons a more) j v kids' wf.1 h in
      (
        j * 2 ^ (info a).shift + w,
        value ∙ ap (mono_make i) (index ∙ ap (λ n. n * 2 ^ (info a).shift + w) (zero-add j)),
        subst (Takes (node i (cons a more)) (j * 2 ^ (info a).shift + w)) (sym tree)
            (inner-Takes i a more kids' j w wf taken),
      )

  -- Allocation from child `j`.
  alloc_nth_taken :
      (accepts : ℕ → ℕ → Bool) (k s : ℕ) (kids : Children) (j v : ℕ) (kids' : Children)
      → AllWf k s kids
      → alloc_nth accepts kids j ≡ hit v kids'
      → (w : ℕ) × (v ≡ (k + j) * 2 ^ s + w) × ChildTakes k s kids j w kids'
  alloc_nth_taken accepts k s nil j v kids' wf e = absurd (alloc_nth_nil accepts j v kids' e)
  alloc_nth_taken accepts k s (cons a more) zero v kids' wf e =
      let (a', h, same) = alloc_nth-zero accepts a more kids' v e in
      let (w, value, taken) = alloc_taken accepts a v a' wf.0 h in
      (
        w,
        value ∙ child_value k s w a wf.1 taken.below ∙ ap (λ n. n * 2 ^ s + w) (sym (add-zero k)),
        subst (ChildTakes k s (cons a more) 0 w) (sym same)
            (head-ChildTakes k s w a a' more wf taken),
      )
  alloc_nth_taken accepts k s (cons a more) (suc j) v kids' wf e =
      let (more', h, same) = alloc_nth-suc accepts a more kids' j v e in
      let (w, value, taken) = alloc_nth_taken accepts (k + 1) s more j v more' wf.2 h in
      (
        w,
        value ∙ ap (λ n. n * 2 ^ s + w) (shift_index k j),
        subst (ChildTakes k s (cons a more) (suc j) w) (sym same)
            (tail-ChildTakes k s j w a more more' wf taken),
      )

-- From a well-formed tree, an allocation that succeeds returns the number of an object that was free
-- (the root's id in front of it); that object is free no longer, every other object is as before,
-- there is one free object less, and the tree is well formed again.
pub alloc-Takes :
    (accepts : ℕ → ℕ → Bool) (t : Anode) (x : ℕ) (t' : Anode)
    → IsWf t
    → alloc accepts t ≡ got x t'
    → (w : ℕ) × (x ≡ mono_make (info t) w) × Takes t w t'
alloc-Takes = alloc_taken
