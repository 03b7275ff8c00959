-- ===== src/Anode/Alloc.antt =====
-- What an allocation does to the tree.
use mathlib.Core.Path.{subst}
use polarfs.Prelude.Errno.{ebusy}
use polarfs.Prelude.{
  ℕ, zero, suc, ◌+◌, ◌^◌, ◌<◌, ◌≡◌, refl, sym, ◌∙◌, Bool, true, false, not, ◌&&◌, inl, inr, ◌⊎◌,
  none, some, arith, ◌==◌, if◌then◌else◌, get_or, set, length-set, Option-cases,
}
use polarfs.Prelude.Int.{pos, negsuc, ◌+ℤ◌}
use polarfs.Anode.{
  Info, Anode, node, Children, nil, info, nchild, first_shift, isfree_obj, leaf_scan, leaf_alloc,
  mono_make, nfree_inc_leaf, nfree_inc_inner, dec, got, refused, Attempt, hit, miss, inner_alloc,
  max_child, wrap, try_loop,
}
use polarfs.Anode.Counts.{count, count-set, get_or-set}
use polarfs.Anode.Leaf.{offers, leaf_scan-offers}
use polarfs.Anode.Tree.{Has, ChildHas, is_free, child_free, free_count, total, span, IsWf, AllWf}

-- Object `w` of the tree `t` was free and is taken in `t'`; nothing else has changed.
pub record Takes (t : Anode) (w : ℕ) (t' : Anode) : Type 0 where
  pub below : w < span t
  pub was_free : is_free t w ≡ true
  pub now : (u : ℕ) → is_free t' u ≡ (if u == w then false else is_free t u)
  pub fewer : free_count t' + 1 ≡ free_count t
  pub well : IsWf t'
  pub same_span : span t' ≡ span t
  pub same_id : (info t').id ≡ (info t).id
  pub same_shift : (info t').shift ≡ (info t).shift
  pub has : (u : ℕ) → Has t u → Has t' u

-- The same of child `j` of the children from number `k` on.
pub record ChildTakes (k s : ℕ) (kids : Children) (j w : ℕ) (kids' : Children) : Type 0 where
  pub below : w < 2 ^ s
  pub among : j < nchild kids
  pub was_free : child_free kids j w ≡ true
  pub now :
      (m u : ℕ) → child_free kids' m u ≡ (if m == j && u == w then false else child_free kids m u)
  pub fewer : total kids' + 1 ≡ total kids
  pub well : AllWf k s kids'
  pub same_count : nchild kids' ≡ nchild kids
  pub same_first : first_shift kids' ≡ first_shift kids
  pub has : (m u : ℕ) → ChildHas kids m u → ChildHas kids' m u

pub one_less : (m n : ℕ) → m + 1 ≡ n → pos n +ℤ negsuc 0 ≡ pos m
unfolding ◌+ℤ◌
one_less m n e = ground arith

got-injective : {x y : ℕ} {t u : Anode} → got x t ≡ got y u → (x ≡ y) × (t ≡ u)
got-injective e = (ground arith, ground arith)

pub Attempt-cases : (a : Attempt) → ((v : ℕ) × (kids : Children) × (a ≡ hit v kids)) ⊎ (a ≡ miss)
Attempt-cases (hit v kids) = inl (v, kids, refl)
Attempt-cases miss = inr refl

leaf-next : (i : Info) → IsWf (node i nil) → i.next < i.nall
unfolding IsWf
leaf-next i wf = wf.2

module _ (accepts : ℕ → ℕ → Bool) where
  offers-free : (i : Info) (v : ℕ) → offers accepts i v ≡ true → isfree_obj i v ≡ true
  offers-free i v e = ground arith

  leaf_taken : Info → ℕ → ℕ → Anode
  leaf_taken i v nxt = node (record (nfree_inc_leaf i v dec) { next = nxt }) nil

  leaf_taken-Takes :
      (i : Info) (v nxt : ℕ)
      → IsWf (node i nil)
      → isfree_obj i v ≡ true
      → v < i.nall
      → nxt < i.nall
      → Takes (node i nil) v (leaf_taken i v nxt)
  unfolding leaf_taken nfree_inc_leaf is_free free_count IsWf Has
  leaf_taken-Takes i v nxt wf free lt lt' = record {
    below = lt;
    was_free = free;
    now = λ u. ground (arith, get_or-set i.bmp v u false (omega (arith, wf.0)));
    fewer = rw free counted;
    well = (
      length-set i.bmp v (not (get_or i.bmp v false)) ∙ wf.0,
      rw (wf.1, free) (one_less (count (set i.bmp v false)) (count i.bmp) counted),
      lt',
    );
    same_span = refl;
    same_id = refl;
    same_shift = refl;
    has = λ u h. h;
  }
    where
      counted : count (set i.bmp v false) + 1 ≡ count i.bmp
      counted = ground (arith, count-set i.bmp v false (omega (arith, wf.0)))

  leaf_alloc-some :
      (i : Info) (v nxt : ℕ)
      → leaf_scan accepts i i.nall i.next ≡ some (v, nxt)
      → leaf_alloc accepts i ≡ got (mono_make i v) (leaf_taken i v nxt)
  unfolding leaf_alloc leaf_taken
  leaf_alloc-some i v nxt e = rw (e, leaf_alloc)

  leaf_alloc-none :
      (i : Info) → leaf_scan accepts i i.nall i.next ≡ none → leaf_alloc accepts i ≡ refused ebusy
  unfolding leaf_alloc
  leaf_alloc-none i e = rw (e, leaf_alloc)

  pub leaf_alloc-Takes :
      (i : Info) (x : ℕ) (t' : Anode)
      → IsWf (node i nil)
      → leaf_alloc accepts i ≡ got x t'
      → (v : ℕ) × (x ≡ mono_make i v) × Takes (node i nil) v t'
  leaf_alloc-Takes i x t' wf e = elim (Option-cases (leaf_scan accepts i i.nall i.next)) [
    | inl no_object ↦ cc (leaf_alloc-none i no_object)
    | inr ((v, nxt), found) ↦
        let (free, lt, lt') =
          leaf_scan-offers accepts i i.nall i.next v nxt found (leaf-next i wf) in
        let (same_value, same_tree) = got-injective (sym (leaf_alloc-some i v nxt found) ∙ e) in
        (
          v,
          sym same_value,
          subst (Takes (node i nil) v) same_tree
              (leaf_taken-Takes i v nxt wf (offers-free i v free) lt lt'),
        )
  ]

  -- What a successful round of the second loop gives.
  try_loop-got :
      (i : Info) (kids : Children) (try : ℕ → Attempt) (m n k x : ℕ) (t' : Anode)
      → try_loop accepts i kids try m n k ≡ got x t'
      → (j : ℕ) × (v : ℕ) × (kids' : Children) × (try j ≡ hit v kids')
        × (x ≡ mono_make i v)
        × (t' ≡ node (nfree_inc_inner i dec) kids')
  unfolding try_loop
  try_loop-got i kids try m zero k x t' e = cc
  try_loop-got i kids try m (suc n) k x t' e = elim (Attempt-cases (try k)) [
    | inl (v, kids', h) ↦ (k, v, kids', h, ground arith, ground arith)
    | inr h ↦ try_loop-got i kids try m n (wrap k (nchild kids)) x t' (ground arith)
  ]

  pub inner_alloc-got :
      (i : Info) (kids : Children) (try : ℕ → Attempt) (x : ℕ) (t' : Anode)
      → inner_alloc accepts i kids try ≡ got x t'
      → (j : ℕ) × (v : ℕ) × (kids' : Children) × (try j ≡ hit v kids')
        × (x ≡ mono_make i v)
        × (t' ≡ node (nfree_inc_inner i dec) kids')
  unfolding inner_alloc
  inner_alloc-got i kids try x t' e = elim (Option-cases (max_child accepts kids 0 (pos 0) none)) [
    | inl h ↦ absurd (ground arith)
    | inr (m, h) ↦ try_loop-got i kids try m (nchild kids) m x t' (ground arith)
  ]
