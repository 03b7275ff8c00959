-- ===== src/Anode/Turn.antt =====
-- What free, undo and redo do to the tree: they turn one bit, and every count on the way.
use polarfs.Prelude.{
  ℕ, ◌+◌, ◌/◌, ◌%◌, ◌^◌, ◌<◌, ◌≡◌, refl, ap, ◌∙◌, Bool, true, false, List, not, ◌&&◌, arith, ◌==◌,
  if◌then◌else◌, get_or, set, length-set,
}
use polarfs.Prelude.Int.{pos, ◌+ℤ◌}
use polarfs.Anode.{
  Info, Anode, node, Children, nil, cons, info, nchild, first_shift, isfree_obj, nfree_inc_leaf,
  nfree_inc_inner, Delta, dec, inc, delta_ℤ, flip,
}
use polarfs.Anode.Counts.{bit, count, count-set, get_or-set}
use polarfs.Anode.Digits.{split_same, pow_pos}
use polarfs.Anode.Tree.{Has, ChildHas, is_free, child_free, free_count, total, span, IsWf, AllWf}

-- Object `w` of the tree `t` is free in `t'` if `b`, and taken if not; nothing else has changed.
pub record Turned (b : Bool) (t : Anode) (w : ℕ) (t' : Anode) : Type 0 where
  pub now : (u : ℕ) → is_free t' u ≡ (if u == w then b else is_free t u)
  pub counted : free_count t' + bit (not b) ≡ free_count t + bit b
  pub well : IsWf t'
  pub same_span : span t' ≡ span t
  pub same_id : (info t').id ≡ (info t).id
  pub same_shift : (info t').shift ≡ (info t).shift
  pub has : (u : ℕ) → Has t u → Has t' u

-- The same of child `j` of the children from number `k` on.
pub record ChildTurned (b : Bool) (k s : ℕ) (kids : Children) (j w : ℕ) (kids' : Children)
    : Type 0 where
  pub now : (m u : ℕ) → child_free kids' m u ≡ (if m == j && u == w then b else child_free kids m u)
  pub counted : total kids' + bit (not b) ≡ total kids + bit b
  pub well : AllWf k s kids'
  pub same_count : nchild kids' ≡ nchild kids
  pub same_first : first_shift kids' ≡ first_shift kids
  pub has : (m u : ℕ) → ChildHas kids m u → ChildHas kids' m u

abbrev pub delta_of : Bool → Delta
delta_of true = inc
delta_of false = dec

pub moved :
    (b : Bool) (m n : ℕ) → m + bit (not b) ≡ n + bit b → pos n +ℤ delta_ℤ (delta_of b) ≡ pos m
unfolding ◌+ℤ◌
moved true m n e = ground arith
moved false m n e = ground arith

-- The leaf after: its bit is turned and its next guess is `g`.
abbrev pub turn_leaf : Bool → (Info → ℕ → ℕ) → Info → ℕ → Info
turn_leaf b g i v = record (nfree_inc_leaf i v (delta_of b)) { next = g i v }

pub turned_bits :
    (b : Bool) (bits : List Bool) (v : ℕ)
    → get_or bits v false ≡ not b
    → flip (delta_of b) bits v ≡ set bits v b
turned_bits true bits v e = rw e refl
turned_bits false bits v e = rw e refl

pub leaf-Turned :
    (b : Bool) (g : Info → ℕ → ℕ) (i : Info) (v : ℕ)
    → IsWf (node i nil)
    → v < i.nall
    → isfree_obj i v ≡ not b
    → g i v < i.nall
    → Turned b (node i nil) v (node (turn_leaf b g i v) nil)
unfolding nfree_inc_leaf is_free free_count IsWf Has
leaf-Turned b g i v wf lt e guess = record {
  now = λ u. rw (turned_bits b i.bmp v e) (get_or-set i.bmp v u b (omega (arith, wf.0)));
  counted = rw (turned_bits b i.bmp v e) counted;
  well = (
    rw (turned_bits b i.bmp v e) (length-set i.bmp v b ∙ wf.0),
    rw (turned_bits b i.bmp v e, wf.1) (moved b (count (set i.bmp v b)) (count i.bmp) counted),
    guess,
  );
  same_span = refl;
  same_id = refl;
  same_shift = refl;
  has = λ u h. h;
}
  where
    counted : count (set i.bmp v b) + bit (not b) ≡ count i.bmp + bit b
    counted = omega (arith, count-set i.bmp v b (omega (arith, wf.0)), ap bit e)

pub inner-Turned :
    (b : Bool) (i : Info) (a : Anode) (more kids' : Children) (w : ℕ)
    → IsWf (node i (cons a more))
    → ChildTurned b 0
        (info a).shift
        (cons a more)
        (w / 2 ^ (info a).shift)
        (w % 2 ^ (info a).shift)
        kids'
    → Turned b (node i (cons a more)) w (node (nfree_inc_inner i (delta_of b)) kids')
unfolding IsWf is_free free_count nfree_inc_inner Has
inner-Turned b i a more nil w wf t = absurd (omega (arith, t.same_count))
inner-Turned b i a more (cons a' more') w wf t = record {
  now = λ u. rw (t.same_first) (
      t.now (u / p) (u % p)
      ∙ ap (λ c. if c then b else child_free (cons a more) (u / p) (u % p)) (same_object u));
  counted = t.counted;
  well = (
    rw wf.0 (moved b (total (cons a' more')) (total (cons a more)) t.counted),
    rw t.same_first t.well,
  );
  same_span = rw (t.same_first, t.same_count) refl;
  same_id = refl;
  same_shift = refl;
  has = λ u h. rw t.same_first (t.has (u / p) (u % p) h);
}
  where
    p : ℕ
    p = 2 ^ (info a).shift

    same_object : (u : ℕ) → (u / p == w / p && u % p == w % p) ≡ (u == w)
    same_object u = split_same p w u (pow_pos (info a).shift)
