-- ===== src/Anode/Tree.antt =====
-- The tree as a set of free objects, and when it is well formed.
use polarfs.Prelude.{
  ℕ, zero, suc, ◌+◌, ◌*◌, ◌/◌, ◌%◌, ◌^◌, ◌≤◌, ◌<◌, ◌≡◌, arith, Bool, true, false, length,
}
use polarfs.Prelude.Int.{pos}
use polarfs.Anode.{Anode, node, Children, nil, cons, info, nchild, first_shift, isfree_obj}
use polarfs.Anode.Counts.{count, get_or-lt_length}

unfoldable mutual
  unfolding count

  -- Whether the object with local number `v` is free, by the descent that `pfs_anode_free` makes.
  pub is_free : Anode → ℕ → Bool
  is_free (node i nil) v = isfree_obj i v
  is_free (node i (cons a more)) v =
      child_free (cons a more) (v / 2 ^ first_shift (cons a more))
        (v % 2 ^ first_shift (cons a more))

  pub child_free : Children → ℕ → ℕ → Bool
  child_free nil k w = false
  child_free (cons a more) zero w = is_free a w
  child_free (cons a more) (suc k) w = child_free more k w

unfoldable mutual
  unfolding count

  -- The number of free objects.
  pub free_count : Anode → ℕ
  free_count (node i nil) = count i.bmp
  free_count (node i (cons a more)) = total (cons a more)

  pub total : Children → ℕ
  total nil = 0
  total (cons a more) = free_count a + total more

-- Local object numbers lie below the span.
abbrev pub span : Anode → ℕ
span (node i nil) = i.nall
span (node i (cons a more)) = nchild (cons a more) * 2 ^ first_shift (cons a more)

-- Child `k` of a node whose children have shift `s`: its objects fit below 2 ^ s, and their numbers
-- with the child's id in front fit 64 bits.
pub record Fits (k s : ℕ) (a : Anode) : Type 0 where
  pub id : (info a).id ≡ k
  pub shift : (info a).shift ≡ s
  pub room : span a ≤ 2 ^ s
  pub word : k * 2 ^ s < 2 ^ 64

-- The counts are right, all the way down, and the guess of each leaf is one of its objects.
unfoldable mutual
  pub IsWf : Anode → Type 0
  IsWf (node i nil) =
      (length i.bmp ≡ i.nall) × (i.nfree ≡ pos (free_count (node i nil))) × (i.next < i.nall)
  IsWf (node i (cons a more)) =
      (i.nfree ≡ pos (free_count (node i (cons a more))))
      × AllWf 0 (first_shift (cons a more)) (cons a more)

  pub AllWf : ℕ → ℕ → Children → Type 0
  AllWf k s nil = Unit
  AllWf k s (cons a more) = IsWf a × Fits k s a × AllWf (k + 1) s more

-- The number is that of an object below the node.
unfoldable mutual
  pub Has : Anode → ℕ → Type 0
  Has (node i nil) w = w < i.nall
  Has (node i (cons a more)) w =
      ChildHas (cons a more) (w / 2 ^ first_shift (cons a more)) (w % 2 ^ first_shift (cons a more))

  pub ChildHas : Children → ℕ → ℕ → Type 0
  ChildHas nil k w = ⊥
  ChildHas (cons a more) zero w = Has a w
  ChildHas (cons a more) (suc k) w = ChildHas more k w

mutual
  unfolding is_free IsWf Has

  -- What is free is an object.
  pub is_free-Has : (t : Anode) (w : ℕ) → IsWf t → is_free t w ≡ true → Has t w
  is_free-Has (node i nil) w wf e = omega (arith, wf.0, get_or-lt_length i.bmp w e)
  is_free-Has (node i (cons a more)) w wf e =
      child_free-ChildHas 0 (first_shift (cons a more)) (cons a more)
        (w / 2 ^ first_shift (cons a more)) (w % 2 ^ first_shift (cons a more)) wf.1 e

  child_free-ChildHas :
      (k s : ℕ) (kids : Children) (j w : ℕ)
      → AllWf k s kids
      → child_free kids j w ≡ true
      → ChildHas kids j w
  child_free-ChildHas k s nil j w wf e = cc
  child_free-ChildHas k s (cons a more) zero w wf e = is_free-Has a w wf.0 e
  child_free-ChildHas k s (cons a more) (suc j) w wf e =
      child_free-ChildHas (k + 1) s more j w wf.2 e
