-- ===== src/Anode.antt =====
-- src/pfs_core/pfs_alloc.h, pfs_alloc.cc: the tree of allocation nodes. A leaf has a bitmap of the
-- free objects of one chunk; an inner node counts the free objects below it.
pub mod Counts
pub mod Leaf
pub mod Tree
pub mod Alloc
pub mod Digits
pub mod Taken
pub mod Turn
pub mod Freed
pub mod Back
mod Tests
use Prim.Native.Nat.{bit_or}
use polarfs.Prelude.{
  ℕ, zero, suc, ◌+◌, ◌*◌, ◌/◌, ◌%◌, ◌^◌, min, Bool, true, false, not, ◌&&◌, Option, none, some,
  List, [], ◌∷◌, ltb, ◌==◌, if◌then◌else◌, get_or, set,
}
use polarfs.Prelude.Int.{ℤ, pos, negsuc, ◌+ℤ◌, ltb_ℤ}
use polarfs.Prelude.Errno.{Errno, ebusy, enospc}

-- The fields of `pfs_anode_t`. `bmp` is `an_free_bmp`, bit by bit.
pub record Info : Type 0 where
  pub id : ℕ
  pub shift : ℕ
  pub nall : ℕ
  pub nfree : ℤ
  pub next : ℕ
  pub bmp : List Bool

-- A leaf has no children.
mutual
  pub data Anode : Type 0 where
    node : Info → Children → Anode

  pub data Children : Type 0 where
    nil : Children
    cons : Anode → Children → Children

abbrev pub info : Anode → Info
info (node i kids) = i

abbrev pub nchild : Children → ℕ
nchild nil = 0
nchild (cons a more) = suc (nchild more)

-- `delta` of `pfs_anode_nfree_inc`: +1, 0 or -1.
pub data Delta : Type 0 where
  dec keep inc : Delta

abbrev pub delta_ℤ : Delta → ℤ
delta_ℤ dec = negsuc 0
delta_ℤ keep = pos 0
delta_ℤ inc = pos 1

-- The bitmap of a leaf is flipped at `val` when delta is odd.
abbrev pub flip : Delta → List Bool → ℕ → List Bool
flip keep bits v = bits
flip dec bits v = set bits v (not (get_or bits v false))
flip inc bits v = set bits v (not (get_or bits v false))

unfoldable pub nfree_inc_leaf : Info → ℕ → Delta → Info
unfolding ◌+ℤ◌
nfree_inc_leaf i v d = record i { nfree = i.nfree +ℤ delta_ℤ d; bmp = flip d i.bmp v }

-- An inner node has no bitmap to update.
unfoldable pub nfree_inc_inner : Info → Delta → Info
unfolding ◌+ℤ◌
nfree_inc_inner i d = record i { nfree = i.nfree +ℤ delta_ℤ d }

abbrev pub isfree_obj : Info → ℕ → Bool
isfree_obj i v = get_or i.bmp v false

-- `MONO_MAKE(id << shift, sub)` on uint64_t.
unfoldable pub mono_make : Info → ℕ → ℕ
mono_make i sub = bit_or ((i.id * 2 ^ i.shift) % 2 ^ 64) sub

pub data Outcome : Type 0 where
  got : ℕ → Anode → Outcome
  refused : Errno → Outcome

-- What the attempt at one child comes to.
pub data Attempt : Type 0 where
  hit : ℕ → Children → Attempt
  miss : Attempt

-- `if (++i >= n) i = 0;`
abbrev pub wrap : ℕ → ℕ → ℕ
wrap i n = if ltb (i + 1) n then i + 1 else 0

-- `accepts` is `an_allocfunc`, which only tests: by the leaf's id and the object's number.
module _ (accepts : ℕ → ℕ → Bool) where
  -- The do-while loop of a leaf, with `n` rounds of fuel: the object, and the next guess.
  unfoldable pub leaf_scan : Info → ℕ → ℕ → Option (ℕ × ℕ)
  leaf_scan i zero nxt = none
  leaf_scan i (suc n) nxt =
      let after = wrap nxt i.nall in
      let rest = leaf_scan i n after in
      if isfree_obj i nxt && accepts i.id nxt
      then some (nxt, after)
      else if after == i.next
      then none
      else rest

  -- A leaf's search from its guess, which the source asserts to be below `nall`: see `IsWf` of
  -- Anode.Tree for that.
  unfoldable pub leaf_alloc : Info → Outcome
  unfolding leaf_scan nfree_inc_leaf mono_make
  leaf_alloc i = elim (leaf_scan i i.nall i.next) [
    | none ↦ refused ebusy
    | some (v, nxt) ↦
        got (mono_make i v) (node (record (nfree_inc_leaf i v dec) { next = nxt }) nil)
  ]

  -- The child with the most free objects, the first of those.
  unfoldable pub max_child : Children → ℕ → ℤ → Option ℕ → Option ℕ
  max_child nil i maxfree maxindx = maxindx
  max_child (cons a more) i maxfree maxindx =
      let better = ltb_ℤ maxfree (info a).nfree in
      max_child more (i + 1) (if better then (info a).nfree else maxfree)
        (if better then some i else maxindx)

  -- The second do-while loop, from child `k`, with `n` rounds of fuel.
  unfoldable pub try_loop : Info → Children → (ℕ → Attempt) → ℕ → ℕ → ℕ → Outcome
  unfolding nfree_inc_inner mono_make
  try_loop i kids try maxindx zero k = refused enospc
  try_loop i kids try maxindx (suc n) k =
      let after = wrap k (nchild kids) in
      let rest = try_loop i kids try maxindx n after in
      elim (try k) [
        | hit v kids' ↦ got (mono_make i v) (node (nfree_inc_inner i dec) kids')
        | miss ↦ if after == maxindx then refused enospc else rest
      ]

  unfoldable pub inner_alloc : Info → Children → (ℕ → Attempt) → Outcome
  unfolding max_child try_loop
  inner_alloc i kids try = elim (max_child kids 0 (pos 0) none) [
    | none ↦ refused enospc
    | some m ↦ try_loop i kids try m (nchild kids) m
  ]

  unfoldable mutual
    unfolding leaf_alloc inner_alloc

    pub alloc : Anode → Outcome
    alloc (node i nil) = leaf_alloc i
    alloc (node i (cons a more)) = inner_alloc i (cons a more) (alloc_nth (cons a more))

    -- Child `k` is tried if it has a free object.
    pub alloc_nth : Children → ℕ → Attempt
    alloc_nth nil k = miss
    alloc_nth (cons a more) zero =
        let r = alloc a in
        if ltb_ℤ (pos 0) (info a).nfree
        then (elim r [ got v a' ↦ hit v (cons a' more) | refused e ↦ miss ])
        else miss
    alloc_nth (cons a more) (suc k) = elim (alloc_nth more k) [
      | hit v more' ↦ hit v (cons a more')
      | miss ↦ miss
    ]

-- The shift of the first child, by which an inner node finds the child of an object.
abbrev pub first_shift : Children → ℕ
first_shift nil = 0
first_shift (cons a more) = (info a).shift

-- The descent that free, undo and redo share: `leaf` at the leaf, and the count of free objects on
-- the way back. `none` is a failed PFS_ASSERT, an index past the children.
unfoldable mutual
  unfolding nfree_inc_inner

  pub at_leaf : (Info → ℕ → Info) → Delta → Anode → ℕ → Option Anode
  at_leaf leaf d (node i nil) v = some (node (leaf i v) nil)
  at_leaf leaf d (node i (cons a more)) v =
      elim (at_child leaf d (cons a more) (v / 2 ^ first_shift (cons a more)) v) [
        | none ↦ none
        | some kids ↦ some (node (nfree_inc_inner i d) kids)
      ]

  pub at_child : (Info → ℕ → Info) → Delta → Children → ℕ → ℕ → Option Children
  at_child leaf d nil k v = none
  at_child leaf d (cons a more) zero v = elim (at_leaf leaf d a (v % 2 ^ (info a).shift)) [
    | none ↦ none
    | some a' ↦ some (cons a' more)
  ]
  at_child leaf d (cons a more) (suc k) v = elim (at_child leaf d more k v) [
    | none ↦ none
    | some more' ↦ some (cons a more')
  ]

-- `an_freefunc` does nothing to the node.
unfoldable pub free : Anode → ℕ → Option Anode
unfolding at_leaf nfree_inc_leaf
free = at_leaf (λ i v. record (nfree_inc_leaf i v inc) { next = min v i.next }) inc

-- `d` is what `an_undofunc` returned.
unfoldable pub undo : Delta → Anode → ℕ → Option Anode
unfolding at_leaf nfree_inc_leaf
undo d = at_leaf (λ i v. record (nfree_inc_leaf i v d) { next = 0 }) d

-- `d` is what `an_redofunc` returned.
unfoldable pub redo : Delta → Anode → ℕ → Option Anode
unfolding at_leaf nfree_inc_leaf
redo d = at_leaf (λ i v. record (nfree_inc_leaf i v d) { next = 0 }) d
