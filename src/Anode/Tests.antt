-- ===== src/Anode/Tests.antt =====
-- A tree of two leaves with four objects each, for the theorems on allocation nodes.
use polarfs.Prelude.{ℕ, ◌≡◌, refl, Bool, true, false, not, none, some, [], ◌∷◌, arith, ◌==◌}
use polarfs.Prelude.Int.{pos}
use polarfs.Anode.{
  Info, Anode, node, nil, cons, info, mono_make, got, alloc, leaf_scan, free, undo, redo,
}
use polarfs.Anode.Tree.{Has, is_free, free_count, IsWf}
use polarfs.Anode.Alloc.{Takes}
use polarfs.Anode.Taken.{alloc-Takes}
use polarfs.Anode.Turn.{Turned, delta_of}
use polarfs.Anode.Freed.{free-Turned}
use polarfs.Anode.Back.{SameFree, free-alloc, undo-redo}

abbrev leaf_0 : Info
leaf_0 = record {
  id = 0;
  shift = 2;
  nall = 4;
  nfree = pos 1;
  next = 0;
  bmp = false ∷ true ∷ false ∷ false ∷ [];
}

abbrev leaf_1 : Info
leaf_1 = record {
  id = 1;
  shift = 2;
  nall = 4;
  nfree = pos 2;
  next = 3;
  bmp = true ∷ false ∷ true ∷ false ∷ [];
}

abbrev root : Info
root = record { id = 0; shift = 3; nall = 8; nfree = pos 3; next = 0; bmp = [] }

abbrev tree : Anode
tree = node root (cons (node leaf_0 nil) (cons (node leaf_1 nil) nil))

abbrev any : ℕ → ℕ → Bool
any i v = true

tree-IsWf : IsWf tree
unfolding IsWf free_count
tree-IsWf = (
  refl,
  (
    (refl, refl, omega arith),
    record { id = refl; shift = refl; room = omega arith; word = omega arith },
    (
      (refl, refl, omega arith),
      record { id = refl; shift = refl; room = omega arith; word = omega arith },
      tt,
    ),
  ),
)

-- The second leaf has more free objects, and its search wraps around.
abbrev taken : Anode
taken =
    node (record root { nfree = pos 2 })
      (cons (node leaf_0 nil) (
        cons
          (node (record leaf_1 { nfree = pos 1; next = 1; bmp = false ∷ false ∷ true ∷ false ∷ [] })
            nil)
          nil))

allocated : alloc any tree ≡ got 4 taken
unfolding alloc
allocated = refl

alloc-Takes_example : (w : ℕ) × (4 ≡ mono_make (info tree) w) × Takes tree w taken
alloc-Takes_example = alloc-Takes any tree 4 taken tree-IsWf allocated

free-alloc_example :
    (w : ℕ) × (u : Anode) × (4 ≡ mono_make (info tree) w)
    × (free taken w ≡ some u)
    × SameFree tree u
free-alloc_example = free-alloc any tree 4 taken tree-IsWf allocated

Has-5 : Has tree 5
unfolding Has
Has-5 = omega arith

taken_5 : is_free tree 5 ≡ false
unfolding is_free
taken_5 = refl

free-Turned_example : (t' : Anode) × (free tree 5 ≡ some t') × Turned true tree 5 t'
free-Turned_example = free-Turned tree 5 tree-IsWf Has-5 taken_5

undo-redo_example :
    (t' : Anode) × (u : Anode) × (redo (delta_of true) tree 5 ≡ some t')
    × Turned true tree 5 t'
    × (undo (delta_of (not true)) t' 5 ≡ some u)
    × SameFree tree u
undo-redo_example = undo-redo true tree 5 tree-IsWf Has-5 taken_5

-- Object 2 is free, and is not accepted.
abbrev odd : ℕ → ℕ → Bool
odd i v = not (v == 2)

abbrev full : Info
full = record leaf_0 { next = 3; bmp = false ∷ false ∷ true ∷ false ∷ [] }

no_object : leaf_scan odd full 4 3 ≡ none
unfolding leaf_scan
no_object = refl
