-- ===== src/Namei/Popped.antt =====
-- The path after instk_pop, which cuts off its last name.
use polarfs.Namei.{
  cut_off, inode_put, max_pathlen, put, Stkent, Instack, ret, cut_point, drop_top, instk_pop,
}
use polarfs.Namei.Text.{Holds, Holds-put, ne→==, Holds-split, put_here, put_there, strrchr-Holds}
use polarfs.Prelude.{
  ℕ, suc, ◌+◌, ◌≤◌, ◌<◌, some, List, [], ◌∷◌, ◌≡◌, inr, length, arith, refl, ap, ◌∙◌, length-append,
}
use polarfs.Namei.Stack.{Ended, Spells, path, path-Lacks}

module _ (root : List ℕ) where
  -- Where the last name is cut off.
  cut_at : List (List ℕ) → ℕ
  cut_at [] = length (path root []) + 1
  cut_at (m ∷ ms) = length (path root (m ∷ ms))

  cut_point_lem :
      (k : Instack) (l : List Stkent) (n : List ℕ) (ns : List (List ℕ))
      → Spells root k l (n ∷ ns)
      → cut_point k ≡ some (cut_at ns, length (path root ns))
  unfolding cut_point cut_at
  cut_point_lem k l n [] s =
      rw
        (
          s.depth,
          strrchr-Holds k.s_path (path root []) n s.holds s.ended.0 s.ended.1
              (path-Lacks root (n ∷ []) s.names) s.names.1.0.1,
          s.depth,
        )
        refl
  cut_point_lem k l n (m ∷ ms) s =
      rw
        (
          s.depth,
          ne→== (suc (length (n ∷ m ∷ ms))) 1 (omega arith),
          strrchr-Holds k.s_path (path root (m ∷ ms)) n s.holds s.ended.0 s.ended.1
              (path-Lacks root (n ∷ m ∷ ms) s.names) s.names.1.0.1,
          s.depth,
          ne→== (suc (length (n ∷ m ∷ ms))) 2 (omega arith),
        )
        refl

  -- The path before the last name, which stays, and the '/' behind it.
  kept_Holds :
      (k : Instack) (l : List Stkent) (n : List ℕ) (ns : List (List ℕ))
      → Spells root k l (n ∷ ns)
      → Holds k.s_path 0 (path root ns) × Holds k.s_path (0 + length (path root ns)) (b'/' ∷ n)
  kept_Holds k l n ns s = Holds-split k.s_path 0 (path root ns) (b'/' ∷ n) s.holds

  path_room :
      (k : Instack) (l : List Stkent) (n : List ℕ) (ns : List (List ℕ))
      → Spells root k l (n ∷ ns)
      → length (path root ns) + 1 < max_pathlen
  path_room k l n ns s = omega (arith, s.ended.1, length-append (path root ns) (b'/' ∷ n))

  popped_Ended :
      (k : Instack) (l : List Stkent) (n : List ℕ) (ns : List (List ℕ))
      → Spells root k l (n ∷ ns)
      → Ended root ns (length (path root ns)) (put (cut_at ns) 0 k.s_path)
  unfolding cut_at
  popped_Ended k l n [] s = (
    put_there (length (path root []) + 1) 0 (length (path root [])) k.s_path (omega arith)
        ∙ ap k.s_path (omega arith)
        ∙ (kept_Holds k l n [] s).1.0,
    put_here (length (path root []) + 1) 0 k.s_path,
    path_room k l n [] s,
  )
  popped_Ended k l n (m ∷ ms) s =
      let room = path_room k l n (m ∷ ms) s in
      (put_here (length (path root (m ∷ ms))) 0 k.s_path, omega (arith, room))

  cut_at-le : (ns : List (List ℕ)) → length (path root ns) ≤ cut_at ns
  unfolding cut_at
  cut_at-le [] = omega arith
  cut_at-le (m ∷ ms) = omega arith

  pub instk_pop-Spells :
      (k : Instack) (e : Stkent) (l : List Stkent) (n : List ℕ) (ns : List (List ℕ))
      → Spells root k (e ∷ l) (n ∷ ns)
      → (k' : Instack) × (instk_pop k ≡ ret k')
        × Spells root k' l ns
        × (k'.refs ≡ inode_put e.se_in k.refs)
  unfolding instk_pop cut_off drop_top
  instk_pop-Spells k e l n ns s =
      rw
        (
          ne→== k.s_i 0 (omega (arith, s.depth)),
          cut_point_lem k (e ∷ l) n ns s,
          s.entries,
          ne→== k.s_i 1 (omega (arith, s.depth)),
        )
        (
          _,
          refl,
          record {
            depth = omega (arith, s.depth);
            entries = refl;
            full = omega (arith, s.full);
            next = refl;
            holds =
                Holds-put k.s_path 0 (cut_at ns) 0 (path root ns)
                  (inr (omega (arith, cut_at-le ns))) (kept_Holds k (e ∷ l) n ns s).0;
            ended = popped_Ended k (e ∷ l) n ns s;
            names = (s.names.0, s.names.1.1);
          },
          refl,
        )
