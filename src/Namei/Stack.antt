-- ===== src/Namei/Stack.antt =====
-- The path that the stack of directories spells.
use mathlib.Core.Path.{subst}
use polarfs.Namei.{
  is_full, Buffer, max_pathlen, put, put_string, Stkent, Instack, ret, entries_of, append_name,
  with_room, instk_init, inode_get, max_pbdlen,
}
use polarfs.Namei.Text.{
  Holds-same, put_string-after, Holds, Lacks, Holds-put, Holds-agree, ne→==, Holds-append,
  Lacks-append, put_here, put_there, put_string-before, put_string-end, put_string-Holds,
}
use native.Mathlib.Decide.{ℕ_discrete}
use polarfs.Prelude.{
  lt→ltb, ℕ, suc, ◌+◌, ◌≤◌, ◌<◌, some, List, [], ◌∷◌, ◌++◌, ◌≡◌, ◌≢◌, inl, inr, length, arith,
  Bool-cases, refl, ap, sym, ◌∙◌, length-append,
}

-- A name is only added if it fits into the buffer.
pub append_name-fits :
    (k k' : Instack) (ino btime : ℕ) (n : List ℕ)
    → append_name k ino btime n ≡ ret k'
    → k.s_nextpos + length n + 1 < max_pathlen
unfolding append_name
append_name-fits k k' ino btime n e = ground arith

-- A name of a component: neither empty bytes nor a '/'.
abbrev pub IsName : List ℕ → Type 0
IsName n = Lacks 0 n × Lacks b'/' n

abbrev pub AllNames : List (List ℕ) → Type 0
AllNames [] = Unit
AllNames (n ∷ ns) = IsName n × AllNames ns

module _ (root : List ℕ) where
  -- The path of the names over the root's, the last one first.
  abbrev pub path : List (List ℕ) → List ℕ
  path [] = b'/' ∷ root
  path (n ∷ ns) = path ns ++ b'/' ∷ n

  -- The root's path has a '/' behind it.
  abbrev pub Ended : List (List ℕ) → ℕ → Buffer → Type 0
  Ended [] i b = (b i ≡ b'/') × (b (i + 1) ≡ 0) × (i + 1 < max_pathlen)
  Ended (n ∷ ns) i b = (b i ≡ 0) × (i < max_pathlen)

  -- The stack has the entries `l`, and its buffer spells the names.
  pub record Spells (k : Instack) (l : List Stkent) (ns : List (List ℕ)) : Type 0 where
    pub depth : k.s_i ≡ suc (length ns)
    pub entries : k.s_vec ≡ some l
    pub full : length l ≡ suc (length ns)
    pub next : k.s_nextpos ≡ length (path ns)
    pub holds : Holds k.s_path 0 (path ns)
    pub ended : Ended ns (length (path ns)) k.s_path
    pub names : IsName root × AllNames ns

  pub path-Lacks : (ns : List (List ℕ)) → IsName root × AllNames ns → Lacks 0 (path ns)
  path-Lacks [] h = (omega arith, h.0.0)
  path-Lacks (n ∷ ns) h =
      Lacks-append 0 (path ns) (b'/' ∷ n) (path-Lacks ns (h.0, h.1.1)) (omega arith, h.1.0.0)

  module _ (k : Instack) (l : List Stkent) (ns : List (List ℕ)) (s : Spells k l ns) where
    pub push_room : (n : List ℕ) → length (path (n ∷ ns)) ≡ k.s_nextpos + length n + 1
    push_room n = omega (arith, length-append (path ns) (b'/' ∷ n), s.next)

    -- What a push writes behind the path so far.
    pushed_Holds :
        (n : List ℕ) → Holds (put_string k.s_nextpos (b'/' ∷ n) k.s_path) 0 (path (n ∷ ns))
    pushed_Holds n =
        Holds-append (put_string k.s_nextpos (b'/' ∷ n) k.s_path) 0 (path ns) (b'/' ∷ n)
          (Holds-agree k.s_path (put_string k.s_nextpos (b'/' ∷ n) k.s_path) 0 (path ns)
            (λ j h. put_string-before k.s_nextpos j (b'/' ∷ n) k.s_path (omega (arith, s.next)))
            s.holds)
          (subst (λ i. Holds (put_string k.s_nextpos (b'/' ∷ n) k.s_path) i (b'/' ∷ n))
            (omega (arith, s.next)) (put_string-Holds k.s_nextpos (b'/' ∷ n) k.s_path))

    pub append_name-Spells :
        (ino btime : ℕ) (n : List ℕ)
        → ino ≢ 0
        → IsName n
        → length (path (n ∷ ns)) < max_pathlen
        → (k' : Instack) × (append_name k ino btime n ≡ ret k')
          × Spells k' (record { se_in = ino; se_btime = btime } ∷ l) (n ∷ ns)
          × (k'.refs ≡ inode_get ino k.refs)
    unfolding append_name
    append_name-Spells ino btime n nonroot ok room =
        rw
          (
            lt→ltb (k.s_nextpos + length n + 1) max_pathlen (omega (arith, push_room n)),
            ne→== ino 0 nonroot,
          )
          (
            _,
            refl,
            record {
              depth = omega (arith, s.depth);
              entries =
                  ap (λ v. some (record { se_in = ino; se_btime = btime } ∷ entries_of v))
                    s.entries;
              full = omega (arith, s.full);
              next = sym (push_room n);
              holds = pushed_Holds n;
              ended = (
                ap (put_string k.s_nextpos (b'/' ∷ n) k.s_path) (omega (arith, push_room n))
                    ∙ put_string-end k.s_nextpos (b'/' ∷ n) k.s_path,
                room,
              );
              names = (s.names.0, (ok, s.names.1));
            },
            refl,
          )

  -- The root on an empty stack.
  pub root-Spells :
      (refs : ℕ → ℕ) (btime : ℕ)
      → IsName root
      → length root < max_pbdlen
      → (k' : Instack) × (append_name (with_room (instk_init refs)) 0 btime root ≡ ret k')
        × Spells k' (record { se_in = 0; se_btime = btime } ∷ []) []
        × (k'.refs ≡ inode_get 0 refs)
  unfolding append_name with_room instk_init
  root-Spells refs btime ok room = rw (lt→ltb (0 + length root + 1) max_pathlen (omega arith)) (
    _,
    refl,
    record {
      depth = refl;
      entries = refl;
      full = refl;
      next = omega arith;
      holds =
          Holds-put (put_string 0 (b'/' ∷ root) λ i. 0) 0 (0 + length root + 1) b'/' (path [])
            (inr (omega arith)) (put_string-Holds 0 (b'/' ∷ root) λ i. 0);
      ended = (
        ap (put (0 + length root + 1) b'/' (put_string 0 (b'/' ∷ root) λ i. 0)) (omega arith)
            ∙ put_here (0 + length root + 1) b'/' (put_string 0 (b'/' ∷ root) λ i. 0),
        put_there (0 + length root + 1) b'/' (suc (length root) + 1)
              (put_string 0 (b'/' ∷ root) λ i. 0) (omega arith)
            ∙ put_string-after 0 (suc (length root) + 1) (b'/' ∷ root) (λ i. 0) (omega arith),
        omega arith,
      );
      names = (ok, tt);
    },
    refl,
  )

  pub with_room-Spells :
      (k : Instack) (l : List Stkent) (ns : List (List ℕ))
      → Spells k l ns
      → Spells (with_room k) l ns
  unfolding with_room
  with_room-Spells k l ns s = elim (Bool-cases (is_full k)) [
    | inl p ↦ rw p record {
      depth = s.depth;
      entries = ap (λ v. some (entries_of v)) s.entries;
      full = s.full;
      next = s.next;
      holds = s.holds;
      ended = s.ended;
      names = s.names;
    }
    | inr p ↦ rw p s
  ]

  Ended-same :
      (ns : List (List ℕ)) (i : ℕ) (b b' : Buffer) → Ended ns i b → Ended ns i b' → b i ≡ b' i
  Ended-same [] i b b' h h' = h.0 ∙ sym h'.0
  Ended-same (n ∷ ns) i b b' h h' = h.0 ∙ sym h'.0

  -- The bytes up to the end of a path depend on its names alone.
  pub Spells-same :
      (k k' : Instack) (l : List Stkent) (ns : List (List ℕ))
      → Spells k l ns
      → Spells k' l ns
      → (j : ℕ) → j ≤ k'.s_nextpos
      → k.s_path j ≡ k'.s_path j
  Spells-same k k' l ns s s' j h = elim (ℕ_discrete j (length (path ns))) [
    | yes p ↦
        ap k.s_path p ∙ Ended-same ns _ k.s_path k'.s_path s.ended s'.ended ∙ ap k'.s_path (sym p)
    | no p ↦
        Holds-same k.s_path k'.s_path 0 j (path ns) s.holds s'.holds (omega arith)
          (omega (arith, s'.next))
  ]
