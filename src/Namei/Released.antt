-- ===== src/Namei/Released.antt =====
-- The end of a lookup: what pfs_namei_lookup_done gives back, and the way up after a way down.
use polarfs.Namei.{
  append_name, with_room, instk_init, Option, cut_off, some, Stkent, Instack, ret, enomem, abort,
  inode_put, is_full, cut_point, drop_top, instk_push, instk_pop, instk_fini, lookup_done,
}
use polarfs.Namei.Text.{ne→==, put_here}
use polarfs.Namei.Popped.{instk_pop-Spells}
use polarfs.Namei.Stack.{Spells-same, IsName}
use polarfs.Namei.Walks.{
  unstarted, enomem_path, walking, Begun, pushed-Keeps, put_get, Keeps, Spelt, Walk, Walk-Spelt,
  up-Keeps,
}
use polarfs.Prelude.{
  Option-cases, ℕ, zero, suc, ◌≤◌, ◌<◌, Bool, true, false, List, [], ◌∷◌, ◌≡◌, ◌≢◌, length, ◌==◌,
  arith, refl, ap, sym, ◌∙◌, Bool-cases, inl, inr, none,
}

-- The last entry leaves an empty path.
pop_last :
    (k : Instack) (e : Stkent)
    → k.s_i ≡ 1
    → k.s_vec ≡ some (e ∷ [])
    → (k' : Instack) × (instk_pop k ≡ ret k')
      × (k'.s_i ≡ 0)
      × (k'.s_vec ≡ some [])
      × (k'.refs ≡ inode_put e.se_in k.refs)
unfolding instk_pop cut_point cut_off drop_top
pop_last k e d v = rw (d, v, put_here 0 0 k.s_path) (_, refl, refl, refl, refl)

-- An empty stack without memory, whose references are `refs`.
pub IsReleased : (ℕ → ℕ) → Instack → Type 0
IsReleased refs k = (k.s_i ≡ 0) × (k.s_vec ≡ none) × ((ino : ℕ) → k.refs ino ≡ refs ino)

fini_lem :
    (k : Instack) (l : List Stkent)
    → k.s_i ≡ 0
    → k.s_vec ≡ some l
    → (k' : Instack) × (instk_fini k ≡ ret k')
      × (k'.s_i ≡ 0)
      × (k'.s_vec ≡ none)
      × (k'.refs ≡ k.refs)
unfolding instk_fini
fini_lem k l d v = rw (d, v) (_, refl, refl, refl, refl)

done_pop :
    (n : ℕ) (k k' : Instack)
    → k.s_i ≢ 0
    → instk_pop k ≡ ret k'
    → lookup_done (suc n) k ≡ lookup_done n k'
unfolding lookup_done
done_pop n k k' d e = rw (ne→== k.s_i 0 d, e) refl

module _ (refs : ℕ → ℕ) (root : List ℕ) where
  done_root :
      (e : Stkent) (k : Instack)
      → Keeps refs root k (e ∷ []) []
      → (k' : Instack) × (lookup_done 1 k ≡ ret k') × IsReleased refs k'
  unfolding lookup_done IsReleased
  done_root e k kept =
      let p = pop_last k e kept.spells.depth kept.spells.entries in
      let f = fini_lem p.0 [] p.2 p.3 in
      (
        f.0,
        done_pop 0 k p.0 (omega (arith, kept.spells.depth)) p.1 ∙ f.1,
        (
          f.2,
          f.3,
          λ ino.
              ap (λ g. g ino) (f.4 ∙ p.4) ∙ put_get refs root e.se_in k.refs refs kept.counts ino,
        ),
      )

  done_path :
      (ns : List (List ℕ)) (l : List Stkent) (k : Instack)
      → Keeps refs root k l ns
      → (k' : Instack) × (lookup_done (suc (length ns)) k ≡ ret k') × IsReleased refs k'
  done_path [] [] k kept = absurd (omega (arith, kept.spells.full))
  done_path [] (e ∷ []) k kept = done_root e k kept
  done_path [] (e ∷ x ∷ l) k kept = absurd (omega (arith, kept.spells.full))
  done_path (n ∷ ns) [] k kept = absurd (omega (arith, kept.spells.full))
  done_path (n ∷ ns) (e ∷ l) k kept =
      let p = instk_pop-Spells root k e l n ns kept.spells in
      let r = done_path ns l p.0 (up-Keeps refs root k p.0 e l n ns kept p.1) in
      (r.0, done_pop (suc (length ns)) k p.0 (omega (arith, kept.spells.depth)) p.1 ∙ r.1, r.2)

  done_walk :
      (k : Instack)
      → Walk refs root k
      → (k' : Instack) × (lookup_done k.s_i k ≡ ret k') × IsReleased refs k'
  unfolding Spelt
  done_walk k w =
      let p = Walk-Spelt refs root w in
      let r = done_path p.1 p.0 k p.2 in
      (r.0, ap (λ n. lookup_done n k) p.2.spells.depth ∙ r.1, r.2)

  -- A root that could not be pushed holds nothing.
  unstarted_lem :
      (k : Instack) (grows gets : Bool) (btime : ℕ)
      → instk_push grows gets (instk_init refs) 0 btime root ≡ enomem k
      → (k.s_i ≡ 0) × (k.refs ≡ refs)
  unfolding instk_push instk_init with_room append_name
  unstarted_lem k false gets btime e =
      let p = enomem_path refs root _ k e in (sym (ap (λ x. x.s_i) p), sym (ap (λ x. x.refs) p))
  unstarted_lem k true false btime e =
      let p = enomem_path refs root _ k e in (sym (ap (λ x. x.s_i) p), sym (ap (λ x. x.refs) p))
  unstarted_lem k true true btime e = absurd (ground arith)

  done_empty :
      (k : Instack)
      → k.s_i ≡ 0
      → k.refs ≡ refs
      → (k' : Instack) × (lookup_done 0 k ≡ ret k') × IsReleased refs k'
  unfolding lookup_done instk_fini IsReleased
  done_empty k d r = elim (Option-cases k.s_vec) [
    | inl e ↦ rw (d, e) (_, refl, (refl, refl, λ ino. ap (λ f. f ino) r))
    | inr (l, e) ↦ rw (d, e) (_, refl, (refl, refl, λ ino. ap (λ f. f ino) r))
  ]

  -- Wherever a lookup stands, also if the push of the root failed, but if no later reallocation of the
  -- array failed: pfs_namei_lookup_done fails no assertion, ends within as many rounds as there are
  -- entries, frees the stack, and gives back every reference.
  pub lookup_done-IsReleased :
      (k : Instack)
      → Begun refs root k
      → (k' : Instack) × (lookup_done k.s_i k ≡ ret k') × IsReleased refs k'
  lookup_done-IsReleased k (walking w) = done_walk k w
  lookup_done-IsReleased k (unstarted grows gets btime e) =
      let (d, r) = unstarted_lem k grows gets btime e in
      let (k', f, g) = done_empty k d r in (k', ap (λ n. lookup_done n k) d ∙ f, g)

  -- In a lookup a push of a name that succeeds and the pop after it leave the entries, the references
  -- and the path up to its end as they were.
  pub instk_pop-instk_push :
      (k k' : Instack) (ino btime : ℕ) (n : List ℕ)
      → Walk refs root k
      → ino ≢ 0
      → IsName n
      → instk_push true true k ino btime n ≡ ret k'
      → (k'' : Instack) × (instk_pop k' ≡ ret k'')
        × (k''.s_i ≡ k.s_i)
        × (k''.s_vec ≡ k.s_vec)
        × (k''.s_nextpos ≡ k.s_nextpos)
        × ((j : ℕ) → j ≤ k.s_nextpos → k''.s_path j ≡ k.s_path j)
        × ((i : ℕ) → k''.refs i ≡ k.refs i)
  unfolding Spelt
  instk_pop-instk_push k k' ino btime n w nonroot ok e =
      let r = Walk-Spelt refs root w in
      let top : Stkent = record { se_in = ino; se_btime = btime } in
      let down = pushed-Keeps refs root k k' r.0 r.1 ino btime n r.2 nonroot ok e in
      let p = instk_pop-Spells root k' top r.0 n r.1 down.spells in
      let back = up-Keeps refs root k' p.0 top r.0 n r.1 down p.1 in
      (
        p.0,
        p.1,
        back.spells.depth ∙ sym r.2.spells.depth,
        back.spells.entries ∙ sym r.2.spells.entries,
        back.spells.next ∙ sym r.2.spells.next,
        Spells-same root p.0 k r.0 r.1 back.spells r.2.spells,
        λ i. back.counts i ∙ sym (r.2.counts i),
      )

off_null : (k : Instack) (at : Option (ℕ × ℕ)) → k.s_vec ≡ none → cut_off k at ≡ abort
unfolding cut_off drop_top
off_null k none e = refl
off_null k (some (pos, next)) e = rw e refl

-- Without an array no entry can be popped.
pop_null : (k : Instack) → k.s_vec ≡ none → instk_pop k ≡ abort
unfolding instk_pop
pop_null k e = elim (Bool-cases (k.s_i == 0)) [
  | inl p ↦ rw p refl
  | inr p ↦ rw p (off_null k (cut_point k) e)
]

done_null : (i : ℕ) (k : Instack) → 0 < i → k.s_i ≡ i → k.s_vec ≡ none → lookup_done i k ≡ abort
unfolding lookup_done
done_null zero k h d e = absurd (omega arith)
done_null (suc i) k h d e = rw (ne→== k.s_i 0 (omega arith), pop_null k e) refl

-- When the array of a stack with entries is full and its reallocation fails, instk_push reports
-- ENOMEM, and the pfs_namei_lookup_done that follows reads an entry of the lost array.
pub lookup_done-instk_push :
    (gets : Bool) (k : Instack) (ino btime : ℕ) (n : List ℕ)
    → 0 < k.s_i
    → is_full k ≡ true
    → (k' : Instack) × (instk_push false gets k ino btime n ≡ enomem k')
      × (lookup_done k'.s_i k' ≡ abort)
unfolding instk_push
lookup_done-instk_push gets k ino btime n h full =
    rw (ne→== k.s_i 0 (omega arith), full) (_, refl, done_null k.s_i _ h refl refl)
