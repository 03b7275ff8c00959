-- ===== src/Namei/Walks.antt =====
-- The stack over a whole lookup: what its steps keep, and that the end of the lookup gives back every
-- reference.
use mathlib.Core.Path.{subst}
use polarfs.Namei.{
  not, is_full, with_room, max_pbdlen, Stkent, Instack, ret, enomem, inode_get, inode_put,
  instk_init, append_name, instk_push, instk_pop,
}
use polarfs.Namei.Text.{ne→==}
use polarfs.Namei.Popped.{instk_pop-Spells}
use polarfs.Namei.Stack.{
  root-Spells, with_room-Spells, push_room, append_name-fits, IsName, Spells, append_name-Spells,
}
use polarfs.Prelude.{
  inr, inl, Bool-cases, ℕ, ◌<◌, Bool, not, true, false, List, [], ◌∷◌, ◌≡◌, ◌≢◌, length,
  if◌then◌else◌, arith, refl, ap, sym, ◌∙◌,
}

-- The references that the entries hold on an inode, over those it had before.
abbrev pub held : (ℕ → ℕ) → List Stkent → ℕ → ℕ
held refs [] ino = refs ino
held refs (e ∷ l) ino = inode_get e.se_in (held refs l) ino

module _ (refs : ℕ → ℕ) (root : List ℕ) where
  -- The stacks of a lookup: the root is pushed, then names are pushed, also without success, and popped
  -- down to the root, while memory is given for the entries.
  pub data Walk : Instack → Type 0 where
    start :
        (k : Instack) (btime : ℕ)
        → IsName root
        → length root < max_pbdlen
        → instk_push true true (instk_init refs) 0 btime root ≡ ret k
        → Walk k
    down :
        (k k' : Instack) (ino btime : ℕ) (n : List ℕ)
        → Walk k
        → ino ≢ 0
        → IsName n
        → instk_push true true k ino btime n ≡ ret k'
        → Walk k'
    stay :
        (k k' : Instack) (ino btime : ℕ) (n : List ℕ)
        → Walk k
        → instk_push true false k ino btime n ≡ enomem k'
        → Walk k'
    up : (k k' : Instack) → Walk k → 1 < k.s_i → instk_pop k ≡ ret k' → Walk k'

  -- The stacks that pfs_namei_lookup leaves, also if the push of the root failed.
  pub data Begun : Instack → Type 0 where
    walking : {k : Instack} → Walk k → Begun k
    unstarted :
        {k : Instack} (grows gets : Bool) (btime : ℕ)
        → instk_push grows gets (instk_init refs) 0 btime root ≡ enomem k
        → Begun k

  -- A stack that spells a path, with the references of its entries.
  pub record Keeps (k : Instack) (l : List Stkent) (ns : List (List ℕ)) : Type 0 where
    pub spells : Spells root k l ns
    pub counts : (ino : ℕ) → k.refs ino ≡ held refs l ino

  pub put_get :
      (n : ℕ) (f g : ℕ → ℕ)
      → ((ino : ℕ) → f ino ≡ inode_get n g ino)
      → (ino : ℕ) → inode_put n f ino ≡ g ino
  put_get n f g h ino = let e = h ino in ground arith

  get_ap :
      (n : ℕ) (f g : ℕ → ℕ)
      → ((ino : ℕ) → f ino ≡ g ino)
      → (ino : ℕ) → inode_get n f ino ≡ inode_get n g ino
  get_ap n f g h ino = rw (h ino) refl

  ret_path : (k k' : Instack) → ret k ≡ ret k' → k ≡ k'
  ret_path k k' e = cc

  down-Keeps :
      (k k' : Instack) (l : List Stkent) (ns : List (List ℕ)) (ino btime : ℕ) (n : List ℕ)
      → Keeps k l ns
      → ino ≢ 0
      → IsName n
      → append_name k ino btime n ≡ ret k'
      → Keeps k' (record { se_in = ino; se_btime = btime } ∷ l) (n ∷ ns)
  down-Keeps k k' l ns ino btime n kept nonroot ok e =
      let fits = append_name-fits k k' ino btime n e in
      let r =
        append_name-Spells root k l ns kept.spells ino btime n nonroot ok
          (omega (arith, fits, push_room root k l ns kept.spells n)) in
      let same = ret_path r.0 k' (sym r.1 ∙ e) in
      record {
        spells =
            subst (λ x. Spells root x (record { se_in = ino; se_btime = btime } ∷ l) (n ∷ ns)) same
              r.2;
        counts = λ x.
            ap (λ f. f.refs x) (sym same)
            ∙ ap (λ f. f x) r.3
            ∙ get_ap ino k.refs (held refs l) kept.counts x;
      }

  pub up-Keeps :
      (k k' : Instack) (e : Stkent) (l : List Stkent) (n : List ℕ) (ns : List (List ℕ))
      → Keeps k (e ∷ l) (n ∷ ns)
      → instk_pop k ≡ ret k'
      → Keeps k' l ns
  up-Keeps k k' e l n ns kept q =
      let r = instk_pop-Spells root k e l n ns kept.spells in
      let same = ret_path r.0 k' (sym r.1 ∙ q) in
      record {
        spells = subst (λ x. Spells root x l ns) same r.2;
        counts = λ x.
            ap (λ f. f.refs x) (sym same)
            ∙ ap (λ f. f x) r.3
            ∙ put_get e.se_in k.refs (held refs l) kept.counts x;
      }

  with_room-Keeps :
      (k : Instack) (l : List Stkent) (ns : List (List ℕ)) → Keeps k l ns → Keeps (with_room k) l ns
  unfolding with_room
  with_room-Keeps k l ns kept = record {
    spells = with_room-Spells root k l ns kept.spells;
    counts = λ ino. elim (Bool-cases (is_full k)) [
      | inl p ↦ rw p (kept.counts ino)
      | inr p ↦ rw p (kept.counts ino)
    ];
  }

  -- With memory for the entries a push on a path depends on pfs_inode_get alone.
  push_lem :
      (gets : Bool) (k : Instack) (ino btime : ℕ) (n : List ℕ)
      → 0 < k.s_i
      → instk_push true gets k ino btime n
        ≡ (if not gets then enomem (with_room k) else append_name (with_room k) ino btime n)
  unfolding instk_push
  push_lem gets k ino btime n h =
      rw (ne→== k.s_i 0 (omega arith))
        elim (Bool-cases (is_full k)) [ inl p ↦ rw p refl | inr p ↦ rw p refl ]

  pub pushed-Keeps :
      (k k' : Instack) (l : List Stkent) (ns : List (List ℕ)) (ino btime : ℕ) (n : List ℕ)
      → Keeps k l ns
      → ino ≢ 0
      → IsName n
      → instk_push true true k ino btime n ≡ ret k'
      → Keeps k' (record { se_in = ino; se_btime = btime } ∷ l) (n ∷ ns)
  pushed-Keeps k k' l ns ino btime n kept nonroot ok e =
      down-Keeps (with_room k) k' l ns ino btime n (with_room-Keeps k l ns kept) nonroot ok
        (sym (push_lem true k ino btime n (omega (arith, kept.spells.depth))) ∙ e)

  -- Some path that the stack spells.
  unfoldable pub Spelt : Instack → Type 0
  Spelt k = (l : List Stkent) × (ns : List (List ℕ)) × Keeps k l ns

  pub enomem_path : (k k' : Instack) → enomem k ≡ enomem k' → k ≡ k'
  enomem_path k k' e = cc

  root-Keeps :
      (k' : Instack) (btime : ℕ)
      → IsName root
      → length root < max_pbdlen
      → instk_push true true (instk_init refs) 0 btime root ≡ ret k'
      → Keeps k' (record { se_in = 0; se_btime = btime } ∷ []) []
  unfolding instk_push instk_init
  root-Keeps k' btime ok room e =
      let r = root-Spells root refs btime ok room in
      let same = ret_path r.0 k' (sym r.1 ∙ e) in
      record {
        spells =
            subst (λ x. Spells root x (record { se_in = 0; se_btime = btime } ∷ []) []) same r.2;
        counts = λ x. ap (λ f. f.refs x) (sym same) ∙ ap (λ f. f x) r.3;
      }

  up_step :
      (k k' : Instack) (l : List Stkent) (ns : List (List ℕ))
      → Keeps k l ns
      → 1 < k.s_i
      → instk_pop k ≡ ret k'
      → Spelt k'
  unfolding Spelt
  up_step k k' [] ns kept h e = absurd (omega (arith, kept.spells.full, kept.spells.depth))
  up_step k k' (t ∷ l) [] kept h e = absurd (omega (arith, kept.spells.depth))
  up_step k k' (t ∷ l) (n ∷ ns) kept h e = (l, ns, up-Keeps k k' t l n ns kept e)

  -- In every state of a lookup from the push of its root on, as long as no reallocation of the array
  -- fails, the buffer spells the root and the names that lead to the top entry, there is one entry
  -- for each of them, and each inode has as many references more than before as it has entries.
  pub Walk-Spelt : {k : Instack} → Walk k → Spelt k
  unfolding Spelt
  Walk-Spelt (start k btime ok room e) =
      (record { se_in = 0; se_btime = btime } ∷ [], [], root-Keeps k btime ok room e)
  Walk-Spelt (down k k' ino btime n w nonroot ok e) =
      let r = Walk-Spelt w in
      (
        record { se_in = ino; se_btime = btime } ∷ r.0,
        n ∷ r.1,
        pushed-Keeps k k' r.0 r.1 ino btime n r.2 nonroot ok e,
      )
  Walk-Spelt (stay k k' ino btime n w e) =
      let r = Walk-Spelt w in
      let same =
        enomem_path (with_room k) k'
          (sym (push_lem false k ino btime n (omega (arith, r.2.spells.depth))) ∙ e) in
      (r.0, r.1, subst (λ x. Keeps x r.0 r.1) same (with_room-Keeps k r.0 r.1 r.2))
  Walk-Spelt (up k k' w h e) = let r = Walk-Spelt w in up_step k k' r.0 r.1 r.2 h e
