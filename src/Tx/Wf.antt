-- ===== src/Tx/Wf.antt =====
-- The invariant of a transaction: each object that it changes has one operation at the head, which
-- the index finds and the list holds.
use polarfs.Prelude.{
  eq→==, length-append, ℕ, ◌<◌, ◌≡◌, ◌≢◌, refl, sym, ap, ◌∙◌, ◌⊎◌, inl, inr, true, false, List, [],
  ◌∷◌, ◌++◌, arith, ◌==◌, length, Bool-cases, none, some, ==_iff,
}
use polarfs.Tx.Op.{MetaObj, Op, Tx, put, create, address, new_op}
use polarfs.Tx.Queue.{Mem, Distinct, Mem-append, Mem_of-append, Distinct-append}

pub none-ne-some : {A : Type 0} (a : A) → none ≢ some a
none-ne-some a e = ground arith

pub of_some : {A : Type 0} (a b : A) → some a ≡ some b → a ≡ b
of_some a b e = ap (λ o. elim o [ none ↦ a | some x ↦ x ]) e

pub true-ne-false : true ≢ false
true-ne-false e = ground arith

pub put_self : {A : Type 0} (f : ℕ → A) (i : ℕ) (a : A) → put f i a i ≡ a
put_self f i a = rw (eq→== i i refl)

pub put_ne : {A : Type 0} (f : ℕ → A) (i : ℕ) (a : A) (j : ℕ) → j ≢ i → put f i a j ≡ f j
put_ne f i a j n = elim (Bool-cases (j == i)) [
  | inl e ↦ absurd (n ((==_iff j i).0 e))
  | inr e ↦ rw e
]

-- What the invariant reads of two operations is the same.
pub record Alike (o o' : Op) : Type 0 where
  pub same_address : address o' ≡ address o
  pub same_head : o'.dup_head ≡ o.dup_head
  pub same_inited : o'.inited ≡ o.inited

pub Alike-refl : (o : Op) → Alike o o
Alike-refl o = record { same_address = refl; same_head = refl; same_inited = refl }

-- `h` is the head for the object of type `t` and number `n`.
pub record IsHead (meta : ℕ → MetaObj) (tx : Tx) (t n h : ℕ) : Type 0 where
  pub created : h < tx.next
  pub own : (tx.ops h).dup_head ≡ some h
  pub at : ℕ
  pub placed : address (tx.ops h) ≡ some at
  pub type_at : (meta at).mo_type ≡ t
  pub number_at : (meta at).mo_number ≡ n
  pub listed : Mem h tx.t_ops

-- An operation with head `h` is on an object for which the index finds `h`.
pub record IsPlaced (meta : ℕ → MetaObj) (tx : Tx) (i h : ℕ) : Type 0 where
  pub at : ℕ
  pub placed : address (tx.ops i) ≡ some at
  pub found : tx.index (meta at).mo_type (meta at).mo_number ≡ some h

pub record IsWf (meta : ℕ → MetaObj) (tx : Tx) : Type 0 where
  pub heads : (t n h : ℕ) → tx.index t n ≡ some h → IsHead meta tx t n h
  pub members : (i h : ℕ) → (tx.ops i).dup_head ≡ some h → IsPlaced meta tx i h
  pub unplaced : (i : ℕ) → (tx.ops i).inited ≡ false → (tx.ops i).dup_head ≡ none
  pub below : (i : ℕ) → Mem i tx.t_ops → i < tx.next
  pub closed : (i : ℕ) → Mem i tx.t_ops → (tx.ops i).finished ≡ true → (tx.ops i).dup_head ≡ some i
  pub pending : (i : ℕ) → i < tx.next → (tx.ops i).finished ≡ false → Mem i tx.t_ops
  pub distinct : Distinct tx.t_ops
  pub counted : tx.t_nops ≡ length tx.t_ops

module _ (meta : ℕ → MetaObj) where
  IsHead-ops :
      (tx : Tx) (ops : ℕ → Op) (t n h : ℕ)
      → Alike (tx.ops h) (ops h)
      → IsHead meta tx t n h
      → IsHead meta (record tx { ops = ops }) t n h
  IsHead-ops tx ops t n h alike w = record {
    created = w.created;
    own = alike.same_head ∙ w.own;
    at = w.at;
    placed = alike.same_address ∙ w.placed;
    type_at = w.type_at;
    number_at = w.number_at;
    listed = w.listed;
  }

  IsPlaced-ops :
      (tx : Tx) (ops : ℕ → Op) (i h : ℕ)
      → Alike (tx.ops i) (ops i)
      → IsPlaced meta tx i h
      → IsPlaced meta (record tx { ops = ops }) i h
  IsPlaced-ops tx ops i h alike w = record {
    at = w.at;
    placed = alike.same_address ∙ w.placed;
    found = w.found;
  }

  -- Changes of the other fields.
  pub Alike-IsWf :
      (tx : Tx) (ops : ℕ → Op)
      → ((i : ℕ) → Alike (tx.ops i) (ops i))
      → ((i : ℕ) → (ops i).finished ≡ (tx.ops i).finished)
      → IsWf meta tx
      → IsWf meta (record tx { ops = ops })
  Alike-IsWf tx ops alike same w = record {
    heads = λ t n h e. IsHead-ops tx ops t n h (alike h) (w.heads t n h e);
    members =
        λ i h e. IsPlaced-ops tx ops i h (alike i) (w.members i h (sym (alike i).same_head ∙ e));
    unplaced = λ i e. (alike i).same_head ∙ w.unplaced i (sym (alike i).same_inited ∙ e);
    below = w.below;
    closed = λ i m e. (alike i).same_head ∙ w.closed i m (sym (same i) ∙ e);
    pending = λ i l e. w.pending i l (sym (same i) ∙ e);
    distinct = w.distinct;
    counted = w.counted;
  }

  last-cases :
      (tx : Tx) (i : ℕ)
      → ((i ≢ tx.next) × ((new_op tx).ops i ≡ tx.ops i))
        ⊎ ((i ≡ tx.next) × ((new_op tx).ops i ≡ create))
  unfolding new_op
  last-cases tx i = elim (Bool-cases (i == tx.next)) [
    | inl e ↦ inr ((==_iff i tx.next).0 e, rw e)
    | inr e ↦ inl (λ k. true-ne-false (sym (eq→== i tx.next k) ∙ e), rw e)
  ]

  before : (xs : List ℕ) (y i : ℕ) → i ≢ y → Mem i (xs ++ y ∷ []) → Mem i xs
  before xs y i n m = elim (Mem_of-append i xs (y ∷ []) m) [
    | inl k ↦ k
    | inr (inl e) ↦ absurd (n e)
    | inr (inr b) ↦ absurd b
  ]

  pub new_op-IsWf : (tx : Tx) → IsWf meta tx → IsWf meta (new_op tx)
  unfolding new_op
  new_op-IsWf tx w = record {
    heads = λ t n h e.
        let v = w.heads t n h e in
        let same = put_ne tx.ops tx.next create h (omega (arith, v.created)) in
        record {
          created = omega (arith, v.created);
          own = ap (λ o. o.dup_head) same ∙ v.own;
          at = v.at;
          placed = ap address same ∙ v.placed;
          type_at = v.type_at;
          number_at = v.number_at;
          listed = Mem-append h tx.t_ops (tx.next ∷ []) (inl v.listed);
        };
    members = λ i h e. elim (last-cases tx i) [
      | inl (ne, same) ↦
          let v = w.members i h (ap (λ o. o.dup_head) (sym same) ∙ e) in
          record { at = v.at; placed = ap address same ∙ v.placed; found = v.found }
      | inr (l, new) ↦ absurd (none-ne-some h (ap (λ o. o.dup_head) (sym new) ∙ e))
    ];
    unplaced = λ i e. elim (last-cases tx i) [
      | inl (ne, same) ↦
          ap (λ o. o.dup_head) same ∙ w.unplaced i (ap (λ o. o.inited) (sym same) ∙ e)
      | inr (l, new) ↦ ap (λ o. o.dup_head) new
    ];
    below = λ i m. elim (Mem_of-append i tx.t_ops (tx.next ∷ []) m) [
      | inl k ↦ omega (arith, w.below i k)
      | inr (inl e) ↦ omega (arith, e)
      | inr (inr b) ↦ absurd b
    ];
    closed = λ i m e. elim (last-cases tx i) [
      | inl (ne, same) ↦
          ap (λ o. o.dup_head) same
          ∙ w.closed i (before tx.t_ops tx.next i ne m) (ap (λ o. o.finished) (sym same) ∙ e)
      | inr (l, new) ↦ absurd (true-ne-false (sym e ∙ ap (λ o. o.finished) new))
    ];
    pending = λ i l e. elim (last-cases tx i) [
      | inl (ne, same) ↦
          Mem-append i tx.t_ops (tx.next ∷ [])
            (inl (w.pending i (omega arith) (ap (λ o. o.finished) (sym same) ∙ e)))
      | inr (l, new) ↦ Mem-append i tx.t_ops (tx.next ∷ []) (inr (inl l))
    ];
    distinct =
        Distinct-append tx.t_ops tx.next w.distinct
          (λ m. absurd (omega (arith, w.below tx.next m)));
    counted = omega (arith, w.counted, length-append tx.t_ops (tx.next ∷ []));
  }
