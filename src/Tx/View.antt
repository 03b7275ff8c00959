-- ===== src/Tx/View.antt =====
-- What a transaction sees of the objects, and what it applies.
use mathlib.Core.Path.{subst}
use native.Mathlib.Decide.{ℕ_discrete}
use polarfs.Prelude.{
  ℕ, ◌+◌, ◌≡◌, ◌≢◌, refl, sym, ap, ◌∙◌, ◌⊎◌, inl, inr, true, false, List, [], ◌∷◌, none, some,
  Option-cases,
}
use polarfs.Tx.Op.{MetaObj, Op, Tx, put, address, get_mo, apply}
use polarfs.Tx.Queue.{Mem}
use polarfs.Tx.Wf.{IsWf, put_self, put_ne, none-ne-some, of_some}

-- No two objects in memory have the same type and number.
abbrev pub AreKeyed : (ℕ → MetaObj) → Type 0
AreKeyed meta =
    (a b : ℕ)
    → (meta a).mo_type ≡ (meta b).mo_type
    → (meta a).mo_number ≡ (meta b).mo_number
    → a ≡ b

module _ (meta : ℕ → MetaObj) (tx : Tx) (open_tx : tx.t_done ≡ false) where
  pub seen-none :
      (b : ℕ) → tx.index (meta b).mo_type (meta b).mo_number ≡ none → get_mo meta tx b ≡ meta b
  unfolding get_mo
  seen-none b e = rw (open_tx, e, get_mo) refl

  pub seen-some :
      (b h : ℕ)
      → tx.index (meta b).mo_type (meta b).mo_number ≡ some h
      → get_mo meta tx b ≡ (tx.ops h).value
  unfolding get_mo
  seen-some b h e = rw (open_tx, e, get_mo) refl

module _ (meta : ℕ → MetaObj) (keyed : AreKeyed meta) (tx : Tx) (w : IsWf meta tx) where
  -- The object that a head is for.
  head_at :
      (b h : ℕ)
      → tx.index (meta b).mo_type (meta b).mo_number ≡ some h
      → address (tx.ops h) ≡ some b
  head_at b h e =
      let v = w.heads (meta b).mo_type (meta b).mo_number h e in
      v.placed ∙ ap some (keyed v.at b v.type_at v.number_at)

  -- An operation at `a` is on the object that the index finds there.
  pub placed_at :
      (i h a : ℕ)
      → (tx.ops i).dup_head ≡ some h
      → address (tx.ops i) ≡ some a
      → tx.index (meta a).mo_type (meta a).mo_number ≡ some h
  placed_at i h a e at_a =
      let v = w.members i h e in
      subst (λ k. tx.index (meta k).mo_type (meta k).mo_number ≡ some h)
        (of_some v.at a (sym v.placed ∙ at_a)) v.found

  -- A change of the value of the head for `a` changes the object seen there, and no other.
  pub change-get_mo :
      (tx' : Tx) (g : MetaObj → MetaObj) (a head : ℕ)
      → tx.t_done ≡ false
      → tx'.t_done ≡ false
      → tx'.index ≡ tx.index
      → tx.index (meta a).mo_type (meta a).mo_number ≡ some head
      → (tx'.ops head).value ≡ g (tx.ops head).value
      → ((i : ℕ) → i ≢ head → (tx'.ops i).value ≡ (tx.ops i).value)
      → (b : ℕ) → get_mo meta tx' b ≡ put (get_mo meta tx) a (g (get_mo meta tx a)) b
  change-get_mo tx' g a head o o' same at_a changed others b = elim (ℕ_discrete b a) [
    | yes e ↦
        ap (get_mo meta tx') e
        ∙ seen-some meta tx' o' a head (ap (λ f. f (meta a).mo_type (meta a).mo_number) same ∙ at_a)
        ∙ changed
        ∙ ap g (sym (seen-some meta tx o a head at_a))
        ∙ sym (put_self (get_mo meta tx) a (g (get_mo meta tx a)))
        ∙ ap (put (get_mo meta tx) a (g (get_mo meta tx a))) (sym e)
    | no ne ↦
        elim (Option-cases (tx.index (meta b).mo_type (meta b).mo_number)) [
          | inl n ↦
              seen-none meta tx' o' b (ap (λ f. f (meta b).mo_type (meta b).mo_number) same ∙ n)
              ∙ sym (seen-none meta tx o b n)
          | inr (h, s) ↦
              seen-some meta tx' o' b h (ap (λ f. f (meta b).mo_type (meta b).mo_number) same ∙ s)
              ∙ others h (λ k. ne (
                  of_some b a
                    (sym (head_at b h s) ∙ ap (λ i. address (tx.ops i)) k ∙ head_at a head at_a)))
              ∙ sym (seen-some meta tx o b h s)
        ]
        ∙ sym (put_ne (get_mo meta tx) a (g (get_mo meta tx a)) b ne)
  ]

pub unbound : (o : Op) → o.buf ≡ none → address o ≡ none
unbound o e = rw e refl

pub bound : (o : Op) (buf : ℕ) → o.buf ≡ some buf → address o ≡ some (buf + o.idx)
bound o buf e = rw e refl

-- What `pfs_tx_apply` leaves at `a`, where its operations for `a` have the value `v`.
apply-value :
    (ops : ℕ → Op) (ids : List ℕ) (meta : ℕ → MetaObj) (a : ℕ) (v : MetaObj)
    → ((i : ℕ) → Mem i ids → address (ops i) ≡ some a → (ops i).value ≡ v)
    → (meta a ≡ v) ⊎ ((i : ℕ) × (Mem i ids × (address (ops i) ≡ some a)))
    → apply ops ids meta a ≡ v
unfolding apply
apply-value ops [] meta a v all (inl e) = e
apply-value ops [] meta a v all (inr (i, (m, e))) = absurd m
apply-value ops (id ∷ ids) meta a v all some_one = elim (Option-cases (ops id).buf) [
  | inl n ↦
      rw (n, apply)
        (apply-value ops ids meta a v (λ i m. all i (inr m))
          (skip (λ e. none-ne-some a (sym (unbound (ops id) n) ∙ e)) some_one))
  | inr (buf, e) ↦
      rw (e, apply)
        (apply-value ops ids (put meta (buf + (ops id).idx) (ops id).value) a v
          (λ i m. all i (inr m))
          (elim (ℕ_discrete a (buf + (ops id).idx)) [
            | yes k ↦ inl (
                ap (put meta (buf + (ops id).idx) (ops id).value) k
                ∙ put_self meta (buf + (ops id).idx) (ops id).value
                ∙ all id (inl refl) (bound (ops id) buf e ∙ ap some (sym k)))
            | no ne ↦
                at_other (put meta (buf + (ops id).idx) (ops id).value)
                  (put_ne meta (buf + (ops id).idx) (ops id).value a ne)
                  (skip (λ k. ne (of_some a (buf + (ops id).idx) (sym k ∙ bound (ops id) buf e)))
                    some_one)
          ]))
]
  where
    skip :
        (¬ (address (ops id) ≡ some a))
        → (meta a ≡ v) ⊎ ((i : ℕ) × (Mem i (id ∷ ids) × (address (ops i) ≡ some a)))
        → (meta a ≡ v) ⊎ ((i : ℕ) × (Mem i ids × (address (ops i) ≡ some a)))
    skip n (inl e) = inl e
    skip n (inr (i, (inl k, e))) = absurd (n (ap (λ j. address (ops j)) (sym k) ∙ e))
    skip n (inr (i, (inr m, e))) = inr (i, (m, e))

    at_other :
        (meta' : ℕ → MetaObj)
        → meta' a ≡ meta a
        → (meta a ≡ v) ⊎ ((i : ℕ) × (Mem i ids × (address (ops i) ≡ some a)))
        → (meta' a ≡ v) ⊎ ((i : ℕ) × (Mem i ids × (address (ops i) ≡ some a)))
    at_other meta' same (inl e) = inl (same ∙ e)
    at_other meta' same (inr m) = inr m

-- Once its operations are done, a transaction applies just what it sees.
pub apply-get_mo :
    (meta : ℕ → MetaObj) (tx : Tx)
    → AreKeyed meta
    → IsWf meta tx
    → tx.t_done ≡ false
    → ((i : ℕ) → Mem i tx.t_ops → (tx.ops i).finished ≡ true)
    → (a : ℕ) → apply tx.ops tx.t_ops meta a ≡ get_mo meta tx a
apply-get_mo meta tx keyed w open_tx all a =
    elim (Option-cases (tx.index (meta a).mo_type (meta a).mo_number)) [
      | inl n ↦
          apply-value tx.ops tx.t_ops meta a (meta a)
            (λ i m e.
              absurd (
                none-ne-some i
                  (sym n ∙ placed_at meta keyed tx w i i a (w.closed i m (all i m)) e)))
            (inl refl)
          ∙ sym (seen-none meta tx open_tx a n)
      | inr (h, s) ↦
          apply-value tx.ops tx.t_ops meta a (tx.ops h).value
            (λ i m e.
              ap (λ j. (tx.ops j).value)
                (of_some i h
                  (sym (placed_at meta keyed tx w i i a (w.closed i m (all i m)) e) ∙ s)))
            (inr (
              h,
              (
                (w.heads (meta a).mo_type (meta a).mo_number h s).listed,
                head_at meta keyed tx w a h s,
              ),
            ))
          ∙ sym (seen-some meta tx open_tx a h s)
    ]
