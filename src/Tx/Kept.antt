-- ===== src/Tx/Kept.antt =====
-- Starting and changing an operation keep the invariant, and what they make of the objects that the
-- transaction sees (`pfs_tx_get_mo`).
use mathlib.Core.Path.{subst, ap₂}
use polarfs.Prelude.{
  ℕ, ◌+◌, ◌<◌, ◌≡◌, ◌≢◌, refl, sym, ap, ◌∙◌, ◌⊎◌, inl, inr, false, ◌&&◌, arith, ◌==◌, Bool-cases,
  Option, none, some, Option-cases, eq→==,
}
use polarfs.Tx.Op.{MetaObj, Op, Tx, put, address, init, modify}
use polarfs.Tx.Wf.{IsHead, IsWf, Alike, Alike-IsWf, put_self, put_ne, none-ne-some, of_some}
use polarfs.Tx.Alike.{put-Alike, put-field}
use polarfs.Tx.Init.{IsNew, placed-IsWf, old-IsHead, init-cases, head_op, dup_op, enter}

pub not_head :
    (meta : ℕ → MetaObj) (tx : Tx) (id : ℕ)
    → IsWf meta tx
    → (tx.ops id).inited ≡ false
    → (head : ℕ) → (tx.ops head).dup_head ≡ some head
    → head ≢ id
not_head meta tx id w free head own e =
    none-ne-some head (sym (w.unplaced id free) ∙ ap (λ i. (tx.ops i).dup_head) (sym e) ∙ own)

pub enter-cases :
    (index : ℕ → ℕ → Option ℕ) (obj : MetaObj) (id t n : ℕ)
    → ((t ≡ obj.mo_type) × (n ≡ obj.mo_number) × (enter index obj id t n ≡ some id))
      ⊎ (enter index obj id t n ≡ index t n)
enter-cases index obj id t n = elim (Bool-cases (t == obj.mo_type && n == obj.mo_number)) [
  | inl e ↦ inl (ground arith, ground arith, rw e)
  | inr e ↦ inr (rw e)
]

pub enter_self :
    (index : ℕ → ℕ → Option ℕ) (obj : MetaObj) (id : ℕ)
    → enter index obj id obj.mo_type obj.mo_number ≡ some id
enter_self index obj id =
    rw (eq→== obj.mo_type obj.mo_type refl, eq→== obj.mo_number obj.mo_number refl)

module _ (meta : ℕ → MetaObj) (tx : Tx) (id buf oid bda : ℕ) (w : IsWf meta tx)
    (created : id < tx.next) (free : (tx.ops id).inited ≡ false)
    (unfinished : (tx.ops id).finished ≡ false) where
  abbrev k_type : ℕ
  k_type = (meta (buf + oid)).mo_type

  abbrev k_number : ℕ
  k_number = (meta (buf + oid)).mo_number

  as_head-IsWf :
      tx.index k_type k_number ≡ none
      → IsWf meta (record tx {
        index = enter tx.index (meta (buf + oid)) id;
        ops = put tx.ops id (head_op meta (tx.ops id) id buf oid bda);
      })
  as_head-IsWf n =
      placed-IsWf meta tx id (buf + oid) id (head_op meta (tx.ops id) id buf oid bda)
        (record { head_is = refl; address_is = refl; inited_is = refl; open_is = unfinished }) w
        created free unfinished (enter tx.index (meta (buf + oid)) id)
        (enter_self tx.index (meta (buf + oid)) id) kept heads
    where
      kept : (t m h : ℕ) → tx.index t m ≡ some h → enter tx.index (meta (buf + oid)) id t m ≡ some h
      kept t m h e = elim (enter-cases tx.index (meta (buf + oid)) id t m) [
        | inl (et, em, is) ↦ absurd (none-ne-some h (sym n ∙ ap₂ tx.index (sym et) (sym em) ∙ e))
        | inr same ↦ same ∙ e
      ]

      heads :
          (t m h : ℕ)
          → enter tx.index (meta (buf + oid)) id t m ≡ some h
          → IsHead meta
              (record tx {
                index = enter tx.index (meta (buf + oid)) id;
                ops = put tx.ops id (head_op meta (tx.ops id) id buf oid bda);
              })
              t
              m
              h
      heads t m h e = elim (enter-cases tx.index (meta (buf + oid)) id t m) [
        | inl (et, em, is) ↦
            subst
              (IsHead meta
                (record tx {
                  index = enter tx.index (meta (buf + oid)) id;
                  ops = put tx.ops id (head_op meta (tx.ops id) id buf oid bda);
                })
                t m)
              (of_some id h (sym is ∙ e))
              (record {
                created = created;
                own =
                    ap (λ o. o.dup_head)
                      (put_self tx.ops id (head_op meta (tx.ops id) id buf oid bda));
                at = buf + oid;
                placed = ap address (put_self tx.ops id (head_op meta (tx.ops id) id buf oid bda));
                type_at = sym et;
                number_at = sym em;
                listed = w.pending id created unfinished;
              })
        | inr same ↦
            old-IsHead meta tx id (buf + oid) id (head_op meta (tx.ops id) id buf oid bda)
              (record { head_is = refl; address_is = refl; inited_is = refl; open_is = unfinished })
              w created free unfinished (enter tx.index (meta (buf + oid)) id)
              (enter_self tx.index (meta (buf + oid)) id) kept t m h (sym same ∙ e)
      ]

  as_dup-IsWf :
      (head : ℕ)
      → tx.index k_type k_number ≡ some head
      → IsWf meta (record tx {
        ops =
            put
              (put tx.ops id (dup_op meta (tx.ops id) head (tx.ops head) buf oid bda))
              head
              (record (tx.ops head) { dup_cnt = (tx.ops head).dup_cnt + 1 });
      })
  as_dup-IsWf head f =
      Alike-IsWf meta (record tx { ops = base })
        (put base head (record (tx.ops head) { dup_cnt = (tx.ops head).dup_cnt + 1 }))
        (put-Alike base head (record (tx.ops head) { dup_cnt = (tx.ops head).dup_cnt + 1 })
          (subst (λ o. Alike o (record (tx.ops head) { dup_cnt = (tx.ops head).dup_cnt + 1 }))
            (sym same) (record { same_address = refl; same_head = refl; same_inited = refl })))
        (put-field (λ o. o.finished) base head
          (record (tx.ops head) { dup_cnt = (tx.ops head).dup_cnt + 1 })
          (ap (λ o. o.finished) (sym same)))
        (placed-IsWf meta tx id (buf + oid) head
          (dup_op meta (tx.ops id) head (tx.ops head) buf oid bda) fresh w created free unfinished
          tx.index f (λ t m h e. e)
          (old-IsHead meta tx id (buf + oid) head
            (dup_op meta (tx.ops id) head (tx.ops head) buf oid bda) fresh w created free unfinished
            tx.index f (λ t m h e. e)))
    where
      base : ℕ → Op
      base = put tx.ops id (dup_op meta (tx.ops id) head (tx.ops head) buf oid bda)

      fresh : IsNew (dup_op meta (tx.ops id) head (tx.ops head) buf oid bda) head (buf + oid)
      fresh = record { head_is = refl; address_is = refl; inited_is = refl; open_is = unfinished }

      same : base head ≡ tx.ops head
      same =
          put_ne tx.ops id (dup_op meta (tx.ops id) head (tx.ops head) buf oid bda) head
            (not_head meta tx id w free head (w.heads k_type k_number head f).own)

module _ (meta : ℕ → MetaObj) where
  pub init-IsWf :
      (tx : Tx) (id buf oid bda : ℕ) (tx' : Tx)
      → IsWf meta tx
      → id < tx.next
      → init meta tx id buf oid bda ≡ some tx'
      → IsWf meta tx'
  init-IsWf tx id buf oid bda tx' w created e =
      let (free, unfinished, ends) = init-cases meta tx id buf oid bda tx' w e in
      elim ends [
        | inl (n, is) ↦
            subst (IsWf meta) (sym is)
              (as_head-IsWf meta tx id buf oid bda w created free unfinished n)
        | inr (head, (f, is)) ↦
            subst (IsWf meta) (sym is)
              (as_dup-IsWf meta tx id buf oid bda w created free unfinished head f)
      ]

  modify-none :
      (tx : Tx) (id : ℕ) (f : MetaObj → MetaObj) → (tx.ops id).dup_head ≡ none → modify tx id f ≡ tx
  unfolding modify
  modify-none tx id f n = rw (n, modify) refl

  pub modify-some :
      (tx : Tx) (id : ℕ) (f : MetaObj → MetaObj) (head : ℕ)
      → (tx.ops id).dup_head ≡ some head
      → modify tx id f ≡ record tx {
        ops = put tx.ops head (record (tx.ops head) { value = f (tx.ops head).value });
      }
  unfolding modify
  modify-some tx id f head s = rw (s, modify) refl

  pub modify-IsWf :
      (tx : Tx) (id : ℕ) (f : MetaObj → MetaObj) → IsWf meta tx → IsWf meta (modify tx id f)
  modify-IsWf tx id f w = elim (Option-cases (tx.ops id).dup_head) [
    | inl n ↦ subst (IsWf meta) (sym (modify-none tx id f n)) w
    | inr (head, s) ↦
        let o : Op = record (tx.ops head) { value = f (tx.ops head).value } in
        subst (IsWf meta) (sym (modify-some tx id f head s)) (
          Alike-IsWf meta tx (put tx.ops head o)
            (put-Alike tx.ops head o
              (record { same_address = refl; same_head = refl; same_inited = refl }))
            (put-field (λ o. o.finished) tx.ops head o refl) w)
  ]
