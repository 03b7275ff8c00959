-- ===== src/Tx/Init.antt =====
-- `pfs_txop_init` keeps the invariant of a transaction.
use mathlib.Core.Path.{subst}
use polarfs.Prelude.{
  ℕ, ◌+◌, ◌<◌, ◌≡◌, ◌≢◌, refl, sym, ap, ◌∙◌, ◌⊎◌, inl, inr, Bool, true, false, ◌&&◌, ◌||◌, ◌==◌,
  if◌then◌else◌, Bool-cases, Option, none, some, ==_iff, Option-cases, eq→==,
}
use polarfs.Tx.Op.{MetaObj, Op, Tx, put, place, address, init, index_op}
use polarfs.Tx.Queue.{Mem}
use polarfs.Tx.Alike.{put-cases}
use polarfs.Tx.Wf.{of_some, IsHead, IsWf, put_ne, none-ne-some, true-ne-false}

-- An operation `o` for the object at address `at`, with head `head`.
pub record IsNew (o : Op) (head at : ℕ) : Type 0 where
  pub head_is : o.dup_head ≡ some head
  pub address_is : address o ≡ some at
  pub inited_is : o.inited ≡ true
  pub open_is : o.finished ≡ false

module _ (meta : ℕ → MetaObj) (tx : Tx) (id at head : ℕ) (o : Op) (new : IsNew o head at)
    (w : IsWf meta tx) (created : id < tx.next) (free : (tx.ops id).inited ≡ false)
    (unfinished : (tx.ops id).finished ≡ false) (index : ℕ → ℕ → Option ℕ)
    (found : index (meta at).mo_type (meta at).mo_number ≡ some head)
    (kept : (t n h : ℕ) → tx.index t n ≡ some h → index t n ≡ some h) where
  not_head : (t n h : ℕ) → IsHead meta tx t n h → h ≢ id
  not_head t n h v e =
      none-ne-some h (sym (w.unplaced id free) ∙ ap (λ i. (tx.ops i).dup_head) (sym e) ∙ v.own)

  abbrev pub placed : Tx
  placed = record tx { index = index; ops = put tx.ops id o }

  pub old-IsHead : (t n h : ℕ) → tx.index t n ≡ some h → IsHead meta placed t n h
  old-IsHead t n h e =
      let v = w.heads t n h e in
      let same = put_ne tx.ops id o h (not_head t n h v) in
      record {
        created = v.created;
        own = ap (λ o. o.dup_head) same ∙ v.own;
        at = v.at;
        placed = ap address same ∙ v.placed;
        type_at = v.type_at;
        number_at = v.number_at;
        listed = v.listed;
      }

  pub placed-IsWf : ((t n h : ℕ) → index t n ≡ some h → IsHead meta placed t n h) → IsWf meta placed
  placed-IsWf heads = record {
    heads = heads;
    members = λ i h e. elim (put-cases tx.ops id o i) [
      | inl (at_id, is) ↦ record {
        at = at;
        placed = ap address is ∙ new.address_is;
        found = found ∙ sym new.head_is ∙ ap (λ o. o.dup_head) (sym is) ∙ e;
      }
      | inr (ne, same) ↦
          let v = w.members i h (ap (λ o. o.dup_head) (sym same) ∙ e) in
          record {
            at = v.at;
            placed = ap address same ∙ v.placed;
            found = kept (meta v.at).mo_type (meta v.at).mo_number h v.found;
          }
    ];
    unplaced = λ i e. elim (put-cases tx.ops id o i) [
      | inl (at_id, is) ↦
          absurd (true-ne-false (sym new.inited_is ∙ ap (λ o. o.inited) (sym is) ∙ e))
      | inr (ne, same) ↦
          ap (λ o. o.dup_head) same ∙ w.unplaced i (ap (λ o. o.inited) (sym same) ∙ e)
    ];
    below = w.below;
    closed = λ i m e. elim (put-cases tx.ops id o i) [
      | inl (at_id, is) ↦ absurd (true-ne-false (sym e ∙ ap (λ o. o.finished) is ∙ new.open_is))
      | inr (ne, same) ↦
          ap (λ o. o.dup_head) same ∙ w.closed i m (ap (λ o. o.finished) (sym same) ∙ e)
    ];
    pending = λ i l e. elim (put-cases tx.ops id o i) [
      | inl (at_id, is) ↦ subst (λ k. Mem k tx.t_ops) (sym at_id) (w.pending id created unfinished)
      | inr (ne, same) ↦ w.pending i l (ap (λ o. o.finished) (sym same) ∙ e)
    ];
    distinct = w.distinct;
    counted = w.counted;
  }

or-false : (a b c : Bool) → a || b || c ≡ false → (b ≡ false) × (c ≡ false)
or-false false false false e = (refl, refl)
or-false false false true e = absurd (true-ne-false e)
or-false false true c e = absurd (true-ne-false e)
or-false true b c e = absurd (true-ne-false e)

-- The operation that a first use of the object at `buf + oid` leaves.
abbrev pub head_op : (ℕ → MetaObj) → Op → ℕ → ℕ → ℕ → ℕ → Op
head_op meta op id buf oid bda =
    let obj = meta (buf + oid) in
    record (place op obj buf oid bda) { value = obj; dup_head = some id; dup_cnt = 1; dup_idx = 0 }

-- That of a further use, where `h` is the head.
abbrev pub dup_op : (ℕ → MetaObj) → Op → ℕ → Op → ℕ → ℕ → ℕ → Op
dup_op meta op head h buf oid bda = record (place op (meta (buf + oid)) buf oid bda) {
  dup_head = some head;
  dup_cnt = 0;
  dup_idx = h.dup_cnt;
}

abbrev pub enter : (ℕ → ℕ → Option ℕ) → MetaObj → ℕ → ℕ → ℕ → Option ℕ
enter index obj id t n = if t == obj.mo_type && n == obj.mo_number then some id else index t n

module _ (meta : ℕ → MetaObj) (tx : Tx) (id buf oid bda : ℕ) where
  abbrev obj : MetaObj
  obj = meta (buf + oid)

  abbrev pub AsHead : Tx → Type 0
  AsHead tx' =
      (tx.index (meta (buf + oid)).mo_type (meta (buf + oid)).mo_number ≡ none)
      × (tx' ≡ record tx {
        index = enter tx.index (meta (buf + oid)) id;
        ops = put tx.ops id (head_op meta (tx.ops id) id buf oid bda);
      })

  abbrev pub AsDup : Tx → ℕ → Type 0
  AsDup tx' head =
      (tx.index (meta (buf + oid)).mo_type (meta (buf + oid)).mo_number ≡ some head)
      × (tx' ≡ record tx {
        ops =
            put (put tx.ops id (dup_op meta (tx.ops id) head (tx.ops head) buf oid bda)) head
              (record (tx.ops head) { dup_cnt = (tx.ops head).dup_cnt + 1 });
      })

  apart :
      (head : ℕ)
      → (tx.ops id).dup_head ≡ none
      → (tx.ops head).dup_head ≡ some head
      → head == id ≡ false
  apart head n e = elim (Bool-cases (head == id)) [
    | inl k ↦
        absurd (
          none-ne-some head
            (sym n ∙ ap (λ i. (tx.ops i).dup_head) (sym ((==_iff head id).0 k)) ∙ e))
    | inr k ↦ k
  ]

  -- How `pfs_txop_init` ends.
  pub init-cases :
      (tx' : Tx)
      → IsWf meta tx
      → init meta tx id buf oid bda ≡ some tx'
      → ((tx.ops id).inited ≡ false)
        × ((tx.ops id).finished ≡ false)
        × (AsHead tx' ⊎ ((head : ℕ) × AsDup tx' head))
  unfolding init
  init-cases tx' w e =
      elim (Bool-cases ((tx.ops id).recreate || (tx.ops id).inited || (tx.ops id).finished)) [
        | inl b ↦ absurd (none-ne-some tx' (rw b at e))
        | inr b ↦
            let (free, unfinished) =
              or-false (tx.ops id).recreate (tx.ops id).inited (tx.ops id).finished b in
            (
              free,
              unfinished,
              elim (Option-cases
                  (tx.index (meta (buf + oid)).mo_type (meta (buf + oid)).mo_number)) [
                    | inl n ↦
                        inl (n, sym (of_some _ tx' (rw (b, n, index_op, eq→== id id refl) at e)))
                    | inr (head, f) ↦ inr (
                      head,
                      (
                        f,
                        sym (
                            of_some _ tx' (
                              rw
                                (
                                  b,
                                  f,
                                  index_op,
                                  apart head (w.unplaced id free) (w.heads _ _ head f).own,
                                )
                                at e)),
                      ),
                    )
                  ],
            )
      ]
