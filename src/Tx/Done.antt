-- ===== src/Tx/Done.antt =====
-- `_pfs_tx_done_op` keeps the invariant of a transaction.
use mathlib.Core.Path.{subst}
use polarfs.Prelude.{ℕ, ◌<◌, ◌≡◌, ◌≢◌, sym, ap, ◌∙◌, ◌⊎◌, inl, inr, arith, length, Option, some}
use native.Mathlib.Decide.{ℕ_discrete}
use polarfs.Tx.Op.{MetaObj, Tx, done_op, remove}
use polarfs.Tx.Queue.{
  Mem, Distinct, Mem-remove, Mem_of-remove, Distinct-remove, not_Mem-remove, length-remove,
}
use polarfs.Tx.Wf.{IsWf, true-ne-false, of_some}
use polarfs.Tx.Close.{IsClosed, done_op-IsClosed}

module _ (meta : ℕ → MetaObj) (crc : MetaObj → ℕ) (tx : Tx) (id : ℕ) (cb : Option ℕ) (head : ℕ)
    (tx' : Tx) (w : IsWf meta tx) (listed : Mem id tx.t_ops)
    (placed : (tx.ops id).dup_head ≡ some head) (c : IsClosed crc tx id cb head tx') where
  -- A head stays on the list.
  stays : (i : ℕ) → ((i ≡ id) → head ≡ id) → Mem i tx.t_ops → Mem i tx'.t_ops
  stays i own m = elim c.queue [
    | inl (e, q, n) ↦ subst (Mem i) (sym q) m
    | inr (ne, q, n) ↦ subst (Mem i) (sym q) (Mem-remove i tx.t_ops id (λ k. ne (own k)) m)
  ]

  -- What is on the list was, and is `id` only if that is a head.
  was : (i : ℕ) → Mem i tx'.t_ops → Mem i tx.t_ops × ((i ≢ id) ⊎ (head ≡ id))
  was i m = elim c.queue [
    | inl (e, q, n) ↦ (subst (Mem i) q m, inr e)
    | inr (ne, q, n) ↦ (
      Mem_of-remove i tx.t_ops id (subst (Mem i) q m),
      inl (λ k.
          not_Mem-remove tx.t_ops id w.distinct
            (subst (λ j. Mem j (remove tx.t_ops id)) k (subst (Mem i) q m))),
    )
  ]

  head_of : (i : ℕ) → (tx'.ops i).dup_head ≡ (tx.ops i).dup_head
  head_of i = (c.alike i).same_head

  closed-IsWf : IsWf meta tx'
  closed-IsWf = record {
    heads = λ t n h e.
        let v = w.heads t n h (ap (λ f. f t n) (sym c.same_index) ∙ e) in
        record {
          created = subst (λ m. h < m) (sym c.same_next) v.created;
          own = head_of h ∙ v.own;
          at = v.at;
          placed = (c.alike h).same_address ∙ v.placed;
          type_at = v.type_at;
          number_at = v.number_at;
          listed =
              stays h
                (λ k.
                  of_some head id
                    (sym placed ∙ ap (λ i. (tx.ops i).dup_head) (sym k) ∙ v.own ∙ ap some k))
                v.listed;
        };
    members = λ i h e.
        let v = w.members i h (sym (head_of i) ∙ e) in
        record {
          at = v.at;
          placed = (c.alike i).same_address ∙ v.placed;
          found = ap (λ f. f (meta v.at).mo_type (meta v.at).mo_number) c.same_index ∙ v.found;
        };
    unplaced = λ i e. head_of i ∙ w.unplaced i (sym (c.alike i).same_inited ∙ e);
    below = λ i m. subst (λ n. i < n) (sym c.same_next) (w.below i (was i m).0);
    closed = λ i m e. elim (ℕ_discrete i id) [
      | yes k ↦ elim (was i m).1 [
        | inl ne ↦ absurd (ne k)
        | inr own ↦ head_of i ∙ ap (λ j. (tx.ops j).dup_head) k ∙ placed ∙ ap some (own ∙ sym k)
      ]
      | no ne ↦ head_of i ∙ w.closed i (was i m).0 (sym (c.others i ne) ∙ e)
    ];
    pending = λ i l e. elim (ℕ_discrete i id) [
      | yes k ↦ absurd (true-ne-false (sym c.now_done ∙ ap (λ j. (tx'.ops j).finished) (sym k) ∙ e))
      | no ne ↦
          stays i (λ k. absurd (ne k))
            (w.pending i (subst (λ n. i < n) c.same_next l) (sym (c.others i ne) ∙ e))
    ];
    distinct = elim c.queue [
      | inl (e, q, n) ↦ subst Distinct (sym q) w.distinct
      | inr (ne, q, n) ↦ subst Distinct (sym q) (Distinct-remove tx.t_ops id w.distinct)
    ];
    counted = elim c.queue [
      | inl (e, q, n) ↦ n ∙ w.counted ∙ ap length (sym q)
      | inr (ne, q, n) ↦
          n ∙ omega (arith, w.counted, length-remove tx.t_ops id listed) ∙ ap length (sym q)
    ];
  }

pub done_op-IsWf :
    (meta : ℕ → MetaObj) (crc : MetaObj → ℕ) (tx : Tx) (id : ℕ) (cb : Option ℕ) (tx' : Tx)
    → IsWf meta tx
    → id < tx.next
    → done_op crc tx id cb ≡ some tx'
    → IsWf meta tx'
done_op-IsWf meta crc tx id cb tx' w created e =
    let (head, h, c) = done_op-IsClosed crc tx id cb tx' e in
    closed-IsWf meta crc tx id cb head tx' w (w.pending id created c.was_open) h c
