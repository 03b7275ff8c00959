-- ===== src/Tx/Seen.antt =====
-- A transaction shows its caller, and applies, the objects as its changes leave them.
use mathlib.Core.Path.{subst, ap₂}
use polarfs.Prelude.{
  ℕ, ◌+◌, ◌≡◌, ◌≢◌, refl, sym, ap, ◌∙◌, inl, inr, true, false, arith, none, some, Option-cases,
}
use native.Mathlib.Decide.{ℕ_discrete}
use polarfs.Tx.Op.{MetaObj, Op, Tx, put, create, new_op, init, seal, get_mo, apply}
use polarfs.Tx.Queue.{Mem}
use polarfs.Tx.Wf.{IsWf, put_self, put_ne}
use polarfs.Tx.Init.{init-cases, head_op, dup_op, enter}
use polarfs.Tx.Kept.{modify-some, enter-cases, not_head}
use polarfs.Tx.Close.{done_op-IsClosed}
use polarfs.Tx.View.{AreKeyed, seen-none, seen-some, change-get_mo, placed_at, apply-get_mo}
use polarfs.Tx.Reached.{Reached, tx_get, got, created, opened, changed, closed, Reached-IsWf}

put_ext :
    (f g : ℕ → MetaObj) (a : ℕ) (k : MetaObj → MetaObj)
    → ((b : ℕ) → f b ≡ g b)
    → (b : ℕ) → put f a (k (f a)) b ≡ put g a (k (g a)) b
put_ext f g a k same b = elim (ℕ_discrete b a) [
  | yes e ↦
      ap (put f a (k (f a))) e
      ∙ put_self f a (k (f a))
      ∙ ap k (same a)
      ∙ sym (put_self g a (k (g a)))
      ∙ ap (put g a (k (g a))) (sym e)
  | no ne ↦ put_ne f a (k (f a)) b ne ∙ same b ∙ sym (put_ne g a (k (g a)) b ne)
]

-- Nothing that the heads hold has changed.
same-get_mo :
    (meta : ℕ → MetaObj) (tx tx' : Tx)
    → tx.t_done ≡ false
    → tx'.t_done ≡ false
    → tx'.index ≡ tx.index
    → ((t n h : ℕ) → tx.index t n ≡ some h → (tx'.ops h).value ≡ (tx.ops h).value)
    → (b : ℕ) → get_mo meta tx' b ≡ get_mo meta tx b
same-get_mo meta tx tx' o o' same values b =
    elim (Option-cases (tx.index (meta b).mo_type (meta b).mo_number)) [
      | inl n ↦
          seen-none meta tx' o' b (ap (λ f. f (meta b).mo_type (meta b).mo_number) same ∙ n)
          ∙ sym (seen-none meta tx o b n)
      | inr (h, s) ↦
          seen-some meta tx' o' b h (ap (λ f. f (meta b).mo_type (meta b).mo_number) same ∙ s)
          ∙ values (meta b).mo_type (meta b).mo_number h s
          ∙ sym (seen-some meta tx o b h s)
    ]

module _ (meta : ℕ → MetaObj) (keyed : AreKeyed meta) where
  new_op-get_mo :
      (tx : Tx)
      → IsWf meta tx
      → tx.t_done ≡ false
      → (b : ℕ) → get_mo meta (new_op tx) b ≡ get_mo meta tx b
  unfolding new_op
  new_op-get_mo tx w o = same-get_mo meta tx (new_op tx) o o refl (λ t n h e.
      ap (λ x. x.value) (put_ne tx.ops tx.next create h (omega (arith, (w.heads t n h e).created))))

  new_op-t_done : (tx : Tx) → (new_op tx).t_done ≡ tx.t_done
  unfolding new_op
  new_op-t_done tx = refl

  as_head-get_mo :
      (tx : Tx) (id buf oid bda : ℕ)
      → IsWf meta tx
      → tx.t_done ≡ false
      → (tx.ops id).inited ≡ false
      → tx.index (meta (buf + oid)).mo_type (meta (buf + oid)).mo_number ≡ none
      → (b : ℕ)
      → get_mo meta
          (record tx {
            index = enter tx.index (meta (buf + oid)) id;
            ops = put tx.ops id (head_op meta (tx.ops id) id buf oid bda);
          })
          b
        ≡ get_mo meta tx b
  as_head-get_mo tx id buf oid bda w o free n b =
      let o' = head_op meta (tx.ops id) id buf oid bda in
      let tx' : Tx = record tx {
        index = enter tx.index (meta (buf + oid)) id;
        ops = put tx.ops id o';
      } in
      elim (enter-cases tx.index (meta (buf + oid)) id (meta b).mo_type (meta b).mo_number) [
        | inl (et, en, is) ↦
            seen-some meta tx' o b id is
            ∙ ap (λ x. x.value) (put_self tx.ops id o')
            ∙ ap meta (keyed (buf + oid) b (sym et) (sym en))
            ∙ sym (seen-none meta tx o b (ap₂ tx.index et en ∙ n))
        | inr same ↦ elim (Option-cases (tx.index (meta b).mo_type (meta b).mo_number)) [
          | inl m ↦ seen-none meta tx' o b (same ∙ m) ∙ sym (seen-none meta tx o b m)
          | inr (h, s) ↦
              seen-some meta tx' o b h (same ∙ s)
              ∙ ap (λ x. x.value)
                  (put_ne tx.ops id o' h (
                    not_head meta tx id w free h
                      (w.heads (meta b).mo_type (meta b).mo_number h s).own))
              ∙ sym (seen-some meta tx o b h s)
        ]
      ]

  as_dup_value :
      (tx : Tx) (id head : ℕ) (o o' : Op)
      → o'.value ≡ (tx.ops head).value
      → (h : ℕ) → h ≢ id
      → (put (put tx.ops id o) head o' h).value ≡ (tx.ops h).value
  as_dup_value tx id head o o' e h ne = elim (ℕ_discrete h head) [
    | yes k ↦
        ap (λ i. (put (put tx.ops id o) head o' i).value) k
        ∙ ap (λ x. x.value) (put_self (put tx.ops id o) head o')
        ∙ e
        ∙ ap (λ i. (tx.ops i).value) (sym k)
    | no n ↦ ap (λ x. x.value) (put_ne (put tx.ops id o) head o' h n ∙ put_ne tx.ops id o h ne)
  ]

  -- Taking up an object shows it as it is, the first time and any other.
  init-get_mo :
      (tx : Tx) (id buf oid bda : ℕ) (tx' : Tx)
      → IsWf meta tx
      → tx.t_done ≡ false
      → init meta tx id buf oid bda ≡ some tx'
      → (tx'.t_done ≡ false) × ((b : ℕ) → get_mo meta tx' b ≡ get_mo meta tx b)
  init-get_mo tx id buf oid bda tx' w o e =
      let (free, unfinished, ends) = init-cases meta tx id buf oid bda tx' w e in
      elim ends [
        | inl (n, is) ↦
            subst (λ t. (t.t_done ≡ false) × ((b : ℕ) → get_mo meta t b ≡ get_mo meta tx b))
              (sym is) (o, as_head-get_mo tx id buf oid bda w o free n)
        | inr (head, (f, is)) ↦
            subst (λ t. (t.t_done ≡ false) × ((b : ℕ) → get_mo meta t b ≡ get_mo meta tx b))
              (sym is)
              (
                o,
                same-get_mo meta tx _ o o refl (λ t n h k.
                    as_dup_value tx id head (dup_op meta (tx.ops id) head (tx.ops head) buf oid bda)
                      (record (tx.ops head) { dup_cnt = (tx.ops head).dup_cnt + 1 }) refl h
                      (not_head meta tx id w free h (w.heads t n h k).own)),
              )
      ]

  pub Reached-get_mo :
      (crc : MetaObj → ℕ) (tx : Tx) (v : ℕ → MetaObj)
      → Reached meta crc tx v
      → (tx.t_done ≡ false) × ((b : ℕ) → get_mo meta tx b ≡ v b)
  Reached-get_mo crc tx v got = (refl, λ b. seen-none meta tx_get refl b refl)
  Reached-get_mo crc tx v (created t v' r) =
      let (o, sees) = Reached-get_mo crc t v' r in
      (new_op-t_done t ∙ o, λ b. new_op-get_mo t (Reached-IsWf meta crc t v' r) o b ∙ sees b)
  Reached-get_mo crc tx v (opened t v' id buf oid bda tx' r l e) =
      let (o, sees) = Reached-get_mo crc t v' r in
      let (o', same) = init-get_mo t id buf oid bda tx' (Reached-IsWf meta crc t v' r) o e in
      (o', λ b. same b ∙ sees b)
  Reached-get_mo crc tx v (changed t v' id head a f r h e k) =
      let (o, sees) = Reached-get_mo crc t v' r in
      let w = Reached-IsWf meta crc t v' r in
      let new : Op = record (t.ops head) { value = f (t.ops head).value } in
      subst (λ s. (s.t_done ≡ false) × ((b : ℕ) → get_mo meta s b ≡ put v' a (f (v' a)) b))
        (sym (modify-some meta t id f head h))
        (
          o,
          λ b.
              change-get_mo meta keyed t w (record t { ops = put t.ops head new }) f a head o o refl
                (placed_at meta keyed t w id head a h e)
                (ap (λ x. x.value) (put_self t.ops head new))
                (λ i n. ap (λ x. x.value) (put_ne t.ops head new i n)) b
              ∙ put_ext (get_mo meta t) v' a f sees b,
        )
  Reached-get_mo crc tx v (closed t v' id a cb tx' r l p e) =
      let (o, sees) = Reached-get_mo crc t v' r in
      let w = Reached-IsWf meta crc t v' r in
      let (head, h, c) = done_op-IsClosed crc t id cb tx' e in
      (
        c.same_done ∙ o,
        λ b.
            change-get_mo meta keyed t w tx' (seal crc) a head o (c.same_done ∙ o) c.same_index
              (placed_at meta keyed t w id head a h p) c.sealed c.unchanged b
            ∙ put_ext (get_mo meta t) v' a (seal crc) sees b,
      )

-- What a transaction applies once all its operations are done: the objects as the caller's changes
-- left them one after the other, however the operations were nested and however often an object was
-- taken up.
pub Reached-apply :
    (meta : ℕ → MetaObj) (crc : MetaObj → ℕ) (tx : Tx) (v : ℕ → MetaObj)
    → AreKeyed meta
    → Reached meta crc tx v
    → ((i : ℕ) → Mem i tx.t_ops → (tx.ops i).finished ≡ true)
    → (a : ℕ) → (apply tx.ops tx.t_ops meta a ≡ v a) × (get_mo meta tx a ≡ v a)
Reached-apply meta crc tx v keyed r all a =
    let (o, sees) = Reached-get_mo meta keyed crc tx v r in
    (apply-get_mo meta tx keyed (Reached-IsWf meta crc tx v r) o all a ∙ sees a, sees a)
