-- ===== src/Tx/Close.antt =====
-- `_pfs_tx_done_op`: what it leaves of a transaction.
use mathlib.Core.Path.{subst}
use polarfs.Prelude.{
  ℕ, ◌-◌, ◌≡◌, ◌≢◌, refl, sym, ap, ◌∙◌, ◌⊎◌, inl, inr, Bool, true, false, not, ◌&&◌, List, arith,
  ltb, ◌==◌, if◌then◌else◌, Bool-cases, Option, none, some, ==_iff, Option-cases, eq→==,
}
use polarfs.Tx.Op.{MetaObj, Op, Tx, put, seal, update, merge, done_op, remove}
use polarfs.Tx.Wf.{Alike, Alike-refl, put_self, put_ne, none-ne-some, true-ne-false, of_some}
use polarfs.Tx.Alike.{Alike-trans, put-put-Alike, put-put-field, put-Alike, put-field}

module _ (crc : MetaObj → ℕ) (tx : Tx) (id : ℕ) (cb : Option ℕ) where
  -- The operations with the head's checksum set and its nesting one less.
  abbrev head_sealed : ℕ → ℕ → Op
  head_sealed head = put tx.ops head (record (tx.ops head) {
    value = seal crc (tx.ops head).value;
    dup_cnt = (tx.ops head).dup_cnt - 1;
  })

  -- And `id` done.
  abbrev updated : ℕ → ℕ → Op
  updated head =
      put (head_sealed head) id (record (head_sealed head id) { cb = cb; finished = true })

  checked :
      (c : Bool) (t tx' : Tx) → (if c then some t else none) ≡ some tx' → (c ≡ true) × (tx' ≡ t)
  checked true t tx' k = (refl, sym (of_some t tx' k))
  checked false t tx' k = absurd (none-ne-some tx' k)

  open_of : (a b c d e : Bool) → a && b && not c && d && e ≡ true → c ≡ false
  open_of a b c d e k = ground arith

  update-cases :
      (tx' : Tx)
      → update crc tx id cb ≡ some tx'
      → (head : ℕ) × ((tx.ops id).dup_head ≡ some head)
        × ((tx.ops id).finished ≡ false)
        × (tx' ≡ record tx { ops = updated head })
  unfolding update
  update-cases tx' e = elim (Option-cases (tx.ops id).dup_head) [
    | inl n ↦ absurd (none-ne-some tx' (rw (n, update) at e))
    | inr (head, h) ↦ elim (Option-cases (tx.ops id).buf) [
      | inl n ↦ absurd (none-ne-some tx' (rw (h, n, update) at e))
      | inr (buf, b) ↦
          let in_order = (head_sealed head id).dup_idx == (updated head head).dup_cnt in
          let closed = (head_sealed head id).dup_cnt == 0 in
          let (all, is) =
            checked
              (ltb 0 (tx.ops head).dup_cnt
                && (tx.ops id).inited
                && not (tx.ops id).finished
                && in_order
                && closed)
              (record tx { ops = updated head }) tx' (rw (h, b, update) at e) in
          (
            head,
            h,
            open_of (ltb 0 (tx.ops head).dup_cnt) (tx.ops id).inited (tx.ops id).finished in_order
                closed all,
            is,
          )
    ]
  ]

  -- What a done operation leaves: its head sealed, itself done, and taken off the list if it is not
  -- the head.
  pub record IsClosed (head : ℕ) (tx' : Tx) : Type 0 where
    pub alike : (i : ℕ) → Alike (tx.ops i) (tx'.ops i)
    pub was_open : (tx.ops id).finished ≡ false
    pub now_done : (tx'.ops id).finished ≡ true
    pub others : (i : ℕ) → i ≢ id → (tx'.ops i).finished ≡ (tx.ops i).finished
    pub sealed : (tx'.ops head).value ≡ seal crc (tx.ops head).value
    pub unchanged : (i : ℕ) → i ≢ head → (tx'.ops i).value ≡ (tx.ops i).value
    pub same_index : tx'.index ≡ tx.index
    pub same_next : tx'.next ≡ tx.next
    pub same_done : tx'.t_done ≡ tx.t_done
    pub queue :
        ((head ≡ id) × (tx'.t_ops ≡ tx.t_ops) × (tx'.t_nops ≡ tx.t_nops))
        ⊎ ((head ≢ id) × (tx'.t_ops ≡ remove tx.t_ops id) × (tx'.t_nops ≡ tx.t_nops - 1))

  updated-Alike : (head : ℕ) (i : ℕ) → Alike (tx.ops i) (updated head i)
  updated-Alike head i =
      Alike-trans (tx.ops i) (head_sealed head i) (updated head i)
        (put-Alike tx.ops head
          (record (tx.ops head) {
            value = seal crc (tx.ops head).value;
            dup_cnt = (tx.ops head).dup_cnt - 1;
          })
          (record { same_address = refl; same_head = refl; same_inited = refl }) i)
        (put-Alike (head_sealed head) id (record (head_sealed head id) { cb = cb; finished = true })
          (record { same_address = refl; same_head = refl; same_inited = refl }) i)

  updated_value : (head : ℕ) (i : ℕ) → (updated head i).value ≡ (head_sealed head i).value
  updated_value head =
      put-field (λ o. o.value) (head_sealed head) id
        (record (head_sealed head id) { cb = cb; finished = true }) refl

  updated-IsClosed :
      (head : ℕ) (q : List ℕ) (n : ℕ)
      → ((head ≡ id) × (q ≡ tx.t_ops) × (n ≡ tx.t_nops))
        ⊎ ((head ≢ id) × (q ≡ remove tx.t_ops id) × (n ≡ tx.t_nops - 1))
      → (tx.ops id).finished ≡ false
      → IsClosed head (record tx { ops = updated head; t_ops = q; t_nops = n })
  updated-IsClosed head q n queue was_open = record {
    was_open = was_open;
    alike = updated-Alike head;
    now_done =
        ap (λ o. o.finished)
          (put_self (head_sealed head) id
            (record (head_sealed head id) { cb = cb; finished = true }));
    others = λ i ne.
        ap (λ o. o.finished)
          (put_ne (head_sealed head) id (record (head_sealed head id) { cb = cb; finished = true })
            i ne)
        ∙ put-field (λ o. o.finished) tx.ops head
            (record (tx.ops head) {
              value = seal crc (tx.ops head).value;
              dup_cnt = (tx.ops head).dup_cnt - 1;
            })
            refl i;
    sealed = updated_value head head ∙ ap (λ o. o.value) (put_self tx.ops head _);
    unchanged = λ i ne. updated_value head i ∙ ap (λ o. o.value) (put_ne tx.ops head _ i ne);
    same_index = refl;
    same_next = refl;
    same_done = refl;
    queue = queue;
  }

-- Merging leaves all that matters.
record IsMerged (tx tx' : Tx) : Type 0 where
  pub ops' : ℕ → Op
  pub is : tx' ≡ record tx { ops = ops' }
  pub alike : (i : ℕ) → Alike (tx.ops i) (ops' i)
  pub same_value : (i : ℕ) → (ops' i).value ≡ (tx.ops i).value
  pub same_finished : (i : ℕ) → (ops' i).finished ≡ (tx.ops i).finished

merge-IsMerged : (tx : Tx) (head id : ℕ) (tx' : Tx) → merge tx head id ≡ some tx' → IsMerged tx tx'
unfolding merge
merge-IsMerged tx head id tx' e = elim (Bool-cases ((tx.ops head).inited && (tx.ops id).finished)) [
  | inl c ↦ elim (Option-cases (tx.ops id).shadow) [
    | inl n ↦ elim (Option-cases (tx.ops id).cb) [
      | inl m ↦ record {
        ops' = tx.ops;
        is = sym (of_some tx tx' (rw (c, n, m, merge) at e));
        alike = λ i. Alike-refl (tx.ops i);
        same_value = λ i. refl;
        same_finished = λ i. refl;
      }
      | inr (cb, m) ↦
          let o : Op = record (tx.ops id) { shadow = (tx.ops head).shadow } in
          let o' : Op = record (tx.ops head) { shadow = some id } in
          record {
            ops' = put (put tx.ops id o) head o';
            is = sym (of_some _ tx' (rw (c, n, m, merge) at e));
            alike =
                put-put-Alike tx.ops id head o o'
                  (record { same_address = refl; same_head = refl; same_inited = refl })
                  (record { same_address = refl; same_head = refl; same_inited = refl });
            same_value = put-put-field tx.ops id head o o' (λ o. o.value) refl refl;
            same_finished = put-put-field tx.ops id head o o' (λ o. o.finished) refl refl;
          }
    ]
    | inr (s, m) ↦ absurd (none-ne-some tx' (rw (c, m, merge) at e))
  ]
  | inr c ↦ absurd (none-ne-some tx' (rw (c, merge) at e))
]

merged-IsClosed :
    (crc : MetaObj → ℕ) (tx tx₁ tx₂ : Tx) (id : ℕ) (cb : Option ℕ) (head : ℕ)
    → IsClosed crc tx id cb head tx₁
    → IsMerged tx₁ tx₂
    → IsClosed crc tx id cb head tx₂
merged-IsClosed crc tx tx₁ tx₂ id cb head c m =
    subst (IsClosed crc tx id cb head) (sym m.is) (record {
      alike = λ i. Alike-trans (tx.ops i) (tx₁.ops i) (m.ops' i) (c.alike i) (m.alike i);
      was_open = c.was_open;
      now_done = m.same_finished id ∙ c.now_done;
      others = λ i n. m.same_finished i ∙ c.others i n;
      sealed = m.same_value head ∙ c.sealed;
      unchanged = λ i n. m.same_value i ∙ c.unchanged i n;
      same_index = c.same_index;
      same_next = c.same_next;
      same_done = c.same_done;
      queue = c.queue;
    })

pub done_op-IsClosed :
    (crc : MetaObj → ℕ) (tx : Tx) (id : ℕ) (cb : Option ℕ) (tx' : Tx)
    → done_op crc tx id cb ≡ some tx'
    → (head : ℕ) × ((tx.ops id).dup_head ≡ some head) × IsClosed crc tx id cb head tx'
unfolding done_op
done_op-IsClosed crc tx id cb tx' e = elim (Option-cases (update crc tx id cb)) [
  | inl n ↦ absurd (none-ne-some tx' (rw (n, done_op) at e))
  | inr (tx₁, u) ↦
      let (head, h, was_open, is) = update-cases crc tx id cb tx₁ u in
      elim (Bool-cases (head == id)) [
        | inl s ↦ (
          head,
          h,
          subst (IsClosed crc tx id cb head) (sym is ∙ of_some tx₁ tx' (rw (u, h, s, done_op) at e))
              (updated-IsClosed crc tx id cb head tx.t_ops tx.t_nops
                (inl ((==_iff head id).0 s, refl, refl)) was_open),
        )
        | inr s ↦ (
          head,
          h,
          merged-IsClosed crc tx
              (record tx₁ { t_ops = remove tx₁.t_ops id; t_nops = tx₁.t_nops - 1 }) tx' id cb head
              (subst
                (λ t.
                  IsClosed crc tx id cb head
                    (record t { t_ops = remove t.t_ops id; t_nops = t.t_nops - 1 }))
                (sym is)
                (updated-IsClosed crc tx id cb head (remove tx.t_ops id) (tx.t_nops - 1)
                  (inr (λ k. true-ne-false (sym (eq→== head id k) ∙ s), refl, refl)) was_open))
              (merge-IsMerged (record tx₁ { t_ops = remove tx₁.t_ops id; t_nops = tx₁.t_nops - 1 })
                head id tx' (rw (u, h, s, done_op) at e)),
        )
      ]
]
