-- ===== src/Tx/Op.antt =====
-- src/pfs_core/pfs_tx.cc and pfs_tx.h: the operations of a transaction. Operations are numbered in
-- the order of their creation, which stands for their addresses; the metadata objects in memory are
-- numbered likewise, by `top_buf + top_idx`. A failed PFS_ASSERT is `none`; memory allocation
-- succeeds.
use polarfs.Prelude.{
  ℕ, suc, ◌+◌, ◌-◌, Bool, true, false, not, ◌&&◌, ◌||◌, Option, none, some, List, [], ◌∷◌, ◌++◌,
  ltb, ◌==◌, if◌then◌else◌,
}

-- `pfs_metaobj_phy_t`; `rest` stands for the fields that transactions do not look at.
pub record MetaObj : Type 0 where
  pub mo_number : ℕ
  pub mo_type : ℕ
  pub mo_used : ℕ
  pub rest : ℕ
  pub mo_checksum : ℕ

-- `pfs_txop_t`; `top_local` and `top_remote` are one field.
pub record Op : Type 0 where
  pub value : MetaObj
  pub recreate : Bool
  pub inited : Bool
  pub finished : Bool
  pub buf : Option ℕ
  pub bda : ℕ
  pub idx : ℕ
  pub cb : Option ℕ
  pub dup_head : Option ℕ
  pub shadow : Option ℕ
  pub dup_cnt : ℕ
  pub dup_idx : ℕ

-- `pfs_tx_t`. `index` is the search tree `t_opsroot`, by type and number.
pub record Tx : Type 0 where
  pub t_done : Bool
  pub ops : ℕ → Op
  pub next : ℕ
  pub t_ops : List ℕ
  pub t_nops : ℕ
  pub index : ℕ → ℕ → Option ℕ

abbrev pub put {ℓ} : {A : Type ℓ} → (ℕ → A) → ℕ → A → ℕ → A
put f i a j = if j == i then a else f j

abbrev pub zero_obj : MetaObj
zero_obj = record { mo_number = 0; mo_type = 0; mo_used = 0; rest = 0; mo_checksum = 0 }

-- `pfs_txop_create` with no flags.
abbrev pub create : Op
create = record {
  value = zero_obj;
  recreate = false;
  inited = false;
  finished = false;
  buf = none;
  bda = 0;
  idx = 0;
  cb = none;
  dup_head = none;
  shadow = none;
  dup_cnt = 0;
  dup_idx = 0;
}

unfoldable pub new_op : Tx → Tx
new_op tx = record tx {
  ops = put tx.ops tx.next create;
  next = suc tx.next;
  t_ops = tx.t_ops ++ tx.next ∷ [];
  t_nops = tx.t_nops + 1;
}

-- `pfs_tx_index_op`, which `tsearch` does by `txop_index_compare`: the operation found or the one put in.
unfoldable pub index_op : (ℕ → ℕ → Option ℕ) → MetaObj → ℕ → (ℕ → ℕ → Option ℕ) × ℕ
index_op index mo id = elim (index mo.mo_type mo.mo_number) [
  | some head ↦ (index, head)
  | none ↦ (λ t n. if t == mo.mo_type && n == mo.mo_number then some id else index t n, id)
]

-- The fields that `pfs_txop_init` sets before it looks the object up.
abbrev pub place : Op → MetaObj → ℕ → ℕ → ℕ → Op
place op obj buf oid bda = record op {
  buf = some buf;
  bda = bda;
  idx = oid;
  inited = true;
  value = record op.value { mo_type = obj.mo_type; mo_number = obj.mo_number };
}

-- `pfs_txop_init`; the object that it returns is the value of the operation's head.
unfoldable pub init : (ℕ → MetaObj) → Tx → ℕ → ℕ → ℕ → ℕ → Option Tx
unfolding index_op
init meta tx id buf oid bda =
    let op = tx.ops id in
    let obj = meta (buf + oid) in
    if op.recreate || op.inited || op.finished
    then none
    else (let (index, head) = index_op tx.index obj id in
        let placed = place op obj buf oid bda in
        if head == id
        then some (record tx {
          index = index;
          ops =
              put tx.ops id
                (record placed { value = obj; dup_head = some id; dup_cnt = 1; dup_idx = 0 });
        })
        else (let h = tx.ops head in
            some (record tx {
              index = index;
              ops =
                  put
                    (put tx.ops id
                      (record placed { dup_head = some head; dup_cnt = 0; dup_idx = h.dup_cnt }))
                    head (record h { dup_cnt = h.dup_cnt + 1 });
            })))

abbrev pub remove : List ℕ → ℕ → List ℕ
remove [] id = []
remove (x ∷ xs) id = if x == id then xs else x ∷ remove xs id

-- `pfs_txop_merge`. An operation with no callback is freed, and nothing refers to it any more.
unfoldable pub merge : Tx → ℕ → ℕ → Option Tx
merge tx head id =
    let h = tx.ops head in
    let op = tx.ops id in
    if h.inited && op.finished
    then elim op.shadow [
      | some s ↦ none
      | none ↦ elim op.cb [
        | none ↦ some tx
        | some cb ↦ some (record tx {
          ops =
              put (put tx.ops id (record op { shadow = h.shadow })) head
                (record h { shadow = some id });
        })
      ]
    ]
    else none

-- `pfs_txop_update`; `top_dup_cnt` is signed, and one that falls below 0 equals no `top_dup_idx`. `crc` is the checksum of an object.
module _ (crc : MetaObj → ℕ) where
  abbrev pub seal : MetaObj → MetaObj
  seal mo = record mo { mo_checksum = crc mo }

  unfoldable pub update : Tx → ℕ → Option ℕ → Option Tx
  update tx id cb =
      let op = tx.ops id in
      elim op.dup_head [
        | none ↦ none
        | some head ↦ elim op.buf [
          | none ↦ none
          | some buf ↦
              let h = tx.ops head in
              let ops =
                put tx.ops head (record h { value = seal h.value; dup_cnt = h.dup_cnt - 1 }) in
              let op' = record (ops id) { cb = cb; finished = true } in
              let ops' = put ops id op' in
              if ltb 0 h.dup_cnt
                && op.inited
                && not op.finished
                && op'.dup_idx == (ops' head).dup_cnt
                && op'.dup_cnt == 0
              then some (record tx { ops = ops' })
              else none
        ]
      ]

  -- `_pfs_tx_done_op`
  unfoldable pub done_op : Tx → ℕ → Option ℕ → Option Tx
  unfolding update merge
  done_op tx id cb = elim (update tx id cb) [
    | none ↦ none
    | some tx' ↦ elim (tx.ops id).dup_head [
      | none ↦ none
      | some head ↦
          if head == id
          then some tx'
          else merge (record tx' { t_ops = remove tx'.t_ops id; t_nops = tx'.t_nops - 1 }) head id
    ]
  ]

-- What the caller does to the object that `pfs_txop_init` returned.
unfoldable pub modify : Tx → ℕ → (MetaObj → MetaObj) → Tx
modify tx id f = elim (tx.ops id).dup_head [
  | none ↦ tx
  | some head ↦ record tx {
    ops = put tx.ops head (record (tx.ops head) { value = f (tx.ops head).value });
  }
]

-- `pfs_tx_get_mo`, with `pfs_tx_find_mo`: the object at address `a` as the transaction sees it.
unfoldable pub get_mo : (ℕ → MetaObj) → Tx → ℕ → MetaObj
get_mo meta tx a =
    let obj = meta a in
    if tx.t_done
    then obj
    else elim (tx.index obj.mo_type obj.mo_number) [ none ↦ obj | some id ↦ (tx.ops id).value ]

abbrev pub address : Op → Option ℕ
address op = elim op.buf [ none ↦ none | some buf ↦ some (buf + op.idx) ]

-- `pfs_tx_apply`: `pfs_metaobj_cp` copies each value to its object.
unfoldable pub apply : (ℕ → Op) → List ℕ → (ℕ → MetaObj) → ℕ → MetaObj
apply ops [] meta = meta
apply ops (id ∷ ids) meta = elim (address (ops id)) [
  | none ↦ apply ops ids meta
  | some a ↦ apply ops ids (put meta a (ops id).value)
]
