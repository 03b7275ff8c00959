-- ===== src/Tx/Entry.antt =====
-- src/pfs_core/pfs_tx.cc: the log entries of a transaction (`pfs_txop_log`), and a replica that makes
-- operations of them again (`pfs_txop_recreate`) and redoes these (`pfs_txop_redo`).
use polarfs.Prelude.{
  ◌||◌, ℕ, ◌+◌, Bool, true, false, not, ◌&&◌, List, [], ◌∷◌, Option, none, some, ◌==◌,
  if◌then◌else◌,
}
use polarfs.Prelude.Int.{ℤ, sub_ℕ}
use polarfs.Tx.Op.{MetaObj, Op, put, create}

-- `pfs_logentry_phy_t`
pub record Entry : Type 0 where
  pub le_obj_val : MetaObj
  pub le_lsn : ℕ
  pub le_sector_bda : ℕ
  pub le_txid : ℕ
  pub le_obj_idx : ℕ
  pub le_checksum : ℕ
  pub le_more : Bool

-- `crc` is the checksum of an object.
module _ (crc : MetaObj → ℕ) where
  -- `pfs_metaobj_check_crc`, which asserts it; a checksum of 0 is not checked.
  abbrev pub check_crc : MetaObj → Bool
  check_crc mo = mo.mo_checksum == 0 || mo.mo_checksum == crc mo

  -- The checks of both `pfs_txop_log` and `pfs_txop_recreate`; type 0 is MT_NONE.
  unfoldable pub is_valid : MetaObj → Bool
  is_valid mo = check_crc mo && not (mo.mo_type == 0)

  -- `pfs_txop_recreate`
  unfoldable pub txop_recreate : Entry → Option Op
  txop_recreate le =
      if is_valid le.le_obj_val
      then some (record create {
        recreate = true;
        idx = le.le_obj_idx;
        bda = le.le_sector_bda;
        value = le.le_obj_val;
      })
      else none

-- `pfs_txop_redo`: the change in the number of used objects, and the object after.
unfoldable pub txop_redo : Op → MetaObj → Option (ℤ × MetaObj)
txop_redo op mo =
    if op.recreate
    then elim op.buf [ some buf ↦ none | none ↦ some (sub_ℕ mo.mo_used op.value.mo_used, op.value) ]
    else none

module _ (crc : MetaObj → ℕ) where
  -- `pfs_tx_replay`, on the entries of one transaction. `locate` says where a replica has the object
  -- of a type and number, which `pfs_meta_redo` finds.
  unfoldable pub replay : (ℕ → ℕ → ℕ) → List Entry → (ℕ → MetaObj) → Option (ℕ → MetaObj)
  unfolding txop_recreate txop_redo
  replay locate [] meta = some meta
  replay locate (le ∷ les) meta = elim (txop_recreate crc le) [
    | none ↦ none
    | some op ↦
        let a = locate op.value.mo_type op.value.mo_number in
        elim (txop_redo op (meta a)) [
          | none ↦ none
          | some (delta, mo) ↦ replay locate les (put meta a mo)
        ]
  ]

abbrev pub has_more : List ℕ → Bool
has_more [] = false
has_more (i ∷ is) = true

-- `entry_crc` is the checksum of an entry without its own.
module _ (crc : MetaObj → ℕ) (entry_crc : Entry → ℕ) where
  -- `pfs_txop_log`
  unfoldable pub txop_log : Op → ℕ → ℕ → Bool → Option Entry
  txop_log op txid lsn more =
      let le : Entry = record {
        le_obj_val = op.value;
        le_lsn = lsn;
        le_sector_bda = op.bda;
        le_txid = txid;
        le_obj_idx = op.idx;
        le_checksum = 0;
        le_more = more;
      } in
      if op.finished && is_valid crc op.value
      then some (record le { le_checksum = entry_crc le })
      else none

  -- The entries that `pfs_tx_log` makes, `nle` of them before.
  unfoldable pub entries : (ℕ → Op) → List ℕ → ℕ → ℕ → ℕ → Option (List Entry)
  unfolding txop_log
  entries ops [] head_txid head_lsn nle = some []
  entries ops (i ∷ is) head_txid head_lsn nle =
      elim (txop_log (ops i) (head_txid + 1) (head_lsn + (nle + 1)) (has_more is)) [
        | none ↦ none
        | some le ↦ elim (entries ops is head_txid head_lsn (nle + 1)) [
          | none ↦ none
          | some les ↦ some (le ∷ les)
        ]
      ]
