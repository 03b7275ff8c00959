-- ===== src/Tx/Reached.antt =====
-- A transaction from its start (`pfs_tx_get`), with what its operations make of the objects.
use polarfs.Prelude.{ℕ, ◌<◌, ◌≡◌, refl, false, [], arith, Option, none, some}
use polarfs.Tx.Op.{MetaObj, Tx, put, create, address, new_op, init, modify, seal, done_op}
use polarfs.Tx.Wf.{IsWf, none-ne-some, new_op-IsWf}
use polarfs.Tx.Kept.{init-IsWf, modify-IsWf}
use polarfs.Tx.Done.{done_op-IsWf}

-- `pfs_tx_get`
abbrev pub tx_get : Tx
tx_get = record {
  t_done = false;
  ops = λ i. create;
  next = 0;
  t_ops = [];
  t_nops = 0;
  index = λ t n. none;
}

module _ (meta : ℕ → MetaObj) (crc : MetaObj → ℕ) where
  -- The steps of a caller, with the objects as they would stand if each change were made at once.
  -- A caller does not change an object's type and number, by which it is found.
  pub data Reached : Tx → (ℕ → MetaObj) → Type 0 where
    got : Reached tx_get meta
    created : (tx : Tx) (v : ℕ → MetaObj) → Reached tx v → Reached (new_op tx) v
    opened :
        (tx : Tx) (v : ℕ → MetaObj) (id buf oid bda : ℕ) (tx' : Tx)
        → Reached tx v
        → id < tx.next
        → init meta tx id buf oid bda ≡ some tx'
        → Reached tx' v
    changed :
        (tx : Tx) (v : ℕ → MetaObj) (id head a : ℕ) (f : MetaObj → MetaObj)
        → Reached tx v
        → (tx.ops id).dup_head ≡ some head
        → address (tx.ops id) ≡ some a
        → ((f (v a)).mo_type ≡ (v a).mo_type) × ((f (v a)).mo_number ≡ (v a).mo_number)
        → Reached (modify tx id f) (put v a (f (v a)))
    closed :
        (tx : Tx) (v : ℕ → MetaObj) (id a : ℕ) (cb : Option ℕ) (tx' : Tx)
        → Reached tx v
        → id < tx.next
        → address (tx.ops id) ≡ some a
        → done_op crc tx id cb ≡ some tx'
        → Reached tx' (put v a (seal crc (v a)))

  tx_get-IsWf : IsWf meta tx_get
  tx_get-IsWf = record {
    heads = λ t n h e. absurd (none-ne-some h e);
    members = λ i h e. absurd (none-ne-some h e);
    unplaced = λ i e. refl;
    below = λ i m. absurd m;
    closed = λ i m e. absurd m;
    pending = λ i l e. absurd (omega arith);
    distinct = tt;
    counted = refl;
  }

  -- Whatever a caller does, the list holds each operation that is not done and one done operation
  -- for each object, the index finds that one, and the list is as long as it says.
  pub Reached-IsWf : (tx : Tx) (v : ℕ → MetaObj) → Reached tx v → IsWf meta tx
  Reached-IsWf tx v got = tx_get-IsWf
  Reached-IsWf tx v (created t v' r) = new_op-IsWf meta t (Reached-IsWf t v' r)
  Reached-IsWf tx v (opened t v' id buf oid bda tx' r l e) =
      init-IsWf meta t id buf oid bda tx' (Reached-IsWf t v' r) l e
  Reached-IsWf tx v (changed t v' id head a f r h e k) =
      modify-IsWf meta t id f (Reached-IsWf t v' r)
  Reached-IsWf tx v (closed t v' id a cb tx' r l p e) =
      done_op-IsWf meta crc t id cb tx' (Reached-IsWf t v' r) l e
