-- ===== src/Tx/Tests.antt =====
-- A transaction that takes up one object twice, the second time inside the first, and its replay.
use mathlib.Core.Path.{subst}
use polarfs.Prelude.{sym, ℕ, ◌+◌, ◌≡◌, refl, List, [], ◌∷◌, arith, Option, none, some, inl, inr}
use polarfs.Tx.Op.{MetaObj, Tx, put, new_op, init, index_op, modify, done_op, apply, get_mo, seal}
use polarfs.Tx.Queue.{Mem}
use polarfs.Tx.Wf.{IsWf}
use polarfs.Tx.View.{AreKeyed}
use polarfs.Tx.Reached.{Reached, Reached-IsWf, tx_get, got, created, opened, changed, closed}
use polarfs.Tx.Seen.{Reached-apply}
use polarfs.Tx.Entry.{Entry, entries, replay}
use polarfs.Tx.Replay.{AreNumbered, IsLoggable, Reached-replay}

abbrev objects : ℕ → MetaObj
objects a = record { mo_number = a; mo_type = 1; mo_used = 0; rest = 0; mo_checksum = 0 }

objects-AreKeyed : AreKeyed objects
objects-AreKeyed a b t n = n

abbrev sum : MetaObj → ℕ
sum mo = mo.mo_number + mo.rest + 1

abbrev sum_entry : Entry → ℕ
sum_entry le = le.le_lsn

abbrev locate : ℕ → ℕ → ℕ
locate t n = n

abbrev the_tx : Option Tx → Tx
the_tx none = tx_get
the_tx (some tx) = tx

abbrev use_it : MetaObj → MetaObj
use_it mo = record mo { mo_used = 1 }

abbrev grow : MetaObj → MetaObj
grow mo = record mo { rest = mo.rest + 7 }

abbrev first : Tx
first = the_tx (init objects (new_op tx_get) 0 4 1 4096)

abbrev second : Tx
second = the_tx (init objects (new_op (modify first 0 use_it)) 1 4 1 4096)

abbrev inner_done : Tx
inner_done = the_tx (done_op sum (modify second 1 grow) 1 none)

abbrev all_done : Tx
all_done = the_tx (done_op sum inner_done 0 none)

abbrev v1 : ℕ → MetaObj
v1 = put objects 5 (use_it (objects 5))

abbrev v2 : ℕ → MetaObj
v2 = put v1 5 (grow (v1 5))

abbrev v3 : ℕ → MetaObj
v3 = put v2 5 (seal sum (v2 5))

abbrev v4 : ℕ → MetaObj
v4 = put v3 5 (seal sum (v3 5))

first-Reached : Reached objects sum first objects
unfolding init index_op new_op
first-Reached =
    opened (new_op tx_get) objects 0 4 1 4096 first (created tx_get objects got) (omega arith) refl

second-Reached : Reached objects sum second v1
unfolding init index_op new_op modify
second-Reached =
    opened (new_op (modify first 0 use_it)) v1 1 4 1 4096 second
      (created (modify first 0 use_it) v1
        (changed first objects 0 0 5 use_it first-Reached refl refl (refl, refl)))
      (omega arith) refl

inner-Reached : Reached objects sum inner_done v3
unfolding init index_op new_op modify done_op
inner-Reached =
    closed (modify second 1 grow) v2 1 5 none inner_done
      (changed second v1 1 0 5 grow second-Reached refl refl (refl, refl)) (omega arith) refl refl

all-Reached : Reached objects sum all_done v4
unfolding init index_op new_op modify done_op
all-Reached = closed inner_done v3 0 5 none all_done inner-Reached (omega arith) refl refl

-- The list holds the head alone.
listed : all_done.t_ops ≡ 0 ∷ []
unfolding init index_op new_op modify done_op
listed = refl

-- An operation is not done while another on its object is open inside it.
interleaved : done_op sum second 0 none ≡ none
unfolding init index_op new_op modify done_op
interleaved = refl

head-IsLoggable : IsLoggable sum sum_entry locate (all_done.ops 0)
unfolding init index_op new_op modify done_op
head-IsLoggable = record { closed = refl; sealed = refl; typed = omega arith; placed = refl }

all-IsLoggable : (i : ℕ) → Mem i all_done.t_ops → IsLoggable sum sum_entry locate (all_done.ops i)
unfolding init index_op new_op modify done_op
all-IsLoggable i (inl e) =
    subst (λ j. IsLoggable sum sum_entry locate (all_done.ops j)) (sym e) head-IsLoggable
all-IsLoggable i (inr m) = absurd m

Reached-IsWf_example : IsWf objects all_done
Reached-IsWf_example = Reached-IsWf objects sum all_done v4 all-Reached

Reached-apply_example :
    (apply all_done.ops all_done.t_ops objects 5 ≡ v4 5) × (get_mo objects all_done 5 ≡ v4 5)
Reached-apply_example =
    Reached-apply objects sum all_done v4 objects-AreKeyed all-Reached
      (λ i m. (all-IsLoggable i m).closed) 5

Reached-replay_example :
    (les : List Entry) × (entries sum sum_entry all_done.ops all_done.t_ops 8 100 0 ≡ some les)
    × AreNumbered sum sum_entry 9 101 les
    × ((meta' : ℕ → MetaObj) × (replay sum locate les objects ≡ some meta')
        × ((a : ℕ) → meta' a ≡ v4 a))
Reached-replay_example =
    Reached-replay objects sum sum_entry locate all_done v4 8 100 objects-AreKeyed all-Reached
      all-IsLoggable
