-- ===== src/Blkio/Loop.antt =====
-- The loop of `pfs_blkio_execute`, for any segment function: what it keeps whatever the device
-- answers, and what it comes to when every request succeeds.
use mathlib.Core.Path.{subst}
use polarfs.Prelude.{
  true, false, leb, List, ◌⊎◌, inl, inr, ℕ, zero, suc, ◌+◌, ◌-◌, ◌*◌, ◌%◌, ◌^◌, ◌≤◌, ◌≡◌, refl, ap,
  ◌∙◌, Bool, some, arith,
}
use polarfs.Prelude.Errno.{
  ebusy, einval, e2big, eagain, enomem, enospc, aio_timeout, other, etimedout, eio, eio, etimedout,
  Errno, Status, done, fail,
}
use polarfs.Log.Ring.{frag_size}
use polarfs.Blkio.Align.{Geometry, Window, align, IsSound, Fits}
use polarfs.Blkio.Fits.{align-Fits}
use polarfs.Blkio.Io.{
  io_error, failed, outcome, Result, blkio_done, returned, Request, execute, Io, Segment, went,
  execute_loop,
}

Status-cases : (s : Status) → (s ≡ done) ⊎ ((e : Errno) × (s ≡ fail e))
Status-cases done = inl refl
Status-cases (fail e) = inr (e, refl)

-- How a call may end.
abbrev pub Settled : Result → ℕ → Type 0
Settled r len = (r ≡ returned len) ⊎ ((r ≡ failed etimedout) ⊎ (r ≡ failed eio))

io_error-cases : (e : Errno) → (io_error e ≡ etimedout) ⊎ (io_error e ≡ eio)
io_error-cases ebusy = inr refl
io_error-cases eio = inr refl
io_error-cases einval = inr refl
io_error-cases e2big = inr refl
io_error-cases eagain = inr refl
io_error-cases enomem = inr refl
io_error-cases etimedout = inl refl
io_error-cases enospc = inr refl
io_error-cases aio_timeout = inr refl
io_error-cases (other n) = inr refl

failed-Settled : (e : Errno) (len : ℕ) → Settled (failed (io_error e)) len
failed-Settled e len = elim (io_error-cases e) [
  | inl h ↦ inr (inl (ap failed h))
  | inr h ↦ inr (inr (ap failed h))
]

outcome-Settled : (s err1 : Status) (len : ℕ) → Settled (outcome (went s) err1 len) len
unfolding outcome
outcome-Settled done done len = inl refl
outcome-Settled done (fail e) len = failed-Settled e len
outcome-Settled (fail e) err1 len = failed-Settled e len

blkio_done-done :
    (wait : List Request → Status)
    → ((rs : List Request) → wait rs ≡ done)
    → (io : Io) (nowait : Bool) → blkio_done wait io nowait ≡ done
blkio_done-done wait waits io true = waits io.asked
blkio_done-done wait waits io false = refl

-- A segment function.
abbrev pub Iofunc : Type 0
Iofunc = Io → Window → ℕ → ℕ → Bool → Io × Segment

-- On a window that fits the bytes from `bda` on, the function runs into no assertion and keeps `I`.
abbrev pub Keeps : Geometry → Iofunc → ℕ → ℕ → (Io → Type 0) → Type 0
Keeps g iofunc lo hi I =
    (io : Io) (w : Window) (bda len pos : ℕ) (nowait : Bool)
    → Fits g bda len w
    → lo ≤ bda
    → bda + w.op_len ≤ hi
    → I io
    → (s : Status) × ((iofunc io w bda pos nowait).1 ≡ went s) × I (iofunc io w bda pos nowait).0

-- On a fitting window it does `R`, and what it does twice in a row is `R` again.
pub record Does (g : Geometry) (iofunc : Iofunc) (R : Io → ℕ → ℕ → ℕ → Io → Type 0) : Type 0 where
  pub segment :
      (io : Io) (w : Window) (bda len pos : ℕ) (nowait : Bool)
      → Fits g bda len w
      → ((iofunc io w bda pos nowait).1 ≡ went done)
        × R io bda pos w.op_len (iofunc io w bda pos nowait).0
  pub nothing : (io : Io) (bda pos : ℕ) → R io bda pos 0 io
  pub join :
      (io : Io) (bda pos k : ℕ) (io' : Io) (m : ℕ) (io'' : Io)
      → R io bda pos k io'
      → R io' (bda + k) (pos + k) m io''
      → R io bda pos (k + m) io''

module _ (g : Geometry) (ok : IsSound g) (iofunc : Iofunc) (nowait : Bool) where
  loop_step :
      (n : ℕ) (io : Io) (blkno off pos left bda : ℕ) (w : Window)
      → (blkno * g.blksize + off) % 2 ^ 64 ≡ bda
      → align g bda (suc left) ≡ some w
      → (iofunc io w bda pos nowait).1 ≡ went done
      → execute_loop g iofunc (suc n) io blkno off pos (suc left) nowait
        ≡ execute_loop g iofunc n
            (iofunc io w bda pos nowait).0
            blkno
            (off + w.op_len)
            (pos + w.op_len)
            (suc left - w.op_len)
            nowait
  unfolding execute_loop
  loop_step n io blkno off pos left bda w b =
      subst
        (λ x.
          align g x (suc left) ≡ some w
          → (iofunc io w x pos nowait).1 ≡ went done
          → execute_loop g iofunc (suc n) io blkno off pos (suc left) nowait
            ≡ execute_loop g iofunc n (iofunc io w x pos nowait).0 blkno (off + w.op_len)
                (pos + w.op_len) (suc left - w.op_len) nowait)
        b (λ a s. rw (a, s, execute_loop) refl)

  loop_stop :
      (n : ℕ) (io : Io) (blkno off pos left bda : ℕ) (w : Window) (e : Errno)
      → (blkno * g.blksize + off) % 2 ^ 64 ≡ bda
      → align g bda (suc left) ≡ some w
      → (iofunc io w bda pos nowait).1 ≡ went (fail e)
      → execute_loop g iofunc (suc n) io blkno off pos (suc left) nowait
        ≡ ((iofunc io w bda pos nowait).0, went (fail e))
  unfolding execute_loop
  loop_stop n io blkno off pos left bda w e b =
      subst
        (λ x.
          align g x (suc left) ≡ some w
          → (iofunc io w x pos nowait).1 ≡ went (fail e)
          → execute_loop g iofunc (suc n) io blkno off pos (suc left) nowait
            ≡ ((iofunc io w x pos nowait).0, went (fail e)))
        b (λ a s. rw (a, s, execute_loop) refl)

  -- The loop ends by itself, at the end of the bytes or at the first error, and keeps what each
  -- segment keeps.
  pub loop-Keeps :
      (lo hi : ℕ) (I : Io → Type 0) (n : ℕ) (io : Io) (blkno off pos left bda : ℕ)
      → Keeps g iofunc lo hi I
      → blkno * g.blksize + off ≡ bda
      → lo ≤ bda
      → bda + left ≤ hi
      → hi ≤ g.disksize
      → left ≤ n
      → I io
      → (s : Status) × ((execute_loop g iofunc n io blkno off pos left nowait).1 ≡ went s)
        × I (execute_loop g iofunc n io blkno off pos left nowait).0
  unfolding execute_loop
  loop-Keeps lo hi I n io blkno off pos zero bda keeps at above below on_disk fuel i =
      (done, refl, i)
  loop-Keeps lo hi I zero io blkno off pos (suc left) bda keeps at above below on_disk fuel i =
      absurd (omega arith)
  loop-Keeps lo hi I (suc n) io blkno off pos (suc left) bda keeps at above below on_disk fuel i =
      let (w, a, fits) = align-Fits g ok bda (suc left) (omega arith) (omega arith) in
      let (st, e, i') =
        keeps io w bda (suc left) pos nowait fits above (omega (arith, fits.no_more)) i in
      elim (Status-cases st) [
        | inl d ↦ rw (loop_step n io blkno off pos left bda w (wraps) a (e ∙ ap went d)) (
            loop-Keeps lo hi I n (iofunc io w bda pos nowait).0 blkno (off + w.op_len)
              (pos + w.op_len) (suc left - w.op_len) (bda + w.op_len) keeps (omega arith)
              (omega arith) (omega (arith, fits.no_more)) on_disk (omega (arith, fits.some_byte))
              i')
        | inr (x, d) ↦
            rw (loop_stop n io blkno off pos left bda w x (wraps) a (e ∙ ap went d))
              (fail x, refl, i')
      ]
    where
      wraps : (blkno * g.blksize + off) % 2 ^ 64 ≡ bda
      wraps = omega (arith, ok.disk_fits)

  -- `R` says what a segment does to the bytes from `bda` on.
  pub loop-done :
      (R : Io → ℕ → ℕ → ℕ → Io → Type 0) (n : ℕ) (io : Io) (blkno off pos left bda : ℕ)
      → Does g iofunc R
      → blkno * g.blksize + off ≡ bda
      → bda + left ≤ g.disksize
      → left ≤ n
      → ((execute_loop g iofunc n io blkno off pos left nowait).1 ≡ went done)
        × R io bda pos left (execute_loop g iofunc n io blkno off pos left nowait).0
  unfolding execute_loop
  loop-done R n io blkno off pos zero bda does at on_disk fuel = (refl, does.nothing io bda pos)
  loop-done R zero io blkno off pos (suc left) bda does at on_disk fuel = absurd (omega arith)
  loop-done R (suc n) io blkno off pos (suc left) bda does at on_disk fuel =
      let (w, a, fits) = align-Fits g ok bda (suc left) (omega arith) (omega arith) in
      let (e, r) = does.segment io w bda (suc left) pos nowait fits in
      let rest =
        loop-done R n (iofunc io w bda pos nowait).0 blkno (off + w.op_len) (pos + w.op_len)
          (suc left - w.op_len) (bda + w.op_len) does (omega arith) (omega (arith, fits.no_more))
          (omega (arith, fits.some_byte)) in
      rw (loop_step n io blkno off pos left bda w (wraps) a e) (
        rest.0,
        subst
            (λ k.
              R io bda pos k
                (execute_loop g iofunc n (iofunc io w bda pos nowait).0 blkno (off + w.op_len)
                  (pos + w.op_len) (suc left - w.op_len) nowait).0)
            (omega (arith, fits.no_more))
            (does.join io bda pos w.op_len (iofunc io w bda pos nowait).0 (suc left - w.op_len)
              (execute_loop g iofunc n (iofunc io w bda pos nowait).0 blkno (off + w.op_len)
                (pos + w.op_len) (suc left - w.op_len) nowait).0
              r rest.1),
      )
    where
      wraps : (blkno * g.blksize + off) % 2 ^ 64 ≡ bda
      wraps = omega (arith, ok.disk_fits)

module _ (g : Geometry) (ok : IsSound g) (iofunc : Iofunc) where
  -- The whole call, when every request and the wait succeed.
  pub execute-done :
      (wait : List Request → Status) (R : Io → ℕ → ℕ → ℕ → Io → Type 0) (io : Io)
      (pos blkno off len : ℕ)
      → ((rs : List Request) → wait rs ≡ done)
      → Does g iofunc R
      → blkno * g.blksize + off + len ≤ g.disksize
      → ((execute g iofunc wait io pos blkno off len).1 ≡ returned len)
        × R io (blkno * g.blksize + off) pos len (execute g iofunc wait io pos blkno off len).0
  unfolding execute
  execute-done wait R io pos blkno off len waits does on_disk =
      let (e, r) =
        loop-done g ok iofunc (leb (2 * frag_size) len) R len io blkno off pos len
          (blkno * g.blksize + off) does refl on_disk (omega arith) in
      (
        rw
            (
              e,
              blkio_done-done wait waits
                  (execute_loop g iofunc len io blkno off pos len (leb (2 * frag_size) len)).0
                  (leb (2 * frag_size) len),
            )
            refl,
        r,
      )

  -- The whole call, whatever the device answers.
  pub execute-Keeps :
      (wait : List Request → Status) (io : Io) (pos blkno off len : ℕ) (I : Io → Type 0)
      → Keeps g iofunc (blkno * g.blksize + off) (blkno * g.blksize + off + len) I
      → blkno * g.blksize + off + len ≤ g.disksize
      → I io
      → Settled (execute g iofunc wait io pos blkno off len).1 len
        × I (execute g iofunc wait io pos blkno off len).0
  unfolding execute
  execute-Keeps wait io pos blkno off len I keeps on_disk i =
      let nowait = leb (2 * frag_size) len in
      let (s, e, i') =
        loop-Keeps g ok iofunc nowait (blkno * g.blksize + off) (blkno * g.blksize + off + len) I
          len io blkno off pos len (blkno * g.blksize + off) keeps refl (omega arith) (omega arith)
          on_disk (omega arith) i in
      (
        rw e (
            outcome-Settled s
              (blkio_done wait (execute_loop g iofunc len io blkno off pos len nowait).0 nowait)
              len),
        i',
      )
