-- ===== src/Blkio/Io.antt =====
-- src/pfs_core/pfs_blkio.cc: the requests of a read or a write, one window at a time. The device is
-- a parameter: it answers a request by what has been asked of it so far.
use polarfs.Prelude.{
  ℕ, zero, suc, ◌+◌, ◌-◌, ◌*◌, ◌%◌, ◌^◌, Bool, false, ◌&&◌, Option, none, some, List, ◌∷◌, min, ltb,
  leb, ◌==◌, if◌then◌else◌,
}
use polarfs.Prelude.Errno.{Errno, etimedout, eio, Status, done, fail}
use polarfs.Log.Ring.{frag_size}
use polarfs.Blkio.Align.{Geometry, Window, align}

pub data Direction : Type 0 where
  reading writing : Direction

pub record Request : Type 0 where
  pub direction : Direction
  pub bda : ℕ
  pub len : ℕ
  pub nowait : Bool

-- A request that fails may have moved some bytes.
pub data Answer : Type 0 where
  moved : Answer
  broken : Errno → ℕ → Answer

-- What a call comes to: a number of bytes, an error, or a failed PFS_ASSERT.
pub data Result : Type 0 where
  returned : ℕ → Result
  failed : Errno → Result
  assert_failed : Result
  out_of_fuel : Result

-- `memcpy` of `n` cells from `s` of `src` to `d` of `dst`.
abbrev pub copy : (ℕ → ℕ) → ℕ → (ℕ → ℕ) → ℕ → ℕ → ℕ → ℕ
copy dst d src s n p = if leb d p && ltb p (d + n) then src (s + (p - d)) else dst p

-- The disk's bytes, the caller's memory, the bounce buffer, and the requests so far, the last first.
pub record Io : Type 0 where
  pub disk : ℕ → ℕ
  pub mem : ℕ → ℕ
  pub albuf : ℕ → ℕ
  pub asked : List Request

-- What a segment function came to.
pub data Segment : Type 0 where
  went : Status → Segment
  bad_segment : Segment
  stuck : Segment

abbrev pub bytes : Answer → ℕ → ℕ
bytes moved len = len
bytes (broken e k) len = min k len

abbrev pub status : Answer → Status
status moved = done
status (broken e k) = fail e

module _ (device : List Request → Answer) where
  -- `pfsdev_pread` into the bounce buffer.
  unfoldable pub pread_albuf : Io → ℕ → ℕ → Io × Status
  pread_albuf io bda len =
      let r : Request = record { direction = reading; bda = bda; len = len; nowait = false } in
      let a = device (r ∷ io.asked) in
      (
        record io { asked = r ∷ io.asked; albuf = copy io.albuf 0 io.disk bda (bytes a len) },
        status a,
      )

  -- `pfsdev_pread_flags` into the caller's memory.
  unfoldable pub pread_mem : Io → ℕ → ℕ → ℕ → Bool → Io × Status
  pread_mem io pos bda len nowait =
      let r : Request = record { direction = reading; bda = bda; len = len; nowait = nowait } in
      let a = device (r ∷ io.asked) in
      (
        record io { asked = r ∷ io.asked; mem = copy io.mem pos io.disk bda (bytes a len) },
        status a,
      )

  -- `pfsdev_pwrite` and `pfsdev_pwrite_flags`, of a buffer from `pos` on.
  unfoldable pub pwrite : Io → (ℕ → ℕ) → ℕ → ℕ → ℕ → Bool → Io × Status
  pwrite io buf pos bda len nowait =
      let r : Request = record { direction = writing; bda = bda; len = len; nowait = nowait } in
      let a = device (r ∷ io.asked) in
      (record io { asked = r ∷ io.asked; disk = copy io.disk bda buf pos (bytes a len) }, status a)

  -- What follows the read of the bounce buffer.
  abbrev pub copy_out : Io × Status → Window → ℕ → ℕ → Io × Segment
  copy_out (io, fail e) w bda pos = (io, went (fail e))
  copy_out (io, done) w bda pos =
      (record io { mem = copy io.mem pos io.albuf (bda - w.aligned_bda) w.op_len }, went done)

  -- `pos` is where `buf` points to in the caller's memory.
  unfoldable pub read_segment : Io → Window → ℕ → ℕ → Bool → Io × Segment
  read_segment io w bda pos nowait =
      if w.io_len == w.op_len
      then (if w.aligned_bda == bda
          then (let (io', s) = pread_mem io pos bda w.op_len nowait in (io', went s))
          else (io, bad_segment))
      else copy_out (pread_albuf io w.aligned_bda w.io_len) w bda pos

  abbrev pub write_back : Io × Status → Window → ℕ → ℕ → Io × Segment
  write_back (io, fail e) w bda pos = (io, went (fail e))
  write_back (io, done) w bda pos =
      let patched = copy io.albuf (bda - w.aligned_bda) io.mem pos w.op_len in
      let (io', s) =
        pwrite (record io { albuf = patched }) patched 0 w.aligned_bda w.io_len false in
      (io', went s)

  unfoldable pub write_segment : Io → Window → ℕ → ℕ → Bool → Io × Segment
  write_segment io w bda pos nowait =
      if w.io_len == w.op_len
      then (if w.aligned_bda == bda
          then (let (io', s) = pwrite io io.mem pos bda w.op_len nowait in (io', went s))
          else (io, bad_segment))
      else write_back (pread_albuf io w.aligned_bda w.io_len) w bda pos

-- The last lines' choice of the error.
abbrev pub io_error : Errno → Errno
io_error etimedout = etimedout
io_error e = eio

-- With ERR_UPDATE of the loop's error by that of the wait.
unfoldable pub outcome : Segment → Status → ℕ → Result
outcome bad_segment err1 len = assert_failed
outcome stuck err1 len = out_of_fuel
outcome (went done) done len = returned len
outcome (went done) (fail e) len = failed (io_error e)
outcome (went (fail e)) err1 len = failed (io_error e)

-- `wait` is what `pfsdev_wait_io` returns.
abbrev pub blkio_done : (List Request → Status) → Io → Bool → Status
blkio_done wait io nowait = if nowait then wait io.asked else done

module _ (g : Geometry) (iofunc : Io → Window → ℕ → ℕ → Bool → Io × Segment) where
  -- The loop of `pfs_blkio_execute`, with `n` rounds left; `pos` is where `data` points to.
  unfoldable pub execute_loop : ℕ → Io → ℕ → ℕ → ℕ → ℕ → Bool → Io × Segment
  execute_loop n io blkno off pos zero nowait = (io, went done)
  execute_loop zero io blkno off pos (suc left) nowait = (io, stuck)
  execute_loop (suc n) io blkno off pos (suc left) nowait =
      let bda = (blkno * g.blksize + off) % 2 ^ 64 in
      elim (align g bda (suc left)) [
        | none ↦ (io, bad_segment)
        | some w ↦
            let (io', s) = iofunc io w bda pos nowait in
            elim s [
              | went done ↦
                  execute_loop n io' blkno (off + w.op_len) (pos + w.op_len) (suc left - w.op_len)
                    nowait
              | went (fail e) ↦ (io', went (fail e))
              | bad_segment ↦ (io', bad_segment)
              | stuck ↦ (io', stuck)
            ]
      ]

  module _ (wait : List Request → Status) where
    unfoldable pub execute : Io → ℕ → ℕ → ℕ → ℕ → Io × Result
    unfolding execute_loop outcome
    execute io pos blkno off len =
        let nowait = leb (2 * frag_size) len in
        let (io', s) = execute_loop len io blkno off pos len nowait in
        (io', outcome s (blkio_done wait io' nowait) len)

abbrev pub block_size : ℕ
block_size = 4 * 2 ^ 20

module _ (g : Geometry) (device : List Request → Answer) (wait : List Request → Status) where
  -- `buf` is where `data` points to.
  unfoldable pub blkio_read : Io → ℕ → ℕ → ℕ → ℕ → Io × Result
  unfolding execute read_segment
  blkio_read io buf blkno off len =
      if leb (off + len) g.blksize
      then execute g (read_segment device) wait io buf blkno off len
      else (io, assert_failed)

  -- With no data it writes from `pfs_zero_buf`.
  unfoldable pub blkio_write : Io → Option ℕ → ℕ → ℕ → ℕ → Io × Result
  unfolding execute write_segment
  blkio_write io buf blkno off len =
      if leb (off + len) g.blksize
      then elim buf [
        | some pos ↦ execute g (write_segment device) wait io pos blkno off len
        | none ↦
            if leb len block_size
            then (let (io', r) =
                  execute g (write_segment device) wait (record io { mem = λ p. 0 }) 0 blkno off
                    len in
                (record io' { mem = io.mem }, r))
            else (io, assert_failed)
      ]
      else (io, assert_failed)
