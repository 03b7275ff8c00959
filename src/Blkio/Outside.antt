-- ===== src/Blkio/Outside.antt =====
-- Whatever the device answers, a write changes no byte outside its range.
use polarfs.Prelude.{
  ◌*◌, Option, none, some, le→leb, eq→==, ℕ, ◌+◌, ◌-◌, ◌≤◌, ◌<◌, ◌≡◌, refl, ◌∙◌, ◌⊎◌, Bool, false,
  Bool-cases, inl, inr, List, ◌∷◌, arith, ◌==◌,
}
use polarfs.Prelude.Errno.{Errno, Status, fail}
use polarfs.Blkio.Align.{IsSound, Geometry, Window}
use polarfs.Blkio.Io.{
  block_size, blkio_write, Direction, Io, went, Request, Answer, moved, broken, reading, writing,
  bytes, status, copy, pread_albuf, pwrite, write_segment,
}
use polarfs.Blkio.Loop.{execute-Keeps, Settled, Keeps}

bytes-le : (a : Answer) (n : ℕ) → bytes a n ≤ n
bytes-le moved n = omega arith
bytes-le (broken e k) n = omega arith

pub Answer-cases : (a : Answer) → (a ≡ moved) ⊎ ((e : Errno) × ((k : ℕ) × (a ≡ broken e k)))
Answer-cases moved = inl refl
Answer-cases (broken e k) = inr (e, (k, refl))

copy_outside :
    (f g : ℕ → ℕ) (d s k n p : ℕ) → k ≤ n → (p < d) ⊎ (d + n ≤ p) → copy f d g s k p ≡ f p
copy_outside f g d s k n p le out = ground arith

-- Writing back part of what was read and changed.
patch_outside :
    (disk mem albuf : ℕ → ℕ) (al io k bda pos op p : ℕ)
    → al ≤ bda
    → bda - al + op ≤ io
    → k ≤ io
    → (p < bda) ⊎ (bda + op ≤ p)
    → copy disk al (copy (copy albuf 0 disk al io) (bda - al) mem pos op) 0 k p ≡ disk p
patch_outside disk mem albuf al io k bda pos op p le fits part out = ground arith

-- The two requests of a segment that is not whole sectors, and the one of a segment that is.
abbrev pub read_request : Window → Request
read_request w = record { direction = reading; bda = w.aligned_bda; len = w.io_len; nowait = false }

abbrev pub write_request : Window → Request
write_request w = record {
  direction = writing;
  bda = w.aligned_bda;
  len = w.io_len;
  nowait = false;
}

abbrev pub whole_request : Direction → Window → ℕ → Bool → Request
whole_request direction w bda nowait = record {
  direction = direction;
  bda = bda;
  len = w.op_len;
  nowait = nowait;
}

module _ (device : List Request → Answer) where
  abbrev pub patched : Io → Window → ℕ → ℕ → ℕ → ℕ
  patched io w bda pos =
      copy (copy io.albuf 0 io.disk w.aligned_bda w.io_len) (bda - w.aligned_bda) io.mem pos
        w.op_len

  pub patch_segment :
      (io : Io) (w : Window) (bda pos : ℕ) (nowait : Bool)
      → w.io_len == w.op_len ≡ false
      → device (read_request w ∷ io.asked) ≡ moved
      → write_segment device io w bda pos nowait ≡ (
          let (io', s) =
            pwrite device
              (record io { asked = read_request w ∷ io.asked; albuf = patched io w bda pos })
              (patched io w bda pos)
              0
              w.aligned_bda
              w.io_len
              false in
          (io', went s))
  unfolding write_segment pread_albuf
  patch_segment io w bda pos nowait e d = rw (e, d) refl

  write_segment-outside :
      (g : Geometry) (lo hi : ℕ) (d : ℕ → ℕ)
      → Keeps g (write_segment device) lo hi (λ io. (p : ℕ) → (p < lo) ⊎ (hi ≤ p) → io.disk p ≡ d p)
  unfolding write_segment pread_albuf pwrite
  write_segment-outside g lo hi d io w bda len pos nowait fits above below same =
      elim (Bool-cases (w.io_len == w.op_len)) [
        | inl e ↦
            let a = device (whole_request writing w bda nowait ∷ io.asked) in
            rw (e, eq→== w.aligned_bda bda (ground arith))
              (
                status a,
                refl,
                λ p out.
                    copy_outside io.disk io.mem bda pos (bytes a w.op_len) w.op_len p
                      (bytes-le a w.op_len) (inside p out)
                    ∙ same p out,
              )
        | inr e ↦ elim (Answer-cases (device (read_request w ∷ io.asked))) [
          | inl m ↦
              let a = device (write_request w ∷ read_request w ∷ io.asked) in
              rw (patch_segment io w bda pos nowait e m) (
                status a,
                refl,
                λ p out.
                    patch_outside io.disk io.mem io.albuf w.aligned_bda w.io_len (bytes a w.io_len)
                      bda pos w.op_len p starts covers (bytes-le a w.io_len) (inside p out)
                    ∙ same p out,
              )
          | inr (x, (k, b)) ↦ rw (e, b) (fail x, refl, same)
        ]
      ]
    where
      open fits use {starts, covers}

      inside : (p : ℕ) → (p < lo) ⊎ (hi ≤ p) → (p < bda) ⊎ (bda + w.op_len ≤ p)
      inside p out = omega arith

-- Whatever the device answers to each request, a write within a block of the disk ends: it returns
-- its length, ETIMEDOUT or EIO, with no assertion failed, and changes no byte of the disk outside
-- its range, although it writes whole sectors.
pub blkio_write-outside :
    (g : Geometry) (device : List Request → Answer) (wait : List Request → Status) (io : Io)
    (buf : Option ℕ) (blkno off len : ℕ)
    → IsSound g
    → g.blksize ≤ block_size
    → off + len ≤ g.blksize
    → blkno * g.blksize + off + len ≤ g.disksize
    → let (io', r) = blkio_write g device wait io buf blkno off len in
      Settled r len
      × ((p : ℕ)
          → (p < blkno * g.blksize + off) ⊎ (blkno * g.blksize + off + len ≤ p)
          → io'.disk p ≡ io.disk p)
unfolding blkio_write
blkio_write-outside g device wait io (some pos) blkno off len ok blk in_block on_disk =
    rw (le→leb (off + len) g.blksize in_block) (
      execute-Keeps g ok (write_segment device) wait io pos blkno off len
        (λ i.
          (p : ℕ)
          → (p < blkno * g.blksize + off) ⊎ (blkno * g.blksize + off + len ≤ p)
          → i.disk p ≡ io.disk p)
        (write_segment-outside device g (blkno * g.blksize + off) (blkno * g.blksize + off + len)
          io.disk)
        on_disk (λ p out. refl))
blkio_write-outside g device wait io none blkno off len ok blk in_block on_disk =
    rw (le→leb (off + len) g.blksize in_block, le→leb len block_size (omega arith))
      (execute-Keeps g ok (write_segment device) wait (record io { mem = λ p. 0 }) 0 blkno off len
        (λ i.
          (p : ℕ)
          → (p < blkno * g.blksize + off) ⊎ (blkno * g.blksize + off + len ≤ p)
          → i.disk p ≡ io.disk p)
        (write_segment-outside device g (blkno * g.blksize + off) (blkno * g.blksize + off + len)
          io.disk)
        on_disk (λ p out. refl))
