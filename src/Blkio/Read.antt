-- ===== src/Blkio/Read.antt =====
-- What `pfs_blkio_read` brings to the caller's memory.
use polarfs.Prelude.{
  ℕ, ◌+◌, ◌-◌, ◌*◌, ◌≤◌, ◌<◌, ◌≡◌, refl, ap, ◌∙◌, Bool, Bool-cases, inl, inr, List, ◌∷◌, arith,
  ◌==◌, some, le→leb, eq→==,
}
use polarfs.Prelude.Errno.{Status, done}
use polarfs.Blkio.Align.{Geometry, Window, IsSound, Fits}
use polarfs.Blkio.Io.{
  block_size, Io, went, Request, Answer, reading, copy, pread_mem, read_segment, blkio_read,
  blkio_write, returned,
}
use polarfs.Blkio.Loop.{Does, execute-done}
use polarfs.Blkio.Write.{Works, copy_join, pread_albuf-moved, blkio_write-done}

copy_at : (dst src : ℕ → ℕ) (d s n i : ℕ) → i < n → copy dst d src s n (d + i) ≡ src (s + i)
copy_at dst src d s n i h = ground arith

-- Out of a buffer that holds the window.
copy_window :
    (mem disk albuf : ℕ → ℕ) (al io bda pos op p : ℕ)
    → al ≤ bda
    → bda - al + op ≤ io
    → copy mem pos (copy albuf 0 disk al io) (bda - al) op p ≡ copy mem pos disk bda op p
copy_window mem disk albuf al io bda pos op p le fits = ground arith

module _ (device : List Request → Answer) (works : Works device) where
  -- The disk is untouched, and its `k` bytes from `bda` on are in the memory from `pos` on.
  abbrev pub Brought : Io → ℕ → ℕ → ℕ → Io → Type 0
  Brought io bda pos k io' =
      (io'.disk ≡ io.disk) × ((p : ℕ) → io'.mem p ≡ copy io.mem pos io.disk bda k p)

  read_segment-Brought :
      (g : Geometry) (io : Io) (w : Window) (bda len pos : ℕ) (nowait : Bool)
      → Fits g bda len w
      → ((read_segment device io w bda pos nowait).1 ≡ went done)
        × Brought io bda pos w.op_len (read_segment device io w bda pos nowait).0
  unfolding read_segment pread_mem
  read_segment-Brought g io w bda len pos nowait fits = elim (Bool-cases (w.io_len == w.op_len)) [
    | inl e ↦
        rw
          (
            e,
            eq→== w.aligned_bda bda (ground arith),
            works (
                record { direction = reading; bda = bda; len = w.op_len; nowait = nowait }
                ∷ io.asked),
          )
          (refl, (refl, λ p. refl))
    | inr e ↦
        rw (e, pread_albuf-moved device works io w.aligned_bda w.io_len)
          (
            refl,
            (
              refl,
              λ p.
                  copy_window io.mem io.disk io.albuf w.aligned_bda w.io_len bda pos w.op_len p
                    starts covers,
            ),
          )
  ]
    where
      open fits use {starts, covers}

  read-Does : (g : Geometry) → Does g (read_segment device) Brought
  read-Does g = record {
    segment = read_segment-Brought g;
    nothing = λ io bda pos. (refl, λ p. ground arith);
    join = λ io bda pos k io' m io'' r r'. (
      r'.0 ∙ r.0,
      λ p.
          r'.1 p
          ∙ ap (λ h. copy io'.mem (pos + k) h (bda + k) m p) r.0
          ∙ copy_join io.mem io'.mem io.disk pos bda k m p (r.1 p),
    );
  }

-- On a working device, a read within a block of the disk returns its length, brings exactly the
-- bytes of its range to the caller's memory, wherever it starts and ends, and changes nothing else
-- in the memory and nothing on the disk.
pub blkio_read-done :
    (g : Geometry) (device : List Request → Answer) (wait : List Request → Status) (io : Io)
    (buf blkno off len : ℕ)
    → IsSound g
    → Works device
    → ((rs : List Request) → wait rs ≡ done)
    → off + len ≤ g.blksize
    → blkno * g.blksize + off + len ≤ g.disksize
    → let (io', r) = blkio_read g device wait io buf blkno off len in
      (r ≡ returned len)
      × (io'.disk ≡ io.disk)
      × ((p : ℕ) → io'.mem p ≡ copy io.mem buf io.disk (blkno * g.blksize + off) len p)
unfolding blkio_read
blkio_read-done g device wait io buf blkno off len ok works waits in_block on_disk =
    let (r, b) =
      execute-done g ok (read_segment device) wait (Brought device works) io buf blkno off len waits
        (read-Does device works g) on_disk in
    rw (le→leb (off + len) g.blksize in_block) (r, b.0, b.1)

-- On a working device, reading a range back after writing it, to any other place, brings the bytes
-- that were written.
pub blkio_read-blkio_write :
    (g : Geometry) (device : List Request → Answer) (wait : List Request → Status) (io : Io)
    (pos buf blkno off len : ℕ)
    → IsSound g
    → Works device
    → ((rs : List Request) → wait rs ≡ done)
    → g.blksize ≤ block_size
    → off + len ≤ g.blksize
    → blkno * g.blksize + off + len ≤ g.disksize
    → (i : ℕ) → i < len
    → let io' = (blkio_write g device wait io (some pos) blkno off len).0 in
      (blkio_read g device wait io' buf blkno off len).0.mem (buf + i) ≡ io.mem (pos + i)
blkio_read-blkio_write g device wait io pos buf blkno off len ok works waits blk in_block on_disk i
      h =
    let io' = (blkio_write g device wait io (some pos) blkno off len).0 in
    let w =
      blkio_write-done g device wait io (some pos) blkno off len ok works waits blk in_block
        on_disk in
    let r = blkio_read-done g device wait io' buf blkno off len ok works waits in_block on_disk in
    r.2 (buf + i)
    ∙ copy_at io'.mem io'.disk buf (blkno * g.blksize + off) len i h
    ∙ w.2 (blkno * g.blksize + off + i)
    ∙ copy_at io.disk io.mem (blkno * g.blksize + off) pos len i h
