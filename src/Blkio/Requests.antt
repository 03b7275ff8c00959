-- ===== src/Blkio/Requests.antt =====
-- The disk is asked for whole sectors only.
use mathlib.Core.Path.{subst}
use polarfs.Prelude.{
  none, some, ◌%◌, Option, ℕ, ◌+◌, ◌*◌, ◌≤◌, ◌≡◌, refl, true, Bool-cases, inl, inr, List, [], ◌∷◌,
  arith, ◌==◌, le→leb, eq→==,
}
use polarfs.Prelude.Errno.{Status, done, fail}
use polarfs.Blkio.Align.{Geometry, Window, IsSound, Fits}
use polarfs.Blkio.Io.{
  blkio_write, blkio_read, block_size, Io, Request, Answer, pread_albuf, pread_mem, pwrite,
  read_segment, write_segment,
}
use polarfs.Blkio.Loop.{execute-Keeps, Keeps}
use polarfs.Blkio.Outside.{Answer-cases, read_request, patch_segment}

-- A request of whole sectors, which lie on the disk.
abbrev pub Sectors : Geometry → Request → Type 0
Sectors g r = (r.bda % g.sectsize ≡ 0) × (r.len % g.sectsize ≡ 0) × (r.bda + r.len ≤ g.disksize)

abbrev pub AllSectors : Geometry → List Request → Type 0
AllSectors g [] = Unit
AllSectors g (r ∷ rs) = Sectors g r × AllSectors g rs

module _ (g : Geometry) (device : List Request → Answer) (lo hi : ℕ) where
  window_sectors :
      {bda len : ℕ} (w : Window)
      → Fits g bda len w
      → (w.aligned_bda % g.sectsize ≡ 0)
        × (w.io_len % g.sectsize ≡ 0)
        × (w.aligned_bda + w.io_len ≤ g.disksize)
  window_sectors w fits = (fits.aligned, fits.whole, fits.on_disk)

  whole_sectors :
      {bda len : ℕ} (w : Window)
      → Fits g bda len w
      → w.io_len == w.op_len ≡ true
      → (bda % g.sectsize ≡ 0) × (w.op_len % g.sectsize ≡ 0) × (bda + w.op_len ≤ g.disksize)
  whole_sectors {bda = bda} w fits e = (
    subst (λ a. a % g.sectsize ≡ 0) start fits.aligned,
    subst (λ n. n % g.sectsize ≡ 0) size fits.whole,
    omega (arith, fits.on_disk, start, size),
  )
    where
      size : w.io_len ≡ w.op_len
      size = ground arith

      start : w.aligned_bda ≡ bda
      start = ground (arith, fits.starts, fits.covers)

  read_segment-AllSectors : Keeps g (read_segment device) lo hi (λ io. AllSectors g io.asked)
  unfolding read_segment pread_albuf pread_mem
  read_segment-AllSectors io w bda len pos nowait fits above below all =
      elim (Bool-cases (w.io_len == w.op_len)) [
        | inl e ↦
            rw (e, eq→== w.aligned_bda bda (ground (arith, fits.starts, fits.covers)))
              (_, refl, (whole_sectors w fits e, all))
        | inr e ↦ elim (Answer-cases (device (read_request w ∷ io.asked))) [
          | inl m ↦ rw (e, m) (done, refl, (window_sectors w fits, all))
          | inr (x, (k, b)) ↦ rw (e, b) (fail x, refl, (window_sectors w fits, all))
        ]
      ]

  write_segment-AllSectors : Keeps g (write_segment device) lo hi (λ io. AllSectors g io.asked)
  unfolding write_segment pread_albuf pwrite
  write_segment-AllSectors io w bda len pos nowait fits above below all =
      elim (Bool-cases (w.io_len == w.op_len)) [
        | inl e ↦
            rw (e, eq→== w.aligned_bda bda (ground (arith, fits.starts, fits.covers)))
              (_, refl, (whole_sectors w fits e, all))
        | inr e ↦ elim (Answer-cases (device (read_request w ∷ io.asked))) [
          | inl m ↦
              rw (patch_segment device io w bda pos nowait e m)
                (_, refl, (window_sectors w fits, (window_sectors w fits, all)))
          | inr (x, (k, b)) ↦ rw (e, b) (fail x, refl, (window_sectors w fits, all))
        ]
      ]

blkio_read-AllSectors :
    (g : Geometry) (device : List Request → Answer) (wait : List Request → Status) (io : Io)
    (buf blkno off len : ℕ)
    → IsSound g
    → off + len ≤ g.blksize
    → blkno * g.blksize + off + len ≤ g.disksize
    → AllSectors g io.asked
    → AllSectors g (blkio_read g device wait io buf blkno off len).0.asked
unfolding blkio_read
blkio_read-AllSectors g device wait io buf blkno off len ok in_block on_disk all =
    rw (le→leb (off + len) g.blksize in_block)
      (execute-Keeps g ok (read_segment device) wait io buf blkno off len
        (λ i. AllSectors g i.asked)
        (read_segment-AllSectors g device (blkno * g.blksize + off) (blkno * g.blksize + off + len))
        on_disk all).1

blkio_write-AllSectors :
    (g : Geometry) (device : List Request → Answer) (wait : List Request → Status) (io : Io)
    (buf : Option ℕ) (blkno off len : ℕ)
    → IsSound g
    → g.blksize ≤ block_size
    → off + len ≤ g.blksize
    → blkno * g.blksize + off + len ≤ g.disksize
    → AllSectors g io.asked
    → AllSectors g (blkio_write g device wait io buf blkno off len).0.asked
unfolding blkio_write
blkio_write-AllSectors g device wait io (some pos) blkno off len ok blk in_block on_disk all =
    rw (le→leb (off + len) g.blksize in_block)
      (execute-Keeps g ok (write_segment device) wait io pos blkno off len
        (λ i. AllSectors g i.asked)
        (write_segment-AllSectors g device (blkno * g.blksize + off)
          (blkno * g.blksize + off + len))
        on_disk all).1
blkio_write-AllSectors g device wait io none blkno off len ok blk in_block on_disk all =
    rw (le→leb (off + len) g.blksize in_block, le→leb len block_size (omega arith))
      (execute-Keeps g ok (write_segment device) wait (record io { mem = λ p. 0 }) 0 blkno off len
        (λ i. AllSectors g i.asked)
        (write_segment-AllSectors g device (blkno * g.blksize + off)
          (blkno * g.blksize + off + len))
        on_disk all).1

-- Whatever the device answers, every request of a read or of a write within a block of the disk is
-- for whole sectors on the disk, if those before were.
pub blkio-AllSectors :
    (g : Geometry) (device : List Request → Answer) (wait : List Request → Status) (io : Io)
    (buf : ℕ) (data_buf : Option ℕ) (blkno off len : ℕ)
    → IsSound g
    → g.blksize ≤ block_size
    → off + len ≤ g.blksize
    → blkno * g.blksize + off + len ≤ g.disksize
    → AllSectors g io.asked
    → AllSectors g (blkio_read g device wait io buf blkno off len).0.asked
      × AllSectors g (blkio_write g device wait io data_buf blkno off len).0.asked
blkio-AllSectors g device wait io buf data_buf blkno off len ok blk in_block on_disk all = (
  blkio_read-AllSectors g device wait io buf blkno off len ok in_block on_disk all,
  blkio_write-AllSectors g device wait io data_buf blkno off len ok blk in_block on_disk all,
)
