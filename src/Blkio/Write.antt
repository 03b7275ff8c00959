-- ===== src/Blkio/Write.antt =====
-- What `pfs_blkio_write` leaves on the disk.
use polarfs.Prelude.{
  le→leb, none, some, some, Option, ℕ, ◌+◌, ◌-◌, ◌*◌, ◌≤◌, ◌≡◌, refl, ap, ◌∙◌, Bool, true, false,
  Bool-cases, inl, inr, List, ◌∷◌, arith, ◌==◌,
}
use polarfs.Prelude.Errno.{Status, done}
use polarfs.Blkio.Align.{Geometry, Window, IsSound, Fits}
use polarfs.Blkio.Io.{
  Io, went, Request, Answer, moved, reading, writing, bytes, copy, pread_albuf, pwrite,
  write_segment, blkio_write, returned, block_size,
}
use polarfs.Blkio.Loop.{execute-done, Does}

-- Every request succeeds.
abbrev pub Works : (List Request → Answer) → Type 0
Works device = (rs : List Request) → device rs ≡ moved

-- A copy by two pieces.
pub copy_join :
    (f g h : ℕ → ℕ) (d s k m p : ℕ)
    → g p ≡ copy f d h s k p
    → copy g (d + k) h (s + k) m p ≡ copy f d h s (k + m) p
copy_join f g h d s k m p e = ground arith

-- Read, change and write back.
patch :
    (disk mem albuf : ℕ → ℕ) (al io bda pos op p : ℕ)
    → al ≤ bda
    → bda - al + op ≤ io
    → copy disk al (copy (copy albuf 0 disk al io) (bda - al) mem pos op) 0 io p
      ≡ copy disk bda mem pos op p
patch disk mem albuf al io bda pos op p le fits = ground arith

module _ (device : List Request → Answer) (works : Works device) where
  -- The memory is untouched, and its `k` bytes from `pos` on are on the disk from `bda` on.
  abbrev pub Written : Io → ℕ → ℕ → ℕ → Io → Type 0
  Written io bda pos k io' =
      (io'.mem ≡ io.mem) × ((p : ℕ) → io'.disk p ≡ copy io.disk bda io.mem pos k p)

  pub pread_albuf-moved :
      (io : Io) (bda len : ℕ)
      → pread_albuf device io bda len ≡ (
        record io {
          asked = record { direction = reading; bda = bda; len = len; nowait = false } ∷ io.asked;
          albuf = copy io.albuf 0 io.disk bda len;
        },
        done,
      )
  unfolding pread_albuf
  pread_albuf-moved io bda len =
      rw (works (record { direction = reading; bda = bda; len = len; nowait = false } ∷ io.asked))
        refl

  pwrite-moved :
      (io : Io) (buf : ℕ → ℕ) (pos bda len : ℕ) (nowait : Bool)
      → pwrite device io buf pos bda len nowait ≡ (
        record io {
          asked = record { direction = writing; bda = bda; len = len; nowait = nowait } ∷ io.asked;
          disk = copy io.disk bda buf pos len;
        },
        done,
      )
  unfolding pwrite
  pwrite-moved io buf pos bda len nowait =
      rw (works (record { direction = writing; bda = bda; len = len; nowait = nowait } ∷ io.asked))
        refl

  whole_write :
      (io : Io) (w : Window) (bda pos : ℕ) (nowait : Bool)
      → w.io_len == w.op_len ≡ true
      → w.aligned_bda == bda ≡ true
      → write_segment device io w bda pos nowait ≡ (
        record io {
          asked =
              record { direction = writing; bda = bda; len = w.op_len; nowait = nowait } ∷ io.asked;
          disk = copy io.disk bda io.mem pos w.op_len;
        },
        went done,
      )
  unfolding write_segment
  whole_write io w bda pos nowait e e' = rw (e, e', pwrite-moved io io.mem pos bda w.op_len nowait)

  patch_write :
      (io : Io) (w : Window) (bda pos : ℕ) (nowait : Bool)
      → w.io_len == w.op_len ≡ false
      → write_segment device io w bda pos nowait ≡ (
        let albuf =
              copy
                (copy io.albuf 0 io.disk w.aligned_bda w.io_len)
                (bda - w.aligned_bda)
                io.mem
                pos
                w.op_len in
            record io {
              asked =
                  record {
                    direction = writing;
                    bda = w.aligned_bda;
                    len = w.io_len;
                    nowait = false;
                  }
                  ∷ record {
                    direction = reading;
                    bda = w.aligned_bda;
                    len = w.io_len;
                    nowait = false;
                  }
                  ∷ io.asked;
              albuf = albuf;
              disk = copy io.disk w.aligned_bda albuf 0 w.io_len;
            },
        went done,
      )
  unfolding write_segment
  patch_write io w bda pos nowait e = rw (
    e,
    pread_albuf-moved io w.aligned_bda w.io_len,
    pwrite-moved
        (record io {
          asked =
              record { direction = reading; bda = w.aligned_bda; len = w.io_len; nowait = false }
              ∷ io.asked;
          albuf = patched;
        })
        patched 0 w.aligned_bda w.io_len false,
  )
    where
      patched : ℕ → ℕ
      patched =
          copy (copy io.albuf 0 io.disk w.aligned_bda w.io_len) (bda - w.aligned_bda) io.mem pos
            w.op_len

  write_segment-Written :
      (g : Geometry) (io : Io) (w : Window) (bda len pos : ℕ) (nowait : Bool)
      → Fits g bda len w
      → ((write_segment device io w bda pos nowait).1 ≡ went done)
        × Written io bda pos w.op_len (write_segment device io w bda pos nowait).0
  unfolding write_segment
  write_segment-Written g io w bda len pos nowait fits = elim (Bool-cases (w.io_len == w.op_len)) [
    | inl e ↦ rw (whole_write io w bda pos nowait e (ground arith)) (refl, (refl, λ p. refl))
    | inr e ↦ rw (patch_write io w bda pos nowait e) (
      refl,
      (
        refl,
        λ p. patch io.disk io.mem io.albuf w.aligned_bda w.io_len bda pos w.op_len p starts covers,
      ),
    )
  ]
    where
      open fits use {starts, covers}

  write-Does : (g : Geometry) → Does g (write_segment device) Written
  write-Does g = record {
    segment = write_segment-Written g;
    nothing = λ io bda pos. (refl, λ p. ground arith);
    join = λ io bda pos k io' m io'' r r'. (
      r'.0 ∙ r.0,
      λ p.
          r'.1 p
          ∙ ap (λ h. copy io'.disk (bda + k) h (pos + k) m p) r.0
          ∙ copy_join io.disk io'.disk io.mem bda pos k m p (r.1 p),
    );
  }

-- With no data the bytes are those of `pfs_zero_buf`.
abbrev pub source : Io → Option ℕ → (ℕ → ℕ) × ℕ
source io none = (λ p. 0, 0)
source io (some pos) = (io.mem, pos)

-- On a working device, a write within a block of the disk returns its length, leaves exactly its
-- bytes on the disk from the block's offset on, wherever it starts and ends, and changes neither any
-- other byte of the disk nor the caller's memory.
pub blkio_write-done :
    (g : Geometry) (device : List Request → Answer) (wait : List Request → Status) (io : Io)
    (buf : Option ℕ) (blkno off len : ℕ)
    → IsSound g
    → Works device
    → ((rs : List Request) → wait rs ≡ done)
    → g.blksize ≤ block_size
    → off + len ≤ g.blksize
    → blkno * g.blksize + off + len ≤ g.disksize
    → let (io', r) = blkio_write g device wait io buf blkno off len in
      let (bytes, pos) = source io buf in
      (r ≡ returned len)
      × (io'.mem ≡ io.mem)
      × ((p : ℕ) → io'.disk p ≡ copy io.disk (blkno * g.blksize + off) bytes pos len p)
unfolding blkio_write
blkio_write-done g device wait io (some pos) blkno off len ok works waits blk in_block on_disk =
    let (r, w) =
      execute-done g ok (write_segment device) wait (Written device works) io pos blkno off len
        waits (write-Does device works g) on_disk in
    rw (le→leb (off + len) g.blksize in_block) (r, w.0, w.1)
blkio_write-done g device wait io none blkno off len ok works waits blk in_block on_disk =
    let (r, w) =
      execute-done g ok (write_segment device) wait (Written device works)
        (record io { mem = λ p. 0 }) 0 blkno off len waits (write-Does device works g) on_disk in
    rw (le→leb (off + len) g.blksize in_block, le→leb len block_size (omega arith)) (r, refl, w.1)
