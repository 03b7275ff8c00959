-- ===== src/Blkio/Tests.antt =====
-- Runs of the block I/O on a small disk.
use polarfs.Prelude.{◌≤◌, ◌<◌, ℕ, ◌+◌, ◌≡◌, refl, ◌⊎◌, List, [], ◌∷◌, arith, none, some, map}
use polarfs.Prelude.Errno.{Status, done, enospc, eio}
use polarfs.Blkio.Align.{align, Geometry, IsSound}
use polarfs.Blkio.Io.{
  pread_albuf, pwrite, Io, Request, Answer, moved, broken, returned, failed, blkio_read,
  blkio_write, copy,
}
use polarfs.Blkio.Loop.{Settled}
use polarfs.Blkio.Write.{blkio_write-done}
use polarfs.Blkio.Outside.{blkio_write-outside}
use polarfs.Blkio.Read.{blkio_read-blkio_write}
use polarfs.Blkio.Requests.{AllSectors, blkio-AllSectors}

-- Sectors of 4, fragments of 8 and blocks of 16 bytes.
abbrev small : Geometry
small = record { sectsize = 4; fragsize = 8; blksize = 16; disksize = 64 }

small-IsSound : IsSound small
small-IsSound = record {
  sectors = omega arith;
  frag_sectors = 2;
  frag_whole = refl;
  disk_frags = 8;
  disk_whole = refl;
  disk_fits = omega arith;
}

abbrev fresh : Io
fresh = record { disk = λ p. p; mem = λ p. 100 + p; albuf = λ p. 0; asked = [] }

abbrev working : List Request → Answer
working rs = moved

-- The second request breaks off after a byte.
abbrev breaking : List Request → Answer
breaking (r ∷ r' ∷ []) = broken enospc 1
breaking rs = moved

abbrev quiet : List Request → Status
quiet rs = done

after_write :
    map
      ((blkio_write small working quiet fresh (some 5) 1 3 10).0.disk)
      (18 ∷ 19 ∷ 20 ∷ 28 ∷ 29 ∷ [])
    ≡ 18 ∷ 105 ∷ 106 ∷ 114 ∷ 29 ∷ []
unfolding blkio_write align pread_albuf pwrite
after_write = refl

after_break : (blkio_write small breaking quiet fresh (some 5) 1 3 10).1 ≡ failed eio
unfolding blkio_write align pread_albuf pwrite
after_break = refl

blkio_write-done_example :
    let (io', r) = blkio_write small working quiet fresh (some 5) 1 3 10 in
    (r ≡ returned 10)
    × (io'.mem ≡ fresh.mem)
    × ((p : ℕ) → io'.disk p ≡ copy fresh.disk 19 fresh.mem 5 10 p)
blkio_write-done_example =
    blkio_write-done small working quiet fresh (some 5) 1 3 10 small-IsSound (λ rs. refl)
      (λ rs. refl) (omega arith) (omega arith) (omega arith)

blkio_write-outside_example :
    let (io', r) = blkio_write small breaking quiet fresh (some 5) 1 3 10 in
    Settled r 10 × ((p : ℕ) → (p < 19) ⊎ (29 ≤ p) → io'.disk p ≡ p)
blkio_write-outside_example =
    blkio_write-outside small breaking quiet fresh (some 5) 1 3 10 small-IsSound (omega arith)
      (omega arith) (omega arith)

blkio_read-blkio_write_example :
    let io' = (blkio_write small working quiet fresh (some 5) 1 3 10).0 in
    (blkio_read small working quiet io' 50 1 3 10).0.mem 57 ≡ 112
blkio_read-blkio_write_example =
    blkio_read-blkio_write small working quiet fresh 5 50 1 3 10 small-IsSound (λ rs. refl)
      (λ rs. refl) (omega arith) (omega arith) (omega arith) 7 (omega arith)

blkio-AllSectors_example :
    AllSectors small (blkio_read small breaking quiet fresh 5 1 3 10).0.asked
    × AllSectors small (blkio_write small breaking quiet fresh none 1 3 10).0.asked
blkio-AllSectors_example =
    blkio-AllSectors small breaking quiet fresh 5 none 1 3 10 small-IsSound (omega arith)
      (omega arith) (omega arith) tt
