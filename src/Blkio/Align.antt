-- ===== src/Blkio/Align.antt =====
-- src/pfs_core/pfs_blkio.cc, `pfs_blkio_align`: the next request for a range of bytes. Sector and
-- fragment sizes are powers of two, so masking with `size - 1` is the remainder.
use polarfs.Prelude.{
  ℕ, ◌+◌, ◌-◌, ◌*◌, ◌/◌, ◌%◌, ◌^◌, ◌≤◌, ◌<◌, ◌≡◌, ◌&&◌, Option, none, some, min, ltb, leb, ◌==◌,
  if◌then◌else◌,
}

-- The sizes of `pfs_mount_t`.
pub record Geometry : Type 0 where
  pub sectsize : ℕ
  pub fragsize : ℕ
  pub blksize : ℕ
  pub disksize : ℕ

-- A request covers `io_len` bytes from `aligned_bda` on, of which `op_len` are asked for.
pub record Window : Type 0 where
  pub aligned_bda : ℕ
  pub io_len : ℕ
  pub op_len : ℕ

abbrev pub roundup : ℕ → ℕ → ℕ
roundup x y = (x + (y - 1)) / y * y

-- The branch of a start inside a sector: what is left of that sector.
abbrev pub sector_window : Geometry → ℕ → ℕ → Window
sector_window g data_bda data_len = record {
  aligned_bda = data_bda - data_bda % g.sectsize;
  io_len = g.sectsize;
  op_len = min (g.sectsize - data_bda % g.sectsize) data_len;
}

-- The branch of a start at a sector: what is left of the fragment.
abbrev pub frag_window : Geometry → ℕ → ℕ → Window
frag_window g data_bda data_len =
    let op = min (g.fragsize - data_bda % g.fragsize) data_len in
    record { aligned_bda = data_bda; io_len = roundup op g.sectsize; op_len = op }

-- Before the assertions.
unfoldable pub window : Geometry → ℕ → ℕ → Window
window g data_bda data_len =
    if data_bda % g.sectsize == 0
    then frag_window g data_bda data_len
    else sector_window g data_bda data_len

-- The assertions; `none` is a failed one.
unfoldable pub accept : Geometry → ℕ → Window → Option Window
accept g data_bda w =
    if leb w.aligned_bda data_bda
      && ltb w.aligned_bda g.disksize
      && leb ((w.aligned_bda + w.io_len) % 2 ^ 64) g.disksize
      && leb w.io_len g.fragsize
      && leb (data_bda - w.aligned_bda + w.op_len) g.fragsize
    then some w
    else none

unfoldable pub align : Geometry → ℕ → ℕ → Option Window
unfolding accept window
align g data_bda data_len = accept g data_bda (window g data_bda data_len)

-- Fragments are whole sectors, and the disk is whole fragments.
pub record IsSound (g : Geometry) : Type 0 where
  pub sectors : 0 < g.sectsize
  pub frag_sectors : ℕ
  pub frag_whole : g.fragsize ≡ frag_sectors * g.sectsize
  pub disk_frags : ℕ
  pub disk_whole : g.disksize ≡ disk_frags * g.fragsize
  pub disk_fits : g.disksize < 2 ^ 64

-- What a request needs: whole sectors of one fragment, with the bytes asked for inside.
pub record Fits (g : Geometry) (bda len : ℕ) (w : Window) : Type 0 where
  pub aligned : w.aligned_bda % g.sectsize ≡ 0
  pub whole : w.io_len % g.sectsize ≡ 0
  pub starts : w.aligned_bda ≤ bda
  pub covers : bda - w.aligned_bda + w.op_len ≤ w.io_len
  pub one_frag : w.aligned_bda % g.fragsize + w.io_len ≤ g.fragsize
  pub on_disk : w.aligned_bda + w.io_len ≤ g.disksize
  pub some_byte : 0 < w.op_len
  pub no_more : w.op_len ≤ len
