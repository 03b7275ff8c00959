-- ===== src/Blkio/Fits.antt =====
-- What `pfs_blkio_align` asks for is whole sectors of one fragment, and its assertions hold.
use native.Mathlib.Nat.{
  div-add-mod, mul-zero, mul_comm, add-mul, mul_assoc, suc-mul, mul-le-mul_right, div-lt_iff_lt-mul,
  le-div_iff_mul-le, lt-div-mul-add, mod-lt, mul-sub, mod_self, mul-mod_left,
  mul-add-mod_self_right, mod-eq_of_lt, div-mul-le_self,
}
use mathlib.Core.Path.{subst}
use polarfs.Prelude.{
  le→leb, sym, ap, lt→ltb, Bool-cases, inl, inr, ℕ, zero, suc, ◌∙◌, ◌+◌, ◌-◌, ◌*◌, ◌/◌, ◌%◌, ◌^◌,
  ◌≤◌, ◌<◌, ◌≡◌, some, min, arith, ◌==◌,
}
use polarfs.Blkio.Align.{
  Geometry, Window, roundup, sector_window, frag_window, window, accept, align, IsSound, Fits,
}

module _ (s : ℕ) (pos : 0 < s) where
  split : (x : ℕ) → x / s * s + x % s ≡ x
  split x = omega (arith, div-add-mod x s, mul_comm (x / s) s)

  -- The multiple after the last one up to `x`.
  next_le : (m x : ℕ) → x < m * s → x / s * s + s ≤ m * s
  next_le m x h = omega (arith, suc-mul (x / s) s, mul-le-mul_right s ((div-lt_iff_lt-mul pos).1 h))

  last_ge : (m x : ℕ) → m * s ≤ x → m * s ≤ x / s * s
  last_ge m x h = mul-le-mul_right s ((le-div_iff_mul-le pos).1 h)

  roundup-ge : (x : ℕ) → x ≤ roundup x s
  roundup-ge x = omega (arith, lt-div-mul-add {a = x + (s - 1)} pos)

  roundup-le : (m x : ℕ) → x ≤ m * s → roundup x s ≤ m * s
  roundup-le m x h =
      omega (arith, next_le (suc m) (x + (s - 1)) (rw suc-mul (omega arith)), suc-mul m s)

pos_of-lt-mul : (s m x : ℕ) → x < m * s → 0 < s
pos_of-lt-mul zero m x h = absurd (omega (arith, mul-zero m))
pos_of-lt-mul (suc s) m x h = omega arith

sub_mul : (m n s : ℕ) → (m - n) * s ≡ m * s - n * s
sub_mul m n s = omega (arith, mul_comm (m - n) s, mul_comm m s, mul_comm n s, mul-sub s m n)

-- The fragment of `bda`, in sectors.
module _ (g : Geometry) (ok : IsSound g) (bda : ℕ) where
  open g use {sectsize, fragsize, disksize}
  open ok use {sectors, frag_sectors, frag_whole, disk_frags, disk_whole}

  abbrev frag_start : ℕ
  frag_start = bda / fragsize * fragsize

  frag_pos : bda < disksize → 0 < fragsize
  frag_pos h = pos_of-lt-mul fragsize disk_frags bda (omega (arith, disk_whole))

  start_whole : frag_start ≡ bda / fragsize * frag_sectors * sectsize
  start_whole =
      ap (λ x. bda / fragsize * x) frag_whole
      ∙ sym (mul_assoc (bda / fragsize) frag_sectors sectsize)

  end_whole : frag_start + fragsize ≡ (bda / fragsize * frag_sectors + frag_sectors) * sectsize
  end_whole = omega (
    arith,
    start_whole,
    frag_whole,
    add-mul (bda / fragsize * frag_sectors) frag_sectors sectsize,
  )

  end_le : bda < disksize → frag_start + fragsize ≤ disksize
  end_le h =
      omega (
        arith,
        disk_whole,
        next_le fragsize (frag_pos h) disk_frags bda (omega (arith, disk_whole)),
      )

  offset_in : (a : ℕ) → frag_start ≤ a → a < frag_start + fragsize → a % fragsize ≡ a - frag_start
  offset_in a lo hi =
      subst (λ x. x % fragsize ≡ a - frag_start) (omega arith)
        (mul-add-mod_self_right (bda / fragsize) fragsize (a - frag_start)
          ∙ mod-eq_of_lt (omega arith))

  start-le : frag_start ≤ bda / sectsize * sectsize
  start-le = rw start_whole (
      last_ge sectsize sectors (bda / fragsize * frag_sectors) bda
        (omega (arith, start_whole, div-mul-le_self bda fragsize)))

  window_within :
      (a io : ℕ)
      → bda < disksize
      → frag_start ≤ a
      → a + io ≤ frag_start + fragsize
      → 0 < io
      → (a % fragsize + io ≤ fragsize) × (a + io ≤ disksize)
  window_within a io h lo hi nonempty =
      (omega (arith, offset_in a lo (omega arith)), omega (arith, end_le h))

  sector_window-Fits :
      (len : ℕ) → bda + len ≤ disksize → 0 < len → Fits g bda len (sector_window g bda len)
  sector_window-Fits len h nonempty =
      let rest = mod-lt bda sectors in
      let start = split sectsize sectors bda in
      let next = next_le sectsize sectors (bda / fragsize * frag_sectors + frag_sectors) bda (
        omega (
          arith,
          end_whole,
          split fragsize (frag_pos (omega arith)) bda,
          mod-lt bda (frag_pos (omega arith)),
        )) in
      let within =
        window_within (bda - bda % sectsize) sectsize (omega arith) (omega (arith, start-le))
          (omega (arith, end_whole)) sectors in
      record {
        aligned =
            subst (λ a. a % sectsize ≡ 0) (omega arith) (mul-mod_left (bda / sectsize) sectsize);
        whole = mod_self sectsize;
        starts = omega arith;
        covers = omega arith;
        one_frag = within.0;
        on_disk = within.1;
        some_byte = omega arith;
        no_more = omega arith;
      }

  -- What is left of the fragment is whole sectors too.
  rest_whole :
      bda % sectsize ≡ 0
      → bda < disksize
      → fragsize - bda % fragsize
        ≡ (bda / fragsize * frag_sectors + frag_sectors - bda / sectsize) * sectsize
  rest_whole e h = omega (
    arith,
    end_whole,
    split fragsize (frag_pos h) bda,
    split sectsize sectors bda,
    sub_mul (bda / fragsize * frag_sectors + frag_sectors) (bda / sectsize) sectsize,
  )

  frag_window-Fits :
      (len : ℕ)
      → bda % sectsize ≡ 0
      → bda + len ≤ disksize
      → 0 < len
      → Fits g bda len (frag_window g bda len)
  frag_window-Fits len e h nonempty =
      let rest = mod-lt bda (frag_pos (omega arith)) in
      let start = split fragsize (frag_pos (omega arith)) bda in
      let sects = split sectsize sectors bda in
      let up = roundup-ge sectsize sectors (min (fragsize - bda % fragsize) len) in
      let top =
        roundup-le sectsize sectors (bda / fragsize * frag_sectors + frag_sectors - bda / sectsize)
          (min (fragsize - bda % fragsize) len) (omega (arith, rest_whole e (omega arith))) in
      let within =
        window_within bda (roundup (min (fragsize - bda % fragsize) len) sectsize) (omega arith)
          (omega arith) (omega (arith, rest_whole e (omega arith))) (omega (arith)) in
      record {
        aligned = e;
        whole =
            mul-mod_left ((min (fragsize - bda % fragsize) len + (sectsize - 1)) / sectsize)
              sectsize;
        starts = omega arith;
        covers = omega arith;
        one_frag = within.0;
        on_disk = within.1;
        some_byte = omega arith;
        no_more = omega arith;
      }

  window-Fits : (len : ℕ) → bda + len ≤ disksize → 0 < len → Fits g bda len (window g bda len)
  unfolding window
  window-Fits len h nonempty = elim (Bool-cases (bda % sectsize == 0)) [
    | inl e ↦ rw e (frag_window-Fits len (ground arith) h nonempty)
    | inr e ↦ rw e (sector_window-Fits len h nonempty)
  ]

  accept-Fits : (len : ℕ) (w : Window) → Fits g bda len w → bda < disksize → accept g bda w ≡ some w
  unfolding accept
  accept-Fits len w fits h = rw (
    le→leb aligned_bda bda starts,
    lt→ltb aligned_bda disksize (omega arith),
    le→leb ((aligned_bda + io_len) % 2 ^ 64) disksize (omega (arith, ok.disk_fits)),
    le→leb io_len fragsize (omega arith),
    le→leb (bda - aligned_bda + op_len) fragsize (omega arith),
  )
    where
      open w use {aligned_bda, io_len, op_len}
      open fits use {starts, covers, one_frag, on_disk}

  -- No assertion of the source fails.
  pub align-Fits :
      (len : ℕ)
      → bda + len ≤ disksize
      → 0 < len
      → (w : Window) × (align g bda len ≡ some w) × Fits g bda len w
  unfolding align
  align-Fits len h nonempty =
      (window g bda len, accept-Fits len (window g bda len) fits (omega arith), fits)
    where
      fits : Fits g bda len (window g bda len)
      fits = window-Fits len h nonempty
