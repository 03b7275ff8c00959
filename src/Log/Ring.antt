-- ===== src/Log/Ring.antt =====
-- src/pfs_core/pfs_log.cc: offsets in the log file, which is used as a ring.
use polarfs.Prelude.{
  ℕ, ◌+◌, ◌-◌, ◌*◌, ◌%◌, ◌≤◌, ◌<◌, ◌≡◌, Option, none, some, arith, ltb, leb, ◌==◌, if◌then◌else◌,
  min,
}

-- `OFF_MODULAR_ADD(offset, len, modulus)`
abbrev pub off_modular_add : ℕ → ℕ → ℕ → ℕ
off_modular_add offset len modulus =
    if leb modulus (offset + len) then offset + len - modulus else offset + len

-- `LEN_MODULAR_CUT(len, offset, modulus)`
abbrev pub len_modular_cut : ℕ → ℕ → ℕ → ℕ
len_modular_cut len offset modulus = if ltb modulus (len + offset) then modulus - offset else len

-- sizeof(pfs_logentry_phy_t)
abbrev pub entry_size : ℕ
entry_size = 256

abbrev pub frag_size : ℕ
frag_size = 16 * 1024

-- `none` is a failed PFS_ASSERT.
unfoldable pub log_usedspace : ℕ → ℕ → ℕ → Option ℕ
log_usedspace log_size tail_offset head_offset =
    let used =
      if ltb head_offset tail_offset
      then head_offset + log_size - tail_offset
      else head_offset - tail_offset in
    if used % entry_size == 0 then some used else none

unfoldable pub log_space : ℕ → ℕ → ℕ → Option ℕ
unfolding log_usedspace
log_space log_size tail_offset head_offset = elim (log_usedspace log_size tail_offset head_offset) [
  | none ↦ none
  | some used ↦ some (log_size - used)
]

-- How much one `pfs_log_read` asks for, at which offset.
unfoldable pub log_read_at : ℕ → ℕ → ℕ → ℕ × ℕ
log_read_at log_size len offset =
    let at = off_modular_add offset 0 log_size in
    let frag = frag_size - at % frag_size in (at, min (len_modular_cut frag at log_size) len)

-- Where the tail and the head stand when `used` bytes lie between them.
pub record Between (log_size tail head used : ℕ) : Type 0 where
  pub tail_in : tail < log_size
  pub head_in : head < log_size
  pub free : used < log_size
  pub whole : used % entry_size ≡ 0
  pub ahead : off_modular_add tail used log_size ≡ head

-- When `used` bytes lie between the tail and the head, in whole entries and fewer than the ring
-- has: `pfs_log_usedspace` computes them, its assertion holds, and `pfs_log_space` gives the rest.
pub log_usedspace_lem :
    (log_size tail head used : ℕ)
    → Between log_size tail head used
    → (log_usedspace log_size tail head ≡ some used)
      × (log_space log_size tail head ≡ some (log_size - used))
unfolding log_space
log_usedspace_lem log_size tail head used b = (
  ground (arith, b.tail_in, b.head_in, b.free, b.whole, b.ahead),
  ground (arith, b.tail_in, b.head_in, b.free, b.whole, b.ahead),
)

-- Appending whole entries, fewer bytes than are free, moves the head by that much, within the file.
pub Between-append :
    (log_size tail head used len : ℕ)
    → Between log_size tail head used
    → used + len < log_size
    → len % entry_size ≡ 0
    → Between log_size tail (off_modular_add head len log_size) (used + len)
Between-append log_size tail head used len b fits whole = record {
  tail_in = b.tail_in;
  head_in = ground (arith, b.tail_in, b.head_in, b.free, b.ahead);
  free = fits;
  whole = ground (arith, b.whole);
  ahead = ground (arith, b.tail_in, b.head_in, b.free, b.ahead);
}

-- Trimming whole entries from the tail leaves the rest in use.
pub Between-trim :
    (log_size tail head used len : ℕ)
    → Between log_size tail head used
    → len ≤ used
    → len % entry_size ≡ 0
    → Between log_size (off_modular_add tail len log_size) head (used - len)
Between-trim log_size tail head used len b le whole = record {
  tail_in = ground (arith, b.tail_in, b.head_in, b.free, b.ahead);
  head_in = b.head_in;
  free = omega (arith, b.free);
  whole = ground (arith, b.whole);
  ahead = ground (arith, b.tail_in, b.head_in, b.free, b.ahead);
}

-- From an offset below twice the ring's size and for a buffer that is not empty, a read lies
-- within the file and within one fragment, is not empty, and asks for no more than the buffer
-- holds.
pub log_read_at_lem :
    (log_size len offset : ℕ)
    → offset < 2 * log_size
    → 0 < len
    → let r = log_read_at log_size len offset in
      (r.0 < log_size)
      × (0 < r.1)
      × (r.1 ≤ len)
      × (r.0 + r.1 ≤ log_size)
      × (r.0 % frag_size + r.1 ≤ frag_size)
unfolding log_read_at
log_read_at_lem log_size len offset h p =
    (ground arith, ground arith, ground arith, ground arith, ground arith)
