-- ===== src/Lease/Leader.antt =====
-- src/pfs_core/pfs_paxos.cc: the first sector of the paxos file, which says how many hosts there are.
-- `pfs_leader_init` formats the file and `verify_leader` judges the sector at a mount.
use mathlib.Core.Path.{subst}
use Prim.Native.Nat.{bit_and}
use polarfs.Prelude.{
  ℕ, ◌+◌, ◌*◌, ◌≤◌, ◌≡◌, refl, Bool, true, false, not, Option, none, some, arith, ltb, ◌==◌,
  if◌then◌else◌, Option-cases, inl, inr,
}
use polarfs.Prelude.Errno.{Errno, einval, e2big}
use polarfs.Lease.Ballot.{default_max_hosts}

-- The fields of `pfs_leader_record_t` that the checksum covers; `unused` is not modelled.
pub record LeaderBody : Type 0 where
  pub magic : ℕ
  pub version : ℕ
  pub flags : ℕ
  pub sector_size : ℕ
  pub num_hosts : ℕ
  pub max_hosts : ℕ
  pub tail_txid : ℕ
  pub head_txid : ℕ
  pub tail_offset : ℕ
  pub head_offset : ℕ
  pub log_size : ℕ
  pub head_lsn : ℕ

pub record LeaderSector : Type 0 where
  pub body : LeaderBody
  pub open body use *
  pub checksum : ℕ

abbrev pub leader_magic : ℕ
leader_magic = 0xbabababa

abbrev pub leader_clear : ℕ
leader_clear = 0x11282016

abbrev pub version_primary : ℕ
version_primary = 0x00010000

abbrev pub version_now : ℕ
version_now = 0x00010002

-- How much of the file is formatted, by the sector's size.
unfoldable pub direct_align : ℕ → Option ℕ
direct_align sector_size =
    if sector_size == 512
    then some (1024 * 1024)
    else if sector_size == 4096
    then some (4 * 1024 * 1024)
    else none

-- What is written: the leader's sector at the start of so many bytes, zero but for it.
pub data Formatted : Type 0 where
  formatted : LeaderSector → ℕ → Formatted
  refused : Errno → Formatted

-- A zero asks for the default.
abbrev or_default : ℕ → ℕ
or_default n = if n == 0 then default_max_hosts else n

module _ (crc : LeaderBody → ℕ) where
  unfoldable pub leader_sector : ℕ → ℕ → ℕ → Bool → ℕ → LeaderSector
  leader_sector sector_size num_hosts max_hosts write_clear logsize =
      let b : LeaderBody = record {
        magic = if write_clear then leader_clear else leader_magic;
        version = version_now;
        flags = 0;
        sector_size = sector_size;
        num_hosts = num_hosts;
        max_hosts = max_hosts;
        tail_txid = 0;
        head_txid = 0;
        tail_offset = 0;
        head_offset = 0;
        log_size = logsize;
        head_lsn = 0;
      } in
      record { body = b; checksum = crc b }

  -- With the defaults filled in.
  unfoldable pub format : ℕ → ℕ → ℕ → Bool → ℕ → Formatted
  unfolding direct_align leader_sector
  format sector_size num_hosts max_hosts write_clear logsize =
      if ltb default_max_hosts max_hosts
      then refused e2big
      else if ltb default_max_hosts num_hosts
      then refused einval
      else if ltb max_hosts num_hosts
      then refused einval
      else elim (direct_align sector_size) [
        | none ↦ refused einval
        | some align_size ↦
            if ltb align_size (sector_size * (2 + max_hosts))
            then refused e2big
            else formatted (leader_sector sector_size num_hosts max_hosts write_clear logsize)
                align_size
      ]

  unfoldable pub leader_init : ℕ → ℕ → ℕ → Bool → ℕ → Formatted
  unfolding format
  leader_init sector_size num_hosts max_hosts write_clear logsize =
      format sector_size (or_default num_hosts) (or_default max_hosts) write_clear logsize

-- What `verify_leader` returns.
pub data Verified : Type 0 where
  ok emagic eversion esectorsize enumhosts echecksum : Verified

-- `checksum` is computed of the sector that was read.
unfoldable pub verify_leader : ℕ → ℕ → LeaderSector → ℕ → Verified
verify_leader sectsize host_id lr checksum =
    if lr.magic == leader_clear
    then emagic
    else if not (lr.magic == leader_magic)
    then emagic
    else if not (bit_and lr.version 0xffff0000 == version_primary)
    then eversion
    else if not (lr.sector_size == sectsize)
    then esectorsize
    else if ltb lr.num_hosts host_id
    then enumhosts
    else if not (lr.checksum == checksum)
    then echecksum
    else ok

-- The formatted file: the numbers of hosts are in bounds, and each host's sector lies in the part
-- that was written.
pub record Room (sector_size len : ℕ) (lr : LeaderSector) : Type 0 where
  pub some_hosts : 1 ≤ lr.num_hosts
  pub fewer : lr.num_hosts ≤ lr.max_hosts
  pub few : lr.max_hosts ≤ default_max_hosts
  pub sectors : (i : ℕ) → i ≤ lr.max_hosts → (i + 1) * sector_size ≤ len

module _ (crc : LeaderBody → ℕ) where
  or_default_pos : (n : ℕ) → 1 ≤ or_default n
  or_default_pos n = ground arith

  sector_in : (s n i len : ℕ) → s * (2 + n) ≤ len → i ≤ n → (i + 1) * s ≤ len
  sector_in s n i len h le = grind arith

  format-Room :
      (s n x : ℕ) (c : Bool) (logsize len : ℕ) (lr : LeaderSector)
      → 1 ≤ n
      → format crc s n x c logsize ≡ formatted lr len
      → (lr ≡ leader_sector crc s n x c logsize)
        × (n ≤ x)
        × (x ≤ default_max_hosts)
        × (s * (2 + x) ≤ len)
  unfolding format
  format-Room s n x c logsize len lr pos e = elim (Option-cases (direct_align s)) [
    | inl none_fits ↦ absurd (ground arith)
    | inr (align, fits) ↦ (ground arith, ground arith, ground arith, ground arith)
  ]

  leader_sector-Room :
      (s n x : ℕ) (c : Bool) (logsize len : ℕ)
      → 1 ≤ n
      → n ≤ x
      → x ≤ default_max_hosts
      → s * (2 + x) ≤ len
      → Room s len (leader_sector crc s n x c logsize)
  unfolding leader_sector
  leader_sector-Room s n x c logsize len pos fewer few room = record {
    some_hosts = pos;
    fewer = fewer;
    few = few;
    sectors = λ i le. sector_in s x i len room le;
  }

  verify_leader-leader_sector :
      (s n x : ℕ) (c : Bool) (logsize host : ℕ)
      → host ≤ (leader_sector crc s n x c logsize).num_hosts
      → verify_leader s host
          (leader_sector crc s n x c logsize)
          (crc (leader_sector crc s n x c logsize).body)
        ≡ (if c then emagic else ok)
  unfolding leader_sector verify_leader
  verify_leader-leader_sector s n x true logsize host le = refl
  verify_leader-leader_sector s n x false logsize host le = ground arith

  -- If `pfs_leader_init` formats the paxos file, the numbers of hosts are in bounds and the sector of
  -- each host lies in the part that was written; and at a mount with the same sector size, of a host
  -- that is among the hosts, `verify_leader` accepts what was written, but if it was to be cleared.
  pub leader_init-verify :
      (s n x : ℕ) (c : Bool) (logsize len host : ℕ) (lr : LeaderSector)
      → leader_init crc s n x c logsize ≡ formatted lr len
      → host ≤ lr.num_hosts
      → Room s len lr × (verify_leader s host lr (crc lr.body) ≡ (if c then emagic else ok))
  unfolding leader_init
  leader_init-verify s n x c logsize len host lr e le =
      let (same, fewer, few, room) =
        format-Room s (or_default n) (or_default x) c logsize len lr (or_default_pos n) e in
      rw same (
        leader_sector-Room s (or_default n) (or_default x) c logsize len (or_default_pos n) fewer
            few room,
        verify_leader-leader_sector s (or_default n) (or_default x) c logsize host
            (subst (λ l. host ≤ l.num_hosts) same le),
      )
