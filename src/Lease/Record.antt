-- ===== src/Lease/Record.antt =====
-- src/pfs_core/pfs_paxos.h, pfs_paxos.cc: the record that each host keeps in its own sector of the
-- paxos file, how a sector is read and judged, and how it is written.
use Prim.Native.Nat.{bit_and}
use polarfs.Prelude.Errno.{Errno}
use polarfs.Prelude.{ℕ, ◌+◌, ◌*◌, ◌%◌, ◌^◌, ◌≡◌, Bool, not, ◌&&◌, arith, ◌==◌, if◌then◌else◌}

-- The fields that the checksum covers; `unused` is `hr_unused`, its bytes read as one number.
pub record HostBody : Type 0 where
  pub magic : ℕ
  pub flags : ℕ
  pub host_id : ℕ
  pub generation : ℕ
  pub timestamp : ℕ
  pub mbal : ℕ
  pub bal : ℕ
  pub unused : ℕ

pub record HostRecord : Type 0 where
  pub body : HostBody
  pub open body use *
  pub checksum : ℕ

abbrev pub host_magic : ℕ
host_magic = 0xcafebabe

abbrev pub fl_rw : ℕ
fl_rw = 1

abbrev pub fl_prepare : ℕ
fl_prepare = 2

-- flags & mask
unfoldable pub has_flag : HostRecord → ℕ → Bool
has_flag hr mask = not (bit_and hr.flags mask == 0)

-- The memcmp of two records.
unfoldable pub same_bytes : HostRecord → HostRecord → Bool
same_bytes a b =
    a.magic == b.magic
    && (a.flags == b.flags
        && (a.host_id == b.host_id
            && (a.generation == b.generation
                && (a.timestamp == b.timestamp
                    && (a.mbal == b.mbal
                        && (a.bal == b.bal
                            && (a.unused == b.unused && a.checksum == b.checksum)))))))

abbrev pub zero_record : HostRecord
zero_record = record {
  body = record {
    magic = 0;
    flags = 0;
    host_id = 0;
    generation = 0;
    timestamp = 0;
    mbal = 0;
    bal = 0;
    unused = 0;
  };
  checksum = 0;
}

-- What a read of a host's sector gives: an error of the I/O, or the record's bytes.
pub data Sector : Type 0 where
  unreadable : Errno → Sector
  bytes : HostRecord → Sector

-- What `pfs_host_record_read` returns, with what it leaves in `*hr_ret`.
pub data Reading : Type 0 where
  failed : Errno → Reading
  empty : Reading
  bad_magic bad_checksum : HostRecord → Reading
  valid : HostRecord → Reading

-- `crc` is crc32c over the bytes before the checksum.
module _ (crc : HostBody → ℕ) where
  unfoldable pub judge : HostRecord → Reading
  unfolding same_bytes
  judge hr =
      if hr.magic == 0 && same_bytes hr zero_record
      then empty
      else if not (hr.magic == host_magic)
      then bad_magic hr
      else if not (hr.checksum == crc hr.body)
      then bad_checksum hr
      else valid hr

  unfoldable pub host_record_read : Sector → Reading
  unfolding judge
  host_record_read (unreadable e) = failed e
  host_record_read (bytes hr) = judge hr

  -- `hr.hr_checksum = host_record_checksum(&hr)`
  unfoldable pub sealed : HostBody → HostRecord
  sealed b = record { body = b; checksum = crc b }

-- What the lease uses of `pfs_mount_t`; the write time is the LEASE_CLOCK reading `issue`.
pub record Mount : Type 0 where
  pub num_hosts : ℕ
  pub host_id : ℕ
  pub generation : ℕ
  pub current_ballot : ℕ

unfoldable pub ballot_generate : Mount → ℕ
ballot_generate m = (m.generation * m.num_hosts + m.host_id) % 2 ^ 64

module _ (crc : HostBody → ℕ) where
  -- The record of Phase 1; `now` is CLOCK_REALTIME, in seconds.
  unfoldable pub prepare_record : Mount → ℕ → HostRecord
  unfolding sealed ballot_generate
  prepare_record m now = sealed crc (record {
    magic = host_magic;
    flags = fl_prepare;
    host_id = m.host_id;
    generation = m.generation % 2 ^ 32;
    timestamp = now;
    mbal = ballot_generate m;
    bal = 0;
    unused = 0;
  })

  -- The record of Phase 2, which a renewal writes again with a new timestamp.
  unfoldable pub acquire_record : Mount → ℕ → HostRecord
  unfolding sealed
  acquire_record m now = sealed crc (record {
    magic = host_magic;
    flags = fl_rw;
    host_id = m.host_id;
    generation = m.generation % 2 ^ 32;
    timestamp = now;
    mbal = m.current_ballot;
    bal = m.current_ballot;
    unused = 0;
  })

  -- What prepare writes is read back as a valid record, the same.
  pub read-prepare_record :
      (m : Mount) (now : ℕ)
      → host_record_read crc (bytes (prepare_record m now)) ≡ valid (prepare_record m now)
  unfolding prepare_record host_record_read
  read-prepare_record m now = ground arith

  -- What acquire writes is read back as a valid record, the same.
  pub read-acquire_record :
      (m : Mount) (now : ℕ)
      → host_record_read crc (bytes (acquire_record m now)) ≡ valid (acquire_record m now)
  unfolding acquire_record host_record_read
  read-acquire_record m now = ground arith
