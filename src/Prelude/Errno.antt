-- ===== src/Prelude/Errno.antt =====
-- The error codes that the modelled functions return.
use polarfs.Prelude.{ℕ}

-- What an I/O of the device or a failed operation reports, the source's negative codes.
pub data Errno : Type 0 where
  ebusy eio einval e2big eagain enomem etimedout enospc : Errno
  aio_timeout : Errno
  other : ℕ → Errno

-- A result that the source codes as 0 or as a negative number.
pub data Status : Type 0 where
  done : Status
  fail : Errno → Status
