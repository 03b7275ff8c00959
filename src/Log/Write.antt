-- ===== src/Log/Write.antt =====
-- src/pfs_core/pfs_log.cc, `pfs_log_write`: the write to the ring, which may take several writes to
-- the file; src/pfs_core/pfs_tx.cc, `pfs_tx_log`: a transaction's entries, buffer by buffer.
use polarfs.Prelude.{
  ℕ, zero, suc, ◌+◌, ◌-◌, List, [], ◌∷◌, ◌++◌, ltb, leb, ◌==◌, if◌then◌else◌, length, take, drop,
}
use polarfs.Prelude.Errno.{Errno}
use polarfs.Log.Ring.{off_modular_add, len_modular_cut}

-- What `pfs_file_pwrite` returns: how many bytes it wrote, or an error.
pub data Wrote : Type 0 where
  wrote : ℕ → Wrote
  refused : Errno → Wrote

-- What a write of the log comes to: how many bytes, an error, or a failed PFS_ASSERT. A loop that
-- makes no progress ends `out_of_fuel`.
pub data Logged : Type 0 where
  logged : ℕ → Logged
  failed : Errno → Logged
  assert_failed : Logged
  out_of_fuel : Logged

module _ {ℓ} {A : Type ℓ} where
  -- The file's bytes, with those of `xs` from offset `o` on.
  unfoldable pub overwrite : (ℕ → A) → ℕ → List A → ℕ → A
  overwrite f o [] p = f p
  overwrite f o (x ∷ xs) p = if p == o then x else overwrite f (o + 1) xs p

  -- `pwrite` says what the file makes of a write of so many bytes at an offset, with `n` rounds of
  -- the loop left.
  module _ (log_size : ℕ) (pwrite : ℕ → ℕ → ℕ → Wrote) where
    -- The loop of `pfs_log_write`: the file's bytes after, and the outcome.
    unfoldable pub write_loop : ℕ → (ℕ → A) → List A → ℕ → ℕ → (ℕ → A) × Logged
    unfolding overwrite
    write_loop n f [] offset buflen = (f, logged buflen)
    write_loop zero f (x ∷ xs) offset buflen = (f, out_of_fuel)
    write_loop (suc n) f (x ∷ xs) offset buflen =
        elim (pwrite n (len_modular_cut (length (x ∷ xs)) offset log_size) offset) [
          | refused e ↦ (f, failed e)
          | wrote k ↦
              write_loop n (overwrite f offset (take k (x ∷ xs))) (drop k (x ∷ xs))
                (off_modular_add offset k log_size) buflen
        ]

    -- `space` is what `pfs_log_space` gives.
    unfoldable pub log_write : ℕ → (ℕ → A) → List A → ℕ → (ℕ → A) × Logged
    unfolding write_loop
    log_write space f buf offset =
        if ltb (length buf) space
        then write_loop (length buf) f buf (off_modular_add offset 0 log_size) (length buf)
        else (f, assert_failed)

    -- The TAILQ_FOREACH of `pfs_tx_log`, over the entries' bytes. `buf` holds the bytes to be
    -- written at `offset`; `start` is the head's offset.
    unfoldable pub tx_log_loop : ℕ → ℕ → (ℕ → A) → List (List A) → List A → ℕ → ℕ → (ℕ → A) × Logged
    unfolding log_write
    tx_log_loop space buflen f [] [] offset start = (f, logged (offset - start))
    tx_log_loop space buflen f [] (b ∷ buf) offset start =
        let (f', r) = log_write space f (b ∷ buf) offset in
        elim r [
          | logged rv ↦ (f', logged (offset + rv - start))
          | failed e ↦ (f', failed e)
          | assert_failed ↦ (f', assert_failed)
          | out_of_fuel ↦ (f', out_of_fuel)
        ]
    tx_log_loop space buflen f (e ∷ es) buf offset start =
        let (f', r) = log_write space f (buf ++ e) offset in
        let later = tx_log_loop space buflen f es (buf ++ e) offset start in
        if leb buflen (length (buf ++ e))
        then if length (buf ++ e) == buflen
          then (elim r [
            | logged rv ↦ tx_log_loop space buflen f' es [] (offset + rv) start
            | failed err ↦ (f', failed err)
            | assert_failed ↦ (f', assert_failed)
            | out_of_fuel ↦ (f', out_of_fuel)
          ])
          else (f, assert_failed)
        else later

    unfoldable pub tx_log : ℕ → ℕ → (ℕ → A) → List (List A) → ℕ → (ℕ → A) × Logged
    unfolding tx_log_loop
    tx_log space buflen f [] head_offset = (f, assert_failed)
    tx_log space buflen f (e ∷ es) head_offset =
        tx_log_loop space buflen f (e ∷ es) [] head_offset head_offset
