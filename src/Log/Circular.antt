-- ===== src/Log/Circular.antt =====
-- `pfs_log_write` as one write to the ring, and what a failed write leaves alone.
use native.Mathlib.Decide.{dec_lt}
use polarfs.Prelude.{
  ℕ, zero, suc, ◌*◌, ◌≤◌, ◌<◌, ◌≡◌, ◌⊎◌, inl, inr, refl, ap, ◌∙◌, List, [], ◌∷◌, arith, length,
  take, drop, length-take, length-drop,
}
use polarfs.Prelude.Errno.{Errno}
use polarfs.Log.Ring.{off_modular_add, len_modular_cut}
use polarfs.Log.Write.{
  Wrote, wrote, refused, logged, assert_failed, overwrite, write_loop, log_write,
}
use polarfs.Log.Wrap.{ahead, ringed, Works, get_or-ge, overwrite-ringed, write_loop-ringed}

Wrote-cases : (w : Wrote) → ((e : Errno) × (w ≡ refused e)) ⊎ ((k : ℕ) × (w ≡ wrote k))
Wrote-cases (refused e) = inl (e, refl)
Wrote-cases (wrote k) = inr (k, refl)

module _ {ℓ} {A : Type ℓ} where
  log_write-runs :
      (size : ℕ) (pwrite : ℕ → ℕ → ℕ → Wrote) (space : ℕ) (f : ℕ → A) (buf : List A) (offset : ℕ)
      → length buf < space
      → log_write size pwrite space f buf offset
        ≡ write_loop size pwrite (length buf) f buf (off_modular_add offset 0 size) (length buf)
  unfolding log_write
  log_write-runs size pwrite space f buf offset h = ground arith

  -- If each write to the file makes progress, `pfs_log_write` of fewer bytes than are free returns
  -- their number; it leaves them in the ring from the offset on (which may lie past the end by less
  -- than the ring's size), wrapped around at its end, and every other byte as it was.
  pub log_write-ringed :
      (size : ℕ) (pwrite : ℕ → ℕ → ℕ → Wrote) (space : ℕ) (f : ℕ → A) (buf : List A) (offset : ℕ)
      → Works pwrite
      → offset < 2 * size
      → space ≤ size
      → length buf < space
      → ((log_write size pwrite space f buf offset).1 ≡ logged (length buf))
        × ((p : ℕ)
            → p < size
            → (log_write size pwrite space f buf offset).0 p
              ≡ ringed size f (off_modular_add offset 0 size) buf p)
  log_write-ringed size pwrite space f buf offset works at le fits =
      rw (log_write-runs size pwrite space f buf offset fits) (
        write_loop-ringed size pwrite (length buf) f buf (off_modular_add offset 0 size)
          (length buf) works (ground arith) (omega arith) (omega arith))

  -- What lies past the bytes that are written.
  write_loop-keeps :
      (size : ℕ) (pwrite : ℕ → ℕ → ℕ → Wrote) (n : ℕ) (f : ℕ → A) (xs : List A) (o total p : ℕ)
      → ((n w o k : ℕ) → pwrite n w o ≡ wrote k → k ≤ w)
      → o < size
      → p < size
      → length xs ≤ ahead size o p
      → (write_loop size pwrite n f xs o total).0 p ≡ f p
  unfolding write_loop
  write_loop-keeps size pwrite zero f [] o total p bound o_in p_in h = refl
  write_loop-keeps size pwrite (suc n) f [] o total p bound o_in p_in h = refl
  write_loop-keeps size pwrite zero f (x ∷ xs) o total p bound o_in p_in h = refl
  write_loop-keeps size pwrite (suc n) f (x ∷ xs) o total p bound o_in p_in h =
      elim (Wrote-cases (pwrite n (len_modular_cut (length (x ∷ xs)) o size) o)) [
        | inl (e, r) ↦ rw (r, write_loop) refl
        | inr (k, r) ↦
            rw (r, write_loop)
              (write_loop-keeps size pwrite n (overwrite f o (take k (x ∷ xs))) (drop k (x ∷ xs))
                  (off_modular_add o k size) total p bound
                  (ground (arith, bound n (len_modular_cut (length (x ∷ xs)) o size) o k r)) p_in
                  (beyond k (bound n (len_modular_cut (length (x ∷ xs)) o size) o k r))
                ∙ same k (bound n (len_modular_cut (length (x ∷ xs)) o size) o k r))
      ]
    where
      beyond :
          (k : ℕ)
          → k ≤ len_modular_cut (length (x ∷ xs)) o size
          → length (drop k (x ∷ xs)) ≤ ahead size (off_modular_add o k size) p
      beyond k le = ground (arith, length-drop k (x ∷ xs))

      same :
          (k : ℕ)
          → k ≤ len_modular_cut (length (x ∷ xs)) o size
          → overwrite f o (take k (x ∷ xs)) p ≡ f p
      same k le =
          overwrite-ringed size f o (take k (x ∷ xs)) p (ground (arith, length-take k (x ∷ xs)))
          ∙ get_or-ge (take k (x ∷ xs)) (ahead size o p) (f p)
              (omega (arith, length-take k (x ∷ xs)))

  -- Whether it succeeds, fails half-way or runs into its assertion, `pfs_log_write` changes no byte
  -- of the ring but those that it was to write; the file takes no more than it is given.
  pub log_write-keeps :
      (size : ℕ) (pwrite : ℕ → ℕ → ℕ → Wrote) (space : ℕ) (f : ℕ → A) (buf : List A) (offset p : ℕ)
      → ((n w o k : ℕ) → pwrite n w o ≡ wrote k → k ≤ w)
      → offset < 2 * size
      → p < size
      → length buf ≤ ahead size (off_modular_add offset 0 size) p
      → (log_write size pwrite space f buf offset).0 p ≡ f p
  unfolding log_write
  log_write-keeps size pwrite space f buf offset p bound at p_in h =
      elim (dec_lt (length buf) space) [
        | yes lt ↦ rw (log_write-runs size pwrite space f buf offset lt) (
            write_loop-keeps size pwrite (length buf) f buf (off_modular_add offset 0 size)
              (length buf) p bound (ground arith) p_in h)
        | no ge ↦ ap (λ r. r.0 p) (stopped ge)
      ]
    where
      stopped :
          ¬ (length buf < space) → log_write size pwrite space f buf offset ≡ (f, assert_failed)
      stopped ge = ground arith
