-- ===== src/Log/Wrap.antt =====
-- What `pfs_log_write` leaves in the ring.
use native.Mathlib.Decide.{dec_lt}
use polarfs.Prelude.{
  ℕ, zero, suc, ◌+◌, ◌-◌, ◌≤◌, ◌<◌, ◌≡◌, refl, sym, ap, ◌∙◌, List, [], ◌∷◌, ◌++◌, arith, leb,
  if◌then◌else◌, length, get_or, take, drop, take-append-drop, length-take, length-drop,
}
use polarfs.Log.Ring.{off_modular_add, len_modular_cut}
use polarfs.Log.Write.{Wrote, wrote, logged, overwrite, write_loop}

-- The file takes at least one byte of each write, and no more than it is given.
abbrev pub Works : (ℕ → ℕ → ℕ → Wrote) → Type 0
Works pwrite = (n w o : ℕ) → 0 < w → (k : ℕ) × (pwrite n w o ≡ wrote k) × (1 ≤ k) × (k ≤ w)

module _ {ℓ} {A : Type ℓ} where
  get_or-append_lt :
      (xs ys : List A) (d : ℕ) (a : A) → d < length xs → get_or (xs ++ ys) d a ≡ get_or xs d a
  get_or-append_lt [] ys d a h = absurd (omega arith)
  get_or-append_lt (x ∷ xs) ys zero a h = refl
  get_or-append_lt (x ∷ xs) ys (suc d) a h = get_or-append_lt xs ys d a (omega arith)

  get_or-append_ge :
      (xs ys : List A) (d : ℕ) (a : A)
      → length xs ≤ d
      → get_or (xs ++ ys) d a ≡ get_or ys (d - length xs) a
  get_or-append_ge [] ys d a h = ap (λ k. get_or ys k a) (omega arith)
  get_or-append_ge (x ∷ xs) ys zero a h = absurd (omega arith)
  get_or-append_ge (x ∷ xs) ys (suc d) a h =
      get_or-append_ge xs ys d a (omega arith) ∙ ap (λ k. get_or ys k a) (omega arith)

  pub get_or-ge : (xs : List A) (d : ℕ) (a : A) → length xs ≤ d → get_or xs d a ≡ a
  get_or-ge [] d a h = refl
  get_or-ge (x ∷ xs) zero a h = absurd (omega arith)
  get_or-ge (x ∷ xs) (suc d) a h = get_or-ge xs d a (omega arith)

-- How far the offset `p` lies ahead of `o` in the ring.
abbrev pub ahead : ℕ → ℕ → ℕ → ℕ
ahead size o p = if leb o p then p - o else p + size - o

-- The ring with the bytes `xs` from `o` on: a byte that they do not reach is as before.
abbrev pub ringed {ℓ} : {A : Type ℓ} → ℕ → (ℕ → A) → ℕ → List A → ℕ → A
ringed size f o xs p = get_or xs (ahead size o p) (f p)

module _ {ℓ} {A : Type ℓ} where
  overwrite-lt : (f : ℕ → A) (o : ℕ) (xs : List A) (p : ℕ) → p < o → overwrite f o xs p ≡ f p
  unfolding overwrite
  overwrite-lt f o [] p h = refl
  overwrite-lt f o (x ∷ xs) p h = ground (arith, overwrite-lt f (o + 1) xs p)

  overwrite-ge :
      (f : ℕ → A) (o : ℕ) (xs : List A) (p d : ℕ)
      → p ≡ o + d
      → overwrite f o xs p ≡ get_or xs d (f p)
  unfolding overwrite
  overwrite-ge f o [] p d h = refl
  overwrite-ge f o (x ∷ xs) p zero h = ground arith
  overwrite-ge f o (x ∷ xs) p (suc d) h = ground (arith, overwrite-ge f (o + 1) xs p d)

  -- A write that does not reach past the end.
  pub overwrite-ringed :
      (size : ℕ) (f : ℕ → A) (o : ℕ) (xs : List A) (p : ℕ)
      → o + length xs ≤ size
      → overwrite f o xs p ≡ ringed size f o xs p
  overwrite-ringed size f o xs p h = elim (dec_lt p o) [
    | yes lt ↦ overwrite-lt f o xs p lt ∙ sym (ground (arith, get_or-ge xs (p + size - o) (f p)))
    | no ge ↦ overwrite-ge f o xs p (p - o) (omega arith) ∙ sym (ground arith)
  ]

  -- Two writes one behind the other are one.
  pub ringed-append :
      (size : ℕ) (f g : ℕ → A) (o : ℕ) (xs ys : List A) (p : ℕ)
      → o < size
      → p < size
      → length xs + length ys ≤ size
      → g p ≡ ringed size f o xs p
      → ringed size g (off_modular_add o (length xs) size) ys p ≡ ringed size f o (xs ++ ys) p
  ringed-append size f g o xs ys p o_in p_in h e = elim (dec_lt (ahead size o p) (length xs)) [
    | yes near ↦
        get_or-ge ys (ahead size (off_modular_add o (length xs) size) p) (g p) (ground arith)
        ∙ e
        ∙ sym (get_or-append_lt xs ys (ahead size o p) (f p) near)
    | no far ↦
        ap (λ d. get_or ys d (g p)) (shorter (omega arith))
        ∙ ap (get_or ys (ahead size o p - length xs))
            (e ∙ get_or-ge xs (ahead size o p) (f p) (omega arith))
        ∙ sym (get_or-append_ge xs ys (ahead size o p) (f p) (omega arith))
  ]
    where
      shorter :
          length xs ≤ ahead size o p
          → ahead size (off_modular_add o (length xs) size) p ≡ ahead size o p - length xs
      shorter le = ground arith

  -- A write of the first `k` bytes, and then of the rest.
  chunk-ringed :
      (size : ℕ) (f : ℕ → A) (xs : List A) (o k p : ℕ)
      → k ≤ length xs
      → o + k ≤ size
      → o < size
      → length xs ≤ size
      → p < size
      → ringed size (overwrite f o (take k xs)) (off_modular_add o k size) (drop k xs) p
        ≡ ringed size f o xs p
  chunk-ringed size f xs o k p le room o_in fits p_in =
      ap (λ m. ringed size (overwrite f o (take k xs)) (off_modular_add o m size) (drop k xs) p)
        (sym taken)
      ∙ ringed-append size f (overwrite f o (take k xs)) o (take k xs) (drop k xs) p o_in p_in
          (omega (arith, taken, length-drop k xs))
          (overwrite-ringed size f o (take k xs) p (omega (arith, taken)))
      ∙ ap (λ ys. ringed size f o ys p) (take-append-drop k xs)
    where
      taken : length (take k xs) ≡ k
      taken = omega (arith, length-take k xs)

  write_loop-wrote :
      (size : ℕ) (pwrite : ℕ → ℕ → ℕ → Wrote) (n : ℕ) (f : ℕ → A) (x : A) (xs : List A)
      (o total k : ℕ)
      → pwrite n (len_modular_cut (length (x ∷ xs)) o size) o ≡ wrote k
      → write_loop size pwrite (suc n) f (x ∷ xs) o total
        ≡ write_loop size pwrite n
            (overwrite f o (take k (x ∷ xs)))
            (drop k (x ∷ xs))
            (off_modular_add o k size)
            total
  unfolding write_loop
  write_loop-wrote size pwrite n f x xs o total k e = rw (e, write_loop) refl

  write_loop_nil :
      (size : ℕ) (pwrite : ℕ → ℕ → ℕ → Wrote) (n : ℕ) (f : ℕ → A) (o total : ℕ)
      → write_loop size pwrite n f [] o total ≡ (f, logged total)
  unfolding write_loop
  write_loop_nil size pwrite zero f o total = refl
  write_loop_nil size pwrite (suc n) f o total = refl

  -- The bytes are in the ring, and the loop ends by itself.
  pub write_loop-ringed :
      (size : ℕ) (pwrite : ℕ → ℕ → ℕ → Wrote) (n : ℕ) (f : ℕ → A) (xs : List A) (o total : ℕ)
      → Works pwrite
      → o < size
      → length xs ≤ size
      → length xs ≤ n
      → ((write_loop size pwrite n f xs o total).1 ≡ logged total)
        × ((p : ℕ) → p < size → (write_loop size pwrite n f xs o total).0 p ≡ ringed size f o xs p)
  write_loop-ringed size pwrite n f [] o total works o_in fits fuel =
      rw (write_loop_nil size pwrite n f o total) (refl, λ p h. refl)
  write_loop-ringed size pwrite zero f (x ∷ xs) o total works o_in fits fuel = absurd (omega arith)
  write_loop-ringed size pwrite (suc n) f (x ∷ xs) o total works o_in fits fuel =
      let w = len_modular_cut (length (x ∷ xs)) o size in
      let (k, e, some_byte, within) = works n w o (ground arith) in
      let (all, bytes) =
        write_loop-ringed size pwrite n (overwrite f o (take k (x ∷ xs))) (drop k (x ∷ xs))
          (off_modular_add o k size) total works (ground arith)
          (omega (arith, length-drop k (x ∷ xs))) (omega (arith, length-drop k (x ∷ xs))) in
      rw (write_loop-wrote size pwrite n f x xs o total k e) (
        all,
        λ p h.
            bytes p h
            ∙ chunk-ringed size f (x ∷ xs) o k p (ground arith) (ground arith) o_in fits h,
      )
