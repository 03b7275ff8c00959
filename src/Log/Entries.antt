-- ===== src/Log/Entries.antt =====
-- A transaction's entries in the ring, written buffer by buffer.
use polarfs.Prelude.{
  ℕ, ◌+◌, ◌-◌, ◌*◌, ◌≤◌, ◌<◌, ◌≡◌, refl, sym, ap, ◌∙◌, List, [], ◌∷◌, ◌++◌, arith, length,
  length-append,
}
use native.Mathlib.Decide.{dec_lt}
use mathlib.Core.List.{append-nil, append_assoc}
use polarfs.Log.Ring.{off_modular_add, entry_size}
use polarfs.Log.Write.{Wrote, Logged, logged, log_write, tx_log_loop, tx_log}
use polarfs.Log.Wrap.{ringed, Works, ringed-append}
use polarfs.Log.Circular.{log_write-ringed}

module _ {ℓ} {A : Type ℓ} where
  -- The bytes of all entries, in order.
  abbrev pub joined : List (List A) → List A
  joined [] = []
  joined (e ∷ es) = e ++ joined es

  -- Each is one log entry.
  abbrev pub AreEntries : List (List A) → Type 0
  AreEntries [] = Unit {0}
  AreEntries (e ∷ es) = (length e ≡ entry_size) × AreEntries es

  module _ (size : ℕ) (pwrite : ℕ → ℕ → ℕ → Wrote) (space buflen : ℕ) where
    loop-gather :
        (f : ℕ → A) (e : List A) (es : List (List A)) (buf : List A) (offset start : ℕ)
        → length (buf ++ e) < buflen
        → tx_log_loop size pwrite space buflen f (e ∷ es) buf offset start
          ≡ tx_log_loop size pwrite space buflen f es (buf ++ e) offset start
    unfolding tx_log_loop
    loop-gather f e es buf offset start h = ground arith

    loop-flush :
        (f : ℕ → A) (e : List A) (es : List (List A)) (buf : List A) (offset start n : ℕ)
        → length (buf ++ e) ≡ buflen
        → (log_write size pwrite space f (buf ++ e) offset).1 ≡ logged n
        → tx_log_loop size pwrite space buflen f (e ∷ es) buf offset start
          ≡ tx_log_loop size pwrite space buflen
              (log_write size pwrite space f (buf ++ e) offset).0
              es
              []
              (offset + n)
              start
    unfolding tx_log_loop
    loop-flush f e es buf offset start n h r = ground arith

    loop-last :
        (f : ℕ → A) (b : A) (buf : List A) (offset start n : ℕ)
        → (log_write size pwrite space f (b ∷ buf) offset).1 ≡ logged n
        → tx_log_loop size pwrite space buflen f [] (b ∷ buf) offset start
          ≡ ((log_write size pwrite space f (b ∷ buf) offset).0, logged (offset + n - start))
    unfolding tx_log_loop
    loop-last f b buf offset start n r = rw (r, tx_log_loop) refl

    loop-none :
        (f : ℕ → A) (offset start : ℕ)
        → tx_log_loop size pwrite space buflen f [] [] offset start ≡ (f, logged (offset - start))
    unfolding tx_log_loop
    loop-none f offset start = refl

    -- What the loop has left in the ring, and returned.
    abbrev Left : (ℕ → A) → List A → ℕ → ℕ → (ℕ → A) × Logged → Type ℓ
    Left f bytes offset start r =
        (r.1 ≡ logged (offset + length bytes - start))
        × ((p : ℕ) → p < size → r.0 p ≡ ringed size f (off_modular_add offset 0 size) bytes p)

    same_bytes-Left :
        (f : ℕ → A) (xs ys : List A) (offset start : ℕ) (r : (ℕ → A) × Logged)
        → xs ≡ ys
        → Left f xs offset start r
        → Left f ys offset start r
    same_bytes-Left f xs ys offset start r e l = rw (← e) l

    module _ (works : Works pwrite) (within : space ≤ size) (c : ℕ) (whole : buflen ≡ c * 256) where
      loop-ringed :
          (f : ℕ → A) (es : List (List A)) (buf : List A) (a offset start : ℕ)
          → AreEntries es
          → length buf ≡ a * 256
          → a < c
          → length buf + length (joined es) < space
          → offset + length buf + length (joined es) < 2 * size
          → Left f
              (buf ++ joined es)
              offset
              start
              (tx_log_loop size pwrite space buflen f es buf offset start)
      loop-ringed f [] [] a offset start all e less fits at =
          rw (loop-none f offset start) (ap (λ n. logged (n - start)) (omega arith), λ p h. refl)
      loop-ringed f [] (b ∷ buf) a offset start all e less fits at =
          let (n, bytes) =
            log_write-ringed size pwrite space f (b ∷ buf) offset works (omega arith) within
              (omega arith) in
          same_bytes-Left f (b ∷ buf) ((b ∷ buf) ++ []) offset start
            (tx_log_loop size pwrite space buflen f [] (b ∷ buf) offset start)
            (sym (append-nil (b ∷ buf)))
            (rw (loop-last f b buf offset start (length (b ∷ buf)) n) (refl, bytes))
      loop-ringed f (e ∷ es) buf a offset start all l less fits at =
          elim (dec_lt (length (buf ++ e)) buflen) [
            | yes lt ↦ rw (loop-gather f e es buf offset start lt) (
                same_bytes-Left f ((buf ++ e) ++ joined es) (buf ++ (e ++ joined es)) offset start
                  (tx_log_loop size pwrite space buflen f es (buf ++ e) offset start)
                  (append_assoc buf e (joined es))
                  (loop-ringed f es (buf ++ e) (a + 1) offset start all.1 (omega (arith, len))
                    (omega (arith, len)) (omega (arith, len, tail)) (omega (arith, len, tail))))
            | no ge ↦
                let (n, bytes) =
                  log_write-ringed size pwrite space f (buf ++ e) offset works (omega (arith, tail))
                    within (omega (arith, len, tail)) in
                rw (loop-flush f e es buf offset start (length (buf ++ e)) (omega (arith, len)) n) (
                  flushed (log_write size pwrite space f (buf ++ e) offset).0 bytes
                    (tx_log_loop size pwrite space buflen
                      (log_write size pwrite space f (buf ++ e) offset).0 es []
                      (offset + length (buf ++ e)) start)
                    (loop-ringed (log_write size pwrite space f (buf ++ e) offset).0 es [] 0
                      (offset + length (buf ++ e)) start all.1 refl (omega arith)
                      (omega (arith, len, tail)) (omega (arith, len, tail))))
          ]
        where
          len : length (buf ++ e) ≡ a * 256 + 256
          len = omega (arith, length-append buf e, all.0)

          tail : length (e ++ joined es) ≡ 256 + length (joined es)
          tail = omega (arith, length-append e (joined es), all.0)

          flushed :
              (g : ℕ → A)
              → ((p : ℕ)
                  → p < size
                  → g p ≡ ringed size f (off_modular_add offset 0 size) (buf ++ e) p)
              → (r : (ℕ → A) × Logged) → Left g (joined es) (offset + length (buf ++ e)) start r
              → Left f (buf ++ (e ++ joined es)) offset start r
          flushed g bytes r left =
              same_bytes-Left f ((buf ++ e) ++ joined es) (buf ++ (e ++ joined es)) offset start r
                (append_assoc buf e (joined es))
                (
                  left.0
                      ∙ ap (λ n. logged (n - start))
                          (omega (arith, length-append (buf ++ e) (joined es))),
                  λ p h.
                      left.1 p h
                      ∙ ap (λ o. ringed size g o (joined es) p) moved
                      ∙ ringed-append size f g (off_modular_add offset 0 size) (buf ++ e)
                          (joined es) p (ground arith) h (omega (arith, len, tail)) (bytes p h),
                )
            where
              moved :
                  off_modular_add (offset + length (buf ++ e)) 0 size
                  ≡ off_modular_add (off_modular_add offset 0 size) (length (buf ++ e)) size
              moved = ground (arith, len, tail)

-- If each write to the file makes progress, `pfs_tx_log` of a transaction whose entries are fewer
-- bytes than are free returns the number of those bytes; it leaves the entries in order in the ring
-- from the head on, wrapped around at its end, and every other byte as it was. (The buffer holds
-- `c` whole entries, and at least one.)
pub tx_log-ringed {ℓ} :
    {A : Type ℓ} (size : ℕ) (pwrite : ℕ → ℕ → ℕ → Wrote) (space c : ℕ) (f : ℕ → A) (e : List A)
    (es : List (List A)) (head : ℕ)
    → Works pwrite
    → space ≤ size
    → 0 < c
    → AreEntries (e ∷ es)
    → length (joined (e ∷ es)) < space
    → head < size
    → ((tx_log size pwrite space (c * entry_size) f (e ∷ es) head).1
        ≡ logged (length (joined (e ∷ es))))
      × ((p : ℕ)
          → p < size
          → (tx_log size pwrite space (c * entry_size) f (e ∷ es) head).0 p
            ≡ ringed size f head (joined (e ∷ es)) p)
unfolding tx_log
tx_log-ringed size pwrite space c f e es head works le pos all fits at =
    let (n, bytes) =
      loop-ringed size pwrite space (c * entry_size) works le c refl f (e ∷ es) [] 0 head head all
        refl pos (omega arith) (omega arith) in
    (
      n ∙ ap logged (omega arith),
      λ p h. bytes p h ∙ ap (λ o. ringed size f o (joined (e ∷ es)) p) (ground arith),
    )
