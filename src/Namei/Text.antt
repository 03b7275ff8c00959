-- ===== src/Namei/Text.antt =====
-- Strings in a buffer.
use polarfs.Namei.{Buffer, max_pathlen, put, put_string, strlen_from, last_slash, strrchr}
use native.Mathlib.Decide.{ℕ_discrete}
use native.Mathlib.Nat.{add-zero}
use polarfs.Prelude.{
  eq→==, ℕ, zero, suc, ◌+◌, ◌≤◌, ◌<◌, false, some, List, [], ◌∷◌, ◌++◌, ◌≡◌, ◌≢◌, ◌⊎◌, length, ◌==◌,
  arith, ap, sym, ◌∙◌, length-append,
}

pub ne→== : (a b : ℕ) → a ≢ b → (a == b) ≡ false
ne→== a b h = ground arith

-- The buffer has these bytes from index `i` on.
abbrev pub Holds : Buffer → ℕ → List ℕ → Type 0
Holds b i [] = Unit
Holds b i (c ∷ s) = (b i ≡ c) × Holds b (suc i) s

-- No byte of the string has the value.
abbrev pub Lacks : ℕ → List ℕ → Type 0
Lacks c [] = Unit
Lacks c (x ∷ s) = (x ≢ c) × Lacks c s

pub put_here : (i c : ℕ) (b : Buffer) → put i c b i ≡ c
unfolding put
put_here i c b = ground arith

pub put_there : (i c j : ℕ) (b : Buffer) → i ≢ j → put i c b j ≡ b j
unfolding put
put_there i c j b n = ground arith

pub Holds-put :
    (b : Buffer) (i j c : ℕ) (s : List ℕ)
    → (j < i ⊎ i + length s ≤ j)
    → Holds b i s
    → Holds (put j c b) i s
Holds-put b i j c [] h k = tt
Holds-put b i j c (x ∷ s) h k =
    (put_there j c i b (omega arith) ∙ k.0, Holds-put b (suc i) j c s (omega arith) k.1)

-- A string that is written stands there with its NUL, and nothing before it changes.
pub put_string-before : (i j : ℕ) (s : List ℕ) (b : Buffer) → j < i → put_string i s b j ≡ b j
unfolding put_string
put_string-before i j [] b h = put_there i 0 j b (omega arith)
put_string-before i j (c ∷ s) b h =
    put_there i c j _ (omega arith) ∙ put_string-before (suc i) j s b (omega arith)

pub put_string-after :
    (i j : ℕ) (s : List ℕ) (b : Buffer) → i + length s < j → put_string i s b j ≡ b j
unfolding put_string
put_string-after i j [] b h = put_there i 0 j b (omega arith)
put_string-after i j (c ∷ s) b h =
    put_there i c j _ (omega arith) ∙ put_string-after (suc i) j s b (omega arith)

pub put_string-end : (i : ℕ) (s : List ℕ) (b : Buffer) → put_string i s b (i + length s) ≡ 0
unfolding put_string
put_string-end i [] b = rw add-zero (put_here i 0 b)
put_string-end i (c ∷ s) b =
    put_there i c _ _ (omega arith)
    ∙ ap (put_string (suc i) s b) (omega arith)
    ∙ put_string-end (suc i) s b

pub put_string-Holds : (i : ℕ) (s : List ℕ) (b : Buffer) → Holds (put_string i s b) i s
unfolding put_string
put_string-Holds i [] b = tt
put_string-Holds i (c ∷ s) b = (
  put_here i c _,
  Holds-put (put_string (suc i) s b) (suc i) i c s (omega arith) (put_string-Holds (suc i) s b),
)

-- A string stays where the buffer does not change.
pub Holds-agree :
    (b b' : Buffer) (i : ℕ) (s : List ℕ)
    → ((j : ℕ) → j < i + length s → b' j ≡ b j)
    → Holds b i s
    → Holds b' i s
Holds-agree b b' i [] h k = tt
Holds-agree b b' i (c ∷ s) h k =
    (h i (omega arith) ∙ k.0, Holds-agree b b' (suc i) s (λ j x. h j (omega arith)) k.1)

pub Holds-append :
    (b : Buffer) (i : ℕ) (s t : List ℕ)
    → Holds b i s
    → Holds b (i + length s) t
    → Holds b i (s ++ t)
Holds-append b i [] t h k = rw add-zero at k
Holds-append b i (c ∷ s) t h k =
    (h.0, Holds-append b (suc i) s t h.1 (rw (suc_shift i (length s)) at k))
  where
    suc_shift : (i n : ℕ) → i + suc n ≡ suc i + n
    suc_shift i n = omega arith

-- Two buffers that hold a string agree on it.
pub Holds-same :
    (b b' : Buffer) (i j : ℕ) (s : List ℕ)
    → Holds b i s
    → Holds b' i s
    → i ≤ j
    → j < i + length s
    → b j ≡ b' j
Holds-same b b' i j [] h h' le lt = absurd (omega arith)
Holds-same b b' i j (c ∷ s) h h' le lt = elim (ℕ_discrete i j) [
  | yes p ↦ ap b (sym p) ∙ h.0 ∙ sym h'.0 ∙ ap b' p
  | no p ↦ Holds-same b b' (suc i) j s h.1 h'.1 (omega arith) (omega arith)
]

pub Holds-split :
    (b : Buffer) (i : ℕ) (s t : List ℕ)
    → Holds b i (s ++ t)
    → Holds b i s × Holds b (i + length s) t
Holds-split b i [] t h = (tt, rw add-zero h)
Holds-split b i (c ∷ s) t h =
    let r = Holds-split b (suc i) s t h.1 in ((h.0, r.0), rw (suc_shift i (length s)) r.1)
  where
    suc_shift : (i n : ℕ) → i + suc n ≡ suc i + n
    suc_shift i n = omega arith

pub Lacks-append : (c : ℕ) (s t : List ℕ) → Lacks c s → Lacks c t → Lacks c (s ++ t)
Lacks-append c [] t h k = k
Lacks-append c (x ∷ s) t h k = (h.0, Lacks-append c s t h.1 k)

-- A byte of a string in the buffer is none that the string lacks.
Holds-Lacks :
    (b : Buffer) (i j c : ℕ) (s : List ℕ)
    → Holds b i s
    → Lacks c s
    → i ≤ j
    → j < i + length s
    → b j ≢ c
Holds-Lacks b i j c [] h l le lt = absurd (omega arith)
Holds-Lacks b i j c (x ∷ s) h l le lt = elim (ℕ_discrete i j) [
  | yes p ↦ λ e. l.0 (sym h.0 ∙ ap b p ∙ e)
  | no p ↦ Holds-Lacks b (suc i) j c s h.1 l.1 (omega arith) (omega arith)
]

strlen_first :
    (n i k : ℕ) (b : Buffer)
    → i ≤ k
    → k < i + n
    → b k ≡ 0
    → ((j : ℕ) → i ≤ j → j < k → b j ≢ 0)
    → strlen_from n i b ≡ k
unfolding strlen_from
strlen_first zero i k b le lt e before = absurd (omega arith)
strlen_first (suc n) i k b le lt e before = elim (ℕ_discrete i k) [
  | yes p ↦ rw (eq→== (b i) 0 (ap b p ∙ e), p)
  | no p ↦
      rw (ne→== (b i) 0 (before i (omega arith) (omega arith)))
        (strlen_first n (suc i) k b (omega arith) (omega arith) e λ j x y. before j (omega arith) y)
]

last_slash_only :
    (n i : ℕ) (b : Buffer)
    → i < n
    → b i ≡ b'/'
    → ((j : ℕ) → i < j → j < n → b j ≢ b'/')
    → last_slash n b ≡ some i
unfolding last_slash
last_slash_only zero i b lt e after = absurd (omega arith)
last_slash_only (suc n) i b lt e after = elim (ℕ_discrete i n) [
  | yes p ↦ rw (eq→== (b n) b'/' (ap b (sym p) ∙ e)) (ap some (sym p))
  | no p ↦
      rw (ne→== (b n) b'/' (after n (omega arith) (omega arith)))
        (last_slash_only n i b (omega arith) e λ j x y. after j x (omega arith))
]

-- strrchr in a buffer that holds a path whose last component has no '/'.
pub strrchr-Holds :
    (b : Buffer) (s t : List ℕ)
    → Holds b 0 (s ++ b'/' ∷ t)
    → b (length (s ++ b'/' ∷ t)) ≡ 0
    → length (s ++ b'/' ∷ t) < max_pathlen
    → Lacks 0 (s ++ b'/' ∷ t)
    → Lacks b'/' t
    → strrchr b ≡ some (length s)
unfolding strrchr
strrchr-Holds b s t h e lt l l' =
    let r = Holds-split b 0 s (b'/' ∷ t) h in
    let n = length-append s (b'/' ∷ t) in
    ap (λ k. last_slash k b)
      (strlen_first max_pathlen 0 (length (s ++ b'/' ∷ t)) b (omega arith) (omega arith) e
        λ j x y. Holds-Lacks b 0 j 0 (s ++ b'/' ∷ t) h l x (omega arith))
    ∙ last_slash_only (length (s ++ b'/' ∷ t)) (length s) b (omega (arith, n))
        (ap b (omega arith) ∙ r.1.0)
        λ j x y.
          Holds-Lacks b (suc (0 + length s)) j b'/' t r.1.1 l' (omega arith) (omega (arith, n))
