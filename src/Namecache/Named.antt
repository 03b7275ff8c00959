-- ===== src/Namecache/Named.antt =====
-- The names that pfs_namecache.cc takes.
use native.Mathlib.Decide.{ℕ_discrete}
use polarfs.Namecache.Calls.{is_skipped, is_dot}
use polarfs.Prelude.{ℕ, true, false, List, [], ◌∷◌, ◌≡◌, ◌≢◌, refl, ap, ◌∙◌, arith}

pub is_skipped-is_dot : (name : List ℕ) → is_skipped name ≡ false → is_dot name ≡ false
unfolding is_skipped
is_skipped-is_dot [] h = refl
is_skipped-is_dot (c ∷ []) h = h
is_skipped-is_dot (c ∷ d ∷ l) h = refl

-- A name that the cache takes: neither empty nor "." nor "..".
abbrev pub IsCached : List ℕ → Type 0
IsCached name = (name ≢ []) × (name ≢ b'.' ∷ []) × (name ≢ b'.' ∷ b'.' ∷ [])

skipped_ne : (n m : List ℕ) → is_skipped n ≡ false → is_skipped m ≡ true → n ≢ m
skipped_ne n m h q e = cc

pub is_skipped-IsCached : (name : List ℕ) → is_skipped name ≡ false → IsCached name
unfolding is_skipped
is_skipped-IsCached name h = (
  skipped_ne name [] h refl,
  skipped_ne name (b'.' ∷ []) h refl,
  skipped_ne name (b'.' ∷ b'.' ∷ []) h refl,
)

pub IsCached-is_skipped : (name : List ℕ) → IsCached name → is_skipped name ≡ false
unfolding is_skipped
IsCached-is_skipped [] h = absurd (h.0 refl)
IsCached-is_skipped (c ∷ []) h = elim (ℕ_discrete c b'.') [
  | yes p ↦ absurd (h.1 (ap (λ x. x ∷ []) p))
  | no p ↦ ground arith
]
IsCached-is_skipped (c ∷ d ∷ []) h = elim (ℕ_discrete c b'.') [
  | yes p ↦ elim (ℕ_discrete d b'.') [
    | yes q ↦ absurd (h.2 (ap (λ x. x ∷ d ∷ []) p ∙ ap (λ x. b'.' ∷ x ∷ []) q))
    | no q ↦ ground arith
  ]
  | no p ↦ ground arith
]
IsCached-is_skipped (c ∷ d ∷ e ∷ l) h = refl
