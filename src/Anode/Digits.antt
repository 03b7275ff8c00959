-- ===== src/Anode/Digits.antt =====
-- The number of an object as a child's index and a number in the child, for `pfs_anode_t` trees.
use mathlib.Core.Path.{subst, ap₂}
use native.Mathlib.Decide.{ℕ_discrete}
use native.Mathlib.Nat.{pow-suc}
use polarfs.Prelude.{
  ℕ, zero, suc, ◌+◌, ◌*◌, ◌/◌, ◌%◌, ◌^◌, ◌<◌, ◌≡◌, ◌≢◌, sym, ap, ◌∙◌, ◌&&◌, arith, ◌==◌,
}

pub pow_pos : (s : ℕ) → 0 < 2 ^ s
pow_pos zero = omega arith
pow_pos (suc s) = rw pow-suc (omega (arith, pow_pos s))

pub split_parts : (p j w : ℕ) → w < p → ((j * p + w) / p ≡ j) × ((j * p + w) % p ≡ w)
split_parts p j w lt = (grind arith, grind arith)

pub joined : (p u : ℕ) → (u / p) * p + u % p ≡ u
joined p u = grind arith

pub split_at : (p j w u : ℕ) → w < p → (u / p == j && u % p == w) ≡ (u == j * p + w)
split_at p j w u lt = elim (ℕ_discrete u (j * p + w)) [
  | yes e ↦
      subst (λ n. (n / p == j && n % p == w) ≡ (n == j * p + w)) (sym e)
        (both (split_parts p j w lt))
  | no ne ↦ neither ne (λ a b. ne (sym (joined p u) ∙ ap₂ (λ x y. x * p + y) a b))
]
  where
    both :
        ((j * p + w) / p ≡ j) × ((j * p + w) % p ≡ w)
        → ((j * p + w) / p == j && (j * p + w) % p == w) ≡ (j * p + w == j * p + w)
    both h = ground arith

    neither :
        u ≢ j * p + w → (u / p ≡ j → u % p ≡ w → ⊥) → (u / p == j && u % p == w) ≡ (u == j * p + w)
    neither ne' h = elim (ℕ_discrete (u / p) j) [
      | no other ↦ ground arith
      | yes a ↦ elim (ℕ_discrete (u % p) w) [ no other ↦ ground arith | yes b ↦ absurd (h a b) ]
    ]

pub within : (p j w n : ℕ) → w < p → j < n → j * p + w < n * p
within p j w n lt le = grind arith

-- Two numbers are the same when their parts are.
pub split_same : (p w u : ℕ) → 0 < p → (u / p == w / p && u % p == w % p) ≡ (u == w)
split_same p w u h = split_at p (w / p) (w % p) u (grind arith) ∙ ap (λ n. u == n) (joined p w)
