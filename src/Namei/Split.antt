-- ===== src/Namei/Split.antt =====
-- How the strings of pfs_namei_init are cut at a slash.
use polarfs.Namei.Text.{Lacks, ne→==}
use polarfs.Namei.Parse.{skip_slashes, add_byte, split_slash, ends_in_slash}
use native.Mathlib.Decide.{ℕ_discrete}
use polarfs.Prelude.{
  ℕ, zero, suc, ◌<◌, true, false, none, some, List, [], ◌∷◌, ◌++◌, ◌≡◌, ◌≢◌, ◌⊎◌, inl, inr, length,
  ◌==◌, arith, refl, ap, sym, ◌∙◌, eq→==,
}

abbrev pub slashes : ℕ → List ℕ
slashes zero = []
slashes (suc m) = b'/' ∷ slashes m

pub Starts : List ℕ → Type 0
Starts [] = Unit
Starts (c ∷ s) = c ≢ b'/'

pub skip_lem : (s : List ℕ) → (m : ℕ) × (s ≡ slashes m ++ skip_slashes s) × Starts (skip_slashes s)
unfolding skip_slashes Starts
skip_lem [] = (0, refl, tt)
skip_lem (c ∷ s) = elim (ℕ_discrete c b'/') [
  | yes e ↦
      let r = skip_lem s in
      rw (eq→== c b'/' e) (suc r.0, ap (λ x. x ∷ s) e ∙ ap (λ t. b'/' ∷ t) r.1, r.2)
  | no e ↦ rw (ne→== c b'/' e) (0, refl, e)
]

pub split_lem :
    (s : List ℕ)
    → ((split_slash s ≡ none) × Lacks b'/' s)
      ⊎ ((n : List ℕ) × (p : List ℕ) × (split_slash s ≡ some (n, b'/' ∷ p))
          × (s ≡ n ++ b'/' ∷ p)
          × Lacks b'/' n)
unfolding split_slash add_byte
split_lem [] = inl (refl, tt)
split_lem (c ∷ s) = elim (ℕ_discrete c b'/') [
  | yes e ↦ inr ([], s, rw (eq→== c b'/' e) (ap (λ x. some ([], x ∷ s)) e), ap (λ x. x ∷ s) e, tt)
  | no e ↦ elim (split_lem s) [
    | inl r ↦ inl (rw (ne→== c b'/' e, r.0) refl, (e, r.1))
    | inr r ↦ inr (c ∷ r.0, r.1, rw (ne→== c b'/' e, r.2) refl, ap (λ t. c ∷ t) r.3, (e, r.4))
  ]
]

ends_append : (q : List ℕ) → ends_in_slash (q ++ b'/' ∷ []) ≡ true
unfolding ends_in_slash
ends_append [] = refl
ends_append (c ∷ []) = refl
ends_append (c ∷ d ∷ q) = ends_append (d ∷ q)

eq_of : (a b : ℕ) → (a == b) ≡ true → a ≡ b
eq_of a b h = ground arith

pub ends_true : (s : List ℕ) → ends_in_slash s ≡ true → (q : List ℕ) × (s ≡ q ++ b'/' ∷ [])
unfolding ends_in_slash
ends_true [] e = absurd cc
ends_true (c ∷ []) e = ([], ap (λ x. x ∷ []) (eq_of c b'/' e))
ends_true (c ∷ d ∷ s) e = let r = ends_true (d ∷ s) e in (c ∷ r.0, ap (λ t. c ∷ t) r.1)

pub ends_false : (s q : List ℕ) → ends_in_slash s ≡ false → s ≢ q ++ b'/' ∷ []
ends_false s q e p = let t = sym e ∙ ap ends_in_slash p ∙ ends_append q in cc

pub first_byte : (n p s : List ℕ) → Starts s → s ≡ n ++ b'/' ∷ p → 0 < length n
unfolding Starts
first_byte [] p [] h e = absurd cc
first_byte [] p (c ∷ s) h e = absurd (h cc)
first_byte (c ∷ n) p s h e = omega arith
