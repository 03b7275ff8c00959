-- ===== src/Anode/Counts.antt =====
-- How many bits of a bitmap are set, and how a flip changes that.
use polarfs.Prelude.{
  ℕ, zero, suc, ◌+◌, ◌<◌, ◌≡◌, refl, Bool, true, false, List, [], ◌∷◌, arith, ◌==◌, if◌then◌else◌,
  length, get_or, set,
}

abbrev pub bit : Bool → ℕ
bit true = 1
bit false = 0

unfoldable pub count : List Bool → ℕ
count [] = 0
count (b ∷ bs) = bit b + count bs

pub count-set :
    (bs : List Bool) (v : ℕ) (b : Bool)
    → v < length bs
    → count (set bs v b) + bit (get_or bs v false) ≡ count bs + bit b
unfolding count
count-set [] v b h = absurd (omega arith)
count-set (x ∷ bs) zero b h = omega arith
count-set (x ∷ bs) (suc v) b h = omega (arith, count-set bs v b)

pub get_or-set :
    (bs : List Bool) (v u : ℕ) (b : Bool)
    → v < length bs
    → get_or (set bs v b) u false ≡ (if u == v then b else get_or bs u false)
get_or-set [] v u b h = absurd (omega arith)
get_or-set (x ∷ bs) zero zero b h = refl
get_or-set (x ∷ bs) zero (suc u) b h = ground arith
get_or-set (x ∷ bs) (suc v) zero b h = ground arith
get_or-set (x ∷ bs) (suc v) (suc u) b h = ground (arith, get_or-set bs v u b)

pub get_or-lt_length : (bs : List Bool) (v : ℕ) → get_or bs v false ≡ true → v < length bs
get_or-lt_length [] v h = cc
get_or-lt_length (x ∷ bs) zero h = omega arith
get_or-lt_length (x ∷ bs) (suc v) h = omega (arith, get_or-lt_length bs v h)
