-- ===== src/Namei/Parsed.antt =====
-- What pfs_namei_init makes of a path, told by how the path is put together.
use polarfs.Namei.{max_pathlen, max_pbdlen}
use polarfs.Namei.Text.{Lacks, ne→==}
use polarfs.Namei.Split.{slashes, skip_lem, split_lem, ends_true, ends_false, first_byte}
use polarfs.Namei.Parse.{
  enametoolong, eisdir, InodeType, inodet_none, inodet_file, inodet_dir, Init, ready, error,
  skip_slashes, split_slash, ends_in_slash, nameinfo, set_type, set_pbd, init_full, namei_init,
}
use polarfs.Prelude.Errno.{Errno, einval}
use mathlib.Core.Path.{subst}
use native.Mathlib.Decide.{ℕ_discrete}
use polarfs.Prelude.{
  leb→le, ℕ, suc, ◌≤◌, ◌<◌, Bool, true, false, some, List, [], ◌∷◌, ◌++◌, ◌≡◌, ◌≢◌, ◌⊎◌, inl, inr,
  length, leb, arith, refl, ap, sym, ◌∙◌, Bool-cases, eq→==,
}

-- The path consists of slashes, a name without any, and the rest from a '/' on.
pub record Splits (l n p : List ℕ) : Type 0 where
  pub before : ℕ
  pub whole : l ≡ slashes (suc before) ++ (n ++ b'/' ∷ p)
  pub lacks : Lacks b'/' n
  pub some_byte : 0 < length n
  pub room : length l < max_pathlen

-- The path has no '/' behind its first name.
pub record IsBare (l : List ℕ) : Type 0 where
  pub before : ℕ
  pub name : List ℕ
  pub whole : l ≡ slashes (suc before) ++ name
  pub lacks : Lacks b'/' name
  pub room : length l < max_pathlen

pub data Outcome (refs : ℕ → ℕ) (type : InodeType) (l : List ℕ) : Init → Type 0 where
  too_long : max_pathlen ≤ length l → Outcome refs type l (error enametoolong)
  bare : IsBare l → Outcome refs type l (error einval)
  long_name :
      (n p : List ℕ)
      → Splits l n p
      → max_pbdlen ≤ length n
      → Outcome refs type l (error enametoolong)
  file_slash :
      (n p q : List ℕ)
      → Splits l n p
      → length n < max_pbdlen
      → b'/' ∷ p ≡ q ++ b'/' ∷ []
      → type ≡ inodet_file
      → Outcome refs type l (error eisdir)
  dir_slash :
      (n p q : List ℕ)
      → Splits l n p
      → length n < max_pbdlen
      → b'/' ∷ p ≡ q ++ b'/' ∷ []
      → type ≢ inodet_file
      → Outcome refs type l (ready (nameinfo refs inodet_dir n (b'/' ∷ p)))
  plain :
      (n p : List ℕ)
      → Splits l n p
      → length n < max_pbdlen
      → ((q : List ℕ) → b'/' ∷ p ≢ q ++ b'/' ∷ [])
      → Outcome refs type l (ready (nameinfo refs type n (b'/' ∷ p)))

lt_leb : (a b : ℕ) → leb a b ≡ false → b < a
lt_leb a b h = ground arith

set_type-Outcome :
    (refs : ℕ → ℕ) (type : InodeType) (l n p : List ℕ) (b : Bool)
    → Splits l n p
    → length n < max_pbdlen
    → ends_in_slash (b'/' ∷ p) ≡ b
    → Outcome refs type l (set_type refs type n (b'/' ∷ p) b)
unfolding set_type
set_type-Outcome refs type l n p false s h e = plain n p s h λ q. ends_false (b'/' ∷ p) q e
set_type-Outcome refs inodet_file l n p true s h e =
    let r = ends_true (b'/' ∷ p) e in file_slash n p r.0 s h r.1 refl
set_type-Outcome refs inodet_none l n p true s h e =
    let r = ends_true (b'/' ∷ p) e in dir_slash n p r.0 s h r.1 λ x. cc
set_type-Outcome refs inodet_dir l n p true s h e =
    let r = ends_true (b'/' ∷ p) e in dir_slash n p r.0 s h r.1 λ x. cc

set_pbd-Outcome :
    (refs : ℕ → ℕ) (type : InodeType) (l n p : List ℕ)
    → Splits l n p
    → Outcome refs type l (set_pbd refs type (some (n, b'/' ∷ p)))
unfolding set_pbd
set_pbd-Outcome refs type l n p s =
    rw (ne→== (length n) 0 (omega (arith, s.some_byte)))
      elim (Bool-cases (leb max_pbdlen (length n))) [
        | inl x ↦ rw x (long_name n p s (leb→le max_pbdlen (length n) x))
        | inr x ↦ rw x (set_type-Outcome refs type l n p _ s (lt_leb max_pbdlen (length n) x) refl)
      ]

fitting-Outcome :
    (refs : ℕ → ℕ) (type : InodeType) (s : List ℕ)
    → suc (length s) < max_pathlen
    → Outcome refs type (b'/' ∷ s) (set_pbd refs type (split_slash (skip_slashes s)))
unfolding set_pbd
fitting-Outcome refs type s h =
    let k = skip_lem s in
    elim (split_lem (skip_slashes s)) [
      | inl r ↦ rw r.0 (
          bare record {
            before = k.0;
            name = skip_slashes s;
            whole = ap (λ t. b'/' ∷ t) k.1;
            lacks = r.1;
            room = h;
          })
      | inr r ↦ rw r.2 (
          set_pbd-Outcome refs type (b'/' ∷ s) r.0 r.1 record {
            before = k.0;
            whole = ap (λ t. b'/' ∷ t) (k.1 ∙ ap (λ t. slashes k.0 ++ t) r.3);
            lacks = r.4;
            some_byte = first_byte r.0 r.1 (skip_slashes s) k.2 r.3;
            room = h;
          })
    ]

init_full-Outcome :
    (refs : ℕ → ℕ) (type : InodeType) (s : List ℕ)
    → Outcome refs type (b'/' ∷ s) (init_full refs type (b'/' ∷ s))
unfolding init_full
init_full-Outcome refs type s = elim (Bool-cases (leb max_pathlen (suc (length s)))) [
  | inl x ↦ rw x (too_long (leb→le max_pathlen (suc (length s)) x))
  | inr x ↦ rw x (fitting-Outcome refs type s (lt_leb max_pathlen (suc (length s)) x))
]

-- A path that is resolved from the working directory.
abbrev pub IsRelative : List ℕ → Type 0
IsRelative path = (path ≢ []) × ((s : List ℕ) → path ≢ b'/' ∷ s)

-- What pfs_namei_init gives for a path of the user, where `wd` is what pfs_memdir_xgetwd gives.
pub data Answer (refs : ℕ → ℕ) (type : InodeType) (wd : Errno ⊎ List ℕ) (path : List ℕ)
    : Init → Type 0 where
  empty : path ≡ [] → Answer refs type wd path (error einval)
  no_wd : (e : Errno) → IsRelative path → wd ≡ inl e → Answer refs type wd path (error e)
  absolute :
      (s : List ℕ) {r : Init}
      → path ≡ b'/' ∷ s
      → Outcome refs type path r
      → Answer refs type wd path r
  relative :
      (d : List ℕ) {r : Init}
      → IsRelative path
      → wd ≡ inr d
      → Outcome refs type (d ++ b'/' ∷ path) r
      → Answer refs type wd path r

relative_lem : (c : ℕ) (s : List ℕ) → c ≢ b'/' → IsRelative (c ∷ s)
relative_lem c s h = ((λ e. cc), λ t e. h cc)

init_full-absolute :
    (refs : ℕ → ℕ) (type : InodeType) (l : List ℕ)
    → ((s : List ℕ) × (l ≡ b'/' ∷ s))
    → Outcome refs type l (init_full refs type l)
init_full-absolute refs type l (s, e) =
    subst (λ x. Outcome refs type x (init_full refs type x)) (sym e) (init_full-Outcome refs type s)

from_root :
    (refs : ℕ → ℕ) (type : InodeType) (wd : Errno ⊎ List ℕ) (c : ℕ) (s : List ℕ)
    → c ≡ b'/'
    → Answer refs type wd (c ∷ s) (init_full refs type (c ∷ s))
from_root refs type wd c s e =
    let p = ap (λ x. x ∷ s) e in absolute s p (init_full-absolute refs type (c ∷ s) (s, p))

-- If the working directory, where there is one, is a path from the root on, pfs_namei_init fails no
-- assertion. It gives EINVAL for the empty path, and for a relative one the error of the working
-- directory, if that fails. For the full path, it gives ENAMETOOLONG if it has 4096 bytes or more,
-- EINVAL if no slash stands behind the first name, ENAMETOOLONG for a first name of 64 bytes or more,
-- and EISDIR if a file is asked for and the path ends in a slash. Else it takes the first name for the
-- device's and the rest from its slash on for the path, of a directory if it ends in a slash.
pub namei_init-Outcome :
    (refs : ℕ → ℕ) (type : InodeType) (wd : Errno ⊎ List ℕ) (path : List ℕ)
    → ((d : List ℕ) → wd ≡ inr d → (s : List ℕ) × (d ≡ b'/' ∷ s))
    → Answer refs type wd path (namei_init wd refs type path)
unfolding namei_init
namei_init-Outcome refs type wd [] h = empty refl
namei_init-Outcome refs type (inl x) (c ∷ s) h = elim (ℕ_discrete c b'/') [
  | yes e ↦ rw (eq→== c b'/' e) (from_root refs type (inl x) c s e)
  | no e ↦ rw (ne→== c b'/' e) (no_wd x (relative_lem c s e) refl)
]
namei_init-Outcome refs type (inr d) (c ∷ s) h = elim (ℕ_discrete c b'/') [
  | yes e ↦ rw (eq→== c b'/' e) (from_root refs type (inr d) c s e)
  | no e ↦
      let (t, p) = h d refl in
      rw (ne→== c b'/' e) (
        relative d (relative_lem c s e) refl (
          init_full-absolute refs type (d ++ b'/' ∷ c ∷ s)
            (t ++ b'/' ∷ c ∷ s, ap (λ l. l ++ b'/' ∷ c ∷ s) p)))
]
