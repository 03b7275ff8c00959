-- ===== src/Namei/Parse.antt =====
-- The decomposition of a path from the user (pfs_namei_init of pfs_core/pfs_namei.cc). A C string
-- is the list of its bytes; the device's name and the rest lie in ni_buf apart from each other.
use polarfs.Namei.{max_pathlen, max_pbdlen, Instack, instk_init}
use polarfs.Prelude.Errno.{Errno, einval, other}
use polarfs.Prelude.{
  ℕ, suc, Bool, true, false, Option, none, some, List, [], ◌∷◌, ◌++◌, ◌⊎◌, inl, inr, length, leb,
  ◌==◌, if◌then◌else◌,
}

abbrev pub enametoolong : Errno
enametoolong = other 36

abbrev pub eisdir : Errno
eisdir = other 21

-- The types of inodes, PFS_INODET_*.
pub data InodeType : Type 0 where
  inodet_none inodet_file inodet_dir : InodeType

-- struct nameinfo, without the buffers that ni_pbd, ni_path and ni_srch_name point into
pub record Nameinfo : Type 0 where
  pub ni_pbd : List ℕ
  pub ni_path : List ℕ
  pub ni_srch_name : List ℕ
  pub ni_par_ino : ℕ
  pub ni_ino : ℕ
  pub ni_par_btime : ℕ
  pub ni_btime : ℕ
  pub ni_tgt_type : InodeType
  pub ni_broken_path : Bool
  pub ni_instk : Instack

-- What pfs_namei_init returns, or a failed assertion.
pub data Init : Type 0 where
  ready : Nameinfo → Init
  error : Errno → Init
  assert_failed : Init

-- The first byte of a string that is no '/', and what follows.
unfoldable pub skip_slashes : List ℕ → List ℕ
skip_slashes [] = []
skip_slashes (c ∷ s) = let rest = skip_slashes s in if c == b'/' then rest else c ∷ s

unfoldable pub add_byte : ℕ → Option (List ℕ × List ℕ) → Option (List ℕ × List ℕ)
add_byte c none = none
add_byte c (some (n, p)) = some (c ∷ n, p)

-- What stands before the first '/', and the string from there on, as by strchr.
unfoldable pub split_slash : List ℕ → Option (List ℕ × List ℕ)
split_slash [] = none
split_slash (c ∷ s) =
    let rest = split_slash s in if c == b'/' then some ([], c ∷ s) else add_byte c rest

unfoldable pub ends_in_slash : List ℕ → Bool
ends_in_slash [] = false
ends_in_slash (c ∷ []) = c == b'/'
ends_in_slash (c ∷ d ∷ s) = ends_in_slash (d ∷ s)

unfoldable pub nameinfo : (ℕ → ℕ) → InodeType → List ℕ → List ℕ → Nameinfo
nameinfo refs type pbd path = record {
  ni_pbd = pbd;
  ni_path = path;
  ni_srch_name = [];
  ni_par_ino = 0;
  ni_ino = 0;
  ni_par_btime = 0;
  ni_btime = 0;
  ni_tgt_type = type;
  ni_broken_path = true;
  ni_instk = instk_init refs;
}

-- A path with a '/' at its end is a directory's.
unfoldable pub set_type : (ℕ → ℕ) → InodeType → List ℕ → List ℕ → Bool → Init
set_type refs type pbd path false = ready (nameinfo refs type pbd path)
set_type refs inodet_file pbd path true = error eisdir
set_type refs inodet_none pbd path true = ready (nameinfo refs inodet_dir pbd path)
set_type refs inodet_dir pbd path true = ready (nameinfo refs inodet_dir pbd path)

unfoldable pub set_pbd : (ℕ → ℕ) → InodeType → Option (List ℕ × List ℕ) → Init
set_pbd refs type none = error einval
set_pbd refs type (some (pbd, path)) =
    if length pbd == 0
    then assert_failed
    else if leb max_pbdlen (length pbd)
    then error enametoolong
    else set_type refs type pbd path (ends_in_slash path)

-- pfs_namei_init once ni_buf has the full path
unfoldable pub init_full : (ℕ → ℕ) → InodeType → List ℕ → Init
init_full refs type [] = assert_failed
init_full refs type (c ∷ s) =
    if leb max_pathlen (suc (length s))
    then error enametoolong
    else if c == b'/'
    then set_pbd refs type (split_slash (skip_slashes s))
    else assert_failed

-- `wd` is what pfs_memdir_xgetwd gives.
unfoldable pub namei_init : Errno ⊎ List ℕ → (ℕ → ℕ) → InodeType → List ℕ → Init
namei_init wd refs type [] = error einval
namei_init wd refs type (c ∷ s) =
    if c == b'/'
    then init_full refs type (c ∷ s)
    else elim wd [ inl e ↦ error e | inr d ↦ init_full refs type (d ++ b'/' ∷ c ∷ s) ]
