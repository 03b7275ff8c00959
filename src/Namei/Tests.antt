-- ===== src/Namei/Tests.antt =====
-- The stack of directories on a small path, and the theorems at it.
use polarfs.Namei.{
  Stkent, Instack, Out, ret, enomem, abort, instk_init, with_room, append_name, instk_push,
  cut_point, cut_off, drop_top, instk_pop, lookup_done, is_full, put, put_string, strrchr,
}
use polarfs.Namei.Stack.{IsName}
use polarfs.Prelude.Errno.{Errno}
use polarfs.Namei.Walks.{walking, Walk, start, down, Spelt, Walk-Spelt}
use polarfs.Namei.Released.{
  IsReleased, lookup_done-IsReleased, instk_pop-instk_push, lookup_done-instk_push,
}
use polarfs.Namei.Parse.{
  inodet_file, ready, nameinfo, namei_init, init_full, set_pbd, set_type, split_slash, add_byte,
  skip_slashes, ends_in_slash,
}
use polarfs.Namei.Parsed.{Answer, namei_init-Outcome}
use polarfs.Prelude.{◌⊎◌, inr, some, ℕ, ◌≤◌, ◌≡◌, true, false, List, [], ◌∷◌, refl, arith}

abbrev result : Out Instack → Instack
result (ret k) = k
result (enomem k) = k
result abort = instk_init λ i. 0

abbrev no_refs : ℕ → ℕ
no_refs i = 0

abbrev pbd : List ℕ
pbd = b'p' ∷ b'1' ∷ []

abbrev dir : List ℕ
dir = b'd' ∷ []

abbrev file : List ℕ
file = b'f' ∷ b'g' ∷ []

abbrev at_root : Instack
at_root = result (instk_push true true (instk_init no_refs) 0 50 pbd)

abbrev at_dir : Instack
at_dir = result (instk_push true true at_root 7 60 dir)

abbrev at_file : Instack
at_file = result (instk_push true true at_dir 9 70 file)

at_file_path : at_file.s_path 6 ≡ b'f'
unfolding instk_push append_name with_room instk_init put_string put
at_file_path = refl

pop_file_path : (result (instk_pop at_file)).s_path 5 ≡ 0
unfolding instk_push append_name with_room instk_init put_string put instk_pop cut_point cut_off
    drop_top strrchr
pop_file_path = refl

root_done : instk_push true true (instk_init no_refs) 0 50 pbd ≡ ret at_root
unfolding instk_push append_name with_room instk_init
root_done = refl

dir_done : instk_push true true at_root 7 60 dir ≡ ret at_dir
unfolding instk_push append_name with_room instk_init
dir_done = refl

file_done : instk_push true true at_dir 9 70 file ≡ ret at_file
unfolding instk_push append_name with_room instk_init
file_done = refl

pbd-IsName : IsName pbd
pbd-IsName = ((omega arith, (omega arith, tt)), (omega arith, (omega arith, tt)))

dir-IsName : IsName dir
dir-IsName = ((omega arith, tt), (omega arith, tt))

file-IsName : IsName file
file-IsName = ((omega arith, (omega arith, tt)), (omega arith, (omega arith, tt)))

dir_walk : Walk no_refs pbd at_dir
dir_walk =
    down at_root at_dir 7 60 dir (start at_root 50 pbd-IsName (omega arith) root_done) (omega arith)
      dir-IsName dir_done

file_walk : Walk no_refs pbd at_file
file_walk = down at_dir at_file 9 70 file dir_walk (omega arith) file-IsName file_done

Walk-Spelt_example : Spelt no_refs pbd at_file
Walk-Spelt_example = Walk-Spelt no_refs pbd file_walk

lookup_done-IsReleased_example :
    (k' : Instack) × (lookup_done at_file.s_i at_file ≡ ret k') × IsReleased no_refs k'
lookup_done-IsReleased_example = lookup_done-IsReleased no_refs pbd at_file (walking file_walk)

instk_pop-instk_push_example :
    (k : Instack) × (instk_pop at_file ≡ ret k)
    × (k.s_i ≡ at_dir.s_i)
    × (k.s_vec ≡ at_dir.s_vec)
    × (k.s_nextpos ≡ at_dir.s_nextpos)
    × ((j : ℕ) → j ≤ at_dir.s_nextpos → k.s_path j ≡ at_dir.s_path j)
    × ((i : ℕ) → k.refs i ≡ at_dir.refs i)
instk_pop-instk_push_example =
    instk_pop-instk_push no_refs pbd at_dir at_file 9 70 file dir_walk (omega arith) file-IsName
      file_done

-- A stack whose eight places are taken.
abbrev full_stack : Instack
full_stack = record at_dir {
  s_vec = some (t ∷ t ∷ t ∷ t ∷ t ∷ t ∷ t ∷ t ∷ []);
  s_i = 8;
  s_size = 8;
}
  where
    t : Stkent
    t = record { se_in = 7; se_btime = 60 }

full_now : is_full full_stack ≡ true
unfolding instk_push append_name with_room instk_init
full_now = refl

lookup_done-instk_push_example :
    (k' : Instack) × (instk_push false true full_stack 9 70 file ≡ enomem k')
    × (lookup_done k'.s_i k' ≡ abort)
lookup_done-instk_push_example =
    lookup_done-instk_push true full_stack 9 70 file (omega arith) full_now

-- "//p1/fg"
abbrev user_path : List ℕ
user_path = b'/' ∷ b'p' ∷ b'1' ∷ b'/' ∷ file

init_pbd :
    namei_init (inr (b'/' ∷ [])) no_refs inodet_file (b'/' ∷ user_path)
    ≡ ready (nameinfo no_refs inodet_file pbd (b'/' ∷ file))
unfolding namei_init init_full set_pbd set_type split_slash add_byte skip_slashes ends_in_slash
    nameinfo
init_pbd = refl

at_slash :
    (d : List ℕ)
    → ◌≡◌ {A = Errno ⊎ List ℕ} (inr (b'/' ∷ [])) (inr d)
    → (s : List ℕ) × (d ≡ b'/' ∷ s)
at_slash d e = ([], cc)

-- "p1/fg", in the working directory "/".
namei_init-Outcome_example :
    Answer no_refs inodet_file
      (inr (b'/' ∷ []))
      (b'p' ∷ b'1' ∷ b'/' ∷ file)
      (namei_init (inr (b'/' ∷ [])) no_refs inodet_file (b'p' ∷ b'1' ∷ b'/' ∷ file))
namei_init-Outcome_example =
    namei_init-Outcome no_refs inodet_file (inr (b'/' ∷ [])) (b'p' ∷ b'1' ∷ b'/' ∷ file) at_slash
