-- ===== src/Namei.antt =====
-- The resolution of path names (pfs_core/pfs_namei.cc): the stack of the directories on the way,
-- with the path that they spell in a buffer.
pub mod Text
pub mod Stack
pub mod Popped
pub mod Walks
pub mod Released
pub mod Parse
pub mod Split
pub mod Parsed
pub mod Tests
use polarfs.Prelude.{
  ℕ, zero, suc, ◌+◌, ◌-◌, ◌≤◌, ◌<◌, Bool, true, false, not, ◌&&◌, ◌||◌, Option, none, some, List,
  [], ◌∷◌, length, ltb, leb, ◌==◌, if◌then◌else◌,
}

-- The bytes of a char array, by their index.
abbrev pub Buffer : Type 0
Buffer = ℕ → ℕ

abbrev pub max_pathlen : ℕ
max_pathlen = 4096

abbrev pub max_pbdlen : ℕ
max_pbdlen = 64

unfoldable pub put : ℕ → ℕ → Buffer → Buffer
put i c b = λ j. if i == j then c else b j

-- What snprintf and strcpy write: the string and its NUL.
unfoldable pub put_string : ℕ → List ℕ → Buffer → Buffer
put_string i [] b = put i 0 b
put_string i (c ∷ s) b = put i c (put_string (suc i) s b)

-- strlen from index `i`, in an array that has `n` bytes left
unfoldable pub strlen_from : ℕ → ℕ → Buffer → ℕ
strlen_from zero i b = i
strlen_from (suc n) i b = let rest = strlen_from n (suc i) b in if b i == 0 then i else rest

-- The last '/' below index `n`.
unfoldable pub last_slash : ℕ → Buffer → Option ℕ
last_slash zero b = none
last_slash (suc n) b = let rest = last_slash n b in if b n == b'/' then some n else rest

-- strrchr(s_path, '/')
unfoldable pub strrchr : Buffer → Option ℕ
unfolding strlen_from last_slash
strrchr b = last_slash (strlen_from max_pathlen 0 b) b

-- struct stkent, the inode by its number
pub record Stkent : Type 0 where
  pub se_in : ℕ
  pub se_btime : ℕ

-- struct instack: `s_vec` is none for NULL, else the entries below s_i, the top first; s_nextpos is
-- an index of s_path. `refs` counts the references that are held on each inode.
pub record Instack : Type 0 where
  pub s_vec : Option (List Stkent)
  pub s_i : ℕ
  pub s_size : ℕ
  pub s_path : Buffer
  pub s_nextpos : ℕ
  pub refs : ℕ → ℕ

-- An error code, or a failed assertion or access.
pub data Out (A : Type 0) : Type 0 where
  ret : A → Out A
  enomem : A → Out A
  abort : Out A

unfoldable pub instk_init : (ℕ → ℕ) → Instack
instk_init refs = record {
  s_vec = none;
  s_i = 0;
  s_size = 0;
  s_path = λ i. 0;
  s_nextpos = 0;
  refs = refs;
}

abbrev pub is_null : Option (List Stkent) → Bool
is_null none = true
is_null (some l) = false

abbrev pub entries_of : Option (List Stkent) → List Stkent
entries_of none = []
entries_of (some l) = l

-- The asserted state of an empty stack.
abbrev pub is_clear : Instack → Bool
is_clear k = k.s_path 0 == 0 && k.s_nextpos == 0

abbrev pub inode_get : ℕ → (ℕ → ℕ) → ℕ → ℕ
inode_get n refs ino = if n == ino then refs ino + 1 else refs ino

abbrev pub inode_put : ℕ → (ℕ → ℕ) → ℕ → ℕ
inode_put n refs ino = if n == ino then refs ino - 1 else refs ino

-- instk_push once there is room and the inode has been got
unfoldable pub append_name : Instack → ℕ → ℕ → List ℕ → Out Instack
append_name k ino btime name =
    let end = k.s_nextpos + length name + 1 in
    let path = put_string k.s_nextpos (b'/' ∷ name) k.s_path in
    if ltb end max_pathlen
    then ret (record k {
      s_vec = some (record { se_in = ino; se_btime = btime } ∷ entries_of k.s_vec);
      s_i = k.s_i + 1;
      s_path = if ino == 0 then put end b'/' path else path;
      s_nextpos = end;
      refs = inode_get ino k.refs;
    })
    else abort

-- There is no room for another entry.
abbrev pub is_full : Instack → Bool
is_full k = is_null k.s_vec || leb k.s_size k.s_i

-- The stack with memory for another entry.
unfoldable pub with_room : Instack → Instack
with_room k =
    if is_full k then record k { s_vec = some (entries_of k.s_vec); s_size = k.s_size + 8 } else k

-- `grows` and `gets` tell if pfs_mem_realloc and pfs_inode_get succeed.
unfoldable pub instk_push : Bool → Bool → Instack → ℕ → ℕ → List ℕ → Out Instack
instk_push grows gets k ino btime name =
    if k.s_i == 0 && not (is_clear k)
    then abort
    else if is_full k && not grows
    then enomem (record k { s_vec = none; s_size = k.s_size + 8 })
    else if not gets
    then enomem (with_room k)
    else append_name (with_room k) ino btime name

-- Where the last component is cut off, and s_nextpos after it.
unfoldable pub cut_point : Instack → Option (ℕ × ℕ)
cut_point k = if k.s_i == 1 then some (0, 0) else elim (strrchr k.s_path) [
  | none ↦ none
  | some i ↦ if k.s_i == 2 then some (i + 1, i) else some (i, i)
]

unfoldable pub drop_top : Instack → Option (List Stkent) → ℕ → ℕ → Out Instack
drop_top k none pos next = abort
drop_top k (some []) pos next = abort
drop_top k (some (e ∷ l)) pos next =
    let path = put pos 0 k.s_path in
    if k.s_i == 1 && not (path 0 == 0 && next == 0)
    then abort
    else ret (record k {
      s_vec = some l;
      s_i = k.s_i - 1;
      s_path = path;
      s_nextpos = next;
      refs = inode_put e.se_in k.refs;
    })

unfoldable pub cut_off : Instack → Option (ℕ × ℕ) → Out Instack
cut_off k none = abort
cut_off k (some (pos, next)) = drop_top k k.s_vec pos next

unfoldable pub instk_pop : Instack → Out Instack
instk_pop k = if k.s_i == 0 then abort else cut_off k (cut_point k)

unfoldable pub instk_fini : Instack → Out Instack
instk_fini k =
    if not (k.s_i == 0)
    then abort
    else if is_null k.s_vec
    then ret k
    else ret (record k { s_vec = none; s_size = 0 })

-- pfs_namei_lookup_done, on fuel
unfoldable pub lookup_done : ℕ → Instack → Out Instack
lookup_done zero k = instk_fini k
lookup_done (suc n) k =
    if k.s_i == 0
    then instk_fini k
    else elim (instk_pop k) [ ret k' ↦ lookup_done n k' | enomem k' ↦ abort | abort ↦ abort ]
