-- ===== src/Namecache/Answers.antt =====
-- The name cache as a set of nodes: what a lookup answers, and what enter, delete and clear do to it.
use polarfs.Namecache.{NameEntry, Cache, nc_hard_limit, is_key, find}
use polarfs.Namecache.Calls.{lookup_hashed, is_dot, lookup}
use polarfs.Namecache.Entered.{Same-refl, Same-stats, Same, promote-Same}
use polarfs.Namecache.Members.{find-some}
use polarfs.Namecache.Search.{find-name_chain}
use polarfs.Namecache.Wf.{IsWf}
use mathlib.Core.Option
use polarfs.Prelude.{
  ℕ, Bool, true, false, not, List, ◌≡◌, inl, inr, Option, none, some, Option-cases, refl,
  if◌then◌else◌,
}

-- The inode that the nodes have for a name.
abbrev pub view : Cache → ℕ → ℕ → List ℕ → Option ℕ
view c mnt parent_ino name =
    Option.map (λ (e : NameEntry). e.ino) (find (is_key mnt parent_ino name) c.lru)

-- Two computations with the same two guards are related if their branches are.
pub guarded :
    {A B : Type 0} (R : A → B → Type 0) (p q : Bool) {a b c : A} {a' b' c' : B}
    → R a a'
    → R b b'
    → R c c'
    → R (if p then a else if q then b else c) (if p then a' else if q then b' else c')
guarded R true q x y z = x
guarded R false true x y z = y
guarded R false false x y z = z

module _ (fnv : List ℕ → ℕ → ℕ) where
  module _ (c : Cache) (w : IsWf fnv nc_hard_limit c) where
    module _ (now mnt parent_ino : ℕ) (name : List ℕ) where
      -- The answer, and what the call leaves.
      abbrev pub Answers : Cache × Option ℕ → Option ℕ → Type 0
      Answers r answer = (r.1 ≡ answer) × Same fnv c r.0

      lookup_hashed-Answers :
          Answers (lookup_hashed fnv c now mnt parent_ino name) (view c mnt parent_ino name)
      unfolding lookup_hashed
      lookup_hashed-Answers = elim (Option-cases (find (is_key mnt parent_ino name) c.lru)) [
        | inl absent ↦
            rw (find-name_chain mnt parent_ino name fnv nc_hard_limit c w, absent, lookup_hashed)
              (refl, Same-stats fnv c c _ (Same-refl fnv c w))
        | inr (f, e) ↦
            let (m, _) = find-some (is_key mnt parent_ino name) f c.lru e in
            rw (find-name_chain mnt parent_ino name fnv nc_hard_limit c w, e, lookup_hashed)
              (refl, Same-stats fnv c _ _ (promote-Same fnv c f now m w))
      ]

      -- A lookup answers "." by the directory itself and any other name by what all nodes together
      -- have for it, wherever the expansion of the tables stands; it keeps the cache well formed
      -- and its nodes the same. A disabled cache answers nothing.
      pub lookup-view : Answers (lookup fnv c now mnt parent_ino name) (
          if not c.enable
          then none
          else if is_dot name
          then some parent_ino
          else view c mnt parent_ino name)
      unfolding lookup
      lookup-view =
          guarded Answers (not c.enable) (is_dot name) (refl, Same-refl fnv c w)
            (refl, Same-refl fnv c w) lookup_hashed-Answers
