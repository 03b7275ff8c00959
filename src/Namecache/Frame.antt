-- ===== src/Namecache/Frame.antt =====
-- What the calls leave alone: the options, and an expansion that is under way.
use polarfs.Namecache.{NameEntry, Cache, Stats, remove_entry, promote_entry, is_first}
use polarfs.Namecache.Calls.{evict_one, insert, should_rehash, rehash}
use polarfs.Prelude.{
  ℕ, ◌-◌, Bool, true, ◌&&◌, List, ◌≡◌, inl, inr, refl, ◌∙◌, if◌then◌else◌, arith, Bool-cases,
}

-- The buckets that an expansion has still to move.
abbrev pub left : Cache → ℕ
left c = if c.expanding then c.tbl.sz - c.expand.bucket else 0

pub record Frame (c d : Cache) : Type 0 where
  pub enable : d.enable ≡ c.enable
  pub bulk : d.bulk_move ≡ c.bulk_move
  pub growing : c.expanding ≡ true → (d.expanding ≡ true) × (left d ≡ left c)

pub Frame-refl : (c : Cache) → Frame c c
Frame-refl c = record { enable = refl; bulk = refl; growing = λ y. (y, refl) }

pub Frame-trans : {c d e : Cache} → Frame c d → Frame d e → Frame c e
Frame-trans f g = record {
  enable = g.enable ∙ f.enable;
  bulk = g.bulk ∙ f.bulk;
  growing = λ y. let r = f.growing y in let s = g.growing r.0 in (s.0, s.1 ∙ r.1);
}

pub stats-Frame : (c : Cache) (s : Stats) → Frame c (record c { stats = s })
stats-Frame c s = record { enable = refl; bulk = refl; growing = λ y. (y, refl) }

pub remove_entry-Frame : (c : Cache) (e : NameEntry) → Frame c (remove_entry c e)
unfolding remove_entry
remove_entry-Frame c e = record { enable = refl; bulk = refl; growing = λ y. (y, refl) }

pub evict_one-Frame : (c : Cache) (e : NameEntry) → Frame c (evict_one c e)
unfolding evict_one remove_entry
evict_one-Frame c e = record { enable = refl; bulk = refl; growing = λ y. (y, refl) }

pub promote_entry-Frame : (c : Cache) (e : NameEntry) (now : ℕ) → Frame c (promote_entry c e now)
unfolding promote_entry
promote_entry-Frame c e now = elim (Bool-cases (is_first e c.lru)) [
  | inl y ↦ rw y (Frame-refl c)
  | inr y ↦ rw y (record { enable = refl; bulk = refl; growing = λ y. (y, refl) })
]

pub insert-Frame :
    (fnv : List ℕ → ℕ → ℕ) (c : Cache) (e : NameEntry) (now : ℕ) → Frame c (insert fnv c e now)
unfolding insert
insert-Frame fnv c e now = record { enable = refl; bulk = refl; growing = λ y. (y, refl) }

pub rehash-Frame : (memory : Bool) (c : Cache) → Frame c (rehash memory c)
unfolding rehash
rehash-Frame memory c = elim (Bool-cases (should_rehash c && memory)) [
  | inr y ↦ rw y (Frame-refl c)
  | inl y ↦ rw y (record {
    enable = refl;
    bulk = refl;
    growing = λ t. absurd (unfold should_rehash in ground arith);
  })
]
