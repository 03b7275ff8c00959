-- ===== src/Namecache/Members.antt =====
-- Which nodes are on a list, before and after the list operations of the name cache.
use mathlib.Core.List.{append_assoc}
use polarfs.Namecache.{NameEntry, find, unlink, push, Buckets}
use polarfs.Namecache.Calls.{last}
use polarfs.Prelude.{
  length-append, eq→==, ◌++◌, sym, ◌∙◌, ℕ, zero, suc, ◌≤◌, ◌<◌, List, [], ◌∷◌, ◌≡◌, ◌≢◌, ◌⊎◌, inl,
  inr, ◌==◌, Bool, true, false, none, some, length, take, drop, arith, Bool-cases, refl, ap, sym,
  ◌∙◌,
}

abbrev pub In : NameEntry → List NameEntry → Type 0
In x [] = ⊥
In x (e ∷ l) = (x ≡ e) ⊎ In x l

-- No two nodes of the list have the same address.
abbrev pub Distinct : List NameEntry → Type 0
Distinct [] = Unit
Distinct (e ∷ l) = ((x : NameEntry) → In x l → x.addr ≢ e.addr) × Distinct l

pub In-unlink :
    (x : NameEntry) (a : ℕ) (l : List NameEntry) → In x (unlink a l) → In x l × (x.addr ≢ a)
unfolding unlink
In-unlink x a [] h = absurd h
In-unlink x a (e ∷ l) h = ground (arith, In-unlink x a l)

pub unlink-In :
    (x : NameEntry) (a : ℕ) (l : List NameEntry) → In x l → x.addr ≢ a → In x (unlink a l)
unfolding unlink
unlink-In x a [] h n = absurd h
unlink-In x a (e ∷ l) (inl h) n = ground arith
unlink-In x a (e ∷ l) (inr h) n = ground (arith, unlink-In x a l h n)

pub unlink-Distinct : (a : ℕ) (l : List NameEntry) → Distinct l → Distinct (unlink a l)
unfolding unlink
unlink-Distinct a [] d = tt
unlink-Distinct a (e ∷ l) d = elim (Bool-cases (e.addr == a)) [
  | inl y ↦ rw y (unlink-Distinct a l d.1)
  | inr n ↦ rw n (λ x m. d.0 x (In-unlink x a l m).0, unlink-Distinct a l d.1)
]

unlink_absent :
    (a : ℕ) (l : List NameEntry) → ((x : NameEntry) → In x l → x.addr ≢ a) → unlink a l ≡ l
unfolding unlink
unlink_absent a [] h = refl
unlink_absent a (e ∷ l) h = ground (arith, h e (inl refl), unlink_absent a l (λ x m. h x (inr m)))

pub unlink_here :
    (e : NameEntry) (l : List NameEntry) → Distinct (e ∷ l) → unlink e.addr (e ∷ l) ≡ l
unfolding unlink
unlink_here e l d = rw (eq→== e.addr e.addr refl) (unlink_absent e.addr l d.0)

pub unlink_behind :
    (e : NameEntry) (a : ℕ) (l : List NameEntry) → a ≢ e.addr → unlink a (e ∷ l) ≡ e ∷ unlink a l
unfolding unlink
unlink_behind e a l n = ground arith

pub length-unlink :
    (x : NameEntry) (l : List NameEntry)
    → Distinct l
    → In x l
    → suc (length (unlink x.addr l)) ≡ length l
length-unlink x [] d m = absurd m
length-unlink x (e ∷ l) d (inl h) = rw (h, unlink_here e l d)
length-unlink x (e ∷ l) d (inr h) =
    rw (unlink_behind e x.addr l (d.0 x h)) (ap suc (length-unlink x l d.1 h))

-- Nodes at one address are one node.
pub same_addr :
    (x y : NameEntry) (l : List NameEntry) → Distinct l → In x l → In y l → x.addr ≡ y.addr → x ≡ y
same_addr x y [] d h k e = absurd h
same_addr x y (z ∷ l) d (inl h) (inl k) e = h ∙ sym k
same_addr x y (z ∷ l) d (inl h) (inr k) e =
    absurd (d.0 y k (sym e ∙ ap (λ (t : NameEntry). t.addr) h))
same_addr x y (z ∷ l) d (inr h) (inl k) e = absurd (d.0 x h (e ∙ ap (λ (t : NameEntry). t.addr) k))
same_addr x y (z ∷ l) d (inr h) (inr k) e = same_addr x y l d.1 h k e

pub find-some :
    (p : NameEntry → Bool) (x : NameEntry) (l : List NameEntry)
    → find p l ≡ some x
    → In x l × (p x ≡ true)
unfolding find
find-some p x [] h = absurd (ground arith)
find-some p x (e ∷ l) h = elim (Bool-cases (p e)) [
  | inl y ↦ let q : e ≡ x = ground arith in (inl (sym q), rw (← q) y)
  | inr n ↦ let r = find-some p x l (ground arith) in (inr r.0, r.1)
]

pub find-none :
    (p : NameEntry → Bool) (x : NameEntry) (l : List NameEntry)
    → find p l ≡ none
    → In x l
    → p x ≡ false
unfolding find
find-none p x [] h m = absurd m
find-none p x (e ∷ l) h (inl m) = elim (Bool-cases (p e)) [
  | inl y ↦ absurd (ground arith)
  | inr n ↦ rw m n
]
find-none p x (e ∷ l) h (inr m) = ground (arith, find-none p x l)

-- The node that the search finds is the only one that passes the test.
pub find_only :
    (p : NameEntry → Bool) (x : NameEntry) (l : List NameEntry)
    → In x l
    → p x ≡ true
    → ((y : NameEntry) → In y l → p y ≡ true → y ≡ x)
    → find p l ≡ some x
unfolding find
find_only p x [] m h only = absurd m
find_only p x (e ∷ l) m h only = elim (Bool-cases (p e)) [
  | inl y ↦ rw y (ap some (only e (inl refl) y))
  | inr n ↦ rw n (elim m [
    | inl q ↦ absurd (ground (arith, ap p q))
    | inr m' ↦ find_only p x l m' h (λ z k. only z (inr k))
  ])
]

pub find_absent :
    (p : NameEntry → Bool) (l : List NameEntry)
    → ((x : NameEntry) → In x l → p x ≡ false)
    → find p l ≡ none
unfolding find
find_absent p [] h = refl
find_absent p (e ∷ l) h = rw (h e (inl refl)) (find_absent p l (λ x m. h x (inr m)))

pub In-take : (x : NameEntry) (n : ℕ) (l : List NameEntry) → In x (take n l) → In x l
In-take x zero l h = absurd h
In-take x (suc n) [] h = absurd h
In-take x (suc n) (e ∷ l) (inl h) = inl h
In-take x (suc n) (e ∷ l) (inr h) = inr (In-take x n l h)

pub In-drop : (x : NameEntry) (n : ℕ) (l : List NameEntry) → In x (drop n l) → In x l
In-drop x zero l h = h
In-drop x (suc n) [] h = absurd h
In-drop x (suc n) (e ∷ l) h = inr (In-drop x n l h)

-- The last node, and what its removal leaves.
pub last-none : (l : List NameEntry) → last l ≡ none → l ≡ []
unfolding last
last-none [] h = refl
last-none (e ∷ []) h = absurd (ground arith)
last-none (e ∷ f ∷ l) h = absurd (ground (arith, last-none (f ∷ l)))

pub In-last : (x : NameEntry) (l : List NameEntry) → last l ≡ some x → In x l
unfolding last
In-last x [] h = absurd (ground arith)
In-last x (e ∷ []) h = inl (ground arith)
In-last x (e ∷ f ∷ l) h = inr (In-last x (f ∷ l) h)

pub unlink-last :
    (x : NameEntry) (l : List NameEntry)
    → Distinct l
    → last l ≡ some x
    → unlink x.addr l ++ x ∷ [] ≡ l
unfolding last
unlink-last x [] d h = absurd (ground arith)
unlink-last x (e ∷ []) d h = let q : e ≡ x = ground arith in rw (← q, unlink_here e [] d)
unlink-last x (e ∷ f ∷ l) d h =
    rw (unlink_behind e x.addr (f ∷ l) (d.0 x (In-last x (f ∷ l) h)))
      (ap (◌∷◌ e) (unlink-last x (f ∷ l) d.1 h))

take-append_left {ℓ} :
    {A : Type ℓ} (n : ℕ) (xs ys : List A) → n ≤ length xs → take n (xs ++ ys) ≡ take n xs
take-append_left zero xs ys h = refl
take-append_left (suc n) [] ys h = absurd (omega arith)
take-append_left (suc n) (x ∷ xs) ys h = ap (◌∷◌ x) (take-append_left n xs ys (omega arith))

drop-append_left {ℓ} :
    {A : Type ℓ} (n : ℕ) (xs ys : List A) → n ≤ length xs → drop n (xs ++ ys) ≡ drop n xs ++ ys
drop-append_left zero xs ys h = refl
drop-append_left (suc n) [] ys h = absurd (omega arith)
drop-append_left (suc n) (x ∷ xs) ys h = drop-append_left n xs ys (omega arith)

-- A list cut behind `m` nodes, with its last one and without.
pub cut_last :
    (m : ℕ) (x : NameEntry) (l l' rest : List NameEntry)
    → l' ++ x ∷ [] ≡ l
    → m < length l
    → (take m l' ≡ take m l) × (drop m l' ++ x ∷ rest ≡ drop m l ++ rest)
cut_last m x l l' rest q lt = rw (← q) (sym (take-append_left m l' (x ∷ []) fits), same)
  where
    fits : m ≤ length l'
    fits = omega (arith, ap length q, length-append l' (x ∷ []))

    same : drop m l' ++ x ∷ rest ≡ drop m (l' ++ x ∷ []) ++ rest
    same = rw (drop-append_left m l' (x ∷ []) fits) (simp append_assoc)

pub In-push :
    (x e : NameEntry) (i j : ℕ) (b : Buckets)
    → In x (push i e b j)
    → ((x ≡ e) × (i ≡ j)) ⊎ In x (b j)
unfolding push
In-push x e i j b m = elim (Bool-cases (i == j)) [
  | inl y ↦ elim (rw y at m) [ inl q ↦ inl (q, ground arith) | inr r ↦ inr r ]
  | inr n ↦ inr (rw n at m)
]

pub push_self : (e : NameEntry) (i : ℕ) (b : Buckets) → In e (push i e b i)
unfolding push
push_self e i b = rw (eq→== i i refl) (inl refl)

pub push_keeps : (x e : NameEntry) (i j : ℕ) (b : Buckets) → In x (b j) → In x (push i e b j)
unfolding push
push_keeps x e i j b m = elim (Bool-cases (i == j)) [ inl y ↦ rw y (inr m) | inr n ↦ rw n m ]

pub push-Distinct :
    (e : NameEntry) (i j : ℕ) (b : Buckets)
    → ((x : NameEntry) → In x (b j) → x.addr ≢ e.addr)
    → Distinct (b j)
    → Distinct (push i e b j)
unfolding push
push-Distinct e i j b fresh d = elim (Bool-cases (i == j)) [
  | inl y ↦ rw y (fresh, d)
  | inr n ↦ rw n d
]
