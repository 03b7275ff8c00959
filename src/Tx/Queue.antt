-- ===== src/Tx/Queue.antt =====
-- The list of a transaction's operations, as a set.
use mathlib.Core.Path.{subst}
use polarfs.Prelude.{
  ==_iff, ℕ, ◌+◌, ◌≡◌, ◌≢◌, sym, ◌∙◌, ◌⊎◌, inl, inr, List, [], ◌∷◌, ◌++◌, arith, ◌==◌, length,
  Bool-cases,
}
use polarfs.Tx.Op.{remove}

or_right : {A B C : Type 0} → (B → C) → A ⊎ B → A ⊎ C
or_right f (inl a) = inl a
or_right f (inr b) = inr (f b)

abbrev pub Mem : ℕ → List ℕ → Type 0
Mem i [] = ⊥
Mem i (x ∷ xs) = (i ≡ x) ⊎ Mem i xs

abbrev pub Distinct : List ℕ → Type 0
Distinct [] = Unit
Distinct (x ∷ xs) = (¬ Mem x xs) × Distinct xs

pub Mem-append : (i : ℕ) (xs ys : List ℕ) → Mem i xs ⊎ Mem i ys → Mem i (xs ++ ys)
Mem-append i [] ys (inl m) = elim m [ ]
Mem-append i [] ys (inr m) = m
Mem-append i (x ∷ xs) ys (inl (inl e)) = inl e
Mem-append i (x ∷ xs) ys (inl (inr m)) = inr (Mem-append i xs ys (inl m))
Mem-append i (x ∷ xs) ys (inr m) = inr (Mem-append i xs ys (inr m))

pub Mem_of-append : (i : ℕ) (xs ys : List ℕ) → Mem i (xs ++ ys) → Mem i xs ⊎ Mem i ys
Mem_of-append i [] ys m = inr m
Mem_of-append i (x ∷ xs) ys (inl e) = inl (inl e)
Mem_of-append i (x ∷ xs) ys (inr m) = elim (Mem_of-append i xs ys m) [
  | inl n ↦ inl (inr n)
  | inr n ↦ inr n
]

pub Distinct-append : (xs : List ℕ) (y : ℕ) → Distinct xs → (¬ Mem y xs) → Distinct (xs ++ y ∷ [])
Distinct-append [] y d n = (λ m. m, tt)
Distinct-append (x ∷ xs) y (a, d) n = (
  λ m. elim (Mem_of-append x xs (y ∷ []) m) [
    | inl k ↦ a k
    | inr k ↦ elim k [ inl e ↦ n (inl (sym e)) | inr b ↦ b ]
  ],
  Distinct-append xs y d (λ m. n (inr m)),
)

pub Mem_of-remove : (i : ℕ) (xs : List ℕ) (id : ℕ) → Mem i (remove xs id) → Mem i xs
Mem_of-remove i [] id m = m
Mem_of-remove i (x ∷ xs) id m = elim (Bool-cases (x == id)) [
  | inl e ↦ inr (rw e at m)
  | inr e ↦ or_right (λ k. Mem_of-remove i xs id k) (rw e at m)
]

pub Mem-remove : (i : ℕ) (xs : List ℕ) (id : ℕ) → i ≢ id → Mem i xs → Mem i (remove xs id)
Mem-remove i [] id n m = m
Mem-remove i (x ∷ xs) id n (inl e) = elim (Bool-cases (x == id)) [
  | inl h ↦ absurd (n (e ∙ (==_iff x id).0 h))
  | inr h ↦ rw h (inl e)
]
Mem-remove i (x ∷ xs) id n (inr m) = elim (Bool-cases (x == id)) [
  | inl h ↦ rw h m
  | inr h ↦ rw h (inr (Mem-remove i xs id n m))
]

pub Distinct-remove : (xs : List ℕ) (id : ℕ) → Distinct xs → Distinct (remove xs id)
Distinct-remove [] id d = d
Distinct-remove (x ∷ xs) id (a, d) = elim (Bool-cases (x == id)) [
  | inl h ↦ rw h d
  | inr h ↦ rw h (λ m. a (Mem_of-remove x xs id m), Distinct-remove xs id d)
]

pub not_Mem-remove : (xs : List ℕ) (id : ℕ) → Distinct xs → ¬ Mem id (remove xs id)
not_Mem-remove [] id d m = m
not_Mem-remove (x ∷ xs) id (a, d) m = elim (Bool-cases (x == id)) [
  | inl h ↦ a (subst (λ y. Mem y xs) (sym ((==_iff x id).0 h)) (rw h at m))
  | inr h ↦ elim (rw h at m) as (λ k. ⊥) [ inl e ↦ ground arith | inr k ↦ not_Mem-remove xs id d k ]
]

pub length-remove : (xs : List ℕ) (id : ℕ) → Mem id xs → length (remove xs id) + 1 ≡ length xs
length-remove [] id m = absurd m
length-remove (x ∷ xs) id (inl e) = ground arith
length-remove (x ∷ xs) id (inr m) = elim (Bool-cases (x == id)) [
  | inl h ↦ rw h (omega arith)
  | inr h ↦ rw h (omega (arith, length-remove xs id m))
]
