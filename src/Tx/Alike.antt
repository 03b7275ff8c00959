-- ===== src/Tx/Alike.antt =====
-- Operations that differ only in what the invariant does not read.
use mathlib.Core.Path.{subst, subst₂}
use polarfs.Prelude.{ℕ, ◌≡◌, ◌≢◌, sym, ap, ◌∙◌, ◌⊎◌, inl, inr, ◌==◌, Bool-cases, ==_iff, eq→==}
use polarfs.Tx.Op.{Op, put}
use polarfs.Tx.Wf.{Alike, Alike-refl, true-ne-false}

-- `put` by cases.
pub put-cases :
    {A : Type 0} (f : ℕ → A) (i : ℕ) (a : A) (j : ℕ)
    → ((j ≡ i) × (put f i a j ≡ a)) ⊎ ((j ≢ i) × (put f i a j ≡ f j))
put-cases f i a j = elim (Bool-cases (j == i)) [
  | inl e ↦ inl ((==_iff j i).0 e, rw e)
  | inr e ↦ inr (λ k. true-ne-false (sym (eq→== j i k) ∙ e), rw e)
]

pub put-Alike :
    (ops : ℕ → Op) (i : ℕ) (o : Op) → Alike (ops i) o → (j : ℕ) → Alike (ops j) (put ops i o j)
put-Alike ops i o alike j = elim (put-cases ops i o j) [
  | inl (at_i, is) ↦ subst₂ Alike (ap ops (sym at_i)) (sym is) alike
  | inr (ne, same) ↦ subst (Alike (ops j)) (sym same) (Alike-refl (ops j))
]

pub put-field :
    {B : Type 0} (field : Op → B) (ops : ℕ → Op) (i : ℕ) (o : Op)
    → field o ≡ field (ops i)
    → (j : ℕ) → field (put ops i o j) ≡ field (ops j)
put-field field ops i o e j = elim (put-cases ops i o j) [
  | inl (at_i, is) ↦ ap field is ∙ e ∙ ap (λ k. field (ops k)) (sym at_i)
  | inr (ne, same) ↦ ap field same
]

pub Alike-trans : (o o' o'' : Op) → Alike o o' → Alike o' o'' → Alike o o''
Alike-trans o o' o'' a b = record {
  same_address = b.same_address ∙ a.same_address;
  same_head = b.same_head ∙ a.same_head;
  same_inited = b.same_inited ∙ a.same_inited;
}

pub Alike-sym : (o o' : Op) → Alike o o' → Alike o' o
Alike-sym o o' a = record {
  same_address = sym a.same_address;
  same_head = sym a.same_head;
  same_inited = sym a.same_inited;
}

-- Changing one operation and then another.
module _ (ops : ℕ → Op) (i j : ℕ) (o o' : Op) where
  pub put-put-Alike :
      Alike (ops i) o → Alike (ops j) o' → (k : ℕ) → Alike (ops k) (put (put ops i o) j o' k)
  put-put-Alike a a' k =
      Alike-trans (ops k) (put ops i o k) (put (put ops i o) j o' k) (put-Alike ops i o a k) (
        put-Alike (put ops i o) j o'
          (Alike-trans (put ops i o j) (ops j) o'
            (Alike-sym (ops j) (put ops i o j) (put-Alike ops i o a j)) a')
          k)

  pub put-put-field :
      {B : Type 0} (field : Op → B)
      → field o ≡ field (ops i)
      → field o' ≡ field (ops j)
      → (k : ℕ) → field (put (put ops i o) j o' k) ≡ field (ops k)
  put-put-field field e e' k =
      put-field field (put ops i o) j o' (e' ∙ sym (put-field field ops i o e j)) k
      ∙ put-field field ops i o e k
