-- ===== src/Namecache/Spread.antt =====
-- The chains of one kind through an expansion: its start, a bucket moved, and its end.
use polarfs.Namecache.{NameEntry, Buckets, push}
use polarfs.Namecache.Calls.{empty_buckets}
use polarfs.Namecache.Grow.{move_chain, drained, all_empty, is_empty}
use polarfs.Namecache.Members.{
  push-Distinct, same_addr, Distinct, In, In-push, push_self, push_keeps,
}
use polarfs.Namecache.Placed.{Placed, slot}
use polarfs.Prelude.{
  ◌∙◌, sym, ◌≢◌, ℕ, zero, suc, ◌+◌, ◌≤◌, ◌<◌, Bool, true, false, List, [], ◌∷◌, ◌≡◌, ◌⊎◌, inl, inr,
  ◌==◌, arith, Bool-cases, refl, ap,
}

module _ (h : NameEntry → ℕ) where
  In-move_chain :
      (x : NameEntry) (mask j : ℕ) (l : List NameEntry) (b : Buckets)
      → In x (move_chain h mask l b j)
      → (In x l × (slot h mask x ≡ j)) ⊎ In x (b j)
  unfolding move_chain
  In-move_chain x mask j [] b m = inr m
  In-move_chain x mask j (e ∷ l) b m =
      elim (In-move_chain x mask j l (push (slot h mask e) e b) m) [
        | inl q ↦ inl (inr q.0, q.1)
        | inr m' ↦ elim (In-push x e (slot h mask e) j b m') [
          | inl q ↦ inl (inl q.0, rw q.0 q.1)
          | inr r ↦ inr r
        ]
      ]

  move_chain_keeps :
      (x : NameEntry) (mask j : ℕ) (l : List NameEntry) (b : Buckets)
      → In x (b j)
      → In x (move_chain h mask l b j)
  unfolding move_chain
  move_chain_keeps x mask j [] b m = m
  move_chain_keeps x mask j (e ∷ l) b m =
      move_chain_keeps x mask j l (push (slot h mask e) e b) (push_keeps x e (slot h mask e) j b m)

  move_chain_moves :
      (x : NameEntry) (mask : ℕ) (l : List NameEntry) (b : Buckets)
      → In x l
      → In x (move_chain h mask l b (slot h mask x))
  unfolding move_chain
  move_chain_moves x mask [] b m = absurd m
  move_chain_moves x mask (e ∷ l) b (inl q) =
      move_chain_keeps x mask (slot h mask x) l (push (slot h mask e) e b)
        (rw q (push_self e (slot h mask e) b))
  move_chain_moves x mask (e ∷ l) b (inr m) = move_chain_moves x mask l (push (slot h mask e) e b) m

  move_chain-Distinct :
      (mask : ℕ) (l : List NameEntry) (b : Buckets)
      → Distinct l
      → ((j : ℕ) → Distinct (b j))
      → ((x y : NameEntry) (j : ℕ) → In x l → In y (b j) → y.addr ≢ x.addr)
      → (j : ℕ) → Distinct (move_chain h mask l b j)
  unfolding move_chain
  move_chain-Distinct mask [] b d once apart j = once j
  move_chain-Distinct mask (e ∷ l) b d once apart j =
      move_chain-Distinct mask l (push (slot h mask e) e b) d.1
        (λ i. push-Distinct e (slot h mask e) i b (λ x m. apart e x i (inl refl) m) (once i))
        (λ x y i mx my. elim (In-push y e (slot h mask e) i b my) [
          | inl q ↦ λ a. d.0 x mx (sym a ∙ ap (λ (t : NameEntry). t.addr) q.0)
          | inr my' ↦ apart x y i (inr mx) my'
        ])
        j

  module _ (mask : ℕ) (b : Buckets) (lru : List NameEntry) where
    pub Placed-moving :
        (m m' : Bool) (k mask' : ℕ) (b' : Buckets)
        → m ≡ m'
        → Placed h m k mask mask' b b' lru
        → Placed h m' k mask mask' b b' lru
    Placed-moving m m' k mask' b' e p = rw e at p

    pub Placed-start :
        (k mask' mask'' : ℕ) (b' : Buckets)
        → Placed h false k mask mask' b b' lru
        → Placed h true 0 mask mask'' b empty_buckets lru
    Placed-start k mask' mask'' b' p = record {
      from_old = λ x i m. let r = p.from_old x i m in (r.0, r.1, ground arith);
      to_old = λ x m s. p.to_old x m refl;
      from_new = λ x j y m. absurd m;
      to_new = λ x m s. absurd (ground arith);
      once = p.once;
      once' = λ y j. tt;
    }

    -- An expansion that has moved nothing can be given up.
    pub Placed-cancel :
        (mask' mask'' k : ℕ) (b' b'' : Buckets)
        → Placed h true 0 mask mask' b b' lru
        → Placed h false k mask mask'' b b'' lru
    Placed-cancel mask' mask'' k b' b'' p = record {
      from_old = λ x i m. let r = p.from_old x i m in (r.0, r.1, refl);
      to_old = λ x m s. p.to_old x m (ground arith);
      from_new = λ x j y m. absurd (ground arith);
      to_new = λ x m s. absurd (ground arith);
      once = p.once;
      once' = λ y j. absurd (ground arith);
    }

    pub Placed-move :
        (k mask' : ℕ) (b' : Buckets)
        → Distinct lru
        → Placed h true k mask mask' b b' lru
        → Placed h true (k + 1) mask mask' (drained k b) (move_chain h mask' (b k) b') lru
    unfolding drained
    Placed-move k mask' b' d p = record {
      from_old = λ x i m. elim (Bool-cases (k == i)) [
        | inl y ↦ absurd (rw y at m)
        | inr n ↦ let r = p.from_old x i (rw n at m) in (r.0, r.1, ground (arith, r.2))
      ];
      to_old = λ x m s. elim (Bool-cases (k == slot h mask x)) [
        | inl y ↦ absurd (ground arith)
        | inr n ↦ rw n (p.to_old x m (ground arith))
      ];
      from_new = λ x j y m. elim (In-move_chain x mask' j (b k) b' m) [
        | inl q ↦ let r = p.from_old x k q.0 in (r.0, q.1, ground (arith, r.1))
        | inr m' ↦ let r = p.from_new x j refl m' in (r.0, r.1, ground (arith, r.2))
      ];
      to_new = λ x m s. elim (Bool-cases (k == slot h mask x)) [
        | inl y ↦
            let q : k ≡ slot h mask x = ground arith in
            move_chain_moves x mask' (b k) b' (rw q (p.to_old x m (ground arith)))
        | inr n ↦ move_chain_keeps x mask' (slot h mask' x) (b k) b' (p.to_new x m (ground arith))
      ];
      once = λ i. elim (Bool-cases (k == i)) [ inl y ↦ rw y tt | inr n ↦ rw n (p.once i) ];
      once' = λ t. move_chain-Distinct mask' (b k) b' (p.once k) (p.once' refl) λ x y j mx my e.
          let r = p.from_old x k mx in
          let q = p.from_new y j refl my in
          absurd (ground (arith, r.1, q.2, ap (slot h mask) (same_addr y x lru d q.0 r.0 e)));
    }

    -- All buckets have been moved.
    pub Placed-finish :
        (sz k k' mask' mask'' : ℕ) (b' b'' : Buckets)
        → ((x : NameEntry) → slot h mask x < sz)
        → sz ≤ k
        → Placed h true k mask mask' b b' lru
        → Placed h false k' mask' mask'' b' b'' lru
    Placed-finish sz k k' mask' mask'' b' b'' below all p = record {
      from_old = λ x i m. let r = p.from_new x i refl m in (r.0, r.1, refl);
      to_old = λ x m s. p.to_new x m (let q = below x in ground arith);
      from_new = λ x j y m. absurd (ground arith);
      to_new = λ x m s. absurd (ground arith);
      once = p.once' refl;
      once' = λ y j. absurd (ground arith);
    }

    pub old_empty :
        (k mask' i : ℕ) (b' : Buckets) (x : NameEntry)
        → i < k
        → Placed h true k mask mask' b b' lru
        → ¬ In x (b i)
    old_empty k mask' i b' x lt p m = let r = p.from_old x i m in absurd (ground (arith, r.2))

    pub new_empty :
        (mask' j : ℕ) (b' : Buckets) (x : NameEntry)
        → Placed h true 0 mask mask' b b' lru
        → ¬ In x (b' j)
    new_empty mask' j b' x p m = let r = p.from_new x j refl m in absurd (ground (arith, r.2))

empty_of : (l : List NameEntry) → ((x : NameEntry) → ¬ In x l) → is_empty l ≡ true
empty_of [] h = refl
empty_of (e ∷ l) h = absurd (h e (inl refl))

pub all_empty_lem :
    (n : ℕ) (b : Buckets) → ((x : NameEntry) (i : ℕ) → i < n → ¬ In x (b i)) → all_empty n b ≡ true
unfolding all_empty
all_empty_lem zero b h = refl
all_empty_lem (suc n) b h = ground (
  arith,
  empty_of (b n) (λ x. h x n (omega arith)),
  all_empty_lem n b (λ x i lt. h x i (omega arith)),
)
