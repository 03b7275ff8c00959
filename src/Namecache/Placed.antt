-- ===== src/Namecache/Placed.antt =====
-- How the nodes of `lru` are spread over the chains of one kind, also half-way through an expansion.
use polarfs.Namecache.{
  NameEntry, Buckets, Head, old, new, bucket_at, push_old, push_new, unlink, detach,
}
use polarfs.Namecache.Members.{
  unlink-Distinct, Distinct, push-Distinct, push_keeps, push_self, In-push, In, In-unlink,
  unlink-In,
}
use Prim.Native.Nat.{bit_and}
use polarfs.Prelude.{
  ap, ℕ, Bool, true, false, not, ◌||◌, List, ◌∷◌, ◌≡◌, ◌≢◌, inl, inr, leb, if◌then◌else◌, arith,
  Bool-cases,
}

-- Whether the nodes of bucket `i` are still in the old table, and the bucket that a hash belongs in.
abbrev pub stays : Bool → ℕ → ℕ → Bool
stays moving k i = not moving || leb k i

abbrev pub head_of : Bool → ℕ → ℕ → ℕ → ℕ → Head
head_of moving k mask mask' hash =
    if stays moving k (bit_and hash mask) then old (bit_and hash mask) else new (bit_and hash mask')

module _ (h : NameEntry → ℕ) where
  abbrev pub slot : ℕ → NameEntry → ℕ
  slot mask x = bit_and (h x) mask

  -- `b` is the table with `mask`, and while `moving` its first `k` buckets have gone to `b'`.
  pub record Placed (moving : Bool) (k mask mask' : ℕ) (b b' : Buckets) (lru : List NameEntry)
      : Type 0 where
    pub from_old :
        (x : NameEntry) (i : ℕ)
        → In x (b i)
        → In x lru × (slot mask x ≡ i) × (stays moving k i ≡ true)
    pub to_old :
        (x : NameEntry) → In x lru → stays moving k (slot mask x) ≡ true → In x (b (slot mask x))
    pub from_new :
        (x : NameEntry) (j : ℕ)
        → moving ≡ true
        → In x (b' j)
        → In x lru × (slot mask' x ≡ j) × (stays moving k (slot mask x) ≡ false)
    pub to_new :
        (x : NameEntry) → In x lru → stays moving k (slot mask x) ≡ false → In x (b' (slot mask' x))
    pub once : (i : ℕ) → Distinct (b i)
    pub once' : moving ≡ true → (j : ℕ) → Distinct (b' j)

  module _ (moving : Bool) (k mask mask' : ℕ) (b b' : Buckets) (lru : List NameEntry) where
    -- The chain of a hash holds nodes of `lru`, and all of that hash.
    pub chain-In :
        Placed moving k mask mask' b b' lru
        → (hash : ℕ) (x : NameEntry) → In x (bucket_at (head_of moving k mask mask' hash) b b')
        → In x lru
    unfolding bucket_at
    chain-In p hash x m = elim (Bool-cases (stays moving k (bit_and hash mask))) [
      | inl y ↦ (p.from_old x (bit_and hash mask) (rw y at m)).0
      | inr n ↦ (p.from_new x (bit_and hash mask') (ground arith) (rw n at m)).0
    ]

    pub In-chain :
        Placed moving k mask mask' b b' lru
        → (x : NameEntry) → In x lru
        → In x (bucket_at (head_of moving k mask mask' (h x)) b b')
    unfolding bucket_at
    In-chain p x m = elim (Bool-cases (stays moving k (slot mask x))) [
      | inl y ↦ rw y (p.to_old x m y)
      | inr n ↦ rw n (p.to_new x m n)
    ]

    -- The nodes stay the same ones.
    pub Placed-same :
        (lru' : List NameEntry)
        → ((x : NameEntry) → In x lru → In x lru')
        → ((x : NameEntry) → In x lru' → In x lru)
        → Placed moving k mask mask' b b' lru
        → Placed moving k mask mask' b b' lru'
    Placed-same lru' to from p = record {
      from_old = λ x i m. let r = p.from_old x i m in (to x r.0, r.1, r.2);
      to_old = λ x m. p.to_old x (from x m);
      from_new = λ x j y m. let r = p.from_new x j y m in (to x r.0, r.1, r.2);
      to_new = λ x m. p.to_new x (from x m);
      once = p.once;
      once' = p.once';
    }

    pub Placed-unlink :
        (a : ℕ)
        → Placed moving k mask mask' b b' lru
        → Placed moving k mask mask' (detach a b) (detach a b') (unlink a lru)
    unfolding detach
    Placed-unlink a p = record {
      from_old = λ x i m.
          let (m', n) = In-unlink x a (b i) m in
          let r = p.from_old x i m' in (unlink-In x a lru r.0 n, r.1, r.2);
      to_old = λ x m s.
          let (m', n) = In-unlink x a lru m in unlink-In x a (b (slot mask x)) (p.to_old x m' s) n;
      from_new = λ x j y m.
          let (m', n) = In-unlink x a (b' j) m in
          let r = p.from_new x j y m' in (unlink-In x a lru r.0 n, r.1, r.2);
      to_new = λ x m s.
          let (m', n) = In-unlink x a lru m in
          unlink-In x a (b' (slot mask' x)) (p.to_new x m' s) n;
      once = λ i. unlink-Distinct a (b i) (p.once i);
      once' = λ y j. unlink-Distinct a (b' j) (p.once' y j);
    }

    pub Placed-push :
        (e : NameEntry)
        → ((x : NameEntry) → In x lru → x.addr ≢ e.addr)
        → Placed moving k mask mask' b b' lru
        → Placed moving k mask mask'
            (push_old (head_of moving k mask mask' (h e)) e b)
            (push_new (head_of moving k mask mask' (h e)) e b')
            (e ∷ lru)
    unfolding push_old push_new
    Placed-push e fresh p = elim (Bool-cases (stays moving k (slot mask e))) [
      | inl y ↦ rw y (record {
        from_old = λ x i m. elim (In-push x e (slot mask e) i b m) [
          | inl q ↦ (inl q.0, rw q.0 q.1, rw (← q.1) y)
          | inr m' ↦ let r = p.from_old x i m' in (inr r.0, r.1, r.2)
        ];
        to_old = λ x m s. elim m [
          | inl q ↦ rw q (push_self e (slot mask e) b)
          | inr m' ↦ push_keeps x e (slot mask e) (slot mask x) b (p.to_old x m' s)
        ];
        from_new = λ x j t m. let r = p.from_new x j t m in (inr r.0, r.1, r.2);
        to_new = λ x m s. elim m [
          | inl q ↦ absurd (ground (arith, ap (slot mask) q))
          | inr m' ↦ p.to_new x m' s
        ];
        once =
            λ i. push-Distinct e (slot mask e) i b (λ x m. fresh x (p.from_old x i m).0) (p.once i);
        once' = p.once';
      })
      | inr n ↦ rw n (record {
        from_old = λ x i m. let r = p.from_old x i m in (inr r.0, r.1, r.2);
        to_old = λ x m s. elim m [
          | inl q ↦ absurd (ground (arith, ap (slot mask) q))
          | inr m' ↦ p.to_old x m' s
        ];
        from_new = λ x j t m. elim (In-push x e (slot mask' e) j b' m) [
          | inl q ↦ (inl q.0, rw q.0 q.1, rw q.0 n)
          | inr m' ↦ let r = p.from_new x j t m' in (inr r.0, r.1, r.2)
        ];
        to_new = λ x m s. elim m [
          | inl q ↦ rw q (push_self e (slot mask' e) b')
          | inr m' ↦ push_keeps x e (slot mask' e) (slot mask' x) b' (p.to_new x m' s)
        ];
        once = p.once;
        once' = λ t j.
            push-Distinct e (slot mask' e) j b' (λ x m. fresh x (p.from_new x j t m).0)
              (p.once' t j);
      })
    ]
