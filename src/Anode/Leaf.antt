-- ===== src/Anode/Leaf.antt =====
-- A leaf's search: it finds an object if there is one, wherever it starts.
use mathlib.Core.Path.{subst}
use native.Mathlib.Decide.{dec_lt, ℕ_discrete}
use polarfs.Prelude.{
  ℕ, zero, suc, ◌+◌, ◌-◌, ◌≤◌, ◌<◌, ◌≡◌, ◌≢◌, sym, ◌∙◌, Bool, true, false, ◌&&◌, none, some, arith,
  ltb, if◌then◌else◌,
}
use polarfs.Anode.{Info, isfree_obj, wrap, leaf_scan}

module _ (accepts : ℕ → ℕ → Bool) (i : Info) where
  -- The object is free and the allocation function takes it.
  abbrev pub offers : ℕ → Bool
  offers v = isfree_obj i v && accepts i.id v

  pub leaf_scan-offers :
      (n nxt v after : ℕ)
      → leaf_scan accepts i n nxt ≡ some (v, after)
      → nxt < i.nall
      → (offers v ≡ true) × (v < i.nall) × (after < i.nall)
  unfolding leaf_scan
  leaf_scan-offers zero nxt v after e h = cc
  leaf_scan-offers (suc n) nxt v after e h =
      ground (arith, leaf_scan-offers n (wrap nxt i.nall) v after)

  -- The guess after `r` rounds.
  abbrev turn : ℕ → ℕ
  turn r = if ltb (i.next + r) i.nall then i.next + r else i.next + r - i.nall

  wrap-turn : (r : ℕ) → i.next < i.nall → r + 1 < i.nall → wrap (turn r) i.nall ≡ turn (r + 1)
  wrap-turn r h k = ground arith

  wrap-turn_last : (r : ℕ) → i.next < i.nall → r + 1 ≡ i.nall → wrap (turn r) i.nall ≡ i.next
  wrap-turn_last r h k = ground arith

  turn-ne : (r : ℕ) → i.next < i.nall → 1 ≤ r → r < i.nall → turn r ≢ i.next
  turn-ne r h p k = ground arith

  leaf_scan-fails :
      (n nxt : ℕ)
      → leaf_scan accepts i (suc n) nxt ≡ none
      → (offers nxt ≡ false)
        × (wrap nxt i.nall ≢ i.next → leaf_scan accepts i n (wrap nxt i.nall) ≡ none)
  unfolding leaf_scan
  leaf_scan-fails n nxt e = (ground arith, λ ne. ground arith)

  leaf_scan-none :
      (n r : ℕ)
      → i.next < i.nall
      → r + n ≡ i.nall
      → leaf_scan accepts i n (turn r) ≡ none
      → (k : ℕ) → r ≤ k
      → k < i.nall
      → offers (turn k) ≡ false
  leaf_scan-none zero r h e s k p q = absurd (omega arith)
  leaf_scan-none (suc n) r h e s k p q = elim (ℕ_discrete r k) [
    | yes same ↦ rw (← same) (leaf_scan-fails n (turn r) s).0
    | no other ↦ leaf_scan-none n (r + 1) h (omega arith) (rest (ground arith)) k (ground arith) q
  ]
    where
      rest : r + 1 < i.nall → leaf_scan accepts i n (turn (r + 1)) ≡ none
      rest more = rw (← wrap-turn r h more) (
          (leaf_scan-fails n (turn r) s).1
            (λ back. turn-ne (r + 1) h (omega arith) more (sym (wrap-turn r h more) ∙ back)))

  -- From a next guess that is one of its objects, a leaf's search ends without an object only when
  -- no object of the leaf is free and accepted.
  pub leaf_scan-none-offers :
      i.next < i.nall
      → leaf_scan accepts i i.nall i.next ≡ none
      → (v : ℕ) → v < i.nall
      → offers v ≡ false
  leaf_scan-none-offers h e v q = elim (dec_lt v i.next) [
    | yes before ↦
        subst (λ u. offers u ≡ false) (around (v + i.nall - i.next) (omega arith))
          (leaf_scan-none i.nall 0 h (omega arith) from (v + i.nall - i.next) (omega arith)
            (omega arith))
    | no on ↦
        subst (λ u. offers u ≡ false) (along (v - i.next) (omega arith))
          (leaf_scan-none i.nall 0 h (omega arith) from (v - i.next) (omega arith) (omega arith))
  ]
    where
      from : leaf_scan accepts i i.nall (turn 0) ≡ none
      from = subst (λ u. leaf_scan accepts i i.nall u ≡ none) (ground arith) e

      around : (k : ℕ) → i.next + k ≡ v + i.nall → turn k ≡ v
      around k s = ground arith

      along : (k : ℕ) → i.next + k ≡ v → turn k ≡ v
      along k s = ground arith
