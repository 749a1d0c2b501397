-- ===== src/Concat/Shared/Comparing.antt =====
-- The comparisons of `sweep`.
use iu.Prelude.{
  ℕ, ◌<◌, length, ◌≡◌, refl, sym, ap, subst, ◌∙◌, ◌≢◌, Bool, true, false, Option, some, List, [],
  ◌∷◌, ◌++◌, arith, append_assoc, Bool-cases, inl, inr,
}
use iu.Concat.Shared.{Producer, compares, unlinks, moves, Consumer, Shared, home, same, produce}
use iu.Concat.Shared.Row.{Entry, front, end_of, Linked, Linked-end_of}
use iu.Concat.Shared.Invariant.{weight, tail, Two, Inv}
use iu.Concat.Shared.Producing.{same_refl, Produced, goes-Produced}

module _ {T : Type 0} (s : Shared T) (c : Consumer T) where
  ne_same : (a b : Option ℕ) → same a b ≡ false → a ≢ b
  ne_same a b h e = let k : same a b ≡ true = subst (λ b. same a b ≡ true) e (same_refl a) in cc

  -- A pointer that was behind the consumer is to the cell of a node in the row.
  pub snapshot_cell :
      (a : ℕ) (old new seen more : List (Entry T))
      → old ≡ seen ++ more
      → a ≡ end_of home seen
      → Linked s.cell s.item home (old ++ new)
      → s.cell a ≡ some (front (more ++ new))
  snapshot_cell a old new seen more e h l =
      let k : Linked s.cell s.item home (seen ++ (more ++ new)) =
        subst (Linked s.cell s.item home) (ap (λ l. l ++ new) e ∙ append_assoc seen more new) l in
      ap s.cell h ∙ Linked-end_of s.cell s.item home seen (more ++ new) k

  some_left : (head : Bool) (iter : Option ℕ) (a n : ℕ) → 0 < weight (compares head iter a) n
  some_left true iter a n = omega arith
  some_left false iter a n = omega arith

  compares_equal :
      (head : Bool) (iter : Option ℕ) (a : ℕ) (v : Option ℕ) (old new : List (Entry T))
      → let p = compares head iter a in
        Inv s p c old new
        → s.cell a ≡ some v
        → same v iter ≡ true
        → Produced s p c old new (produce p s)
  unfolding produce
  compares_equal head iter a v old new inv e k =
      goes-Produced s c old new (compares head iter a) Producer.idle
        (produce (compares head iter a) s) inv refl refl (refl, refl) inv.producing.0
        (some_left head iter a (length (old ++ new))) (rw (e, produce) (rw k refl))

  -- The test before the loop fails only if the consumer has left a node behind.
  compares_head :
      (iter : Option ℕ) (a : ℕ) (old new : List (Entry T))
      → let p = compares true iter a in Inv s p c old new → Produced s p c old new (produce p s)
  unfolding produce
  compares_head iter a old new inv =
      let (seen, more, e, h) = inv.producing.2 in
      let cell = snapshot_cell a old new seen more e h inv.linked in
      elim (Bool-cases (same (front (more ++ new)) iter)) [
        | inl k ↦ compares_equal true iter a (front (more ++ new)) old new inv cell k
        | inr k ↦
            goes-Produced s c old new (compares true iter a) (moves iter)
              (produce (compares true iter a) s) inv refl refl (refl, refl)
              (
                inv.producing.0,
                inv.producing.1,
                λ d. ne_same (front (more ++ new)) iter k (
                    ap (λ l. front (l ++ new)) (no_more seen more (sym e ∙ d) ∙ sym d)
                    ∙ sym inv.producing.1),
              )
              (omega arith) (rw (cell, produce) (rw k refl))
      ]
    where
      no_more : (xs ys : List (Entry T)) → xs ++ ys ≡ [] → ys ≡ []
      no_more [] ys d = d
      no_more (x ∷ xs) ys d = absurd (cc)

  -- The test in the loop fails only if there is a node behind the first one that the consumer has
  -- left behind as well.
  compares_loop :
      (iter : Option ℕ) (a : ℕ) (old new : List (Entry T))
      → let p = compares false iter a in Inv s p c old new → Produced s p c old new (produce p s)
  unfolding produce
  compares_loop iter a old new inv =
      let (f, seen, more, e, h) = inv.producing.2 in
      let cell = snapshot_cell a old new (f ∷ seen) more e h inv.linked in
      elim (Bool-cases (same (front (more ++ new)) iter)) [
        | inl k ↦ compares_equal false iter a (front (more ++ new)) old new inv cell k
        | inr k ↦
            goes-Produced s c old new (compares false iter a) (unlinks iter)
              (produce (compares false iter a) s) inv refl refl (refl, refl)
              (
                inv.producing.0,
                inv.producing.1.0,
                two f seen more e (λ d. ne_same (front (more ++ new)) iter k (
                    ap (λ l. front (l ++ new)) d
                    ∙ ap (λ l. front (tail (l ++ new))) (sym e)
                    ∙ sym inv.producing.1.0)),
              )
              (omega arith) (rw (cell, produce) (rw k refl))
      ]
    where
      two :
          (f : Entry T) (xs ys : List (Entry T))
          → old ≡ f ∷ (xs ++ ys)
          → (ys ≡ xs ++ ys → ⊥)
          → Two old
      two f [] ys d n = absurd (n refl)
      two f (x ∷ xs) ys d n = (f, x, xs ++ ys, d)

  pub compares_lem :
      (head : Bool) (iter : Option ℕ) (a : ℕ) (old new : List (Entry T))
      → let p = compares head iter a in Inv s p c old new → Produced s p c old new (produce p s)
  compares_lem true iter a old new inv = compares_head iter a old new inv
  compares_lem false iter a old new inv = compares_loop iter a old new inv
