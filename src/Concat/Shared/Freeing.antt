-- ===== src/Concat/Shared/Freeing.antt =====
-- What the destructor leaves.
use iu.Prelude.{
  update, ℕ, zero, suc, ◌<◌, ◌≡◌, ◌≢◌, refl, ◌∙◌, Option, none, some, List, [], ◌∷◌, ◌++◌, arith,
  length, ◌==◌, Bool-cases, inl, inr,
}
use iu.Concat.Shared.{Load, Producer, Shared, home, delete_nodes, free}
use iu.Concat.Shared.Row.{Entry, front, Linked, Fresh, Distinct, Linked-end_of, Linked-update}
use iu.Concat.Shared.Worlds.{World, start, Reach, Reach-IsCoherent}

module _ {T : Type 0} where
  -- The nodes of a row whose first address is already in hand.
  abbrev Remains : Shared T → List (Entry T) → Type 0
  Remains s [] = Unit {0}
  Remains s (e ∷ es) =
      (s.item e.addr ≡ some e.load) × Linked s.cell s.item e.addr es × Distinct e.addr es

  abbrev Covers : Shared T → List (Entry T) → Type 0
  Covers s es = (a : ℕ) → a ≢ home → Fresh a es → s.cell a ≡ none

  abbrev without : ℕ → Shared T → Shared T
  without p s = record s { cell = update s.cell p none; item = update s.item p none }

  delete_next :
      (fuel p : ℕ) (n : Option ℕ) (x : Load T) (s : Shared T)
      → s.cell p ≡ some n
      → s.item p ≡ some x
      → delete_nodes (suc fuel) (some p) s ≡ delete_nodes fuel n (without p s)
  unfolding delete_nodes free
  delete_next fuel p n x s e h = rw (e, delete_nodes) (rw (h, delete_nodes) (rw (e, free) refl))

  without-Remains :
      (s : Shared T) (e : Entry T) (es : List (Entry T))
      → Remains s (e ∷ es)
      → Remains (without e.addr s) es
  without-Remains s e [] r = tt
  without-Remains s e (x ∷ es) (i, l, d) = (
    ground (arith, l.1, d.0.0),
    Linked-update s.cell s.item x.addr e.addr none none es d.0.0 d.0.1 l.2,
    d.1,
  )

  without-Covers :
      (s : Shared T) (e : Entry T) (es : List (Entry T))
      → Covers s (e ∷ es)
      → Covers (without e.addr s) es
  without-Covers s e es c a h f = elim (Bool-cases (e.addr == a)) [
    | inl k ↦ rw k refl
    | inr k ↦ rw k (c a h ((λ d. ground arith), f))
  ]

  -- The nodes are freed from the front.
  delete_row :
      (fuel : ℕ) (es : List (Entry T)) (s : Shared T)
      → length es < fuel
      → Remains s es
      → Covers s es
      → (s' : Shared T) × (delete_nodes fuel (front es) s ≡ some s')
        × ((a : ℕ) → a ≢ home → s'.cell a ≡ none)
  delete_row zero es s h r c = absurd (omega arith)
  delete_row (suc fuel) [] s h r c = (s, unfold delete_nodes in refl, λ a d. c a d tt)
  delete_row (suc fuel) (e ∷ es) s h r c =
      let (s', k, z) =
        delete_row fuel es (without e.addr s) (omega arith) (without-Remains s e es r)
          (without-Covers s e es c) in
      (
        s',
        delete_next fuel e.addr (front es) e.load s (Linked-end_of s.cell s.item e.addr [] es r.1)
              r.0
            ∙ k,
        z,
      )

  row-Remains :
      (s : Shared T) (a : ℕ) (es : List (Entry T))
      → Linked s.cell s.item a es
      → Distinct a es
      → Remains s es
  row-Remains s a [] l d = tt
  row-Remains s a (e ∷ es) l d = (l.1, l.2, d.1)

  -- In every interleaving, once the producer is in no call, the destructor ends: one round more than
  -- there were items is enough. It accesses no memory that is not allocated, and frees every node
  -- that is left of all that `put` and `give` have allocated.
  pub delete_nodes_frees :
      {w : World T}
      → Reach start w
      → w.shared.producer ≡ Producer.idle
      → (first : Option ℕ) × (s : Shared T) × (w.shared.cell home ≡ some first)
        × (delete_nodes (suc (length w.put)) first w.shared ≡ some s)
        × ((a : ℕ) → a ≢ home → s.cell a ≡ none)
  delete_nodes_frees {w} r i =
      let (old, new, c) = Reach-IsCoherent r in
      let (s, e, z) =
        delete_row (suc (length w.put)) (old ++ new) w.shared (omega (arith, c.small))
          (row-Remains w.shared home (old ++ new) c.inv.linked c.inv.distinct)
          (λ a d f. c.inv.covers a d f (rw i (λ k. cc))) in
      (
        front (old ++ new),
        s,
        Linked-end_of w.shared.cell w.shared.item home [] (old ++ new) c.inv.linked,
        e,
        z,
      )
