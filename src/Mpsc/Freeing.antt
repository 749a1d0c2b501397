-- ===== src/Mpsc/Freeing.antt =====
-- What the destructor leaves.
use iu.Prelude.{
  update, ℕ, suc, ◌≡◌, refl, none, some, Option, List, [], ◌∷◌, ◌++◌, length, arith, Option-cases,
  Bool-cases, inl, inr, ◌==◌, ◌∙◌,
}
use iu.Mpsc.{Mpsc, Node, destroy}
use iu.Mpsc.Chain.{Entry, items, Inv}
use iu.Mpsc.Consumer.{taken, taken-Inv}
use iu.Mpsc.Covering.{Covers, taken-Covers}
use iu.Mpsc.Safety.{World, Reach, start, start-Coherent, Reach-Coherent}

module _ {T : Type 0} where
  abbrev IsIdle : Mpsc T → Type 0
  IsIdle q = (t : ℕ) → q.thread t ≡ none

  destroy_next :
      (fuel p : ℕ) (node : Node T) (cell : ℕ → Option (Node T))
      → cell p ≡ some node
      → destroy (suc fuel) (some p) cell ≡ destroy fuel node.next (update cell p none)
  unfolding destroy
  destroy_next fuel p node cell e = rw (e, destroy) refl

  -- The row is freed from the front.
  destroy-Inv :
      (q : Mpsc T) (es : List (Entry T))
      → IsIdle q
      → Inv q es
      → Covers q es
      → (cell : ℕ → Option (Node T)) × (destroy (suc (suc (length es))) (some q.first) q.cell
          ≡ some cell)
        × ((a : ℕ) → cell a ≡ none)
  destroy-Inv q [] idle inv c = elim (Option-cases (q.cell q.first)) [
    | inl e ↦ absurd (ground (arith, inv.chain.1))
    | inr (node, e) ↦
        let n : node.next ≡ none = ground (arith, inv.chain.1) in
        (
          update q.cell q.first none,
          destroy_next 1 q.first node q.cell e ∙ rw n (unfold destroy in refl),
          λ a. elim (Bool-cases (q.first == a)) [
            | inl x ↦ rw x refl
            | inr x ↦ rw x (c a (λ j. ground arith) tt)
          ],
        )
  ]
  destroy-Inv q (e ∷ es) idle inv c = elim (Option-cases e.by) [
    | inr (t, k) ↦ absurd (ground (arith, inv.chain.1, idle t))
    | inl k ↦ elim (Option-cases (q.cell q.first)) [
      | inl h ↦ absurd (ground (arith, inv.chain.0))
      | inr (node, h) ↦
          let n : node.next ≡ some e.addr = ground (arith, inv.chain.0) in
          let (cell, d, z) =
            destroy-Inv (taken q e) es idle (taken-Inv q e es k inv) (taken-Covers q e es c) in
          (cell, destroy_next (suc (suc (length es))) q.first node q.cell h ∙ rw n d, z)
    ]
  ]

  -- In every interleaving, once no producer is in a `put`, the destructor ends after one round more
  -- than there are items that were not got. It accesses no memory that was freed before, and frees
  -- all that the queue has ever allocated.
  pub destroy_frees :
      (p : ℕ) {w : World T}
      → Reach (start p) w
      → ((t : ℕ) → w.queue.thread t ≡ none)
      → (rest : List T) × (cell : ℕ → Option (Node T)) × (w.put ≡ w.got ++ rest)
        × (destroy (suc (suc (length rest))) (some w.queue.first) w.queue.cell ≡ some cell)
        × ((a : ℕ) → cell a ≡ none)
  destroy_frees p {w} r idle =
      let (es, c) = Reach-Coherent [] (start-Coherent p) r in
      let (cell, e, z) = destroy-Inv w.queue es idle c.inv c.covers in
      (items es, cell, c.order, rw (length-items es) e, z)
    where
      length-items : (es : List (Entry T)) → length (items es) ≡ length es
      length-items [] = refl
      length-items (e ∷ es) = rw (length-items es) refl
