-- ===== src/Concat/Depleted.antt =====
-- The blocking test for the end of a stream.
use iu.Prelude.{
  ℕ, zero, suc, ◌≤◌, Bool, true, false, List, [], ◌∷◌, ◌++◌, ◌≡◌, refl, sym, ◌∙◌, ◌≢◌, arith,
  Bool-cases, inl, inr,
}
use iu.Concat.{
  Stream, Nodes, stream, nil, node, given, Result, returns, waits, exits, no_fuel, depleted, branch,
  snoc_given,
}
use iu.Concat.View.{view, view_nodes, size}

module _ {T : Type 0} where
  -- Another stream with the same contents, and not more to go through.
  abbrev pub Same : Stream T → Stream T → Type 0
  Same s s' = (view s' ≡ view s) × (size s' ≤ size s)

  pub Same-trans : (s t u : Stream T) → Same s t → Same t u → Same s u
  Same-trans s t u h k = (k.0 ∙ h.0, omega arith)

  -- What a test for the end may come to: it knows that the stream has an item or has ended, and
  -- waits otherwise.
  abbrev pub Tested : Stream T → Result T Bool → Type 0
  Tested s (returns true s') = (view s ≡ record { items = []; ended = true }) × Same s s'
  Tested s (returns false s') = ((view s).items ≢ []) × Same s s'
  Tested s waits = view s ≡ record { items = []; ended = false }
  Tested s exits = ⊥
  Tested s no_fuel = ⊥

  Tested-Same : (s t : Stream T) (r : Result T Bool) → Same s t → Tested t r → Tested s r
  Tested-Same s t (returns true s') h d = (sym h.0 ∙ d.0, (d.1.0 ∙ h.0, omega arith))
  Tested-Same s t (returns false s') h d = (rw (← h.0) d.0, (d.1.0 ∙ h.0, omega arith))
  Tested-Same s t waits h d = sym h.0 ∙ d
  Tested-Same s t exits h d = d
  Tested-Same s t no_fuel h d = d

  -- A given stream that has ended can be left behind.
  pub Same-given :
      (kept kept' ns : Nodes T) (g : Stream T) (off : Bool)
      → view g ≡ record { items = []; ended = true }
      → Same (stream kept (given g ns) off) (stream kept' ns off)
  unfolding view size
  Same-given kept kept' ns g off h = (rw h, omega arith)

  -- A given stream can be replaced by one with the same contents.
  pub Same-inside :
      (kept ns : Nodes T) (g g' : Stream T) (off : Bool)
      → Same g g'
      → Same (stream kept (given g ns) off) (stream kept (given g' ns) off)
  unfolding view size
  Same-inside kept ns g g' off h = (rw h.0, omega arith)

  pub append-ne_nil : (xs ys : List T) → xs ≢ [] → xs ++ ys ≢ []
  append-ne_nil [] ys h e = h refl
  append-ne_nil (x ∷ xs) ys h e = cc

  pub items-given :
      (kept ns : Nodes T) (g : Stream T) (off : Bool)
      → (view g).items ≢ []
      → (view (stream kept (given g ns) off)).items ≢ []
  unfolding view
  items-given kept ns g off h e = elim (Bool-cases (view g).ended) [
    | inl k ↦ append-ne_nil (view g).items (view_nodes ns off).items h (rw k at e)
    | inr k ↦ h (rw k at e)
  ]

  pub view-given_waits :
      (kept ns : Nodes T) (g : Stream T) (off : Bool)
      → view g ≡ record { items = []; ended = false }
      → view (stream kept (given g ns) off) ≡ record { items = []; ended = false }
  unfolding view
  view-given_waits kept ns g off h = rw h

  module _ (kept ns : Nodes T) (g : Stream T) (off : Bool) (fuel : ℕ) where
    depleted_given :
        (r : Result T Bool)
        → Tested g r
        → ((g' : Stream T)
            → Tested
                (stream (snoc_given kept g') ns off)
                (depleted fuel (stream (snoc_given kept g') ns off)))
        → Tested (stream kept (given g ns) off) (
            branch r
              (λ g'. depleted fuel (stream (snoc_given kept g') ns off))
              (λ g'. returns false (stream kept (given g' ns) off)))
    depleted_given (returns true g') h rest =
        let same = Same-given kept (snoc_given kept g') ns g off h.0 in
        Tested-Same _ _ _ same (rest g')
    depleted_given (returns false g') h rest =
        (items-given kept ns g off h.0, Same-inside kept ns g g' off h.1)
    depleted_given waits h rest = view-given_waits kept ns g off h
    depleted_given exits h rest = absurd h
    depleted_given no_fuel h rest = absurd h

  -- With as much fuel as the stream has nodes, the test knows whether the stream has an item or has
  -- ended, waits exactly if neither is known yet, and leaves the contents as they were.
  pub depleted-Tested : (fuel : ℕ) (s : Stream T) → size s ≤ fuel → Tested s (depleted fuel s)
  unfolding depleted view size
  depleted-Tested zero (stream kept pending off) h = absurd (omega arith)
  depleted-Tested (suc fuel) (stream kept nil true) h = (refl, (refl, omega arith))
  depleted-Tested (suc fuel) (stream kept nil false) h = refl
  depleted-Tested (suc fuel) (stream kept (node x ns) off) h = ((λ e. cc), (refl, omega arith))
  depleted-Tested (suc fuel) (stream kept (given g ns) off) h =
      depleted_given kept ns g off fuel (depleted fuel g) (depleted-Tested fuel g (omega arith))
        (λ g'. depleted-Tested fuel (stream (snoc_given kept g') ns off) (omega arith))
