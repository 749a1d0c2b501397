-- ===== src/Mpsc/Consumer.antt =====
-- `get` takes the first entry of the row, if its producer has linked it.
use iu.Prelude.{
  update, ℕ, ◌≡◌, refl, ◌≢◌, ◌⊎◌, inl, inr, none, some, List, [], ◌∷◌, arith, Option-cases,
}
use iu.Mpsc.{Mpsc, get}
use iu.Mpsc.Chain.{Entry, next_of, item_of, Chain, Fresh, Pending, Inv}

module _ {T : Type 0} where
  pub get_empty : (q : Mpsc T) → next_of (q.cell q.first) ≡ some none → get q ≡ some (none, q)
  unfolding get
  get_empty q h = ground arith

  module _ (q : Mpsc T) (e : Entry T) where
    abbrev pub taken : Mpsc T
    taken = record q { first = e.addr; cell = update q.cell q.first none }

    pub get_taken :
        next_of (q.cell q.first) ≡ some (some e.addr)
        → item_of (q.cell e.addr) ≡ some (some e.item)
        → q.first ≢ e.addr
        → get q ≡ some (some e.item, taken)
    unfolding get
    get_taken h k d = ground arith

    Chain-taken :
        (a : ℕ) (es : List (Entry T))
        → q.first ≢ a
        → Fresh q.first es
        → Chain q a es
        → Chain taken a es
    Chain-taken a [] d f c = ground arith
    Chain-taken a (x ∷ es) d f c =
        (ground arith, c.1, ground arith, Chain-taken x.addr es f.0 f.1 c.3)

    Pending-taken :
        (es : List (Entry T)) (u a b : ℕ)
        → e.by ≡ none
        → Pending u a b q.first (e ∷ es)
        → Pending u a b e.addr es
    Pending-taken es u a b k (inl h) = absurd (ground arith)
    Pending-taken es u a b k (inr h) = h

    pub taken-Inv : (es : List (Entry T)) → e.by ≡ none → Inv q (e ∷ es) → Inv taken es
    taken-Inv es k inv = record {
      chain = Chain-taken e.addr es inv.distinct.0.0 inv.distinct.0.1 inv.chain.3;
      distinct = inv.distinct.1;
      pending = λ u a b h. Pending-taken es u a b k (inv.pending u a b h);
    }

  -- There is no entry, or the producer of the first one has not linked it.
  abbrev pub Waits : List (Entry T) → Type 0
  Waits [] = Unit {0}
  Waits (e ∷ es) = (t : ℕ) × (e.by ≡ some t)

  abbrev pub Gets : Mpsc T → List (Entry T) → Type 0
  Gets q es =
      (Waits es × (get q ≡ some (none, q)))
      ⊎ ((e : Entry T) × (rest : List (Entry T)) × (q' : Mpsc T) × (es ≡ e ∷ rest)
          × (get q ≡ some (some e.item, q'))
          × Inv q' rest
          × (q'.thread ≡ q.thread))

  -- `get` meets no freed memory; it takes the first entry, unless there is none or its producer is
  -- between the two halves of `put`.
  pub get-Gets : (q : Mpsc T) (es : List (Entry T)) → Inv q es → Gets q es
  get-Gets q [] inv = inl (tt, get_empty q inv.chain.1)
  get-Gets q (e ∷ es) inv = elim (Option-cases e.by) [
    | inl k ↦ inr (
      e,
      es,
      taken q e,
      refl,
      get_taken q e (ground (arith, inv.chain.0)) inv.chain.2 inv.distinct.0.0,
      taken-Inv q e es k inv,
      refl,
    )
    | inr (t, k) ↦ inl ((t, k), get_empty q (ground (arith, inv.chain.0)))
  ]
