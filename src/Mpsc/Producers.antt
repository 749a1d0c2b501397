-- ===== src/Mpsc/Producers.antt =====
-- The two halves of `put` keep the row of nodes.
use mathlib.Core.Path.{subst₃}
use iu.Prelude.{
  ℕ, ◌≡◌, refl, sym, ◌≢◌, inl, inr, Option, none, some, List, [], ◌∷◌, ◌++◌, arith, ◌==◌,
  Bool-cases,
}
use iu.Mpsc.{Mpsc, exchange}
use iu.Mpsc.Chain.{Entry, Owned, Chain, Fresh, Distinct, Pending, Inv}

module _ {T : Type 0} where
  -- A node of the row is allocated.
  Chain-ne : (q : Mpsc T) (a p : ℕ) (es : List (Entry T)) → Chain q a es → q.cell p ≡ none → a ≢ p
  Chain-ne q a p [] c h = λ e. ground arith
  Chain-ne q a p (e ∷ es) c h = λ k. ground arith

  abbrev pub new_entry : ℕ → ℕ → T → Entry T
  new_entry t p x = record { addr = p; item = x; by = some t }

  module _ (q : Mpsc T) (t p : ℕ) (x : T) (idle : q.thread t ≡ none) (free : q.cell p ≡ none) where
    Owned-exchange :
        (by : Option ℕ) (a b : ℕ) → Owned by q.thread a b → Owned by (exchange t p x q).thread a b
    unfolding exchange
    Owned-exchange none a b h = tt
    Owned-exchange (some u) a b h = ground arith

    cell-exchange : (a : ℕ) → a ≢ p → (exchange t p x q).cell a ≡ q.cell a
    unfolding exchange
    cell-exchange a h = ground arith

    Chain-exchange :
        (a : ℕ) (es : List (Entry T))
        → Chain q a es
        → Chain (exchange t p x q) a (es ++ new_entry t p x ∷ [])
    Chain-exchange a [] c = unfold exchange in ground arith
    Chain-exchange a (e ∷ es) c =
        let here = cell-exchange a (Chain-ne q a p (e ∷ es) c free) in
        let there = cell-exchange e.addr (Chain-ne q e.addr p es c.3 free) in
        (rw here c.0, Owned-exchange e.by a e.addr c.1, rw there c.2, Chain-exchange e.addr es c.3)

    Fresh-exchange :
        (a : ℕ) (es : List (Entry T)) → a ≢ p → Fresh a es → Fresh a (es ++ new_entry t p x ∷ [])
    Fresh-exchange a [] h f = (h, tt)
    Fresh-exchange a (e ∷ es) h f = (f.0, Fresh-exchange a es h f.1)

    Distinct-exchange :
        (a : ℕ) (es : List (Entry T))
        → Chain q a es
        → Distinct a es
        → Distinct a (es ++ new_entry t p x ∷ [])
    Distinct-exchange a [] c d = ((Chain-ne q a p [] c free, tt), tt)
    Distinct-exchange a (e ∷ es) c d = (
      Fresh-exchange a (e ∷ es) (Chain-ne q a p (e ∷ es) c free) d.0,
      Distinct-exchange e.addr es c.3 d.1,
    )

    Pending-exchange_self :
        (c : ℕ) (es : List (Entry T))
        → Chain q c es
        → Pending t q.last p c (es ++ new_entry t p x ∷ [])
    Pending-exchange_self c [] h = inl (sym h.0, refl, refl)
    Pending-exchange_self c (e ∷ es) h = inr (Pending-exchange_self e.addr es h.3)

    Pending-append :
        (u a b c : ℕ) (es : List (Entry T))
        → Pending u a b c es
        → Pending u a b c (es ++ new_entry t p x ∷ [])
    Pending-append u a b c [] h = absurd h
    Pending-append u a b c (e ∷ es) (inl h) = inl h
    Pending-append u a b c (e ∷ es) (inr h) = inr (Pending-append u a b e.addr es h)

    Pending-exchange :
        (es : List (Entry T))
        → Inv q es
        → (u a b : ℕ) → (exchange t p x q).thread u ≡ some (a, b)
        → Pending u a b q.first (es ++ new_entry t p x ∷ [])
    unfolding exchange
    Pending-exchange es inv u a b h = elim (Bool-cases (t == u)) [
      | inl e ↦
          let eu : t ≡ u = ground arith in
          let ea : q.last ≡ a = ground arith in
          let eb : p ≡ b = ground arith in
          subst₃ (λ u' a' b'. Pending u' a' b' q.first (es ++ new_entry t p x ∷ [])) eu ea eb
            (Pending-exchange_self q.first es inv.chain)
      | inr e ↦ Pending-append u a b q.first es (inv.pending u a b (ground arith))
    ]

    -- The exchange puts the new node at the end of the row.
    pub exchange-Inv :
        (es : List (Entry T)) → Inv q es → Inv (exchange t p x q) (es ++ new_entry t p x ∷ [])
    exchange-Inv es inv = record {
      chain = unfold exchange in Chain-exchange q.first es inv.chain;
      distinct = unfold exchange in Distinct-exchange q.first es inv.chain inv.distinct;
      pending = unfold exchange in Pending-exchange es inv;
    }
