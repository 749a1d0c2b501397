-- ===== src/Mpsc/Linking.antt =====
-- The second half of `put` keeps the row of nodes.
use iu.Prelude.{
  update, ℕ, ◌≡◌, subst, refl, sym, ap, ◌≢◌, inl, inr, Option, none, some, List, [], ◌∷◌, arith,
  Option-cases, ◌==◌, if◌then◌else◌,
}
use iu.Mpsc.{Node, Mpsc, link}
use iu.Mpsc.Chain.{Entry, next_of, Chain, Fresh, Distinct, Pending, items, Inv}

-- Once `t` has linked its node.
unlinked : ℕ → Option ℕ → Option ℕ
unlinked t none = none
unlinked t (some u) = if t == u then none else some u

module _ {T : Type 0} where
  pub clear : ℕ → List (Entry T) → List (Entry T)
  clear t [] = []
  clear t (e ∷ es) = record e { by = unlinked t e.by } ∷ clear t es

  -- The node behind `prev` is the one that `t` is about to link, and `prev` is not the last.
  abbrev Sole : ℕ → ℕ → ℕ → List (Entry T) → Type 0
  Sole t prev a [] = a ≢ prev
  Sole t prev a (e ∷ es) = (a ≡ prev → e.by ≡ some t) × Sole t prev e.addr es

  Fresh-Sole : (t prev a : ℕ) (es : List (Entry T)) → a ≢ prev → Fresh prev es → Sole t prev a es
  Fresh-Sole t prev a [] h f = h
  Fresh-Sole t prev a (e ∷ es) h f =
      (λ k. absurd (h k), Fresh-Sole t prev e.addr es (λ k. f.0 (sym k)) f.1)

  Pending-ne :
      (t prev p a c : ℕ) (es : List (Entry T))
      → Pending t prev p c es
      → a ≢ c
      → Fresh a es
      → a ≢ prev
  Pending-ne t prev p a c [] h k f = absurd h
  Pending-ne t prev p a c (e ∷ es) (inl h) k f = λ eq. ground arith
  Pending-ne t prev p a c (e ∷ es) (inr h) k f = Pending-ne t prev p a e.addr es h f.0 f.1

  Pending-Sole :
      (t prev p a : ℕ) (es : List (Entry T))
      → Pending t prev p a es
      → Distinct a es
      → Sole t prev a es
  Pending-Sole t prev p a [] h d = absurd h
  Pending-Sole t prev p a (e ∷ es) (inl (k, _, by)) d =
      (λ _. by, Fresh-Sole t prev e.addr es (λ m. ground arith) (subst (λ b. Fresh b es) k d.0.1))
  Pending-Sole t prev p a (e ∷ es) (inr h) d = (
    λ k. absurd (Pending-ne t prev p a e.addr es h d.0.0 d.0.1 k),
    Pending-Sole t prev p e.addr es h d.1,
  )

  pub items-clear : (t : ℕ) (es : List (Entry T)) → items (clear t es) ≡ items es
  unfolding clear
  items-clear t [] = refl
  items-clear t (e ∷ es) = ap (◌∷◌ e.item) (items-clear t es)

  pub clear-Fresh : (t a : ℕ) (es : List (Entry T)) → Fresh a (clear t es) → Fresh a es
  unfolding clear
  clear-Fresh t a [] f = tt
  clear-Fresh t a (e ∷ es) f = (f.0, clear-Fresh t a es f.1)

  Fresh-clear : (t a : ℕ) (es : List (Entry T)) → Fresh a es → Fresh a (clear t es)
  unfolding clear
  Fresh-clear t a [] f = tt
  Fresh-clear t a (e ∷ es) f = (f.0, Fresh-clear t a es f.1)

  Distinct-clear : (t a : ℕ) (es : List (Entry T)) → Distinct a es → Distinct a (clear t es)
  unfolding clear
  Distinct-clear t a [] d = tt
  Distinct-clear t a (e ∷ es) d =
      ((d.0.0, Fresh-clear t a es d.0.1), Distinct-clear t e.addr es d.1)

  Pending-clear :
      (t u a b c : ℕ) (es : List (Entry T))
      → t ≢ u
      → Pending u a b c es
      → Pending u a b c (clear t es)
  unfolding clear unlinked
  Pending-clear t u a b c [] k h = h
  Pending-clear t u a b c (e ∷ es) k (inl h) = inl (h.0, h.1, ground arith)
  Pending-clear t u a b c (e ∷ es) k (inr h) = inr (Pending-clear t u a b e.addr es k h)

  pub allocated :
      {x : Option ℕ} (o : Option (Node T)) → next_of o ≡ some x → (node : Node T) × (o ≡ some node)
  allocated none h = absurd (cc)
  allocated (some node) h = (node, refl)

  -- The node before the one that is about to be linked is allocated.
  Pending-allocated :
      (q : Mpsc T) (t prev p a : ℕ) (es : List (Entry T))
      → Chain q a es
      → Pending t prev p a es
      → (node : Node T) × (q.cell prev ≡ some node)
  Pending-allocated q t prev p a [] c h = absurd h
  Pending-allocated q t prev p a (e ∷ es) c (inl h) =
      let (node, e) = allocated (q.cell a) c.0 in (node, subst (λ b. q.cell b ≡ some node) h.0 e)
  Pending-allocated q t prev p a (e ∷ es) c (inr h) = Pending-allocated q t prev p e.addr es c.3 h

  module _ (q : Mpsc T) (t prev p : ℕ) (node : Node T) (held : q.thread t ≡ some (prev, p))
      (at : q.cell prev ≡ some node) where
    abbrev linked : Mpsc T
    linked = record q {
      cell = update q.cell prev (some (record node { next = some p }));
      thread = update q.thread t none;
    }

    link_lem : link t q ≡ some linked
    unfolding link
    link_lem = ground arith

    Chain-linked :
        (a : ℕ) (es : List (Entry T))
        → Chain q a es
        → Sole t prev a es
        → Chain linked a (clear t es)
    unfolding clear unlinked
    Chain-linked a [] c s = ground arith
    Chain-linked a (e ∷ es) c s =
        (ground arith, ground arith, ground arith, Chain-linked e.addr es c.3 s.1)

    Pending-linked :
        (es : List (Entry T))
        → Inv q es
        → (u a b : ℕ) → linked.thread u ≡ some (a, b)
        → Pending u a b q.first (clear t es)
    Pending-linked es inv u a b h =
        Pending-clear t u a b q.first es (λ k. ground arith) (inv.pending u a b (ground arith))

    linked-Inv : (es : List (Entry T)) → Inv q es → Inv linked (clear t es)
    linked-Inv es inv = record {
      chain =
          Chain-linked q.first es inv.chain
            (Pending-Sole t prev p q.first es (inv.pending t prev p held) inv.distinct);
      distinct = Distinct-clear t q.first es inv.distinct;
      pending = Pending-linked es inv;
    }

  -- The second half of a `put` meets no freed memory, and links the node of its thread.
  pub link-Inv :
      (q : Mpsc T) (es : List (Entry T)) (t prev p : ℕ)
      → Inv q es
      → q.thread t ≡ some (prev, p)
      → (q' : Mpsc T) × (link t q ≡ some q')
        × Inv q' (clear t es)
        × (q'.thread ≡ update q.thread t none)
  link-Inv q es t prev p inv held =
      let (node, at) =
        Pending-allocated q t prev p q.first es inv.chain (inv.pending t prev p held) in
      (
        linked q t prev p node held at,
        link_lem q t prev p node held at,
        linked-Inv q t prev p node held at es inv,
        refl,
      )

  -- Only a thread in a `put` can end one.
  pub link-thread :
      (q q' : Mpsc T) (t : ℕ)
      → link t q ≡ some q'
      → (prev : ℕ) × (p : ℕ) × (q.thread t ≡ some (prev, p))
  unfolding link
  link-thread q q' t h = elim (Option-cases (q.thread t)) [
    | inl e ↦ absurd (ground arith)
    | inr ((prev, p), e) ↦ (prev, p, e)
  ]
