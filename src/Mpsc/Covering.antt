-- ===== src/Mpsc/Covering.antt =====
-- Every node that is allocated is in the row.
use iu.Prelude.{
  ℕ, ◌≡◌, sym, subst, ◌∙◌, ◌≢◌, inl, inr, none, some, List, [], ◌∷◌, ◌++◌, arith, Option-cases,
  Bool-cases, ◌==◌,
}
use iu.Mpsc.{Mpsc, init, exchange, link, get}
use iu.Mpsc.Chain.{Entry, Fresh, Inv}
use iu.Mpsc.Producers.{new_entry}
use iu.Mpsc.Linking.{clear, clear-Fresh}
use iu.Mpsc.Consumer.{taken, get_taken, get_empty}

module _ {T : Type 0} where
  abbrev pub Covers : Mpsc T → List (Entry T) → Type 0
  Covers q es = (a : ℕ) → a ≢ q.first → Fresh a es → q.cell a ≡ none

  pub init-Covers : (p : ℕ) → Covers (init p) []
  unfolding init
  init-Covers p a h f = ground arith

  Fresh-append : (a : ℕ) (es fs : List (Entry T)) → Fresh a (es ++ fs) → Fresh a es × Fresh a fs
  Fresh-append a [] fs h = (tt, h)
  Fresh-append a (e ∷ es) fs h = let (x, y) = Fresh-append a es fs h.1 in ((h.0, x), y)

  pub exchange-Covers :
      (t p : ℕ) (x : T) (q : Mpsc T) (es : List (Entry T))
      → Covers q es
      → Covers (exchange t p x q) (es ++ new_entry t p x ∷ [])
  unfolding exchange
  exchange-Covers t p x q es c a h f =
      let (k, n) = Fresh-append a es (new_entry t p x ∷ []) f in
      let e : q.cell a ≡ none = c a h k in ground (arith, n.0)

  link-cell :
      (t a : ℕ) (q q' : Mpsc T)
      → link t q ≡ some q'
      → (q'.first ≡ q.first) × (q.cell a ≡ none → q'.cell a ≡ none)
  unfolding link
  link-cell t a q q' e = (ground arith, λ h. ground arith)

  pub link-Covers :
      (t : ℕ) (q q' : Mpsc T) (es : List (Entry T))
      → link t q ≡ some q'
      → Covers q es
      → Covers q' (clear t es)
  link-Covers t q q' es e c a h f =
      let (i, k) = link-cell t a q q' e in k (c a (λ j. h (j ∙ sym i)) (clear-Fresh t a es f))

  pub taken-Covers :
      (q : Mpsc T) (e : Entry T) (es : List (Entry T)) → Covers q (e ∷ es) → Covers (taken q e) es
  taken-Covers q e es c a h f = elim (Bool-cases (q.first == a)) [
    | inl x ↦ ground arith
    | inr x ↦ let k : q.cell a ≡ none = c a (λ j. ground arith) (h, f) in ground arith
  ]

  pub get-Covers :
      (q q' : Mpsc T) (e : Entry T) (es : List (Entry T)) (y : T)
      → Inv q (e ∷ es)
      → get q ≡ some (some y, q')
      → Covers q (e ∷ es)
      → Covers q' es
  get-Covers q q' e es y inv g c = elim (Option-cases e.by) [
    | inl k ↦
        let g' : get q ≡ some (some e.item, taken q e) =
          get_taken q e (ground (arith, inv.chain.0)) inv.chain.2 inv.distinct.0.0 in
        let r : taken q e ≡ q' = ground arith in subst (λ p. Covers p es) r (taken-Covers q e es c)
    | inr (t, k) ↦
        let g' : get q ≡ some (none, q) = get_empty q (ground (arith, inv.chain.0)) in
        absurd (ground arith)
  ]
