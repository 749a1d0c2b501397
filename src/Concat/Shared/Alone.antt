-- ===== src/Concat/Shared/Alone.antt =====
-- A `put` or a `give` that the consumer does not interrupt, and what it is on the stream that Concat
-- describes.
use iu.Prelude.{
  ℕ, zero, suc, ◌<◌, ◌≡◌, refl, sym, subst, true, false, Option, none, some, List, [], ◌∷◌, ◌++◌,
  arith, length, Bool-cases, Option-cases, inl, inr, ◌∙◌,
}
use iu.Concat.Shared.{
  Load, Producer, links, advances, begins, compares, unlinks, frees, moves, Consumer, Shared,
  produce, store, unlink, free, move,
}
use iu.Concat.Shared.Row.{Entry, loads}
use iu.Concat.Shared.Invariant.{is_idle, weight, left_of, Inv}
use iu.Concat.Shared.Producing.{published}
use iu.Concat.Shared.Putting.{produce-Produced}

module _ {T : Type 0} where
  -- The producer until its call is at the end, with fuel for its accesses.
  unfoldable pub run : ℕ → Producer → Shared T → Option (Shared T)
  unfolding produce
  run zero p s = none
  run (suc fuel) p s = elim (is_idle p) [
    | true ↦ some s
    | false ↦ elim (produce p s) [ none ↦ none | some s' ↦ run fuel s'.producer s' ]
  ]

  -- `sweep` leaves the last of the nodes that were left behind.
  abbrev pub last_only : List (Entry T) → List (Entry T)
  last_only [] = []
  last_only (e ∷ []) = e ∷ []
  last_only (e ∷ f ∷ es) = last_only (f ∷ es)

  -- The producer touches neither the flag nor what the consumer is at.
  abbrev pub Keeps : Shared T → Shared T → Type 0
  Keeps s s' = (s'.off ≡ s.off) × (s'.consumer ≡ s.consumer)

  produce-Keeps : (p : Producer) (s s' : Shared T) → produce p s ≡ some s' → Keeps s s'
  unfolding produce store unlink free move
  produce-Keeps Producer.idle s s' e = ground arith
  produce-Keeps (links p) s s' e = ground arith
  produce-Keeps (advances p) s s' e = ground arith
  produce-Keeps begins s s' e = ground arith
  produce-Keeps (Producer.looks head iter) s s' e = ground arith
  produce-Keeps (compares head iter a) s s' e = ground arith
  produce-Keeps (unlinks iter) s s' e = ground arith
  produce-Keeps (frees p iter) s s' e = ground arith
  produce-Keeps (moves none) s s' e = ground arith
  produce-Keeps (moves (some i)) s s' e = ground arith

  pub run-Keeps : (fuel : ℕ) (p : Producer) (s s' : Shared T) → run fuel p s ≡ some s' → Keeps s s'
  unfolding run
  run-Keeps zero p s s' e = absurd (cc)
  run-Keeps (suc fuel) p s s' e = elim (Bool-cases (is_idle p)) [
    | inl i ↦ let j : s ≡ s' = ground arith in rw j (refl, refl)
    | inr i ↦ elim (Option-cases (produce p s)) [
      | inl n ↦ absurd (ground arith)
      | inr (u, r) ↦
          let k = produce-Keeps p s u r in
          let (o, d) = run-Keeps fuel u.producer u s' (ground arith) in (o ∙ k.0, d ∙ k.1)
    ]
  ]

  module _ (c : Consumer T) where
    -- The call ends, with these nodes left behind and these loads ahead.
    abbrev pub Ends : List (Entry T) → List (Load T) → Option (Shared T) → Type 0
    Ends old l r =
        (s : Shared T) × (new : List (Entry T)) × (r ≡ some s)
        × (s.producer ≡ Producer.idle)
        × Inv s Producer.idle c old new
        × (loads new ≡ l)

    abbrev pub EndsFrom : Producer → Shared T → List (Entry T) → List (Load T) → ℕ → Type 0
    EndsFrom p s old l n = (fuel : ℕ) → n < fuel → Ends old l (run fuel p s)

    pub idle_EndsFrom :
        (s : Shared T) (old new : List (Entry T)) (n : ℕ)
        → s.producer ≡ Producer.idle
        → Inv s Producer.idle c old new
        → EndsFrom Producer.idle s old (loads new) n
    unfolding run
    idle_EndsFrom s old new n i inv zero h = absurd (omega arith)
    idle_EndsFrom s old new n i inv (suc fuel) h = (s, new, refl, i, inv, refl)

    -- One access before that.
    next_EndsFrom :
        (s u : Shared T) (p : Producer) (old : List (Entry T)) (l : List (Load T)) (m n : ℕ)
        → is_idle p ≡ false
        → produce p s ≡ some u
        → m < n
        → EndsFrom u.producer u old l m
        → EndsFrom p s old l n
    unfolding run
    next_EndsFrom s u p old l m n i r less k zero h = absurd (omega arith)
    next_EndsFrom s u p old l m n i r less k (suc fuel) h =
        subst (Ends old l) (sym (rw (i, run) (rw (r, run) refl))) (k fuel (omega arith))

    -- An access whose result is known, with what it keeps.
    pub step_EndsFrom :
        (s u : Shared T) (p : Producer) (old new o : List (Entry T)) (l : List (Load T))
        → s.producer ≡ p
        → is_idle p ≡ false
        → produce p s ≡ some u
        → Inv s p c old new
        → ((new' : List (Entry T))
            → Inv u u.producer c (left_of p old) new'
            → loads new' ≡ loads new ++ published p s
            → EndsFrom u.producer u o l (weight u.producer (length (left_of p old ++ new'))))
        → EndsFrom p s o l (weight p (length (old ++ new)))
    step_EndsFrom s u p old new o l e i r inv k =
        let (s', old', new', d, inv', loaded, _, falls, left) =
          produce-Produced s c old new p inv (sym e) in
        let same : s' ≡ u = cc in
        let here : Inv u u.producer c (left_of p old) new' =
          subst (λ s. Inv s s.producer c (left_of p old) new') same
            (subst (λ o. Inv s' s'.producer c o new') left inv') in
        let less : weight s'.producer (length (left_of p old ++ new'))
            < weight p (length (old ++ new)) =
          subst (λ o. weight s'.producer (length (o ++ new')) < weight p (length (old ++ new))) left
            (falls.0 i) in
        next_EndsFrom s u p o l (weight u.producer (length (left_of p old ++ new')))
          (weight p (length (old ++ new))) i r
          (subst
            (λ s.
              weight s.producer (length (left_of p old ++ new')) < weight p (length (old ++ new)))
            same less)
          (k new' here loaded)
