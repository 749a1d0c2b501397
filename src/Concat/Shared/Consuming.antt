-- ===== src/Concat/Shared/Consuming.antt =====
-- Every access of the consumer finds memory that is allocated, and keeps the invariant.
use iu.Prelude.{
  ℕ, length, ◌≡◌, refl, sym, ap, subst, ◌∙◌, ◌≢◌, Bool, true, false, Option, none, some, List, [],
  ◌∷◌, ◌++◌, append_assoc,
}
use iu.Concat.Shared.{
  Load, holds, Producer, links, advances, begins, compares, unlinks, frees, moves, Consumer, asks,
  takes, Shared, home, turns, advance, look,
}
use iu.Concat.Shared.Row.{
  Entry, loads, front, Linked, Fresh, Distinct, end_of-append, Linked-end_of,
}
use iu.Concat.Shared.Invariant.{Compares, Iterates, Producing, Consuming, Inv}

module _ {T : Type 0} where
  -- What the consumer leaves behind in this step.
  abbrev pub passed : Bool → Consumer T → Shared T → List (Load T)
  passed b (takes n x) s = holds x ∷ []
  passed true (asks c n) s = elim (s.item n) [ none ↦ [] | some x ↦ x ∷ [] ]
  passed _ _ s = []

  abbrev pub Consumed :
      Shared T → Producer → (old new : List (Entry T)) → List (Load T) → Option (Shared T) → Type 0
  Consumed s p old new xs r =
      (s' : Shared T) × (old' : List (Entry T)) × (new' : List (Entry T)) × (r ≡ some s')
      × Inv s' p s'.consumer old' new'
      × (loads new ≡ xs ++ loads new')
      × (s'.producer ≡ s.producer)
      × (length (old' ++ new') ≡ length (old ++ new))

  module _ (s : Shared T) (old : List (Entry T)) (e : Entry T) where
    snoc-ne : old ++ e ∷ [] ≢ []
    snoc-ne = nonempty old
      where
        nonempty : (es : List (Entry T)) → es ++ e ∷ [] ≢ []
        nonempty [] d = cc
        nonempty (x ∷ es) d = cc

    Iterates-append :
        (head : Bool) (iter : Option ℕ) (row : List (Entry T))
        → Iterates head iter old row
        → Iterates head iter (old ++ e ∷ []) row
    Iterates-append true iter row h = h
    Iterates-append false iter row h = (h.0, h.1, snoc-ne)

    Compares-append : (head : Bool) (a : ℕ) → Compares head a old → Compares head a (old ++ e ∷ [])
    Compares-append true a (seen, more, d, h) =
        (seen, more ++ e ∷ [], ap (λ l. l ++ e ∷ []) d ∙ append_assoc seen more (e ∷ []), h)
    Compares-append false a (f, seen, more, d, h) = (
      f,
      seen,
      more ++ e ∷ [],
      ap (λ l. l ++ e ∷ []) d ∙ ap (λ l. f ∷ l) (append_assoc seen more (e ∷ [])),
      h,
    )

    -- What the producer knows of the nodes left behind is so if there is one more.
    Producing-append :
        (p : Producer) (row : List (Entry T))
        → Producing s p old row
        → Producing s p (old ++ e ∷ []) row
    Producing-append Producer.idle row h = h
    Producing-append (links p) row h = h
    Producing-append (advances p) row h = h
    Producing-append begins row h = h
    Producing-append (Producer.looks head iter) row h = (h.0, Iterates-append head iter row h.1)
    Producing-append (compares head iter a) row h =
        (h.0, Iterates-append head iter row h.1, Compares-append head a h.2)
    Producing-append (unlinks iter) row (h, i, (f, g, es, d)) =
        (h, i, (f, g, es ++ e ∷ [], ap (λ l. l ++ e ∷ []) d))
    Producing-append (frees p iter) row h = (h.0, h.1, snoc-ne, h.3)
    Producing-append (moves iter) row h = (h.0, h.1, snoc-ne)

  -- The producer does not see what the consumer is at, and what `listener` is.
  Producing-listener :
      (s : Shared T) (a : ℕ) (c : Consumer T) (p : Producer) (old row : List (Entry T))
      → Producing s p old row
      → Producing (record s { listener = a; consumer = c }) p old row
  Producing-listener s a c Producer.idle old row h = h
  Producing-listener s a c (links p) old row h = h
  Producing-listener s a c (advances p) old row h = h
  Producing-listener s a c begins old row h = h
  Producing-listener s a c (Producer.looks head iter) old row h = h
  Producing-listener s a c (compares head iter b) old row h = h
  Producing-listener s a c (unlinks iter) old row h = h
  Producing-listener s a c (frees p iter) old row h = h
  Producing-listener s a c (moves iter) old row h = h

  module _ (s : Shared T) (p : Producer) (c : Consumer T) (old new : List (Entry T)) where
    pub turns-Inv :
        (c' : Consumer T)
        → Inv s p c old new
        → Consuming s.off c' new
        → Inv (turns c' s) p c' old new
    turns-Inv c' inv h = record {
      linked = inv.linked;
      distinct = inv.distinct;
      behind = inv.behind;
      producing = Producing-listener s s.listener c' p old (old ++ new) inv.producing;
      consuming = h;
      closed = inv.closed;
      covers = inv.covers;
    }

    pub turns-Consumed :
        (c' : Consumer T) (r : Option (Shared T))
        → Inv s p c old new
        → Consuming s.off c' new
        → r ≡ some (turns c' s)
        → Consumed s p old new [] r
    turns-Consumed c' r inv h e = (turns c' s, old, new, e, turns-Inv c' inv h, refl, refl, refl)

    pub advance-Consumed :
        (n : ℕ) (c' : Consumer T) (e : Entry T) (es : List (Entry T)) (r : Option (Shared T))
        → Inv s p c old new
        → new ≡ e ∷ es
        → e.addr ≡ n
        → Consuming s.off c' es
        → r ≡ some (advance n c' s)
        → Consumed s p old new (e.load ∷ []) r
    advance-Consumed n c' e es r inv d a h k =
        let row : old ++ new ≡ (old ++ e ∷ []) ++ es =
          ap (λ l. old ++ l) d ∙ sym (append_assoc old (e ∷ []) es) in
        (
          advance n c' s,
          old ++ e ∷ [],
          es,
          k,
          record {
            linked = subst (Linked s.cell s.item home) row inv.linked;
            distinct = subst (Distinct home) row inv.distinct;
            behind = sym a ∙ sym (end_of-append home old (e ∷ []));
            producing = Producing-listener s n c' p (old ++ e ∷ []) ((old ++ e ∷ []) ++ es) (
                subst (Producing s p (old ++ e ∷ [])) row
                  (Producing-append s old e p (old ++ new) inv.producing));
            consuming = h;
            closed = inv.closed;
            covers = λ b g f. inv.covers b g (subst (Fresh b) (sym row) f);
          },
          ap loads d,
          refl,
          ap length (sym row),
        )

    listener_cell : Inv s p c old new → s.cell s.listener ≡ some (front new)
    listener_cell inv = ap s.cell inv.behind ∙ Linked-end_of s.cell s.item home old new inv.linked

    -- `*listener`, with what follows in each case.
    pub look_lem :
        (missing : Consumer T) (found : ℕ → Consumer T)
        → Inv s p c old new
        → (new ≡ [] → Consuming s.off missing new)
        → ((n : ℕ) → front new ≡ some n → Consuming s.off (found n) new)
        → Consumed s p old new [] (look missing found s)
    unfolding look
    look_lem missing found inv h k = go new refl
      where
        go : (es : List (Entry T)) → new ≡ es → Consumed s p old new [] (look missing found s)
        go [] d =
            turns-Consumed missing (look missing found s) inv (h d)
              (rw (listener_cell inv ∙ ap (λ l. some (front l)) d, look) refl)
        go (e ∷ es) d =
            turns-Consumed (found e.addr) (look missing found s) inv (k e.addr (ap front d))
              (rw (listener_cell inv ∙ ap (λ l. some (front l)) d, look) refl)
