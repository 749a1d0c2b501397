-- ===== src/Concat/Shared/Putting.antt =====
-- The accesses of the producer before `sweep`, and all of them.
use iu.Prelude.{
  update, ℕ, length, length-append, ◌≡◌, refl, sym, ap, subst, ◌∙◌, ◌≢◌, Bool, true, false, none,
  some, List, [], ◌∷◌, ◌++◌, arith, append-nil, append_assoc,
}
use iu.Concat.Shared.{
  Load, Producer, links, advances, begins, compares, unlinks, frees, moves, Consumer, exited, tests,
  retries, finds, asks, takes, Shared, home, allocate, turn_off, produce, store,
}
use iu.Concat.Shared.Row.{
  Entry, loads, end_of, Linked, Fresh, Distinct, Linked-append, Linked-update, Distinct-append,
  end_of-append, loads-append, Fresh-front, Linked-end_of, end_of-ne,
}
use iu.Concat.Shared.Invariant.{Consuming, Inv}
use iu.Concat.Shared.Producing.{published, Produced, begins_lem, looks_lem}
use iu.Concat.Shared.Comparing.{compares_lem}
use iu.Concat.Shared.Sweeping.{moves_lem, unlinks_lem, frees_lem}

module _ {T : Type 0} (s : Shared T) where
  -- What the consumer has found is still there when the row has grown.
  Consuming-append :
      (off : Bool) (c : Consumer T) (new : List (Entry T)) (e : Entry T)
      → off ≡ false
      → Consuming off c new
      → Consuming off c (new ++ e ∷ [])
  Consuming-append off Consumer.idle new e f h = tt
  Consuming-append off exited new e f h = absurd (let k = h.1 in cc)
  Consuming-append off (Consumer.looks k) new e f h = tt
  Consuming-append off (tests k) new e f h = tt
  Consuming-append off (retries k) new e f h = h
  Consuming-append off (finds k n) [] e f h = absurd (cc)
  Consuming-append off (finds k n) (x ∷ new) e f h = h
  Consuming-append off (asks k n) [] e f h = absurd (cc)
  Consuming-append off (asks k n) (x ∷ new) e f h = h
  Consuming-append off (takes n x) new e f (g, es, d, h, k) =
      (g, es ++ e ∷ [], ap (λ l. l ++ e ∷ []) d, h, k)

  not_off : (b : Bool) → (b ≡ true → false ≡ true) → b ≡ false
  not_off false h = refl
  not_off true h = absurd (let k = h refl in cc)

  -- A cell that was free is that of no node.
  free-Fresh :
      (p a : ℕ) (es : List (Entry T))
      → s.cell p ≡ none
      → Linked s.cell s.item a es
      → (p ≢ a) × Fresh p es
  free-Fresh p a [] h l = ((λ e. let k : s.cell a ≡ none = ap s.cell (sym e) ∙ h in cc), tt)
  free-Fresh p a (x ∷ es) h l = (
    (λ e. let k : s.cell a ≡ none = ap s.cell (sym e) ∙ h in let j = l.0 in cc),
    free-Fresh p x.addr es h l.2,
  )

  module _ (c : Consumer T) (old new : List (Entry T)) where
    pub allocate-Inv :
        (p : ℕ) (x : Load T)
        → s.cell p ≡ none
        → s.off ≡ false
        → Inv s Producer.idle c old new
        → Inv (allocate p x s) (links p) c old new
    unfolding allocate
    allocate-Inv p x h f inv =
        let (ph, pf) = free-Fresh p home (old ++ new) h inv.linked in
        record {
          linked =
              Linked-update s.cell s.item home p (some none) (some x) (old ++ new) ph pf inv.linked;
          distinct = inv.distinct;
          behind = inv.behind;
          producing =
              (inv.producing, (ph, pf, (none, ground arith), (x, ground arith)), ground arith);
          consuming = inv.consuming;
          closed = λ k. absurd (cc);
          covers = λ a d g n. ground (arith, inv.covers a d g);
        }

    pub turn_off-Inv : Inv s Producer.idle c old new → Inv (turn_off s) Producer.idle c old new
    unfolding turn_off
    turn_off-Inv inv = record {
      linked = inv.linked;
      distinct = inv.distinct;
      behind = inv.behind;
      producing = inv.producing;
      consuming = closing c inv.consuming;
      closed = λ k. refl;
      covers = inv.covers;
    }
      where
        closing : (c : Consumer T) → Consuming s.off c new → Consuming true c new
        closing Consumer.idle h = tt
        closing exited h = (h.0, refl)
        closing (Consumer.looks k) h = tt
        closing (tests k) h = tt
        closing (retries k) h = refl
        closing (finds k n) h = h
        closing (asks k n) h = h
        closing (takes n x) h = h

    -- The store that other threads can see.
    links_lem :
        (p : ℕ) → Inv s (links p) c old new → Produced s (links p) c old new (produce (links p) s)
    unfolding produce store
    links_lem p inv =
        let (last, (ph, pf, (v, cell), (x, item)), none_next) = inv.producing in
        let e : Entry T = record { addr = p; load = x } in
        let row : (old ++ new) ++ e ∷ [] ≡ old ++ (new ++ e ∷ []) = append_assoc old new (e ∷ []) in
        let end : s.cell s.last ≡ some none =
          ap s.cell last
          ∙ Linked-end_of s.cell s.item home (old ++ new) []
              (subst (Linked s.cell s.item home) (sym (append-nil (old ++ new))) inv.linked) in
        (
          record s { cell = update s.cell s.last (some (some p)); producer = advances p },
          old,
          new ++ e ∷ [],
          rw (end, store) refl,
          record {
            linked = subst (Linked (update s.cell s.last (some (some p))) s.item home) row (
                subst
                  (λ a.
                    Linked (update s.cell a (some (some p))) s.item home ((old ++ new) ++ e ∷ []))
                  (sym last)
                  (Linked-append s.cell s.item home (old ++ new) e ph pf inv.distinct none_next item
                    inv.linked));
            distinct =
                subst (Distinct home) row (Distinct-append home (old ++ new) e ph pf inv.distinct);
            behind = inv.behind;
            producing = ap (end_of home) (sym row) ∙ end_of-append home (old ++ new) (e ∷ []);
            consuming = Consuming-append s.off c new e (not_off s.off inv.closed) inv.consuming;
            closed = λ k. absurd (let e : false ≡ true = inv.closed k in cc);
            covers = λ a d f n.
                let (g, ne) = Fresh-front a (old ++ new) e (subst (Fresh a) (sym row) f) in
                let ne_last : a ≢ s.last = λ k. end_of-ne a home (old ++ new) d g (k ∙ last) in
                ground (arith, inv.covers a d g);
          },
          loads-append new (e ∷ []) ∙ rw (item, published) refl,
          refl,
          (
            λ k. omega (arith, length-append {0} (old ++ new) (e ∷ []), ap length row),
            rw (item, published)
                (omega (arith, length-append {0} (old ++ new) (e ∷ []), ap length row)),
          ),
          refl,
        )

    advances_lem :
        (p : ℕ)
        → Inv s (advances p) c old new
        → Produced s (advances p) c old new (produce (advances p) s)
    unfolding produce
    advances_lem p inv = (
      record s { last = p; producer = begins },
      old,
      new,
      refl,
      record {
        linked = inv.linked;
        distinct = inv.distinct;
        behind = inv.behind;
        producing = sym inv.producing;
        consuming = inv.consuming;
        closed = λ k. absurd (let e : false ≡ true = inv.closed k in cc);
        covers = inv.covers;
      },
      sym (append-nil (loads new)),
      refl,
      (λ k. omega arith, omega arith),
      refl,
    )

    idle_lem :
        Inv s Producer.idle c old new
        → s.producer ≡ Producer.idle
        → Produced s Producer.idle c old new (produce Producer.idle s)
    unfolding produce
    idle_lem inv e = (
      s,
      old,
      new,
      refl,
      subst (λ p. Inv s p c old new) (sym e) inv,
      sym (append-nil (loads new)),
      refl,
      (λ k. absurd (cc), omega arith),
      refl,
    )

    pub produce-Produced :
        (p : Producer) → Inv s p c old new → p ≡ s.producer → Produced s p c old new (produce p s)
    produce-Produced Producer.idle inv e = idle_lem inv (sym e)
    produce-Produced (links p) inv e = links_lem p inv
    produce-Produced (advances p) inv e = advances_lem p inv
    produce-Produced begins inv e = begins_lem s c old new inv
    produce-Produced (Producer.looks head iter) inv e = looks_lem s c old new head iter inv
    produce-Produced (compares head iter a) inv e = compares_lem s c head iter a old new inv
    produce-Produced (unlinks iter) inv e =
        let (f, g, es, d) = inv.producing.2 in
        subst (λ l. Produced s (unlinks iter) c l new (produce (unlinks iter) s)) (sym d)
          (unlinks_lem s c iter f g es new (subst (λ l. Inv s (unlinks iter) c l new) d inv))
    produce-Produced (frees p iter) inv e = frees_lem s c p iter old new inv
    produce-Produced (moves iter) inv e = moves_lem s c iter old new inv
