-- ===== src/Concat/Shared/Sweeping.antt =====
-- The loop of `sweep` between its comparisons.
use iu.Prelude.{
  update, ℕ, ◌≡◌, refl, sym, ap, subst, ◌∙◌, true, false, Option, none, some, List, [], ◌∷◌, ◌++◌,
  arith, append-nil,
}
use iu.Concat.Shared.{
  Producer, unlinks, frees, moves, Consumer, Shared, home, goes, produce, unlink, store, free, move,
}
use iu.Concat.Shared.Row.{Entry, loads, front, Linked, Linked-end_of, Linked-store, Linked-update}
use iu.Concat.Shared.Invariant.{tail, Inv}
use iu.Concat.Shared.Producing.{Produced, goes-Produced}

module _ {T : Type 0} (s : Shared T) (c : Consumer T) where
  pub move_end :
      (iter : Option ℕ) (i : ℕ)
      → iter ≡ some i
      → s.cell i ≡ some none
      → produce (moves iter) s ≡ some (goes Producer.idle s)
  unfolding produce move
  move_end iter i e h = rw e (rw (h, move) refl)

  pub move_on :
      (iter : Option ℕ) (i n : ℕ)
      → iter ≡ some i
      → s.cell i ≡ some (some n)
      → produce (moves iter) s ≡ some (goes (Producer.looks false (some n)) s)
  unfolding produce move
  move_on iter i n e h = rw e (rw (h, move) refl)

  -- `iter` moves on to the node behind the first one.
  moves_row :
      (iter : Option ℕ) (f : Entry T) (row old new : List (Entry T))
      → old ++ new ≡ f ∷ row
      → let p = moves iter in Inv s p c old new → Produced s p c old new (produce p s)
  moves_row iter f [] old new r inv =
      goes-Produced s c old new (moves iter) Producer.idle (produce (moves iter) s) inv refl refl
        (refl, refl) inv.producing.0 (omega arith)
        (move_end iter f.addr (inv.producing.1 ∙ ap front r) (
          Linked-end_of s.cell s.item home (f ∷ []) []
            (subst (Linked s.cell s.item home) r inv.linked)))
  moves_row iter f (g ∷ row) old new r inv =
      goes-Produced s c old new (moves iter) (Producer.looks false (some g.addr))
        (produce (moves iter) s) inv refl refl (refl, refl)
        (inv.producing.0, (ap (λ l. front (tail l)) (sym r), λ d. cc, inv.producing.2))
        (omega arith)
        (move_on iter f.addr g.addr (inv.producing.1 ∙ ap front r) (
          Linked-end_of s.cell s.item home (f ∷ []) (g ∷ row)
            (subst (Linked s.cell s.item home) r inv.linked)))

  pub moves_lem :
      (iter : Option ℕ) (old new : List (Entry T))
      → let p = moves iter in Inv s p c old new → Produced s p c old new (produce p s)
  moves_lem iter [] new inv = absurd (inv.producing.2 refl)
  moves_lem iter (f ∷ old) new inv = moves_row iter f (old ++ new) (f ∷ old) new refl inv

  -- `first` moves on, and the first node is the producer's own.
  pub unlinks_lem :
      (iter : Option ℕ) (f g : Entry T) (es new : List (Entry T))
      → let p = unlinks iter in
        Inv s p c (f ∷ g ∷ es) new → Produced s p c (f ∷ g ∷ es) new (produce p s)
  unfolding produce unlink store
  unlinks_lem iter f g es new inv = (
    record s { cell = update s.cell home (some (some g.addr)); producer = frees f.addr iter },
    g ∷ es,
    new,
    rw (inv.linked.0, unlink) (rw (inv.linked.2.0, unlink) (rw (inv.linked.0, store) refl)),
    record {
      linked = (
        ground arith,
        inv.linked.2.1,
        Linked-store s.cell s.item g.addr home (some (some g.addr)) (es ++ new) inv.distinct.0.1.0
            inv.distinct.0.1.1 inv.linked.2.2,
      );
      distinct = (inv.distinct.0.1, inv.distinct.1.1);
      behind = inv.behind;
      producing = (
        inv.producing.0,
        inv.producing.1,
        λ d. cc,
        (
          λ d. inv.distinct.0.0 (sym d),
          inv.distinct.1.0,
          (some g.addr, ground arith),
          (f.load, inv.linked.1),
        ),
      );
      consuming = inv.consuming;
      closed = λ k. absurd (let e : false ≡ true = inv.closed k in cc);
      covers = λ a d h n. ground (arith, inv.covers a d);
    },
    sym (append-nil (loads new)),
    refl,
    (λ k. omega arith, omega arith),
    refl,
  )

  -- The node that is freed is not in the row.
  pub frees_lem :
      (q : ℕ) (iter : Option ℕ) (old new : List (Entry T))
      → let p = frees q iter in Inv s p c old new → Produced s p c old new (produce p s)
  unfolding produce free
  frees_lem q iter old new inv =
      let (last, i, ne, (qh, qf, (v, cell), x)) = inv.producing in
      (
        record s {
          cell = update s.cell q none;
          item = update s.item q none;
          producer = moves iter;
        },
        old,
        new,
        rw (cell, free) refl,
        record {
          linked = Linked-update s.cell s.item home q none none (old ++ new) qh qf inv.linked;
          distinct = inv.distinct;
          behind = inv.behind;
          producing = (last, i, ne);
          consuming = inv.consuming;
          closed = λ k. absurd (let e : false ≡ true = inv.closed k in cc);
          covers = λ a d h n. ground (arith, inv.covers a d h);
        },
        sym (append-nil (loads new)),
        refl,
        (λ k. omega arith, omega arith),
        refl,
      )
