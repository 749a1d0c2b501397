-- ===== src/Concat/Shared/Uninterrupted.antt =====
-- A `sweep` that the consumer does not interrupt.
use iu.Prelude.{
  update, ℕ, ◌≡◌, refl, sym, ap, subst, ◌∙◌, ◌≢◌, true, false, Option, none, some, List, [], ◌∷◌,
  ◌++◌, ◌==◌, arith, length, append-nil, Bool-cases, inl, inr,
}
use iu.Concat.Shared.{
  Producer, begins, compares, unlinks, frees, moves, Consumer, Shared, home, same, goes, produce,
  unlink, store, free,
}
use iu.Concat.Shared.Row.{Entry, loads, front, Fresh, Distinct, Linked-end_of}
use iu.Concat.Shared.Invariant.{is_idle, weight, left_of, Inv}
use iu.Concat.Shared.Producing.{published, same_refl}
use iu.Concat.Shared.Comparing.{snapshot_cell}
use iu.Concat.Shared.Sweeping.{move_end, move_on}
use iu.Concat.Shared.Alone.{last_only, EndsFrom, idle_EndsFrom, step_EndsFrom}

module _ {T : Type 0} (c : Consumer T) where
  -- `sweep` ends with the last of these nodes left behind, and nothing else changes.
  abbrev pub Sweeps : Producer → Shared T → (old new : List (Entry T)) → Type 0
  Sweeps p s old new =
      s.producer ≡ p
      → Inv s p c old new
      → EndsFrom c p s (last_only old) (loads new) (weight p (length (old ++ new)))

  -- One access after which `sweep` goes on.
  next-Sweeps :
      (s u : Shared T) (p : Producer) (old new : List (Entry T))
      → s.producer ≡ p
      → is_idle p ≡ false
      → published p s ≡ []
      → produce p s ≡ some u
      → last_only (left_of p old) ≡ last_only old
      → ((new' : List (Entry T)) → Sweeps u.producer u (left_of p old) new')
      → Inv s p c old new
      → EndsFrom c p s (last_only old) (loads new) (weight p (length (old ++ new)))
  next-Sweeps s u p old new e i n r o k inv =
      step_EndsFrom c s u p old new (last_only old) (loads new) e i r inv λ new' inv' l.
        subst
          (λ l.
            EndsFrom c u.producer u (last_only old) l
              (weight u.producer (length (left_of p old ++ new'))))
          (l ∙ ap (λ x. loads new ++ x) n ∙ append-nil (loads new))
          (subst
            (λ o.
              EndsFrom c u.producer u o (loads new')
                (weight u.producer (length (left_of p old ++ new'))))
            o (k new' refl inv'))

  idle-Sweeps :
      (s : Shared T) (old new : List (Entry T))
      → last_only old ≡ old
      → Sweeps Producer.idle s old new
  idle-Sweeps s old new o e inv =
      subst (λ o. EndsFrom c Producer.idle s o (loads new) 0) (sym o)
        (idle_EndsFrom c s old new 0 e inv)

  unlink_lem :
      (s : Shared T) (iter : Option ℕ) (f g : Entry T) (es new : List (Entry T))
      → Inv s (unlinks iter) c (f ∷ g ∷ es) new
      → produce (unlinks iter) s
        ≡ some (record s {
          cell = update s.cell home (some (some g.addr));
          producer = frees f.addr iter;
        })
  unfolding produce unlink store
  unlink_lem s iter f g es new inv =
      rw (inv.linked.0, unlink) (rw (inv.linked.2.0, unlink) (rw (inv.linked.0, store) refl))

  free_lem :
      (s : Shared T) (p : ℕ) (iter : Option ℕ) (old new : List (Entry T))
      → Inv s (frees p iter) c old new
      → produce (frees p iter) s
        ≡ some (record s {
          cell = update s.cell p none;
          item = update s.item p none;
          producer = moves iter;
        })
  unfolding produce free
  free_lem s p iter old new inv =
      let (_, _, _, (_, _, (v, cell), _)) = inv.producing in rw (cell, free) refl

  -- With the consumer behind the first node, nothing is freed.
  compares_one :
      (s : Shared T) (iter : Option ℕ) (f : Entry T) (new : List (Entry T))
      → let p = compares false iter s.listener in Sweeps p s (f ∷ []) new
  unfolding produce
  compares_one s iter f new e inv =
      let v = snapshot_cell s c s.listener (f ∷ []) new (f ∷ []) [] refl inv.behind inv.linked in
      let i : same (front new) iter ≡ true =
        subst (λ i. same (front new) i ≡ true) (sym inv.producing.1.0) (same_refl (front new)) in
      next-Sweeps s (goes Producer.idle s) (compares false iter s.listener) (f ∷ []) new e refl refl
        (rw (v, produce) (rw i refl)) refl
        (λ new'. idle-Sweeps (goes Producer.idle s) (f ∷ []) new' refl) inv

  Distinct-Fresh : (a : ℕ) (es : List (Entry T)) → Distinct a es → Fresh a es
  Distinct-Fresh a [] d = tt
  Distinct-Fresh a (e ∷ es) d = d.0

  -- The node behind the first is not the one that the consumer waits for.
  front-ne :
      (a : ℕ) (gs new : List (Entry T)) → Fresh a (gs ++ new) → same (front new) (some a) ≡ false
  front-ne a gs [] h = refl
  front-ne a gs (x ∷ new) h = elim (Bool-cases (x.addr == a)) [
    | inl k ↦ absurd (last_ne gs h (ground arith))
    | inr k ↦ k
  ]
    where
      last_ne : (gs : List (Entry T)) → Fresh a (gs ++ x ∷ new) → a ≢ x.addr
      last_ne [] f = f.0
      last_ne (y ∷ gs) f = last_ne gs f.1

  -- Else the first node is unlinked and freed, and `sweep` goes on with one node less.
  compares_more :
      (s : Shared T) (iter : Option ℕ) (f g : Entry T) (gs new : List (Entry T))
      → ((s' : Shared T) (iter' : Option ℕ) (new' : List (Entry T))
          → Sweeps (moves iter') s' (g ∷ gs) new')
      → let p = compares false iter s.listener in Sweeps p s (f ∷ g ∷ gs) new
  unfolding produce
  compares_more s iter f g gs new again e inv =
      let old = f ∷ g ∷ gs in
      let v =
        snapshot_cell s c s.listener old new old [] (sym (append-nil old)) inv.behind inv.linked in
      let i : same (front new) iter ≡ false =
        subst (λ i. same (front new) i ≡ false) (sym inv.producing.1.0)
          (front-ne g.addr gs new (Distinct-Fresh g.addr (gs ++ new) inv.distinct.1.1)) in
      next-Sweeps s (goes (unlinks iter) s) (compares false iter s.listener) old new e refl refl
        (rw (v, produce) (rw i refl)) refl (unlinking (goes (unlinks iter) s)) inv
    where
      freeing : (s : Shared T) (p : ℕ) (new : List (Entry T)) → Sweeps (frees p iter) s (g ∷ gs) new
      freeing s p new e inv =
          next-Sweeps s
            (record s {
              cell = update s.cell p none;
              item = update s.item p none;
              producer = moves iter;
            })
            (frees p iter) (g ∷ gs) new e refl refl (free_lem s p iter (g ∷ gs) new inv) refl
            (again _ iter) inv

      unlinking : (s : Shared T) (new : List (Entry T)) → Sweeps (unlinks iter) s (f ∷ g ∷ gs) new
      unlinking s new e inv =
          next-Sweeps s
            (record s {
              cell = update s.cell home (some (some g.addr));
              producer = frees f.addr iter;
            })
            (unlinks iter) (f ∷ g ∷ gs) new e refl refl (unlink_lem s iter f g gs new inv) refl
            (freeing _ f.addr) inv

  looks_loop :
      (s : Shared T) (iter : Option ℕ) (f : Entry T) (es new : List (Entry T))
      → ((s' : Shared T) (a : ℕ) (new' : List (Entry T))
          → s'.listener ≡ a
          → Sweeps (compares false iter a) s' (f ∷ es) new')
      → Sweeps (Producer.looks false iter) s (f ∷ es) new
  unfolding produce
  looks_loop s iter f es new k e inv =
      next-Sweeps s (goes (compares false iter s.listener) s) (Producer.looks false iter) (f ∷ es)
        new e refl refl refl refl
        (λ new'. k (goes (compares false iter s.listener) s) s.listener new' refl) inv

  after_move :
      (f : Entry T) (es : List (Entry T)) (s : Shared T) (iter : Option ℕ) (new : List (Entry T))
      → ((s' : Shared T) (a : ℕ) (i : Option ℕ) (new' : List (Entry T))
          → s'.listener ≡ a
          → Sweeps (compares false i a) s' (f ∷ es) new')
      → Sweeps (moves iter) s (f ∷ es) new
  after_move f es s iter new k e inv = row (es ++ new) refl
    where
      row :
          (rest : List (Entry T))
          → es ++ new ≡ rest
          → EndsFrom c
              (moves iter)
              s
              (last_only (f ∷ es))
              (loads new)
              (weight (moves iter) (length ((f ∷ es) ++ new)))
      row [] d =
          next-Sweeps s (goes Producer.idle s) (moves iter) (f ∷ es) new e refl refl
            (move_end s c iter f.addr inv.producing.1 (
              Linked-end_of s.cell s.item home (f ∷ []) (es ++ new) inv.linked
              ∙ ap (λ l. some (front l)) d))
            refl (λ new'. idle-Sweeps (goes Producer.idle s) (f ∷ es) new' (alone es d)) inv
        where
          alone : (es : List (Entry T)) → es ++ new ≡ [] → last_only (f ∷ es) ≡ f ∷ es
          alone [] d = refl
          alone (x ∷ es) d = absurd (cc)
      row (g ∷ rest) d =
          next-Sweeps s (goes (Producer.looks false (some g.addr)) s) (moves iter) (f ∷ es) new e
            refl refl
            (move_on s c iter f.addr g.addr inv.producing.1 (
              Linked-end_of s.cell s.item home (f ∷ []) (es ++ new) inv.linked
              ∙ ap (λ l. some (front l)) d))
            refl
            (λ new'.
              looks_loop (goes (Producer.looks false (some g.addr)) s) (some g.addr) f es new'
                (λ s' a. k s' a (some g.addr)))
            inv

  -- The loop, by the nodes that are left behind.
  moves_loop :
      (f : Entry T) (es : List (Entry T)) (s : Shared T) (iter : Option ℕ) (new : List (Entry T))
      → Sweeps (moves iter) s (f ∷ es) new
  moves_loop f [] s iter new = after_move f [] s iter new λ s' a i new' d.
      subst (λ a. Sweeps (compares false i a) s' (f ∷ []) new') d (compares_one s' i f new')
  moves_loop f (g ∷ gs) s iter new = after_move f (g ∷ gs) s iter new λ s' a i new' d.
      subst (λ a. Sweeps (compares false i a) s' (f ∷ g ∷ gs) new') d
        (compares_more s' i f g gs new' (moves_loop g gs))

  -- The test before the loop.
  compares_first :
      (s : Shared T) (iter : Option ℕ) (old new : List (Entry T))
      → Sweeps (compares true iter s.listener) s old new
  unfolding produce
  compares_first s iter [] new e inv =
      let v = snapshot_cell s c s.listener [] new [] [] refl inv.behind inv.linked in
      let i : same (front new) iter ≡ true =
        subst (λ i. same (front new) i ≡ true) (sym inv.producing.1) (same_refl (front new)) in
      next-Sweeps s (goes Producer.idle s) (compares true iter s.listener) [] new e refl refl
        (rw (v, produce) (rw i refl)) refl (λ new'. idle-Sweeps (goes Producer.idle s) [] new' refl)
        inv
  compares_first s iter (f ∷ es) new e inv =
      let old = f ∷ es in
      let v =
        snapshot_cell s c s.listener old new old [] (sym (append-nil old)) inv.behind inv.linked in
      let i : same (front new) iter ≡ false =
        subst (λ i. same (front new) i ≡ false) (sym inv.producing.1)
          (front-ne f.addr es new (Distinct-Fresh f.addr (es ++ new) inv.distinct.1)) in
      next-Sweeps s (goes (moves iter) s) (compares true iter s.listener) old new e refl refl
        (rw (v, produce) (rw i refl)) refl (moves_loop f es (goes (moves iter) s) iter) inv

  pub begins_sweep : (s : Shared T) (old new : List (Entry T)) → Sweeps begins s old new
  unfolding produce
  begins_sweep s old new e inv =
      let iter = front (old ++ new) in
      let looking = goes (Producer.looks true iter) s in
      next-Sweeps s looking begins old new e refl refl
        (rw (Linked-end_of s.cell s.item home [] (old ++ new) inv.linked, produce) refl) refl
        (λ new' e' inv'.
          next-Sweeps looking (goes (compares true iter s.listener) looking)
            (Producer.looks true iter) old new' e' refl refl refl refl
            (compares_first (goes (compares true iter s.listener) looking) iter old) inv')
        inv
