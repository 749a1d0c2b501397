-- ===== src/Concat/Shared/Refining.antt =====
-- A `put` or a `give` that the consumer does not interrupt is that of Concat.
use iu.Prelude.{
  update, ℕ, suc, ◌≡◌, refl, sym, ap, subst, ◌∙◌, Bool, false, none, some, List, [], ◌∷◌, ◌++◌,
  arith, length, append-nil,
}
use iu.Concat.{Stream, Nodes, stream, nil, node, given, put, give, sweep, snoc_node, snoc_given}
use iu.Concat.Shared.{
  Load, holds, gives, Producer, links, advances, begins, Consumer, Shared, home, allocate, produce,
  store,
}
use iu.Concat.Shared.Row.{Entry, loads, Linked, Linked-end_of}
use iu.Concat.Shared.Invariant.{weight, Inv}
use iu.Concat.Shared.Producing.{published}
use iu.Concat.Shared.Putting.{allocate-Inv}
use iu.Concat.Shared.Worlds.{World, start, Reach, Reach-IsCoherent}
use iu.Concat.Shared.Alone.{run-Keeps, run, last_only, EndsFrom, step_EndsFrom}
use iu.Concat.Shared.Uninterrupted.{begins_sweep}

module _ {T : Type 0} (stream_of : ℕ → Stream T) where
  -- The nodes of a row, where the given streams are these.
  abbrev pub nodes_of : List (Load T) → Nodes T
  nodes_of [] = nil
  nodes_of (holds x ∷ l) = node x (nodes_of l)
  nodes_of (gives g ∷ l) = given (stream_of g) (nodes_of l)

  abbrev pub add_node : Load T → Nodes T → Nodes T
  add_node (holds x) ns = snoc_node ns x
  add_node (gives g) ns = snoc_given ns (stream_of g)

  -- `put` or `give`.
  abbrev pub add : Load T → Stream T → Stream T
  add (holds x) s = put x s
  add (gives g) s = give (stream_of g) s

  nodes_of-append :
      (l : List (Load T)) (x : Load T) → nodes_of (l ++ x ∷ []) ≡ add_node x (nodes_of l)
  unfolding snoc_node snoc_given
  nodes_of-append [] (holds x) = refl
  nodes_of-append [] (gives g) = refl
  nodes_of-append (holds y ∷ l) (holds x) = ap (node y) (nodes_of-append l (holds x))
  nodes_of-append (holds y ∷ l) (gives g) = ap (node y) (nodes_of-append l (gives g))
  nodes_of-append (gives h ∷ l) (holds x) = ap (given (stream_of h)) (nodes_of-append l (holds x))
  nodes_of-append (gives h ∷ l) (gives g) = ap (given (stream_of h)) (nodes_of-append l (gives g))

  -- `sweep` on the nodes that were left behind.
  sweep-nodes_of :
      (es : List (Entry T)) → nodes_of (loads (last_only es)) ≡ sweep (nodes_of (loads es))
  unfolding sweep
  sweep-nodes_of [] = refl
  sweep-nodes_of (e ∷ []) = one e.load
    where
      one : (x : Load T) → nodes_of (x ∷ []) ≡ sweep (nodes_of (x ∷ []))
      one (holds x) = refl
      one (gives g) = refl
  sweep-nodes_of (e ∷ f ∷ es) = sweep-nodes_of (f ∷ es) ∙ more e.load f.load
    where
      more : (x y : Load T) → sweep (nodes_of (y ∷ loads es)) ≡ sweep (nodes_of (x ∷ y ∷ loads es))
      more (holds x) (holds y) = refl
      more (holds x) (gives h) = refl
      more (gives g) (holds y) = refl
      more (gives g) (gives h) = refl

  -- What the memory stands for, when the producer is in no call.
  abbrev pub as_stream : (old new : List (Load T)) → Bool → Stream T
  as_stream old new off = stream (nodes_of old) (nodes_of new) off

  add-as_stream :
      (x : Load T) (old : List (Entry T)) (new : List (Load T)) (off : Bool)
      → as_stream (loads (last_only old)) (new ++ x ∷ []) off
        ≡ add x (as_stream (loads old) new off)
  unfolding put give
  add-as_stream (holds x) old new off =
      ap (λ ns. stream ns (nodes_of (new ++ holds x ∷ [])) off) (sweep-nodes_of old)
      ∙ ap (λ ns. stream (sweep (nodes_of (loads old))) ns off) (nodes_of-append new (holds x))
  add-as_stream (gives g) old new off =
      ap (λ ns. stream ns (nodes_of (new ++ gives g ∷ [])) off) (sweep-nodes_of old)
      ∙ ap (λ ns. stream (sweep (nodes_of (loads old))) ns off) (nodes_of-append new (gives g))

module _ {T : Type 0} where
  links_step :
      (s : Shared T) (p : ℕ) (c : Consumer T) (old new : List (Entry T))
      → Inv s (links p) c old new
      → produce (links p) s
        ≡ some (record s { cell = update s.cell s.last (some (some p)); producer = advances p })
  unfolding produce store
  links_step s p c old new inv =
      let end : s.cell s.last ≡ some none =
        ap s.cell inv.producing.0
        ∙ Linked-end_of s.cell s.item home (old ++ new) []
            (subst (Linked s.cell s.item home) (sym (append-nil (old ++ new))) inv.linked) in
      rw (end, store) refl

  -- From the store that publishes the node to the end of `sweep`.
  links_EndsFrom :
      (s : Shared T) (p : ℕ) (x : Load T) (c : Consumer T) (old new : List (Entry T))
      → s.producer ≡ links p
      → s.item p ≡ some x
      → Inv s (links p) c old new
      → EndsFrom c
          (links p)
          s
          (last_only old)
          (loads new ++ x ∷ [])
          (weight (links p) (length (old ++ new)))
  unfolding produce
  links_EndsFrom s p x c old new e h inv =
      let u : Shared T = record s {
        cell = update s.cell s.last (some (some p));
        producer = advances p;
      } in
      let v : Shared T = record u { last = p; producer = begins } in
      step_EndsFrom c s u (links p) old new (last_only old) (loads new ++ x ∷ []) e refl
        (links_step s p c old new inv) inv
        λ new' inv' l.
          step_EndsFrom c u v (advances p) old new' (last_only old) (loads new ++ x ∷ []) refl refl
            refl inv'
            λ new'' inv'' l'.
              subst
                (λ l. EndsFrom c begins v (last_only old) l (weight begins (length (old ++ new''))))
                (l' ∙ append-nil (loads new') ∙ l ∙ rw (h, published) refl)
                (begins_sweep c v old new'' refl inv'')

module _ {T : Type 0} (stream_of : ℕ → Stream T) where
  -- The stream that the memory stands for, between the producer's calls.
  abbrev pub Shows : Shared T → Stream T → Type 0
  Shows s st =
      (old : List (Entry T)) × (new : List (Entry T)) × Inv s s.producer s.consumer old new
      × (st ≡ as_stream stream_of (loads old) (loads new) s.off)

  add_alone :
      (s : Shared T) (p : ℕ) (x : Load T) (old new : List (Entry T))
      → s.cell p ≡ none
      → s.off ≡ false
      → Inv s Producer.idle s.consumer old new
      → (fuel : ℕ) × (s' : Shared T) × (run fuel (links p) (allocate p x s) ≡ some s')
        × (s'.producer ≡ Producer.idle)
        × Shows s' (add stream_of x (as_stream stream_of (loads old) (loads new) s.off))
  unfolding allocate
  add_alone s p x old new h o inv =
      let n = weight (links p) (length (old ++ new)) in
      let (s', new', e, i, inv', l) =
        links_EndsFrom (allocate p x s) p x s.consumer old new refl (ground arith)
          (allocate-Inv s s.consumer old new p x h o inv) (suc n) (omega arith) in
      let (off, consumer) = run-Keeps (suc n) (links p) (allocate p x s) s' e in
      (
        suc n,
        s',
        e,
        i,
        (
          last_only old,
          new',
          subst (λ c. Inv s' s'.producer c (last_only old) new') (sym consumer)
              (subst (λ p. Inv s' p s.consumer (last_only old) new') (sym i) inv'),
          sym (add-as_stream stream_of x old (loads new) s.off)
              ∙ ap (λ l. as_stream stream_of (loads (last_only old)) l s.off) (sym l)
              ∙ ap (as_stream stream_of (loads (last_only old)) (loads new')) (sym off),
        ),
      )

  -- Between two calls of the producer, in every interleaving up to then, the memory stands for a
  -- stream as Concat describes it: the nodes that the consumer has left behind and that are not
  -- freed, and those before it. If the stream is not closed, and the consumer does not interrupt the
  -- next `put` or `give`, then that ends, and the memory stands for the stream after Concat's `put`
  -- or `give`: `sweep` has freed the same nodes, and the new node is behind all others.
  pub add_refines :
      {w : World T} (p : ℕ) (x : Load T)
      → Reach start w
      → w.shared.producer ≡ Producer.idle
      → w.shared.off ≡ false
      → w.shared.cell p ≡ none
      → (st : Stream T) × (fuel : ℕ) × (s : Shared T) × Shows w.shared st
        × (run fuel (links p) (allocate p x w.shared) ≡ some s)
        × (s.producer ≡ Producer.idle)
        × Shows s (add stream_of x st)
  add_refines {w} p x r i o h =
      let (old, new, c) = Reach-IsCoherent r in
      let inv = subst (λ p. Inv w.shared p w.shared.consumer old new) i c.inv in
      let (fuel, s, e, j, shows) = add_alone w.shared p x old new h o inv in
      (
        as_stream stream_of (loads old) (loads new) w.shared.off,
        fuel,
        s,
        (old, new, c.inv, refl),
        e,
        j,
        shows,
      )
