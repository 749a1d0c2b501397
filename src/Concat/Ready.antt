-- ===== src/Concat/Ready.antt =====
-- `ready`, which does not block.
use iu.Prelude.{
  ℕ, zero, suc, ◌≤◌, Bool, true, false, [], ◌≡◌, refl, ap, ◌≢◌, arith, Bool-cases, inl, inr,
}
use iu.Concat.{
  Stream, Nodes, stream, nil, node, given, Result, returns, waits, exits, no_fuel, ready, closed,
  branch, snoc_given,
}
use iu.Concat.View.{Contents, view, view_nodes, size}
use iu.Concat.Depleted.{Same, Same-given, Same-inside, Same-trans, items-given, view-given_waits}
use iu.Concat.Reading.{nothing}

-- Every stream that is closed has been given only streams that come to an end as well.
abbrev mutual
  pub IsProper : {T : Type 0} → Stream T → Type 0
  IsProper (stream kept pending off) = IsProperNodes pending

  pub IsProperNodes : {T : Type 0} → Nodes T → Type 0
  IsProperNodes nil = Unit {0}
  IsProperNodes (node x ns) = IsProperNodes ns
  IsProperNodes (given g ns) =
      (closed g ≡ true → (view g).ended ≡ true) × IsProper g × IsProperNodes ns

module _ {T : Type 0} where
  abbrev pub Readied : Stream T → Result T Bool → Type 0
  Readied s (returns true s') = ((view s).items ≢ []) × Same s s'
  Readied s (returns false s') = ((view s).items ≡ []) × Same s s'
  Readied s waits = ⊥
  Readied s exits = ⊥
  Readied s no_fuel = ⊥

  -- Contents that end are those of a stream that is closed.
  view_nodes-open : (ns : Nodes T) → (view_nodes ns false).ended ≡ false
  unfolding view_nodes
  view_nodes-open nil = refl
  view_nodes-open (node x ns) = view_nodes-open ns
  view_nodes-open (given g ns) = ground (arith, view_nodes-open ns)

  pub view-open : (s : Stream T) → closed s ≡ false → (view s).ended ≡ false
  unfolding view closed
  view-open (stream kept pending true) h = absurd (cc)
  view-open (stream kept pending false) h = view_nodes-open pending

  Readied-Same : (s t : Stream T) (r : Result T Bool) → Same s t → Readied t r → Readied s r
  Readied-Same s t (returns true s') h d = (rw (← h.0) d.0, Same-trans s t s' h d.1)
  Readied-Same s t (returns false s') h d = (rw (← h.0) d.0, Same-trans s t s' h d.1)
  Readied-Same s t waits h d = d
  Readied-Same s t exits h d = d
  Readied-Same s t no_fuel h d = d

  pub contents_eq : (c : Contents T) (b : Bool) → c.items ≡ [] → c.ended ≡ b → c ≡ nothing b
  contents_eq c b p q = λ i. record { items = p i; ended = q i }

  module _ (kept ns : Nodes T) (g : Stream T) (off : Bool) (fuel : ℕ) where
    abbrev skipped : Stream T → Stream T
    skipped g' = stream (snoc_given kept g') ns off

    Readied-given :
        (r : Result T Bool)
        → Readied g r
        → (closed g ≡ true → (view g).ended ≡ true)
        → ((g' : Stream T) → Readied (skipped g') (ready fuel (skipped g')))
        → Readied (stream kept (given g ns) off) (
            branch r
              (λ g'. returns true (stream kept (given g' ns) off))
              (λ g'. elim (closed g) [
                | false ↦ returns false (stream kept (given g' ns) off)
                | true ↦ ready fuel (skipped g')
              ]))
    Readied-given (returns true g') h proper rest =
        (items-given kept ns g off h.0, Same-inside kept ns g g' off h.1)
    Readied-given (returns false g') h proper rest = elim (Bool-cases (closed g)) [
      | inl e ↦ rw e (
          Readied-Same (stream kept (given g ns) off) (skipped g') (ready fuel (skipped g'))
            (Same-given kept (snoc_given kept g') ns g off
              (contents_eq (view g) true h.0 (proper e)))
            (rest g'))
      | inr e ↦ rw e (
        ap (λ c. c.items)
            (view-given_waits kept ns g off (contents_eq (view g) false h.0 (view-open g e))),
        Same-inside kept ns g g' off h.1,
      )
    ]
    Readied-given waits h proper rest = absurd h
    Readied-given exits h proper rest = absurd h
    Readied-given no_fuel h proper rest = absurd h

  -- With enough fuel, and if every stream that is closed was given only streams that end, `ready`
  -- does not wait, is true exactly if an item can be read, and leaves the contents as they were.
  pub ready-Readied :
      (fuel : ℕ) (s : Stream T) → size s ≤ fuel → IsProper s → Readied s (ready fuel s)
  unfolding ready view size
  ready-Readied zero (stream kept pending off) h p = absurd (omega arith)
  ready-Readied (suc fuel) (stream kept nil off) h p = (refl, (refl, omega arith))
  ready-Readied (suc fuel) (stream kept (node x ns) off) h p = ((λ e. cc), (refl, omega arith))
  ready-Readied (suc fuel) (stream kept (given g ns) off) h p =
      Readied-given kept ns g off fuel (ready fuel g) (ready-Readied fuel g (omega arith) p.1) p.0
        (λ g'. ready-Readied fuel (stream (snoc_given kept g') ns off) (omega arith) p.2)

  -- `ready` leaves behind a stream that is closed but was given one that is still open and empty:
  -- it is true though no item can be read yet, and moves on to the items behind.
  pub ready_overtakes :
      (fuel : ℕ) (kept kept_g kept_h ns ms : Nodes T) (x : T) (off : Bool)
      → let h = stream kept_h nil false in
        let g = stream kept_g (given h ms) true in
        (ready (suc (suc (suc fuel))) (stream kept (given g (node x ns)) off)
          ≡ returns true (stream (snoc_given kept g) (node x ns) off))
        × (view (stream kept (given g (node x ns)) off) ≡ nothing false)
  unfolding ready view closed
  ready_overtakes fuel kept kept_g kept_h ns ms x off = (refl, refl)
