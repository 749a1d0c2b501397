-- ===== src/Concat/Empty.antt =====
-- `empty`, which does not block.
use iu.Prelude.{
  ℕ, zero, suc, ◌≤◌, Bool, true, false, ◌≡◌, refl, sym, ap, ◌∙◌, ◌≢◌, arith, Bool-cases, inl, inr,
}
use iu.Concat.{
  Stream, Nodes, stream, nil, node, given, Result, returns, waits, exits, no_fuel, empty, closed,
  close, branch, snoc_given,
}
use iu.Concat.View.{Contents, then_if_ended, view, view_nodes, size}
use iu.Concat.Depleted.{Same, Same-given, Same-inside, Same-trans, append-ne_nil}
use iu.Concat.Reading.{nothing}
use iu.Concat.Ready.{view-open, contents_eq}

module _ {T : Type 0} where
  abbrev pub Emptied : Stream T → Result T Bool → Type 0
  Emptied s (returns true s') =
      (view (close s) ≡ nothing true) × Same s s' × (view (close s') ≡ view (close s))
  Emptied s (returns false s') =
      (view (close s) ≢ nothing true) × Same s s' × (view (close s') ≡ view (close s))
  Emptied s waits = ⊥
  Emptied s exits = ⊥
  Emptied s no_fuel = ⊥

  Emptied-Same :
      (s t : Stream T) (r : Result T Bool)
      → view (close t) ≡ view (close s)
      → Same s t
      → Emptied t r
      → Emptied s r
  Emptied-Same s t (returns true s') c h d = (rw (← c) d.0, Same-trans s t s' h d.1, d.2 ∙ c)
  Emptied-Same s t (returns false s') c h d = (rw (← c) d.0, Same-trans s t s' h d.1, d.2 ∙ c)
  Emptied-Same s t waits c h d = d
  Emptied-Same s t exits c h d = d
  Emptied-Same s t no_fuel c h d = d

  then_if_ended-ne : (c d : Contents T) → c ≢ nothing true → then_if_ended c d ≢ nothing true
  then_if_ended-ne c d n e = elim (Bool-cases c.ended) [
    | inl k ↦
        append-ne_nil c.items d.items (λ z. n (contents_eq c true z k))
          (ap (λ x. x.items) (rw k at e))
    | inr k ↦ let p : false ≡ true = ap (λ x. x.ended) (rw k at e) in cc
  ]

  view-close : (g : Stream T) → closed g ≡ true → view (close g) ≡ view g
  unfolding closed close
  view-close (stream kept pending true) h = refl
  view-close (stream kept pending false) h = absurd (cc)

  module _ (kept ns : Nodes T) (g : Stream T) (off : Bool) (fuel : ℕ) where
    abbrev passed : Stream T → Stream T
    passed g' = stream (snoc_given kept g') ns off

    close-given_ne :
        view g ≢ nothing true → view (close (stream kept (given g ns) off)) ≢ nothing true
    unfolding close view
    close-given_ne n = then_if_ended-ne (view g) (view_nodes ns true) n

    close-given_eq :
        (g' : Stream T)
        → view g ≡ nothing true
        → view (close (passed g')) ≡ view (close (stream kept (given g ns) off))
    unfolding close view
    close-given_eq g' e = rw e

    close-inside :
        (g' : Stream T)
        → view g' ≡ view g
        → view (close (stream kept (given g' ns) off)) ≡ view (close (stream kept (given g ns) off))
    unfolding close view
    close-inside g' e = rw e refl

    open_ne : closed g ≡ false → view g ≢ nothing true
    open_ne e k =
        let p : (view g).ended ≡ true = ap (λ c. c.ended) k in ground (arith, view-open g e)

    Emptied-given :
        (r : Result T Bool)
        → Emptied g r
        → ((g' : Stream T) → Emptied (passed g') (empty fuel (passed g')))
        → Emptied (stream kept (given g ns) off) (elim (closed g) [
          | false ↦ returns false (stream kept (given g ns) off)
          | true ↦
              branch r
                (λ g'. empty fuel (passed g'))
                (λ g'. returns false (stream kept (given g' ns) off))
        ])
    Emptied-given r h rest = elim (Bool-cases (closed g)) [
      | inl e ↦ rw e (go r h e)
      | inr e ↦ rw e (close-given_ne (λ k. open_ne e k), (refl, omega arith), refl)
    ]
      where
        go :
            (r : Result T Bool)
            → Emptied g r
            → closed g ≡ true
            → Emptied (stream kept (given g ns) off) (
                branch r
                  (λ g'. empty fuel (passed g'))
                  (λ g'. returns false (stream kept (given g' ns) off)))
        go (returns true g') h e =
            let v : view g ≡ nothing true = sym (view-close g e) ∙ h.0 in
            Emptied-Same (stream kept (given g ns) off) (passed g') (empty fuel (passed g'))
              (close-given_eq g' v) (Same-given kept (snoc_given kept g') ns g off v) (rest g')
        go (returns false g') h e = (
          close-given_ne (λ k. h.0 (view-close g e ∙ k)),
          Same-inside kept ns g g' off h.1,
          close-inside g' h.1.0,
        )
        go waits h e = absurd h
        go exits h e = absurd h
        go no_fuel h e = absurd h

  -- With enough fuel, `empty` does not wait, is true exactly if nothing could be read if the
  -- producer closed the stream now, and leaves the contents as they were, also those if it were
  -- closed.
  pub empty-Emptied : (fuel : ℕ) (s : Stream T) → size s ≤ fuel → Emptied s (empty fuel s)
  unfolding empty view size close
  empty-Emptied zero (stream kept pending off) h = absurd (omega arith)
  empty-Emptied (suc fuel) (stream kept nil off) h = (refl, (refl, omega arith), refl)
  empty-Emptied (suc fuel) (stream kept (node x ns) off) h = ((λ e. cc), (refl, omega arith), refl)
  empty-Emptied (suc fuel) (stream kept (given g ns) off) h =
      Emptied-given kept ns g off fuel (empty fuel g) (empty-Emptied fuel g (omega arith))
        (λ g'. empty-Emptied fuel (stream (snoc_given kept g') ns off) (omega arith))
