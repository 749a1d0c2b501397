-- ===== src/Concat/Peeking.antt =====
-- `peek`: the first item, which stays.
use iu.Prelude.{ℕ, zero, suc, ◌≤◌, Bool, true, false, [], ◌≡◌, refl, sym, ap, ◌∙◌, ◌≢◌, arith}
use iu.Concat.{
  Stream, Nodes, stream, nil, node, given, Result, returns, waits, exits, no_fuel, depleted, peek,
  branch, inside, snoc_given,
}
use iu.Concat.View.{Contents, before, then_if_ended, view, view_nodes, size}
use iu.Concat.Depleted.{
  Same, Tested, Same-given, Same-inside, Same-trans, view-given_waits, depleted-Tested,
}
use iu.Concat.Reading.{nothing, before-then}

module _ {T : Type 0} where
  abbrev pub Peeked : Stream T → Result T T → Type 0
  Peeked s (returns x s') = ((c : Contents T) × (view s ≡ before x c)) × Same s s'
  Peeked s waits = view s ≡ nothing false
  Peeked s exits = view s ≡ nothing true
  Peeked s no_fuel = ⊥

  Peeked-Same : (s t : Stream T) (r : Result T T) → Same s t → Peeked t r → Peeked s r
  Peeked-Same s t (returns x s') h ((c, e), d) = ((c, sym h.0 ∙ e), Same-trans s t s' h d)
  Peeked-Same s t waits h d = sym h.0 ∙ d
  Peeked-Same s t exits h d = sym h.0 ∙ d
  Peeked-Same s t no_fuel h d = d

  module _ (kept ns : Nodes T) (g : Stream T) (off : Bool) where
    Peeked-inside :
        (r : Result T T)
        → (view g).items ≢ []
        → Peeked g r
        → Peeked (stream kept (given g ns) off) (inside kept ns off r)
    Peeked-inside (returns x g') n ((c, e), d) = (
      (
        then_if_ended c (view_nodes ns off),
        unfold view in rw e (before-then x c (view_nodes ns off)),
      ),
      Same-inside kept ns g g' off d,
    )
    Peeked-inside waits n d = absurd (n (ap (λ c. c.items) d))
    Peeked-inside exits n d = absurd (n (ap (λ c. c.items) d))
    Peeked-inside no_fuel n d = d

    Peeked-given :
        (fuel : ℕ) (r : Result T Bool)
        → Tested g r
        → ((g' : Stream T)
            → Peeked
                (stream (snoc_given kept g') ns off)
                (peek fuel (stream (snoc_given kept g') ns off)))
        → ((g' : Stream T) → size g' ≤ size g → Peeked g' (peek fuel g'))
        → Peeked (stream kept (given g ns) off) (
            branch r
              (λ g'. peek fuel (stream (snoc_given kept g') ns off))
              (λ g'. inside kept ns off (peek fuel g')))
    Peeked-given fuel (returns true g') h done more =
        Peeked-Same _ _ (peek fuel (stream (snoc_given kept g') ns off))
          (Same-given kept (snoc_given kept g') ns g off h.0) (done g')
    Peeked-given fuel (returns false g') h done more =
        Peeked-inside (peek fuel g') h.0 (Peeked-Same g g' (peek fuel g') h.1 (more g' h.1.1))
    Peeked-given fuel waits h done more = view-given_waits kept ns g off h
    Peeked-given fuel exits h done more = absurd h
    Peeked-given fuel no_fuel h done more = absurd h

  -- With enough fuel, `peek` returns the item that `get` would return, and leaves the contents.
  pub peek-Peeked : (fuel : ℕ) (s : Stream T) → size s ≤ fuel → Peeked s (peek fuel s)
  unfolding peek view size
  peek-Peeked zero (stream kept pending off) h = absurd (omega arith)
  peek-Peeked (suc fuel) (stream kept nil true) h = refl
  peek-Peeked (suc fuel) (stream kept nil false) h = refl
  peek-Peeked (suc fuel) (stream kept (node x ns) off) h =
      ((view_nodes ns off, refl), (refl, omega arith))
  peek-Peeked (suc fuel) (stream kept (given g ns) off) h =
      Peeked-given kept ns g off fuel (depleted fuel g) (depleted-Tested fuel g (omega arith))
        (λ g'. peek-Peeked fuel (stream (snoc_given kept g') ns off) (omega arith))
        (λ g' k. peek-Peeked fuel g' (omega arith))
