-- ===== src/Concat/Reading.antt =====
-- `get`, `peek` and `skip`: the first item that the contents of a stream show.
use iu.Prelude.{
  ℕ, zero, suc, ◌≤◌, Bool, true, false, [], ◌≡◌, refl, sym, ap, ◌∙◌, ◌≢◌, arith, Bool-cases, inl,
  inr,
}
use iu.Concat.{
  Stream, Nodes, stream, nil, node, given, Result, returns, waits, exits, no_fuel, depleted, get,
  skip, branch, inside, snoc_given,
}
use iu.Concat.View.{Contents, before, then_if_ended, view, view_nodes, size}
use iu.Concat.Depleted.{Same, Tested, Same-given, view-given_waits, depleted-Tested}

module _ {T : Type 0} where
  abbrev pub nothing : Bool → Contents T
  nothing ended = record { items = []; ended = ended }

  -- What a call that takes an item may come to.
  abbrev pub Got : {A : Type 0} → (A → T → Type 0) → Stream T → Result T A → Type 0
  Got P s (returns a s') = (x : T) × P a x × (view s ≡ before x (view s'))
  Got P s waits = view s ≡ nothing false
  Got P s exits = view s ≡ nothing true
  Got P s no_fuel = ⊥

  Got-Same :
      {A : Type 0} (P : A → T → Type 0) (s t : Stream T) (r : Result T A)
      → Same s t
      → Got P t r
      → Got P s r
  Got-Same P s t (returns a s') h (x, p, d) = (x, p, sym h.0 ∙ d)
  Got-Same P s t waits h d = sym h.0 ∙ d
  Got-Same P s t exits h d = sym h.0 ∙ d
  Got-Same P s t no_fuel h d = d

  pub before-then :
      (x : T) (c d : Contents T) → then_if_ended (before x c) d ≡ before x (then_if_ended c d)
  before-then x c d = elim (Bool-cases c.ended) [ inl e ↦ rw e | inr e ↦ rw e ]

  Got-inside :
      {A : Type 0} (P : A → T → Type 0) (kept ns : Nodes T) (g : Stream T) (off : Bool)
      (r : Result T A)
      → (view g).items ≢ []
      → Got P g r
      → Got P (stream kept (given g ns) off) (inside kept ns off r)
  Got-inside P kept ns g off (returns a g') n (x, p, d) =
      unfold view in (x, p, rw d (before-then x (view g') (view_nodes ns off)))
  Got-inside P kept ns g off waits n d = absurd (n (ap (λ c. c.items) d))
  Got-inside P kept ns g off exits n d = absurd (n (ap (λ c. c.items) d))
  Got-inside P kept ns g off no_fuel n d = d

  module _ {A : Type 0} (P : A → T → Type 0) (read : ℕ → Stream T → Result T A) (kept ns : Nodes T)
      (g : Stream T) (off : Bool) (fuel : ℕ) where
    -- The case of a given stream, which is the same for the three calls.
    Got-given :
        (r : Result T Bool)
        → Tested g r
        → ((g' : Stream T)
            → Got P
                (stream (snoc_given kept g') ns off)
                (read fuel (stream (snoc_given kept g') ns off)))
        → ((g' : Stream T) → size g' ≤ size g → Got P g' (read fuel g'))
        → Got P (stream kept (given g ns) off) (
            branch r
              (λ g'. read fuel (stream (snoc_given kept g') ns off))
              (λ g'. inside kept ns off (read fuel g')))
    Got-given (returns true g') h done more =
        Got-Same P _ _ (read fuel (stream (snoc_given kept g') ns off))
          (Same-given kept (snoc_given kept g') ns g off h.0) (done g')
    Got-given (returns false g') h done more =
        Got-inside P kept ns g off (read fuel g') h.0
          (Got-Same P g g' (read fuel g') h.1 (more g' h.1.1))
    Got-given waits h done more = view-given_waits kept ns g off h
    Got-given exits h done more = absurd h
    Got-given no_fuel h done more = absurd h

  -- With enough fuel, `get` returns the first item of the contents and leaves the others; it waits
  -- exactly if there is none yet, and exits exactly if there is none and the stream has ended.
  pub get-Got : (fuel : ℕ) (s : Stream T) → size s ≤ fuel → Got (λ a x. a ≡ x) s (get fuel s)
  unfolding get view size
  get-Got zero (stream kept pending off) h = absurd (omega arith)
  get-Got (suc fuel) (stream kept nil true) h = refl
  get-Got (suc fuel) (stream kept nil false) h = refl
  get-Got (suc fuel) (stream kept (node x ns) off) h = (x, refl, refl)
  get-Got (suc fuel) (stream kept (given g ns) off) h =
      Got-given (λ a x. a ≡ x) get kept ns g off fuel (depleted fuel g)
        (depleted-Tested fuel g (omega arith))
        (λ g'. get-Got fuel (stream (snoc_given kept g') ns off) (omega arith))
        (λ g' k. get-Got fuel g' (omega arith))

  -- `skip` drops that item.
  pub skip-Got : (fuel : ℕ) (s : Stream T) → size s ≤ fuel → Got (λ _ x. Unit {0}) s (skip fuel s)
  unfolding skip view size
  skip-Got zero (stream kept pending off) h = absurd (omega arith)
  skip-Got (suc fuel) (stream kept nil true) h = refl
  skip-Got (suc fuel) (stream kept nil false) h = refl
  skip-Got (suc fuel) (stream kept (node x ns) off) h = (x, tt, refl)
  skip-Got (suc fuel) (stream kept (given g ns) off) h =
      Got-given (λ _ x. Unit {0}) skip kept ns g off fuel (depleted fuel g)
        (depleted-Tested fuel g (omega arith))
        (λ g'. skip-Got fuel (stream (snoc_given kept g') ns off) (omega arith))
        (λ g' k. skip-Got fuel g' (omega arith))
