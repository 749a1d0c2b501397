-- ===== src/Concat/Proper.antt =====
-- The consumer's calls keep a stream proper, so that they can go on.
use iu.Prelude.{
  ℕ, zero, suc, ◌≤◌, Bool, true, false, ◌≡◌, refl, ap, ◌∙◌, sym, arith, Bool-cases, inl, inr,
}
use iu.Concat.{
  Stream, Nodes, stream, nil, node, given, Result, returns, waits, exits, no_fuel, ready, closed,
  depleted, get, branch, inside, snoc_given,
}
use iu.Concat.View.{view, size}
use iu.Concat.Depleted.{Tested, depleted-Tested}
use iu.Concat.Reading.{Got, get-Got}
use iu.Concat.Ready.{IsProper, Readied, ready-Readied}

module _ {T : Type 0} where
  -- A stream in the place of another.
  abbrev pub Follows : Stream T → Stream T → Type 0
  Follows s s' = (IsProper s → IsProper s') × (closed s' ≡ closed s)

  abbrev pub Kept : {A : Type 0} → Stream T → Result T A → Type 0
  Kept s (returns a s') = Follows s s'
  Kept s waits = Unit {0}
  Kept s exits = Unit {0}
  Kept s no_fuel = Unit {0}

  Kept-mono : {A : Type 0} (s t : Stream T) (r : Result T A) → Follows s t → Kept t r → Kept s r
  Kept-mono s t (returns a s') f k = (λ p. k.0 (f.0 p), k.1 ∙ f.1)
  Kept-mono s t waits f k = tt
  Kept-mono s t exits f k = tt
  Kept-mono s t no_fuel f k = tt

  module _ (kept ns : Nodes T) (g : Stream T) (off : Bool) where
    Follows-inside :
        (g' : Stream T)
        → Follows g g'
        → (view g').ended ≡ (view g).ended
        → Follows (stream kept (given g ns) off) (stream kept (given g' ns) off)
    unfolding closed
    Follows-inside g' f e = ((λ p. ((λ c. e ∙ p.0 (sym f.1 ∙ c)), f.0 p.1, p.2)), refl)

    Follows-passed :
        (g' : Stream T)
        → Follows (stream kept (given g ns) off) (stream (snoc_given kept g') ns off)
    unfolding closed
    Follows-passed g' = ((λ p. p.2), refl)

    Kept-inside :
        {A : Type 0} (r : Result T A)
        → Kept g r
        → ((a : A) (g' : Stream T) → r ≡ returns a g' → (view g').ended ≡ (view g).ended)
        → Kept (stream kept (given g ns) off) (inside kept ns off r)
    Kept-inside (returns a g') k e = Follows-inside g' k (e a g' refl)
    Kept-inside waits k e = tt
    Kept-inside exits k e = tt
    Kept-inside no_fuel k e = tt

    Kept-branch :
        {A : Type 0} (r : Result T Bool) (done more : Stream T → Result T A)
        → Tested g r
        → Kept g r
        → ((g' : Stream T) → Kept (stream (snoc_given kept g') ns off) (done g'))
        → ((g' : Stream T)
            → view g' ≡ view g
            → size g' ≤ size g
            → Follows g g'
            → Kept (stream kept (given g ns) off) (more g'))
        → Kept (stream kept (given g ns) off) (branch r done more)
    Kept-branch (returns true g') done more t k d m =
        Kept-mono _ (stream (snoc_given kept g') ns off) (done g') (Follows-passed g') (d g')
    Kept-branch (returns false g') done more t k d m = m g' t.1.0 t.1.1 k
    Kept-branch waits done more t k d m = tt
    Kept-branch exits done more t k d m = tt
    Kept-branch no_fuel done more t k d m = tt

  depleted-Kept : (fuel : ℕ) (s : Stream T) → size s ≤ fuel → Kept s (depleted fuel s)
  unfolding depleted size
  depleted-Kept zero s h = tt
  depleted-Kept (suc fuel) (stream kept nil true) h = ((λ p. p), refl)
  depleted-Kept (suc fuel) (stream kept nil false) h = tt
  depleted-Kept (suc fuel) (stream kept (node x ns) off) h = ((λ p. p), refl)
  depleted-Kept (suc fuel) (stream kept (given g ns) off) h =
      Kept-branch kept ns g off (depleted fuel g)
        (λ g'. depleted fuel (stream (snoc_given kept g') ns off))
        (λ g'. returns false (stream kept (given g' ns) off)) (depleted-Tested fuel g (omega arith))
        (depleted-Kept fuel g (omega arith))
        (λ g'. depleted-Kept fuel (stream (snoc_given kept g') ns off) (omega arith))
        (λ g' v l f. Follows-inside kept ns g off g' f (ap (λ c. c.ended) v))

  Got-ended :
      (s s' : Stream T) (r : Result T T) (a : T)
      → Got (λ a x. a ≡ x) s r
      → r ≡ returns a s'
      → (view s').ended ≡ (view s).ended
  Got-ended s s' r a g e = let (x, p, v) = rw e at g in sym (ap (λ c. c.ended) v)

  -- `get` leaves a proper stream proper.
  pub get-Kept : (fuel : ℕ) (s : Stream T) → size s ≤ fuel → Kept s (get fuel s)
  unfolding get size
  get-Kept zero s h = tt
  get-Kept (suc fuel) (stream kept nil true) h = tt
  get-Kept (suc fuel) (stream kept nil false) h = tt
  get-Kept (suc fuel) (stream kept (node x ns) off) h = unfold closed in ((λ p. p), refl)
  get-Kept (suc fuel) (stream kept (given g ns) off) h =
      Kept-branch kept ns g off (depleted fuel g)
        (λ g'. get fuel (stream (snoc_given kept g') ns off))
        (λ g'. inside kept ns off (get fuel g')) (depleted-Tested fuel g (omega arith))
        (depleted-Kept fuel g (omega arith))
        (λ g'. get-Kept fuel (stream (snoc_given kept g') ns off) (omega arith))
        (λ g' v l f.
          Kept-mono _ (stream kept (given g' ns) off) (inside kept ns off (get fuel g'))
            (Follows-inside kept ns g off g' f (ap (λ c. c.ended) v))
            (Kept-inside kept ns g' off (get fuel g') (get-Kept fuel g' (omega arith))
              (λ a g'' e. Got-ended g' g'' (get fuel g') a (get-Got fuel g' (omega arith)) e)))

  module _ (kept ns : Nodes T) (g : Stream T) (off : Bool) (fuel : ℕ) where
    ready-Kept_given :
        (r : Result T Bool)
        → Readied g r
        → Kept g r
        → ((g' : Stream T)
            → Kept
                (stream (snoc_given kept g') ns off)
                (ready fuel (stream (snoc_given kept g') ns off)))
        → Kept (stream kept (given g ns) off) (
            branch r
              (λ g'. returns true (stream kept (given g' ns) off))
              (λ g'. elim (closed g) [
                | false ↦ returns false (stream kept (given g' ns) off)
                | true ↦ ready fuel (stream (snoc_given kept g') ns off)
              ]))
    ready-Kept_given (returns true g') t k d =
        Follows-inside kept ns g off g' k (ap (λ c. c.ended) t.1.0)
    ready-Kept_given (returns false g') t k d = elim (Bool-cases (closed g)) [
      | inl e ↦ rw e (
          Kept-mono _ (stream (snoc_given kept g') ns off)
            (ready fuel (stream (snoc_given kept g') ns off)) (Follows-passed kept ns g off g')
            (d g'))
      | inr e ↦ rw e (Follows-inside kept ns g off g' k (ap (λ c. c.ended) t.1.0))
    ]
    ready-Kept_given waits t k d = tt
    ready-Kept_given exits t k d = tt
    ready-Kept_given no_fuel t k d = tt

  -- So does `ready`.
  pub ready-Kept : (fuel : ℕ) (s : Stream T) → size s ≤ fuel → IsProper s → Kept s (ready fuel s)
  unfolding ready size
  ready-Kept zero s h p = tt
  ready-Kept (suc fuel) (stream kept nil off) h p = ((λ p. p), refl)
  ready-Kept (suc fuel) (stream kept (node x ns) off) h p = ((λ p. p), refl)
  ready-Kept (suc fuel) (stream kept (given g ns) off) h p =
      ready-Kept_given kept ns g off fuel (ready fuel g) (ready-Readied fuel g (omega arith) p.1)
        (ready-Kept fuel g (omega arith) p.1)
        (λ g'. ready-Kept fuel (stream (snoc_given kept g') ns off) (omega arith) p.2)
