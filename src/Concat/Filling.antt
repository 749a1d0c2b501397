-- ===== src/Concat/Filling.antt =====
-- One thread fills the stream that was given last, while another reads from the stream that holds it.
use iu.Prelude.{
  ℕ, zero, suc, Bool, true, false, ◌≡◌, refl, sym, ap, ◌∙◌, Option, none, some, List, [], ◌∷◌, ◌++◌,
}
use iu.Concat.{
  Stream, Nodes, stream, nil, node, given, Result, returns, waits, exits, no_fuel, depleted, get,
  branch, inside, snoc_given,
}

-- What a thread does by its pointer to the stream that was given last; `none` once this is behind the
-- consumer.
abbrev pub fill_nodes : {T : Type 0} → (Stream T → Stream T) → Nodes T → Option (Nodes T)
fill_nodes f nil = none
fill_nodes f (node x ns) = elim (fill_nodes f ns) [ none ↦ none | some ns' ↦ some (node x ns') ]
fill_nodes f (given g ns) = elim (fill_nodes f ns) [
  | none ↦ some (given (f g) ns)
  | some ns' ↦ some (given g ns')
]

module _ {T : Type 0} where
  unfoldable pub fill_last : (Stream T → Stream T) → Stream T → Option (Stream T)
  fill_last f (stream kept ns off) = elim (fill_nodes f ns) [
    | none ↦ none
    | some ns' ↦ some (stream kept ns' off)
  ]

-- All that is in a stream, also behind streams that are still open.
abbrev mutual
  pub flat : {T : Type 0} → Stream T → List T
  flat (stream kept pending off) = flat_nodes pending

  pub flat_nodes : {T : Type 0} → Nodes T → List T
  flat_nodes nil = []
  flat_nodes (node x ns) = x ∷ flat_nodes ns
  flat_nodes (given g ns) = flat g ++ flat_nodes ns

module _ {T : Type 0} where
  abbrev FlatTested : Stream T → Result T Bool → Type 0
  FlatTested s (returns true s') = flat s ≡ []
  FlatTested s (returns false s') = flat s' ≡ flat s
  FlatTested s waits = Unit {0}
  FlatTested s exits = Unit {0}
  FlatTested s no_fuel = Unit {0}

  FlatTested-same :
      (s t : Stream T) (r : Result T Bool) → flat t ≡ flat s → FlatTested t r → FlatTested s r
  FlatTested-same s t (returns true s') e h = sym e ∙ h
  FlatTested-same s t (returns false s') e h = h ∙ e
  FlatTested-same s t waits e h = tt
  FlatTested-same s t exits e h = tt
  FlatTested-same s t no_fuel e h = tt

  depleted-FlatTested : (fuel : ℕ) (s : Stream T) → FlatTested s (depleted fuel s)
  unfolding depleted
  depleted-FlatTested zero s = tt
  depleted-FlatTested (suc fuel) (stream kept nil true) = refl
  depleted-FlatTested (suc fuel) (stream kept nil false) = tt
  depleted-FlatTested (suc fuel) (stream kept (node x ns) off) = refl
  depleted-FlatTested (suc fuel) (stream kept (given g ns) off) =
      go (depleted fuel g) (depleted-FlatTested fuel g)
        (λ g'. depleted-FlatTested fuel (stream (snoc_given kept g') ns off))
    where
      go :
          (r : Result T Bool)
          → FlatTested g r
          → ((g' : Stream T)
              → FlatTested
                  (stream (snoc_given kept g') ns off)
                  (depleted fuel (stream (snoc_given kept g') ns off)))
          → FlatTested (stream kept (given g ns) off) (
              branch r
                (λ g'. depleted fuel (stream (snoc_given kept g') ns off))
                (λ g'. returns false (stream kept (given g' ns) off)))
      go (returns true g') h k =
          FlatTested-same (stream kept (given g ns) off) (stream (snoc_given kept g') ns off)
            (depleted fuel (stream (snoc_given kept g') ns off))
            (ap (λ l. l ++ flat_nodes ns) (sym h)) (k g')
      go (returns false g') h k = ap (λ l. l ++ flat_nodes ns) h
      go waits h k = tt
      go exits h k = tt
      go no_fuel h k = tt

  abbrev pub FlatGot : Stream T → Result T T → Type 0
  FlatGot s (returns a s') = flat s ≡ a ∷ flat s'
  FlatGot s waits = Unit {0}
  FlatGot s exits = Unit {0}
  FlatGot s no_fuel = Unit {0}

  FlatGot-same : (s t : Stream T) (r : Result T T) → flat s ≡ flat t → FlatGot t r → FlatGot s r
  FlatGot-same s t (returns a s') e h = e ∙ h
  FlatGot-same s t waits e h = tt
  FlatGot-same s t exits e h = tt
  FlatGot-same s t no_fuel e h = tt

  FlatGot-inside :
      (kept ns : Nodes T) (g : Stream T) (off : Bool) (r : Result T T)
      → FlatGot g r
      → FlatGot (stream kept (given g ns) off) (inside kept ns off r)
  FlatGot-inside kept ns g off (returns a g') h = ap (λ l. l ++ flat_nodes ns) h
  FlatGot-inside kept ns g off waits h = tt
  FlatGot-inside kept ns g off exits h = tt
  FlatGot-inside kept ns g off no_fuel h = tt

  pub get-FlatGot : (fuel : ℕ) (s : Stream T) → FlatGot s (get fuel s)
  unfolding get
  get-FlatGot zero s = tt
  get-FlatGot (suc fuel) (stream kept nil true) = tt
  get-FlatGot (suc fuel) (stream kept nil false) = tt
  get-FlatGot (suc fuel) (stream kept (node x ns) off) = refl
  get-FlatGot (suc fuel) (stream kept (given g ns) off) =
      go (depleted fuel g) (depleted-FlatTested fuel g)
        (λ g'. get-FlatGot fuel (stream (snoc_given kept g') ns off)) (λ g'. get-FlatGot fuel g')
    where
      go :
          (r : Result T Bool)
          → FlatTested g r
          → ((g' : Stream T)
              → FlatGot
                  (stream (snoc_given kept g') ns off)
                  (get fuel (stream (snoc_given kept g') ns off)))
          → ((g' : Stream T) → FlatGot g' (get fuel g'))
          → FlatGot (stream kept (given g ns) off) (
              branch r
                (λ g'. get fuel (stream (snoc_given kept g') ns off))
                (λ g'. inside kept ns off (get fuel g')))
      go (returns true g') h k m =
          FlatGot-same (stream kept (given g ns) off) (stream (snoc_given kept g') ns off)
            (get fuel (stream (snoc_given kept g') ns off)) (ap (λ l. l ++ flat_nodes ns) h) (k g')
      go (returns false g') h k m =
          FlatGot-same (stream kept (given g ns) off) (stream kept (given g' ns) off)
            (inside kept ns off (get fuel g')) (ap (λ l. l ++ flat_nodes ns) (sym h))
            (FlatGot-inside kept ns g' off (get fuel g') (m g'))
      go waits h k m = tt
      go exits h k m = tt
      go no_fuel h k m = tt
