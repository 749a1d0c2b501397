-- ===== src/Concat/Interleaved.antt =====
-- Any interleaving of the thread that fills the stream given last and of the reading.
use iu.Prelude.{
  ℕ, zero, suc, Bool, true, false, ◌≡◌, refl, sym, subst, ap, ◌∙◌, none, some, List, [], ◌∷◌, ◌++◌,
  append_assoc, append-nil, arith, Option-cases, inl, inr, ◌⊎◌,
}
use iu.Concat.{
  Stream, Nodes, stream, nil, node, given, Result, returns, waits, exits, no_fuel, get, depleted,
  branch, inside, snoc_given, snoc_node, put, give, close, empty_stream,
}
use iu.Concat.Filling.{fill_nodes, fill_last, flat, flat_nodes}

-- The last node is a given stream, or there is none.
abbrev pub ends_given : {T : Type 0} → Nodes T → Bool
ends_given nil = false
ends_given (node x ns) = ends_given ns
ends_given (given g nil) = true
ends_given (given g (node x ns)) = ends_given (node x ns)
ends_given (given g (given h ns)) = ends_given (given h ns)

abbrev pub IsLast : {T : Type 0} → Nodes T → Type 0
IsLast ns = (ends_given ns ≡ true) ⊎ (((f : Stream _ → Stream _) → fill_nodes f ns ≡ none))

module _ {T : Type 0} where
  abbrev pub HoldsLast : Stream T → Type 0
  HoldsLast (stream kept ns off) = IsLast ns

  flat_nodes-snoc_node :
      (ns : Nodes T) (x : T) → flat_nodes (snoc_node ns x) ≡ flat_nodes ns ++ x ∷ []
  unfolding snoc_node
  flat_nodes-snoc_node nil x = refl
  flat_nodes-snoc_node (node y ns) x = ap (λ l. y ∷ l) (flat_nodes-snoc_node ns x)
  flat_nodes-snoc_node (given g ns) x =
      ap (λ l. flat g ++ l) (flat_nodes-snoc_node ns x)
      ∙ sym (append_assoc (flat g) (flat_nodes ns) (x ∷ []))

  pub flat-put : (x : T) (s : Stream T) → flat (put x s) ≡ flat s ++ x ∷ []
  unfolding put
  flat-put x (stream kept ns off) = flat_nodes-snoc_node ns x

  pub flat-close : (s : Stream T) → flat (close s) ≡ flat s ++ []
  unfolding close
  flat-close (stream kept ns off) = sym (append-nil (flat_nodes ns))

  -- A stream without an item, behind all others.
  ends_given_cons :
      (g : Stream T) (ms : Nodes T) → ends_given ms ≡ true → ends_given (given g ms) ≡ true
  ends_given_cons g nil e = refl
  ends_given_cons g (node x ms) e = e
  ends_given_cons g (given j ms) e = e

  snoc_given-empty_stream :
      (ns : Nodes T)
      → (flat_nodes (snoc_given ns empty_stream) ≡ flat_nodes ns)
        × (ends_given (snoc_given ns (empty_stream {T = T})) ≡ true)
  unfolding snoc_given
  snoc_given-empty_stream nil = (refl, refl)
  snoc_given-empty_stream (node y ns) =
      let (a, b) = snoc_given-empty_stream ns in (ap (λ l. y ∷ l) a, b)
  snoc_given-empty_stream (given g ns) =
      let (a, b) = snoc_given-empty_stream ns in
      (ap (λ l. flat g ++ l) a, ends_given_cons g (snoc_given ns empty_stream) b)

  pub give-empty_stream :
      (q : Stream T) → (flat (give empty_stream q) ≡ flat q) × HoldsLast (give empty_stream q)
  unfolding give
  give-empty_stream (stream kept ns off) = let (a, b) = snoc_given-empty_stream ns in (a, inl b)

  -- What the thread adds comes behind all that is there.
  module _ (f : Stream T → Stream T) (added : List T)
      (h : (g : Stream T) → flat (f g) ≡ flat g ++ added) where
    added_inside : (g : Stream T) (ls : List T) → flat g ++ (ls ++ added) ≡ (flat g ++ ls) ++ added
    added_inside g ls = sym (append_assoc (flat g) ls added)

    abbrev Fills : Nodes T → Type 0
    Fills ns =
        (ms : Nodes T) × (fill_nodes f ns ≡ some ms)
        × (flat_nodes ms ≡ flat_nodes ns ++ added)
        × (ends_given ms ≡ true)

    given-Fills : (g : Stream T) (ns : Nodes T) → Fills ns → Fills (given g ns)
    given-Fills g ns (ms, n, l, e) = (
      given g ms,
      ap (λ o. elim o [ none ↦ some (given (f g) ns) | some ns' ↦ some (given g ns') ]) n,
      ap (λ k. flat g ++ k) l ∙ added_inside g (flat_nodes ns),
      ends_given_cons g ms e,
    )

    fill_nodes-Fills : (ns : Nodes T) → ends_given ns ≡ true → Fills ns
    fill_nodes-Fills nil e = absurd (cc)
    fill_nodes-Fills (node x ns) e =
        let (ms, n, l, k) = fill_nodes-Fills ns e in
        (
          node x ms,
          ap (λ o. elim o [ none ↦ none | some ns' ↦ some (node x ns') ]) n,
          ap (λ k. x ∷ k) l,
          k,
        )
    fill_nodes-Fills (given g nil) e = (
      given (f g) nil,
      refl,
      ap (λ l. l ++ []) (h g)
          ∙ append-nil (flat g ++ added)
          ∙ ap (λ l. l ++ added) (sym (append-nil (flat g))),
      refl,
    )
    fill_nodes-Fills (given g (node x ns)) e =
        given-Fills g (node x ns) (fill_nodes-Fills (node x ns) e)
    fill_nodes-Fills (given g (given j ns)) e =
        given-Fills g (given j ns) (fill_nodes-Fills (given j ns) e)

    pub fill_last-Adds :
        (s s' : Stream T)
        → HoldsLast s
        → fill_last f s ≡ some s'
        → (flat s' ≡ flat s ++ added) × HoldsLast s'
    unfolding fill_last
    fill_last-Adds (stream kept ns off) s' (inr n) k = absurd (ground (arith, n f))
    fill_last-Adds (stream kept ns off) s' (inl e) k =
        let (ms, n, l, d) = fill_nodes-Fills ns e in
        let r : stream kept ms off ≡ s' = ground arith in
        (ap flat (sym r) ∙ l, subst HoldsLast r (inl d))

  IsLast-node : (x : T) (ns : Nodes T) → IsLast (node x ns) → IsLast ns
  IsLast-node x ns (inl e) = inl e
  IsLast-node x ns (inr n) = inr (λ f. elim (Option-cases (fill_nodes f ns)) [
    | inl e ↦ e
    | inr (ms, e) ↦
        let k : fill_nodes f (node x ns) ≡ some (node x ms) =
          ap (λ o. elim o [ none ↦ none | some ns' ↦ some (node x ns') ]) e in
        let m : none ≡ some (node x ms) = sym (n f) ∙ k in absurd (cc)
  ])

  fill_nodes-given :
      (f : Stream T → Stream T) (g : Stream T) (ns : Nodes T) → fill_nodes f (given g ns) ≡ none → ⊥
  fill_nodes-given f g ns n = elim (Option-cases (fill_nodes f ns)) [
    | inl e ↦
        let k : fill_nodes f (given g ns) ≡ some (given (f g) ns) =
          ap (λ o. elim o [ none ↦ some (given (f g) ns) | some ns' ↦ some (given g ns') ]) e in
        let m : none ≡ some (given (f g) ns) = sym n ∙ k in cc
    | inr (ms, e) ↦
        let k : fill_nodes f (given g ns) ≡ some (given g ms) =
          ap (λ o. elim o [ none ↦ some (given (f g) ns) | some ns' ↦ some (given g ns') ]) e in
        let m : none ≡ some (given g ms) = sym n ∙ k in cc
  ]

  IsLast-given : (g : Stream T) (ns : Nodes T) → IsLast (given g ns) → IsLast ns
  IsLast-given g ns (inr n) = absurd (fill_nodes-given (λ s. s) g ns (n (λ s. s)))
  IsLast-given g nil (inl e) = inr (λ f. refl)
  IsLast-given g (node x ns) (inl e) = inl e
  IsLast-given g (given j ns) (inl e) = inl e

  IsLast-swap : (g g' : Stream T) (ns : Nodes T) → IsLast (given g ns) → IsLast (given g' ns)
  IsLast-swap g g' ns (inr n) = absurd (fill_nodes-given (λ s. s) g ns (n (λ s. s)))
  IsLast-swap g g' nil (inl e) = inl refl
  IsLast-swap g g' (node x ns) (inl e) = inl e
  IsLast-swap g g' (given j ns) (inl e) = inl e

  abbrev pub LastKept : Result T T → Type 0
  LastKept (returns a s') = HoldsLast s'
  LastKept waits = Unit {0}
  LastKept exits = Unit {0}
  LastKept no_fuel = Unit {0}

  pub get-LastKept : (fuel : ℕ) (s : Stream T) → HoldsLast s → LastKept (get fuel s)
  unfolding get
  get-LastKept zero s l = tt
  get-LastKept (suc fuel) (stream kept nil true) l = tt
  get-LastKept (suc fuel) (stream kept nil false) l = tt
  get-LastKept (suc fuel) (stream kept (node x ns) off) l = IsLast-node x ns l
  get-LastKept (suc fuel) (stream kept (given g ns) off) l =
      go (depleted fuel g)
        (λ g'. get-LastKept fuel (stream (snoc_given kept g') ns off) (IsLast-given g ns l))
    where
      within : (r : Result T T) → LastKept (inside kept ns off r)
      within (returns a g') = IsLast-swap g g' ns l
      within waits = tt
      within exits = tt
      within no_fuel = tt

      go :
          (r : Result T Bool)
          → ((g' : Stream T) → LastKept (get fuel (stream (snoc_given kept g') ns off)))
          → LastKept (
              branch r
                (λ g'. get fuel (stream (snoc_given kept g') ns off))
                (λ g'. inside kept ns off (get fuel g')))
      go (returns true g') k = k g'
      go (returns false g') k = within (get fuel g')
      go waits k = tt
      go exits k = tt
      go no_fuel k = tt
