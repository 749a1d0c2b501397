-- ===== src/Concat/Writing.antt =====
-- The producer's calls.
use iu.Prelude.{
  ℕ, suc, ◌≤◌, Bool, true, [], ◌∷◌, ◌≡◌, refl, sym, ap, ◌∙◌, arith, Bool-cases, inl, inr,
  append_assoc,
}
use iu.Concat.{
  Stream, Nodes, stream, nil, node, given, put, give, close, closed, snoc_node, snoc_given, sweep,
  empty_stream,
}
use iu.Concat.View.{Contents, then_if_ended, before, view, view_nodes}
use iu.Concat.Reading.{before-then, nothing}

module _ {T : Type 0} where
  -- The contents if the producer had closed the stream.
  abbrev pub if_closed : Stream T → Contents T
  if_closed s = view (close s)

  pub if_closed-empty_stream : if_closed empty_stream ≡ nothing true
  unfolding view close
  if_closed-empty_stream = refl

  then_assoc :
      (c d e : Contents T)
      → then_if_ended c (then_if_ended d e) ≡ then_if_ended (then_if_ended c d) e
  then_assoc c d e = elim (Bool-cases c.ended) [
    | inr h ↦ rw h
    | inl h ↦ rw h (elim (Bool-cases d.ended) [
      | inr k ↦ rw k
      | inl k ↦ rw k (
          ap (λ l. record { items = l; ended = e.ended })
            (sym (append_assoc c.items d.items e.items)))
    ])
  ]

  before-then_if_ended :
      (x : T) (c d : Contents T) → before x (then_if_ended c d) ≡ then_if_ended (before x c) d
  before-then_if_ended x c d = sym (before-then x c d)

  view_nodes-snoc_node :
      (ns : Nodes T) (x : T) (off : Bool)
      → view_nodes (snoc_node ns x) off
        ≡ then_if_ended (view_nodes ns true) (record { items = x ∷ []; ended = off })
  unfolding view_nodes snoc_node
  view_nodes-snoc_node nil x off = refl
  view_nodes-snoc_node (node y ns) x off =
      ap (before y) (view_nodes-snoc_node ns x off) ∙ before-then_if_ended y (view_nodes ns true) _
  view_nodes-snoc_node (given g ns) x off =
      ap (then_if_ended (view g)) (view_nodes-snoc_node ns x off)
      ∙ then_assoc (view g) (view_nodes ns true) _

  view_nodes-snoc_given :
      (ns : Nodes T) (g : Stream T) (off : Bool)
      → view_nodes (snoc_given ns g) off
        ≡ then_if_ended (view_nodes ns true) (then_if_ended (view g) (nothing off))
  unfolding view_nodes snoc_given
  view_nodes-snoc_given nil g off = refl
  view_nodes-snoc_given (node y ns) g off =
      ap (before y) (view_nodes-snoc_given ns g off) ∙ before-then_if_ended y (view_nodes ns true) _
  view_nodes-snoc_given (given h ns) g off =
      ap (then_if_ended (view h)) (view_nodes-snoc_given ns g off)
      ∙ then_assoc (view h) (view_nodes ns true) _

  -- A `put` adds its item behind all that the stream holds: the consumer sees it at once if every
  -- given stream has ended, and in any case once they have.
  pub view-put :
      (x : T) (s : Stream T)
      → (view (put x s) ≡ then_if_ended (if_closed s) (record { items = x ∷ []; ended = closed s }))
        × (if_closed (put x s)
            ≡ then_if_ended (if_closed s) (record { items = x ∷ []; ended = true }))
  unfolding put view close closed
  view-put x (stream kept pending off) =
      (view_nodes-snoc_node pending x off, view_nodes-snoc_node pending x true)

  -- A `give` adds what the given stream holds, and what is put into that one later.
  pub view-give :
      (g s : Stream T)
      → (view (give g s)
          ≡ then_if_ended (if_closed s) (then_if_ended (view g) (nothing (closed s))))
        × (if_closed (give g s)
            ≡ then_if_ended (if_closed s) (then_if_ended (view g) (nothing true)))
  unfolding give view close closed
  view-give g (stream kept pending off) =
      (view_nodes-snoc_given pending g off, view_nodes-snoc_given pending g true)

  abbrev pub count_nodes : Nodes T → ℕ
  count_nodes nil = 0
  count_nodes (node x ns) = suc (count_nodes ns)
  count_nodes (given g ns) = suc (count_nodes ns)

  -- The nodes that were read and are not freed.
  abbrev pub kept_nodes : Stream T → ℕ
  kept_nodes (stream kept pending off) = count_nodes kept

  count_nodes-sweep : (ns : Nodes T) → count_nodes (sweep ns) ≤ 1
  unfolding sweep
  count_nodes-sweep nil = omega arith
  count_nodes-sweep (node x nil) = omega arith
  count_nodes-sweep (given g nil) = omega arith
  count_nodes-sweep (node x (node y ns)) = count_nodes-sweep (node y ns)
  count_nodes-sweep (node x (given h ns)) = count_nodes-sweep (given h ns)
  count_nodes-sweep (given g (node y ns)) = count_nodes-sweep (node y ns)
  count_nodes-sweep (given g (given h ns)) = count_nodes-sweep (given h ns)

  -- After a call of the producer, at most one node that was read is not freed.
  pub kept_nodes_le :
      (x : T) (g s : Stream T) → (kept_nodes (put x s) ≤ 1) × (kept_nodes (give g s) ≤ 1)
  unfolding put give
  kept_nodes_le x g (stream kept pending off) = (count_nodes-sweep kept, count_nodes-sweep kept)
