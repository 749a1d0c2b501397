-- ===== src/Concat/Shared/Safety.antt =====
-- What holds in every interleaving of the accesses.
use iu.Prelude.{◌≡◌, refl, ap, subst, Bool, true, some, List, [], ◌++◌}
use iu.Concat.Shared.{Load, exited, Shared, produce, consume}
use iu.Concat.Shared.Row.{loads}
use iu.Concat.Shared.Invariant.{Consuming}
use iu.Concat.Shared.Putting.{produce-Produced}
use iu.Concat.Shared.Calls.{consume-Consumed}
use iu.Concat.Shared.Worlds.{World, start, Reach, Reach-IsCoherent}

module _ {T : Type 0} where
  -- In every interleaving, the next access of the producer and that of the consumer, whatever a
  -- given stream answers, find memory that is allocated and initialised: `sweep` frees no node that
  -- the other thread can still get to.
  pub accesses_allocated :
      {w : World T}
      → Reach start w
      → ((s : Shared T) × (produce w.shared.producer w.shared ≡ some s))
        × ((passes : Bool) → (s : Shared T) × (consume passes w.shared.consumer w.shared ≡ some s))
  accesses_allocated {w} r =
      let (old, new, c) = Reach-IsCoherent r in
      let (s, _, _, e, _, _, _, _, _) =
        produce-Produced w.shared w.shared.consumer old new w.shared.producer c.inv refl in
      (
        (s, e),
        λ b.
            let (s', _, _, e', _, _, _, _) =
              consume-Consumed w.shared w.shared.producer old new b w.shared.consumer c.inv refl in
            (s', e'),
      )

  -- In every interleaving the consumer has left behind a first part of what was put and given, in
  -- order: no access of the other thread loses, doubles or overtakes an item. It ends the process only
  -- if the stream is closed and nothing is left.
  pub left_in_order :
      {w : World T}
      → Reach start w
      → (rest : List (Load T)) × (w.put ≡ w.got ++ rest)
        × (w.shared.consumer ≡ exited → (rest ≡ []) × (w.shared.off ≡ true))
  left_in_order {w} r =
      let (old, new, c) = Reach-IsCoherent r in
      (
        loads new,
        c.order,
        λ e.
            let (n, o) = subst (λ k. Consuming w.shared.off k new) e c.inv.consuming in
            (ap loads n, o),
      )
