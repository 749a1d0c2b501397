-- ===== src/Concat/Shared/Ending.antt =====
-- A call of the producer comes to its end, whatever the consumer does, and the destructor frees all.
use iu.Prelude.{
  ℕ, zero, suc, ◌+◌, ◌*◌, ◌≤◌, ◌≡◌, Bool, true, false, some, List, ◌++◌, arith, length,
}
use iu.Concat.Shared.{
  Producer, links, advances, begins, compares, unlinks, frees, moves, ConsumerCall, Consumer,
  Shared, turns, produce, consume,
}
use iu.Concat.Shared.Row.{Entry}
use iu.Concat.Shared.Invariant.{is_idle, weight}
use iu.Concat.Shared.Producing.{published}
use iu.Concat.Shared.Consuming.{passed}
use iu.Concat.Shared.Worlds.{
  World, start, Reach, Coherent, Reach-IsCoherent, produces-Coherent, consumes-Coherent,
  calls-Coherent,
}

weight_le : (p : Producer) (n : ℕ) → weight p n ≤ 5 * n + 16
weight_le Producer.idle n = omega arith
weight_le (links p) n = omega arith
weight_le (advances p) n = omega arith
weight_le begins n = omega arith
weight_le (Producer.looks true iter) n = omega arith
weight_le (Producer.looks false iter) n = omega arith
weight_le (compares true iter a) n = omega arith
weight_le (compares false iter a) n = omega arith
weight_le (unlinks iter) n = omega arith
weight_le (frees p iter) n = omega arith
weight_le (moves iter) n = omega arith

module _ {T : Type 0} where
  -- The producer has made `k` accesses of one call, with any steps of the consumer between them.
  pub data During (w : World T) : ℕ → World T → Type 0 where
    starts : During w zero w
    calls :
        {k : ℕ} {v u : World T}
        → During w k v
        → (c : ConsumerCall) → u ≡ record v { shared = turns (Consumer.looks c) v.shared }
        → During w k u
    consumes :
        {k : ℕ} {v u : World T}
        → During w k v
        → (passes : Bool) (s : Shared T) → consume passes v.shared.consumer v.shared ≡ some s
        → u ≡ record v { shared = s; got = v.got ++ passed passes v.shared.consumer v.shared }
        → During w k u
    produces :
        {k : ℕ} {v u : World T}
        → During w k v
        → (s : Shared T) → is_idle v.shared.producer ≡ false
        → produce v.shared.producer v.shared ≡ some s
        → u ≡ record v { shared = s; put = v.put ++ published v.shared.producer v.shared }
        → During w (suc k) u

  -- What is left of the call is less by the accesses that were made.
  abbrev Spends : World T → List (Entry T) → ℕ → World T → Type 0
  Spends w row k u =
      (old : List (Entry T)) × (new : List (Entry T)) × Coherent u old new
      × (k + weight u.shared.producer (length (old ++ new)) ≤ weight w.shared.producer (length row))

  During-Spends :
      {w u : World T} {k : ℕ} (old new : List (Entry T))
      → Coherent w old new
      → During w k u
      → Spends w (old ++ new) k u
  During-Spends old new c starts = (old, new, c, omega arith)
  During-Spends {w} {u} {k} old new c (calls {v = v} d call e) =
      let (old', new', c', le) = During-Spends old new c d in
      rw e (old', new', calls-Coherent v call old' new' c', le)
  During-Spends {w} {u} {k} old new c (consumes {v = v} d b s r e) =
      let (old', new', c', le) = During-Spends old new c d in
      let (old'', new'', c'', same, rows) = consumes-Coherent v b s old' new' r c' in
      rw e (old'', new'', c'', rw (same, rows) le)
  During-Spends {w} {u} old new c (produces {k} {v} d s i r e) =
      let (old', new', c', le) = During-Spends old new c d in
      let (old'', new'', c'', less) = produces-Coherent v s old' new' r c' in
      rw e (old'', new'', c'', omega (arith, less i))

  -- A `put` or a `give` comes to its end: from any moment of a call on, the producer makes at most
  -- this many accesses, by the number of items that were put and given before, whatever the
  -- consumer does in between.
  pub put_ends : {w u : World T} {k : ℕ} → Reach start w → During w k u → k ≤ 5 * length w.put + 16
  put_ends {w} r d =
      let (old, new, c) = Reach-IsCoherent r in
      let (_, _, _, le) = During-Spends old new c d in
      omega (arith, le, c.small, weight_le w.shared.producer (length (old ++ new)))
