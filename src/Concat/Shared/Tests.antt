-- ===== src/Concat/Shared/Tests.antt =====
-- A producer and a consumer in a schedule, and the theorems at what it comes to.
use iu.Prelude.{
  ℕ, suc, ◌+◌, ◌*◌, length, ◌≤◌, ◌≡◌, ◌≢◌, refl, Bool, true, Option, none, some, List, [], ◌∷◌,
  ◌++◌, Option-cases, inl, inr,
}
use iu.Concat.Shared.{
  Load, holds, gives, get, Consumer, exited, Shared, home, new_stream, allocate, turn_off, turns,
  produce, consume, delete_nodes,
}
use iu.Concat.Shared.Producing.{published}
use iu.Concat.Shared.Consuming.{passed}
use iu.Concat.Shared.Worlds.{
  World, start, allocates, closes, calls, produces, consumes, Reach, here, next,
}
use iu.Concat.Shared.Safety.{accesses_allocated, left_in_order}
use iu.Concat.Shared.Ending.{During, put_ends}
use iu.Concat.Shared.Freeing.{delete_nodes_frees}
use iu.Concat.{Stream, stream, nil, node, put}
use iu.Concat.Shared.Alone.{run}
use iu.Concat.Shared.Refining.{Shows, add_refines}
use iu.Concat.Shared.{links, Producer}

-- One access of the producer, and one of the consumer.
act : World ℕ → World ℕ
unfolding produce
act w = elim (produce w.shared.producer w.shared) [
  | none ↦ w
  | some s ↦ record w { shared = s; put = w.put ++ published w.shared.producer w.shared }
]

go_on : World ℕ → World ℕ
unfolding consume
go_on w = elim (consume true w.shared.consumer w.shared) [
  | none ↦ w
  | some s ↦ record w { shared = s; got = w.got ++ passed true w.shared.consumer w.shared }
]

act-Reach : {w : World ℕ} → Reach start w → Reach start (act w)
unfolding act
act-Reach {w} r = elim (Option-cases (produce w.shared.producer w.shared)) [
  | inl e ↦ rw (e, act) r
  | inr (s, e) ↦ rw (e, act) (next r (produces s e refl))
]

go_on-Reach : {w : World ℕ} → Reach start w → Reach start (go_on w)
unfolding go_on
go_on-Reach {w} r = elim (Option-cases (consume true w.shared.consumer w.shared)) [
  | inl e ↦ rw (e, go_on) r
  | inr (s, e) ↦ rw (e, go_on) (next r (consumes true s e refl))
]

-- `put(7)` at the address 4, and the consumer calls `get` before it is published.
abbrev called : World ℕ
called = record start { shared = turns (Consumer.looks get) (allocate 4 (holds 7) new_stream) }

called-Reach : Reach start called
unfolding allocate
called-Reach = next (next here (allocates 4 (holds 7) refl refl refl refl)) (calls get refl refl)

-- The consumer sees no node and then that the stream is open, the producer publishes its node, and
-- the consumer takes it, while the producer is at its `sweep`.
abbrev taken : World ℕ
taken = go_on (go_on (go_on (act (act (go_on (go_on called))))))

taken-Reach : Reach start taken
taken-Reach =
    go_on-Reach
      (go_on-Reach (go_on-Reach (act-Reach (act-Reach (go_on-Reach (go_on-Reach called-Reach))))))

taken_7 : taken.got ≡ holds 7 ∷ []
unfolding go_on act allocate
taken_7 = refl

accesses_allocated_example :
    ((s : Shared ℕ) × (produce taken.shared.producer taken.shared ≡ some s))
    × ((passes : Bool)
        → (s : Shared ℕ) × (consume passes taken.shared.consumer taken.shared ≡ some s))
accesses_allocated_example = accesses_allocated taken-Reach

-- The `sweep` of that call, which finds no node behind the first.
abbrev swept : World ℕ
swept = act (act (act (act taken)))

put_ends_example : 2 ≤ 5 * length taken.put + 16
unfolding act go_on allocate
put_ends_example =
    put_ends taken-Reach
      (During.produces (During.produces During.starts _ refl refl refl) _ refl refl refl)

swept-Reach : Reach start swept
swept-Reach = act-Reach (act-Reach (act-Reach (act-Reach taken-Reach)))

-- `give` at the address 5, whose `sweep` finds that the consumer waits for the new node.
abbrev giving : World ℕ
giving = record swept { shared = allocate 5 (gives 3) swept.shared }

giving-Reach : Reach start giving
unfolding act go_on allocate
giving-Reach = next swept-Reach (allocates 5 (gives 3) refl refl refl refl)

eight : World ℕ → World ℕ
unfolding act
eight w = act (act (act (act (act (act (act (act w)))))))

eight-Reach : {w : World ℕ} → Reach start w → Reach start (eight w)
unfolding eight
eight-Reach r =
    act-Reach (act-Reach (act-Reach (act-Reach (act-Reach (act-Reach (act-Reach (act-Reach r)))))))

-- The consumer goes past the given stream, so that two nodes are behind it.
abbrev passing : World ℕ
passing = go_on (
    go_on
      (go_on (record (eight giving) { shared = turns (Consumer.looks get) (eight giving).shared })))

passing-Reach : Reach start passing
unfolding eight go_on allocate
passing-Reach =
    go_on-Reach (go_on-Reach (go_on-Reach (next (eight-Reach giving-Reach) (calls get refl refl))))

-- The given stream holds a number and is closed.
abbrev inner : Stream ℕ
inner = stream nil (node 8 nil) true

add_refines_example :
    (st : Stream ℕ) × (fuel : ℕ) × (s : Shared ℕ) × Shows (λ g. inner) passing.shared st
    × (run fuel (links 6) (allocate 6 (holds 9) passing.shared) ≡ some s)
    × (s.producer ≡ Producer.idle)
    × Shows (λ g. inner) s (put 9 st)
unfolding eight go_on allocate
add_refines_example = add_refines (λ g. inner) 6 (holds 9) passing-Reach refl refl refl

-- That `put` frees the node at the address 4.
cell_4 : Option (Shared ℕ) → Option (Option ℕ)
cell_4 none = some none
cell_4 (some s) = s.cell 4

freed_4 : cell_4 (run 60 (links 6) (allocate 6 (holds 9) passing.shared)) ≡ none
unfolding cell_4 run eight go_on allocate
freed_4 = refl

-- Then `close`, and a `get` that goes past the given stream to the end.
abbrev closing : World ℕ
closing = record (eight giving) {
  shared = turns (Consumer.looks get) (turn_off (eight giving).shared);
}

closing-Reach : Reach start closing
unfolding eight go_on allocate turn_off
closing-Reach = next (next (eight-Reach giving-Reach) (closes refl refl)) (calls get refl refl)

abbrev ended : World ℕ
ended = go_on (go_on (go_on (go_on (go_on (go_on closing)))))

ended-Reach : Reach start ended
ended-Reach =
    go_on-Reach (go_on-Reach (go_on-Reach (go_on-Reach (go_on-Reach (go_on-Reach closing-Reach)))))

ended_exited : ended.shared.consumer ≡ exited
unfolding eight go_on allocate turn_off
ended_exited = refl

left_in_order_example :
    (rest : List (Load ℕ)) × (ended.put ≡ ended.got ++ rest)
    × (ended.shared.consumer ≡ exited → (rest ≡ []) × (ended.shared.off ≡ true))
left_in_order_example = left_in_order ended-Reach

delete_nodes_frees_example :
    (first : Option ℕ) × (s : Shared ℕ) × (ended.shared.cell home ≡ some first)
    × (delete_nodes (suc (length ended.put)) first ended.shared ≡ some s)
    × ((a : ℕ) → a ≢ home → s.cell a ≡ none)
unfolding eight go_on allocate turn_off
delete_nodes_frees_example = delete_nodes_frees ended-Reach refl
