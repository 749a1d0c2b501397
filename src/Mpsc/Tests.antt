-- ===== src/Mpsc/Tests.antt =====
-- Two producers: thread 1 is overtaken between the halves of its `put`.
use iu.Prelude.{
  update, ℕ, suc, length, ◌≡◌, refl, ◌⊎◌, Option, none, some, List, [], ◌∷◌, ◌++◌, arith,
}
use iu.Mpsc.Freeing.{destroy_frees}
use iu.Mpsc.{Mpsc, Node, destroy, init, exchange, link, put, get}
use iu.Mpsc.Safety.{World, Reach, here, next, exchanges, links, start, got_is_prefix, no_dangling}

abbrev step_1 : Mpsc ℕ
step_1 = exchange 1 11 100 (init 10)

-- Thread 2 has put 200 behind the node of thread 1, which is not linked.
abbrev overtaken : Mpsc ℕ
overtaken = exchange 2 12 200 step_1

evaluate : ℕ → Mpsc ℕ
unfolding init exchange link get put
evaluate = init

get_overtaken : get overtaken ≡ some (none, overtaken)
unfolding evaluate
get_overtaken = refl

put_twice :
    (q : Mpsc ℕ) × (r : Mpsc ℕ) × (put 1 11 100 (init 10) ≡ some q) × (get q ≡ some (some 100, r))
unfolding evaluate
put_twice = (_, _, refl, refl)

abbrev world_1 : World ℕ
world_1 = record { queue = step_1; put = 100 ∷ []; got = [] }

abbrev world_2 : World ℕ
world_2 = record { queue = overtaken; put = 100 ∷ 200 ∷ []; got = [] }

two_runs : Reach (start 10) world_2
unfolding start evaluate
two_runs = next (next here (exchanges 1 11 100 refl refl refl)) (exchanges 2 12 200 refl refl refl)

got_is_prefix_example : (rest : List ℕ) × (world_2.put ≡ world_2.got ++ rest)
got_is_prefix_example = got_is_prefix 10 two_runs

no_dangling_example :
    ((r : Option ℕ × Mpsc ℕ) × (get world_2.queue ≡ some r))
    × ((t : ℕ) → (world_2.queue.thread t ≡ none) ⊎ ((q : Mpsc ℕ) × (link t world_2.queue ≡ some q)))
no_dangling_example = no_dangling 10 two_runs

-- Thread 1 has put 100.
abbrev linked_1 : Mpsc ℕ
linked_1 = record {
  first = 10;
  last = 11;
  cell =
      update
        (update (update (λ _. none) 10 (some (record { next = none; item = none }))) 11
          (some (record { next = none; item = some 100 })))
        10 (some (record { next = some 11; item = none }));
  thread = update (update (λ _. none) 1 (some (10, 11))) 1 none;
}

abbrev world_3 : World ℕ
world_3 = record { queue = linked_1; put = 100 ∷ []; got = [] }

three_runs : Reach (start 10) world_3
unfolding start evaluate
three_runs = next (next here (exchanges 1 11 100 refl refl refl)) (links 1 linked_1 refl refl)

idle_3 : (t : ℕ) → world_3.queue.thread t ≡ none
idle_3 t = ground arith

destroy_frees_example :
    (rest : List ℕ) × (cell : ℕ → Option (Node ℕ)) × (world_3.put ≡ world_3.got ++ rest)
    × (destroy (suc (suc (length rest))) (some world_3.queue.first) world_3.queue.cell ≡ some cell)
    × ((a : ℕ) → cell a ≡ none)
destroy_frees_example = destroy_frees 10 three_runs idle_3
