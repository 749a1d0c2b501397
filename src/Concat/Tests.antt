-- ===== src/Concat/Tests.antt =====
-- The theorems on streams at concrete streams.
use iu.Prelude.{ℕ, ◌≤◌, ◌≡◌, refl, true, false, [], ◌∷◌, ◌++◌, arith}
use iu.Concat.{
  Stream, stream, nil, node, given, Result, returns, empty_stream, depleted, get, peek, skip, ready,
  empty, closed, close, put, give, snoc_node, snoc_given, sweep,
}
use iu.Concat.View.{then_if_ended, view, size}
use iu.Concat.Reading.{Got, nothing, get-Got}
use iu.Concat.Ready.{IsProper, Readied, ready-Readied, ready_overtakes}
use iu.Concat.Filling.{fill_last, flat}
use iu.Concat.Threads.{Reach, here, next, puts, gets, start, Reach-flat}
use iu.Concat.Writing.{if_closed, view-put}

-- A given stream with 1, closed, and 2 behind it.
abbrev inner : Stream ℕ
inner = stream nil (node 1 nil) true

abbrev outer : Stream ℕ
outer = stream (node 7 (node 8 nil)) (given inner (node 2 nil)) false

evaluate : ℕ → Stream ℕ → Result ℕ ℕ
unfolding get depleted put give close closed snoc_node snoc_given sweep peek skip ready empty
evaluate = get

get_outer :
    get 9 outer
    ≡ returns 1
        (stream (node 7 (node 8 nil)) (given (stream (node 1 nil) nil true) (node 2 nil)) false)
unfolding evaluate
get_outer = refl

sizes : size outer ≤ 9
unfolding size
sizes = omega arith

get-Got_example : Got (λ a x. a ≡ x) outer (get 9 outer)
get-Got_example = get-Got 9 outer sizes

outer-IsProper : IsProper outer
unfolding closed view
outer-IsProper = ((λ e. refl), tt, tt)

ready-Readied_example : Readied outer (ready 9 outer)
ready-Readied_example = ready-Readied 9 outer sizes outer-IsProper

ready_overtakes_example :
    (ready {T = ℕ} 3
        (stream nil (given (stream nil (given empty_stream (node 1 nil)) true) (node 2 nil)) false)
      ≡ returns true (
          stream
            (snoc_given nil (stream nil (given empty_stream (node 1 nil)) true))
            (node 2 nil)
            false))
    × (view {T = ℕ} (
          stream nil (given (stream nil (given empty_stream (node 1 nil)) true) (node 2 nil)) false)
        ≡ nothing false)
ready_overtakes_example = ready_overtakes 0 nil nil nil nil (node 1 nil) 2 false

view-put_example :
    (view (put 3 outer)
      ≡ then_if_ended (if_closed outer) (record { items = 3 ∷ []; ended = closed outer }))
    × (if_closed (put 3 outer)
        ≡ then_if_ended (if_closed outer) (record { items = 3 ∷ []; ended = true }))
view-put_example = view-put 3 outer

-- 7 waits in a queue; a thread puts 1 into the stream behind it, and 7 is got.
abbrev one_waits : Stream ℕ
one_waits = stream nil (node 7 nil) false

abbrev filled : Stream ℕ
filled = stream nil (node 7 (given (stream nil (node 1 nil) false) nil)) false

abbrev one_left : Stream ℕ
one_left = stream (node 7 nil) (given (stream nil (node 1 nil) false) nil) false

filling_1 :
    Reach (start (give empty_stream one_waits)) (record { queue = filled; got = []; put = 1 ∷ [] })
unfolding evaluate fill_last
filling_1 = next here (puts 1 filled refl refl)

filling :
    Reach
      (start (give empty_stream one_waits))
      (record { queue = one_left; got = 7 ∷ []; put = 1 ∷ [] })
unfolding evaluate
filling = next filling_1 (gets 1 7 one_left refl refl)

Reach-flat_example : (7 ∷ []) ++ flat one_left ≡ flat one_waits ++ 1 ∷ []
Reach-flat_example = Reach-flat one_waits filling
