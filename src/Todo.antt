-- ===== src/Todo.antt =====
-- src/todo.cpp: jobs that any thread adds and the main thread runs. The queue is an interface, which
-- include/mpsc.h implements; a job changes the state of the program and may add jobs.
pub mod Order
pub mod Queue
mod Tests
use iu.Prelude.{ℕ, zero, suc, ◌≡◌, Option, none, some, List, [], ◌∷◌, ◌++◌}

-- `view` is what was put and not got yet, oldest first.
pub record Fifo (T : Type 0) (Q : Type 0) : Type 0 where
  pub put : T → Q → Q
  pub get : Q → Option T × Q
  pub view : Q → List T
  pub view-put : (x : T) (q : Q) → view (put x q) ≡ view q ++ x ∷ []
  pub get_none : (q : Q) → view q ≡ [] → ((get q).0 ≡ none) × (view (get q).1 ≡ [])
  pub get_some :
      (q : Q) (x : T) (xs : List T) → view q ≡ x ∷ xs → ((get q).0 ≡ some x) × (view (get q).1 ≡ xs)

module _ {T Q S : Type 0} (fifo : Fifo T Q) (run : T → S → S × List T) where
  open fifo use {put, get}

  pub add_todo : T → Q → Q
  add_todo job q = put job q

  pub add_todos : List T → Q → Q
  unfolding add_todo
  add_todos [] q = q
  add_todos (job ∷ jobs) q = add_todos jobs (add_todo job q)

  -- The loop, with fuel.
  pub do_todos : ℕ → S × Q → Option (S × Q)
  do_todos zero (s, q) = none
  do_todos (suc fuel) (s, q) =
      let (job, q') = get q in
      elim job [
        | none ↦ some (s, q')
        | some j ↦ let (s', added) = run j s in do_todos fuel (s', add_todos added q')
      ]

  -- What the jobs of a list do, the added ones behind those that wait.
  pub run_list : ℕ → S → List T → Option S
  run_list zero s jobs = none
  run_list (suc fuel) s [] = some s
  run_list (suc fuel) s (j ∷ jobs) = let (s', added) = run j s in run_list fuel s' (jobs ++ added)
