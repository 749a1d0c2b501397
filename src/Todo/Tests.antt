-- ===== src/Todo/Tests.antt =====
-- Jobs that write a number each; one adds another job.
use iu.Prelude.{ℕ, ◌≡◌, refl, Option, none, some, List, [], ◌∷◌, ◌++◌, ◌==◌, if◌then◌else◌}
use iu.Todo.Queue.{Queue, mpsc_fifo, start_queue}
use iu.Todo.{Fifo, do_todos, add_todo, add_todos}

abbrev list_get : List ℕ → Option ℕ × List ℕ
list_get [] = (none, [])
list_get (x ∷ xs) = (some x, xs)

list_get-none : (q : List ℕ) → q ≡ [] → ((list_get q).0 ≡ none) × ((list_get q).1 ≡ [])
list_get-none q e = rw e (refl, refl)

list_get-some :
    (q : List ℕ) (x : ℕ) (xs : List ℕ)
    → q ≡ x ∷ xs
    → ((list_get q).0 ≡ some x) × ((list_get q).1 ≡ xs)
list_get-some q x xs e = rw e (refl, refl)

abbrev list_fifo : Fifo ℕ (List ℕ)
list_fifo = record {
  put = λ x q. q ++ x ∷ [];
  get = list_get;
  view = λ q. q;
  view-put = λ x q. refl;
  get_none = list_get-none;
  get_some = list_get-some;
}

-- Job 1 adds job 9.
abbrev writes : ℕ → List ℕ → List ℕ × List ℕ
writes j s = (s ++ j ∷ [], if j == 1 then 9 ∷ [] else [])

abbrev only_writes : ℕ → List ℕ → List ℕ × List ℕ
only_writes j s = (s ++ j ∷ [], [])

-- Two jobs in the queue of include/mpsc.h.
abbrev two_jobs : Queue ℕ
two_jobs = mpsc_fifo.put 2 (mpsc_fifo.put 1 (start_queue 10))

nine_last : do_todos list_fifo writes 4 ([], 1 ∷ 2 ∷ []) ≡ some (1 ∷ 2 ∷ 9 ∷ [], [])
unfolding do_todos add_todos add_todo
nine_last = refl
