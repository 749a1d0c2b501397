-- ===== src/Todo/Order.antt =====
-- The order in which jobs run, and when the loop ends.
use iu.Prelude.{
  ℕ, zero, suc, ◌<◌, ◌≡◌, refl, ap, sym, ◌∙◌, inl, inr, Option, none, some, List, [], ◌∷◌, ◌++◌,
  append_assoc, append-nil, length, arith, Option-cases,
}
use iu.Todo.{Fifo, add_todos, do_todos, run_list}

module _ {T Q S : Type 0} (fifo : Fifo T Q) (run : T → S → S × List T) where
  open fifo use {put, get, view}

  pub view-add_todos : (jobs : List T) (q : Q) → view (add_todos fifo run jobs q) ≡ view q ++ jobs
  unfolding add_todos
  view-add_todos [] q = sym (append-nil (view q))
  view-add_todos (j ∷ jobs) q =
      view-add_todos jobs (put j q) ∙ rw (fifo.view-put j q) (append_assoc (view q) (j ∷ []) jobs)

  do_todos-none :
      (fuel : ℕ) (s : S) (q : Q)
      → (get q).0 ≡ none
      → do_todos fifo run (suc fuel) (s, q) ≡ some (s, (get q).1)
  unfolding do_todos
  do_todos-none fuel s q e = rw (e, do_todos)

  do_todos-some :
      (fuel : ℕ) (s : S) (q : Q) (j : T)
      → (get q).0 ≡ some j
      → do_todos fifo run (suc fuel) (s, q)
        ≡ do_todos fifo run fuel ((run j s).0, add_todos fifo run (run j s).1 (get q).1)
  unfolding do_todos
  do_todos-some fuel s q j e = rw (e, do_todos)

  abbrev pub Refines : Option (S × Q) → Option S → Type 0
  Refines none o = o ≡ none
  Refines (some (s, q)) o = (o ≡ some s) × (view q ≡ [])

  run_list_cons :
      (fuel : ℕ) (s : S) (j : T) (jobs : List T)
      → run_list fifo run (suc fuel) s (j ∷ jobs)
        ≡ run_list fifo run fuel (run j s).0 (jobs ++ (run j s).1)
  unfolding run_list
  run_list_cons fuel s j jobs = refl

  -- The loop runs the jobs in the order in which they were added, those that a job adds behind
  -- those that wait; with the same fuel it ends exactly if this ends, in the same state, and the
  -- queue is empty then.
  pub do_todos-Refines :
      (fuel : ℕ) (s : S) (q : Q) (jobs : List T)
      → view q ≡ jobs
      → Refines (do_todos fifo run fuel (s, q)) (run_list fifo run fuel s jobs)
  do_todos-Refines zero s q jobs h = unfold do_todos run_list in refl
  do_todos-Refines (suc fuel) s q [] h =
      let law = fifo.get_none q h in
      rw (do_todos-none fuel s q law.0) (unfold run_list in (refl, law.1))
  do_todos-Refines (suc fuel) s q (j ∷ jobs) h =
      let law = fifo.get_some q j jobs h in
      rw (do_todos-some fuel s q j law.0, run_list_cons fuel s j jobs)
        (do_todos-Refines fuel (run j s).0 (add_todos fifo run (run j s).1 (get q).1)
          (jobs ++ (run j s).1)
          (view-add_todos (run j s).1 (get q).1 ∙ ap (λ l. l ++ (run j s).1) law.1))

  -- The state after all jobs of a list, if none adds another.
  abbrev pub run_all : S → List T → S
  run_all s [] = s
  run_all s (j ∷ jobs) = run_all (run j s).0 jobs

  run_list_total :
      (fuel : ℕ) (s : S) (jobs : List T)
      → ((j : T) (s' : S) → (run j s').1 ≡ [])
      → length jobs < fuel
      → run_list fifo run fuel s jobs ≡ some (run_all s jobs)
  unfolding run_list
  run_list_total zero s jobs h k = absurd (omega arith)
  run_list_total (suc fuel) s [] h k = refl
  run_list_total (suc fuel) s (j ∷ jobs) h k =
      rw (h j s, append-nil jobs) (run_list_total fuel (run j s).0 jobs h (omega arith))

  -- If no job adds another, the loop ends after one round more than there are jobs; it has run each
  -- job once, oldest first.
  pub do_todos_total :
      (s : S) (q : Q)
      → ((j : T) (s' : S) → (run j s').1 ≡ [])
      → (q' : Q) × (do_todos fifo run (suc (length (view q))) (s, q)
          ≡ some (run_all s (view q), q'))
        × (view q' ≡ [])
  do_todos_total s q h =
      let fuel = suc (length (view q)) in
      let goes = run_list_total fuel s (view q) h (omega arith) in
      let refines = do_todos-Refines fuel s q (view q) refl in
      elim (Option-cases (do_todos fifo run fuel (s, q))) [
        | inl e ↦ absurd (ground arith)
        | inr ((s', q'), e) ↦ (q', ground arith, ground arith)
      ]
