-- ===== src/Program/Turns.antt =====
-- What a turn of a server does with the todos, and how the requests of iuctl end the loop.
use iu.Prelude.{
  ℕ, ◌≡◌, refl, sym, ap, subst, ◌∙◌, Option, none, some, List, [], ◌∷◌, ◌++◌, append_assoc,
  append-nil, Option-cases, inl, inr,
}
use iu.Prelude.Map.{Map, find}
use iu.Msg.{Addr, Sizeof, Self}
use iu.File.{finisher, callback}
use iu.Todo.{Fifo, add_todos}
use iu.Todo.Order.{view-add_todos, run_all, do_todos_total}
use iu.Control.{Ipc, Pids}
use iu.Net.{Pollfd, Net, Run, returns, net_resume}
use iu.Net.Suspending.{polled, polled-net_resume}
use iu.Program.{Target, Thread, sends, Job, run_job, Server, run_todos}

-- The descriptors of the nodes that jobs resume.
abbrev pub resumed : {F : Type 0} → List (Job F) → Map ℕ → List ℕ
resumed [] m = []
resumed (finisher source ∷ jobs) m = elim (find source m) [
  | none ↦ resumed jobs m
  | some fd ↦ fd ∷ resumed jobs m
]
resumed (callback stream fd ∷ jobs) m = resumed jobs m

abbrev pub with_polled : List Pollfd → Net → Net
with_polled ps s = record s { pollfds = ps }

-- Only the descriptors that are polled change.
pub record Resumes (fds : List ℕ) (s s' : Net) : Type 0 where
  pub polls : polled s'.pollfds ≡ polled s.pollfds ++ fds
  pub rest : s' ≡ with_polled s'.pollfds s

module _ {F : Type 0} (dup : F → F) where
  -- The threads that jobs start.
  abbrev pub senders : List (Job F) → List (Thread F)
  senders [] = []
  senders (finisher source ∷ jobs) = senders jobs
  senders (callback stream fd ∷ jobs) = sends (dup fd) stream ∷ senders jobs

  net_resume-Resumes :
      (source : ℕ) (jobs : List (Job F)) (s : Net)
      → (fds : List ℕ) × Resumes fds s (net_resume source s)
        × (resumed (finisher source ∷ jobs) s.connections ≡ fds ++ resumed jobs s.connections)
  unfolding net_resume iu.Net.add_poll_fd
  net_resume-Resumes source jobs s = elim (Option-cases (find source s.connections)) [
    | inl e ↦ (
      [],
      rw (e, net_resume) (record { polls = sym (append-nil (polled s.pollfds)); rest = refl }),
      rw (e, resumed) refl,
    )
    | inr (fd, e) ↦ (
      fd ∷ [],
      record { polls = polled-net_resume source fd s e; rest = rw (e, net_resume) refl },
      rw (e, resumed) refl,
    )
  ]

  Resumes-trans :
      {ds bs : List ℕ} {s t u : Net} → Resumes ds s t → Resumes bs t u → Resumes (ds ++ bs) s u
  Resumes-trans {ds} {bs} {s} a b = record {
    polls = b.polls ∙ ap (λ l. l ++ bs) a.polls ∙ append_assoc (polled s.pollfds) ds bs;
    rest = b.rest ∙ ap (with_polled _) a.rest;
  }

  module _ {T : Type 0} (fifo : Fifo (Job F) T) where
    -- What jobs do, one after the other.
    run_all-run_job :
        (jobs : List (Job F)) (s : Net) (threads : List (Thread F))
        → (s' : Net) × (run_all fifo (run_job dup) (s, threads) jobs
            ≡ (s', threads ++ senders jobs))
          × Resumes (resumed jobs s.connections) s s'
    unfolding run_job iu.Program.on_finished iu.Program.send_file iu.Dispatch.recv_file_finisher
    run_all-run_job [] s threads = (
      s,
      ap (λ l. (s, l)) (sym (append-nil threads)),
      record { polls = sym (append-nil (polled s.pollfds)); rest = refl },
    )
    run_all-run_job (finisher source ∷ jobs) s threads =
        let (fds, r, e) = net_resume-Resumes source jobs s in
        let (s', k, r') = run_all-run_job jobs (net_resume source s) threads in
        let c : (net_resume source s).connections ≡ s.connections =
          ap (λ t. t.connections) r.rest in
        (
          s',
          k,
          subst (λ l. Resumes l s s') (ap (λ c. fds ++ resumed jobs c) c ∙ sym e)
              (Resumes-trans r r'),
        )
    run_all-run_job (callback stream fd ∷ jobs) s threads =
        let (s', k, r) = run_all-run_job jobs s (threads ++ sends (dup fd) stream ∷ []) in
        (
          s',
          k ∙ ap (λ l. (s', l)) (append_assoc threads (sends (dup fd) stream ∷ []) (senders jobs)),
          r,
        )

run_job-none :
    {F : Type 0} (dup : F → F) (job : Job F) (s : Net × List (Thread F))
    → (run_job dup job s).1 ≡ []
unfolding run_job
run_job-none dup (finisher source) (s, threads) = refl
run_job-none dup (callback stream fd) (s, threads) = refl

module _ {F Q T : Type 0} (dup : F → F) (ipc : Ipc Q) (fifo : Fifo (Job F) T) (sizes : Sizeof)
    (self : Self) (pids : Pids) (format : (nid loc : ℕ) → Addr → List ℕ) where
  abbrev pub all_jobs : List (Job F) → Server F Q T → List (Job F)
  all_jobs left server = fifo.view server.todos ++ left

  abbrev pub TodosDone : List (Job F) → Server F Q T → Net → Run (Option (Server F Q T)) → Type 0
  TodosDone left server s r =
      (s' : Net) × (q : T) × (r
        ≡ returns
            (some (record server {
              todos = q;
              threads = server.threads ++ senders dup (all_jobs left server);
            }))
            s')
      × (fifo.view q ≡ [])
      × Resumes (resumed (all_jobs left server) s.connections) s s'

  -- The end of a turn of a server: the loop over the todos ends, and no todo waits then, whichever
  -- threads have left. Each file that was received whole has a thread that sends it on, in the order
  -- of the todos, and the descriptor of each source that has a connection is polled again, behind
  -- those that are polled; nothing else of the network changes.
  pub run_todos-TodosDone :
      (left : List (Job F)) (server : Server F Q T) (s : Net)
      → TodosDone left server s (run_todos dup ipc fifo sizes self pids format left server s)
  unfolding run_todos
  run_todos-TodosDone left server s =
      let todos = add_todos fifo (run_job dup) left server.todos in
      let v : fifo.view todos ≡ all_jobs left server =
        view-add_todos fifo (run_job dup) left server.todos in
      let (q, e, n) =
        do_todos_total fifo (run_job dup) (s, server.threads) todos (run_job-none dup) in
      let (s', k, r) = run_all-run_job dup fifo (all_jobs left server) s server.threads in
      (
        s',
        q,
        rw (e, run_todos)
            (ap (λ p. returns (some (record server { todos = q; threads = p.1 })) p.0)
              (ap (run_all fifo (run_job dup) (s, server.threads)) v ∙ k)),
        n,
        r,
      )
