-- ===== src/Program/Shutdown.antt =====
-- How a request of iuctl ends the loop of a server.
use iu.Prelude.{
  Option, ◌++◌, map, ◌⊎◌, inl, inr, Option-cases, arith, [], ℕ, ◌≡◌, ◌≢◌, refl, ap, ◌∙◌, false,
  none, some, List, ◌∷◌,
}
use iu.Msg.{Addr, Sizeof, Self}
use iu.Todo.{Fifo}
use iu.Control.{
  System, Control, iuctl_server_shutdown, destroy_iuctl, Ipc, Pids, first_of, shutdown_iuctl,
  handle_iuctls, goes_on, shuts_down,
}
use iu.Control.Requests.{handle_iuctls-shutdown_iuctl}
use iu.Prelude.Map.{Map}
use iu.Net.{
  closes, close_all, Run, exits, Revents, Net, returns, spins, faults, ◌>>=◌, get_pollfds,
  shutdown_server,
}
use iu.Net.Send.{Sent}
use iu.Net.Receive.{Round, poll_fds, any_set, net_idle}
use iu.Net.Turns.{next_msg_now-nothing}
use iu.Program.{Job, Server, ServerTurn, maintain, server_turn, server_loop, run_todos}

close_all-map : (m : Map ℕ) → close_all m ≡ map (λ e. closes e.0) m
close_all-map [] = refl
close_all-map ((fd, nid) ∷ m) = ap (λ l. closes fd ∷ l) (close_all-map m)

-- Every connection is closed, in the order of the entries, and then the socket; the network has no
-- connection, no descriptor to poll and no queue left.
abbrev pub AllClosed : (before after : Net) → Type 0
AllClosed s s' =
    (s'.events ≡ (s.events ++ map (λ e. closes e.0) s.nids) ++ closes s.server_fd ∷ [])
    × (s'.nids ≡ [])
    × (s'.connections ≡ [])
    × (s'.pollfds ≡ [])
    × (s'.send_qs ≡ [])

module _ {F Q T : Type 0} (dup : F → F) (ipc : Ipc Q) (fifo : Fifo (Job F) T) (sizes : Sizeof)
    (self : Self) (server_pid client_pid : ℕ) (format : (nid loc : ℕ) → Addr → List ℕ) where
  open ipc use {pending}

  abbrev serves : Pids
  serves = record { self_pid = server_pid; server_pid = 0 }

  abbrev asks : Pids
  asks = record { self_pid = client_pid; server_pid = server_pid }

  -- What the process does at the request: `Unlink` ends it if there is no file.
  abbrev ends_with : Option (System × Net) → Run (Option (Server F Q T))
  ends_with none = exits
  ends_with (some (sys, s)) = returns none s

  abbrev after_iuctls : List Sent → Server F Q T → Control Q → Run (Option (Server F Q T))
  after_iuctls idle server (goes_on s dir q) = do
    (r, s') ← net_idle idle s
    returns (some (record server { dir = dir; iuctls = q })) s'
  after_iuctls idle server (shuts_down sys s) = returns none s
  after_iuctls idle server iu.Control.dies = exits
  after_iuctls idle server iu.Control.waits = spins
  after_iuctls idle server iu.Control.faults = faults

  after_iuctls_shutdown :
      (idle : List Sent) (server : Server F Q T) (o : Option (System × Net))
      → after_iuctls idle server
          (elim o [ none ↦ iu.Control.dies | some (sys, s) ↦ shuts_down sys s ])
        ≡ ends_with o
  after_iuctls_shutdown idle server none = refl
  after_iuctls_shutdown idle server (some (sys, s)) = refl

  maintain-shutdown :
      (idle : List Sent) (server : Server F Q T) (q : Q) (s : Net)
      → client_pid ≢ server_pid
      → first_of server_pid (pending q) ≡ none
      → first_of client_pid (pending q) ≡ none
      → server.iuctls ≡ shutdown_iuctl ipc asks q
      → maintain dup ipc fifo sizes self serves format idle server s
        ≡ ends_with (iuctl_server_shutdown server.system s)
  unfolding maintain
  maintain-shutdown idle server q s n hs hc i =
      ap (after_iuctls idle server) (
        ap (handle_iuctls ipc serves format server.system s server.dir) i
        ∙ handle_iuctls-shutdown_iuctl ipc server_pid client_pid q format server.system s server.dir
            n hs hc)
      ∙ after_iuctls_shutdown idle server (iuctl_server_shutdown server.system s)

  abbrev unless_ended :
      (Server F Q T → Net → Run (Option (Server F Q T)))
      → Option (Server F Q T) × Net
      → Run (Option (Server F Q T))
  unless_ended k r = elim r.0 [ none ↦ returns none r.1 | some server ↦ k server r.1 ]

  ends_with_last :
      (k k' : Server F Q T → Net → Run (Option (Server F Q T))) (o : Option (System × Net))
      → ends_with o >>= unless_ended k >>= unless_ended k' ≡ ends_with o
  ends_with_last k k' none = refl
  ends_with_last k k' (some (sys, s)) = refl

  server_loop-ends_with :
      (server : Server F Q T) (q : Q) (s : Net) (round : Round) (turn : ServerTurn F)
      (rounds : List Round) (turns : List (ServerTurn F)) (events : ℕ → Revents)
      → client_pid ≢ server_pid
      → first_of server_pid (pending q) ≡ none
      → first_of client_pid (pending q) ≡ none
      → server.iuctls ≡ shutdown_iuctl ipc asks q
      → turn.rounds ≡ round ∷ rounds
      → round.polled ≡ some events
      → any_set (poll_fds events (get_pollfds s).pollfds) ≡ false
      → server_loop dup ipc fifo sizes self serves format (turn ∷ turns) server s
        ≡ ends_with (
            iuctl_server_shutdown server.system
              (record s { pollfds = poll_fds events (get_pollfds s).pollfds }))
  unfolding server_loop server_turn
  server_loop-ends_with server q s round turn rounds turns events n hs hc i r e h =
      let s' : Net = record s { pollfds = poll_fds events (get_pollfds s).pollfds } in
      rw
        (
          r,
          next_msg_now-nothing round rounds events s e h,
          maintain-shutdown turn.idle server q s' n hs hc i,
        )
        (ends_with_last (run_todos dup ipc fifo sizes self serves format turn.left)
          (server_loop dup ipc fifo sizes self serves format turns)
          (iuctl_server_shutdown server.system s'))

  pub server_loop-shutdown_iuctl :
      (server : Server F Q T) (q : Q) (s : Net) (round : Round) (turn : ServerTurn F)
      (rounds : List Round) (turns : List (ServerTurn F)) (events : ℕ → Revents)
      → client_pid ≢ server_pid
      → first_of server_pid (pending q) ≡ none
      → first_of client_pid (pending q) ≡ none
      → server.iuctls ≡ shutdown_iuctl ipc asks q
      → turn.rounds ≡ round ∷ rounds
      → round.polled ≡ some events
      → any_set (poll_fds events (get_pollfds s).pollfds) ≡ false
      → let ran = server_loop dup ipc fifo sizes self serves format (turn ∷ turns) server s in
        ((pid : List ℕ) × (s' : Net) × (server.system.path ≡ some pid)
          × (ran ≡ returns none s')
          × AllClosed s s')
        ⊎ ((server.system.path ≡ none) × (ran ≡ exits))
  unfolding shutdown_server iuctl_server_shutdown destroy_iuctl
  server_loop-shutdown_iuctl server q s round turn rounds turns events n hs hc i r e h =
      let ran = server_loop-ends_with server q s round turn rounds turns events n hs hc i r e h in
      elim (Option-cases server.system.path) [
        | inl k ↦ inr (k, ran ∙ ground (arith, k))
        | inr (pid, k) ↦ inl (
          pid,
          shutdown_server s,
          k,
          ran ∙ ground (arith, k),
          (
            ap (λ l. (s.events ++ l) ++ closes s.server_fd ∷ []) (close_all-map s.nids),
            refl,
            refl,
            refl,
            refl,
          ),
        )
      ]
