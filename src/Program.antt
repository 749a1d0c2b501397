-- ===== src/Program.antt =====
-- src/server.cpp, src/client.cpp: the main loops; src/relay.cpp and src/file.cpp: how a thread that
-- sends a file starts. A turn is one round of the loop, and what its calls get from the system is an
-- argument. A thread is named where it starts; the todos that it leaves are an argument of the turn.
pub mod Turns
pub mod Shutdown
pub mod Relaying
pub mod Main
pub mod Idling
pub mod Texting
mod Tests
use iu.Prelude.{
  ℕ, suc, Bool, true, false, Option, none, some, List, [], ◌∷◌, ◌++◌, length, if◌then◌else◌,
}
use iu.Msg.{Addr, Msg, Sizeof, Self}
use iu.Datacenters.{Directory}
use iu.Messenger.{Messenger, Item}
use iu.File.{Todo, finisher, callback}
use iu.Todo.{Fifo, add_todos, do_todos}
use iu.Control.{System, Ipc, Pids, handle_iuctls, goes_on, shuts_down}
use iu.Net.{Net, Run, returns, exits, faults, spins, ◌>>=◌}
use iu.Net.Send.{Sent, Dial, send_stream}
use iu.Net.Receive.{Wait, Round, next_msg_now, net_idle}
use iu.Dispatch.{
  Answers, Served, served, relays_file, server_handle_msg, recv_file_finisher, Kept, kept,
  receives_file, client_handle_msg,
}

-- A stream is the last one that was given to the queue of a node; `none` is the null pointer.
abbrev pub Target : Type 0
Target = Option ℕ

-- The threads of the program: `recv_file_deputy` and `send_file_thread`, with their arguments.
pub data Thread (F : Type 0) : Type 0 where
  receives : (source : ℕ) → Target → Thread F
  sends : F → Target → Thread F

abbrev pub Job : Type 0 → Type 0
Job F = Todo F Target

module _ {F : Type 0} (dup : F → F) where
  unfoldable pub send_file : F → Target → List (Thread F) → List (Thread F)
  send_file fd out threads = threads ++ sends (dup fd) out ∷ []

  -- The `send_file` to a node.
  unfoldable pub send_file_to_node :
      (sizes : Sizeof) (self : Self) → Dial → F → ℕ → List (Thread F) → Net → Run (List (Thread F))
  unfolding send_stream send_file
  send_file_to_node sizes self dial fd dest threads s = do
    (has_stream, s') ← send_stream sizes self dial dest s
    returns (send_file fd (if has_stream then some dest else none) threads) s'

  -- The callback of a relay.
  unfoldable pub on_finished : Target → F → List (Thread F) → List (Thread F)
  unfolding send_file
  on_finished stream fd threads = send_file fd stream threads

  -- The two jobs that a receiving thread leaves; neither leaves another.
  unfoldable pub run_job : Job F → Net × List (Thread F) → (Net × List (Thread F)) × List (Job F)
  unfolding recv_file_finisher on_finished
  run_job (finisher source) (s, threads) = ((recv_file_finisher source s, threads), [])
  run_job (callback stream fd) (s, threads) = ((s, on_finished stream fd threads), [])

-- What a server has beside its network.
pub record Server (F Q T : Type 0) : Type 0 where
  pub dir : Directory
  pub system : System
  pub iuctls : Q
  pub todos : T
  pub threads : List (Thread F)

-- What a turn of a server gets: for its calls, and the todos that threads have left.
pub record ServerTurn (F : Type 0) : Type 0 where
  pub rounds : List Round
  pub answers : Answers
  pub idle : List Sent
  pub left : List (Job F)

unfoldable pub start_thread : {F : Type 0} → Served → List (Thread F) → List (Thread F)
start_thread served threads = threads
start_thread (relays_file source dest has_stream) threads =
    threads ++ receives source (if has_stream then some dest else none) ∷ []

-- `none` is the end of the process, by `exit(0)`.
module _ {F Q T : Type 0} (dup : F → F) (ipc : Ipc Q) (fifo : Fifo (Job F) T) (sizes : Sizeof)
    (self : Self) (pids : Pids) (format : (nid loc : ℕ) → Addr → List ℕ) where
  unfoldable pub serve_next : Answers → Msg → Server F Q T → Net → Run (Option (Server F Q T))
  unfolding server_handle_msg start_thread
  serve_next answers next server s = do
    (r, s') ← server_handle_msg sizes self answers next server.dir s
    returns (some (record server { threads = start_thread r server.threads })) s'

  -- `destroy_iuctl` may end the process by its failing call.
  unfoldable pub maintain : List Sent → Server F Q T → Net → Run (Option (Server F Q T))
  unfolding handle_iuctls net_idle
  maintain idle server s =
      elim (handle_iuctls ipc pids format server.system s server.dir server.iuctls) [
        | goes_on s' dir q ↦ do
          (r, s'') ← net_idle idle s'
          returns (some (record server { dir = dir; iuctls = q })) s''
        | shuts_down system s' ↦ returns none s'
        | iu.Control.dies ↦ exits
        | iu.Control.waits ↦ spins
        | iu.Control.faults ↦ faults
      ]

  -- With the fuel for as many jobs as wait.
  unfoldable pub run_todos : List (Job F) → Server F Q T → Net → Run (Option (Server F Q T))
  unfolding run_job
  run_todos left server s =
      let todos = add_todos fifo (run_job dup) left server.todos in
      elim (do_todos fifo (run_job dup) (suc (length (fifo.view todos)))
        ((s, server.threads), todos)) [
          | none ↦ spins
          | some ((s', threads), todos') ↦
              returns (some (record server { todos = todos'; threads = threads })) s'
        ]

  unfoldable pub server_turn : ServerTurn F → Server F Q T → Net → Run (Option (Server F Q T))
  unfolding next_msg_now serve_next maintain run_todos
  server_turn turn server s = do
    (next, s') ← next_msg_now turn.rounds s
    (server', s'') ← elim next [
      | some m ↦ serve_next turn.answers m server s'
      | none ↦ maintain turn.idle server s'
    ]
    elim server' [ none ↦ returns none s'' | some r ↦ run_todos turn.left r s'' ]

  -- `main_loop` of a server, for as many turns as there are.
  unfoldable pub server_loop :
      List (ServerTurn F) → Server F Q T → Net → Run (Option (Server F Q T))
  unfolding server_turn
  server_loop [] server s = returns (some server) s
  server_loop (turn ∷ turns) server s = do
    (server', s') ← server_turn turn server s
    elim server' [ none ↦ returns none s' | some r ↦ server_loop turns r s' ]

-- What a client has beside its network: the messenger, and the files that threads receive for it.
pub record Client : Type 0 where
  pub messenger : Messenger
  pub files : List (ℕ × ℕ × Item)

pub record ClientTurn : Type 0 where
  pub rounds : List Round
  pub waits : List Wait
  pub junk : Bool

unfoldable pub keep_item : Kept → List (ℕ × ℕ × Item) → Client
keep_item (kept messenger) files = record { messenger = messenger; files = files }
keep_item (receives_file source sender item messenger) files = record {
  messenger = messenger;
  files = files ++ (source, sender, item) ∷ [];
}

-- `main_loop` of a client has no maintenance.
unfoldable pub client_turn : Sizeof → ClientTurn → Client → Net → Run Client
unfolding next_msg_now client_handle_msg keep_item
client_turn sizes turn client s = do
  (next, s') ← next_msg_now turn.rounds s
  elim next [
    | some m ↦ do
      (r, s'') ← client_handle_msg sizes turn.waits turn.junk m client.messenger s'
      returns (keep_item r client.files) s''
    | none ↦ returns client s'
  ]

unfoldable pub client_loop : Sizeof → List ClientTurn → Client → Net → Run Client
unfolding client_turn
client_loop sizes [] client s = returns client s
client_loop sizes (turn ∷ turns) client s = do
  (client', s') ← client_turn sizes turn client s
  client_loop sizes turns client' s'
