-- ===== src/Program/Tests.antt =====
-- The theorems on the loops at concrete turns.
use iu.Prelude.{◌⊎◌, ℕ, ◌-◌, ◌≡◌, refl, true, false, some, none, List, [], ◌∷◌, ◌++◌, Option, arith}
use iu.Msg.{Addr, Sizeof, Self}
use iu.Datacenters
use iu.File.{finisher, callback}
use iu.Todo.{Fifo}
use iu.Control.{System, IuctlMsg, Ipc, Pids, first_of, without, shutdown_iuctl}
use iu.Net.{pos, no_events, Revents, Net, returns, exits, get_pollfds}
use iu.Net.Send.{Dial, connects, taken}
use iu.Net.Receive.{Round}
use iu.Net.{ends}
use iu.Program.{Job, Server, ServerTurn, run_todos, server_loop}
use iu.Program.Turns.{TodosDone, run_todos-TodosDone}
use iu.File.Disk.{disk}
use iu.Program.Relaying.{DupLaws, Relays, relayed_file}
use iu.Program.Main.{ends}
use iu.Msg.{new_identity_msg}
use iu.Concat
use iu.Messenger
use iu.Program.{Client, ClientTurn, client_loop}
use iu.Program.Idling.{client_loop-AllQuiet}
use iu.Program.Shutdown.{AllClosed, server_loop-shutdown_iuctl}

abbrev sizes : Sizeof
sizes = record {
  item_msg = 40;
  identity_msg = 32;
  heartbeat_msg = 16;
  file_header = 24;
  file_chunk = 16;
  string_msg = 16;
  addr_msg = 56;
}

abbrev server_9 : Self
server_9 = record { me = 9; location = 2; is_server = true }

-- A queue is its messages.
abbrev queue : Ipc (List IuctlMsg)
queue = record {
  msgsnd = λ m q. q ++ m ∷ [];
  msgrcv = λ t q. (first_of t q, without t q);
  pending = λ q. q;
  pending-msgsnd = λ m q. refl;
  msgrcv_first = λ t q. refl;
  pending-msgrcv = λ t q. refl;
}

-- A file is a number.
abbrev Jobs : Type 0
Jobs = List (Job ℕ)

abbrev list_get : Jobs → Option (Job ℕ) × Jobs
list_get [] = (none, [])
list_get (x ∷ xs) = (some x, xs)

list_get-none : (q : Jobs) → q ≡ [] → ((list_get q).0 ≡ none) × ((list_get q).1 ≡ [])
list_get-none q e = rw e (refl, refl)

list_get-some :
    (q : Jobs) (x : Job ℕ) (xs : Jobs)
    → q ≡ x ∷ xs
    → ((list_get q).0 ≡ some x) × ((list_get q).1 ≡ xs)
list_get-some q x xs e = rw e (refl, refl)

abbrev list_fifo : Fifo (Job ℕ) Jobs
list_fifo = record {
  put = λ x q. q ++ x ∷ [];
  get = list_get;
  view = λ q. q;
  view-put = λ x q. refl;
  get_none = list_get-none;
  get_some = list_get-some;
}

abbrev dup : ℕ → ℕ
dup fd = fd

abbrev format : ℕ → ℕ → Addr → List ℕ
format nid loc a = nid ∷ 9 ∷ loc ∷ 64 ∷ a

-- The server listens at descriptor 3; client 42, at 5, is not polled.
abbrev net : Net
net = record {
  server_fd = 3;
  pollfds = record { fd = pos 3; revents = no_events } ∷ [];
  start = 0;
  addresses = (9, 2 ∷ []) ∷ (42, 3 ∷ []) ∷ [];
  nids = (5, 42) ∷ [];
  connections = (42, 5) ∷ [];
  send_qs = [];
  last_fd = 5;
  events = [];
}

abbrev pids : Pids
pids = record { self_pid = 100; server_pid = 0 }

abbrev client_200 : Pids
client_200 = record { self_pid = 200; server_pid = 100 }

-- The file holds 100.
abbrev running : System
running = record { path = some (49 ∷ 48 ∷ 48 ∷ []); queue = true }

abbrev server : Server ℕ (List IuctlMsg) Jobs
server = record {
  system = running;
  dir = iu.Datacenters.initial;
  iuctls = [];
  todos = [];
  threads = [];
}

-- The thread that received file 8 from client 42 for node 7 has left its two todos.
abbrev left : Jobs
left = finisher 42 ∷ callback (some 7) 8 ∷ []

run_todos-TodosDone_example :
    TodosDone dup queue list_fifo sizes server_9 pids format left server net
      (run_todos dup queue list_fifo sizes server_9 pids format left server net)
run_todos-TodosDone_example =
    run_todos-TodosDone dup queue list_fifo sizes server_9 pids format left server net

abbrev asked : Server ℕ (List IuctlMsg) Jobs
asked = record server { iuctls = shutdown_iuctl queue client_200 [] }

abbrev quiet : ℕ → Revents
quiet fd = no_events

abbrev quiet_round : Round
quiet_round = record {
  polled = some quiet;
  fd = 6;
  addr = [];
  junk = 0;
  waits = [];
  received = ends;
}

abbrev dial_6 : Dial
dial_6 = record { fd = 6; connected = connects; identified = taken }

abbrev turn : ServerTurn ℕ
turn = record {
  rounds = quiet_round ∷ [];
  answers = record { dial = dial_6; sent = taken; waits = []; dial' = dial_6; sent' = taken };
  idle = [];
  left = [];
}

server_loop-shutdown_iuctl_example :
    ((pid : List ℕ) × (s' : Net) × (running.path ≡ some pid)
      × (server_loop dup queue list_fifo sizes server_9 pids format (turn ∷ turn ∷ []) asked net
          ≡ returns none s')
      × AllClosed net s')
    ⊎ ((running.path ≡ none)
        × (server_loop dup queue list_fifo sizes server_9 pids format (turn ∷ turn ∷ []) asked net
            ≡ exits))
unfolding get_pollfds
server_loop-shutdown_iuctl_example =
    server_loop-shutdown_iuctl dup queue list_fifo sizes server_9 100 200 format asked [] net
      quiet_round turn [] (turn ∷ []) quiet (λ e. omega arith) refl refl refl refl refl refl

same_file : DupLaws disk (λ f. f)
same_file = record { content-dup = λ f. refl; size-dup = λ f. refl }

relayed_file_example :
    Relays disk (λ f. f) same_file sizes ([], 1 ∷ 2 ∷ 3 ∷ []) true 42 7 9 [] [] net []
relayed_file_example =
    relayed_file disk (λ f. f) same_file sizes ([], 1 ∷ 2 ∷ 3 ∷ []) true 42 7 9 [] [] net []
      (omega arith) (omega arith)

abbrev atoll : List ℕ → ℕ
atoll [] = 0
atoll (c ∷ cs) = c - 48

-- A message waits for node 42 in the queue of client 7.
abbrev waiting : Net
waiting = record net {
  send_qs =
      (
        42,
        iu.Concat.stream iu.Concat.nil
            (iu.Concat.node (new_identity_msg sizes server_9) iu.Concat.nil) false,
      )
      ∷ [];
}

abbrev idle_turn : ClientTurn
idle_turn = record { rounds = quiet_round ∷ []; waits = []; junk = false }

abbrev client_7 : Client
client_7 = record { messenger = iu.Messenger.initial; files = [] }

client_loop-AllQuiet_example :
    (s' : Net) × (client_loop sizes (idle_turn ∷ idle_turn ∷ []) client_7 waiting
      ≡ returns client_7 s')
    × (s'.send_qs ≡ waiting.send_qs)
    × (s'.events ≡ [])
client_loop-AllQuiet_example =
    client_loop-AllQuiet sizes (idle_turn ∷ idle_turn ∷ []) client_7 waiting
      ((quiet_round, [], refl, refl), ((quiet_round, [], refl, refl), tt))
