-- ===== src/Control/Tests.antt =====
-- The theorems on requests at a concrete queue.
use iu.Prelude.{
  ◌+◌, length, ℕ, ◌-◌, ◌≡◌, refl, ◌==◌, if◌then◌else◌, true, false, none, some, List, [], ◌∷◌, ◌++◌,
  arith,
}
use iu.Prelude.Map.{find}
use iu.Msg.{Addr}
use iu.Datacenters.{Directory}
use iu.Net.{Net}
use iu.Control.{
  IuctlMsg, Ipc, Pids, first_of, without, net_addresses, net_lines, net_request, net_reply, goes_on,
  handle_iuctls,
}
use iu.Control.{System}
use iu.Control.Listing.{listing, location_of}
use iu.Control.Startup.{Joins, joins, init_iuctl, join_iuctl}
use iu.Prelude.Text.{digits}
use iu.Control.Startup.Joining.{join_iuctl-init_iuctl}
use iu.Control.Command.{ends, addr_word, iuctl_main, handle_iuctls-iuctl_main}
use iu.Control.Requests.{net_reply-handle_iuctls}
use iu.Control.{mtext, stext, learn_addr}
use iu.Control.Failing.{got, no_message, fails, status_iuctl, net_iuctl, status_iuctl-net_iuctl}

-- A queue is its messages.
abbrev queue : Ipc (List IuctlMsg)
queue = record {
  msgsnd = λ m q. q ++ m ∷ [];
  msgrcv = λ t q. (first_of t q, without t q);
  pending = λ q. q;
  pending-msgsnd = λ m q. refl;
  msgrcv_first = λ t q. refl;
  pending-msgrcv = λ t q. refl;
}

abbrev server_100 : Pids
server_100 = record { self_pid = 100; server_pid = 0 }

abbrev client_200 : Pids
client_200 = record { self_pid = 200; server_pid = 100 }

abbrev format : ℕ → ℕ → Addr → List ℕ
format nid loc a = nid ∷ 9 ∷ loc ∷ 64 ∷ a

-- The server knows its own address.
abbrev net : Net
net = record {
  server_fd = 3;
  pollfds = [];
  start = 0;
  addresses = (42, 7 ∷ []) ∷ [];
  nids = [];
  connections = [];
  send_qs = [];
  last_fd = 0;
  events = [];
}

abbrev no_file : System
no_file = record { path = none; queue = false }

abbrev dir : Directory
dir = record { datacenters = (2, 42 ∷ []) ∷ []; nodes = (42, 2) ∷ [] }

net_reply-handle_iuctls_example :
    (q' : List IuctlMsg) × (dir' : Directory) × (handle_iuctls queue server_100 format no_file net
        dir
        (net_request queue client_200 [])
      ≡ goes_on net dir' q')
    × ((net_reply queue client_200 q').0
        ≡ some (length (listing format net.addresses dir ++ 0 ∷ []) + 8))
    × ((net_reply queue client_200 q').1 ≡ some (listing format net.addresses dir ++ 0 ∷ []))
    × ((net_reply queue client_200 q').2 ≡ [])
    × ((k : ℕ) → location_of k dir' ≡ location_of k dir)
net_reply-handle_iuctls_example =
    net_reply-handle_iuctls queue 100 200 [] format no_file net dir (λ e. omega arith) refl refl
      (omega arith)

-- The buffer held zeros; the server 100 runs.
abbrev joining : Joins
joining = record {
  open_fails = none;
  junk = 0 ∷ 0 ∷ 0 ∷ 0 ∷ [];
  kill = λ pid. if pid == 100 then 0 else 3;
  getpid = 200;
}

join_iuctl-init_iuctl_example :
    (sys : System) × (init_iuctl true 100 no_file ≡ some sys)
    × (join_iuctl joining sys ≡ joins client_200)
unfolding digits
join_iuctl-init_iuctl_example =
    join_iuctl-init_iuctl 100 no_file joining (omega arith) (omega arith) refl refl refl
      (omega arith)

abbrev atol : List ℕ → ℕ
atol [] = 0
atol (c ∷ cs) = c - 48

abbrev inet_pton : List ℕ → Addr → Addr
inet_pton text junk = text

handle_iuctls-iuctl_main_example :
    (r t : List IuctlMsg) × (s' : Net) × (iuctl_main queue atol inet_pton
        ((105 ∷ []) ∷ addr_word ∷ (55 ∷ []) ∷ (58 ∷ []) ∷ [])
        (joins client_200)
        []
        []
      ≡ ends r)
    × (handle_iuctls queue server_100 format no_file net dir r ≡ goes_on s' dir t)
    × ((k : ℕ) → find k s'.addresses ≡ (if 7 == k then some (58 ∷ []) else find k net.addresses))
    × (s' ≡ record net { addresses = s'.addresses })
    × (t ≡ [])
handle_iuctls-iuctl_main_example =
    handle_iuctls-iuctl_main queue atol inet_pton 100 200 format (105 ∷ []) (55 ∷ []) (58 ∷ []) []
      [] [] no_file net dir (λ e. omega arith) refl refl

-- After a round without a message, the server is busy; the text comes after two such rounds.
abbrev busy : IuctlMsg
busy = record { mtype = 200; text = mtext 0 learn_addr 1 }

abbrev text_of_5 : IuctlMsg
text_of_5 = record { mtype = 200; text = stext (5 ∷ 0 ∷ []) }

abbrev text_of_6 : IuctlMsg
text_of_6 = record { mtype = 0; text = stext (6 ∷ []) }

status_iuctl-net_iuctl_example :
    ((status_iuctl queue client_200 false (no_message ∷ got busy ∷ []) []).0 ≡ some (some 1))
    × ((status_iuctl queue client_200 false (no_message ∷ fails ∷ []) []).0 ≡ some (some 0))
    × ((status_iuctl queue client_200 false (no_message ∷ []) []).0 ≡ none)
    × ((net_iuctl queue client_200 false
          (no_message ∷ got busy ∷ no_message ∷ no_message ∷ got text_of_5 ∷ [])
          text_of_6
          []).0
        ≡ some (some (5 ∷ 0 ∷ [])))
    × ((net_iuctl queue client_200 false
          (no_message ∷ got busy ∷ no_message ∷ no_message ∷ fails ∷ [])
          text_of_6
          []).0
        ≡ some (some (6 ∷ [])))
    × ((net_iuctl queue client_200 false
          (no_message ∷ got busy ∷ no_message ∷ no_message ∷ [])
          text_of_6
          []).0
        ≡ none)
    × ((net_iuctl queue client_200 false
          (no_message ∷ fails ∷ no_message ∷ no_message ∷ got text_of_5 ∷ [])
          text_of_6
          []).0
        ≡ some (some (5 ∷ 0 ∷ [])))
    × ((net_iuctl queue client_200 false
          (no_message ∷ fails ∷ no_message ∷ no_message ∷ fails ∷ [])
          text_of_6
          []).0
        ≡ some (some (6 ∷ [])))
    × ((net_iuctl queue client_200 false
          (no_message ∷ fails ∷ no_message ∷ no_message ∷ [])
          text_of_6
          []).0
        ≡ none)
    × ((net_iuctl queue client_200 false (no_message ∷ []) text_of_6 []).0 ≡ none)
unfolding iu.Control.value_of iu.Control.string_of
status_iuctl-net_iuctl_example =
    status_iuctl-net_iuctl queue client_200 1 2 busy text_of_5 text_of_6 false [] []
