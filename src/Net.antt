-- ===== src/Net.antt =====
-- src/net.cpp: the connections of a node, and what it polls. What a call of the system returns is
-- an argument of the function that makes the call. A call that cannot go on is a result of its own.
pub mod Send
pub mod Receive
pub mod RoundRobin
pub mod Turns
pub mod Connections
pub mod Suspending
pub mod Ordering
pub mod Service
pub mod Draining
pub mod Rounds
pub mod Drained
mod Tests
use iu.Prelude.{
  ℕ, zero, suc, ◌≡◌, Bool, true, false, ◌||◌, Option, none, some, List, [], ◌∷◌, ◌++◌, ◌==◌,
  if◌then◌else◌,
}
use iu.Prelude.Map.{Map, find, assign, erase, emplace, at_or}
use iu.Msg.{Addr, Msg}
use iu.Concat.{Stream}

pub data ℤ : Type 0 where
  pos negsuc : ℕ → ℤ

abbrev pub negate : ℤ → ℤ
negate (pos zero) = pos zero
negate (pos (suc n)) = negsuc n
negate (negsuc n) = pos (suc n)

-- The events that the code asks for or tests, and whether any other is set.
pub record Revents : Type 0 where
  pub pollin : Bool
  pub pollrdhup : Bool
  pub other : Bool

abbrev pub no_events : Revents
no_events = record { pollin = false; pollrdhup = false; other = false }

pub record Pollfd : Type 0 where
  pub fd : ℤ
  pub revents : Revents

-- What the node has done to its descriptors.
pub data Event : Type 0 where
  closes : ℕ → Event
  sends : ℕ → Msg → Event

-- The static variables, and the events so far, oldest first.
pub record Net : Type 0 where
  pub server_fd : ℕ
  pub pollfds : List Pollfd
  pub start : ℕ
  pub addresses : Map Addr
  pub nids : Map ℕ
  pub connections : Map ℕ
  pub send_qs : Map (Stream Msg)
  pub last_fd : ℕ
  pub events : List Event

-- `faults` follows an iterator or a pointer to nothing; `spins` is a loop that goes on for longer
-- than the answers of the system last.
pub data Run {ℓ} (A : Type ℓ) : Type ℓ where
  returns : A → Net → Run A
  exits faults spins : Run A

infixl 5 ◌>>=◌
abbrev pub ◌>>=◌ {ℓ κ} : {A : Type ℓ} {B : Type κ} → Run A → (A × Net → Run B) → Run B
returns a s >>= f = f (a, s)
exits >>= f = exits
faults >>= f = faults
spins >>= f = spins

abbrev pub record_event : Event → Net → Net
record_event e s = record s { events = s.events ++ e ∷ [] }

-- `Close`.
abbrev pub close_fd : ℕ → Net → Net
close_fd fd s = record_event (closes fd) s

unfoldable pub add_poll_fd : ℕ → Net → Net
add_poll_fd fd s = record s {
  pollfds = s.pollfds ++ record { fd = pos fd; revents = no_events } ∷ [];
}

abbrev pub keep_polled : List Pollfd → List Pollfd
keep_polled [] = []
keep_polled (p ∷ ps) = elim p.fd [ pos n ↦ p ∷ keep_polled ps | negsuc n ↦ keep_polled ps ]

unfoldable pub prune_poll_fds : Net → Net
prune_poll_fds s = record s { pollfds = keep_polled s.pollfds }

-- `init_server`, where the calls of the system succeed: `fd` is the socket, `addr` its name.
unfoldable pub init_server : (fd me : ℕ) → Addr → Net → Net
unfolding add_poll_fd
init_server fd me addr s =
    let s' = add_poll_fd fd (record s { start = 0; server_fd = fd }) in
    record s' { addresses = assign me addr s'.addresses }

-- `emplace`, and the assignment if the node was there.
unfoldable pub set_node_addr : ℕ → Addr → Net → Net
set_node_addr nid addr s = record s { addresses = assign nid addr s.addresses }

unfoldable pub have_node_addr : ℕ → Net → Bool
have_node_addr nid s = elim (find nid s.addresses) [ none ↦ false | some addr ↦ true ]

-- The assertion fails on an unknown node.
unfoldable pub get_node_addr : ℕ → Net → Option Addr
get_node_addr nid s = find nid s.addresses

abbrev pub clear_revents : List Pollfd → List Pollfd
clear_revents [] = []
clear_revents (p ∷ ps) = record p { revents = no_events } ∷ clear_revents ps

unfoldable pub get_pollfds : Net → Net
get_pollfds s = record s { pollfds = clear_revents s.pollfds }

abbrev pub is_fd : ℕ → Pollfd → Bool
is_fd fd p = elim p.fd [ pos n ↦ n == fd | negsuc n ↦ false ]

-- The loop of `net_suspend`.
abbrev pub suspend_fd : ℕ → List Pollfd → List Pollfd
suspend_fd fd [] = []
suspend_fd fd (p ∷ ps) =
    if is_fd fd p then record p { fd = negate (pos fd) } ∷ ps else p ∷ suspend_fd fd ps

unfoldable pub net_suspend : ℕ → Net → Net
net_suspend nid s = elim (find nid s.connections) [
  | none ↦ s
  | some fd ↦ record s { pollfds = suspend_fd fd s.pollfds }
]

unfoldable pub net_resume : ℕ → Net → Net
unfolding add_poll_fd
net_resume nid s = elim (find nid s.connections) [ none ↦ s | some fd ↦ add_poll_fd fd s ]

abbrev pub close_all : Map ℕ → List Event
close_all [] = []
close_all ((fd, nid) ∷ m) = closes fd ∷ close_all m

unfoldable pub shutdown_server : Net → Net
shutdown_server s = close_fd s.server_fd (record s {
  events = s.events ++ close_all s.nids;
  nids = [];
  connections = [];
  pollfds = [];
  send_qs = [];
})

-- `nids[last_fd]`, which adds an entry.
unfoldable pub msg_source : Net → ℕ × Net
msg_source s = (at_or 0 s.last_fd s.nids, record s { nids = emplace s.last_fd 0 s.nids })

-- What the two `recv` of a message come to: `EAGAIN`, another error, the end, or the message.
pub data Received : Type 0 where
  again fails ends : Received
  receives : Msg → Received

-- The end of a connection, as the peer's close or a failing send shows it. `believeDead` does
-- nothing in either program.
unfoldable pub forget : (fd nid : ℕ) → Net → Net
forget fd nid s = record s { nids = erase fd s.nids; connections = erase nid s.connections }

unfoldable pub recv_msg : Received → ℕ → Net → Run (Option Msg)
unfolding forget
recv_msg again fd s = returns none s
recv_msg fails fd s = exits
recv_msg ends fd s = elim (find fd s.nids) [
  | none ↦ returns none s
  | some nid ↦ returns none (forget fd nid s)
]
recv_msg (receives m) fd s = returns (some m) s
