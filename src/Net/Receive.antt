-- ===== src/Net/Receive.antt =====
-- src/net.cpp: the choice of a descriptor, and the next message.
use iu.Prelude.{
  ◌==◌, ℕ, zero, suc, ◌+◌, ◌-◌, Bool, false, not, ◌||◌, Option, none, some, List, [], ◌∷◌, length,
  ltb, if◌then◌else◌,
}
use iu.Prelude.Map.{find}
use iu.Msg.{Addr, Msg}
use iu.Net.{
  ℤ, pos, negsuc, negate, Revents, no_events, Pollfd, Net, Run, returns, exits, faults, spins,
  ◌>>=◌, close_fd, prune_poll_fds, set_node_addr, get_pollfds, recv_msg, Received,
}
use iu.Net.Send.{Sent, send_readies, enter}

-- What `poll` does to the descriptors: those below 0 have no events.
abbrev pub poll_fds : (ℕ → Revents) → List Pollfd → List Pollfd
poll_fds events [] = []
poll_fds events (p ∷ ps) = elim p.fd [
  | pos n ↦ record p { revents = events n } ∷ poll_fds events ps
  | negsuc n ↦ record p { revents = no_events } ∷ poll_fds events ps
]

abbrev pub is_set : Revents → Bool
is_set e = e.pollin || e.pollrdhup || e.other

-- Whether `poll` counts any descriptor.
abbrev pub any_set : List Pollfd → Bool
any_set [] = false
any_set (p ∷ ps) = is_set p.revents || any_set ps

abbrev pub is_ready_fd : Pollfd → Bool
is_ready_fd p = p.revents.pollin || p.revents.pollrdhup

abbrev pub nth {ℓ} : {A : Type ℓ} → ℕ → List A → Option A
nth i [] = none
nth zero (x ∷ xs) = some x
nth (suc i) (x ∷ xs) = nth i xs

abbrev pub is_ready_at : ℕ → List Pollfd → Bool
is_ready_at i ps = elim (nth i ps) [ none ↦ false | some p ↦ is_ready_fd p ]

-- `while (start >= size) start -= size`, with fuel.
unfoldable pub wrap_start : ℕ → (start size : ℕ) → Option ℕ
wrap_start zero start size = none
wrap_start (suc fuel) start size =
    let rest = wrap_start fuel (start - size) size in if ltb start size then some start else rest

-- `i`, computed from the offset.
abbrev pub index_of : (offset start size : ℕ) → ℕ
index_of offset start size =
    if ltb (offset + start + 1) size then offset + start + 1 else offset + start + 1 - size

-- The round-robin loop over the offsets that are left: the new `start`.
unfoldable pub choose : (left offset start : ℕ) → List Pollfd → ℕ
choose zero offset start ps = start
choose (suc left) offset start ps =
    let rest = choose left (suc offset) start ps in
    let i = index_of offset start (length ps) in if is_ready_at i ps then i else rest

abbrev pub next_start : ℕ → List Pollfd → ℕ
next_start start ps = choose (length ps) 0 start ps

-- `net_idle`.
unfoldable pub net_idle : List Sent → Net → Run (Unit {0})
unfolding prune_poll_fds send_readies
net_idle answers s = send_readies answers (prune_poll_fds s)

-- A round of `next_msg_from_fd`: the events of its descriptor, what is received, and what the
-- maintenance sends.
pub record Wait : Type 0 where
  pub revents : Revents
  pub received : Received
  pub answers : List Sent

unfoldable pub next_msg_from_fd : List Wait → ℕ → Net → Run (Option Msg)
unfolding net_idle recv_msg
next_msg_from_fd [] fd s = spins
next_msg_from_fd (w ∷ ws) fd s =
    if not (is_set w.revents)
    then (net_idle w.answers s >>= (λ r. next_msg_from_fd ws fd r.1))
    else if w.revents.pollin
    then recv_msg w.received fd s
    else if w.revents.pollrdhup
    then returns none s
    else next_msg_from_fd ws fd s

unfoldable pub next_msg_same : List Wait → Net → Run (Option Msg)
unfolding next_msg_from_fd
next_msg_same ws s = next_msg_from_fd ws s.last_fd s

unfoldable pub next_msg_from : List Wait → ℕ → Net → Run (Option Msg)
unfolding next_msg_from_fd
next_msg_from ws nid s = elim (find nid s.connections) [
  | none ↦ faults
  | some fd ↦ next_msg_from_fd ws fd s
]

-- The field `sender` of a first message, which the code casts to an identity. In the structs that
-- begin with a node or a count it is that field; of any other it is `junk`, what the memory has there.
unfoldable pub sender_of : (junk : ℕ) → Msg → ℕ
sender_of junk m = elim m.body [
  | iu.Msg.identity_body sender loc server ↦ sender
  | iu.Msg.item_body imsg ↦ imsg.sender
  | iu.Msg.header_body num_chunks ↦ num_chunks
  | iu.Msg.addr_body nid addr server ↦ nid
  | _ ↦ junk
]

unfoldable pub accept_connection : (fd : ℕ) → Addr → (junk : ℕ) → List Wait → Net → Run (Unit {0})
unfolding next_msg_from_fd sender_of set_node_addr enter
accept_connection fd addr junk ws s = do
  (msg, s') ← next_msg_from_fd ws fd s
  elim msg [
    | none ↦ returns tt (close_fd fd s')
    | some m ↦ returns tt (enter fd (sender_of junk m) (set_node_addr (sender_of junk m) addr s'))
  ]

-- The answers to one call of `next_msg_now`: the events of the descriptors, or that `poll` fails,
-- the connection that is accepted, with the memory that is read if its first message is not an
-- identity, and what is received.
pub record Round : Type 0 where
  pub polled : Option (ℕ → Revents)
  pub fd : ℕ
  pub addr : Addr
  pub junk : ℕ
  pub waits : List Wait
  pub received : Received

-- `poll_fds[start].fd = -fd`.
abbrev pub ignore_at : ℕ → List Pollfd → List Pollfd
ignore_at i [] = []
ignore_at zero (p ∷ ps) = record p { fd = negate p.fd } ∷ ps
ignore_at (suc i) (p ∷ ps) = p ∷ ignore_at i ps

abbrev pub is_server_fd : ℤ → Net → Bool
is_server_fd fd s = elim fd [ pos n ↦ n == s.server_fd | negsuc n ↦ false ]

-- `recv_msg` on the descriptor of an entry; the system refuses one below 0.
unfoldable pub recv_from : Received → ℤ → Net → Run (Option Msg)
unfolding recv_msg
recv_from received fd s = elim fd [ pos n ↦ recv_msg received n s | negsuc n ↦ exits ]

-- The receive from the chosen entry: no message unless there is input.
unfoldable pub take_msg : Received → Pollfd → Net → Run (Option Msg)
unfolding recv_from
take_msg received p s = if p.revents.pollin then recv_from received p.fd s else returns none s

abbrev pub fd_number : ℤ → ℕ
fd_number (pos n) = n
fd_number (negsuc n) = suc n

-- What a call comes to: a message, nothing, or another call of itself.
pub data Turn : Type 0 where
  message : Msg → Turn
  nothing repeats : Turn

-- From the chosen entry on.
unfoldable pub serve : Round → Pollfd → Net → Run Turn
unfolding accept_connection take_msg
serve round p s =
    if is_server_fd p.fd s
    then (accept_connection round.fd round.addr round.junk round.waits s
        >>= (λ r. returns repeats r.1))
    else (take_msg round.received p s >>= (λ r. elim r.0 [
      | some m ↦ returns (message m) (record r.1 { last_fd = fd_number p.fd })
      | none ↦ returns repeats (
          if p.revents.pollrdhup
          then record r.1 { pollfds = ignore_at r.1.start r.1.pollfds }
          else r.1)
    ]))

-- A call of `next_msg_now` up to its call of itself.
unfoldable pub poll_turn : Round → Net → Run Turn
unfolding get_pollfds wrap_start choose serve
poll_turn round s = elim round.polled [
  | none ↦ exits
  | some events ↦
      let s' = get_pollfds s in
      let ps = poll_fds events s'.pollfds in
      if any_set ps
      then (elim (wrap_start (suc s.start) s.start (length ps)) [
        | none ↦ spins
        | some start ↦ elim (nth (next_start start ps) ps) [
          | none ↦ faults
          | some p ↦ serve round p (record s' { pollfds = ps; start = next_start start ps })
        ]
      ])
      else returns nothing (record s' { pollfds = ps })
]

unfoldable pub next_msg_now : List Round → Net → Run (Option Msg)
unfolding poll_turn
next_msg_now [] s = spins
next_msg_now (round ∷ rounds) s = do
  (turn, s') ← poll_turn round s
  elim turn [
    | message m ↦ returns (some m) s'
    | nothing ↦ returns none s'
    | repeats ↦ next_msg_now rounds s'
  ]

-- `next_msg`: a call of `next_msg_now`, and the maintenance if it has no message, in rounds.
unfoldable pub next_msg : List (List Round × List Sent) → Net → Run Msg
unfolding next_msg_now net_idle
next_msg [] s = spins
next_msg ((rounds, answers) ∷ rest) s = do
  (m, s') ← next_msg_now rounds s
  elim m [ some m ↦ returns m s' | none ↦ net_idle answers s' >>= (λ r. next_msg rest r.1) ]
