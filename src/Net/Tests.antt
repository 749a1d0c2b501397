-- ===== src/Net/Tests.antt =====
-- The theorems on the network at concrete states.
use iu.Prelude.{
  ℕ, ◌≡◌, ◌%◌, ◌==◌, if◌then◌else◌, some, refl, true, false, none, List, [], ◌∷◌, arith,
}
use iu.Prelude.Map.{find, contains}
use iu.Msg.{Msg, Sizeof, Self, new_identity_msg, new_heartbeat_msg}
use iu.Concat.{Stream, empty_stream, empty}
use iu.Concat.Writing.{if_closed-empty_stream}
use iu.Net.{
  pos, no_events, Pollfd, Net, returns, faults, recv_msg, ends, receives, Revents, get_pollfds,
}
use iu.Net.Send.{Dial, taken, connects, send_msg}
use iu.Net.Receive.{Round, nth, serve, poll_turn}
use iu.Net.RoundRobin.{Chosen, choices, choices_fair}
use iu.Net.Turns.{poll_turn-Chosen}
use iu.Concat
use iu.Net.Ordering.{send_msg-recv_msg_faults}

abbrev sizes : Sizeof
sizes = record {
  item_msg = 40;
  identity_msg = 32;
  heartbeat_msg = 16;
  file_header = 24;
  file_chunk = 16;
  string_msg = 16;
  addr_msg = 56;
}

abbrev node_42 : Self
node_42 = record { me = 42; location = 1; is_server = false }

-- Node 42 listens at descriptor 3, and node 7 is connected at 4.
abbrev connected : Net
connected = record {
  server_fd = 3;
  pollfds =
      record { fd = pos 3; revents = no_events } ∷ record { fd = pos 4; revents = no_events } ∷ [];
  start = 0;
  addresses = (7, 1 ∷ []) ∷ (42, 2 ∷ []) ∷ [];
  nids = (4, 7) ∷ [];
  connections = (7, 4) ∷ [];
  send_qs = (7, empty_stream) ∷ [];
  last_fd = 4;
  events = [];
}

abbrev readable : ℕ → Pollfd
readable n = record {
  fd = pos n;
  revents = record { pollin = true; pollrdhup = false; other = false };
}

abbrev quiet : ℕ → Pollfd
quiet n = record { fd = pos n; revents = no_events }

abbrev three : List Pollfd
three = readable 3 ∷ quiet 4 ∷ readable 5 ∷ []

-- Something arrives at 4 only, and `start` is out of range.
abbrev arrives : ℕ → Revents
arrives n = if n == 4 then (readable 4).revents else no_events

abbrev round_4 : Round
round_4 = record {
  polled = some arrives;
  fd = 5;
  addr = [];
  junk = 0;
  waits = [];
  received = receives (new_heartbeat_msg sizes);
}

abbrev out_of_range : Net
out_of_range = record connected { start = 9 }

poll_turn-Chosen_example :
    (c : ℕ) × (p : Pollfd) × Chosen 0 (9 % 2) (quiet 3 ∷ readable 4 ∷ []) c
    × (nth c (quiet 3 ∷ readable 4 ∷ []) ≡ some p)
    × (poll_turn round_4 out_of_range
        ≡ serve round_4 p (record out_of_range { pollfds = quiet 3 ∷ readable 4 ∷ []; start = c }))
unfolding get_pollfds
poll_turn-Chosen_example = poll_turn-Chosen round_4 arrives out_of_range refl refl

choices_fair_example : contains 2 (choices 2 (three ∷ three ∷ three ∷ [])) ≡ true
choices_fair_example =
    choices_fair 3 2 2 (three ∷ three ∷ three ∷ []) (omega arith) (omega arith)
      ((refl, refl), ((refl, refl), ((refl, refl), tt))) (omega arith)

abbrev dial_5 : Dial
dial_5 = record { fd = 5; connected = connects; identified = taken }

send_msg-recv_msg_faults_example :
    (s' : Net) × (recv_msg ends 4 connected ≡ returns none s')
    × (send_msg sizes node_42 dial_5 taken (new_heartbeat_msg sizes) 7 s' ≡ faults)
unfolding find
send_msg-recv_msg_faults_example =
    send_msg-recv_msg_faults sizes node_42 dial_5 taken (new_heartbeat_msg sizes) 7 4 empty_stream
      connected refl refl if_closed-empty_stream

-- Two messages wait for node 7.
abbrev waiting : Stream Msg
waiting =
    iu.Concat.stream iu.Concat.nil
      (iu.Concat.node (new_heartbeat_msg sizes)
        (iu.Concat.node (new_identity_msg sizes node_42) iu.Concat.nil))
      false

abbrev backlog : Net
backlog = record connected { send_qs = (7, waiting) ∷ [] }
