-- ===== src/Program/Texting/Tests.antt =====
-- A text from one client to another, by the server that both are connected to.
use iu.Prelude.{ℕ, refl, true, false, List, [], ◌∷◌, inl, arith}
use iu.Prelude.Map.{find}
use iu.Msg.{Sizeof, Self}
use iu.Concat.{empty_stream}
use iu.Datacenters.{Directory, us_east, get_server}
use iu.Messenger
use iu.Messenger.Order.{conversation-initial}
use iu.Net.{pos, no_events, Net, have_node_addr}
use iu.Net.Send.{Dial, connects, taken}
use iu.Dispatch.{relay_target}
use iu.Program.Texting.{Delivers, delivered_text}

abbrev sizes : Sizeof
sizes = record {
  item_msg = 40;
  identity_msg = 32;
  heartbeat_msg = 16;
  file_header = 24;
  file_chunk = 16;
  string_msg = 16;
  addr_msg = 56;
}

abbrev server_9 : Self
server_9 = record { me = 9; location = 2; is_server = true }

abbrev client_42 : Self
client_42 = record { me = 42; location = 1; is_server = false }

-- A client that knows only the server 9, at descriptor 4.
abbrev with_server : Net
with_server = record {
  server_fd = 3;
  pollfds =
      record { fd = pos 3; revents = no_events } ∷ record { fd = pos 4; revents = no_events } ∷ [];
  start = 0;
  addresses = (9, 2 ∷ []) ∷ [];
  nids = (4, 9) ∷ [];
  connections = (9, 4) ∷ [];
  send_qs = (9, empty_stream) ∷ [];
  last_fd = 4;
  events = [];
}

-- The server 9, with the clients 7 and 42 at 4 and 5.
abbrev with_clients : Net
with_clients = record {
  server_fd = 3;
  pollfds =
      record { fd = pos 3; revents = no_events }
      ∷ record { fd = pos 4; revents = no_events }
      ∷ record { fd = pos 5; revents = no_events }
      ∷ [];
  start = 2;
  addresses = (7, 1 ∷ []) ∷ (9, 2 ∷ []) ∷ (42, 3 ∷ []) ∷ [];
  nids = (4, 7) ∷ (5, 42) ∷ [];
  connections = (7, 4) ∷ (42, 5) ∷ [];
  send_qs = (7, empty_stream) ∷ (42, empty_stream) ∷ [];
  last_fd = 5;
  events = [];
}

abbrev dial_6 : Dial
dial_6 = record { fd = 6; connected = connects; identified = taken }

abbrev only_server_9 : Directory
only_server_9 = record { datacenters = (us_east, 9 ∷ []) ∷ []; nodes = (9, us_east) ∷ [] }

abbrev hello : List ℕ
hello = 104 ∷ 105 ∷ []

delivered_text_example :
    Delivers sizes client_42 server_9 dial_6 dial_6 dial_6 only_server_9 only_server_9
      (λ fd dest r. r)
      0
      7
      true
      hello
      []
      []
      iu.Messenger.initial
      iu.Messenger.initial
      with_server
      with_clients
      with_server
      4
      4
      7
      empty_stream
      empty_stream
unfolding find get_server relay_target have_node_addr
delivered_text_example =
    delivered_text sizes client_42 server_9 dial_6 dial_6 dial_6 only_server_9 only_server_9
      (λ fd dest r. r) 0 7 true hello [] [] iu.Messenger.initial iu.Messenger.initial with_server
      with_clients with_server 4 4 7 empty_stream empty_stream refl refl refl refl
      (inl (1 ∷ [], refl, refl)) refl refl (rw (conversation-initial 42) tt) (omega arith)
      (omega arith)
