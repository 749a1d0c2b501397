-- ===== src/Net/Drained/Tests.antt =====
-- The maintenance at two nodes, and the messages of one in a stream of its own.
use iu.Prelude.{
  ℕ, ◌≡◌, refl, subst, true, false, some, List, [], ◌∷◌, ◌++◌, ap, sym, arith, ◌==◌, Bool-cases,
  inl, inr,
}
use iu.Prelude.Map.{find}
use iu.Msg.{Msg, Sizeof, new_identity_msg, new_heartbeat_msg}
use iu.Concat.{Stream, stream, node, given, nil}
use iu.Concat.View.{view}
use iu.Concat.Ready.{IsProper}
use iu.Net.{Net, returns}
use iu.Net.Send.{send_readies}
use iu.Net.Service.{items, sent_on, IsServed}
use iu.Net.Drained.{takes, send_readies-Drained}

abbrev sizes : Sizeof
sizes = record {
  item_msg = 40;
  identity_msg = 32;
  heartbeat_msg = 16;
  file_header = 24;
  file_chunk = 16;
  string_msg = 16;
  addr_msg = 56;
}

abbrev beat : Msg
beat = new_heartbeat_msg sizes

abbrev identity : Msg
identity = new_identity_msg sizes (record { me = 42; location = 1; is_server = false })

-- One message, a closed stream with another, and one behind it.
abbrev three_messages : Stream Msg
three_messages =
    stream nil (node beat (given (stream nil (node identity nil) true) (node beat nil))) false

abbrev one_message : Stream Msg
one_message = stream nil (node identity nil) false

-- Node 7 is connected at descriptor 4, and node 8 at 5.
abbrev net : Net
net = record {
  server_fd = 3;
  pollfds = [];
  start = 0;
  addresses = [];
  nids = (4, 7) ∷ (5, 8) ∷ [];
  connections = (7, 4) ∷ (8, 5) ∷ [];
  send_qs = (7, three_messages) ∷ (8, one_message) ∷ [];
  last_fd = 4;
  events = [];
}

three_messages-IsProper : IsProper three_messages
unfolding view
three_messages-IsProper = ((λ e. refl), tt, tt)

net-IsServed : IsServed net
unfolding find
net-IsServed = record {
  connected = record { linked = λ n d e. ground arith; queued = λ n d e k. ground arith };
  reached =
      λ n q e. elim (Bool-cases (7 == n)) [ inl x ↦ (4, ground arith) | inr x ↦ (5, ground arith) ];
  proper = λ n q e. elim (Bool-cases (7 == n)) [
    | inl x ↦ let f : three_messages ≡ q = ground arith in subst IsProper f three_messages-IsProper
    | inr x ↦ let f : one_message ≡ q = ground arith in subst IsProper f tt
  ];
}

send_readies-Drained_example :
    (s' : Net) × (send_readies (takes 4) net ≡ returns tt s')
    × ((n : ℕ) → items n s' ≡ [])
    × ((nid fd : ℕ)
        → find nid ((7, 4) ∷ (8, 5) ∷ []) ≡ some fd
        → sent_on fd s'.events ≡ [] ++ items nid net)
unfolding view find iu.Prelude.Map.contains
send_readies-Drained_example =
    send_readies-Drained 4 net net-IsServed (refl, (refl, tt)) (omega arith)
