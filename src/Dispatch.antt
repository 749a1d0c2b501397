-- ===== src/Dispatch.antt =====
-- src/node.cpp, src/relay.cpp, src/server.cpp, src/client.cpp, and `recv_file` of src/file.cpp: what
-- a node does with a message. The thread that a file starts is named by the result.
pub mod Relaying
pub mod Client
pub mod Suspension
mod Tests
use iu.Prelude.{ℕ, Bool, true, false, Option, none, some, List, [], ◌∷◌, if◌then◌else◌}
use iu.Msg.{Msg, ItemMsg, MsgType, ItemType, item_text, item_file, Sizeof, Self, Addr, as_item}
use iu.Datacenters.{Directory, get_server, set_node_location}
use iu.Messenger.{Messenger, Item, Handled, stored, receiving, copied_text, handle_item_msg}
use iu.Net.{
  Net, Run, returns, exits, faults, spins, ◌>>=◌, init_server, set_node_addr, have_node_addr,
  msg_source, net_suspend, net_resume,
}
use iu.Net.Send.{Dial, Sent, send_msg, send_stream}
use iu.Net.Receive.{Wait, next_msg_same}

-- `init_node`: the location of the node, and its server; `fd` and `addr` are from the system.
unfoldable pub init_node : (fd : ℕ) → Addr → (nid loc : ℕ) → Directory × Net → Directory × Net
unfolding init_server
init_node fd addr nid loc (dir, s) = (set_node_location nid loc dir, init_server fd nid addr s)

unfoldable pub as_addr : Msg → Option (ℕ × Addr)
as_addr m = elim m.body [ iu.Msg.addr_body nid addr server ↦ some (nid, addr) | _ ↦ none ]

-- A message of any type but an address is only reported.
unfoldable pub handle_msg : Msg → Net → Run (Unit {0})
unfolding set_node_addr as_addr
handle_msg m s = elim m.header.type [
  | MsgType.address ↦ elim (as_addr m) [
    | none ↦ faults
    | some (nid, addr) ↦ returns tt (set_node_addr nid addr s)
  ]
  | _ ↦ returns tt s
]

-- `recv_file` up to the start of its thread: the source, which is not polled any more.
unfoldable pub recv_file : Net → ℕ × Net
unfolding msg_source net_suspend
recv_file s = ((msg_source s).0, net_suspend (msg_source s).0 (msg_source s).1)

-- The todo of the receiving thread, once it has come to its end.
unfoldable pub recv_file_finisher : ℕ → Net → Net
unfolding net_resume
recv_file_finisher source s = net_resume source s

-- The answers of the system to a relay: for the item, and for the text or the stream behind it.
pub record Answers : Type 0 where
  pub dial : Dial
  pub sent : Sent
  pub waits : List Wait
  pub dial' : Dial
  pub sent' : Sent

-- What a server is left with: nothing, or a thread that receives from the source, and the stream to
-- which the file goes, if there is one.
pub data Served : Type 0 where
  served : Served
  relays_file : (source dest : ℕ) (has_stream : Bool) → Served

unfoldable pub relay_target : ItemMsg → Directory → Net → ℕ
unfolding have_node_addr
relay_target curr dir s = if have_node_addr curr.receiver s then curr.receiver else get_server dir

module _ (sizes : Sizeof) (self : Self) (answers : Answers) where
  open answers use {dial, sent, waits, dial', sent'}

  -- The message that follows; a hangup leaves a null pointer, which `send_msg` follows.
  unfoldable pub relay_string : ℕ → Net → Run Served
  unfolding next_msg_same send_msg
  relay_string dest s = do
    (smsg, s') ← next_msg_same waits s
    elim smsg [
      | none ↦ faults
      | some m ↦ send_msg sizes self dial' sent' m dest s' >>= (λ r. returns served r.1)
    ]

  unfoldable pub relay_file : ℕ → Net → Run Served
  unfolding send_stream recv_file
  relay_file dest s = do
    (has_stream, s') ← send_stream sizes self dial' dest s
    returns (relays_file (recv_file s').0 dest has_stream) (recv_file s').1

  unfoldable pub handle_item_relay : Msg → ItemMsg → Directory → Net → Run Served
  unfolding relay_target send_msg relay_string relay_file
  handle_item_relay m curr dir s =
      let target = relay_target curr dir s in
      send_msg sizes self dial sent m target s >>= (λ r. elim curr.itype [
        | item_text ↦ relay_string target r.1
        | item_file ↦ relay_file target r.1
      ])

  unfoldable pub server_handle_msg : Msg → Directory → Net → Run Served
  unfolding handle_item_relay handle_msg
  server_handle_msg m dir s = elim m.header.type [
    | MsgType.item ↦ elim (as_item m) [ none ↦ faults | some curr ↦ handle_item_relay m curr dir s ]
    | _ ↦ handle_msg m s >>= (λ r. returns served r.1)
  ]

-- What a client is left with: nothing, or a thread that receives the file of an item.
pub data Kept : Type 0 where
  kept : Messenger → Kept
  receives_file : (source sender : ℕ) → Item → Messenger → Kept

module _ (sizes : Sizeof) (waits : List Wait) (junk : Bool) where
  -- The result of `handle_item_msg`; a file starts with `recv_file`.
  unfoldable pub after_item : Messenger → Option Handled → Net → Run Kept
  unfolding recv_file
  after_item messenger none s = faults
  after_item messenger (some (stored messenger')) s = returns (kept messenger') s
  after_item messenger (some (receiving sender item)) s =
      returns (receives_file (recv_file s).0 sender item messenger) (recv_file s).1

  -- Only a text waits for a second message.
  unfoldable pub client_handle_item : ItemMsg → Messenger → Net → Run Kept
  unfolding next_msg_same after_item
  client_handle_item curr messenger s = elim curr.itype [
    | item_text ↦ do
      (next, s') ← next_msg_same waits s
      after_item messenger (handle_item_msg sizes junk curr next messenger) s'
    | item_file ↦ after_item messenger (handle_item_msg sizes junk curr none messenger) s
  ]

  unfoldable pub client_handle_msg : Msg → Messenger → Net → Run Kept
  unfolding client_handle_item handle_msg
  client_handle_msg m messenger s = elim m.header.type [
    | MsgType.item ↦ elim (as_item m) [
      | none ↦ faults
      | some curr ↦ client_handle_item curr messenger s
    ]
    | _ ↦ handle_msg m s >>= (λ r. returns (kept messenger) r.1)
  ]
