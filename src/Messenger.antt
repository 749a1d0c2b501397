-- ===== src/Messenger.antt =====
-- src/messenger.cpp, `struct item_t` of include/types.h: conversations of items that were sent and
-- received. The network is an interface. What the code leaves uninitialised is an argument, `junk`.
pub mod Order
pub mod Sending
pub mod Receiving
pub mod History
pub mod Texts
mod Tests
use iu.Prelude.{
  ℕ, zero, suc, ◌+◌, ◌%◌, ◌≡◌, Bool, true, false, Option, none, some, List, [], ◌∷◌, ◌++◌, take,
  ltb, length, ◌==◌, if◌then◌else◌,
}
use iu.Prelude.Map.{Map, find, assign, emplace, at_or}
use iu.Msg.{
  word, Msg, ItemType, item_text, item_file, ItemMsg, Sizeof, Self, new_item_msg, new_string_msg,
  text_size, as_text,
}

-- The union in `item_t`: a file that is open, a file that was saved at a path, or a text.
pub data Payload : Type 0 where
  open_file : (fd : ℕ) → Payload
  saved_file text : List ℕ → Payload

pub record Item : Type 0 where
  pub type : ItemType
  pub received : Bool
  pub index : ℕ
  pub payload : Payload

pub record Messenger : Type 0 where
  pub sequence_numbers : Map ℕ
  pub sent : Map (Map Item)
  pub received : Map (Map Item)
  pub messages : Map (List Item)

abbrev pub initial : Messenger
initial = record { sequence_numbers = []; sent = []; received = []; messages = [] }

-- `messages[with]`, `sent[with]` and `sequence_numbers[dest]`, as values.
pub conversation : ℕ → Messenger → List Item
unfolding at_or
conversation nid s = at_or [] nid s.messages

pub sent_to : ℕ → Messenger → Map Item
unfolding at_or
sent_to nid s = at_or [] nid s.sent

pub received_from : ℕ → Messenger → Map Item
unfolding at_or
received_from nid s = at_or [] nid s.received

pub sequence_number : ℕ → Messenger → ℕ
unfolding at_or
sequence_number nid s = at_or 0 nid s.sequence_numbers

pub get_conversation : ℕ → Messenger → List Item × Messenger
unfolding emplace
get_conversation nid s = (conversation nid s, record s { messages = emplace nid [] s.messages })

-- `sequence_numbers[dest]++`.
pub bump : ℕ → Messenger → Messenger
bump dest s = record s {
  sequence_numbers = assign dest ((sequence_number dest s + 1) % word) s.sequence_numbers;
}

pub add_sent : ℕ → ℕ → Item → Messenger → Messenger
add_sent receiver index item s = record s {
  sent = assign receiver (assign index item (sent_to receiver s)) s.sent;
  messages = assign receiver (conversation receiver s ++ item ∷ []) s.messages;
}

-- The loop over a conversation: before the first received item of a higher index, not at all if
-- there is one of the same index, else at the end.
pub insert_item : Item → List Item → List Item
insert_item item [] = item ∷ []
insert_item item (it ∷ items) =
    let rest = insert_item item items in
    if it.received
    then (if ltb item.index it.index
        then item ∷ it ∷ items
        else if item.index == it.index
        then it ∷ items
        else it ∷ rest)
    else it ∷ rest

pub add_received : ℕ → Item → Messenger → Messenger
add_received sender item s = record s {
  received = assign sender (assign item.index item (received_from sender s)) s.received;
  messages = assign sender (insert_item item (conversation sender s)) s.messages;
}

-- The items of the sender; their index is left uninitialised.
pub text_item : ℕ → List ℕ → Item
text_item junk str = record { type = item_text; received = false; index = junk; payload = text str }

pub file_item : ℕ → ℕ → Item
file_item junk fd = record {
  type = item_file;
  received = false;
  index = junk;
  payload = open_file fd;
}

-- What the messenger calls: `send_msg`, `send_file` and `getServer`.
pub record Network (N : Type 0) : Type 0 where
  pub send_msg : Msg → ℕ → N → Bool × N
  pub send_file : (fd dest : ℕ) → N → N
  pub get_server : N → ℕ

module _ {N : Type 0} (net : Network N) where
  open net use {send_msg, send_file, get_server}

  -- The first `send_msg` and the loop behind it, with fuel: the node that took the message.
  pub send_until : ℕ → Msg → ℕ → N → Option (ℕ × N)
  send_until zero m dest n = none
  send_until (suc fuel) m dest n =
      let (success, n') = send_msg m dest n in
      let rest = send_until fuel m (get_server n') n' in if success then some (dest, n') else rest

  module _ (size : Sizeof) (self : Self) where
    -- The text follows its item to the node that took that, whether or not it is taken.
    send_text : ℕ → ℕ → ℕ → List ℕ → N → Option N
    send_text fuel dest index str n =
        elim (send_until fuel (new_item_msg size self item_text dest index) dest n) [
          | none ↦ none
          | some (dest', n') ↦ some (send_msg (new_string_msg size str) dest' n').1
        ]

    pub messenger_text : ℕ → ℕ → List ℕ → ℕ → Messenger × N → Option (Messenger × N)
    unfolding send_text
    messenger_text fuel junk str dest (s, n) =
        let index = sequence_number dest s in
        elim (send_text fuel dest index str n) [
          | none ↦ none
          | some n' ↦ some (add_sent dest index (text_item junk str) (bump dest s), n')
        ]

    send_file_to : ℕ → ℕ → ℕ → ℕ → N → Option N
    send_file_to fuel dest index fd n =
        elim (send_until fuel (new_item_msg size self item_file dest index) dest n) [
          | none ↦ none
          | some (dest', n') ↦ some (send_file fd dest' n')
        ]

    pub messenger_file : ℕ → ℕ → ℕ → ℕ → Messenger × N → Option (Messenger × N)
    unfolding send_file_to
    messenger_file fuel junk fd dest (s, n) =
        let index = sequence_number dest s in
        elim (send_file_to fuel dest index fd n) [
          | none ↦ none
          | some n' ↦ some (add_sent dest index (file_item junk fd) (bump dest s), n')
        ]

-- What `handle_item_msg` leaves to do for a file: the argument of `set_finished`.
pub data Handled : Type 0 where
  stored : Messenger → Handled
  receiving : (sender : ℕ) → Item → Handled

-- The text that is copied. `next` is what `next_msg_same` returns; the code follows a null pointer,
-- and casts any message.
pub copied_text : Sizeof → (next : Option Msg) → Option (List ℕ)
copied_text size next = elim next [
  | none ↦ none
  | some m ↦ elim (as_text m) [ none ↦ none | some str ↦ some (take (text_size size m) str) ]
]

pub handle_item_msg :
    Sizeof → (junk : Bool) → ItemMsg → (next : Option Msg) → Messenger → Option Handled
handle_item_msg size junk imsg next s = elim imsg.itype [
  | item_file ↦ some (
      receiving imsg.sender
        (record { type = item_file; received = junk; index = imsg.index; payload = open_file 0 }))
  | item_text ↦ elim (copied_text size next) [
    | none ↦ none
    | some str ↦ some (
        stored (
          add_received imsg.sender
            (record { type = item_text; received = junk; index = imsg.index; payload = text str })
            s))
  ]
]

-- The callback of the transfer.
pub set_finished : (fd sender : ℕ) → Item → Messenger → Messenger
set_finished fd sender item = add_received sender (record item { payload = open_file fd })

-- `path` is what `save_file` returns.
pub save_item : List ℕ → Item → Item
save_item path item = record item { payload = saved_file path }

saved_paths : List Item → List (List ℕ)
saved_paths [] = []
saved_paths (item ∷ items) =
    let rest = saved_paths items in
    elim item.type [
      | item_text ↦ rest
      | item_file ↦ elim item.payload [ saved_file path ↦ path ∷ rest | _ ↦ rest ]
    ]

all_saved_paths : Map (List Item) → List (List ℕ)
all_saved_paths [] = []
all_saved_paths ((nid, items) ∷ m) = saved_paths items ++ all_saved_paths m

-- The paths that are unlinked, and the state that is left.
pub messenger_destroy : Messenger → List (List ℕ) × Messenger
unfolding all_saved_paths
messenger_destroy s = (all_saved_paths s.messages, initial)
