-- ===== src/Messenger/Tests.antt =====
-- The theorems on the messenger at concrete inputs.
use iu.Prelude.{
  ℕ, suc, ◌≡◌, ◌⊎◌, refl, true, false, none, some, List, [], ◌∷◌, ◌++◌, map, arith, ◌==◌,
  if◌then◌else◌,
}
use iu.Prelude.Map.{find, assign, at_or, contains}
use iu.Msg.{item_text, Sizeof, Self, new_string_msg}
use iu.Messenger.{
  Item, text, Messenger, initial, conversation, sequence_number, bump, add_sent, Network,
  send_until, send_text, text_item, messenger_text,
}
use iu.Messenger.Order.{marked, receive_all, IsLog, receive_all_order, receive_all-unmarked}
use iu.Messenger.Sending.{Recorded, Tries, Refused, next_item, messenger_text_lem}
use iu.Messenger.Receiving.{arrived}
use iu.Messenger.History.{
  IsSequenced, Reach, texts, here, next, Reach-IsSequenced, initial-IsSequenced,
}

abbrev sizes : Sizeof
sizes = record {
  item_msg = 40;
  identity_msg = 32;
  heartbeat_msg = 16;
  file_header = 24;
  file_chunk = 16;
  string_msg = 16;
  addr_msg = 56;
}

abbrev node_42 : Self
node_42 = record { me = 42; location = 3; is_server = true }

-- A network whose state is how many messages it took; only node 9 takes any.
abbrev only_9 : Network ℕ
only_9 = record {
  send_msg = λ m d n. if d == 9 then (true, suc n) else (false, n);
  send_file = λ fd d n. suc n;
  get_server = λ n. 9;
}

abbrev dead : Network ℕ
dead = record { send_msg = λ m d n. (false, n); send_file = λ fd d n. n; get_server = λ n. 9 }

abbrev hello : List ℕ
hello = 104 ∷ 105 ∷ []

abbrev log_item : ℕ → Item
log_item k = record { type = item_text; received = true; index = k; payload = text hello }

log_item-IsLog : IsLog log_item
log_item-IsLog = record { index = λ k. refl; mark = λ k. refl }

-- Node 7 is down, and the item goes to the server.
abbrev after_text : Messenger
after_text = add_sent 7 (sequence_number 7 initial) (text_item 0 hello) (bump 7 initial)

sends : messenger_text only_9 sizes node_42 2 0 hello 7 (initial, 0) ≡ some (after_text, 2)
unfolding messenger_text send_text send_until
sends = refl

messenger_text_lem_example :
    ((dest' n' : ℕ) × (t : Messenger) × Tries only_9
        (next_item sizes node_42 7 initial)
        2
        7
        0
        dest'
        n'
      × (messenger_text only_9 sizes node_42 2 0 hello 7 (initial, 0)
          ≡ some (t, (only_9.send_msg (new_string_msg sizes hello) dest' n').1))
      × Recorded 7 (text_item 0 hello) initial t)
    ⊎ ((messenger_text only_9 sizes node_42 2 0 hello 7 (initial, 0) ≡ none)
        × Refused only_9 (next_item sizes node_42 7 initial) 2 7 0)
messenger_text_lem_example = messenger_text_lem only_9 sizes node_42 2 0 hello 7 initial 0

empty_conversation : marked true (conversation 42 initial) ≡ []
unfolding marked conversation at_or find
empty_conversation = refl

receive_all_order_example :
    marked true (conversation 42 (receive_all 42 (map log_item (2 ∷ 0 ∷ 1 ∷ 0 ∷ [])) initial))
    ≡ marked true (conversation 42 (receive_all 42 (map log_item (0 ∷ 1 ∷ 2 ∷ [])) initial))
unfolding contains
receive_all_order_example =
    receive_all_order log_item log_item-IsLog 42 (2 ∷ 0 ∷ 1 ∷ 0 ∷ []) (0 ∷ 1 ∷ 2 ∷ []) initial
      empty_conversation (λ a. ground arith)

receive_all-unmarked_example :
    conversation 42 (receive_all 42 (arrived false 1 hello ∷ arrived false 0 hello ∷ []) initial)
    ≡ conversation 42 initial ++ (arrived false 1 hello ∷ arrived false 0 hello ∷ [])
receive_all-unmarked_example =
    receive_all-unmarked 42 (arrived false 1 hello ∷ arrived false 0 hello ∷ []) initial
      empty_conversation (refl, (refl, tt))

history : Reach only_9 sizes node_42 initial after_text
unfolding sequence_number at_or find
history = next here (texts 2 0 hello 7 0 2 (omega arith) sends)

Reach-IsSequenced_example : IsSequenced after_text
Reach-IsSequenced_example = Reach-IsSequenced only_9 sizes node_42 initial-IsSequenced history

after_text-IsSequenced : IsSequenced after_text
after_text-IsSequenced = Reach-IsSequenced only_9 sizes node_42 initial-IsSequenced history

abbrev after_two : Messenger
after_two = add_sent 7 (sequence_number 7 after_text) (text_item 0 hello) (bump 7 after_text)

sends_again : messenger_text only_9 sizes node_42 2 0 hello 7 (after_text, 2) ≡ some (after_two, 4)
unfolding messenger_text send_text send_until
sends_again = refl

longer_history : Reach only_9 sizes node_42 after_text after_two
unfolding sequence_number at_or find add_sent bump assign
longer_history = next here (texts 2 0 hello 7 2 4 (omega arith) sends_again)
