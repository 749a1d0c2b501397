-- ===== src/Messenger/Texts.antt =====
-- A text that goes by the server, and where both sides show it.
use iu.Prelude.{ℕ, ◌≡◌, refl, false, true, Bool, some, List, [], ◌∷◌, ◌++◌, arith}
use iu.Prelude.Map.{find, find-assign}
use iu.Msg.{Msg, item_text, Sizeof, Self, new_item_msg, new_string_msg}
use iu.Messenger.{
  Item, Messenger, conversation, sequence_number, insert_item, bump, add_sent, add_received,
  Network, send_until, text_item, send_text, messenger_text,
}

module _ {N : Type 0} (net : Network N) where
  open net use {send_msg, get_server}

  send_until_server :
      (m : Msg) (dest : ℕ) (n n' n'' : N)
      → send_msg m dest n ≡ (false, n')
      → send_msg m (get_server n') n' ≡ (true, n'')
      → send_until net 2 m dest n ≡ some (get_server n', n'')
  unfolding send_until
  send_until_server m dest n n' n'' e f = rw (e, f) refl

  module _ (size : Sizeof) (self : Self) (junk : ℕ) (str : List ℕ) (dest : ℕ) (s : Messenger) where
    abbrev item : Msg
    item = new_item_msg size self item_text dest (sequence_number dest s)

    -- The messenger of a text that was sent.
    abbrev pub with_text : Messenger
    with_text = add_sent dest (sequence_number dest s) (text_item junk str) (bump dest s)

    -- Two tries are enough where the first is in vain and the server takes the item.
    pub messenger_text_server :
        (n n' n'' : N) (r : Bool × N)
        → send_msg item dest n ≡ (false, n')
        → send_msg item (get_server n') n' ≡ (true, n'')
        → send_msg (new_string_msg size str) (get_server n') n'' ≡ r
        → messenger_text net size self 2 junk str dest (s, n) ≡ some (with_text, r.1)
    unfolding messenger_text send_text
    messenger_text_server n n' n'' r e f g =
        rw (send_until_server item dest n n' n'' e f, messenger_text) (rw g refl)

pub conversation-add_sent :
    (dest index : ℕ) (item : Item) (s : Messenger)
    → conversation dest (add_sent dest index item (bump dest s)) ≡ conversation dest s ++ item ∷ []
unfolding conversation add_sent bump iu.Prelude.Map.at_or
conversation-add_sent dest index item s =
    ground (arith, find-assign dest dest (conversation dest s ++ item ∷ []) s.messages)

pub conversation-add_received :
    (sender : ℕ) (item : Item) (s : Messenger)
    → conversation sender (add_received sender item s) ≡ insert_item item (conversation sender s)
unfolding conversation add_received iu.Prelude.Map.at_or
conversation-add_received sender item s =
    ground (arith, find-assign sender sender (insert_item item (conversation sender s)) s.messages)
