-- ===== src/Dispatch/Client.antt =====
-- What a client does with an item.
use iu.Prelude.{ℕ, ◌≡◌, refl, ◌<◌, Bool, List, ◌∷◌, length}
use iu.Msg.{word, Sizeof, Self, item_text, new_item_msg, new_string_msg, as_item}
use iu.Messenger.{Messenger, add_received}
use iu.Messenger.Receiving.{arrived, handle_item_msg-text}
use iu.Net.{Net, Run, returns, faults, ◌>>=◌}
use iu.Net.Receive.{Wait, next_msg_same, next_msg_from_fd}
use iu.Dispatch.{kept, after_item, client_handle_item, client_handle_msg}
use iu.Dispatch.Relaying.{finds}

module _ (sizes : Sizeof) (from : Self) (dest index : ℕ) (str : List ℕ) (junk : Bool) where
  -- A client that takes the two messages of a text adds the text to the conversation with its
  -- sender, under the index that it was sent with, and changes nothing of the network; the sizes of
  -- messages and texts are below the word.
  pub client_handle_msg-new_string_msg :
      (ws : List Wait) (messenger : Messenger) (s : Net)
      → sizes.string_msg < word
      → length str < word
      → client_handle_msg sizes
          (finds (new_string_msg sizes str) ∷ ws)
          junk
          (new_item_msg sizes from item_text dest index)
          messenger
          s
        ≡ returns (kept (add_received from.me (arrived junk index str) messenger)) s
  unfolding client_handle_msg client_handle_item after_item as_item new_item_msg next_msg_same
      next_msg_from_fd iu.Net.recv_msg
  client_handle_msg-new_string_msg ws messenger s h k =
      rw (handle_item_msg-text sizes from.me dest index str junk messenger h k) refl
