-- ===== src/Messenger/Receiving.antt =====
-- What arrives, and what the messenger makes of it.
use iu.Prelude.{
  ℕ, ◌<◌, ◌≡◌, refl, ◌⊎◌, inl, inr, Bool, Option, none, some, List, [], ◌∷◌, length, take, arith,
  Option-cases,
}
use iu.Msg.{
  word, Msg, item_text, item_file, ItemMsg, Sizeof, Self, new_item_msg, new_string_msg, as_item,
  as_text,
}
use iu.Msg.Sizes.{text_size-new_string_msg}
use iu.Messenger.{
  Item, open_file, text, Messenger, add_received, stored, receiving, handle_item_msg, copied_text,
  set_finished,
}

pub take-length : {A : Type 0} (xs : List A) → take (length xs) xs ≡ xs
take-length [] = refl
take-length (x ∷ xs) = rw (take-length xs)

as_text-new_string_msg :
    (size : Sizeof) (str : List ℕ) → as_text (new_string_msg size str) ≡ some str
unfolding as_text new_string_msg
as_text-new_string_msg size str = refl

copied_text-new_string_msg :
    (size : Sizeof) (str : List ℕ)
    → size.string_msg < word
    → length str < word
    → copied_text size (some (new_string_msg size str)) ≡ some str
unfolding copied_text
copied_text-new_string_msg size str h k =
    ground (
      arith,
      as_text-new_string_msg size str,
      text_size-new_string_msg size str h k,
      take-length str,
    )

-- The item that a message with its text stands for.
abbrev pub arrived : Bool → ℕ → List ℕ → Item
arrived junk index str = record {
  type = item_text;
  received = junk;
  index = index;
  payload = text str;
}

pub handle_item_msg-text :
    (size : Sizeof) (sender dest index : ℕ) (str : List ℕ) (junk : Bool) (s : Messenger)
    → size.string_msg < word
    → length str < word
    → handle_item_msg size junk
        (record { sender = sender; receiver = dest; index = index; itype = item_text })
        (some (new_string_msg size str))
        s
      ≡ some (stored (add_received sender (arrived junk index str) s))
unfolding handle_item_msg
handle_item_msg-text size sender dest index str junk s h k =
    ground (arith, copied_text-new_string_msg size str h k)

-- The item message of a file leads, once the transfer has come to its end, to the item with the
-- open file in the conversation with its sender; nothing is recorded before.
pub handle_item_msg-set_finished :
    (size : Sizeof) (self : Self) (dest index fd : ℕ) (junk : Bool) (next : Option Msg)
    (s t : Messenger)
    → (imsg : ItemMsg) × (item : Item) × (as_item (new_item_msg size self item_file dest index)
        ≡ some imsg)
      × (handle_item_msg size junk imsg next s ≡ some (receiving self.me item))
      × (set_finished fd self.me item t
          ≡ add_received self.me
              (record { type = item_file; received = junk; index = index; payload = open_file fd })
              t)
unfolding as_item new_item_msg handle_item_msg set_finished
handle_item_msg-set_finished size self dest index fd junk next s t = (
  record { sender = self.me; receiver = dest; index = index; itype = item_file },
  record { type = item_file; received = junk; index = index; payload = open_file 0 },
  refl,
  refl,
  refl,
)

-- If the sender hangs up between the item and its text, the handler follows a null pointer.
pub handle_item_msg_hangup :
    (size : Sizeof) (junk : Bool) (imsg : ItemMsg) (s : Messenger)
    → (handle_item_msg size junk imsg none s ≡ none) ⊎ (imsg.itype ≡ item_file)
unfolding handle_item_msg copied_text
handle_item_msg_hangup size junk imsg s = ground arith

-- A handler that records something has added one received item, and nothing else.
pub handle_item_msg-stored :
    (size : Sizeof) (junk : Bool) (imsg : ItemMsg) (next : Option Msg) (s t : Messenger)
    → handle_item_msg size junk imsg next s ≡ some (stored t)
    → (item : Item) × (t ≡ add_received imsg.sender item s)
unfolding handle_item_msg
handle_item_msg-stored size junk imsg next s t h = elim (Option-cases (copied_text size next)) [
  | inl e ↦ absurd (ground arith)
  | inr (str, e) ↦ (arrived junk imsg.index str, ground arith)
]
