-- ===== src/Msg.antt =====
-- include/msg.h, src/msg.cpp, include/types.h, src/types.cpp: the messages and their constructors.
-- What `sizeof` gives depends on the platform, and is an argument. Words of 64 bits wrap around.
pub mod Sizes
use iu.Prelude.{
  ℕ, suc, ◌+◌, ◌-◌, ◌%◌, ◌^◌, ◌≤◌, ◌<◌, Bool, true, false, not, ◌&&◌, List, [], ◌∷◌, length, ◌==◌,
  Option, none, some,
}

-- The number of values of `size_t`, `nid_t` and `seq_t`.
abbrev pub word : ℕ
word = 2 ^ 64

-- `union addr_t`, as its bytes.
abbrev pub Addr : Type 0
Addr = List ℕ

-- `memcmp(one, two, sizeof(addr_t)) == 0`; both have the length of the union.
unfoldable pub addr_eq : Addr → Addr → Bool
addr_eq [] [] = true
addr_eq (a ∷ as') (b ∷ bs) = a == b && addr_eq as' bs
addr_eq _ _ = false

unfoldable pub addr_ne : Addr → Addr → Bool
unfolding addr_eq
addr_ne a b = not (addr_eq a b)

pub data MsgType : Type 0 where
  identity heartbeat address item file_header file_chunk string : MsgType

pub data ItemType : Type 0 where
  item_text item_file : ItemType

-- The fields of `struct msg`, with which every message begins.
pub record Header : Type 0 where
  pub length : ℕ
  pub type : MsgType

pub record ItemMsg : Type 0 where
  pub sender : ℕ
  pub receiver : ℕ
  pub index : ℕ
  pub itype : ItemType

-- What follows the header. The bytes of a chunk and of a text are those that were allocated.
pub data Body : Type 0 where
  item_body : ItemMsg → Body
  identity_body : (sender loc : ℕ) → Bool → Body
  header_body : (num_chunks : ℕ) → Body
  chunk_body text_body : List ℕ → Body
  addr_body : (nid : ℕ) → Addr → Bool → Body
  no_body : Body

pub record Msg : Type 0 where
  pub header : Header
  pub body : Body

-- `sizeof` of the message types; a chunk and a text begin with one byte that the size includes.
pub record Sizeof : Type 0 where
  pub item_msg : ℕ
  pub identity_msg : ℕ
  pub heartbeat_msg : ℕ
  pub file_header : ℕ
  pub file_chunk : ℕ
  pub string_msg : ℕ
  pub addr_msg : ℕ

-- What the constructors read of the node: `me()`, `getLocation()` and `isServer()`.
pub record Self : Type 0 where
  pub me : ℕ
  pub location : ℕ
  pub is_server : Bool

module _ (size : Sizeof) where
  unfoldable pub new_item_msg : Self → ItemType → ℕ → ℕ → Msg
  new_item_msg self itype receiver index = record {
    header = record { length = size.item_msg; type = MsgType.item };
    body =
        item_body (record { sender = self.me; receiver = receiver; index = index; itype = itype });
  }

  unfoldable pub new_identity_msg : Self → Msg
  new_identity_msg self = record {
    header = record { length = size.identity_msg; type = MsgType.identity };
    body = identity_body self.me self.location self.is_server;
  }

  unfoldable pub new_heartbeat_msg : Msg
  new_heartbeat_msg = record {
    header = record { length = size.heartbeat_msg; type = MsgType.heartbeat };
    body = no_body;
  }

  unfoldable pub new_file_header : ℕ → Msg
  new_file_header num_chunks = record {
    header = record { length = size.file_header; type = MsgType.file_header };
    body = header_body num_chunks;
  }

  -- The constructor leaves `isServer` as the memory had it: `junk`.
  unfoldable pub new_addr_msg : Bool → ℕ → Addr → Msg
  new_addr_msg junk nid addr = record {
    header = record { length = size.addr_msg; type = MsgType.address };
    body = addr_body nid addr junk;
  }

  -- The length that `new_file_chunk` computes.
  abbrev pub chunk_length : ℕ → ℕ
  chunk_length buff_size = (size.file_chunk + buff_size + word - 1) % word

  -- `bytes` is what `Read` has put into the chunk.
  unfoldable pub file_chunk_of : ℕ → List ℕ → Msg
  file_chunk_of buff_size bytes = record {
    header = record { length = chunk_length buff_size; type = MsgType.file_chunk };
    body = chunk_body bytes;
  }

  -- `length - sizeof(file_chunk) + 1`.
  unfoldable pub get_chunk_size : Msg → ℕ
  get_chunk_size m = (m.header.length + word - size.file_chunk + 1) % word

  abbrev pub text_length : ℕ → ℕ
  text_length n = (size.string_msg + n + word - 1) % word

  unfoldable pub new_string_msg : List ℕ → Msg
  new_string_msg str = record {
    header = record { length = text_length (iu.Prelude.length str); type = MsgType.string };
    body = text_body str;
  }

  unfoldable pub text_size : Msg → ℕ
  text_size m = (m.header.length + word - size.string_msg + 1) % word

-- What a cast of a message reads; `none` where the message is of another type.
unfoldable pub as_item : Msg → Option ItemMsg
as_item m = elim m.body [ item_body i ↦ some i | _ ↦ none ]

unfoldable pub as_header : Msg → Option ℕ
as_header m = elim m.body [ header_body n ↦ some n | _ ↦ none ]

unfoldable pub as_chunk : Msg → Option (List ℕ)
as_chunk m = elim m.body [ chunk_body b ↦ some b | _ ↦ none ]

unfoldable pub as_text : Msg → Option (List ℕ)
as_text m = elim m.body [ text_body b ↦ some b | _ ↦ none ]
