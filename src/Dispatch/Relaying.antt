-- ===== src/Dispatch/Relaying.antt =====
-- What a server does with the two messages of a text.
use iu.Prelude.{
  ℕ, ◌≡◌, ap, ◌∙◌, ◌≢◌, true, false, some, List, [], ◌∷◌, ◌++◌, inl, inr, ◌⊎◌, Bool-cases,
  append_assoc,
}
use iu.Prelude.Map.{find}
use iu.Msg.{Msg, ItemMsg, Sizeof, Self, item_text, new_item_msg, as_item}
use iu.Concat.{Stream}
use iu.Concat.View.{Contents}
use iu.Concat.Reading.{nothing}
use iu.Concat.Writing.{if_closed}
use iu.Datacenters.{Directory}
use iu.Net.{Net, Run, returns, faults, ◌>>=◌, sends, Received, receives}
use iu.Net.Send.{Dial, taken, send_msg}
use iu.Net.Receive.{Wait, next_msg_from_fd, next_msg_same}
use iu.Net.Ordering.{behind, InOrder, send_msg-Sends}
use iu.Dispatch.{Answers, served, relay_target, relay_string, handle_item_relay, server_handle_msg}

-- A round that finds the message.
abbrev pub finds : Msg → Wait
finds m = record {
  revents = record { pollin = true; pollrdhup = false; other = false };
  received = receives m;
  answers = [];
}

-- Both messages go out at once, or both are put behind all that the queue holds.
abbrev pub BothInOrder : ℕ → (m n : Msg) → (q q' : Stream Msg) → (s s' : Net) → Type 0
BothInOrder fd m n q q' s s' =
    ((if_closed q ≡ nothing true)
      × (if_closed q' ≡ nothing true)
      × (s'.events ≡ s.events ++ sends fd m ∷ sends fd n ∷ []))
    ⊎ ((if_closed q ≢ nothing true)
        × (if_closed q' ≡ behind (behind (if_closed q) m) n)
        × (s'.events ≡ s.events))

snoc_ne : (xs : List Msg) (m : Msg) → xs ++ m ∷ [] ≢ []
snoc_ne [] m e = cc
snoc_ne (x ∷ xs) m e = cc

behind-ne : (c : Contents Msg) (m : Msg) → c ≢ nothing true → behind c m ≢ nothing true
behind-ne c m h e = elim (Bool-cases c.ended) [
  | inr k ↦ let p : false ≡ true = ap (λ x. x.ended) (rw k at e) in absurd (cc)
  | inl k ↦ snoc_ne c.items m (ap (λ x. x.items) (rw k at e))
]

pub BothInOrder-InOrder :
    (fd : ℕ) (m n : Msg) (q r t : Stream Msg) (s u v : Net)
    → InOrder fd m q r s u
    → InOrder fd n r t u v
    → BothInOrder fd m n q t s v
BothInOrder-InOrder fd m n q r t s u v (inl (a, b, c)) (inl (d, e, f)) = inl (
  a,
  e,
  f
      ∙ ap (λ es. es ++ sends fd n ∷ []) c
      ∙ append_assoc s.events (sends fd m ∷ []) (sends fd n ∷ []),
)
BothInOrder-InOrder fd m n q r t s u v (inl (a, b, c)) (inr (d, e, f)) = absurd (d b)
BothInOrder-InOrder fd m n q r t s u v (inr (a, b, c)) (inl (d, e, f)) =
    absurd (behind-ne (if_closed q) m a (rw b at d))
BothInOrder-InOrder fd m n q r t s u v (inr (a, b, c)) (inr (d, e, f)) =
    inr (a, e ∙ ap (λ k. behind k n) b, f ∙ c)

-- The answers where the system takes both messages, and the text is there.
abbrev pub relays : (dial dial' : Dial) → Msg → List Wait → Answers
relays dial dial' text ws = record {
  dial = dial;
  sent = taken;
  waits = finds text ∷ ws;
  dial' = dial';
  sent' = taken;
}

module _ (sizes : Sizeof) (self from : Self) (dial dial' : Dial) (ws : List Wait)
    (receiver index : ℕ) (text : Msg) (dir : Directory) (s : Net) where
  abbrev item : Msg
  item = new_item_msg sizes from item_text receiver index

  abbrev curr : ItemMsg
  curr = record { sender = from.me; receiver = receiver; index = index; itype = item_text }

  abbrev target : ℕ
  target = relay_target curr dir s

  relayed_string :
      (u v : Net)
      → send_msg sizes self dial' taken text target u ≡ returns true v
      → relay_string sizes self (relays dial dial' text ws) target u ≡ returns served v
  unfolding relay_string next_msg_same next_msg_from_fd iu.Net.recv_msg
  relayed_string u v e = ap (λ r. r >>= (λ r. returns served r.1)) e

  relayed :
      (u v : Net)
      → send_msg sizes self dial taken item target s ≡ returns true u
      → send_msg sizes self dial' taken text target u ≡ returns true v
      → server_handle_msg sizes self (relays dial dial' text ws) item dir s ≡ returns served v
  unfolding server_handle_msg handle_item_relay as_item new_item_msg
  relayed u v d e = rw d (relayed_string u v e)

  module _ (fd : ℕ) (q : Stream Msg) where
    -- A server relays the item and the text behind it to the receiver if it knows that node's
    -- address, and else to the server that the directory names: if that node has a connection, then
    -- both go out at once, the item first and nothing in between, or both are put in this order
    -- behind all that the node's queue holds.
    pub server_handle_msg-BothInOrder :
        find target s.connections ≡ some fd
        → find target s.send_qs ≡ some q
        → (s' : Net) × (q' : Stream Msg) × (server_handle_msg sizes self
              (relays dial dial' text ws)
              item
              dir
              s
            ≡ returns served s')
          × (find target s'.send_qs ≡ some q')
          × BothInOrder fd item text q q' s s'
    server_handle_msg-BothInOrder c e =
        let (u, r, eu, cu, qu, ou) = send_msg-Sends target fd item q s c sizes self dial e in
        let (v, t, ev, cv, qv, ov) =
          send_msg-Sends target fd text r u (rw cu c) sizes self dial' qu in
        (v, t, relayed u v eu ev, qv, BothInOrder-InOrder fd item text q r t s u v ou ov)
