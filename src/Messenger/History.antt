-- ===== src/Messenger/History.antt =====
-- The sequence numbers over a history of calls.
use iu.Prelude.{
  ℕ, ◌+◌, ◌≤◌, ◌<◌, ◌≡◌, refl, ◌≢◌, ◌⊎◌, inl, inr, none, some, List, Bool, Option, arith,
}
use iu.Prelude.Map.{find, at_or}
use iu.Msg.{word, Msg, Sizeof, Self, ItemMsg}
use iu.Messenger.{
  Item, open_file, Messenger, initial, sent_to, sequence_number, get_conversation, add_received,
  Network, text_item, file_item, messenger_text, messenger_file, stored, handle_item_msg,
  set_finished,
}
use iu.Messenger.Sending.{Recorded, messenger_text_returned, messenger_file_lem}
use iu.Messenger.Receiving.{handle_item_msg-stored}

-- The sent items of a receiver are those below its sequence number.
pub record IsSequenced (s : Messenger) : Type 0 where
  pub below : (d k : ℕ) → k < sequence_number d s → find k (sent_to d s) ≢ none
  pub above : (d k : ℕ) → sequence_number d s ≤ k → find k (sent_to d s) ≡ none

-- Nothing that was sent has changed.
abbrev pub KeepsSent : Messenger → Messenger → Type 0
KeepsSent s t = (d k : ℕ) (i : Item) → find k (sent_to d s) ≡ some i → find k (sent_to d t) ≡ some i

Recorded-IsSequenced :
    (dest : ℕ) (item : Item) (s t : Messenger)
    → sequence_number dest s + 1 < word
    → Recorded dest item s t
    → IsSequenced s
    → IsSequenced t
Recorded-IsSequenced dest item s t fits (seq, sent, conv, rec) c = record {
  below = λ d k h. ground (arith, seq d, sent d k, c.below d k);
  above = λ d k h. ground (arith, seq d, sent d k, c.above d k);
}

Recorded-KeepsSent :
    (dest : ℕ) (item : Item) (s t : Messenger)
    → Recorded dest item s t
    → IsSequenced s
    → KeepsSent s t
Recorded-KeepsSent dest item s t (seq, sent, conv, rec) c d k i h =
    ground (arith, sent d k, c.above d k)

sent_to-add_received :
    (sender d : ℕ) (item : Item) (s : Messenger)
    → (sent_to d (add_received sender item s) ≡ sent_to d s)
      × (sequence_number d (add_received sender item s) ≡ sequence_number d s)
unfolding add_received sent_to sequence_number
sent_to-add_received sender d item s = (refl, refl)

sent_to-get_conversation :
    (nid d : ℕ) (s : Messenger)
    → (sent_to d (get_conversation nid s).1 ≡ sent_to d s)
      × (sequence_number d (get_conversation nid s).1 ≡ sequence_number d s)
unfolding get_conversation sent_to sequence_number
sent_to-get_conversation nid d s = (refl, refl)

-- A step that leaves what was sent as it was.
abbrev Quiet : Messenger → Messenger → Type 0
Quiet s t = (d : ℕ) → (sent_to d t ≡ sent_to d s) × (sequence_number d t ≡ sequence_number d s)

-- What a step does to the sent items.
abbrev Effect : Messenger → Messenger → Type 0
Effect s t =
    Quiet s t
    ⊎ ((dest : ℕ) × (item : Item) × (sequence_number dest s + 1 < word) × Recorded dest item s t)

Effect-IsSequenced : (s t : Messenger) → Effect s t → IsSequenced s → IsSequenced t
Effect-IsSequenced s t (inl q) c = record {
  below = λ d k h. ground (arith, q d, c.below d k);
  above = λ d k h. ground (arith, q d, c.above d k);
}
Effect-IsSequenced s t (inr (dest, item, fits, r)) c = Recorded-IsSequenced dest item s t fits r c

Effect-KeepsSent : (s t : Messenger) → Effect s t → IsSequenced s → KeepsSent s t
Effect-KeepsSent s t (inl q) c d k i h = rw (q d).0 h
Effect-KeepsSent s t (inr (dest, item, fits, r)) c d k i h =
    Recorded-KeepsSent dest item s t r c d k i h

-- The calls that change the state are what one thread does one after the other, over any network
-- states between them, and no receiver has been sent 2^64 - 1 items.
module _ {N : Type 0} (net : Network N) (size : Sizeof) (self : Self) where
  pub data Step (s t : Messenger) : Type 0 where
    texts :
        (fuel junk : ℕ) (str : List ℕ) (dest : ℕ) (n n' : N)
        → sequence_number dest s + 1 < word
        → messenger_text net size self fuel junk str dest (s, n) ≡ some (t, n')
        → Step s t
    files :
        (fuel junk fd dest : ℕ) (n n' : N)
        → sequence_number dest s + 1 < word
        → messenger_file net size self fuel junk fd dest (s, n) ≡ some (t, n')
        → Step s t
    handles :
        (junk : Bool) (imsg : ItemMsg) (smsg : Option Msg)
        → handle_item_msg size junk imsg smsg s ≡ some (stored t)
        → Step s t
    finishes : (fd sender : ℕ) (item : Item) → t ≡ set_finished fd sender item s → Step s t
    looks : (nid : ℕ) → t ≡ (get_conversation nid s).1 → Step s t

  pub data Reach (s : Messenger) : Messenger → Type 0 where
    here : Reach s s
    next : {t u : Messenger} → Reach s t → Step t u → Reach s u

  Step-Effect : {s t : Messenger} → Step s t → Effect s t
  Step-Effect {s} {t} (texts fuel junk str dest n n' fits e) = inr (
    dest,
    text_item junk str,
    fits,
    (messenger_text_returned net size self fuel junk str dest s t n n' e).3,
  )
  Step-Effect {s} {t} (files fuel junk fd dest n n' fits e) = inr (
    dest,
    file_item junk fd,
    fits,
    (messenger_file_lem net size self fuel junk fd dest s t n n' e).3,
  )
  Step-Effect {s} {t} (handles junk imsg smsg e) =
      let (item, et) = handle_item_msg-stored size junk imsg smsg s t e in
      inl (λ d. rw et (sent_to-add_received imsg.sender d item s))
  Step-Effect {s} (finishes fd sender item et) =
      unfold set_finished in
      inl (λ d. rw et (sent_to-add_received sender d (record item { payload = open_file fd }) s))
  Step-Effect {s} (looks nid et) = inl (λ d. rw et (sent_to-get_conversation nid d s))

  -- After any history, the items on record as sent to a node are those of the sequence numbers
  -- below the next one, if that was so before.
  pub Reach-IsSequenced : {s t : Messenger} → IsSequenced s → Reach s t → IsSequenced t
  Reach-IsSequenced c here = c
  Reach-IsSequenced {s} c (next {t = t} {u = u} r st) =
      Effect-IsSequenced t u (Step-Effect st) (Reach-IsSequenced c r)

  -- No history overwrites an item that was sent, so that no sequence number is used twice for a
  -- receiver, if the items on record were those of the sequence numbers below the next one.
  pub Reach-KeepsSent : {s t : Messenger} → IsSequenced s → Reach s t → KeepsSent s t
  Reach-KeepsSent c here d k i h = h
  Reach-KeepsSent c (next {t = t} {u = u} r st) d k i h =
      Effect-KeepsSent t u (Step-Effect st) (Reach-IsSequenced c r) d k i
        (Reach-KeepsSent c r d k i h)

pub initial-IsSequenced : IsSequenced initial
unfolding sequence_number sent_to at_or find
initial-IsSequenced = record { below = λ d k h. absurd (omega arith); above = λ d k h. refl }
