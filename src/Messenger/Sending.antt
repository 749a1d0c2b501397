-- ===== src/Messenger/Sending.antt =====
-- What is sent, and what the messenger records of it.
use iu.Prelude.{
  ℕ, zero, suc, ◌+◌, ◌%◌, ◌≡◌, refl, subst, ◌⊎◌, inl, inr, true, false, none, some, List, [], ◌∷◌,
  ◌++◌, if◌then◌else◌, ◌==◌, arith, Option-cases, Bool-cases,
}
use iu.Prelude.Map.{find, assign, at_or, find-assign}
use iu.Msg.{word, Msg, item_text, item_file, Sizeof, Self, new_item_msg, new_string_msg}
use iu.Messenger.{
  Item, Messenger, conversation, sent_to, sequence_number, bump, add_sent, Network, send_until,
  text_item, file_item, messenger_text, messenger_file, send_text, send_file_to,
}

module _ {N : Type 0} (net : Network N) where
  open net use {send_msg, get_server}

  -- If the server that `getServer` names takes the message in every state of the network, two tries
  -- are enough, and the node that took it is the destination or that server.
  pub send_until_total :
      (fuel : ℕ) (m : Msg) (dest : ℕ) (n : N)
      → ((n' : N) → (send_msg m (get_server n') n').0 ≡ true)
      → (r : ℕ × N) × (send_until net (suc (suc fuel)) m dest n ≡ some r)
        × ((r.0 ≡ dest) ⊎ (r.0 ≡ get_server (send_msg m dest n).1))
  unfolding send_until
  send_until_total fuel m dest n h =
      let n' = (send_msg m dest n).1 in
      elim (Bool-cases (send_msg m dest n).0) [
        | inl e ↦ ((dest, n'), ground arith, inl refl)
        | inr e ↦
            ((get_server n', (send_msg m (get_server n') n').1), ground (arith, h n'), inr refl)
      ]

  -- If no node takes the message, the loop does not end: a server that is down is asked again.
  pub send_until_never :
      (fuel : ℕ) (m : Msg) (dest : ℕ) (n : N)
      → ((d : ℕ) (n' : N) → (send_msg m d n').0 ≡ false)
      → send_until net fuel m dest n ≡ none
  unfolding send_until
  send_until_never zero m dest n h = refl
  send_until_never (suc fuel) m dest n h = ground (
    arith,
    h dest n,
    send_until_never fuel m (get_server (send_msg m dest n).1) (send_msg m dest n).1 h,
  )

  -- The tries of at most so many sends, each but the first to the server that `getServer` names
  -- behind the one before it, from a destination to the node that takes the message: all before the
  -- last fail.
  pub data Tries (m : Msg) : (fuel dest : ℕ) → N → (dest' : ℕ) → N → Type 0 where
    takes :
        (fuel dest : ℕ) (n : N)
        → (send_msg m dest n).0 ≡ true
        → Tries m (suc fuel) dest n dest (send_msg m dest n).1
    asks :
        (fuel dest dest' : ℕ) (n n' : N)
        → (send_msg m dest n).0 ≡ false
        → Tries m fuel (get_server (send_msg m dest n).1) (send_msg m dest n).1 dest' n'
        → Tries m (suc fuel) dest n dest' n'

  -- So many tries, and all fail.
  pub data Refused (m : Msg) : (fuel dest : ℕ) → N → Type 0 where
    no_tries : (dest : ℕ) (n : N) → Refused m zero dest n
    refuses :
        (fuel dest : ℕ) (n : N)
        → (send_msg m dest n).0 ≡ false
        → Refused m fuel (get_server (send_msg m dest n).1) (send_msg m dest n).1
        → Refused m (suc fuel) dest n

  pub send_until_lem :
      (m : Msg) (fuel dest : ℕ) (n : N)
      → ((dest' : ℕ) × (n' : N) × (send_until net fuel m dest n ≡ some (dest', n'))
          × Tries m fuel dest n dest' n')
        ⊎ ((send_until net fuel m dest n ≡ none) × Refused m fuel dest n)
  unfolding send_until
  send_until_lem m zero dest n = inr (refl, no_tries dest n)
  send_until_lem m (suc fuel) dest n =
      let d = get_server (send_msg m dest n).1 in
      elim (Bool-cases (send_msg m dest n).0) [
        | inl e ↦ inl (dest, (send_msg m dest n).1, rw e refl, takes fuel dest n e)
        | inr e ↦ elim (send_until_lem m fuel d (send_msg m dest n).1) [
          | inl (dest', n', h, t) ↦ inl (dest', n', rw e h, asks fuel dest dest' n n' e t)
          | inr (h, r) ↦ inr (rw e h, refuses fuel dest n e r)
        ]
      ]

-- Everything that a call of `add_sent` with the next sequence number changes.
abbrev pub Recorded : ℕ → Item → Messenger → Messenger → Type 0
Recorded dest item s t =
    ((k : ℕ)
      → sequence_number k t
        ≡ (if dest == k then (sequence_number k s + 1) % word else sequence_number k s))
    × ((k j : ℕ)
        → find j (sent_to k t) ≡ (
            if dest == k
            then (if sequence_number dest s == j then some item else find j (sent_to k s))
            else find j (sent_to k s)))
    × ((k : ℕ)
        → conversation k t
          ≡ (if dest == k then conversation k s ++ item ∷ [] else conversation k s))
    × (t.received ≡ s.received)

add_sent-Recorded :
    (dest : ℕ) (item : Item) (s : Messenger)
    → Recorded dest item s (add_sent dest (sequence_number dest s) item (bump dest s))
unfolding add_sent bump sent_to conversation sequence_number at_or
add_sent-Recorded dest item s = (
  λ k. ground (arith, find-assign dest k ((sequence_number dest s + 1) % word) s.sequence_numbers),
  λ k j. ground (
    arith,
    find-assign dest k (assign (sequence_number dest s) item (sent_to dest s)) s.sent,
    find-assign (sequence_number dest s) j item (sent_to dest s),
  ),
  λ k. ground (arith, find-assign dest k (conversation dest s ++ item ∷ []) s.messages),
  refl,
)

-- The item message of the next text to a node.
abbrev pub next_item : Sizeof → Self → ℕ → Messenger → Msg
next_item size self dest s = new_item_msg size self item_text dest (sequence_number dest s)

module _ {N : Type 0} (net : Network N) (size : Sizeof) (self : Self) where
  open net use {send_msg, send_file}

  -- A call of `messenger_text` that returns has sent the item under the next sequence number and
  -- then the text to one node, and has recorded the item and nothing else.
  pub messenger_text_returned :
      (fuel junk : ℕ) (str : List ℕ) (dest : ℕ) (s t : Messenger) (n n' : N)
      → messenger_text net size self fuel junk str dest (s, n) ≡ some (t, n')
      → (r : ℕ × N) × (send_until net fuel
            (new_item_msg size self item_text dest (sequence_number dest s))
            dest
            n
          ≡ some r)
        × (n' ≡ (send_msg (new_string_msg size str) r.0 r.1).1)
        × Recorded dest (text_item junk str) s t
  unfolding messenger_text send_text
  messenger_text_returned fuel junk str dest s t n n' h =
      let item = new_item_msg size self item_text dest (sequence_number dest s) in
      elim (Option-cases (send_until net fuel item dest n)) [
        | inl e ↦ absurd (ground arith)
        | inr (r, e) ↦
            let et : add_sent dest (sequence_number dest s) (text_item junk str) (bump dest s) ≡ t =
              ground arith in
            (
              r,
              e,
              ground arith,
              subst (Recorded dest (text_item junk str) s) et
                  (add_sent-Recorded dest (text_item junk str) s),
            )
      ]

  -- Every call of `messenger_text`, bounded by a number of tries. It sends the item under the next
  -- sequence number, to the destination and, while the try before has failed, to the server that
  -- `getServer` names then. Once a node has taken the item, it sends the text to that node, from
  -- the state of the network that the last try has left, and returns; then it has recorded the item
  -- and nothing else. It only does not return if all tries fail.
  pub messenger_text_lem :
      (fuel junk : ℕ) (str : List ℕ) (dest : ℕ) (s : Messenger) (n : N)
      → ((dest' : ℕ) × (n' : N) × (t : Messenger) × Tries net
            (next_item size self dest s)
            fuel
            dest
            n
            dest'
            n'
          × (messenger_text net size self fuel junk str dest (s, n)
              ≡ some (t, (send_msg (new_string_msg size str) dest' n').1))
          × Recorded dest (text_item junk str) s t)
        ⊎ ((messenger_text net size self fuel junk str dest (s, n) ≡ none)
            × Refused net (next_item size self dest s) fuel dest n)
  unfolding messenger_text send_text
  messenger_text_lem fuel junk str dest s n =
      elim (send_until_lem net (next_item size self dest s) fuel dest n) [
        | inl (dest', n', e, t) ↦ inl (
          dest',
          n',
          add_sent dest (sequence_number dest s) (text_item junk str) (bump dest s),
          t,
          ground (arith, e),
          add_sent-Recorded dest (text_item junk str) s,
        )
        | inr (e, r) ↦ inr (ground (arith, e), r)
      ]

  -- So has a call of `messenger_file`, with the transfer of the file in place of the text.
  pub messenger_file_lem :
      (fuel junk fd dest : ℕ) (s t : Messenger) (n n' : N)
      → messenger_file net size self fuel junk fd dest (s, n) ≡ some (t, n')
      → (r : ℕ × N) × (send_until net fuel
            (new_item_msg size self item_file dest (sequence_number dest s))
            dest
            n
          ≡ some r)
        × (n' ≡ send_file fd r.0 r.1)
        × Recorded dest (file_item junk fd) s t
  unfolding messenger_file send_file_to
  messenger_file_lem fuel junk fd dest s t n n' h =
      let item = new_item_msg size self item_file dest (sequence_number dest s) in
      elim (Option-cases (send_until net fuel item dest n)) [
        | inl e ↦ absurd (ground arith)
        | inr (r, e) ↦
            let et : add_sent dest (sequence_number dest s) (file_item junk fd) (bump dest s) ≡ t =
              ground arith in
            (
              r,
              e,
              ground arith,
              subst (Recorded dest (file_item junk fd) s) et
                  (add_sent-Recorded dest (file_item junk fd) s),
            )
      ]
