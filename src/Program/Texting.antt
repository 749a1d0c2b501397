-- ===== src/Program/Texting.antt =====
-- A text on its way from a client by a server to another client.
mod Tests
use iu.Prelude.{
  ℕ, ◌≡◌, refl, ap, ◌<◌, Bool, true, false, none, some, List, [], ◌∷◌, ◌++◌, length, ◌⊎◌, inl, inr,
  arith,
}
use iu.Prelude.Map.{find}
use iu.Msg.{word, Addr, Msg, ItemMsg, Sizeof, Self, item_text, new_item_msg, new_string_msg}
use iu.Concat.{Stream}
use iu.Datacenters.{Directory, get_server}
use iu.Messenger.{
  Messenger, Network, conversation, sequence_number, add_received, add_sent, bump, text_item,
  messenger_text,
}
use iu.Messenger.Order.{IsNew, Inserted, insert_item-Inserted}
use iu.Messenger.Receiving.{arrived}
use iu.Messenger.Texts.{messenger_text_server, conversation-add_sent, conversation-add_received}
use iu.Net.{Net, have_node_addr, Run, returns, exits, faults, spins, ◌>>=◌}
use iu.Net.Send.{Dial, taken, connect_to, send_msg}
use iu.Net.Receive.{Wait}
use iu.Net.Ordering.{send_msg-Sends}
use iu.Dispatch.{kept, served, relay_target, server_handle_msg, client_handle_msg}
use iu.Dispatch.Relaying.{
  finds, relays, BothInOrder, BothInOrder-InOrder, server_handle_msg-BothInOrder,
}
use iu.Dispatch.Client.{client_handle_msg-new_string_msg}

-- A loop of calls does not go on once one of them has not returned.
abbrev tried : Run Bool → Bool × Run (Unit {0})
tried (returns b s) = (b, returns tt s)
tried exits = (true, exits)
tried faults = (true, faults)
tried spins = (true, spins)

-- The node that a server passes a text on to: the receiver, if the server has its address, and else
-- the server that its directory names.
abbrev pub IsNextHop : (receiver : ℕ) → Directory → Net → ℕ → Type 0
IsNextHop receiver dir s hop =
    ((a : Addr) × (find receiver s.addresses ≡ some a) × (hop ≡ receiver))
    ⊎ ((find receiver s.addresses ≡ none) × (hop ≡ get_server dir))

relay_target-IsNextHop :
    (curr : ItemMsg) (dir : Directory) (s : Net) (hop : ℕ)
    → IsNextHop curr.receiver dir s hop
    → relay_target curr dir s ≡ hop
unfolding relay_target have_node_addr
relay_target-IsNextHop curr dir s hop (inl (a, e, k)) = ground arith
relay_target-IsNextHop curr dir s hop (inr (e, k)) = ground arith

module _ (sizes : Sizeof) (self : Self) (dial : Dial) (dir : Directory)
    (send_file : (fd dest : ℕ) → Run (Unit {0}) → Run (Unit {0})) where
  -- The network of a node, where the system takes every message.
  abbrev pub network : Network (Run (Unit {0}))
  network = record {
    send_msg = λ m dest r. tried (r >>= (λ s. send_msg sizes self dial taken m dest s.1));
    send_file = send_file;
    get_server = λ r. get_server dir;
  }

  send_msg-unknown :
      (m : Msg) (dest : ℕ) (s : Net)
      → find dest s.send_qs ≡ none
      → find dest s.addresses ≡ none
      → send_msg sizes self dial taken m dest s ≡ returns false s
  unfolding send_msg connect_to
  send_msg-unknown m dest s e f = rw (e, send_msg) (rw (f, connect_to) refl)

module _ (sizes : Sizeof) (self server : Self) (dial dial' dial'' : Dial) (dir dir' : Directory)
    (send_file : (fd dest : ℕ) → Run (Unit {0}) → Run (Unit {0})) (junk dest : ℕ) (mark : Bool)
    (str : List ℕ) (ws ws' : List Wait) (a b : Messenger) (na ns nb : Net) where
  abbrev index : ℕ
  index = sequence_number dest a

  abbrev item : Msg
  item = new_item_msg sizes self item_text dest index

  abbrev string : Msg
  string = new_string_msg sizes str

  -- What becomes of a text: what the sender sends and records, what the server relays to the
  -- node `hop`, and what the receiver, which takes the two messages, adds to its conversation.
  pub record Delivers (fd fd' hop : ℕ) (q q' : Stream Msg) : Type 0 where
    pub a' : Messenger
    pub b' : Messenger
    pub na' : Net
    pub ns' : Net
    pub r : Stream Msg
    pub r' : Stream Msg
    pub sent :
        messenger_text
          (network sizes self dial dir send_file)
          sizes
          self
          2
          junk
          str
          dest
          (a, returns tt na)
        ≡ some (a', returns tt na')
    pub queued : find (get_server dir) na'.send_qs ≡ some r
    pub in_order : BothInOrder fd item string q r na na'
    pub recorded : conversation dest a' ≡ conversation dest a ++ text_item junk str ∷ []
    pub relayed :
        server_handle_msg sizes server (relays dial' dial'' string ws) item dir' ns
        ≡ returns served ns'
    pub queued' : find hop ns'.send_qs ≡ some r'
    pub in_order' : BothInOrder fd' item string q' r' ns ns'
    pub taken_on :
        client_handle_msg sizes (finds string ∷ ws') mark item b nb ≡ returns (kept b') nb
    pub shown : Inserted (arrived mark index str) (conversation self.me b) (conversation self.me b')

  sent_text :
      (s t : Net)
      → find dest na.send_qs ≡ none
      → find dest na.addresses ≡ none
      → send_msg sizes self dial taken item (get_server dir) na ≡ returns true s
      → send_msg sizes self dial taken string (get_server dir) s ≡ returns true t
      → messenger_text
          (network sizes self dial dir send_file)
          sizes
          self
          2
          junk
          str
          dest
          (a, returns tt na)
        ≡ some (add_sent dest index (text_item junk str) (bump dest a), returns tt t)
  sent_text s t e f h k =
      messenger_text_server (network sizes self dial dir send_file) sizes self junk str dest a
        (returns tt na) (returns tt na) (returns tt s) (true, returns tt t)
        (ap tried (send_msg-unknown sizes self dial dir send_file item dest na e f)) (ap tried h)
        (ap tried k)

  -- A client that has no queue and no address of the receiver, but a connection to the server that
  -- its directory names, ends a `messenger_text` in two tries: the item and then the text go out to
  -- the server, or are put in this order behind all that the server's queue holds, and the text is
  -- at the end of the conversation with the receiver. If the server gets the two messages and has a
  -- connection to the next hop, it does the same there; the next hop is the receiver if the server
  -- has the receiver's address, and else the server that its own directory names. The client that
  -- takes the two messages, and has no item of this index that is marked as received from the
  -- sender, has the text in its conversation with the sender then, between the items of before:
  -- behind marked ones of lesser indices, and before a marked one of a greater index or at the end.
  -- The system takes every message; the sizes of messages and texts are below the word.
  pub delivered_text :
      (fd fd' hop : ℕ) (q q' : Stream Msg)
      → find dest na.send_qs ≡ none
      → find dest na.addresses ≡ none
      → find (get_server dir) na.connections ≡ some fd
      → find (get_server dir) na.send_qs ≡ some q
      → IsNextHop dest dir' ns hop
      → find hop ns.connections ≡ some fd'
      → find hop ns.send_qs ≡ some q'
      → IsNew index (conversation self.me b)
      → sizes.string_msg < word
      → length str < word
      → Delivers fd fd' hop q q'
  delivered_text fd fd' hop q q' e f c g i c' g' o h k =
      let via = get_server dir in
      let (s, p, es, cs, gs, os) = send_msg-Sends via fd item q na c sizes self dial g in
      let (t, r, et, ct, gt, ot) = send_msg-Sends via fd string p s (rw cs c) sizes self dial gs in
      let curr : ItemMsg = record {
        sender = self.me;
        receiver = dest;
        index = index;
        itype = item_text;
      } in
      let d : relay_target curr dir' ns ≡ hop = relay_target-IsNextHop curr dir' ns hop i in
      let (u, r', eu, gu, ou) =
        server_handle_msg-BothInOrder sizes server self dial' dial'' ws dest index string dir' ns
          fd' q' (rw d c') (rw d g') in
      record {
        a' = add_sent dest index (text_item junk str) (bump dest a);
        b' = add_received self.me (arrived mark index str) b;
        na' = t;
        ns' = u;
        r = r;
        r' = r';
        sent = sent_text s t e f es et;
        queued = gt;
        in_order = BothInOrder-InOrder fd item string q p r na s t os ot;
        recorded = conversation-add_sent dest index (text_item junk str) a;
        relayed = eu;
        queued' = rw d at gu;
        in_order' = ou;
        taken_on = client_handle_msg-new_string_msg sizes self dest index str mark ws' b nb h k;
        shown =
            rw (conversation-add_received self.me (arrived mark index str) b)
              (insert_item-Inserted (arrived mark index str) (conversation self.me b) o);
      }
