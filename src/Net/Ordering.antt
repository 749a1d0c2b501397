-- ===== src/Net/Ordering.antt =====
-- What `send_msg` and the maintenance do with messages, and what `send_msg` does for a node whose
-- connection has come to its end.
use iu.Prelude.{
  ℕ, ◌≡◌, refl, sym, ap, ◌∙◌, ◌≢◌, Bool, true, false, none, some, List, [], ◌∷◌, ◌++◌, arith, inl,
  inr, ◌⊎◌,
}
use iu.Prelude.Map.{Map, find, assign, find-assign, find-erase}
use iu.Msg.{Msg, Sizeof, Self}
use iu.Concat.{get, Stream, Result, returns, waits, exits, no_fuel, empty, put}
use iu.Concat.View.{before, view, size, then_if_ended, Contents}
use iu.Concat.Reading.{nothing, Got, get-Got}
use iu.Concat.Empty.{Emptied, empty-Emptied}
use iu.Concat.Writing.{if_closed, view-put}
use iu.Net.{Net, Run, returns, exits, faults, ◌>>=◌, record_event, sends, forget, recv_msg, ends}
use iu.Net.Send.{
  is_ready, send_first, Sent, taken, Dial, on_queue, send_msg_now, send_or_queue, send_msg,
}

-- The queue's contents once it has ended, with one message more.
abbrev pub behind : Contents Msg → Msg → Contents Msg
behind c m = then_if_ended c (record { items = m ∷ []; ended = true })

-- A message that the system takes goes out at once if the queue is empty, and else is put behind
-- all that the queue holds. `q'` is the queue after it.
abbrev pub InOrder : ℕ → Msg → (q q' : Stream Msg) → (s s' : Net) → Type 0
InOrder fd m q q' s s' =
    ((if_closed q ≡ nothing true)
      × (if_closed q' ≡ nothing true)
      × (s'.events ≡ s.events ++ sends fd m ∷ []))
    ⊎ ((if_closed q ≢ nothing true)
        × (if_closed q' ≡ behind (if_closed q) m)
        × (s'.events ≡ s.events))

abbrev pub Sends : ℕ → ℕ → Msg → Stream Msg → Net → Run Bool → Type 0
Sends nid fd m q s r =
    (s' : Net) × (q' : Stream Msg) × (r ≡ returns true s')
    × (s'.connections ≡ s.connections)
    × (find nid s'.send_qs ≡ some q')
    × InOrder fd m q q' s s'

found-assign :
    (nid : ℕ) (q : Stream Msg) (qs : Map (Stream Msg)) → find nid (assign nid q qs) ≡ some q
found-assign nid q qs = ground (arith, find-assign nid nid q qs)

-- What `send_or_queue` comes to, from what `empty` says of the queue.
module _ (nid fd : ℕ) (m : Msg) (q : Stream Msg) (s : Net)
    (h : find nid s.connections ≡ some fd) where
  Sends-empty :
      (r : Result Msg Bool)
      → Emptied q r
      → Sends nid fd m q s (
          on_queue nid r s >>= (λ now. elim now.0 [
            | true ↦ send_msg_now taken m nid now.1
            | false ↦ elim (find nid now.1.send_qs) [
              | none ↦ faults
              | some q' ↦
                  Run.returns true (record now.1 { send_qs = assign nid (put m q') now.1.send_qs })
            ]
          ]))
  unfolding on_queue send_msg_now
  Sends-empty (returns true q') (e, d, k) = (
    record_event (sends fd m) (record s { send_qs = assign nid q' s.send_qs }),
    q',
    rw (h, send_msg_now) refl,
    refl,
    found-assign nid q' s.send_qs,
    inl (e, k ∙ e, refl),
  )
  Sends-empty (returns false q') (e, d, k) = (
    record s { send_qs = assign nid (put m q') (assign nid q' s.send_qs) },
    put m q',
    ap
        (λ o. elim o [
          | none ↦ faults
          | some q'' ↦
              Run.returns true
                (record s { send_qs = assign nid (put m q'') (assign nid q' s.send_qs) })
        ])
        (found-assign nid q' s.send_qs),
    refl,
    found-assign nid (put m q') (assign nid q' s.send_qs),
    inr (e, (view-put m q').1 ∙ ap (λ c. behind c m) k, refl),
  )
  Sends-empty waits e = absurd e
  Sends-empty exits e = absurd e
  Sends-empty no_fuel e = absurd e

  pub send_or_queue-Sends : Sends nid fd m q s (send_or_queue taken m nid q s)
  unfolding send_or_queue
  send_or_queue-Sends = Sends-empty (empty (size q) q) (empty-Emptied (size q) q (omega arith))

  -- For a node with a connection and a queue: a message that the system takes goes out at once if
  -- the queue would be at its end if it were closed now, and else is put behind all that it holds,
  -- and nothing goes out.
  pub send_msg-Sends :
      (sizes : Sizeof) (self : Self) (dial : Dial)
      → find nid s.send_qs ≡ some q
      → Sends nid fd m q s (send_msg sizes self dial taken m nid s)
  unfolding send_msg
  send_msg-Sends sizes self dial e = rw (e, send_msg) (send_or_queue-Sends)

-- A send to a node without a connection whose queue is empty.
module _ (answer : Sent) (m : Msg) (nid : ℕ) (q : Stream Msg) (s : Net) where
  faults-empty :
      (r : Result Msg Bool)
      → find nid s.connections ≡ none
      → if_closed q ≡ nothing true
      → Emptied q r
      → (on_queue nid r s >>= (λ now. elim now.0 [
        | true ↦ send_msg_now answer m nid now.1
        | false ↦ elim (find nid now.1.send_qs) [
          | none ↦ faults
          | some q' ↦
              Run.returns true (record now.1 { send_qs = assign nid (put m q') now.1.send_qs })
        ]
      ]))
        ≡ faults
  unfolding on_queue send_msg_now
  faults-empty (returns true q') h k e = rw (h, send_msg_now) refl
  faults-empty (returns false q') h k e = absurd (e.0 k)
  faults-empty waits h k e = absurd e
  faults-empty exits h k e = absurd e
  faults-empty no_fuel h k e = absurd e

  send_or_queue_faults :
      find nid s.connections ≡ none
      → if_closed q ≡ nothing true
      → send_or_queue answer m nid q s ≡ faults
  unfolding send_or_queue
  send_or_queue_faults h k =
      faults-empty (empty (size q) q) h k (empty-Emptied (size q) q (omega arith))

-- When a node with an entry has closed its connection and its queue is empty, the next `send_msg`
-- to it follows an iterator to nothing, whatever the system answers.
pub send_msg-recv_msg_faults :
    (sizes : Sizeof) (self : Self) (dial : Dial) (answer : Sent) (m : Msg) (nid fd : ℕ)
    (q : Stream Msg) (s : Net)
    → find fd s.nids ≡ some nid
    → find nid s.send_qs ≡ some q
    → if_closed q ≡ nothing true
    → (s' : Net) × (recv_msg ends fd s ≡ returns none s')
      × (send_msg sizes self dial answer m nid s' ≡ faults)
unfolding recv_msg forget send_msg
send_msg-recv_msg_faults sizes self dial answer m nid fd q s h e k = (
  forget fd nid s,
  rw (h, recv_msg) refl,
  rw (e, send_msg)
      (send_or_queue_faults answer m nid q (forget fd nid s)
        (ground (arith, find-erase nid nid s.connections)) k),
)

-- The first message goes out, and the queue is left without it.
abbrev pub SendsFirst : (nid fd : ℕ) → Msg → Stream Msg → Net → Run Bool → Type 0
SendsFirst nid fd x q s r =
    (s' : Net) × (q' : Stream Msg) × (r ≡ is_ready nid s')
    × (s'.events ≡ s.events ++ sends fd x ∷ [])
    × (find nid s'.send_qs ≡ some q')
    × (view q ≡ before x (view q'))

-- What the maintenance sends for a node, from what `get` says of the queue.
module _ (nid fd : ℕ) (x : Msg) (xs : List Msg) (q : Stream Msg) (s : Net)
    (h : find nid s.connections ≡ some fd) (k : (view q).items ≡ x ∷ xs) where
  SendsFirst-Got :
      (r : Result Msg Msg)
      → Got (λ a y. a ≡ y) q r
      → SendsFirst nid fd x q s (
          on_queue nid r s
          >>= (λ m. send_msg_now taken m.0 nid m.1 >>= (λ sent. is_ready nid sent.1)))
  unfolding on_queue send_msg_now
  SendsFirst-Got (returns a q') (y, e, v) =
      let p : y ∷ (view q').items ≡ x ∷ xs = sym (ap (λ c. c.items) v) ∙ k in
      let yx : y ≡ x = cc in
      let ax : a ≡ x = e ∙ yx in
      (
        record_event (sends fd a) (record s { send_qs = assign nid q' s.send_qs }),
        q',
        rw (h, send_msg_now) refl,
        ap (λ m. s.events ++ sends fd m ∷ []) ax,
        found-assign nid q' s.send_qs,
        v ∙ ap (λ m. before m (view q')) yx,
      )
  SendsFirst-Got waits e = absurd (let p : [] ≡ x ∷ xs = sym (ap (λ c. c.items) e) ∙ k in cc)
  SendsFirst-Got exits e = absurd (let p : [] ≡ x ∷ xs = sym (ap (λ c. c.items) e) ∙ k in cc)
  SendsFirst-Got no_fuel e = absurd e

  -- For a node with a connection whose queue holds a message, the maintenance sends the first one,
  -- if the system takes it, leaves the others in order, and then asks whether there is another.
  pub send_first-SendsFirst :
      find nid s.send_qs ≡ some q → SendsFirst nid fd x q s (send_first taken nid s)
  unfolding send_first
  send_first-SendsFirst e =
      rw (e, send_first) (SendsFirst-Got (get (size q) q) (get-Got (size q) q (omega arith)))
