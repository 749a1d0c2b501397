-- ===== src/Net/Send.antt =====
-- src/net.cpp: sending, at once or by the queue of the receiver.
use iu.Prelude.{ℕ, Bool, true, false, Option, none, some, List, [], ◌∷◌, ◌++◌}
use iu.Prelude.Map.{Map, find, assign, emplace}
use iu.Msg.{Msg, Sizeof, Self, new_identity_msg}
use iu.Concat.{
  Stream, Result, returns, waits, exits, no_fuel, empty_stream, empty, ready, get, put, give,
}
use iu.Concat.View.{size}
use iu.Net.{
  Net, Run, returns, exits, faults, spins, ◌>>=◌, record_event, sends, close_fd, add_poll_fd,
  forget,
}

-- What `poll` and `send` come to: the bytes are taken, `POLLHUP`, `ECONNRESET`, or another error.
pub data Sent : Type 0 where
  taken hangs_up is_reset fails : Sent

unfoldable pub send_msg_now : Sent → Msg → ℕ → Net → Run Bool
unfolding forget
send_msg_now answer to_send nid s = elim (find nid s.connections) [
  | none ↦ faults
  | some fd ↦ elim answer [
    | taken ↦ Run.returns true (record_event (sends fd to_send) s)
    | hangs_up ↦ Run.returns false (forget fd nid (close_fd fd s))
    | is_reset ↦ Run.returns false (forget fd nid (close_fd fd s))
    | fails ↦ Run.exits
  ]
]

-- What `connect` comes to: success, `ECONNREFUSED`, or another error.
pub data Connected : Type 0 where
  connects is_refused fails : Connected

-- `insert` keeps an entry that is there; the queue is replaced.
unfoldable pub enter : (fd nid : ℕ) → Net → Net
unfolding add_poll_fd
enter fd nid s = add_poll_fd fd (record s {
  nids = emplace fd nid s.nids;
  connections = emplace nid fd s.connections;
  send_qs = assign nid empty_stream s.send_qs;
})

-- The answers of the system to `connect_to`: the new socket, `connect` and the send of the identity.
pub record Dial : Type 0 where
  pub fd : ℕ
  pub connected : Connected
  pub identified : Sent

-- The result of a call on a stream, which is then that of the node.
unfoldable pub on_queue : {A : Type 0} → ℕ → Result Msg A → Net → Run A
on_queue nid (returns a q) s = Run.returns a (record s { send_qs = assign nid q s.send_qs })
on_queue nid waits s = spins
on_queue nid exits s = Run.exits
on_queue nid no_fuel s = spins

-- The end of `send_msg`, where the node has a queue.
unfoldable pub send_or_queue : Sent → Msg → ℕ → Stream Msg → Net → Run Bool
unfolding send_msg_now on_queue
send_or_queue answer msg nid q s = do
  (now, s') ← on_queue nid (empty (size q) q) s
  elim now [
    | true ↦ send_msg_now answer msg nid s'
    | false ↦ elim (find nid s'.send_qs) [
      | none ↦ faults
      | some q' ↦ Run.returns true (record s' { send_qs = assign nid (put msg q') s'.send_qs })
    ]
  ]

module _ (sizes : Sizeof) (self : Self) where
  -- `none` for -1.
  unfoldable pub connect_to : Dial → ℕ → Net → Run (Option ℕ)
  unfolding enter send_msg_now
  connect_to dial nid s = elim (find nid s.addresses) [
    | none ↦ Run.returns none s
    | some addr ↦ elim dial.connected [
      | is_refused ↦ Run.returns none (close_fd dial.fd s)
      | fails ↦ Run.exits
      | connects ↦ do
        (sent, s') ←
            send_msg_now dial.identified (new_identity_msg sizes self) nid (enter dial.fd nid s)
        Run.returns (some dial.fd) s'
    ]
  ]

  unfoldable pub send_msg : Dial → Sent → Msg → ℕ → Net → Run Bool
  unfolding connect_to send_or_queue
  send_msg dial answer msg nid s = elim (find nid s.send_qs) [
    | some q ↦ send_or_queue answer msg nid q s
    | none ↦ do
      (fd, s') ← connect_to dial nid s
      elim fd [
        | none ↦ Run.returns false s'
        | some n ↦ elim (find nid s'.send_qs) [
          | none ↦ faults
          | some q ↦ send_or_queue answer msg nid q s'
        ]
      ]
  ]

  -- Whether there is a stream to fill; it is the last node of the queue then.
  unfoldable pub send_stream : Dial → ℕ → Net → Run Bool
  unfolding connect_to
  send_stream dial nid s = elim (find nid s.send_qs) [
    | some q ↦ Run.returns true (record s { send_qs = assign nid (give empty_stream q) s.send_qs })
    | none ↦ do
      (fd, s') ← connect_to dial nid s
      elim fd [
        | none ↦ Run.returns false s'
        | some n ↦ elim (find nid s'.send_qs) [
          | none ↦ faults
          | some q ↦
              Run.returns true (record s' { send_qs = assign nid (give empty_stream q) s'.send_qs })
        ]
      ]
  ]

-- Whether the queue of a node is ready.
unfoldable pub is_ready : ℕ → Net → Run Bool
unfolding on_queue
is_ready nid s = elim (find nid s.send_qs) [
  | none ↦ faults
  | some q ↦ on_queue nid (ready (size q) q) s
]

-- The first loop of `send_readies`: the nodes of the queues that are ready.
unfoldable pub ready_nids : Map (Stream Msg) → Net → Run (List ℕ)
unfolding is_ready
ready_nids [] s = Run.returns [] s
ready_nids ((nid, q) ∷ qs) s = do
  (r, s') ← is_ready nid s
  (nids, s'') ← ready_nids qs s'
  Run.returns (elim r [ true ↦ nid ∷ nids | false ↦ nids ]) s''

unfoldable pub send_first : Sent → ℕ → Net → Run Bool
unfolding on_queue send_msg_now is_ready
send_first answer nid s = elim (find nid s.send_qs) [
  | none ↦ faults
  | some q ↦ do
    (m, s') ← on_queue nid (get (size q) q) s
    (sent, s'') ← send_msg_now answer m nid s'
    is_ready nid s''
]

-- The second loop: `behind` are the nodes that had their turn in this round, in order. Each message
-- takes an answer.
unfoldable pub send_rounds : List Sent → (behind ahead : List ℕ) → Net → Run (Unit {0})
unfolding send_first
send_rounds answers [] [] s = Run.returns tt s
send_rounds [] (b ∷ bs) ahead s = spins
send_rounds [] [] (n ∷ ahead) s = spins
send_rounds (a ∷ answers) (b ∷ bs) [] s = do
  (more, s') ← send_first a b s
  elim more [ true ↦ send_rounds answers (b ∷ []) bs s' | false ↦ send_rounds answers [] bs s' ]
send_rounds (a ∷ answers) behind (n ∷ ahead) s = do
  (more, s') ← send_first a n s
  elim more [
    | true ↦ send_rounds answers (behind ++ n ∷ []) ahead s'
    | false ↦ send_rounds answers behind ahead s'
  ]

unfoldable pub send_readies : List Sent → Net → Run (Unit {0})
unfolding ready_nids send_rounds
send_readies answers s = do (nids, s') ← ready_nids s.send_qs s; send_rounds answers [] nids s'
