-- ===== src/Control/Command.antt =====
-- iuctl.cpp: the choice of the command. The answer of the server is read in `status_reply` and
-- `net_reply` of the parent.
use iu.Prelude.{
  ℕ, ◌≡◌, ◌≢◌, refl, none, some, ◌==◌, List, [], ◌∷◌, if◌then◌else◌, ◌⊎◌, inl, inr, Bool-cases,
}
use iu.Prelude.Map.{find, find-assign}
use iu.Prelude.Text.{same_text}
use iu.Msg.{Addr}
use iu.Datacenters.{Directory}
use iu.Net.{Net, set_node_addr}
use iu.Control.{
  first_of, System, Ipc, Pids, shutdown_iuctl, status_request, net_request, addr_iuctl, goes_on,
  handle_iuctls,
}
use iu.Control.Requests.{handle_iuctls-addr_iuctl}
use iu.Control.Startup.{Joined, joins, fails, dies}

abbrev pub help_word : List ℕ
help_word = 104 ∷ 101 ∷ 108 ∷ 112 ∷ []

abbrev pub addr_word : List ℕ
addr_word = 97 ∷ 100 ∷ 100 ∷ 114 ∷ []

abbrev pub net_word : List ℕ
net_word = 110 ∷ 101 ∷ 116 ∷ []

abbrev pub status_word : List ℕ
status_word = 115 ∷ 116 ∷ 97 ∷ 116 ∷ 117 ∷ 115 ∷ []

abbrev pub shutdown_word : List ℕ
shutdown_word = 115 ∷ 104 ∷ 117 ∷ 116 ∷ 100 ∷ 111 ∷ 119 ∷ 110 ∷ []

abbrev pub einval : ℕ
einval = 22

-- What a run comes to: the help and the exit code, that no server runs, a request that was sent, one
-- whose answer is waited for, the null pointer behind the arguments, or a failing call.
pub data Ran (Q : Type 0) : Type 0 where
  helps : (code : ℕ) → Q → Ran Q
  not_running : Q → Ran Q
  ends awaits_status awaits_net : Q → Ran Q
  crashes stops : Ran Q

-- `atol`, and `inet_pton` with what the address holds before.
module _ {Q : Type 0} (ipc : Ipc Q) (atol : List ℕ → ℕ) (inet_pton : List ℕ → Addr → Addr) where
  -- Missing arguments print their help, and are read all the same.
  unfoldable pub tell_addr : Pids → List (List ℕ) → Addr → Q → Ran Q
  tell_addr pids (nid ∷ addr ∷ rest) junk q =
      ends (addr_iuctl ipc pids (atol nid) (inet_pton addr junk) q)
  tell_addr pids (nid ∷ []) junk q = crashes
  tell_addr pids [] junk q = crashes

  unfoldable pub run_command : Pids → List ℕ → List (List ℕ) → Addr → Q → Ran Q
  unfolding tell_addr
  run_command pids command params junk q =
      if same_text command status_word
      then awaits_status (status_request ipc pids q)
      else if same_text command addr_word
      then tell_addr pids params junk q
      else if same_text command net_word
      then awaits_net (net_request ipc pids q)
      else if same_text command shutdown_word
      then ends (shutdown_iuctl ipc pids q)
      else helps 0 q

  unfoldable pub run_joined : Joined → List ℕ → List (List ℕ) → Addr → Q → Ran Q
  unfolding run_command
  run_joined (joins pids) command params junk q = run_command pids command params junk q
  run_joined (fails errno) command params junk q = not_running q
  run_joined dies command params junk q = stops

  unfoldable pub iuctl_main : List (List ℕ) → Joined → Addr → Q → Ran Q
  unfolding run_joined
  iuctl_main [] joined junk q = helps einval q
  iuctl_main (name ∷ []) joined junk q = helps einval q
  iuctl_main (name ∷ command ∷ params) joined junk q =
      if same_text command help_word then helps 0 q else run_joined joined command params junk q

  abbrev pub SendsNothing : Ran Q → Q → Type 0
  SendsNothing r q = ((code : ℕ) × (r ≡ helps code q)) ⊎ (r ≡ not_running q) ⊎ (r ≡ stops)

  run_joined-SendsNothing :
      (joined : Joined) (command : List ℕ) (params : List (List ℕ)) (junk : Addr) (q : Q)
      → ((pids : Pids) → joined ≢ joins pids)
      → SendsNothing (run_joined joined command params junk q) q
  unfolding run_joined
  run_joined-SendsNothing (joins pids) command params junk q h = absurd (h pids refl)
  run_joined-SendsNothing (fails errno) command params junk q h = inr (inl refl)
  run_joined-SendsNothing dies command params junk q h = inr (inr refl)

  -- If iuctl has not joined a server, whatever its arguments, it sends nothing: it prints the help,
  -- reports that no server runs, or ends by the call that failed.
  iuctl_main-SendsNothing :
      (argv : List (List ℕ)) (joined : Joined) (junk : Addr) (q : Q)
      → ((pids : Pids) → joined ≢ joins pids)
      → SendsNothing (iuctl_main argv joined junk q) q
  unfolding iuctl_main
  iuctl_main-SendsNothing [] joined junk q h = inl (einval, refl)
  iuctl_main-SendsNothing (name ∷ []) joined junk q h = inl (einval, refl)
  iuctl_main-SendsNothing (name ∷ command ∷ params) joined junk q h =
      elim (Bool-cases (same_text command help_word)) [
        | inl e ↦ inl (0, rw e refl)
        | inr e ↦ rw e (run_joined-SendsNothing joined command params junk q h)
      ]

  module _ (server client : ℕ) (format : (nid loc : ℕ) → Addr → List ℕ) where
    abbrev joined : Joined
    joined = joins (record { self_pid = client; server_pid = server })

    abbrev serves : Pids
    serves = record { self_pid = server; server_pid = 0 }

    -- If iuctl has joined a server that is another program and no message waits for either, then
    -- its run with the command for an address, a node and an address sends what makes the server
    -- know the node, which `atol` reads, by the address that `inet_pton` reads. The server's other
    -- addresses and the rest of its network are as they were, and both messages are gone.
    pub handle_iuctls-iuctl_main :
        (name nid addr : List ℕ) (rest : List (List ℕ)) (junk : Addr) (q : Q) (sys : System)
        (s : Net) (dir : Directory)
        → client ≢ server
        → first_of server (ipc.pending q) ≡ none
        → first_of client (ipc.pending q) ≡ none
        → (r t : Q) × (s' : Net) × (iuctl_main (name ∷ addr_word ∷ nid ∷ addr ∷ rest) joined junk q
            ≡ ends r)
          × (handle_iuctls ipc serves format sys s dir r ≡ goes_on s' dir t)
          × ((k : ℕ)
              → find k s'.addresses
                ≡ (if atol nid == k then some (inet_pton addr junk) else find k s.addresses))
          × (s' ≡ record s { addresses = s'.addresses })
          × (ipc.pending t ≡ ipc.pending q)
    unfolding iuctl_main set_node_addr
    handle_iuctls-iuctl_main name nid addr rest junk q sys s dir n hs hc =
        let (t, e, p) =
          handle_iuctls-addr_iuctl ipc server client q format sys s dir n hs hc (atol nid)
            (inet_pton addr junk) in
        (
          addr_iuctl ipc (record { self_pid = client; server_pid = server }) (atol nid)
              (inet_pton addr junk) q,
          t,
          set_node_addr (atol nid) (inet_pton addr junk) s,
          refl,
          e,
          λ k. find-assign (atol nid) k (inet_pton addr junk) s.addresses,
          refl,
          p,
        )
