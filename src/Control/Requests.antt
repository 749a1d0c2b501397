-- ===== src/Control/Requests.antt =====
-- The requests, from iuctl to the server and back.
use iu.Prelude.{
  ℕ, ◌+◌, ◌*◌, ◌<◌, ◌≡◌, ◌≢◌, refl, ap, ◌∙◌, none, some, List, [], ◌∷◌, ◌++◌, length, ◌==◌,
  Bool-cases, inl, inr, arith, append_assoc, append-nil,
}
use iu.Msg.{Addr}
use iu.Datacenters.{Directory}
use iu.Net.{Net, set_node_addr}
use iu.Control.Listing.{location_of, listing, net_addresses-listing}
use iu.Control.{
  CtlType, mtext, stext, addr, IuctlMsg, first_of, without, Ipc, Pids, System,
  iuctl_server_shutdown, init_iuctl_msg, net_addresses, net_request, addr_iuctl, shutdown_iuctl,
  shuts_down, net_reply, value_of, string_of, iuctl_server_net, Control, goes_on, iuctl_server_addr,
  serve_net, serve_iuctl, handle_iuctls,
}

first_of-append :
    (t : ℕ) (xs : List IuctlMsg) (m : IuctlMsg) (ys : List IuctlMsg)
    → first_of t xs ≡ none
    → m.mtype ≡ t
    → (first_of t (xs ++ m ∷ ys) ≡ some m) × (without t (xs ++ m ∷ ys) ≡ xs ++ ys)
first_of-append t [] m ys h e = (ground arith, ground arith)
first_of-append t (x ∷ xs) m ys h e = elim (Bool-cases (x.mtype == t)) [
  | inl k ↦ absurd (let p : some x ≡ none = rw k at h in cc)
  | inr k ↦ let (a, b) = first_of-append t xs m ys (rw k at h) e in rw k (a, ap (λ l. x ∷ l) b)
]

first_of-snoc :
    (t : ℕ) (xs : List IuctlMsg) (m : IuctlMsg)
    → first_of t xs ≡ none
    → m.mtype ≢ t
    → first_of t (xs ++ m ∷ []) ≡ none
first_of-snoc t [] m h n = ground arith
first_of-snoc t (x ∷ xs) m h n = elim (Bool-cases (x.mtype == t)) [
  | inl k ↦ absurd (let p : some x ≡ none = rw k at h in cc)
  | inr k ↦ rw k (first_of-snoc t xs m (rw k at h) n)
]

module _ {Q : Type 0} (ipc : Ipc Q) where
  open ipc use {msgsnd, msgrcv, pending}

  takes :
      (t : ℕ) (q : Q) (xs ys : List IuctlMsg) (m : IuctlMsg)
      → pending q ≡ xs ++ m ∷ ys
      → first_of t xs ≡ none
      → m.mtype ≡ t
      → ((msgrcv t q).0 ≡ some m) × (pending (msgrcv t q).1 ≡ xs ++ ys)
  takes t q xs ys m e h k =
      let (a, b) = first_of-append t xs m ys h k in
      (ipc.msgrcv_first t q ∙ ap (first_of t) e ∙ a, ipc.pending-msgrcv t q ∙ ap (without t) e ∙ b)

  module _ (pids : Pids) (format : (nid loc : ℕ) → Addr → List ℕ) (sys : System) (s : Net)
      (dir : Directory) where
    handle_iuctls-serve :
        (q : Q) (msg : IuctlMsg)
        → (msgrcv pids.self_pid q).0 ≡ some msg
        → handle_iuctls ipc pids format sys s dir q
          ≡ serve_iuctl ipc pids format sys msg.text s dir (msgrcv pids.self_pid q).1
    unfolding handle_iuctls
    handle_iuctls-serve q msg e =
        ap
          (λ o. elim o [
            | none ↦ goes_on s dir (msgrcv pids.self_pid q).1
            | some m ↦ serve_iuctl ipc pids format sys m.text s dir (msgrcv pids.self_pid q).1
          ])
          e

    iuctl_server_addr-addr :
        (client nid : ℕ) (a : Addr) (q : Q)
        → (msgrcv client q).0 ≡ some (record { mtype = client; text = addr a })
        → iuctl_server_addr ipc pids format client nid s dir q
          ≡ goes_on (set_node_addr nid a s) dir (msgrcv client q).1
    unfolding iuctl_server_addr
    iuctl_server_addr-addr client nid a q e =
        ap
          (λ o. elim o [
            | none ↦ Control.waits
            | some msg ↦ elim msg.text [
              | addr a ↦ goes_on (set_node_addr nid a s) dir (msgrcv client q).1
              | _ ↦ Control.faults
            ]
          ])
          e

  -- A server and iuctl, and no message for either of them yet.
  module _ (server client : ℕ) (q : Q) (format : (nid loc : ℕ) → Addr → List ℕ) (sys : System)
      (s : Net) (dir : Directory) (n : client ≢ server) (hs : first_of server (pending q) ≡ none)
      (hc : first_of client (pending q) ≡ none) where
    abbrev serves : Pids
    serves = record { self_pid = server; server_pid = 0 }

    abbrev asks : Pids
    asks = record { self_pid = client; server_pid = server }

    -- If iuctl and the server are two programs and no message waits for either, then the server
    -- takes over the address that iuctl sends for the node, and both messages are gone.
    pub handle_iuctls-addr_iuctl :
        (nid : ℕ) (a : Addr)
        → (q' : Q) × (handle_iuctls ipc serves format sys s dir (addr_iuctl ipc asks nid a q)
            ≡ goes_on (set_node_addr nid a s) dir q')
          × (pending q' ≡ pending q)
    unfolding serve_iuctl addr_iuctl init_iuctl_msg
    handle_iuctls-addr_iuctl nid a =
        let m : IuctlMsg = record { mtype = server; text = mtext client CtlType.learn_addr nid } in
        let m' : IuctlMsg = record { mtype = client; text = addr a } in
        let q' : Q = msgsnd m' (msgsnd m q) in
        let e : pending q' ≡ pending q ++ m ∷ m' ∷ [] =
          ipc.pending-msgsnd m' (msgsnd m q)
          ∙ ap (λ l. l ++ m' ∷ []) (ipc.pending-msgsnd m q)
          ∙ append_assoc (pending q) (m ∷ []) (m' ∷ []) in
        let (f, g) = takes server q' (pending q) (m' ∷ []) m e hs refl in
        let (f', g') = takes client (msgrcv server q').1 (pending q) [] m' g hc refl in
        (
          (msgrcv client (msgrcv server q').1).1,
          handle_iuctls-serve serves format sys s dir q' m f
              ∙ iuctl_server_addr-addr serves format sys s dir client nid a (msgrcv server q').1 f',
          g' ∙ append-nil (pending q),
        )

    -- A request to shut the server down.
    pub handle_iuctls-shutdown_iuctl :
        handle_iuctls ipc serves format sys s dir (shutdown_iuctl ipc asks q)
        ≡ elim (iuctl_server_shutdown sys s) [
          | none ↦ Control.dies
          | some (sys', s') ↦ shuts_down sys' s'
        ]
    unfolding serve_iuctl shutdown_iuctl init_iuctl_msg
    handle_iuctls-shutdown_iuctl =
        let m : IuctlMsg = record { mtype = server; text = mtext client CtlType.shutdownreq 0 } in
        let (f, g) = takes server (msgsnd m q) (pending q) [] m (ipc.pending-msgsnd m q) hs refl in
        handle_iuctls-serve serves format sys s dir (msgsnd m q) m f

    pending-two :
        (m m' : IuctlMsg) (r : Q)
        → pending r ≡ pending q
        → pending (msgsnd m' (msgsnd m r)) ≡ pending q ++ m ∷ m' ∷ []
    pending-two m m' r e =
        ipc.pending-msgsnd m' (msgsnd m r)
        ∙ ap (λ l. l ++ m' ∷ []) (ipc.pending-msgsnd m r ∙ ap (λ l. l ++ m ∷ []) e)
        ∙ append_assoc (pending q) (m ∷ []) (m' ∷ [])

    -- What iuctl reads of two messages to it.
    net_reply-two :
        (m m' : IuctlMsg) (r : Q)
        → pending r ≡ pending q ++ m ∷ m' ∷ []
        → m.mtype ≡ client
        → m'.mtype ≡ client
        → ((net_reply ipc asks r).0 ≡ value_of ipc asks (some m))
          × ((net_reply ipc asks r).1 ≡ string_of ipc asks (some m'))
          × (pending (net_reply ipc asks r).2 ≡ pending q)
    unfolding net_reply
    net_reply-two m m' r e k k' =
        let (f, g) = takes client r (pending q) (m' ∷ []) m e hc k in
        let (f', g') = takes client (msgrcv client r).1 (pending q) [] m' g hc k' in
        (ap (value_of ipc asks) f, ap (string_of ipc asks) f', g' ∙ append-nil (pending q))

    serve_net-some :
        (r : Q) (text : List ℕ) (dir' : Directory)
        → net_addresses format s dir ≡ some (text, dir')
        → serve_net ipc serves format client s dir r
          ≡ goes_on s dir' (iuctl_server_net ipc serves client text r)
    unfolding serve_net
    serve_net-some r text dir' e =
        ap
          (λ o. elim o [
            | none ↦ Control.faults
            | some (t, d) ↦ goes_on s d (iuctl_server_net ipc serves client t r)
          ])
          e

    -- If iuctl and the server are two programs and no message waits for either, then iuctl prints, on
    -- a request for the addresses, a line for every node whose address the server has, in the order
    -- of its map, each with the node, its recorded location and its address, and a null byte; before
    -- it the length of the message. The lines must fit into 50 bytes for each node. All messages are
    -- gone then, and the server's network and the recorded locations are as they were.
    pub net_reply-handle_iuctls :
        length (listing format s.addresses dir) < 50 * length s.addresses
        → (q' : Q) × (dir' : Directory) × (handle_iuctls ipc serves format sys s dir
              (net_request ipc asks q)
            ≡ goes_on s dir' q')
          × ((net_reply ipc asks q').0
              ≡ some (length (listing format s.addresses dir ++ 0 ∷ []) + 8))
          × ((net_reply ipc asks q').1 ≡ some (listing format s.addresses dir ++ 0 ∷ []))
          × (pending (net_reply ipc asks q').2 ≡ pending q)
          × ((k : ℕ) → location_of k dir' ≡ location_of k dir)
    unfolding serve_iuctl net_request init_iuctl_msg iuctl_server_net value_of string_of
    net_reply-handle_iuctls fits =
        let text : List ℕ = listing format s.addresses dir ++ 0 ∷ [] in
        let (dir', e, same) = net_addresses-listing format s dir fits in
        let m : IuctlMsg = record { mtype = server; text = mtext client CtlType.netreq 0 } in
        let (f, g) = takes server (msgsnd m q) (pending q) [] m (ipc.pending-msgsnd m q) hs refl in
        let r : Q = (msgrcv server (msgsnd m q)).1 in
        let c : IuctlMsg = record {
          mtype = client;
          text = mtext server CtlType.learn_addr (length text + 8);
        } in
        let d : IuctlMsg = record { mtype = client; text = stext text } in
        let (x, y, z) =
          net_reply-two c d (msgsnd d (msgsnd c r)) (pending-two c d r (g ∙ append-nil (pending q)))
            refl refl in
        (
          msgsnd d (msgsnd c r),
          dir',
          handle_iuctls-serve serves format sys s dir (msgsnd m q) m f
              ∙ serve_net-some r text dir' e,
          x,
          y,
          z,
          same,
        )
