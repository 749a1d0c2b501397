-- ===== src/Control.antt =====
-- src/iuctl.cpp, src/iuctl_server.cpp and `net_addresses` of src/net.cpp: the requests of the program
-- iuctl and what a server answers. The queue of the system is an interface, where a call has no
-- other failure than that there is no message; Failing has the others. A call that loops until a
-- message is there is split before the loop, and `none` is a round without one.
pub mod Listing
pub mod Requests
pub mod Startup
pub mod Command
pub mod Failing
mod Tests
use iu.Prelude.{
  ℕ, ◌+◌, ◌*◌, ◌≡◌, Bool, true, false, Option, none, some, List, [], ◌∷◌, ◌++◌, length, ltb, ◌==◌,
  if◌then◌else◌,
}
use iu.Prelude.Map.{Map}
use iu.Msg.{Addr}
use iu.Datacenters.{Directory, get_node_location}
use iu.Net.{Net, set_node_addr, shutdown_server}

-- `enum ctl_t`; the values of the union behind it are numbers.
pub data CtlType : Type 0 where
  learn_addr statusreq status netreq shutdownreq : CtlType

abbrev pub idle : ℕ
idle = 0

-- The union in `iuctl_msg`.
pub data Text : Type 0 where
  mtext : (pid : ℕ) → CtlType → (value : ℕ) → Text
  stext : List ℕ → Text
  addr : Addr → Text

pub record IuctlMsg : Type 0 where
  pub mtype : ℕ
  pub text : Text

abbrev pub first_of : ℕ → List IuctlMsg → Option IuctlMsg
first_of t [] = none
first_of t (m ∷ ms) = let rest = first_of t ms in if m.mtype == t then some m else rest

abbrev pub without : ℕ → List IuctlMsg → List IuctlMsg
without t [] = []
without t (m ∷ ms) = let rest = without t ms in if m.mtype == t then ms else m ∷ rest

-- `msgsnd` and `msgrcv` with a type above 0, which takes the first message of that type.
pub record Ipc (Q : Type 0) : Type 0 where
  pub msgsnd : IuctlMsg → Q → Q
  pub msgrcv : ℕ → Q → Option IuctlMsg × Q
  pub pending : Q → List IuctlMsg
  pub pending-msgsnd : (m : IuctlMsg) (q : Q) → pending (msgsnd m q) ≡ pending q ++ m ∷ []
  pub msgrcv_first : (t : ℕ) (q : Q) → (msgrcv t q).0 ≡ first_of t (pending q)
  pub pending-msgrcv : (t : ℕ) (q : Q) → pending (msgrcv t q).1 ≡ without t (pending q)

-- `self_pid` and `server_pid`, which a server leaves 0.
pub record Pids : Type 0 where
  pub self_pid : ℕ
  pub server_pid : ℕ

unfoldable pub init_iuctl_msg : Pids → IuctlMsg
init_iuctl_msg pids = record { mtype = pids.server_pid; text = mtext pids.self_pid learn_addr 0 }

abbrev pub request : Pids → CtlType → ℕ → IuctlMsg
request pids ctype value = record (init_iuctl_msg pids) { text = mtext pids.self_pid ctype value }

-- The text of one node, as `Snprintf` and `inet_ntop` give it, is an argument.
module _ (format : (nid loc : ℕ) → Addr → List ℕ) where
  unfoldable pub net_lines : Map Addr → Directory → List ℕ × Directory
  net_lines [] dir = ([], dir)
  net_lines ((nid, a) ∷ m) dir =
      let (loc, dir') = get_node_location nid dir in
      let (rest, dir'') = net_lines m dir' in (format nid loc a ++ rest, dir'')

  -- The text and its null byte; `none` where they do not fit into 50 bytes for each node.
  unfoldable pub net_addresses : Net → Directory → Option (List ℕ × Directory)
  unfolding net_lines
  net_addresses s dir =
      let (text, dir') = net_lines s.addresses dir in
      if ltb (length text) (50 * length s.addresses) then some (text ++ 0 ∷ [], dir') else none

module _ {Q : Type 0} (ipc : Ipc Q) (pids : Pids) where
  open ipc use {msgsnd, msgrcv}

  -- The calls of iuctl.
  unfoldable pub shutdown_iuctl : Q → Q
  unfolding init_iuctl_msg
  shutdown_iuctl q = msgsnd (request pids shutdownreq 0) q

  unfoldable pub status_request : Q → Q
  unfolding init_iuctl_msg
  status_request q = msgsnd (request pids statusreq 0) q

  unfoldable pub net_request : Q → Q
  unfolding init_iuctl_msg
  net_request q = msgsnd (request pids netreq 0) q

  unfoldable pub addr_iuctl : ℕ → Addr → Q → Q
  unfolding init_iuctl_msg
  addr_iuctl nid a q =
      msgsnd (record { mtype = pids.self_pid; text = addr a })
        (msgsnd (request pids learn_addr nid) q)

  -- A message that is read as another member of the union than was written.
  unfoldable pub value_of : Option IuctlMsg → Option ℕ
  value_of none = none
  value_of (some m) = elim m.text [ mtext pid ctype value ↦ some value | _ ↦ none ]

  unfoldable pub string_of : Option IuctlMsg → Option (List ℕ)
  string_of none = none
  string_of (some m) = elim m.text [ stext str ↦ some str | _ ↦ none ]

  -- The status that is printed.
  unfoldable pub status_reply : Q → Option ℕ × Q
  unfolding value_of
  status_reply q = (value_of (msgrcv pids.self_pid q).0, (msgrcv pids.self_pid q).1)

  -- The length, and then the text that is printed.
  unfoldable pub net_reply : Q → Option ℕ × Option (List ℕ) × Q
  unfolding value_of string_of
  net_reply q =
      let (m, q') = msgrcv pids.self_pid q in
      let (n, q'') = msgrcv pids.self_pid q' in (value_of m, string_of n, q'')

  -- The answers of a server.
  unfoldable pub iuctl_server_status : ℕ → Q → Q
  unfolding init_iuctl_msg
  iuctl_server_status iuctl_pid q = msgsnd (record (init_iuctl_msg pids) { mtype = iuctl_pid }) q

  -- The length counts the 8 bytes of `mtype`.
  unfoldable pub iuctl_server_net : ℕ → List ℕ → Q → Q
  iuctl_server_net iuctl_pid net_status q =
      msgsnd (record { mtype = iuctl_pid; text = stext net_status })
        (msgsnd
          (record {
            mtype = iuctl_pid;
            text = mtext pids.self_pid learn_addr (length net_status + 8);
          })
          q)

-- The file at `QUEUE_PATH`, and whether the system has the queue of its key.
pub record System : Type 0 where
  pub path : Option (List ℕ)
  pub queue : Bool

-- `none` where `Unlink` ends the process, which it does if there is no file.
unfoldable pub destroy_iuctl : System → Option System
destroy_iuctl sys = elim sys.path [
  | none ↦ none
  | some text ↦ some (record { path = none; queue = false })
]

-- `iuctl_server_shutdown`: `none` where it ends before the descriptors are closed.
unfoldable pub iuctl_server_shutdown : System → Net → Option (System × Net)
unfolding destroy_iuctl shutdown_server
iuctl_server_shutdown sys s = elim (destroy_iuctl sys) [
  | none ↦ none
  | some sys' ↦ some (sys', shutdown_server s)
]

-- What `handle_iuctls` comes to; `dies` is the end of the process by a failing call.
pub data Control (Q : Type 0) : Type 0 where
  goes_on : Net → Directory → Q → Control Q
  shuts_down : System → Net → Control Q
  waits faults dies : Control Q

module _ {Q : Type 0} (ipc : Ipc Q) (pids : Pids) (format : (nid loc : ℕ) → Addr → List ℕ) where
  open ipc use {msgsnd, msgrcv}

  unfoldable pub iuctl_server_addr : ℕ → ℕ → Net → Directory → Q → Control Q
  unfolding set_node_addr
  iuctl_server_addr iuctl_pid nid s dir q =
      let (m, q') = msgrcv iuctl_pid q in
      elim m [
        | none ↦ waits
        | some msg ↦ elim msg.text [ addr a ↦ goes_on (set_node_addr nid a s) dir q' | _ ↦ faults ]
      ]

  unfoldable pub serve_net : ℕ → Net → Directory → Q → Control Q
  unfolding net_addresses iuctl_server_net
  serve_net iuctl_pid s dir q = elim (net_addresses format s dir) [
    | none ↦ faults
    | some (text, dir') ↦ goes_on s dir' (iuctl_server_net ipc pids iuctl_pid text q)
  ]

  -- The request in a message of the server.
  unfoldable pub serve_iuctl : System → Text → Net → Directory → Q → Control Q
  unfolding iuctl_server_addr serve_net iuctl_server_status iuctl_server_shutdown
  serve_iuctl sys (stext str) s dir q = faults
  serve_iuctl sys (addr a) s dir q = faults
  serve_iuctl sys (mtext pid learn_addr value) s dir q = iuctl_server_addr pid value s dir q
  serve_iuctl sys (mtext pid statusreq value) s dir q =
      goes_on s dir (iuctl_server_status ipc pids pid q)
  serve_iuctl sys (mtext pid status value) s dir q = goes_on s dir q
  serve_iuctl sys (mtext pid netreq value) s dir q = serve_net pid s dir q
  serve_iuctl sys (mtext pid shutdownreq value) s dir q = elim (iuctl_server_shutdown sys s) [
    | none ↦ dies
    | some (sys', s') ↦ shuts_down sys' s'
  ]

  unfoldable pub handle_iuctls : System → Net → Directory → Q → Control Q
  unfolding serve_iuctl
  handle_iuctls sys s dir q =
      let (m, q') = msgrcv pids.self_pid q in
      elim m [ none ↦ goes_on s dir q' | some msg ↦ serve_iuctl sys msg.text s dir q' ]
