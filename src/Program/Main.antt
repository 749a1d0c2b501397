-- ===== src/Program/Main.antt =====
-- iuserver.cpp, iuclient.cpp, and the start and end of a server in src/iuctl_server.cpp: what stands
-- before and behind the main loops.
use iu.Prelude.{
  Bool, ℕ, ◌≡◌, refl, ap, true, false, Option, none, some, List, [], ◌∷◌, ◌==◌, ◌||◌, if◌then◌else◌,
  ◌<◌, arith, ltb,
}
use iu.Prelude.Text.{decimal}
use iu.Msg.{Addr}
use iu.Datacenters.{Directory}
use iu.Net.{Net, shutdown_server}
use iu.Dispatch.{init_node}
use iu.Control.{System, iuctl_server_shutdown}
use iu.Control.Startup.{init_iuctl, Joins, dies, join_iuctl}
use iu.Control.Command.{einval}

abbrev pub sigint : ℕ
sigint = 2

abbrev pub sigterm : ℕ
sigterm = 15

-- The usage and the exit code, a failing call, or the state in which the main loop begins.
pub data Started (A : Type 0) : Type 0 where
  usage : (code : ℕ) → Started A
  stops : Started A
  starts : A → Started A

-- `atoll`, and what a node gets from the system: the socket and its name.
module _ (atoll : List ℕ → ℕ) (fd : ℕ) (addr : Addr) where
  unfoldable pub client_main : List (List ℕ) → Directory × Net → Started (Directory × Net)
  unfolding init_node
  client_main (name ∷ nid ∷ loc ∷ rest) state =
      starts (init_node fd addr (atoll nid) (atoll loc) state)
  client_main (name ∷ nid ∷ []) state = usage einval
  client_main (name ∷ []) state = usage einval
  client_main [] state = usage einval

  -- `init_iuctl_server` comes first.
  unfoldable pub start_server :
      (opens : Bool) (pid : ℕ) (nid loc : List ℕ)
      → System
      → Directory × Net
      → Started (System × (Directory × Net))
  unfolding init_iuctl init_node
  start_server opens pid nid loc sys state = elim (init_iuctl opens pid sys) [
    | none ↦ stops
    | some sys' ↦ starts (sys', init_node fd addr (atoll nid) (atoll loc) state)
  ]

  unfoldable pub server_main :
      (opens : Bool) (pid : ℕ)
      → List (List ℕ)
      → System
      → Directory × Net
      → Started (System × (Directory × Net))
  unfolding start_server
  server_main opens pid (name ∷ nid ∷ loc ∷ rest) sys state =
      start_server opens pid nid loc sys state
  server_main opens pid (name ∷ nid ∷ []) sys state = usage einval
  server_main opens pid (name ∷ []) sys state = usage einval
  server_main opens pid [] sys state = usage einval

-- What a signal leaves of a process that goes on, or ends.
pub data Signalled : Type 0 where
  goes_on : Signalled
  ends : Option (System × Net) → Signalled

unfoldable pub iuctl_handler : ℕ → System → Net → Signalled
unfolding iuctl_server_shutdown
iuctl_handler signal sys s =
    if signal == sigint || signal == sigterm then ends (iuctl_server_shutdown sys s) else goes_on

abbrev pub stopped : System
stopped = record { path = none; queue = false }

opened :
    (pid : ℕ) (sys : System)
    → 0 < pid
    → init_iuctl true pid sys ≡ some (record { path = some (decimal pid); queue = true })
unfolding init_iuctl
opened pid sys h = let e : ltb 0 pid ≡ true = ground arith in rw e refl

module _ (atoll : List ℕ → ℕ) (fd : ℕ) (addr : Addr) where
  -- If the file can be opened, a server that is started with its node and location begins its main
  -- loop. Whatever its network has become, SIGINT or SIGTERM then removes the queue and the file and
  -- closes what `shutdown_server` closes, and no iuctl joins any more.
  pub iuctl_handler-server_main :
      (pid : ℕ) (name nid loc : List ℕ) (rest : List (List ℕ)) (sys : System)
      (state : Directory × Net) (signal : ℕ) (s : Net)
      → 0 < pid
      → (signal == sigint || signal == sigterm) ≡ true
      → (sys' : System) × (server_main atoll fd addr true pid (name ∷ nid ∷ loc ∷ rest) sys state
          ≡ starts (sys', init_node fd addr (atoll nid) (atoll loc) state))
        × (iuctl_handler signal sys' s ≡ ends (some (stopped, shutdown_server s)))
        × ((got : Joins) → join_iuctl got stopped ≡ dies)
  unfolding server_main iuctl_handler join_iuctl
  iuctl_handler-server_main pid name nid loc rest sys state signal s h k = (
    record { path = some (decimal pid); queue = true },
    ap
        (λ o. elim o [
          | none ↦ stops
          | some sys' ↦ starts (sys', init_node fd addr (atoll nid) (atoll loc) state)
        ])
        (opened pid sys h),
    rw k refl,
    λ got. refl,
  )
