-- ===== src/Control/Startup.antt =====
-- src/iuctl.cpp: how a server and iuctl find each other, by a file that holds the server's pid in
-- decimal digits. `dies` is the end of the process, by a failing call or assertion.
pub mod Joining
use iu.Prelude.{
  ℕ, zero, suc, ◌+◌, ◌-◌, ◌*◌, ◌/◌, ◌%◌, Bool, true, false, ◌&&◌, ◌||◌, Option, none, some, List,
  [], ◌∷◌, ◌++◌, length, take, drop, ltb, leb, ◌==◌, if◌then◌else◌,
}
use iu.Prelude.Text.{decimal, read_digits}
use iu.Net.{ℤ, pos, negsuc, negate}
use iu.Control.{System, Pids}

abbrev pub is_space : ℕ → Bool
is_space c = c == 32 || (leb 9 c && leb c 13)

unfoldable pub read_sign : List ℕ → ℤ
read_sign [] = pos 0
read_sign (c ∷ cs) =
    if c == 45
    then negate (pos (read_digits 0 cs))
    else if c == 43
    then pos (read_digits 0 cs)
    else pos (read_digits 0 (c ∷ cs))

unfoldable pub atoi : List ℕ → ℤ
unfolding read_sign
atoi [] = pos 0
atoi (c ∷ cs) = let rest = atoi cs in if is_space c then rest else read_sign (c ∷ cs)

-- `init_iuctl` of a server, by whether `open` succeeds: the writing fails if it does not.
unfoldable pub init_iuctl : (opens : Bool) (pid : ℕ) → System → Option System
init_iuctl opens pid sys =
    if ltb 0 pid && opens then some (record { path = some (decimal pid); queue = true }) else none

-- What iuctl gets: `errno` if `open` fails, what the buffer held, `errno` of `kill` or 0, and its pid.
pub record Joins : Type 0 where
  pub open_fails : Option ℕ
  pub junk : List ℕ
  pub kill : ℕ → ℕ
  pub getpid : ℕ

pub data Joined : Type 0 where
  joins : Pids → Joined
  fails : (errno : ℕ) → Joined
  dies : Joined

abbrev pub buffer_size : ℕ
buffer_size = 32

-- The buffer after the read; no null byte is put behind the text.
unfoldable pub read_pid : Joins → List ℕ → List ℕ
read_pid got text =
    let n = if ltb buffer_size (length text) then buffer_size else length text in
    take n text ++ drop n got.junk

unfoldable pub join_server : Joins → ℕ → Joined
join_server got server_pid =
    if got.kill server_pid == 0
    then if ltb 0 got.getpid
      then joins (record { self_pid = got.getpid; server_pid = server_pid })
      else dies
    else fails (got.kill server_pid)

unfoldable pub join_iuctl : Joins → System → Joined
unfolding read_pid atoi join_server
join_iuctl got sys = elim sys.path [
  | none ↦ dies
  | some text ↦ elim got.open_fails [
    | some errno ↦ fails errno
    | none ↦ elim (atoi (read_pid got text)) [
      | pos server_pid ↦ if ltb 0 server_pid then join_server got server_pid else dies
      | negsuc n ↦ dies
    ]
  ]
]
