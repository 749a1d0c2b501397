-- ===== src/Control/Failing.antt =====
-- src/iuctl.cpp: `send_iuctl` and `recv_iuctl` with the errors of the system's queue, and the calls
-- of iuctl that wait for an answer.
use iu.Prelude.{
  ℕ, zero, suc, ◌≡◌, refl, ap, ◌∙◌, Bool, true, false, Option, none, some, List, [], ◌∷◌,
  if◌then◌else◌,
}
use iu.Control.{statusreq, netreq, IuctlMsg, Ipc, Pids, idle, request, value_of, string_of}

-- What `msgrcv` comes to: a message, `EAGAIN` or `ENOMSG`, or another error.
pub data Queried : Type 0 where
  got : IuctlMsg → Queried
  no_message fails : Queried

-- Whether the result is 0, and the buffer, which an error leaves as it was.
unfoldable pub recv_iuctl : Queried → IuctlMsg → Bool × IuctlMsg
recv_iuctl (got m) buf = (true, m)
recv_iuctl no_message buf = (false, buf)
recv_iuctl fails buf = (true, buf)

-- `while (recv_iuctl(...) != 0)`: the buffer and the answers that are left, or `none` if there is
-- no end.
unfoldable pub wait_iuctl : List Queried → IuctlMsg → Option (IuctlMsg × List Queried)
unfolding recv_iuctl
wait_iuctl [] buf = none
wait_iuctl (a ∷ answers) buf =
    let (success, buf') = recv_iuctl a buf in
    let rest = wait_iuctl answers buf' in if success then some (buf', answers) else rest

module _ {Q : Type 0} (ipc : Ipc Q) (pids : Pids) where
  open ipc use {msgsnd}

  -- An error of `msgsnd` is only reported.
  unfoldable pub send_iuctl : (success : Bool) → IuctlMsg → Q → Q
  send_iuctl success m q = if success then msgsnd m q else q

  -- What a buffer makes iuctl print, if there is an end.
  abbrev status_of : Option (IuctlMsg × List Queried) → Option (Option ℕ)
  status_of none = none
  status_of (some (msg, rest)) = some (value_of ipc pids (some msg))

  abbrev text_of : Option (IuctlMsg × List Queried) → Option (Option (List ℕ))
  text_of none = none
  text_of (some (msg, rest)) = some (string_of ipc pids (some msg))

  abbrev then_text : IuctlMsg → Option (IuctlMsg × List Queried) → Option (Option (List ℕ))
  then_text junk none = none
  then_text junk (some (msg, rest)) = text_of (wait_iuctl rest junk)

  -- What is printed, and the queue; the request is the buffer for the answer.
  unfoldable pub status_iuctl : Bool → List Queried → Q → Option (Option ℕ) × Q
  unfolding wait_iuctl send_iuctl
  status_iuctl success answers q =
      let msg = request pids statusreq 0 in
      (status_of (wait_iuctl answers msg), send_iuctl success msg q)

  -- The text that is printed, behind the length; `junk` is what the memory for it held.
  unfoldable pub net_iuctl : Bool → List Queried → IuctlMsg → Q → Option (Option (List ℕ)) × Q
  unfolding wait_iuctl send_iuctl
  net_iuctl success answers junk q =
      let msg = request pids netreq 0 in
      (then_text junk (wait_iuctl answers msg), send_iuctl success msg q)

  -- This many rounds without a message, and then these answers.
  abbrev pub quiet : ℕ → List Queried → List Queried
  quiet zero answers = answers
  quiet (suc n) answers = no_message ∷ quiet n answers

  wait_iuctl-quiet :
      (n : ℕ) (answers : List Queried) (buf : IuctlMsg)
      → wait_iuctl (quiet n answers) buf ≡ wait_iuctl answers buf
  unfolding wait_iuctl recv_iuctl
  wait_iuctl-quiet zero answers buf = refl
  wait_iuctl-quiet (suc n) answers buf = wait_iuctl-quiet n answers buf

  status_iuctl_lem :
      (n : ℕ) (answers : List Queried) (buf : IuctlMsg)
      → status_of (wait_iuctl (quiet n answers) buf) ≡ status_of (wait_iuctl answers buf)
  status_iuctl_lem n answers buf = ap status_of (wait_iuctl-quiet n answers buf)

  net_iuctl_lem :
      (n k : ℕ) (m : IuctlMsg) (answers : List Queried) (junk buf : IuctlMsg)
      → then_text junk (wait_iuctl (quiet n (got m ∷ quiet k answers)) buf)
        ≡ text_of (wait_iuctl answers junk)
  unfolding wait_iuctl recv_iuctl
  net_iuctl_lem n k m answers junk buf =
      ap (then_text junk) (wait_iuctl-quiet n (got m ∷ quiet k answers) buf)
      ∙ ap text_of (wait_iuctl-quiet k answers junk)

  net_iuctl-fails :
      (n k : ℕ) (answers : List Queried) (junk buf : IuctlMsg)
      → then_text junk (wait_iuctl (quiet n (fails ∷ quiet k answers)) buf)
        ≡ text_of (wait_iuctl answers junk)
  unfolding wait_iuctl recv_iuctl
  net_iuctl-fails n k answers junk buf =
      ap (then_text junk) (wait_iuctl-quiet n (fails ∷ quiet k answers) buf)
      ∙ ap text_of (wait_iuctl-quiet k answers junk)

  pub status_iuctl-net_iuctl :
      (n k : ℕ) (m m' junk : IuctlMsg) (success : Bool) (rest : List Queried) (q : Q)
      → ((status_iuctl success (quiet n (got m ∷ rest)) q).0 ≡ some (value_of ipc pids (some m)))
        × ((status_iuctl success (quiet n (fails ∷ rest)) q).0 ≡ some (some idle))
        × ((status_iuctl success (quiet n []) q).0 ≡ none)
        × ((net_iuctl success (quiet n (got m ∷ quiet k (got m' ∷ rest))) junk q).0
            ≡ some (string_of ipc pids (some m')))
        × ((net_iuctl success (quiet n (got m ∷ quiet k (fails ∷ rest))) junk q).0
            ≡ some (string_of ipc pids (some junk)))
        × ((net_iuctl success (quiet n (got m ∷ quiet k [])) junk q).0 ≡ none)
        × ((net_iuctl success (quiet n (fails ∷ quiet k (got m' ∷ rest))) junk q).0
            ≡ some (string_of ipc pids (some m')))
        × ((net_iuctl success (quiet n (fails ∷ quiet k (fails ∷ rest))) junk q).0
            ≡ some (string_of ipc pids (some junk)))
        × ((net_iuctl success (quiet n (fails ∷ quiet k [])) junk q).0 ≡ none)
        × ((net_iuctl success (quiet n []) junk q).0 ≡ none)
  unfolding status_iuctl net_iuctl wait_iuctl recv_iuctl value_of iu.Control.init_iuctl_msg
  status_iuctl-net_iuctl n k m m' junk success rest q =
      let buf = request pids statusreq 0 in
      let buf' = request pids netreq 0 in
      (
        status_iuctl_lem n (got m ∷ rest) buf,
        status_iuctl_lem n (fails ∷ rest) buf,
        status_iuctl_lem n [] buf,
        net_iuctl_lem n k m (got m' ∷ rest) junk buf',
        net_iuctl_lem n k m (fails ∷ rest) junk buf',
        net_iuctl_lem n k m [] junk buf',
        net_iuctl-fails n k (got m' ∷ rest) junk buf',
        net_iuctl-fails n k (fails ∷ rest) junk buf',
        net_iuctl-fails n k [] junk buf',
        ap (then_text junk) (wait_iuctl-quiet n [] buf'),
      )
