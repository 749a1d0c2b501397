-- ===== src/Dispatch/Suspension.antt =====
-- The source of a file is not polled while its file is received.
use iu.Prelude.{ℕ, suc, ◌≡◌, refl, some, [], ◌∷◌, ◌++◌}
use iu.Prelude.Map.{find, at_or}
use iu.Net.{Net, msg_source, prune_poll_fds}
use iu.Net.Suspending.{polled, without_first, net_resume-prune_poll_fds-net_suspend}
use iu.Dispatch.{recv_file, recv_file_finisher}

-- If the last message came from a node whose connection has a descriptor above 0: `recv_file` names
-- that node as the source, and takes the first entry of its descriptor, if there is one, and no
-- other, out of what is polled, once the entries are pruned; and the finisher puts the descriptor
-- behind all that is left.
pub recv_file_finisher-recv_file :
    (nid fd : ℕ) (s : Net)
    → find s.last_fd s.nids ≡ some nid
    → find nid s.connections ≡ some (suc fd)
    → ((recv_file s).0 ≡ nid)
      × (polled (prune_poll_fds (recv_file s).1).pollfds
          ≡ without_first (suc fd) (polled s.pollfds))
      × (polled (recv_file_finisher nid (prune_poll_fds (recv_file s).1)).pollfds
          ≡ without_first (suc fd) (polled s.pollfds) ++ suc fd ∷ [])
unfolding recv_file recv_file_finisher msg_source at_or
recv_file_finisher-recv_file nid fd s h c =
    let (a, b) = net_resume-prune_poll_fds-net_suspend nid fd (msg_source s).1 c in
    rw h (refl, a, b)
