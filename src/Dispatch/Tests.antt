-- ===== src/Dispatch/Tests.antt =====
-- The theorems on dispatch at concrete messages.
use iu.Prelude.{◌≡◌, refl, [], ◌∷◌, ◌++◌}
use iu.Prelude.Map.{find}
use iu.Concat.{empty_stream}
use iu.Net.{pos, no_events, Net}
use iu.Net.{prune_poll_fds}
use iu.Net.Suspending.{polled, without_first}
use iu.Dispatch.Suspension.{recv_file_finisher-recv_file}
use iu.Dispatch.{recv_file, recv_file_finisher}

-- The server 9 listens at descriptor 3; clients 7 and 42 are connected at 4 and 5.
abbrev relay : Net
relay = record {
  server_fd = 3;
  pollfds =
      record { fd = pos 3; revents = no_events }
      ∷ record { fd = pos 4; revents = no_events }
      ∷ record { fd = pos 5; revents = no_events }
      ∷ [];
  start = 2;
  addresses = (7, 1 ∷ []) ∷ (9, 2 ∷ []) ∷ (42, 3 ∷ []) ∷ [];
  nids = (4, 7) ∷ (5, 42) ∷ [];
  connections = (7, 4) ∷ (42, 5) ∷ [];
  send_qs = (7, empty_stream) ∷ (42, empty_stream) ∷ [];
  last_fd = 5;
  events = [];
}

-- Client 42, at descriptor 5, sends a file.
recv_file_finisher-recv_file_example :
    ((recv_file relay).0 ≡ 42)
    × (polled (prune_poll_fds (recv_file relay).1).pollfds ≡ without_first 5 (3 ∷ 4 ∷ 5 ∷ []))
    × (polled (recv_file_finisher 42 (prune_poll_fds (recv_file relay).1)).pollfds
        ≡ without_first 5 (3 ∷ 4 ∷ 5 ∷ []) ++ 5 ∷ [])
unfolding find
recv_file_finisher-recv_file_example = recv_file_finisher-recv_file 42 4 relay refl refl
