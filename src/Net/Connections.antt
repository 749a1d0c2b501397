-- ===== src/Net/Connections.antt =====
-- The maps of the network in agreement.
use iu.Prelude.{ℕ, ◌≡◌, ◌≢◌, none, some}
use iu.Prelude.Map.{find}
use iu.Net.{Net}

-- A node with a connection has the descriptor's entry and a queue.
pub record IsConnected (s : Net) : Type 0 where
  pub linked : (nid fd : ℕ) → find nid s.connections ≡ some fd → find fd s.nids ≡ some nid
  pub queued : (nid fd : ℕ) → find nid s.connections ≡ some fd → find nid s.send_qs ≢ none
