-- ===== src/Datacenters/Tests.antt =====
-- The theorems on the directory at concrete inputs, and runs of the functions.
use iu.Prelude.{◌≡◌, refl, List, [], ◌∷◌}
use iu.Prelude.Map.{find, assign, at_or, emplace, contains, insert, remove}
use iu.Datacenters.{
  Directory, initial, client, us_east, us_west, members, add_member, erase_member,
  set_node_location, get_node_location, get_nodes_in, get_server, Call, sets, locates, lists, step,
  run,
}
use iu.Datacenters.Location.{IsConsistent, run-initial-IsConsistent}
use iu.Datacenters.Server.{Chosen, get_server-Chosen}

-- Node 7 is a client that moves; 3 and 9 are servers; 5 was only asked for.
abbrev calls : List Call
calls = sets 9 us_west ∷ sets 7 us_east ∷ locates 5 ∷ sets 3 us_west ∷ sets 7 client ∷ lists 0 ∷ []

-- Unfolding this unfolds all that a run computes with.
evaluate : Directory → List Call → Directory
unfolding run step set_node_location get_node_location get_nodes_in get_server members add_member
    erase_member find assign at_or emplace insert remove contains
evaluate = run

members-us_west : members us_west (run initial calls) ≡ 3 ∷ 9 ∷ []
unfolding evaluate
members-us_west = refl

get_server_client : get_server (run initial calls) ≡ 7
unfolding evaluate
get_server_client = refl

run-initial-IsConsistent_example : IsConsistent (run initial calls)
run-initial-IsConsistent_example = run-initial-IsConsistent calls

get_server-Chosen_example : Chosen (run initial calls) (get_server (run initial calls))
get_server-Chosen_example = get_server-Chosen calls
