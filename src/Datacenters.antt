-- ===== src/Datacenters.antt =====
-- include/datacenters.h, src/datacenters.cpp: which nodes are in which datacenter. Reading an entry
-- of a map by `operator[]` adds it, so the two getters return a new state as well.
pub mod Location
pub mod Server
mod Tests
use iu.Prelude.{ℕ, ◌-◌, ◌^◌, ◌≡◌, true, none, some, List, [], ◌∷◌}
use iu.Prelude.Map.{Map, Set, find, assign, emplace, at_or, contains, insert, remove}

-- The values of `enum datacenter`; a number that names no datacenter can be stored too.
abbrev pub unknown : ℕ
unknown = 0

abbrev pub client : ℕ
client = 1

abbrev pub us_east : ℕ
us_east = 2

abbrev pub us_west : ℕ
us_west = 3

pub record Directory : Type 0 where
  pub datacenters : Map Set
  pub nodes : Map ℕ

abbrev pub initial : Directory
initial = record { datacenters = []; nodes = [] }

-- `datacenters[loc]`, as a value.
pub members : ℕ → Directory → Set
unfolding at_or
members loc s = at_or [] loc s.datacenters

pub get_nodes_in : ℕ → Directory → Set × Directory
unfolding emplace
get_nodes_in loc s = (members loc s, record s { datacenters = emplace loc [] s.datacenters })

-- `datacenters[loc].emplace(nid)`.
add_member : ℕ → ℕ → Directory → Directory
add_member nid loc s = record s {
  datacenters = assign loc (insert nid (members loc s)) s.datacenters;
}

-- `datacenters[loc].erase(nid)`.
erase_member : ℕ → ℕ → Directory → Directory
erase_member nid loc s = record s {
  datacenters = assign loc (remove nid (members loc s)) s.datacenters;
}

set_location : ℕ → ℕ → Directory → Directory
set_location nid loc s = record s { nodes = assign nid loc s.nodes }

pub set_node_location : ℕ → ℕ → Directory → Directory
unfolding set_location
set_node_location nid loc s = elim (find nid s.nodes) [
  | none ↦ add_member nid loc (set_location nid loc s)
  | some prev ↦ add_member nid loc (set_location nid loc (erase_member nid prev s))
]

unfoldable pub get_node_location : ℕ → Directory → ℕ × Directory
unfolding at_or emplace
get_node_location nid s =
    (at_or unknown nid s.nodes, record s { nodes = emplace nid unknown s.nodes })

-- `(nid_t) -1`.
abbrev pub no_server : ℕ
no_server = 2 ^ 64 - 1

first_member : Map Set → ℕ
first_member [] = no_server
first_member ((loc, []) ∷ m) = first_member m
first_member ((loc, nid ∷ s) ∷ m) = nid

unfoldable pub get_server : Directory → ℕ
unfolding first_member
get_server s = first_member s.datacenters

-- The calls that change the directory.
pub data Call : Type 0 where
  sets : ℕ → ℕ → Call
  locates lists : ℕ → Call

pub step : Directory → Call → Directory
step s (sets nid loc) = set_node_location nid loc s
step s (locates nid) = (get_node_location nid s).1
step s (lists loc) = (get_nodes_in loc s).1

pub run : Directory → List Call → Directory
run s [] = s
run s (c ∷ cs) = run (step s c) cs

-- The node stands in the set of that datacenter.
abbrev pub Located : Directory → ℕ → ℕ → Type 0
Located s nid loc = contains nid (members loc s) ≡ true
