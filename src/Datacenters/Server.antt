-- ===== src/Datacenters/Server.antt =====
-- Which node `getServer` chooses.
use iu.Prelude.{
  ℕ, ◌≤◌, ◌<◌, ◌≡◌, refl, ◌⊎◌, inl, inr, true, some, List, [], ◌∷◌, arith, Option-cases,
}
use iu.Prelude.Map.{
  Map, Set, find, emplace, at_or, or_else, contains, insert, remove, find-assign, Above, IsOrdered,
  Above-IsOrdered, IsOrdered-assign, find_below, IsAscending, IsAscending-insert,
  IsAscending-remove, AboveSet-contains,
}
use iu.Datacenters.Location.{IsConsistent, run-initial-IsConsistent}
use iu.Datacenters.{
  Directory, initial, members, set_node_location, get_node_location, get_nodes_in, get_server,
  first_member, no_server, Located, Call, sets, locates, lists, step, run, add_member, erase_member,
  set_location,
}

-- Both containers are in the order in which their iterators go.
pub record IsSorted (s : Directory) : Type 0 where
  pub ordered : IsOrdered s.datacenters
  pub ascending : (d : ℕ) → IsAscending (members d s)

add_member-IsSorted : (nid loc : ℕ) {s : Directory} → IsSorted s → IsSorted (add_member nid loc s)
unfolding add_member members at_or
add_member-IsSorted nid loc {s} h = record {
  ordered = IsOrdered-assign loc _ s.datacenters h.ordered;
  ascending = λ d. ground (
    arith,
    find-assign loc d (insert nid (members loc s)) s.datacenters,
    h.ascending d,
    IsAscending-insert nid (members loc s) (h.ascending loc),
  );
}

erase_member-IsSorted :
    (nid loc : ℕ) {s : Directory} → IsSorted s → IsSorted (erase_member nid loc s)
unfolding erase_member members at_or
erase_member-IsSorted nid loc {s} h = record {
  ordered = IsOrdered-assign loc _ s.datacenters h.ordered;
  ascending = λ d. ground (
    arith,
    find-assign loc d (remove nid (members loc s)) s.datacenters,
    h.ascending d,
    IsAscending-remove nid (members loc s) (h.ascending loc),
  );
}

set_location-IsSorted :
    (nid loc : ℕ) {s : Directory} → IsSorted s → IsSorted (set_location nid loc s)
unfolding set_location members
set_location-IsSorted nid loc h = record { ordered = h.ordered; ascending = h.ascending }

set_node_location-IsSorted :
    (nid loc : ℕ) (s : Directory) → IsSorted s → IsSorted (set_node_location nid loc s)
set_node_location-IsSorted nid loc s h = elim (Option-cases (find nid s.nodes)) [
  | inl e ↦
      unfold set_node_location in
      rw (e, set_node_location) (add_member-IsSorted nid loc (set_location-IsSorted nid loc h))
  | inr (prev, e) ↦
      unfold set_node_location in
      rw (e, set_node_location)
        (add_member-IsSorted nid loc
          (set_location-IsSorted nid loc (erase_member-IsSorted nid prev h)))
]

get_nodes_in-IsSorted : (loc : ℕ) (s : Directory) → IsSorted s → IsSorted (get_nodes_in loc s).1
unfolding get_nodes_in emplace members at_or
get_nodes_in-IsSorted loc s h = record {
  ordered = ground (arith, IsOrdered-assign loc [] s.datacenters h.ordered);
  ascending = λ d. ground (arith, find-assign loc d [] s.datacenters, h.ascending d);
}

step-IsSorted : (s : Directory) (c : Call) → IsSorted s → IsSorted (step s c)
unfolding step
step-IsSorted s (sets nid loc) h = set_node_location-IsSorted nid loc s h
step-IsSorted s (locates nid) h =
    unfold get_node_location members in record { ordered = h.ordered; ascending = h.ascending }
step-IsSorted s (lists loc) h = get_nodes_in-IsSorted loc s h

pub run-IsSorted : (s : Directory) (cs : List Call) → IsSorted s → IsSorted (run s cs)
unfolding run
run-IsSorted s [] h = h
run-IsSorted s (c ∷ cs) h = run-IsSorted (step s c) cs (step-IsSorted s c h)

initial-IsSorted : IsSorted initial
unfolding members at_or find
initial-IsSorted = record { ordered = tt; ascending = λ d. tt }

-- No node is before `n` of datacenter `d` in the order of the datacenters, and of the nodes.
abbrev pub IsFirst : Map Set → ℕ → ℕ → Type 0
IsFirst m n d =
    (contains n (or_else [] (find d m)) ≡ true)
    × ((k e : ℕ) → contains k (or_else [] (find e m)) ≡ true → (d < e) ⊎ ((d ≡ e) × (n ≤ k)))

abbrev pub IsEmpty : Map Set → Type 0
IsEmpty m = (e : ℕ) → or_else [] (find e m) ≡ []

abbrev pub IsChoice : Map Set → ℕ → Type 0
IsChoice m n = (IsEmpty m × (n ≡ no_server)) ⊎ ((d : ℕ) × IsFirst m n d)

first_member-skip :
    (loc : ℕ) (m : Map Set)
    → Above loc m
    → IsChoice m (first_member m)
    → IsChoice ((loc, []) ∷ m) (first_member m)
unfolding find contains
first_member-skip loc m o (inl (h, e)) = inl (λ d. ground (arith, h d), e)
first_member-skip loc m o (inr (d, (h, least))) =
    inr (d, (ground (arith, find_below loc d m o), λ k e c. ground (arith, least k e)))

first_member-take :
    (loc nid : ℕ) (s : Set) (m : Map Set)
    → Above loc m
    → IsAscending (nid ∷ s)
    → IsChoice ((loc, nid ∷ s) ∷ m) nid
unfolding find contains
first_member-take loc nid s m o a = inr (
  loc,
  (ground arith, λ k e c. ground (arith, AboveSet-contains nid k s a, find_below loc e m o)),
)

head-IsAscending :
    (loc : ℕ) (s : Set) (m : Map Set)
    → ((e : ℕ) → IsAscending (or_else [] (find e ((loc, s) ∷ m))))
    → IsAscending s
unfolding find
head-IsAscending loc s m a = ground (arith, a loc)

tail-IsAscending :
    (loc : ℕ) (s : Set) (m : Map Set)
    → Above loc m
    → ((e : ℕ) → IsAscending (or_else [] (find e ((loc, s) ∷ m))))
    → (e : ℕ) → IsAscending (or_else [] (find e m))
unfolding find
tail-IsAscending loc s m o a e = ground (arith, a e, find_below loc e m o)

first_member-IsChoice :
    (m : Map Set)
    → IsOrdered m
    → ((e : ℕ) → IsAscending (or_else [] (find e m)))
    → IsChoice m (first_member m)
unfolding first_member find
first_member-IsChoice [] o a = inl (λ e. refl, refl)
first_member-IsChoice ((loc, []) ∷ m) o a =
    first_member-skip loc m o
      (first_member-IsChoice m (Above-IsOrdered loc m o) (tail-IsAscending loc [] m o a))
first_member-IsChoice ((loc, nid ∷ s) ∷ m) o a =
    first_member-take loc nid s m o (head-IsAscending loc (nid ∷ s) m a)

-- What `get_server` returns, given the records of a consistent directory: `(nid_t) -1` if no node
-- has a place, else a node in a datacenter that is on record for it, no other datacenter with a
-- node being before that one, and no other node of that one being before the node.
abbrev pub Chosen : Directory → ℕ → Type 0
Chosen s n =
    (((k e : ℕ) → ¬ Located s k e) × (n ≡ no_server))
    ⊎ ((d : ℕ) × (find n s.nodes ≡ some d)
        × Located s n d
        × ((k e : ℕ) → Located s k e → (d < e) ⊎ ((d ≡ e) × (n ≤ k))))

choice-Chosen : (s : Directory) (n : ℕ) → IsConsistent s → IsChoice s.datacenters n → Chosen s n
unfolding members at_or
choice-Chosen s n c (inl (h, e)) = inl (λ k d l. unfold contains in ground (arith, h d), e)
choice-Chosen s n c (inr (d, (h, least))) = inr (d, c.sound n d h, h, least)

-- After any calls: if no node is in a set, `get_server` returns `(nid_t) -1`. If one is, it returns
-- the least node of the least datacenter that has one, which is the datacenter on record for it.
pub get_server-Chosen : (cs : List Call) → Chosen (run initial cs) (get_server (run initial cs))
unfolding get_server members at_or
get_server-Chosen cs =
    let sorted = run-IsSorted initial cs initial-IsSorted in
    choice-Chosen (run initial cs) _ (run-initial-IsConsistent cs)
      (first_member-IsChoice (run initial cs).datacenters sorted.ordered sorted.ascending)

-- Whenever a node stands in the set of a datacenter, `get_server` returns a node whose recorded
-- datacenter is not after that one: a client on record hides every server.
pub get_server_prefers_clients :
    (cs : List Call) (n d : ℕ)
    → Located (run initial cs) n d
    → (e : ℕ) × (find (get_server (run initial cs)) (run initial cs).nodes ≡ some e) × (e ≤ d)
get_server_prefers_clients cs n d l = elim (get_server-Chosen cs) [
  | inl (h, e) ↦ absurd (h n d l)
  | inr (e, r, h, least) ↦ (e, r, ground (arith, least n d l))
]
