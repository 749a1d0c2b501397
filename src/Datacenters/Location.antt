-- ===== src/Datacenters/Location.antt =====
-- Every node is in the set of the datacenter that is on record for it, and in no other.
use iu.Prelude.{
  ℕ, ◌≡◌, refl, ◌≢◌, inl, inr, some, List, [], ◌∷◌, arith, ◌==◌, if◌then◌else◌, Option-cases, not,
  ◌||◌, ◌&&◌,
}
use iu.Prelude.Map.{
  find, emplace, at_or, or_else, contains, insert, remove, find-assign, contains-insert,
  contains-remove,
}
use iu.Datacenters.{
  Directory, initial, members, add_member, erase_member, set_location, set_node_location,
  get_node_location, get_nodes_in, Located, Call, sets, locates, lists, step, run, unknown,
}

-- A node of which only the location was asked is on record as unknown, and in no set.
pub record IsConsistent (s : Directory) : Type 0 where
  pub sound : (n d : ℕ) → Located s n d → find n s.nodes ≡ some d
  pub complete : (n d : ℕ) → find n s.nodes ≡ some d → d ≢ unknown → Located s n d

contains-add_member :
    (n d nid loc : ℕ) (s : Directory)
    → contains n (members d (add_member nid loc s))
      ≡ (((nid == n) && (loc == d)) || contains n (members d s))
unfolding add_member members at_or
contains-add_member n d nid loc s = ground (
  arith,
  find-assign loc d (insert nid (members loc s)) s.datacenters,
  contains-insert nid n (members loc s),
)

contains-erase_member :
    (n d nid loc : ℕ) (s : Directory)
    → contains n (members d (erase_member nid loc s))
      ≡ (not ((nid == n) && (loc == d)) && contains n (members d s))
unfolding erase_member members at_or
contains-erase_member n d nid loc s = ground (
  arith,
  find-assign loc d (remove nid (members loc s)) s.datacenters,
  contains-remove nid n (members loc s),
)

members-get_nodes_in : (loc d : ℕ) (s : Directory) → members d (get_nodes_in loc s).1 ≡ members d s
unfolding get_nodes_in members at_or emplace
members-get_nodes_in loc d s = ground (arith, find-assign loc d [] s.datacenters)

members-set_location :
    (nid loc d : ℕ) (s : Directory) → members d (set_location nid loc s) ≡ members d s
unfolding set_location members
members-set_location nid loc d s = refl

module _ (nid loc : ℕ) {s : Directory} (c : IsConsistent s) where
  -- If the directory is consistent, then after `set_node_location` the node stands in the set of
  -- the new datacenter and in no other, and every other node stands where it did.
  pub Located-set_node_location :
      (n d : ℕ)
      → contains n (members d (set_node_location nid loc s))
        ≡ (if nid == n then loc == d else contains n (members d s))
  unfolding set_node_location
  Located-set_node_location n d = elim (Option-cases (find nid s.nodes)) [
    | inl e ↦
        rw (e, set_node_location)
          (ground (
            arith,
            contains-add_member n d nid loc (set_location nid loc s),
            members-set_location nid loc d s,
            c.sound nid d,
          ))
    | inr (prev, e) ↦
        rw (e, set_node_location)
          (ground (
            arith,
            contains-add_member n d nid loc (set_location nid loc (erase_member nid prev s)),
            members-set_location nid loc d (erase_member nid prev s),
            contains-erase_member n d nid prev s,
            c.sound nid d,
          ))
  ]

  nodes-set_node_location :
      (n : ℕ)
      → find n (set_node_location nid loc s).nodes ≡ (if nid == n then some loc else find n s.nodes)
  unfolding set_node_location add_member erase_member
  nodes-set_node_location n = ground (arith, find-assign nid n loc s.nodes)

  set_node_location-IsConsistent : IsConsistent (set_node_location nid loc s)
  set_node_location-IsConsistent = record {
    sound = λ n d h.
        ground (arith, Located-set_node_location n d, nodes-set_node_location n, c.sound n d);
    complete = λ n d h k.
        ground (arith, Located-set_node_location n d, nodes-set_node_location n, c.complete n d);
  }

nodes-get_node_location :
    (nid n : ℕ) (s : Directory)
    → find n (get_node_location nid s).1.nodes
      ≡ (if nid == n then some (get_node_location nid s).0 else find n s.nodes)
unfolding get_node_location emplace at_or
nodes-get_node_location nid n s = ground (arith, find-assign nid n unknown s.nodes)

located-get_node_location :
    (nid : ℕ) (s : Directory) → (get_node_location nid s).0 ≡ or_else unknown (find nid s.nodes)
unfolding get_node_location at_or
located-get_node_location nid s = refl

members-get_node_location :
    (nid d : ℕ) (s : Directory) → members d (get_node_location nid s).1 ≡ members d s
unfolding get_node_location members
members-get_node_location nid d s = refl

get_node_location-IsConsistent :
    (nid : ℕ) {s : Directory} → IsConsistent s → IsConsistent (get_node_location nid s).1
get_node_location-IsConsistent nid {s} c = record {
  sound = λ n d h. ground (
    arith,
    members-get_node_location nid d s,
    nodes-get_node_location nid n s,
    located-get_node_location nid s,
    c.sound n d,
  );
  complete = λ n d h k. ground (
    arith,
    members-get_node_location nid d s,
    nodes-get_node_location nid n s,
    located-get_node_location nid s,
    c.complete n d,
  );
}

get_nodes_in-IsConsistent :
    (loc : ℕ) {s : Directory} → IsConsistent s → IsConsistent (get_nodes_in loc s).1
unfolding get_nodes_in
get_nodes_in-IsConsistent loc {s} c = record {
  sound = λ n d h. c.sound n d (rw (members-get_nodes_in loc d s) at h);
  complete = λ n d h k. rw (members-get_nodes_in loc d s) (c.complete n d h k);
}

step-IsConsistent : (s : Directory) (c : Call) → IsConsistent s → IsConsistent (step s c)
unfolding step
step-IsConsistent s (sets nid loc) c = set_node_location-IsConsistent nid loc c
step-IsConsistent s (locates nid) c = get_node_location-IsConsistent nid c
step-IsConsistent s (lists loc) c = get_nodes_in-IsConsistent loc c

initial-IsConsistent : IsConsistent initial
unfolding members at_or find contains
initial-IsConsistent = record { sound = λ n d h. absurd (cc); complete = λ n d h k. absurd (cc) }

pub run-IsConsistent : (s : Directory) (cs : List Call) → IsConsistent s → IsConsistent (run s cs)
unfolding run
run-IsConsistent s [] h = h
run-IsConsistent s (c ∷ cs) h = run-IsConsistent (step s c) cs (step-IsConsistent s c h)

-- After any calls, a node is in the set of a datacenter exactly if that datacenter is on record for
-- it, but that a node on record as unknown need not be in the set of the unknown ones.
pub run-initial-IsConsistent : (cs : List Call) → IsConsistent (run initial cs)
run-initial-IsConsistent cs = run-IsConsistent initial cs initial-IsConsistent
