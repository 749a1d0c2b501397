-- ===== src/Control/Listing.antt =====
-- `net_addresses` of src/net.cpp: the text for all nodes whose address is known.
use iu.Prelude.{ℕ, ◌*◌, ◌<◌, ◌≡◌, refl, ap, ◌∙◌, some, List, [], ◌∷◌, ◌++◌, length, arith}
use iu.Prelude.Map.{Map, at_or, emplace, find-assign}
use iu.Msg.{Addr}
use iu.Datacenters.{Directory, unknown, get_node_location}
use iu.Net.{Net}
use iu.Control.{net_lines, net_addresses}

-- The recorded locations of a directory.
abbrev pub location_of : ℕ → Directory → ℕ
location_of nid dir = at_or unknown nid dir.nodes

get_node_location-location_of :
    (nid k : ℕ) (dir : Directory) → location_of k (get_node_location nid dir).1 ≡ location_of k dir
unfolding get_node_location at_or emplace
get_node_location-location_of nid k dir = ground (arith, find-assign nid k unknown dir.nodes)

module _ (format : (nid loc : ℕ) → Addr → List ℕ) where
  -- The lines of all nodes, in the order of the map, each with its recorded location.
  abbrev pub listing : Map Addr → Directory → List ℕ
  listing [] dir = []
  listing ((nid, a) ∷ m) dir = format nid (location_of nid dir) a ++ listing m dir

  listing-ext :
      (m : Map Addr) (dir dir' : Directory)
      → ((k : ℕ) → location_of k dir' ≡ location_of k dir)
      → listing m dir' ≡ listing m dir
  listing-ext [] dir dir' h = refl
  listing-ext ((nid, a) ∷ m) dir dir' h = rw (h nid, listing-ext m dir dir' h) refl

  net_lines-listing :
      (m : Map Addr) (dir : Directory)
      → ((net_lines format m dir).0 ≡ listing m dir)
        × ((k : ℕ) → location_of k (net_lines format m dir).1 ≡ location_of k dir)
  unfolding net_lines get_node_location
  net_lines-listing [] dir = (refl, λ k. refl)
  net_lines-listing ((nid, a) ∷ m) dir =
      let dir' = (get_node_location nid dir).1 in
      let (e, h) = net_lines-listing m dir' in
      (
        ap (λ l. format nid (location_of nid dir) a ++ l)
            (e ∙ listing-ext m dir dir' (λ k. get_node_location-location_of nid k dir)),
        λ k. h k ∙ get_node_location-location_of nid k dir,
      )

  pub net_addresses-listing :
      (s : Net) (dir : Directory)
      → length (listing s.addresses dir) < 50 * length s.addresses
      → (dir' : Directory) × (net_addresses format s dir
          ≡ some (listing s.addresses dir ++ 0 ∷ [], dir'))
        × ((k : ℕ) → location_of k dir' ≡ location_of k dir)
  unfolding net_addresses
  net_addresses-listing s dir h =
      let (e, l) = net_lines-listing s.addresses dir in
      ((net_lines format s.addresses dir).1, ground (arith, e), l)
