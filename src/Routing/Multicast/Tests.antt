-- ===== src/Routing/Multicast/Tests.antt =====
-- A request from node 0 of the star to nodes 2 and 3.
use hypatia_multicast.Base.{
  ℕ, List, get_or, ◌⊎◌, zero, suc, ◌+◌, ◌<◌, ◌≡◌, refl, sym, subst, ◌*◌, [], ◌∷◌, none, ok, arith,
  In, inl, inr,
}
use hypatia_multicast.Routing.Ecmp.{CandidateList, calculate_global_state, infinite, floyd_warshall}
use hypatia_multicast.Routing.Ecmp.NextHop.{distance}
use hypatia_multicast.Routing.Arbiter.Groups.{first_route}
use hypatia_multicast.Routing.Multicast.Routes.{routes_of}
use hypatia_multicast.Routing.Multicast.{
  MulticastRequest, Hops, no_hops, collect_hops, RoutingState, cal_global_multicast_state,
}
use hypatia_multicast.Routing.Multicast.Walks.{Reaches}
use Prim.Native.Char.{code}
use Prim.Native.String.{String}
use hypatia_multicast.Base.{some, true, false, leb}
use hypatia_multicast.Routing.Ipv4.{Ipv4}
use hypatia_multicast.Routing.Ipv4.Input.{Nodes, IsGroup}
use hypatia_multicast.Routing.Ipv4.Journey.{Journey, new_arbiter_multicast_helper-Journey}
use hypatia_multicast.Routing.Multicast.RouteFile.{read_global_multicast_state}
use hypatia_multicast.Routing.Ecmp.{Edge}
use hypatia_multicast.Routing.Ecmp.Shortest.{Adjacent}
use hypatia_multicast.Routing.Multicast.Setup.{
  new_arbiter_multicast_helper, new_arbiter_multicast_helper-Delivers,
}
use hypatia_multicast.Routing.Arbiter.Neighbors.{Joins, edges_of, neighbor_node_id_to_if_idx-Joins}
use hypatia_multicast.Routing.Arbiter.{neighbor_node_id_to_if_idx, resolve_node_id_from_ip}
use hypatia_multicast.Routing.Multicast.Reaches.{collect_hops-reach_all}
use hypatia_multicast.Routing.Multicast.Delivery.{
  Delivers, group_of, cal_global_multicast_state-Delivers,
}
use hypatia_multicast.Routing.Multicast.Star.{
  star, star_interfaces, star_candidates, no_routes, star-HasInterfaces, star-IsTable,
}

star_candidates_lem : calculate_global_state star ≡ ok star_candidates
unfolding calculate_global_state
star_candidates_lem = refl

abbrev request : MulticastRequest
request = record { udp_burst_id = 7; from_node_id = 0; to_node_ids = 2 ∷ 3 ∷ [] }

abbrev address : ℕ → ℕ → ℕ
address node i = 256 * node + i

abbrev routed : RoutingState
routed =
    (record { origin = 1; group = 1007; input_interface = 0; output_interfaces = 1 ∷ [] } ∷ [])
    ∷ (record { origin = 1; group = 1007; input_interface = 1; output_interfaces = 2 ∷ 3 ∷ [] }
        ∷ [])
    ∷ []
    ∷ []
    ∷ []

routed_lem :
    cal_global_multicast_state address 1000 star_candidates star_interfaces (request ∷ []) no_routes
    ≡ ok routed
unfolding cal_global_multicast_state
routed_lem = refl

no_routes_lem :
    (req : MulticastRequest)
    → In req (request ∷ [])
    → (x : ℕ) → first_route (group_of 1000 req) (routes_of no_routes x) ≡ none
unfolding first_route
no_routes_lem req m zero = refl
no_routes_lem req m (suc zero) = refl
no_routes_lem req m (suc (suc zero)) = refl
no_routes_lem req m (suc (suc (suc zero))) = refl
no_routes_lem req m (suc (suc (suc (suc x)))) = refl

cal_global_multicast_state-Delivers_example :
    Delivers star_interfaces routed 0 (group_of 1000 request) 0 3
cal_global_multicast_state-Delivers_example =
    cal_global_multicast_state-Delivers address 1000 star_candidates star_interfaces (request ∷ [])
      no_routes routed routed_lem star-HasInterfaces (λ other m. absurd m, tt) no_routes_lem request
      (inl refl) 3 (inr (inl refl))

star-is_near : (dst : ℕ) → In dst (2 ∷ 3 ∷ []) → (dst < 4) × (distance star 0 dst < infinite)
unfolding floyd_warshall
star-is_near dst (inl e) =
    subst (λ d. (d < 4) × (distance star 0 d < infinite)) (sym e) (omega arith, omega arith)
star-is_near dst (inr (inl e)) =
    subst (λ d. (d < 4) × (distance star 0 d < infinite)) (sym e) (omega arith, omega arith)
star-is_near dst (inr (inr m)) = absurd m

collect_hops-reach_all_example :
    (ecmp : CandidateList) × (h : Hops) × (calculate_global_state star ≡ ok ecmp)
    × (collect_hops ecmp star_interfaces 0 (2 ∷ 3 ∷ []) no_hops ≡ ok h)
    × ((dst : ℕ) → In dst (2 ∷ 3 ∷ []) → Reaches ecmp star_interfaces h 0 dst)
collect_hops-reach_all_example =
    collect_hops-reach_all star star_interfaces 0 (2 ∷ 3 ∷ []) (omega arith)
      (
        (omega arith, omega arith, omega arith),
        ((omega arith, omega arith, omega arith), ((omega arith, omega arith, omega arith), tt)),
      )
      star-IsTable (omega arith) star-is_near

-- The links of the star with their interfaces.
abbrev star_links : List (Edge × (ℕ × ℕ))
star_links = ((0, 1), (1, 1)) ∷ ((1, 2), (2, 1)) ∷ ((1, 3), (3, 1)) ∷ []

star_is_set_up :
    new_arbiter_multicast_helper address 1000 4 star_links (request ∷ [])
    ≡ ok (star_interfaces, routed)
unfolding new_arbiter_multicast_helper
star_is_set_up = refl

new_arbiter_multicast_helper-Delivers_example :
    Delivers star_interfaces routed 0 (group_of 1000 request) 0 3
new_arbiter_multicast_helper-Delivers_example =
    new_arbiter_multicast_helper-Delivers address 1000 4 star_links (request ∷ []) star_interfaces
      routed star_is_set_up
      (
        (omega arith, omega arith, omega arith),
        ((omega arith, omega arith, omega arith), ((omega arith, omega arith, omega arith), tt)),
      )
      ((omega arith, omega arith), ((omega arith, omega arith), ((omega arith, omega arith), tt)))
      (λ other m. absurd m, tt) request (inl refl) 3 (inr (inl refl))

-- Every node takes all addresses from 1000 on for multicast, and receives all of them.
abbrev node : Ipv4
node = record {
  is_multicast = λ a. leb 1000 a;
  is_local_multicast = λ a. false;
  is_loopback = λ a. false;
  local_address = λ i. i;
  source_address_selection = λ i dest. i;
  is_destination_address = λ a i. true;
  is_forwarding = λ i. true;
}

abbrev nodes : Nodes
nodes = record {
  ip = λ x. node;
  num_nodes = 4;
  ip_to_node_id = (1, 0) ∷ (257, 1) ∷ (513, 2) ∷ (769, 3) ∷ [];
  table = λ x. [];
  candidate_list = λ x. [];
  hash = λ x. 0;
}

nodes-IsGroup : IsGroup nodes 0 1 (group_of 1000 request)
unfolding resolve_node_id_from_ip
nodes-IsGroup = record {
  multicast = λ x. refl;
  not_local = λ x. refl;
  not_loopback = λ x. refl;
  resolves = refl;
  is_set = refl;
}

new_arbiter_multicast_helper-Journey_example :
    Journey nodes star_interfaces routed 0 1 (group_of 1000 request) nodes-IsGroup 3
new_arbiter_multicast_helper-Journey_example =
    new_arbiter_multicast_helper-Journey address 1000 4 star_links (request ∷ []) star_interfaces
      routed nodes 1 request 3 nodes-IsGroup star_is_set_up
      (
        (omega arith, omega arith, omega arith),
        ((omega arith, omega arith, omega arith), ((omega arith, omega arith, omega arith), tt)),
      )
      ((omega arith, omega arith), ((omega arith, omega arith), ((omega arith, omega arith), tt)))
      (λ other m. absurd m, tt) (inl refl) (inr (inl refl)) (λ e. omega (arith, e))

neighbor_node_id_to_if_idx-Joins_example :
    Joins 1 3 (get_or (neighbor_node_id_to_if_idx 4 1 star_links) 3 0) star_links
    ⊎ ((get_or (neighbor_node_id_to_if_idx 4 1 star_links) 3 0 ≡ 0)
        × (Adjacent (edges_of star_links) 1 3 → ⊥))
neighbor_node_id_to_if_idx-Joins_example = neighbor_node_id_to_if_idx-Joins 4 1 3 star_links (
  (omega arith, omega arith, omega arith),
  ((omega arith, omega arith, omega arith), ((omega arith, omega arith, omega arith), tt)),
)

abbrev codes : String → List ℕ
codes String.[] = []
codes (String.◌∷◌ c s) = code c ∷ codes s

-- The calculated routes, from a file.
routes_are_read :
    read_global_multicast_state address
      (λ n. true)
      1007
      4
      1
      star_interfaces
      (some (codes "0,0,0,1,-1,1,1" ∷ codes "0,1,0,1,0,2,2 3" ∷ []))
      no_routes
    ≡ ok routed
unfolding read_global_multicast_state
routes_are_read = refl
