-- ===== src/Routing/Multicast.antt =====
-- ArbiterMulticastHelper::CalGlobalMulticastState:
-- simulator/contrib/basic-sim/helper/core/arbiter-multicast-helper.cc. The walk from the source to
-- each destination follows the first equal-cost candidate, and its hops make the routes of a
-- request. Node ids are below num_nodes <= 40000, so the casts between int64_t and uint32_t keep
-- them. The address of a node's interface comes from ns-3 and is an argument.
pub mod Walks
pub mod Reaches
pub mod Routes
pub mod Delivery
pub mod Setup
pub mod RouteFile
pub mod Star
mod Tests
use hypatia_multicast.Base.{
  ℕ, zero, suc, ◌+◌, ◌%◌, ◌^◌, List, [], ◌∷◌, some, none, Result, ok, err, ◌>>=◌, ◌>>◌,
  if◌then◌else◌, not, for_each, ◌==◌, runtime_error, undefined, out_of_fuel, throw_if, or_throw,
  length, get_elem?, set, find, put, find_or, insert_set,
}
use hypatia_multicast.Routing.Ecmp.{CandidateList, candidates_at, infinite}
use hypatia_multicast.Routing.Arbiter.{MulticastRoute, add_multicast_route}

-- What the helper reads of a MulticastUdpInfo; the set of destinations is an ascending list.
pub record MulticastRequest : Type 0 where
  pub udp_burst_id : ℕ
  pub from_node_id : ℕ
  pub to_node_ids : List ℕ

-- The local variables that collect the hops of a request.
pub record Hops : Type 0 where
  pub nodes_ids_to_install : List ℕ
  pub node_id_to_oifs : List (ℕ × List ℕ)
  pub node_id_to_iif : List (ℕ × ℕ)

unfoldable pub no_hops : Hops
no_hops = record { nodes_ids_to_install = []; node_id_to_oifs = []; node_id_to_iif = [] }

-- m_node_to_nbr_if_idx[node][neighbor].
abbrev pub if_idx_of : List (List ℕ) → ℕ → ℕ → Result ℕ
if_idx_of ifs node neighbor =
    or_throw (get_elem? ifs node) undefined >>= λ row. or_throw (get_elem? row neighbor) undefined

-- One hop from `cur` to `nxt`, over the interface `oif` of `cur` and `iif` of `nxt`.
unfoldable pub record_hop : ℕ → ℕ → ℕ → ℕ → Hops → Hops
record_hop cur nxt oif iif h = record {
  nodes_ids_to_install = insert_set cur h.nodes_ids_to_install;
  node_id_to_oifs = elim (find cur h.node_id_to_oifs) [
    | some oifs ↦ put cur (insert_set oif oifs) h.node_id_to_oifs
    | none ↦ put cur (oif ∷ []) h.node_id_to_oifs
  ];
  node_id_to_iif = put nxt iif h.node_id_to_iif;
}

-- The `while` loop towards one destination, on fuel. An empty candidate list is read at [0], which
-- C++ leaves undefined.
unfoldable pub walk : ℕ → CandidateList → List (List ℕ) → ℕ → ℕ → Hops → Result Hops
walk zero ecmp ifs dst cur h = if cur == dst then ok h else err out_of_fuel
walk (suc fuel) ecmp ifs dst cur h =
    let next_hops = (do
      nxt ← or_throw (get_elem? (candidates_at ecmp cur dst) 0) undefined
      oif ← if_idx_of ifs cur nxt
      iif ← if_idx_of ifs nxt cur
      walk fuel ecmp ifs dst nxt (record_hop cur nxt oif iif h)) in
    if cur == dst then ok h else next_hops

-- The loop over the destinations. A shortest walk is shorter than the "infinite" distance.
unfoldable pub collect_hops : CandidateList → List (List ℕ) → ℕ → List ℕ → Hops → Result Hops
unfolding for_each
collect_hops ecmp ifs src dsts h = for_each (λ s dst. walk infinite ecmp ifs dst src s) h dsts

-- The arbiters' m_multicast_routes, by node.
abbrev pub RoutingState : Type 0
RoutingState = List (List MulticastRoute)

unfoldable pub install : ℕ → MulticastRoute → RoutingState → Result RoutingState
unfolding add_multicast_route
install node route state = do
  routes ← or_throw (get_elem? state node) undefined
  ok (set state node (add_multicast_route route routes))

-- The route of one node.
unfoldable pub route_at : ℕ → ℕ → ℕ → Hops → ℕ → MulticastRoute
unfolding find_or
route_at src origin group h node = record {
  origin = origin;
  group = group;
  input_interface = if node == src then 0 else find_or node 0 h.node_id_to_iif;
  output_interfaces = find_or node [] h.node_id_to_oifs;
}

unfoldable pub install_all : ℕ → ℕ → ℕ → Hops → List ℕ → RoutingState → Result RoutingState
unfolding for_each install route_at
install_all src origin group h nodes state =
    for_each (λ s node. install node (route_at src origin group h node) s) state nodes

-- The body of the loop over the requests. `GetAddress` throws no exception of its own: an interface
-- that the node does not have ends the program.
unfoldable pub install_request :
    (local_address : ℕ → ℕ → ℕ)
    → (multicast_group_base : ℕ) → CandidateList
    → List (List ℕ)
    → RoutingState
    → MulticastRequest
    → Result RoutingState
unfolding collect_hops install_all find_or no_hops
install_request local_address multicast_group_base ecmp ifs state req = do
  let src = req.from_node_id
  h ← collect_hops ecmp ifs src req.to_node_ids no_hops
  let src_oifs = find_or src [] h.node_id_to_oifs
  throw_if (not (length src_oifs == 1)) runtime_error
  first_oif ← or_throw (get_elem? src_oifs 0) undefined
  let group = (multicast_group_base + req.udp_burst_id) % 2 ^ 32
  install_all src (local_address src first_oif) group h h.nodes_ids_to_install state

-- The loop of `CalGlobalMulticastState` over the requests. Before it the source reads the
-- configuration's `multicast_route_filename`, which throws if there is none; that is left out.
unfoldable pub cal_global_multicast_state :
    (ℕ → ℕ → ℕ)
    → ℕ
    → CandidateList
    → List (List ℕ)
    → List MulticastRequest
    → RoutingState
    → Result RoutingState
unfolding for_each install_request record_hop walk find put insert_set candidates_at
cal_global_multicast_state local_address base ecmp ifs reqs state =
    for_each (install_request local_address base ecmp ifs) state reqs
