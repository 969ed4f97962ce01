-- ===== src/Routing/Arbiter.antt =====
-- The arbiters of simulator/contrib/basic-sim/model/core: arbiter.cc, arbiter-ptop.cc,
-- arbiter-ecmp.cc and arbiter-multicast.cc. What they use of ns-3 (is an address multicast, the
-- hash of a packet's five-tuple) is an argument; addresses are the numbers that `Ipv4Address::Get`
-- gives.
pub mod Neighbors
pub mod Groups
use hypatia_multicast.Base.{
  ℕ, ◌%◌, Bool, true, false, List, [], ◌∷◌, ◌++◌, Option, some, none, Result, ok, err, ◌>>=◌, ◌>>◌,
  if◌then◌else◌, not, ltb, ◌==◌, invalid_argument, runtime_error, undefined, throw_if, or_throw,
  length, get_elem?, set, replicate, find,
}
use hypatia_multicast.Routing.Ecmp.{Edge}

pub record ArbiterResult : Type 0 where
  pub failed : Bool
  pub out_if_idx : ℕ
  pub gateway_ip_address : ℕ
  pub is_multicast : Bool
  pub is_multicast_outbound : Bool
  pub out_if_idxs : List ℕ

abbrev pub new_arbiter_result : Bool → ℕ → ℕ → ArbiterResult
new_arbiter_result failed out_if_idx gateway = record {
  failed = failed;
  out_if_idx = out_if_idx;
  gateway_ip_address = gateway;
  is_multicast = false;
  is_multicast_outbound = false;
  out_if_idxs = [];
}

unfoldable pub get_out_if_idx : ArbiterResult → Result ℕ
get_out_if_idx r = if r.failed then err runtime_error else ok r.out_if_idx

unfoldable pub get_gateway_ip_address : ArbiterResult → Result ℕ
get_gateway_ip_address r = if r.failed then err runtime_error else ok r.gateway_ip_address

unfoldable pub get_out_if_idx_multicast : ArbiterResult → Result (List ℕ)
get_out_if_idx_multicast r = if r.is_multicast then ok r.out_if_idxs else err runtime_error

-- The loop of the constructor of ArbiterPtop over the edges and their interface indices.
unfoldable pub fill_neighbors : ℕ → List (Edge × (ℕ × ℕ)) → List ℕ → List ℕ
fill_neighbors me [] table = table
fill_neighbors me (((a, b), (if_a, if_b)) ∷ es) table =
    fill_neighbors me es
      (if a == me then set table b if_a else if b == me then set table a if_b else table)

-- m_neighbor_node_id_to_if_idx: 0 stands for "not a neighbor".
unfoldable pub neighbor_node_id_to_if_idx : ℕ → ℕ → List (Edge × (ℕ × ℕ)) → List ℕ
unfolding fill_neighbors
neighbor_node_id_to_if_idx num_nodes me es = fill_neighbors me es (replicate num_nodes 0)

-- `ArbiterPtop::Decide`, after `TopologyPtopDecide` has selected a node (`none` is -1). The
-- selected id is an int32_t; the ids of the candidate lists are node ids, so it is never negative
-- otherwise.
unfoldable pub ptop_decide : ℕ → List ℕ → Option ℕ → Result ArbiterResult
ptop_decide num_nodes table none = ok (new_arbiter_result true 0 0)
ptop_decide num_nodes table (some selected) = do
  throw_if (not (ltb selected num_nodes)) runtime_error
  selected_if_idx ← or_throw (get_elem? table selected) undefined
  throw_if (selected_if_idx == 0) runtime_error
  ok (new_arbiter_result false selected_if_idx 0)

-- `ArbiterEcmp::TopologyPtopDecide`: `hash % s` with s = 0 is undefined.
unfoldable pub ecmp_decide : List (List ℕ) → ℕ → ℕ → Result ℕ
ecmp_decide candidate_list target hash = do
  candidates ← or_throw (get_elem? candidate_list target) undefined
  throw_if (length candidates == 0) undefined
  or_throw (get_elem? candidates (hash % length candidates)) undefined

-- An Ipv4MulticastRoutingTableEntry.
pub record MulticastRoute : Type 0 where
  pub origin : ℕ
  pub group : ℕ
  pub input_interface : ℕ
  pub output_interfaces : List ℕ

unfoldable pub add_multicast_route : MulticastRoute → List MulticastRoute → List MulticastRoute
add_multicast_route route routes = routes ++ route ∷ []

-- The interfaces that are not 0.
unfoldable pub nonzero_interfaces : List ℕ → List ℕ
nonzero_interfaces [] = []
nonzero_interfaces (i ∷ is) = let rest = nonzero_interfaces is in if i == 0 then rest else i ∷ rest

-- What `DecideMulticast` returns at the first route of the group. The input interface is IF_ANY, so
-- any route of the group matches.
unfoldable pub apply_route : ℕ → ℕ → MulticastRoute → Result ArbiterResult
unfolding nonzero_interfaces
apply_route me origin_id route =
    let result = record (new_arbiter_result false 0 0) { is_multicast = true } in
    if origin_id == me
    then (do
      throw_if (not (length route.output_interfaces == 1)) runtime_error
      out_if ← or_throw (get_elem? route.output_interfaces 0) undefined
      ok (record result { is_multicast_outbound = true; out_if_idx = out_if }))
    else ok (record result { out_if_idxs = nonzero_interfaces route.output_interfaces })

unfoldable pub decide_multicast : ℕ → List MulticastRoute → ℕ → ℕ → Result ArbiterResult
decide_multicast me [] origin_id group = ok (new_arbiter_result true 0 0)
decide_multicast me (r ∷ rs) origin_id group =
    let rest = decide_multicast me rs origin_id group in
    if group == r.group then apply_route me origin_id r else rest

-- m_ip_to_node_id is filled by `insert`, which keeps the first node of an address.
unfoldable pub resolve_node_id_from_ip : List (ℕ × ℕ) → ℕ → Result ℕ
unfolding find
resolve_node_id_from_ip ip_to_node_id ip = or_throw (find ip ip_to_node_id) invalid_argument

-- 102.102.102.102, the source address before a socket knows its own.
abbrev pub unset_source_ip : ℕ
unset_source_ip = 1_717_986_918

-- `Arbiter::BaseDecide` of an ArbiterMulticast.
unfoldable pub base_decide :
    (is_multicast_address : ℕ → Bool)
    → (me num_nodes : ℕ) → (ip_to_node_id : List (ℕ × ℕ)) → (table : List ℕ)
    → (candidate_list : List (List ℕ)) → List MulticastRoute
    → (source destination hash : ℕ) → Result ArbiterResult
unfolding resolve_node_id_from_ip decide_multicast ecmp_decide ptop_decide apply_route
base_decide is_multicast_address me num_nodes ips table candidate_list routes source destination
      hash =
    do
      source_node_id ←
          (if source == unset_source_ip then ok me else resolve_node_id_from_ip ips source)
      if is_multicast_address destination
          then decide_multicast me routes source_node_id destination
          else (do
            target_node_id ← resolve_node_id_from_ip ips destination
            selected ← ecmp_decide candidate_list target_node_id hash
            ptop_decide num_nodes table (some selected))
