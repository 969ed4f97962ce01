-- ===== src/Routing/Multicast/RouteFile.antt =====
-- ArbiterMulticastHelper::ReadGlobalMulticastState:
-- simulator/contrib/basic-sim/helper/core/arbiter-multicast-helper.cc. Routes are read from a CSV
-- file, one node of one group on each line, in place of being calculated.
use hypatia_multicast.Base.{
  ℕ, ◌+◌, ◌%◌, ◌^◌, Bool, List, [], ◌∷◌, ◌++◌, Option, some, none, Result, ok, err, ◌>>=◌, ◌>>◌,
  if◌then◌else◌, not, for_each, ltb, ◌==◌, runtime_error, invalid_argument, undefined, throw_if,
  or_throw, get_elem?,
}
use hypatia_multicast.Base.Int.{ℤ, pos, negsuc}
use hypatia_multicast.ExpUtil.Text.{Text, split_string_expecting}
use hypatia_multicast.ExpUtil.Numbers.{parse_int64, parse_positive_int64}
use hypatia_multicast.Routing.Multicast.{if_idx_of, RoutingState, install}

-- comma_split[i].
abbrev column : List Text → ℕ → Result Text
column comma_split i = or_throw (get_elem? comma_split i) undefined

-- The body of the loop that reads the neighbours to send to.
unfoldable pub push_output_nbr : List ℕ → Text → Result (List ℕ)
push_output_nbr output_nbr_ids space_split = do
  id ← parse_positive_int64 space_split
  ok (output_nbr_ids ++ id ∷ [])

-- The interface of a node that leads to a neighbour.
unfoldable pub neighbor_if_id : ℕ → List (List ℕ) → ℕ → ℕ → Result ℕ
neighbor_if_id num_nodes ifs node nbr = do
  throw_if (not (ltb nbr num_nodes)) runtime_error
  if_id ← if_idx_of ifs node nbr
  throw_if (if_id == 0) runtime_error
  ok if_id

-- The body of the loop that looks up the interfaces to send over.
unfoldable pub push_out_if : ℕ → List (List ℕ) → ℕ → List ℕ → ℕ → Result (List ℕ)
unfolding neighbor_if_id
push_out_if num_nodes ifs node out_if_ids out_nbr_id = do
  out_if_id ← neighbor_if_id num_nodes ifs node out_nbr_id
  ok (out_if_ids ++ out_if_id ∷ [])

-- A negative id is -1, for the source, or out of range.
unfoldable pub input_if_id : ℕ → List (List ℕ) → ℕ → ℤ → Result ℕ
unfolding neighbor_if_id
input_if_id num_nodes ifs node (pos nbr) = neighbor_if_id num_nodes ifs node nbr
input_if_id num_nodes ifs node (negsuc k) = if k == 0 then ok 0 else err runtime_error

-- The body of the loop over the lines.
unfoldable pub read_route_line :
    (local_address : ℕ → ℕ → ℕ)
    → (is_valid_endpoint : ℕ → Bool) → (base num_nodes num_reqs : ℕ) → List (List ℕ)
    → RoutingState
    → Text
    → Result RoutingState
unfolding push_output_nbr push_out_if input_if_id install for_each
read_route_line local_address is_valid_endpoint base num_nodes num_reqs ifs state line = do
  comma_split ← split_string_expecting line (b',' ∷ []) 7
  burst_text ← column comma_split 0
  multicast_burst_id ← parse_positive_int64 burst_text
  node_text ← column comma_split 1
  node_id_to_install ← parse_positive_int64 node_text
  src_text ← column comma_split 2
  src_node_id ← parse_positive_int64 src_text
  nexthop_text ← column comma_split 3
  src_nexthop_id ← parse_positive_int64 nexthop_text
  input_text ← column comma_split 4
  input_nbr_id ← parse_int64 input_text
  num_text ← column comma_split 5
  output_nbr_num ← parse_positive_int64 num_text
  output_nbr_ids_str ← column comma_split 6
  space_splits ← split_string_expecting output_nbr_ids_str (b' ' ∷ []) output_nbr_num
  output_nbr_ids ← for_each push_output_nbr [] space_splits
  throw_if (not (ltb multicast_burst_id num_reqs)) runtime_error
  throw_if (not (is_valid_endpoint src_node_id)) invalid_argument
  throw_if (not (ltb node_id_to_install num_nodes)) runtime_error
  throw_if (not (ltb src_node_id num_nodes)) runtime_error
  throw_if (not (ltb src_nexthop_id num_nodes)) runtime_error
  out_if_ids ← for_each (push_out_if num_nodes ifs node_id_to_install) [] output_nbr_ids
  src_if_id ← if_idx_of ifs src_node_id src_nexthop_id
  iif_id ← input_if_id num_nodes ifs node_id_to_install input_nbr_id
  throw_if (src_if_id == 0) runtime_error
  install node_id_to_install
      (record {
        origin = local_address src_node_id src_if_id;
        group = (base + multicast_burst_id) % 2 ^ 32;
        input_interface = iif_id;
        output_interfaces = out_if_ids;
      })
      state

-- The lines of the file, `none` if it does not exist or cannot be read.
unfoldable pub read_global_multicast_state :
    (local_address : ℕ → ℕ → ℕ)
    → (is_valid_endpoint : ℕ → Bool) → (base num_nodes num_reqs : ℕ) → List (List ℕ)
    → Option (List Text)
    → RoutingState
    → Result RoutingState
unfolding read_route_line for_each split_string_expecting parse_positive_int64 parse_int64
read_global_multicast_state local_address is_valid_endpoint base num_nodes num_reqs ifs none state =
    err runtime_error
read_global_multicast_state local_address is_valid_endpoint base num_nodes num_reqs ifs (some lines)
      state =
    for_each (read_route_line local_address is_valid_endpoint base num_nodes num_reqs ifs) state
      lines
