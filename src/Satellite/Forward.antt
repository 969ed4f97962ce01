-- ===== src/Satellite/Forward.antt =====
-- Routing in satellite-network: model/arbiter-satnet.cc, model/arbiter-single-forward.cc and
-- helper/arbiter-single-forward-helper.cc. Each node's arbiter has an entry for each target: the
-- next node, the own interface and the interface of the next node, -1 for a drop and -2 where none
-- has been set. What ns-3 knows of the nodes is an argument.
pub mod Entries
pub mod Decisions
mod Tests
use hypatia_multicast.Base.{
  ℕ, zero, suc, ◌+◌, Bool, true, false, List, [], ◌∷◌, Option, some, none, Result, ok, err, ◌>>=◌,
  ◌>>◌, if◌then◌else◌, not, ◌&&◌, ◌||◌, ltb, ◌==◌, throw_if, or_throw, assertion, undefined,
  out_of_range, runtime_error, get_elem?, set, replicate, for_each, length,
}
use hypatia_multicast.Base.Int.{ℤ, pos, negsuc, ◌+ℤ◌, ltb_ℤ}
use hypatia_multicast.ExpUtil.Text.{Text, split_string_expecting}
use hypatia_multicast.ExpUtil.Numbers.{parse_positive_int64, parse_int64}
use hypatia_multicast.Routing.Arbiter.{ArbiterResult, new_arbiter_result}

-- The device of an interface. An inter-satellite link has two devices, each with its node and its
-- interface there.
pub data Device : Type 0 where
  gsl other : Device
  isl : (device0 device1 : ℕ × ℕ) → Device

pub record Nodes : Type 0 where
  pub size : ℕ
  pub n_interfaces : ℕ → ℕ
  pub device : ℕ → ℕ → Device
  pub address : ℕ → ℕ → ℕ

abbrev pub Hop : Type 0
Hop = ℤ × ℤ × ℤ

-- `InitialEmptyForwardingState`.
unfoldable pub initial_empty_forwarding_state : ℕ → List (List Hop)
initial_empty_forwarding_state n = replicate n (replicate n (negsuc 1, negsuc 1, negsuc 1))

abbrev pub is_minus_one : ℤ → Bool
is_minus_one (negsuc zero) = true
is_minus_one _ = false

abbrev pub is_minus_two : ℤ → Bool
is_minus_two (negsuc (suc zero)) = true
is_minus_two _ = false

-- `SetSingleForwardState`.
unfoldable pub set_single_forward_state : List Hop → ℕ → Hop → Result (List Hop)
set_single_forward_state next_hop_list target (next_node_id, own_if_id, next_if_id) = do
  throw_if (is_minus_two next_node_id || is_minus_two own_if_id || is_minus_two next_if_id)
      assertion
  throw_if (not (ltb target (length next_hop_list))) undefined
  ok (set next_hop_list target (next_node_id, own_if_id, next_if_id))

-- Interfaces are counted without the loop-back interface here.
abbrev pub interface_exists : Nodes → ℤ → ℤ → Bool
interface_exists nodes (pos node) (pos i) = ltb (i + 1) (nodes.n_interfaces node)
interface_exists nodes _ (negsuc zero) = true
interface_exists nodes _ _ = false

abbrev pub is_gsl : Device → Bool
is_gsl gsl = true
is_gsl _ = false

abbrev pub is_isl : Device → Bool
is_isl (isl a b) = true
is_isl _ = false

-- The checks of the counterpart of an inter-satellite link.
unfoldable pub check_counterpart : Device → ℕ → ℕ → ℕ → Result (Unit {0})
check_counterpart (isl device0 device1) current next next_if =
    let other_device = if device0.0 == current then device1 else device0 in
    throw_if (not (other_device.0 == next)) assertion
    >> throw_if (not (other_device.1 == next_if)) assertion
check_counterpart _ current next next_if = ok tt

-- The checks of the device of the entry and the one at the other end.
unfoldable pub check_devices : Device → Device → ℕ → ℕ → ℕ → Result (Unit {0})
unfolding check_counterpart
check_devices source destination current next next_if = do
  throw_if (not (is_gsl source) && not (is_isl source)) assertion
  throw_if (is_gsl source && not (is_gsl destination)) assertion
  throw_if (is_isl source && not (is_isl destination)) assertion
  check_counterpart source current next next_if

-- The checks of the devices are for entries that are no drops, whose numbers are not negative.
unfoldable pub check_link : Nodes → ℕ → Hop → Result (Unit {0})
unfolding check_devices
check_link nodes current (pos next, pos my_if_id, pos next_if_id) =
    check_devices (nodes.device current (1 + my_if_id)) (nodes.device next (1 + next_if_id)) current
      next (1 + next_if_id)
check_link nodes current hop = ok tt

-- The checks of an entry of a node.
unfoldable pub check_hop : Nodes → ℕ → ℕ → Hop → Result (Unit {0})
unfolding check_link
check_hop nodes current target (next, my_if_id, next_if_id) = do
  throw_if (not (ltb current nodes.size)) assertion
  throw_if (not (ltb target nodes.size)) assertion
  throw_if (ltb_ℤ next (negsuc 0) || not (ltb_ℤ next (pos nodes.size))) assertion
  throw_if
      (not (is_minus_one next && is_minus_one my_if_id && is_minus_one next_if_id)
        && not (
            not (is_minus_one next)
            && not (is_minus_one my_if_id)
            && not (is_minus_one next_if_id)))
      assertion
  throw_if (not (interface_exists nodes (pos current) my_if_id)) assertion
  throw_if (not (interface_exists nodes next next_if_id)) assertion
  check_link nodes current (next, my_if_id, next_if_id)

-- The interfaces of an entry counted with the loop-back interface.
unfoldable pub with_loop_back : Hop → Hop
unfolding ◌+ℤ◌
with_loop_back (next, my_if_id, next_if_id) = (next, pos 1 +ℤ my_if_id, pos 1 +ℤ next_if_id)

-- The body of the loop over the lines of a file.
unfoldable pub read_fstate_line : Nodes → List (List Hop) → Text → Result (List (List Hop))
unfolding split_string_expecting parse_positive_int64 parse_int64 check_hop with_loop_back
    set_single_forward_state
read_fstate_line nodes arbiters line = do
  comma_split ← split_string_expecting line (b',' ∷ []) 5
  field0 ← or_throw (get_elem? comma_split 0) undefined
  current_node_id ← parse_positive_int64 field0
  field1 ← or_throw (get_elem? comma_split 1) undefined
  target_node_id ← parse_positive_int64 field1
  field2 ← or_throw (get_elem? comma_split 2) undefined
  next_hop_node_id ← parse_int64 field2
  field3 ← or_throw (get_elem? comma_split 3) undefined
  my_if_id ← parse_int64 field3
  field4 ← or_throw (get_elem? comma_split 4) undefined
  next_if_id ← parse_int64 field4
  check_hop nodes current_node_id target_node_id (next_hop_node_id, my_if_id, next_if_id)
  arbiter ← or_throw (get_elem? arbiters current_node_id) out_of_range
  next_hop_list ←
      set_single_forward_state arbiter target_node_id
        (with_loop_back (next_hop_node_id, my_if_id, next_if_id))
  ok (set arbiters current_node_id next_hop_list)

-- `UpdateForwardingState` at a time: the arbiters, and the time of the next update if one is
-- scheduled.
unfoldable pub update_forwarding_state :
    Nodes
    → (interval_ns end_time_ns : ℕ) → (force_static : Bool) → List (List Hop)
    → ℕ
    → Option (List Text)
    → Result (List (List Hop) × Option ℕ)
unfolding for_each read_fstate_line
update_forwarding_state nodes interval_ns end_time_ns force_static arbiters t file = do
  lines ← or_throw file runtime_error
  updated ← for_each (read_fstate_line nodes) arbiters lines
  let next_update_ns = t + interval_ns
  ok (
    updated,
    if force_static
        then none
        else if ltb next_update_ns end_time_ns
        then some next_update_ns
        else none,
  )

-- The events of `UpdateForwardingState`, with the file of each time, as far as `fuel` goes.
unfoldable pub run_updates :
    ℕ
    → Nodes
    → (interval_ns end_time_ns : ℕ) → (force_static : Bool) → (ℕ → Option (List Text))
    → List (List Hop)
    → ℕ
    → Result (List (List Hop))
unfolding update_forwarding_state
run_updates zero nodes interval_ns end_time_ns force_static files arbiters t = ok arbiters
run_updates (suc fuel) nodes interval_ns end_time_ns force_static files arbiters t = do
  updated ← update_forwarding_state nodes interval_ns end_time_ns force_static arbiters t (files t)
  elim updated.1 [
    | none ↦ ok updated.0
    | some next_update_ns ↦
        run_updates fuel nodes interval_ns end_time_ns force_static files updated.0 next_update_ns
  ]

-- The constructor of ArbiterSingleForwardHelper, and then the events that it brings about, up to a
-- number of updates.
unfoldable pub single_forward_states :
    ℕ
    → Nodes
    → (interval_ns end_time_ns : ℕ) → (force_static : Bool) → (ℕ → Option (List Text))
    → Result (List (List Hop))
unfolding run_updates initial_empty_forwarding_state
single_forward_states updates nodes interval_ns end_time_ns force_static files =
    run_updates updates nodes interval_ns end_time_ns force_static files
      (initial_empty_forwarding_state nodes.size) 0

-- `Decide` of ArbiterSatnet, with `TopologySatelliteNetworkDecide` of ArbiterSingleForward. A
-- number that is not negative is taken as an interface index.
unfoldable pub decide_hop : Nodes → Hop → Result ArbiterResult
decide_hop nodes (next, own_if_id, next_if_id) = do
  throw_if (is_minus_two next || is_minus_two own_if_id || is_minus_two next_if_id) assertion
  elim next [
    | negsuc zero ↦ ok (new_arbiter_result true 0 0)
    | negsuc (suc n) ↦ err undefined
    | pos next_node_id ↦ elim own_if_id [
      | negsuc n ↦ err undefined
      | pos own ↦ elim next_if_id [
        | negsuc n ↦ err undefined
        | pos next_if ↦ ok (new_arbiter_result false own (nodes.address next_node_id next_if))
      ]
    ]
  ]

unfoldable pub decide_single_forward : Nodes → List Hop → ℕ → Result ArbiterResult
unfolding decide_hop
decide_single_forward nodes next_hop_list target_node_id = do
  hop ← or_throw (get_elem? next_hop_list target_node_id) undefined
  decide_hop nodes hop
