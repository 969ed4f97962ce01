-- ===== src/Schedule/Tests.antt =====
-- Schedules of a few lines.
use hypatia_multicast.Base.{
  ℕ, zero, suc, ◌+◌, ◌*◌, arith, inl, inr, map, ◌≡◌, refl, List, [], ◌∷◌, some, ok, err,
  invalid_argument, ltb,
}
use Prim.Native.Char.{code}
use Prim.Native.String.{String}
use hypatia_multicast.ExpUtil.Text.{Text}
use hypatia_multicast.Base.Int.{ℤ, pos, pos_part, ltb_ℤ, ◌==ℤ◌}
use hypatia_multicast.ExpUtil.Numbers.{Doubles, stoll, parse_positive_double}
use hypatia_multicast.Schedule.{Topology}
use hypatia_multicast.Schedule.UdpBurst.{
  UdpBurstInfo, read_udp_burst_schedule, IsUdpBurstSchedule,
  read_udp_burst_schedule-IsUdpBurstSchedule,
}
use hypatia_multicast.Schedule.MulticastUdp.{
  MulticastUdpInfo, read_multicast_udp_schedule, IsMulticastUdpSchedule,
  read_multicast_udp_schedule-IsMulticastUdpSchedule,
}
use hypatia_multicast.Schedule.Requests.{to_request, read_multicast_udp_schedule-Delivers}
use hypatia_multicast.Routing.Multicast.{RoutingState, cal_global_multicast_state}
use hypatia_multicast.Routing.Multicast.Routes.{routes_of}
use hypatia_multicast.Routing.Multicast.Delivery.{Delivers}
use hypatia_multicast.Routing.Multicast.Star.{
  star_interfaces, star_candidates, no_routes, star-HasInterfaces,
}
use hypatia_multicast.Schedule.TcpFlow.{
  TcpFlowScheduleEntry, read_tcp_flow_schedule, IsTcpFlowSchedule,
  read_tcp_flow_schedule-IsTcpFlowSchedule,
}

abbrev codes : String → List ℕ
codes String.[] = []
codes (String.◌∷◌ c s) = code c ∷ codes s

abbrev four_endpoints : Topology
four_endpoints = record { is_valid_endpoint = λ n. ltb n 4; multicast_group_base = 3_758_096_384 }

abbrev two_flows : List Text
two_flows = codes "0,0,3,1000,5,," ∷ codes "1,2,1,2000,5,a,b" ∷ []

abbrev two_entries : List TcpFlowScheduleEntry
two_entries =
    record {
      tcp_flow_id = 0;
      from_node_id = 0;
      to_node_id = 3;
      size_byte = 1000;
      start_time_ns = 5;
      additional_parameters = [];
      metadata = [];
    }
    ∷ record {
      tcp_flow_id = 1;
      from_node_id = 2;
      to_node_id = 1;
      size_byte = 2000;
      start_time_ns = 5;
      additional_parameters = codes "a";
      metadata = codes "b";
    }
    ∷ []

two_flows_are_read : read_tcp_flow_schedule (some two_flows) four_endpoints 10 ≡ ok two_entries
unfolding read_tcp_flow_schedule
two_flows_are_read = refl

read_tcp_flow_schedule-IsTcpFlowSchedule_example :
    (k p : ℕ) × IsTcpFlowSchedule four_endpoints 10 0 0 two_entries k p
read_tcp_flow_schedule-IsTcpFlowSchedule_example =
    read_tcp_flow_schedule-IsTcpFlowSchedule four_endpoints 10 two_flows two_entries
      two_flows_are_read

-- Whole numbers in place of doubles.
abbrev integers : Doubles
integers = record {
  Double = ℤ;
  stod = stoll;
  is_negative = λ v. ltb_ℤ v (pos 0);
  is_zero = λ v. v ==ℤ pos 0;
  above_one = λ v. ltb_ℤ (pos 1) v;
  truncate = λ v. some (pos_part v);
}

abbrev burst : UdpBurstInfo ℤ
burst = record {
  udp_burst_id = 0;
  from_node_id = 1;
  to_node_id = 2;
  target_rate_megabit_per_s = pos 50;
  start_time_ns = 5;
  duration_ns = 100;
  additional_parameters = [];
  metadata = codes "m";
}

burst_is_read :
    read_udp_burst_schedule integers (some (codes "0,1,2,50,5,100,,m" ∷ [])) four_endpoints 10
    ≡ ok (burst ∷ [])
unfolding read_udp_burst_schedule parse_positive_double
burst_is_read = refl

read_udp_burst_schedule-IsUdpBurstSchedule_example :
    (k p : ℕ) × IsUdpBurstSchedule integers four_endpoints 10 0 0 (burst ∷ []) k p
read_udp_burst_schedule-IsUdpBurstSchedule_example =
    read_udp_burst_schedule-IsUdpBurstSchedule integers four_endpoints 10
      (codes "0,1,2,50,5,100,,m" ∷ []) (burst ∷ []) burst_is_read

abbrev multicast_lines : List Text
multicast_lines = codes "0,0,2,2 3,50,5,100,," ∷ []

abbrev multicast_entry : MulticastUdpInfo ℤ
multicast_entry = record {
  udp_burst_id = 0;
  from_node_id = 0;
  to_node_ids = 2 ∷ 3 ∷ [];
  target_rate_megabit_per_s = pos 50;
  start_time_ns = 5;
  duration_ns = 100;
  additional_parameters = [];
  metadata = [];
  multicast_group = 3_758_096_384;
}

multicast_is_read :
    read_multicast_udp_schedule integers (some multicast_lines) four_endpoints 10
    ≡ ok (multicast_entry ∷ [])
unfolding read_multicast_udp_schedule parse_positive_double
multicast_is_read = refl

source_as_member :
    read_multicast_udp_schedule integers
      (some (codes "0,0,2,0 3,50,5,100,," ∷ []))
      four_endpoints
      10
    ≡ err invalid_argument
unfolding read_multicast_udp_schedule parse_positive_double
source_as_member = refl

read_multicast_udp_schedule-IsMulticastUdpSchedule_example :
    (k p : ℕ) × IsMulticastUdpSchedule integers four_endpoints 10 0 0 (multicast_entry ∷ []) k p
read_multicast_udp_schedule-IsMulticastUdpSchedule_example =
    read_multicast_udp_schedule-IsMulticastUdpSchedule integers four_endpoints 10 multicast_lines
      (multicast_entry ∷ []) multicast_is_read

abbrev address : ℕ → ℕ → ℕ
address node i = 256 * node + i

abbrev routed : RoutingState
routed =
    (record { origin = 1; group = 3_758_096_384; input_interface = 0; output_interfaces = 1 ∷ [] }
      ∷ [])
    ∷ (record {
      origin = 1;
      group = 3_758_096_384;
      input_interface = 1;
      output_interfaces = 2 ∷ 3 ∷ [];
    }
        ∷ [])
    ∷ []
    ∷ []
    ∷ []

multicast_routed :
    cal_global_multicast_state address 3_758_096_384 star_candidates star_interfaces
      (map to_request (multicast_entry ∷ []))
      no_routes
    ≡ ok routed
unfolding cal_global_multicast_state
multicast_routed = refl

no_routes_lem : (x : ℕ) → routes_of no_routes x ≡ []
no_routes_lem zero = refl
no_routes_lem (suc zero) = refl
no_routes_lem (suc (suc zero)) = refl
no_routes_lem (suc (suc (suc zero))) = refl
no_routes_lem (suc (suc (suc (suc x)))) = refl

read_multicast_udp_schedule-Delivers_example :
    Delivers star_interfaces routed 0 multicast_entry.multicast_group 0 3
read_multicast_udp_schedule-Delivers_example =
    read_multicast_udp_schedule-Delivers integers four_endpoints 10 multicast_lines
      (multicast_entry ∷ []) address star_candidates star_interfaces no_routes routed
      multicast_is_read (omega arith) star-HasInterfaces no_routes_lem multicast_routed
      multicast_entry (inl refl) 3 (inr (inl refl))
