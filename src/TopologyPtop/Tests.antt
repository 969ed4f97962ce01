-- ===== src/TopologyPtop/Tests.antt =====
-- A topology of two servers and two ToRs in a line.
use hypatia_multicast.Base.{ℕ, ◌≡◌, refl, ◌↔◌, false, [], ◌∷◌, none, ok, In}
use hypatia_multicast.ExpUtil.Text.{Text}
use hypatia_multicast.ExpUtil.Config.{Config}
use hypatia_multicast.Routing.Ecmp.Shortest.{Adjacent}
use hypatia_multicast.TopologyPtop.{TopologyPtop, codes, parse_topology_graph}
use hypatia_multicast.TopologyPtop.Valid.{IsTopology, parse_topology_graph-IsTopology}
use hypatia_multicast.TopologyPtop.Links.{
  EdgeMap, parse_link_channel_delay_ns, parse_directed_property,
}
use hypatia_multicast.TopologyPtop.Links.Keys.{keys}
use hypatia_multicast.TopologyPtop.Links.Covered.{
  parse_link_channel_delay_ns-keys, parse_directed_property-keys,
}
use hypatia_multicast.TopologyPtop.Selectors.{parse_queue_value, fq_codel, parse_tc_qdisc_value}

abbrev line_config : Config
line_config =
    (codes "num_nodes", codes "4")
    ∷ (codes "num_undirected_edges", codes "3")
    ∷ (codes "switches", codes "set(1,2)")
    ∷ (codes "switches_which_are_tors", codes "set(1,2)")
    ∷ (codes "servers", codes "set(0,3)")
    ∷ (codes "undirected_edges", codes "set(2-3,0-1,1-2)")
    ∷ (codes "link_channel_delay_ns", codes "map(0-1:10,2-3:30,1-2:20)")
    ∷ (codes "link_device_queue", codes "drop_tail(100p)")
    ∷ []

abbrev line : TopologyPtop
line = record {
  num_nodes = 4;
  num_undirected_edges = 3;
  switches = 1 ∷ 2 ∷ [];
  switches_which_are_tors = 1 ∷ 2 ∷ [];
  servers = 0 ∷ 3 ∷ [];
  has_zero_servers = false;
  all_nodes_are_endpoints = false;
  all_node_ids = 0 ∷ 1 ∷ 2 ∷ 3 ∷ [];
  undirected_edges = (0, 1) ∷ (1, 2) ∷ (2, 3) ∷ [];
  undirected_edges_set = (0, 1) ∷ (1, 2) ∷ (2, 3) ∷ [];
  adjacency_list = (1 ∷ []) ∷ (0 ∷ 2 ∷ []) ∷ (1 ∷ 3 ∷ []) ∷ (2 ∷ []) ∷ [];
}

line_is_parsed : parse_topology_graph line_config false none ≡ ok line
unfolding parse_topology_graph
line_is_parsed = refl

line-IsTopology : IsTopology line
line-IsTopology = parse_topology_graph-IsTopology line_config false none line line_is_parsed

parse_topology_graph-IsTopology_example : IsTopology line
parse_topology_graph-IsTopology_example =
    parse_topology_graph-IsTopology line_config false none line line_is_parsed

delays_are_parsed :
    parse_link_channel_delay_ns line line_config
    ≡ ok (((0, 1), 10) ∷ ((1, 2), 20) ∷ ((2, 3), 30) ∷ [])
unfolding parse_link_channel_delay_ns
delays_are_parsed = refl

parse_link_channel_delay_ns-keys_example :
    keys {V = ℕ} (((0, 1), 10) ∷ ((1, 2), 20) ∷ ((2, 3), 30) ∷ []) ≡ line.undirected_edges
parse_link_channel_delay_ns-keys_example =
    parse_link_channel_delay_ns-keys line line_config
      (((0, 1), 10) ∷ ((1, 2), 20) ∷ ((2, 3), 30) ∷ []) line-IsTopology delays_are_parsed

abbrev queue : Text
queue = codes "100p"

abbrev queues : EdgeMap Text
queues =
    ((0, 1), queue)
    ∷ ((1, 0), queue)
    ∷ ((1, 2), queue)
    ∷ ((2, 1), queue)
    ∷ ((2, 3), queue)
    ∷ ((3, 2), queue)
    ∷ []

queues_are_parsed :
    parse_directed_property (codes "link_device_queue") parse_queue_value line line_config
    ≡ ok queues
unfolding parse_directed_property parse_queue_value
queues_are_parsed = refl

parse_directed_property-keys_example : In (2, 1) (keys queues) ↔ Adjacent line.undirected_edges 2 1
parse_directed_property-keys_example =
    parse_directed_property-keys (codes "link_device_queue") parse_queue_value line line_config
      queues line-IsTopology queues_are_parsed 2 1

better_rtt : parse_tc_qdisc_value 4000 (codes "fq_codel_better_rtt") ≡ ok (fq_codel 4000 200)
unfolding parse_tc_qdisc_value
better_rtt = refl
