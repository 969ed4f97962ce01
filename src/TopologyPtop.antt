-- ===== src/TopologyPtop.antt =====
-- TopologyPtop: simulator/contrib/basic-sim/model/core/topology-ptop.cc. The topology file, a
-- configuration of ExpUtil, becomes a graph with its kinds of nodes and the properties of its
-- links. A std::set of pairs is a list that ascends lexicographically.
pub mod Edges
pub mod Valid
pub mod Links
pub mod Selectors
mod Tests
use hypatia_multicast.Base.{
  ℕ, Bool, true, false, List, [], ◌∷◌, ◌++◌, Option, some, none, Result, ok, ◌>>=◌, ◌>>◌,
  if◌then◌else◌, not, ◌&&◌, ◌||◌, for_each, ltb, ◌==◌, invalid_argument, runtime_error, undefined,
  throw_if, or_throw, length, get_elem?, get_or, set, replicate, insert_set, insert_by, range_from,
}
use hypatia_multicast.ExpUtil.Text.{Text, split_string_expecting, text_eq}
use hypatia_multicast.ExpUtil.Numbers.{parse_positive_int64, parse_boolean}
use hypatia_multicast.ExpUtil.Collections.{
  parse_set_string, parse_set_positive_int64, all_items_are_less_than, direct_set_intersection,
  direct_set_union,
}
use hypatia_multicast.ExpUtil.Config.{Config, read_config, get_param_or_fail, get_param_or_default}
use hypatia_multicast.Routing.Ecmp.{Edge}
use Prim.Native.Char.{code}
use Prim.Native.String.{String}

pub record TopologyPtop : Type 0 where
  pub num_nodes : ℕ
  pub num_undirected_edges : ℕ
  pub switches : List ℕ
  pub switches_which_are_tors : List ℕ
  pub servers : List ℕ
  pub has_zero_servers : Bool
  pub all_nodes_are_endpoints : Bool
  pub all_node_ids : List ℕ
  pub undirected_edges : List Edge
  pub undirected_edges_set : List Edge
  pub adjacency_list : List (List ℕ)

-- The bytes of a literal.
abbrev pub codes : String → Text
codes String.[] = []
codes (String.◌∷◌ c s) = code c ∷ codes s

-- std::pair compares its first component first.
abbrev pub edge_lt : Edge → Edge → Bool
edge_lt (a, b) (c, d) = ltb a c || ((a == c) && ltb b d)

abbrev pub has_node : ℕ → List ℕ → Bool
has_node x [] = false
has_node x (y ∷ ys) = x == y || has_node x ys

-- The properties that a topology file may have.
abbrev pub known_properties : List Text
known_properties =
    codes "num_nodes"
    ∷ codes "num_undirected_edges"
    ∷ codes "switches"
    ∷ codes "switches_which_are_tors"
    ∷ codes "servers"
    ∷ codes "undirected_edges"
    ∷ codes "all_nodes_are_endpoints"
    ∷ codes "link_channel_delay_ns"
    ∷ codes "link_device_data_rate_megabit_per_s"
    ∷ codes "link_device_queue"
    ∷ codes "link_interface_traffic_control_qdisc"
    ∷ []

abbrev pub has_text : Text → List Text → Bool
has_text s [] = false
has_text s (t ∷ ts) = text_eq s t || has_text s ts

-- The loop that looks for an unknown property.
unfoldable pub check_properties : Config → Result (Unit {0})
unfolding text_eq
check_properties [] = ok tt
check_properties ((key, value) ∷ config) =
    throw_if (not (has_text key known_properties)) runtime_error >> check_properties config

-- `ReadTopologyConfig`, with m_all_nodes_are_endpoints.
unfoldable pub read_topology_config : Option (List Text) → Result (Config × Bool)
unfolding read_config check_properties get_param_or_default parse_boolean
read_topology_config file = do
  config ← read_config file
  check_properties config
  all_nodes_are_endpoints ←
      parse_boolean (get_param_or_default (codes "all_nodes_are_endpoints") (codes "false") config)
  ok (config, all_nodes_are_endpoints)

-- What the loop over the edges fills.
pub record EdgeSets : Type 0 where
  pub edges : List Edge
  pub edge_set : List Edge
  pub adjacency : List (List ℕ)

unfoldable pub add_neighbor : ℕ → ℕ → List (List ℕ) → List (List ℕ)
unfolding insert_set
add_neighbor a b adjacency = set adjacency a (insert_set b (get_or adjacency a []))

unfoldable pub add_edge : ℕ → ℕ → EdgeSets → EdgeSets
unfolding add_neighbor insert_by
add_edge a b st = record {
  edges = st.edges ++ (a, b) ∷ [];
  edge_set = insert_by edge_lt (a, b) st.edge_set;
  adjacency = add_neighbor b a (add_neighbor a b st.adjacency);
}

-- The body of the loop over the edges.
unfoldable pub parse_edge : ℕ → EdgeSets → Text → Result EdgeSets
unfolding add_edge split_string_expecting parse_positive_int64
parse_edge num_nodes st s = do
  spl ← split_string_expecting s (b'-' ∷ []) 2
  left ← or_throw (get_elem? spl 0) undefined
  a ← parse_positive_int64 left
  right ← or_throw (get_elem? spl 1) undefined
  b ← parse_positive_int64 right
  throw_if (a == b) invalid_argument
  throw_if (not (ltb a num_nodes)) invalid_argument
  throw_if (not (ltb b num_nodes)) invalid_argument
  throw_if (ltb b a) invalid_argument
  ok (add_edge a b st)

-- std::sort: equal pairs cannot be told apart, so every sorting gives this list.
unfoldable pub insert_sorted : Edge → List Edge → List Edge
insert_sorted e [] = e ∷ []
insert_sorted e (f ∷ fs) = if edge_lt e f then e ∷ f ∷ fs else f ∷ insert_sorted e fs

unfoldable pub sort_edges : List Edge → List Edge → List Edge
unfolding insert_sorted
sort_edges sorted [] = sorted
sort_edges sorted (e ∷ es) = sort_edges (insert_sorted e sorted) es

-- Are all nodes of a set ToRs?
unfoldable pub all_tors : List ℕ → List ℕ → Result (Unit {0})
all_tors tors [] = ok tt
all_tors tors (x ∷ xs) = throw_if (not (has_node x tors)) invalid_argument >> all_tors tors xs

-- The loops that check that servers are connected to ToRs only.
unfoldable pub check_servers : List (List ℕ) → List ℕ → List ℕ → Result (Unit {0})
unfolding all_tors
check_servers adjacency tors [] = ok tt
check_servers adjacency tors (node ∷ nodes) =
    all_tors tors (get_or adjacency node []) >> check_servers adjacency tors nodes

abbrev is_empty_set : List ℕ → Bool
is_empty_set [] = true
is_empty_set (x ∷ xs) = false

-- The checks of the edges and of the kinds of nodes.
unfoldable pub check_topology : TopologyPtop → Result (Unit {0})
unfolding direct_set_intersection direct_set_union check_servers
check_topology t = do
  throw_if (not (length t.undirected_edges == t.num_undirected_edges)) invalid_argument
  throw_if (not (length t.undirected_edges == length t.undirected_edges_set)) invalid_argument
  throw_if (not (length (direct_set_intersection t.servers t.switches) == 0)) invalid_argument
  throw_if (not (length (direct_set_union t.servers t.switches) == t.num_nodes)) invalid_argument
  throw_if
      (not (
        length (direct_set_intersection t.switches t.switches_which_are_tors)
        == length t.switches_which_are_tors))
      invalid_argument
  check_servers t.adjacency_list t.switches_which_are_tors t.servers

-- A set of nodes, and the test of its items.
unfoldable pub parse_nodes : Config → Text → ℕ → Result (List ℕ)
unfolding get_param_or_fail parse_set_positive_int64 all_items_are_less_than
parse_nodes config key num_nodes = do
  tmp ← get_param_or_fail key config
  nodes ← parse_set_positive_int64 tmp
  all_items_are_less_than nodes num_nodes
  ok nodes

-- The members that `ParseTopologyGraph` sets.
unfoldable pub topology_of :
    (num_nodes num_undirected_edges : ℕ)
    → (switches tors servers : List ℕ) → (all_nodes_are_endpoints : Bool) → EdgeSets
    → TopologyPtop
unfolding sort_edges range_from
topology_of num_nodes num_undirected_edges switches tors servers all_nodes_are_endpoints sets =
    record {
      num_nodes = num_nodes;
      num_undirected_edges = num_undirected_edges;
      switches = switches;
      switches_which_are_tors = tors;
      servers = servers;
      has_zero_servers = is_empty_set servers;
      all_nodes_are_endpoints = all_nodes_are_endpoints;
      all_node_ids = range_from 0 num_nodes;
      undirected_edges = sort_edges [] sets.edges;
      undirected_edges_set = sets.edge_set;
      adjacency_list = sets.adjacency;
    }

-- `ParseTopologyGraph`. In a distributed simulation there is a number of node assignments.
unfoldable pub parse_topology_graph : Config → Bool → Option ℕ → Result TopologyPtop
unfolding get_param_or_fail parse_positive_int64 parse_nodes parse_set_string for_each parse_edge
    topology_of check_topology
parse_topology_graph config all_nodes_are_endpoints distributed = do
  num_nodes_text ← get_param_or_fail (codes "num_nodes") config
  num_nodes ← parse_positive_int64 num_nodes_text
  num_edges_text ← get_param_or_fail (codes "num_undirected_edges") config
  num_undirected_edges ← parse_positive_int64 num_edges_text
  switches ← parse_nodes config (codes "switches") num_nodes
  tors ← parse_nodes config (codes "switches_which_are_tors") num_nodes
  servers ← parse_nodes config (codes "servers") num_nodes
  edges_text ← get_param_or_fail (codes "undirected_edges") config
  string_set ← parse_set_string edges_text
  sets ←
      for_each (parse_edge num_nodes)
        (record { edges = []; edge_set = []; adjacency = replicate num_nodes [] }) string_set
  let t =
      topology_of num_nodes num_undirected_edges switches tors servers all_nodes_are_endpoints sets
  check_topology t
  throw_if (elim distributed [ none ↦ false | some size ↦ not (size == num_nodes) ])
      invalid_argument
  ok t

unfoldable pub is_valid_endpoint : TopologyPtop → ℕ → Bool
is_valid_endpoint t node_id =
    if t.all_nodes_are_endpoints
    then true
    else if t.has_zero_servers
    then has_node node_id t.switches_which_are_tors
    else has_node node_id t.servers

unfoldable pub get_endpoints : TopologyPtop → List ℕ
get_endpoints t =
    if t.all_nodes_are_endpoints
    then t.all_node_ids
    else if t.has_zero_servers
    then t.switches_which_are_tors
    else t.servers
