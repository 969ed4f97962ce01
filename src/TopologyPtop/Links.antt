-- ===== src/TopologyPtop/Links.antt =====
-- The properties of links in topology-ptop.cc: maps from edges to values, which the file gives once
-- for all edges or edge by edge. A std::map is a list that ascends by its keys. What ns-3 makes of
-- the text of a queue or a traffic control discipline is an argument.
pub mod Keys
pub mod Covered
use hypatia_multicast.Base.{
  ℕ, ◌*◌, Bool, false, List, [], ◌∷◌, Result, ok, ◌>>=◌, ◌>>◌, if◌then◌else◌, not, ◌&&◌, ◌||◌,
  for_each, ltb, ◌==◌, invalid_argument, runtime_error, undefined, throw_if, or_throw, length,
  get_elem?,
}
use hypatia_multicast.ExpUtil.Text.{Text, split_string_expecting, trim, starts_with}
use hypatia_multicast.ExpUtil.Numbers.{parse_positive_int64, Doubles, parse_positive_double}
use hypatia_multicast.ExpUtil.Collections.{parse_map_string}
use hypatia_multicast.ExpUtil.Config.{Config, get_param_or_fail}
use hypatia_multicast.Routing.Ecmp.{Edge}
use hypatia_multicast.TopologyPtop.{TopologyPtop, codes, edge_lt}

abbrev pub EdgeMap : Type 0 → Type 0
EdgeMap V = List (Edge × V)

-- `map[key] = value`.
unfoldable pub put_edge : {V : Type 0} → Edge → V → EdgeMap V → EdgeMap V
put_edge k v [] = (k, v) ∷ []
put_edge k v ((j, w) ∷ m) =
    if edge_lt k j
    then (k, v) ∷ (j, w) ∷ m
    else if edge_lt j k
    then (j, w) ∷ put_edge k v m
    else (k, v) ∷ m

-- `find(key) != end()`.
unfoldable pub has_key : {V : Type 0} → Edge → EdgeMap V → Bool
has_key k [] = false
has_key k ((j, w) ∷ m) = (not (edge_lt k j) && not (edge_lt j k)) || has_key k m

unfoldable pub has_edge : Edge → List Edge → Bool
has_edge k [] = false
has_edge k (j ∷ es) = (not (edge_lt k j) && not (edge_lt j k)) || has_edge k es

-- The two ids of a key, divided at a dash or an arrow.
unfoldable pub parse_key : Text → Text → Result Edge
unfolding split_string_expecting parse_positive_int64
parse_key delimiter key = do
  dash_split_list ← split_string_expecting key delimiter 2
  left ← or_throw (get_elem? dash_split_list 0) undefined
  a ← parse_positive_int64 left
  right ← or_throw (get_elem? dash_split_list 1) undefined
  b ← parse_positive_int64 right
  ok (a, b)

-- The body of the loop of `ParseUndirectedEdgeMap`.
unfoldable pub put_undirected : List Edge → EdgeMap Text → Text × Text → Result (EdgeMap Text)
unfolding parse_key has_key has_edge put_edge
put_undirected edge_set result (key, value) = do
  e ← parse_key (b'-' ∷ []) key
  throw_if (ltb e.1 e.0) invalid_argument
  throw_if (has_key e result) runtime_error
  throw_if (not (has_edge e edge_set)) runtime_error
  ok (put_edge e value result)

unfoldable pub parse_undirected_edge_map : List Edge → Text → Result (EdgeMap Text)
unfolding parse_map_string for_each put_undirected
parse_undirected_edge_map edge_set value = do
  pair_list ← parse_map_string value
  result ← for_each (put_undirected edge_set) [] pair_list
  throw_if (not (length edge_set == length result)) runtime_error
  ok result

-- make_pair(a < b ? a : b, b > a ? b : a).
abbrev pub undirected : Edge → Edge
undirected (a, b) = (if ltb a b then a else b, if ltb a b then b else a)

-- The body of the loop of `ParseDirectedEdgeMap`.
unfoldable pub put_directed : List Edge → EdgeMap Text → Text × Text → Result (EdgeMap Text)
unfolding parse_key has_key has_edge put_edge
put_directed edge_set result (key, value) = do
  e ← parse_key (b'-' ∷ b'>' ∷ []) key
  throw_if (has_key e result) runtime_error
  throw_if (not (has_edge (undirected e) edge_set)) runtime_error
  ok (put_edge e value result)

unfoldable pub parse_directed_edge_map : List Edge → Text → Result (EdgeMap Text)
unfolding parse_map_string for_each put_directed
parse_directed_edge_map edge_set value = do
  pair_list ← parse_map_string value
  result ← for_each (put_directed edge_set) [] pair_list
  throw_if (not (length edge_set * 2 == length result)) runtime_error
  ok result

-- The loop that parses the values of a map.
unfoldable pub parse_values :
    {V : Type 0} → (Text → Result V) → EdgeMap V → EdgeMap Text → Result (EdgeMap V)
unfolding put_edge
parse_values parse m [] = ok m
parse_values parse m ((e, text) ∷ entries) =
    parse text >>= λ v. parse_values parse (put_edge e v m) entries

-- The loop that gives every edge, or every edge in both directions, one value.
unfoldable pub fill_undirected : {V : Type 0} → V → EdgeMap V → List Edge → EdgeMap V
unfolding put_edge
fill_undirected v m [] = m
fill_undirected v m (e ∷ es) = fill_undirected v (put_edge e v m) es

unfoldable pub fill_directed : {V : Type 0} → V → EdgeMap V → List Edge → EdgeMap V
unfolding put_edge
fill_directed v m [] = m
fill_directed v m ((a, b) ∷ es) = fill_directed v (put_edge (b, a) v (put_edge (a, b) v m)) es

abbrev pub is_map : Text → Bool
is_map value = starts_with (trim value) (codes "map")

-- `ParseLinkChannelDelayNsProperty`.
unfoldable pub parse_link_channel_delay_ns : TopologyPtop → Config → Result (EdgeMap ℕ)
unfolding get_param_or_fail starts_with trim parse_undirected_edge_map parse_values fill_undirected
    parse_positive_int64
parse_link_channel_delay_ns t config = do
  value ← get_param_or_fail (codes "link_channel_delay_ns") config
  if is_map value
      then (do
        m ← parse_undirected_edge_map t.undirected_edges_set value
        parse_values parse_positive_int64 [] m)
      else (do v ← parse_positive_int64 value; ok (fill_undirected v [] t.undirected_edges_set))

-- The three properties of the two devices of a link, read alike.
unfoldable pub parse_directed_property :
    {V : Type 0} → Text → (Text → Result V) → TopologyPtop → Config → Result (EdgeMap V)
unfolding get_param_or_fail starts_with trim parse_directed_edge_map parse_values fill_directed
parse_directed_property key parse t config = do
  value ← get_param_or_fail key config
  if is_map value
      then (do m ← parse_directed_edge_map t.undirected_edges_set value; parse_values parse [] m)
      else (do v ← parse value; ok (fill_directed v [] t.undirected_edges_set))

-- `ParseLinkDeviceDataRateMegabitPerSecProperty`.
unfoldable pub parse_link_device_data_rate :
    (doubles : Doubles) → TopologyPtop → Config → Result (EdgeMap doubles.Double)
unfolding parse_directed_property parse_positive_double
parse_link_device_data_rate doubles =
    parse_directed_property (codes "link_device_data_rate_megabit_per_s")
      (parse_positive_double doubles)

-- `ParseLinkDeviceQueueProperty`, with the queue selector.
unfoldable pub parse_link_device_queue :
    {Queue : Type 0} → (Text → Result Queue) → TopologyPtop → Config → Result (EdgeMap Queue)
unfolding parse_directed_property
parse_link_device_queue = parse_directed_property (codes "link_device_queue")

-- `ParseLinkInterfaceTrafficControlQdiscProperty`, with the selector of disciplines.
unfoldable pub parse_link_interface_qdisc :
    {Qdisc : Type 0} → (Text → Result Qdisc) → TopologyPtop → Config → Result (EdgeMap Qdisc)
unfolding parse_directed_property
parse_link_interface_qdisc = parse_directed_property (codes "link_interface_traffic_control_qdisc")
