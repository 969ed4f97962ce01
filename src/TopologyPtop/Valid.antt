-- ===== src/TopologyPtop/Valid.antt =====
-- What `ParseTopologyGraph` of topology-ptop.cc ensures of the topologies that it accepts.
use hypatia_multicast.Base.{
  ℕ, ◌<◌, ◌≡◌, refl, sym, ap, subst, ◌∙◌, ◌⊎◌, ◌↔◌, Bool, true, false, List, [], ◌∷◌, Option, some,
  none, ok, not, for_each, arith, ltb, ◌==◌, Bool-cases, inl, inr, length, In, replicate,
  invalid_argument, passed, >>=-eq-ok, Ensures, bind, guarded, returns, Ascends, ltb-StrictOrder,
  length-le_of_subset, In-of_full_set,
}
use hypatia_multicast.ExpUtil.Text.{Text}
use hypatia_multicast.ExpUtil.Numbers.{parse_positive_int64}
use hypatia_multicast.ExpUtil.Config.{Config, get_param_or_fail}
use hypatia_multicast.ExpUtil.Collections.{
  parse_set_string, parse_set_positive_int64, all_items_are_less_than, direct_set_intersection,
  direct_set_union,
}
use hypatia_multicast.ExpUtil.Collections.Sets.{
  parse_set_positive_int64-Ascends, all_items_are_less_than-lt, In-direct_set_intersection,
  direct_set_intersection-In, direct_set_intersection-Ascends, direct_set_union-In,
  direct_set_union-Ascends,
}
use hypatia_multicast.Routing.Ecmp.{Edge}
use hypatia_multicast.Routing.Ecmp.Shortest.{Adjacent, IsWithin}
use hypatia_multicast.TopologyPtop.{
  TopologyPtop, codes, has_node, edge_lt, EdgeSets, parse_edge, sort_edges, all_tors, check_servers,
  check_topology, parse_nodes, parse_topology_graph, topology_of,
}
use hypatia_multicast.TopologyPtop.Edges.{
  neighbors_at, IsFilled, parse_edges-IsFilled, length-sort_edges,
}

-- A topology that the parser accepts.
pub record IsTopology (t : TopologyPtop) : Type 0 where
  pub within : IsWithin t.num_nodes t.undirected_edges
  pub oriented : (a b : ℕ) → In (a, b) t.undirected_edges → a < b
  pub ascends : Ascends edge_lt t.undirected_edges
  pub counted : length t.undirected_edges ≡ t.num_undirected_edges
  pub same_set : t.undirected_edges_set ≡ t.undirected_edges
  pub adjacency :
      (x y : ℕ) → In y (neighbors_at t.adjacency_list x) ↔ Adjacent t.undirected_edges x y
  pub disjoint : (x : ℕ) → In x t.servers → In x t.switches → ⊥
  pub covering : (x : ℕ) → x < t.num_nodes → In x t.servers ⊎ In x t.switches
  pub tors : (x : ℕ) → In x t.switches_which_are_tors → In x t.switches
  pub at_tors :
      (x y : ℕ) → In x t.servers → Adjacent t.undirected_edges x y → In y t.switches_which_are_tors

pub has_node-In : (x : ℕ) (ys : List ℕ) → has_node x ys ≡ true → In x ys
has_node-In x [] e = cc
has_node-In x (y ∷ ys) e = ground (arith, has_node-In x ys)

pub In-has_node : (x : ℕ) (ys : List ℕ) → In x ys → has_node x ys ≡ true
In-has_node x [] m = absurd m
In-has_node x (y ∷ ys) m = ground (arith, In-has_node x ys)

all_tors-In :
    (tors xs : List ℕ) {u : Unit {0}} → all_tors tors xs ≡ ok u → (x : ℕ) → In x xs → In x tors
unfolding all_tors
all_tors-In tors [] e x m = absurd m
all_tors-In tors (y ∷ ys) e x m = elim (Bool-cases (has_node y tors)) [
  | inl tor ↦ elim m [
    | inl same ↦ subst (λ w. In w tors) (sym same) (has_node-In y tors tor)
    | inr later ↦ all_tors-In tors ys (rw (tor, all_tors) at e) x later
  ]
  | inr no_tor ↦ let e' = rw (no_tor, all_tors) at e in cc
]

check_servers-In :
    (adjacency : List (List ℕ)) (tors nodes : List ℕ) {u : Unit {0}}
    → check_servers adjacency tors nodes ≡ ok u
    → (x y : ℕ) → In x nodes
    → In y (neighbors_at adjacency x)
    → In y tors
unfolding check_servers
check_servers-In adjacency tors [] e x y m k = absurd m
check_servers-In adjacency tors (node ∷ nodes) e x y m k =
    let (u, e1, e2) = >>=-eq-ok (all_tors tors (neighbors_at adjacency node)) _ e in
    elim m [
      | inl same ↦
          all_tors-In tors (neighbors_at adjacency node) e1 y
            (subst (λ w. In y (neighbors_at adjacency w)) same k)
      | inr later ↦ check_servers-In adjacency tors nodes e2 x y later k
    ]

IsWithin-of_In :
    (n : ℕ) (es : List Edge) → ((a b : ℕ) → In (a, b) es → (a < b) × (b < n)) → IsWithin n es
IsWithin-of_In n [] h = tt
IsWithin-of_In n ((a, b) ∷ es) h =
    let (ab, bn) = h a b (inl refl) in
    (
      (omega (arith, ab, bn), bn, λ e. omega (arith, ab, e)),
      IsWithin-of_In n es (λ c d m. h c d (inr m)),
    )

-- A set of nodes that was read.
IsNodes : ℕ → List ℕ → Type 0
IsNodes n nodes = Ascends ltb nodes × ((x : ℕ) → In x nodes → x < n)

parse_nodes-IsNodes :
    (config : Config) (key : Text) (n : ℕ) → Ensures (IsNodes n) (parse_nodes config key n)
unfolding parse_nodes IsNodes
parse_nodes-IsNodes config key n = bind (get_param_or_fail key config) _ λ tmp _.
    bind (parse_set_positive_int64 tmp) _ λ nodes made.
      bind (all_items_are_less_than nodes n) _ λ u checked. returns nodes (
        (parse_set_positive_int64-Ascends tmp).holds nodes made,
        all_items_are_less_than-lt nodes n checked,
      )

no_items : (xs : List ℕ) → length xs ≡ 0 → (x : ℕ) → In x xs → ⊥
no_items [] e x m = m
no_items (y ∷ ys) e x m = omega (arith, e)

-- What the checks say.
record IsChecked (t : TopologyPtop) : Type 0 where
  counted : length t.undirected_edges ≡ t.num_undirected_edges
  no_duplicates : length t.undirected_edges ≡ length t.undirected_edges_set
  apart : length (direct_set_intersection t.servers t.switches) ≡ 0
  together : length (direct_set_union t.servers t.switches) ≡ t.num_nodes
  are_switches :
      length (direct_set_intersection t.switches t.switches_which_are_tors)
      ≡ length t.switches_which_are_tors
  servers_at_tors :
      (x y : ℕ)
      → In x t.servers
      → In y (neighbors_at t.adjacency_list x)
      → In y t.switches_which_are_tors

equal_of_test : (a b : ℕ) → not (a == b) ≡ false → a ≡ b
equal_of_test a b e = ground arith

check_topology-IsChecked : (t : TopologyPtop) {u : Unit {0}} → check_topology t ≡ ok u → IsChecked t
unfolding check_topology
check_topology-IsChecked t e =
    let (h1, e1) = passed _ invalid_argument _ e in
    let (h2, e2) = passed _ invalid_argument _ e1 in
    let (h3, e3) = passed _ invalid_argument _ e2 in
    let (h4, e4) = passed _ invalid_argument _ e3 in
    let (h5, e5) = passed _ invalid_argument _ e4 in
    record {
      counted = equal_of_test _ _ h1;
      no_duplicates = equal_of_test _ _ h2;
      apart = equal_of_test _ _ h3;
      together = equal_of_test _ _ h4;
      are_switches = equal_of_test _ _ h5;
      servers_at_tors = check_servers-In t.adjacency_list t.switches_which_are_tors t.servers e5;
    }

module _ (t : TopologyPtop) (st : EdgeSets) where
  -- The topology holds the sets that the loop filled.
  record Holds : Type 0 where
    edges : t.undirected_edges ≡ sort_edges [] st.edges
    edge_set : t.undirected_edges_set ≡ st.edge_set
    adjacency : t.adjacency_list ≡ st.adjacency
    switches : IsNodes t.num_nodes t.switches
    tors : IsNodes t.num_nodes t.switches_which_are_tors
    servers : IsNodes t.num_nodes t.servers

  Holds-IsTopology : IsFilled t.num_nodes st → Holds → IsChecked t → IsTopology t
  unfolding IsNodes
  Holds-IsTopology v h c =
      let size : length st.edge_set ≡ length st.edges = omega (
        arith,
        c.no_duplicates,
        ap (length {A = Edge}) h.edges,
        ap (length {A = Edge}) h.edge_set,
        length-sort_edges [] st.edges,
      ) in
      let same : t.undirected_edges ≡ st.edge_set = h.edges ∙ v.sorted size in
      let move = λ (e : Edge) (m : In e t.undirected_edges). subst (In e) same m in
      let back = λ (e : Edge) (m : In e st.edge_set). subst (In e) (sym same) m in
      let to_adjacent = λ (x y : ℕ) (m : In y (neighbors_at t.adjacency_list x)).
        let k = v.sound x y (subst (λ a. In y (neighbors_at a x)) h.adjacency m) in
        let k' : Adjacent t.undirected_edges x y = elim k [
          | inl l ↦ inl (back _ l)
          | inr r ↦ inr (back _ r)
        ] in
        k' in
      let from_adjacent = λ (x y : ℕ) (m : Adjacent t.undirected_edges x y).
        let k : In y (neighbors_at st.adjacency x) = elim m [
          | inl l ↦ (v.complete x y (move _ l)).0
          | inr r ↦ (v.complete y x (move _ r)).1
        ] in
        subst (λ a. In y (neighbors_at a x)) (sym h.adjacency) k in
      let union_full =
        In-of_full_set t.num_nodes (direct_set_union t.servers t.switches)
          (direct_set_union-Ascends t.servers t.switches h.servers.0 h.switches.0)
          (λ x m. elim (direct_set_union-In t.servers t.switches x m) [
            | inl a ↦ h.servers.1 x a
            | inr b ↦ h.switches.1 x b
          ])
          c.together in
      let tors_set =
        length-le_of_subset ltb ltb-StrictOrder
          (direct_set_intersection t.switches t.switches_which_are_tors) t.switches_which_are_tors
          (direct_set_intersection-Ascends t.switches t.switches_which_are_tors h.switches.0)
          h.tors.0
          (λ x m. (direct_set_intersection-In t.switches t.switches_which_are_tors x m).1) in
      record {
        within = IsWithin-of_In t.num_nodes t.undirected_edges (λ a b m. v.oriented a b (move _ m));
        oriented = λ a b m. (v.oriented a b (move _ m)).0;
        ascends = subst (Ascends edge_lt) (sym same) v.ascends;
        counted = c.counted;
        same_set = h.edge_set ∙ sym same;
        adjacency = λ x y. (to_adjacent x y, from_adjacent x y);
        disjoint = λ x a b.
            no_items _ c.apart x
              (In-direct_set_intersection t.servers t.switches x h.servers.0 h.switches.0 a b);
        covering = λ x lt. direct_set_union-In t.servers t.switches x (union_full x lt);
        tors = λ x m.
            (direct_set_intersection-In t.switches t.switches_which_are_tors x
              (subst (In x) (sym (tors_set.1 c.are_switches)) m)).0;
        at_tors = λ x y m a. c.servers_at_tors x y m (from_adjacent x y a);
      }

parse_topology_graph-Ensures :
    (config : Config) (all_endpoints : Bool) (distributed : Option ℕ)
    → Ensures IsTopology (parse_topology_graph config all_endpoints distributed)
unfolding parse_topology_graph
parse_topology_graph-Ensures config all_endpoints distributed =
    bind (get_param_or_fail (codes "num_nodes") config) _ λ t0 _.
      bind (parse_positive_int64 t0) _ λ n _.
        bind (get_param_or_fail (codes "num_undirected_edges") config) _ λ t1 _.
          bind (parse_positive_int64 t1) _ λ count _.
            bind (parse_nodes config (codes "switches") n) _ λ switches e1.
              bind (parse_nodes config (codes "switches_which_are_tors") n) _ λ tors e2.
                bind (parse_nodes config (codes "servers") n) _ λ servers e3.
                  bind (get_param_or_fail (codes "undirected_edges") config) _ λ t2 _.
                    bind (parse_set_string t2) _ λ string_set _.
                      bind
                        (for_each (parse_edge n)
                          (record { edges = []; edge_set = []; adjacency = replicate n [] })
                          string_set)
                        _
                        λ sets e4.
                          let t = topology_of n count switches tors servers all_endpoints sets in
                          let holds : Holds t sets = record {
                            edges = refl;
                            edge_set = refl;
                            adjacency = refl;
                            switches =
                                (parse_nodes-IsNodes config (codes "switches") n).holds switches e1;
                            tors =
                                (parse_nodes-IsNodes config (codes "switches_which_are_tors")
                                    n).holds
                                  tors e2;
                            servers =
                                (parse_nodes-IsNodes config (codes "servers") n).holds servers e3;
                          } in
                          bind (check_topology t) _ λ u e5.
                            guarded
                              (elim distributed [ none ↦ false | some size ↦ not (size == n) ])
                              invalid_argument _
                              λ _. returns t (
                                Holds-IsTopology t sets
                                  ((parse_edges-IsFilled n string_set).holds sets e4) holds
                                  (check_topology-IsChecked t e5))

-- In a topology that `ParseTopologyGraph` returns, each edge joins two distinct nodes, the lower
-- one first; the edges ascend, are as many as indicated, and are those of the set of edges; the
-- adjacency list of a node has just the nodes that an edge joins to it; each node is a server or a
-- switch and none is both; ToRs are switches; and servers have edges to ToRs only.
pub parse_topology_graph-IsTopology :
    (config : Config) (all_endpoints : Bool) (distributed : Option ℕ) (t : TopologyPtop)
    → parse_topology_graph config all_endpoints distributed ≡ ok t
    → IsTopology t
parse_topology_graph-IsTopology config all_endpoints distributed t e =
    (parse_topology_graph-Ensures config all_endpoints distributed).holds t e
