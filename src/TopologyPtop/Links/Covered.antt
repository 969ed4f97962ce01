-- ===== src/TopologyPtop/Links/Covered.antt =====
-- The maps of topology-ptop.cc have exactly the edges, or exactly the two directions of each, as
-- keys.
use hypatia_multicast.Base.{
  ℕ, ◌*◌, ◌≡◌, sym, ap, subst, ◌∙◌, ◌⊎◌, List, [], ◌∷◌, ok, not, for_each, arith, ltb, ◌==◌,
  Bool-cases, inl, inr, length, In, ◌↔◌, invalid_argument, runtime_error, >>=-eq-ok, Result,
  Ensures, bind, guarded, returns, for_each-inv, Ascends, Ascends-ext, length-le_of_subset,
  if◌then◌else◌,
}
use hypatia_multicast.ExpUtil.Text.{Text}
use hypatia_multicast.ExpUtil.Numbers.{parse_positive_int64}
use hypatia_multicast.ExpUtil.Collections.{parse_map_string}
use hypatia_multicast.ExpUtil.Config.{Config, get_param_or_fail}
use hypatia_multicast.Routing.Ecmp.{Edge}
use hypatia_multicast.Routing.Ecmp.Shortest.{Adjacent}
use hypatia_multicast.TopologyPtop.{TopologyPtop, codes, edge_lt}
use hypatia_multicast.TopologyPtop.Edges.{edge_lt-StrictOrder}
use hypatia_multicast.TopologyPtop.Valid.{IsTopology}
use hypatia_multicast.TopologyPtop.Links.{
  EdgeMap, put_edge, has_edge, has_key, parse_key, put_undirected, parse_undirected_edge_map,
  undirected, put_directed, parse_directed_edge_map, parse_values, fill_undirected, fill_directed,
  is_map, parse_link_channel_delay_ns, parse_directed_property,
}
use hypatia_multicast.TopologyPtop.Links.Keys.{
  keys, KeysAre, Sets, length-keys, has_edge-In, put_edge-KeysAre, both_directions,
  parse_values-Sets, fill_undirected-Sets, both_directions-In, In-both_directions,
  both_directions-Ascends, length-both_directions, fill_directed-Sets,
}

-- All keys that are looked for, and no others.
pub parse_undirected_edge_map-keys :
    (edge_set : List Edge) (value : Text)
    → Ascends edge_lt edge_set
    → Ensures (λ (m : EdgeMap Text). keys m ≡ edge_set) (parse_undirected_edge_map edge_set value)
unfolding parse_undirected_edge_map put_undirected
parse_undirected_edge_map-keys edge_set value asc = bind (parse_map_string value) _ λ pairs _.
    bind (for_each (put_undirected edge_set) [] pairs) _ λ m made.
      guarded (not (length edge_set == length m)) runtime_error _ λ all. returns m (
        let h =
          (for_each-inv (KeysAre (λ e. In e edge_set)) (put_undirected edge_set)
              (λ m p k. bind (parse_key (b'-' ∷ []) p.0) _ λ e _.
                guarded (ltb e.1 e.0) invalid_argument _ λ _.
                  guarded (has_key e m) runtime_error _ λ _.
                    guarded (not (has_edge e edge_set)) runtime_error _ λ known.
                      returns (put_edge e p.1 m) (
                        put_edge-KeysAre (λ e. In e edge_set) e p.1 m
                          (has_edge-In e edge_set (ground arith)) k))
              [] pairs (tt, λ e i. absurd i)).holds
            m made in
        let size = length-keys m in
        (length-le_of_subset edge_lt edge_lt-StrictOrder (keys m) edge_set h.0 asc h.1).1
          (ground (arith, size, all)))

swap-undirected :
    (x y : ℕ) (es : List Edge) → In (undirected (x, y)) es → In (x, y) es ⊎ In (y, x) es
swap-undirected x y es m = elim (Bool-cases (ltb x y)) [
  | inl up ↦ inl (subst (λ t. In (if t then x else y, if t then y else x) es) up m)
  | inr down ↦ inr (subst (λ t. In (if t then x else y, if t then y else x) es) down m)
]

parse_directed_edge_map-keys :
    (edge_set : List Edge) (value : Text)
    → Ensures
        (λ (m : EdgeMap Text). keys m ≡ both_directions edge_set)
        (parse_directed_edge_map edge_set value)
unfolding parse_directed_edge_map put_directed
parse_directed_edge_map-keys edge_set value = bind (parse_map_string value) _ λ pairs _.
    bind (for_each (put_directed edge_set) [] pairs) _ λ m made.
      guarded (not (length edge_set * 2 == length m)) runtime_error _ λ all. returns m (
        let h =
          (for_each-inv (KeysAre (λ e. In e (both_directions edge_set))) (put_directed edge_set)
              (λ m p k. bind (parse_key (b'-' ∷ b'>' ∷ []) p.0) _ λ e _.
                guarded (has_key e m) runtime_error _ λ _.
                  guarded (not (has_edge (undirected e) edge_set)) runtime_error _ λ known.
                    returns (put_edge e p.1 m) (
                      put_edge-KeysAre (λ e. In e (both_directions edge_set)) e p.1 m
                        (In-both_directions e.0 e.1 edge_set (
                          swap-undirected e.0 e.1 edge_set
                            (has_edge-In (undirected e) edge_set (ground arith))))
                        k))
              [] pairs (tt, λ e i. absurd i)).holds
            m made in
        let size = length-keys m in
        let most = length-both_directions edge_set in
        let (le, eq) =
          length-le_of_subset edge_lt edge_lt-StrictOrder (keys m) (both_directions edge_set) h.0
            (both_directions-Ascends edge_set) h.1 in
        eq (ground (arith, size, most, le, all)))

Sets-keys :
    {V : Type 0} (es : List Edge) (r : EdgeMap V) → Ascends edge_lt es → Sets [] es r → keys r ≡ es
Sets-keys es r h sets =
    Ascends-ext edge_lt edge_lt-StrictOrder (keys r) es sets.ascends h
      (λ e i. elim (sets.only e i) [ inl old ↦ absurd old | inr new ↦ new ]) sets.added

-- Each channel has a delay: if `ParseLinkChannelDelayNsProperty` returns, whether the file gives
-- one delay or one for each edge, the keys of the map are the edges of the topology.
pub parse_link_channel_delay_ns-keys :
    (t : TopologyPtop) (config : Config) (m : EdgeMap ℕ)
    → IsTopology t
    → parse_link_channel_delay_ns t config ≡ ok m
    → keys m ≡ t.undirected_edges
unfolding parse_link_channel_delay_ns
parse_link_channel_delay_ns-keys t config m v made =
    let asc : Ascends edge_lt t.undirected_edges_set =
      subst (Ascends edge_lt) (sym v.same_set) v.ascends in
    let (value, e1, e2) =
      >>=-eq-ok (get_param_or_fail (codes "link_channel_delay_ns") config) _ made in
    elim (Bool-cases (is_map value)) [
      | inl per_edge ↦
          let (texts, f1, f2) =
            >>=-eq-ok (parse_undirected_edge_map t.undirected_edges_set value)
              (λ texts. parse_values parse_positive_int64 [] texts) (rw per_edge at e2) in
          let same =
            (parse_undirected_edge_map-keys t.undirected_edges_set value asc).holds texts f1 in
          let sets = (parse_values-Sets parse_positive_int64 [] texts tt).holds m f2 in
          Sets-keys (keys texts) m (subst (Ascends edge_lt) (sym same) asc) sets ∙ same ∙ v.same_set
      | inr one ↦
          let (delay, f1, f2) =
            >>=-eq-ok (parse_positive_int64 value)
              (λ d. ok (fill_undirected d [] t.undirected_edges_set)) (rw one at e2) in
          let same : fill_undirected delay [] t.undirected_edges_set ≡ m = cc in
          ap keys (sym same)
          ∙ Sets-keys t.undirected_edges_set _ asc
              (fill_undirected-Sets delay [] t.undirected_edges_set tt)
          ∙ v.same_set
    ]

parse_directed_property_both :
    {V : Type 0} (key : Text) (parse : Text → Result V) (t : TopologyPtop) (config : Config)
    (m : EdgeMap V)
    → parse_directed_property key parse t config ≡ ok m
    → (e : Edge) → In e (keys m) ↔ In e (both_directions t.undirected_edges_set)
unfolding parse_directed_property
parse_directed_property_both key parse t config m made e =
    let edge_set = t.undirected_edges_set in
    let (value, e1, e2) = >>=-eq-ok (get_param_or_fail key config) _ made in
    elim (Bool-cases (is_map value)) [
      | inl per_edge ↦
          let (texts, f1, f2) =
            >>=-eq-ok (parse_directed_edge_map edge_set value)
              (λ texts. parse_values parse [] texts) (rw per_edge at e2) in
          let same = (parse_directed_edge_map-keys edge_set value).holds texts f1 in
          let sets = (parse_values-Sets parse [] texts tt).holds m f2 in
          let all =
            Sets-keys (keys texts) m
              (subst (Ascends edge_lt) (sym same) (both_directions-Ascends edge_set)) sets
            ∙ same in
          (λ i. subst (In e) all i, λ i. subst (In e) (sym all) i)
      | inr one ↦
          let (v, f1, f2) =
            >>=-eq-ok (parse value) (λ d. ok (fill_directed d [] edge_set)) (rw one at e2) in
          let same : fill_directed v [] edge_set ≡ m = cc in
          let (ks, sets, iff) = fill_directed-Sets v [] edge_set tt in
          (
            λ i. elim (sets.only e (subst (λ r. In e (keys r)) (sym same) i)) [
              | inl old ↦ absurd old
              | inr new ↦ (iff e).0 new
            ],
            λ i. subst (λ r. In e (keys r)) same (sets.added e ((iff e).1 i)),
          )
    ]

-- Each device of a link has its data rate, queue and traffic control discipline: if the reading of
-- such a property returns, whether the file gives one value or one for each direction, there is an
-- entry for (x, y) exactly when an edge joins x and y.
pub parse_directed_property-keys :
    {V : Type 0} (key : Text) (parse : Text → Result V) (t : TopologyPtop) (config : Config)
    (m : EdgeMap V)
    → IsTopology t
    → parse_directed_property key parse t config ≡ ok m
    → (x y : ℕ) → In (x, y) (keys m) ↔ Adjacent t.undirected_edges x y
unfolding parse_directed_property
parse_directed_property-keys key parse t config m v made x y =
    let (to, from) = parse_directed_property_both key parse t config m made (x, y) in
    (
      λ i.
          subst (λ es. Adjacent es x y) v.same_set
            (both_directions-In x y t.undirected_edges_set (to i)),
      λ a. from (
          In-both_directions x y t.undirected_edges_set
            (subst (λ es. Adjacent es x y) (sym v.same_set) a)),
    )
