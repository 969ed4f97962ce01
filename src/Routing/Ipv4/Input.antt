-- ===== src/Routing/Ipv4/Input.antt =====
-- `RouteOutput` and `RouteInput` of ipv4-arbiter-routing.cc on the nodes whose arbiters
-- arbiter-multicast-helper.cc has set up.
use hypatia_multicast.Base.{
  ℕ, ◌≡◌, ◌≢◌, refl, ap, sym, ◌∙◌, ◌⊎◌, Bool, true, false, List, [], ◌∷◌, ◌++◌, Option, some, none,
  Result, ok, ◌==◌, Bool-cases, inl, inr, arith, length, In, ==_iff,
}
use hypatia_multicast.Routing.Arbiter.{
  ArbiterResult, new_arbiter_result, MulticastRoute, nonzero_interfaces, base_decide,
  resolve_node_id_from_ip, unset_source_ip, apply_route, decide_multicast,
}
use hypatia_multicast.Routing.Arbiter.Groups.{
  first_route, decide_multicast-first_route, decide_multicast-by_route, apply_route-forward,
}
use hypatia_multicast.Routing.Multicast.{if_idx_of, RoutingState}
use hypatia_multicast.Routing.Multicast.Routes.{routes_of}
use hypatia_multicast.Routing.Multicast.Delivery.{length_one}
use hypatia_multicast.Routing.Ipv4.{
  Ipv4, Ipv4Route, Callback, local_deliver, multicast_forward, route_input, route_output,
}

-- The nodes: what ns-3 knows of each, and what their arbiters have besides the multicast routes,
-- with the hash of the packet at each.
pub record Nodes : Type 0 where
  pub ip : ℕ → Ipv4
  pub num_nodes : ℕ
  pub ip_to_node_id : List (ℕ × ℕ)
  pub table : ℕ → List ℕ
  pub candidate_list : ℕ → List (List ℕ)
  pub hash : ℕ → ℕ

-- What ns-3 says of a group's address, and the arbiters' map from addresses to nodes of that of the
-- source.
pub record IsGroup (nodes : Nodes) (src src_ip group : ℕ) : Type 0 where
  pub multicast : (x : ℕ) → (nodes.ip x).is_multicast group ≡ true
  pub not_local : (x : ℕ) → (nodes.ip x).is_local_multicast group ≡ false
  pub not_loopback : (x : ℕ) → (nodes.ip x).is_loopback group ≡ false
  pub resolves : resolve_node_id_from_ip nodes.ip_to_node_id src_ip ≡ ok src
  pub is_set : (src_ip == unset_source_ip) ≡ false

pub In-last : {A : Type 0} (xs : List A) (y : A) → In y (xs ++ y ∷ [])
In-last [] y = inl refl
In-last (x ∷ xs) y = inr (In-last xs y)

nonzero_interfaces_are : (is : List ℕ) (j : ℕ) → In j (nonzero_interfaces is) → j ≢ 0
unfolding nonzero_interfaces
nonzero_interfaces_are [] j m = absurd m
nonzero_interfaces_are (i ∷ is) j m = elim (Bool-cases (i == 0)) [
  | inl zero_there ↦ nonzero_interfaces_are is j (rw (zero_there, nonzero_interfaces) at m)
  | inr other ↦
      let m' : In j (i ∷ nonzero_interfaces is) = rw (other, nonzero_interfaces) at m in
      elim m' [ inl same ↦ ground arith | inr later ↦ nonzero_interfaces_are is j later ]
]

-- The source has one output interface, if it has decided.
pub apply_route-single :
    (me : ℕ) (route : MulticastRoute) {r : ArbiterResult}
    → apply_route me me route ≡ ok r
    → (i : ℕ) × (route.output_interfaces ≡ i ∷ [])
unfolding apply_route
apply_route-single me route e = elim (Bool-cases (length route.output_interfaces == 1)) [
  | inl one ↦ length_one route.output_interfaces one
  | inr other ↦ let bad = rw (apply_route, (==_iff me me).1 refl, other) at e in cc
]

module _ (nodes : Nodes) (ifs : List (List ℕ)) (state : RoutingState) (src src_ip group : ℕ) where
  -- What the arbiter of node x decides for a packet to the group with this source address.
  abbrev pub decision : ℕ → ℕ → Result ArbiterResult
  decision x source =
      base_decide (nodes.ip x).is_multicast x nodes.num_nodes nodes.ip_to_node_id (nodes.table x)
        (nodes.candidate_list x) (routes_of state x) source group (nodes.hash x)

  -- `RouteInput` of node x passes a packet of the source, from wherever it comes, to the interface
  -- for its neighbour y, among others that are none of them the loopback.
  pub record Passes (x y : ℕ) : Type 0 where
    pub outs : List ℕ
    pub i : ℕ
    pub interface : if_idx_of ifs x y ≡ ok i
    pub is_out : In i outs
    pub no_loopback : (j : ℕ) → In j outs → j ≢ 0
    pub called :
        (iif : ℕ) (has_lcb : Bool)
        → (callbacks : List Callback) × (route_input
              (nodes.ip x)
              group
              src_ip
              iif
              has_lcb
              (decision x src_ip)
            ≡ ok (callbacks, true))
          × In
              (multicast_forward
                (record { group = group; origin = src_ip; parent = iif; output_interfaces = outs }))
              callbacks

  -- Nodes other than the source pass a packet on from x to z.
  pub data Carries : ℕ → ℕ → Type 0 where
    here : {x : ℕ} → Carries x x
    on : {x z : ℕ} (y : ℕ) → x ≢ src → Passes x y → Carries y z → Carries x z

  -- `RouteOutput` of the source gives a route over its interface for its neighbour y, whether the
  -- socket knows its own address or not.
  pub record Emits (y : ℕ) : Type 0 where
    pub route : Ipv4Route
    pub is_route :
        (source : ℕ)
        → (source ≡ unset_source_ip) ⊎ (source ≡ src_ip)
        → route_output (nodes.ip src) group none (decision src source) ≡ ok (some route, false)
    pub interface : if_idx_of ifs src y ≡ ok route.output_device

  -- `RouteInput` of node x calls the local callback for a packet of the source, if the node receives
  -- the group at the interface.
  abbrev pub Receives : ℕ → Type 0
  Receives x =
      (iif : ℕ)
      → (nodes.ip x).is_destination_address group iif ≡ true
      → (callbacks : List Callback) × (is_passed : Bool) × (route_input (nodes.ip x) group src_ip
            iif true (decision x src_ip)
          ≡ ok (callbacks, is_passed))
        × In (local_deliver iif) callbacks

  -- The decision of a node other than the source.
  abbrev pub forwarding : List ℕ → ArbiterResult
  forwarding outs = record (new_arbiter_result false 0 0) {
    is_multicast = true;
    out_if_idxs = outs;
  }

  module _ (known : IsGroup nodes src src_ip group) where
    decision_of_others :
        (x : ℕ) → decision x src_ip ≡ decide_multicast x (routes_of state x) src group
    unfolding base_decide
    decision_of_others x = rw (known.is_set, known.resolves, known.multicast x) refl

    pub decision_of_source :
        (source : ℕ)
        → (source ≡ unset_source_ip) ⊎ (source ≡ src_ip)
        → decision src source ≡ decide_multicast src (routes_of state src) src group
    unfolding base_decide
    decision_of_source source (inl unset) = rw (unset, known.multicast src) refl
    decision_of_source source (inr given) = ap (decision src) given ∙ decision_of_others src

    pub decision_elsewhere :
        (x : ℕ)
        → src ≢ x
        → (decide_multicast x (routes_of state x) src group ≡ decision x src_ip)
          × ((decision x src_ip ≡ ok (new_arbiter_result true 0 0))
              ⊎ ((outs : List ℕ) × (decision x src_ip ≡ ok (forwarding outs))
                  × ((j : ℕ) → In j outs → j ≢ 0)))
    decision_elsewhere x other =
        (sym (decision_of_others x), by_route (first_route group (routes_of state x)) refl)
      where
        by_route :
            (o : Option MulticastRoute)
            → first_route group (routes_of state x) ≡ o
            → (decision x src_ip ≡ ok (new_arbiter_result true 0 0))
              ⊎ ((outs : List ℕ) × (decision x src_ip ≡ ok (forwarding outs))
                  × ((j : ℕ) → In j outs → j ≢ 0))
        by_route none e = inl (
            decision_of_others x
            ∙ decide_multicast-by_route x (routes_of state x) src group
            ∙ rw e refl)
        by_route (some r) e = inr (
          nonzero_interfaces r.output_interfaces,
          decision_of_others x
              ∙ decide_multicast-first_route x (routes_of state x) src group r e
              ∙ apply_route-forward x src r other,
          nonzero_interfaces_are r.output_interfaces,
        )
