-- ===== src/Routing/Ipv4/Journey.antt =====
-- ipv4-arbiter-routing.cc on the nodes that arbiter-multicast-helper.cc has set up: the packets of
-- a group travel from the source to every destination.
use hypatia_multicast.Base.{
  ℕ, ◌≡◌, ◌≢◌, refl, sym, ap, subst, ◌∙◌, ◌⊎◌, Bool, true, false, List, [], ◌∷◌, ◌++◌, Option, some,
  none, ok, if◌then◌else◌, ◌&&◌, ◌==◌, Bool-cases, inl, inr, arith, In, ==_iff,
}
use hypatia_multicast.Routing.Ecmp.{Edge}
use hypatia_multicast.Routing.Ecmp.Shortest.{IsWithin}
use hypatia_multicast.Routing.Arbiter.{
  ArbiterResult, new_arbiter_result, decide_multicast, get_out_if_idx_multicast, get_out_if_idx,
  get_gateway_ip_address, MulticastRoute,
}
use hypatia_multicast.Routing.Arbiter.Groups.{
  first_route, decide_multicast-first_route, decide_multicast-by_route, apply_route-outbound,
}
use hypatia_multicast.Routing.Arbiter.Neighbors.{edges_of}
use hypatia_multicast.Routing.Multicast.{MulticastRequest, RoutingState}
use hypatia_multicast.Routing.Multicast.Routes.{routes_of}
use hypatia_multicast.Routing.Multicast.Delivery.{
  Delivers, delivered, forward, Sends, group_of, DistinctGroups,
}
use hypatia_multicast.Routing.Multicast.Setup.{
  AfterLoopback, new_arbiter_multicast_helper, new_arbiter_multicast_helper-Delivers,
}
use hypatia_multicast.Routing.Ipv4.{
  Ipv4MulticastRoute, Callback, local_deliver, multicast_forward, input_multicast, lookup_multicast,
  route_input, route_of, lookup_arbiter, route_output,
}
use hypatia_multicast.Routing.Ipv4.Input.{
  Nodes, IsGroup, decision_of_source, In-last, apply_route-single, decision, Passes, Carries, here,
  on, Emits, Receives, forwarding, decision_elsewhere,
}

module _ (nodes : Nodes) (ifs : List (List ℕ)) (state : RoutingState) (src src_ip group : ℕ)
    (known : IsGroup nodes src src_ip group) where
  -- What is passed to the local applications.
  abbrev passed : ℕ → ℕ → Bool → List Callback
  passed x iif has_lcb =
      if (nodes.ip x).is_destination_address group iif && has_lcb
      then local_deliver iif ∷ []
      else []

  abbrev entry : ℕ → List ℕ → Ipv4MulticastRoute
  entry iif outs = record { group = group; origin = src_ip; parent = iif; output_interfaces = outs }

  Sends-Passes :
      (x y : ℕ)
      → src ≢ x
      → Sends ifs state src group x y
      → Passes nodes ifs state src src_ip group x y
  unfolding route_input input_multicast lookup_multicast get_out_if_idx_multicast
  Sends-Passes x y other (r, i, e0, works, interface, out) =
      let e : decision nodes ifs state src src_ip group x src_ip ≡ ok r =
        sym (decision_elsewhere nodes ifs state src src_ip group known x other).0 ∙ e0 in
      elim (decision_elsewhere nodes ifs state src src_ip group known x other).1 [
        | inl fails ↦
            let same : new_arbiter_result true 0 0 ≡ r = cc in
            let failed : true ≡ r.failed = ap (λ (a : ArbiterResult). a.failed) same in cc
        | inr (outs, forwards, nonzero) ↦
            let same : forwarding nodes ifs state src src_ip group outs ≡ r = cc in
            let inbound : false ≡ r.is_multicast_outbound =
              ap (λ (a : ArbiterResult). a.is_multicast_outbound) same in
            let outs_same : outs ≡ r.out_if_idxs = ap (λ (a : ArbiterResult). a.out_if_idxs) same in
            record {
              outs = outs;
              i = i;
              interface = interface;
              is_out = elim out [
                | inl (outbound, _) ↦ cc
                | inr (_, m) ↦ subst (In i) (sym outs_same) m
              ];
              no_loopback = nonzero;
              called = λ iif has_lcb. (
                passed x iif has_lcb ++ multicast_forward (entry iif outs) ∷ [],
                rw (known.multicast x, forwards) refl,
                In-last (passed x iif has_lcb) (multicast_forward (entry iif outs)),
              );
            }
      ]

  Sends-Emits : (y : ℕ) → Sends ifs state src group src y → Emits nodes ifs state src src_ip group y
  unfolding route_output lookup_arbiter route_of get_out_if_idx get_gateway_ip_address
  Sends-Emits y (r, i, e, works, interface, out) =
      by_route (first_route group (routes_of state src)) refl
    where
      by_route :
          (o : Option MulticastRoute)
          → first_route group (routes_of state src) ≡ o
          → Emits nodes ifs state src src_ip group y
      by_route none first =
          let fails : decide_multicast src (routes_of state src) src group
              ≡ ok (new_arbiter_result true 0 0) =
            decide_multicast-by_route src (routes_of state src) src group ∙ rw first refl in
          let same : new_arbiter_result true 0 0 ≡ r = cc in
          let failed : true ≡ r.failed = ap (λ (a : ArbiterResult). a.failed) same in cc
      by_route (some route) first =
          let applied =
            sym (decide_multicast-first_route src (routes_of state src) src group route first)
            ∙ e in
          let (j, single) = apply_route-single src route applied in
          let sent = sym applied ∙ apply_route-outbound src j route single in
          let same : r ≡ record (new_arbiter_result false 0 0) {
            is_multicast = true;
            is_multicast_outbound = true;
            out_if_idx = j;
          } =
            cc in
          let outbound : r.is_multicast_outbound ≡ true =
            ap (λ (a : ArbiterResult). a.is_multicast_outbound) same in
          let j_same : r.out_if_idx ≡ j = ap (λ (a : ArbiterResult). a.out_if_idx) same in
          let i_same : j ≡ i = elim out [ inl (_, k) ↦ sym j_same ∙ k | inr (inbound, _) ↦ cc ] in
          record {
            route = record {
              destination = group;
              source = (nodes.ip src).source_address_selection j group;
              gateway = 0;
              output_device = j;
            };
            is_route = λ source unset.
                rw
                  (
                    known.not_local src,
                    known.not_loopback src,
                    decision_of_source nodes ifs state src src_ip group known source unset,
                    e,
                    same,
                  )
                  refl;
            interface = interface ∙ ap ok (sym i_same);
          }

  elsewhere-Receives : (x : ℕ) → src ≢ x → Receives nodes ifs state src src_ip group x
  unfolding route_input input_multicast lookup_multicast get_out_if_idx_multicast
  elsewhere-Receives x other iif receives =
      elim (decision_elsewhere nodes ifs state src src_ip group known x other).1 [
        | inl fails ↦
            (local_deliver iif ∷ [], false, rw (known.multicast x, fails, receives) refl, inl refl)
        | inr (outs, forwards, nonzero) ↦ (
          local_deliver iif ∷ multicast_forward (entry iif outs) ∷ [],
          true,
          rw (known.multicast x, forwards, receives) refl,
          inl refl,
        )
      ]

  -- The way of a packet from the source to another node.
  pub record Journey (z : ℕ) : Type 0 where
    pub first : ℕ
    pub emits : Emits nodes ifs state src src_ip group first
    pub carries : Carries nodes ifs state src src_ip group first z
    pub receives : Receives nodes ifs state src src_ip group z

  -- A way that comes back to the source can begin there.
  Delivers-Journey :
      {x z : ℕ}
      → src ≢ z
      → Delivers ifs state src group x z
      → Carries nodes ifs state src src_ip group x z ⊎ Journey z
  Delivers-Journey elsewhere delivered = inl here
  Delivers-Journey {x} {z} elsewhere (forward y sends more) =
      elim (Delivers-Journey elsewhere more) [
        | inr journey ↦ inr journey
        | inl carries ↦ elim (Bool-cases (src == x)) [
          | inl same ↦ inr (record {
            first = y;
            emits =
                Sends-Emits y
                  (subst (λ k. Sends ifs state src group k y) (sym ((==_iff src x).0 same)) sends);
            carries = carries;
            receives = elsewhere-Receives z elsewhere;
          })
          | inr other ↦
              let apart : src ≢ x = ground arith in
              inl (on y (λ e. apart (sym e)) (Sends-Passes x y apart sends) carries)
        ]
      ]

  pub Delivers-Journey_of_source :
      {z : ℕ} → src ≢ z → Delivers ifs state src group src z → Journey z
  Delivers-Journey_of_source elsewhere way = elim (Delivers-Journey elsewhere way) [
    | inr journey ↦ journey
    | inl carries ↦ from_source elsewhere carries
  ]
    where
      from_source : {z : ℕ} → src ≢ z → Carries nodes ifs state src src_ip group src z → Journey z
      from_source other here = absurd (other refl)
      from_source other (on y apart passes more) = absurd (apart refl)

-- In a topology whose edges join distinct nodes over interfaces other than the loopback, if the
-- constructor of the multicast helper returns for requests with distinct groups, ns-3 takes a
-- request's group for a multicast address that is neither link-local nor a loopback, and the
-- arbiters map the source's address to the source, then for each other node among the request's
-- destinations: `RouteOutput` of the source gives a route to the interface for a neighbour, whether
-- the socket knows its address or not; from there to the destination, at one node after another
-- that is not the source, `RouteInput` calls the forwarding callback with the interface for the
-- next one and with no loopback; and at the destination it calls the local callback, if the node
-- receives the group at the interface and there is one.
pub new_arbiter_multicast_helper-Journey :
    (local_address : ℕ → ℕ → ℕ) (base n : ℕ) (links : List (Edge × (ℕ × ℕ)))
    (reqs : List MulticastRequest) (ifs : List (List ℕ)) (state : RoutingState) (nodes : Nodes)
    (src_ip : ℕ) (req : MulticastRequest) (dst : ℕ)
    (known : IsGroup nodes req.from_node_id src_ip (group_of base req))
    → new_arbiter_multicast_helper local_address base n links reqs ≡ ok (ifs, state)
    → IsWithin n (edges_of links)
    → AfterLoopback links
    → DistinctGroups base reqs
    → In req reqs
    → In dst req.to_node_ids
    → req.from_node_id ≢ dst
    → Journey nodes ifs state req.from_node_id src_ip (group_of base req) known dst
new_arbiter_multicast_helper-Journey local_address base n links reqs ifs state nodes src_ip req dst
      known e w after distinct m d elsewhere =
    Delivers-Journey_of_source nodes ifs state req.from_node_id src_ip (group_of base req) known
      elsewhere
      (new_arbiter_multicast_helper-Delivers local_address base n links reqs ifs state e w after
        distinct req m dst d)
