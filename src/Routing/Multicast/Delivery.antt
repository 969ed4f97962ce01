-- ===== src/Routing/Multicast/Delivery.antt =====
-- What the routes of arbiter-multicast-helper.cc do in the arbiters of arbiter-multicast.cc: the
-- packets of each group reach all its destinations.
use hypatia_multicast.Base.{
  ℕ, ◌+◌, ◌%◌, ◌^◌, ◌≡◌, refl, sym, ap, subst, ◌∙◌, ◌≢◌, ◌⊎◌, Bool, true, false, List, [], ◌∷◌,
  some, none, ok, not, for_each, arith, ◌==◌, Bool-cases, inl, inr, runtime_error, undefined,
  throw_if, or_throw, >>=-eq-ok, throw_if-eq-ok, length, get_elem?, ==_iff, In, find_or,
}
use hypatia_multicast.Routing.Ecmp.{CandidateList, candidates_at}
use hypatia_multicast.Routing.Arbiter.{
  ArbiterResult, new_arbiter_result, decide_multicast, apply_route,
}
use hypatia_multicast.Routing.Arbiter.Groups.{
  first_route, decide_multicast-first_route, decide_multicast-same_route, In-nonzero_interfaces,
  apply_route-forward, apply_route-outbound,
}
use hypatia_multicast.Routing.Multicast.{
  MulticastRequest, Hops, if_idx_of, no_hops, collect_hops, RoutingState, route_at, install_request,
  cal_global_multicast_state,
}
use hypatia_multicast.Routing.Multicast.Walks.{
  Recorded, Reaches, arrived, via, collect_hops-Reaches,
}
use hypatia_multicast.Routing.Multicast.Routes.{
  routes_of, HasRoute, install_all-HasRoute, install_all-other_group,
}

-- The group of a request.
abbrev pub group_of : ℕ → MulticastRequest → ℕ
group_of base req = (base + req.udp_burst_id) % 2 ^ 32

-- No first candidate stands behind interface 0, the loopback.
abbrev pub HasInterfaces : CandidateList → List (List ℕ) → Type 0
HasInterfaces ecmp ifs =
    (x y dst : ℕ) → get_elem? (candidates_at ecmp x dst) 0 ≡ some y → if_idx_of ifs x y ≢ ok 0

module _ (ifs : List (List ℕ)) (state : RoutingState) (src group : ℕ) where
  -- The arbiter of node x sends a packet of the source to its neighbour y: over the one interface
  -- of an outbound decision, or over one of those of a forwarding decision.
  abbrev pub Sends : ℕ → ℕ → Type 0
  Sends x y =
      (r : ArbiterResult) × (i : ℕ) × (decide_multicast x (routes_of state x) src group ≡ ok r)
      × (r.failed ≡ false)
      × (if_idx_of ifs x y ≡ ok i)
      × (((r.is_multicast_outbound ≡ true) × (r.out_if_idx ≡ i))
          ⊎ ((r.is_multicast_outbound ≡ false) × In i r.out_if_idxs))

  -- A packet of the source gets from x to z.
  pub data Delivers : ℕ → ℕ → Type 0 where
    delivered : {x : ℕ} → Delivers x x
    forward : {x z : ℕ} (y : ℕ) → Sends x y → Delivers y z → Delivers x z

-- Routes of other groups do not matter.
Delivers-same_routes :
    (ifs : List (List ℕ)) (s s' : RoutingState) (src group : ℕ)
    → ((x : ℕ) → first_route group (routes_of s' x) ≡ first_route group (routes_of s x))
    → {x z : ℕ} → Delivers ifs s src group x z
    → Delivers ifs s' src group x z
Delivers-same_routes ifs s s' src group same delivered = delivered
Delivers-same_routes ifs s s' src group same (forward {x} y (r, i, e, f, j, out) more) =
    forward y (r, i, decide_multicast-same_route x _ _ src group (same x) ∙ e, f, j, out)
      (Delivers-same_routes ifs s s' src group same more)

pub length_one : (xs : List ℕ) → (length xs == 1) ≡ true → (x : ℕ) × (xs ≡ x ∷ [])
length_one [] e = cc
length_one (x ∷ []) e = (x, refl)
length_one (x ∷ y ∷ xs) e = absurd (ground arith)

Recorded-Sends :
    (ecmp : CandidateList) (ifs : List (List ℕ)) (h : Hops) (s : RoutingState)
    (src origin group o x y : ℕ)
    → HasInterfaces ecmp ifs
    → find_or src [] h.node_id_to_oifs ≡ o ∷ []
    → HasRoute src origin group h s x
    → Recorded ecmp ifs h x y
    → Sends ifs s src group x y
unfolding route_at
Recorded-Sends ecmp ifs h s src origin group o x y nonzero single has (m, dst, c, i, e, sent) =
    elim (Bool-cases (src == x)) [
      | inl same ↦
          let at_src : src ≡ x = (==_iff src x).0 same in
          let oifs : find_or x [] h.node_id_to_oifs ≡ o ∷ [] =
            subst (λ k. find_or k [] h.node_id_to_oifs ≡ o ∷ []) at_src single in
          let only : (i ≡ o) ⊎ ⊥ = subst (In i) oifs sent in
          (
            _,
            i,
            decide_multicast-first_route x (routes_of s x) src group _ has
                ∙ subst (λ k. apply_route x k (route_at src origin group h x) ≡ ok (outbound i))
                    (sym at_src)
                    (apply_route-outbound x i _
                      (oifs ∙ ap (λ k. k ∷ []) (sym (elim only [ inl q ↦ q | inr q ↦ absurd q ])))),
            refl,
            e,
            inl (refl, refl),
          )
      | inr other ↦
          let apart : src ≢ x = ground arith in
          (
            _,
            i,
            decide_multicast-first_route x (routes_of s x) src group _ has
                ∙ apply_route-forward x src (route_at src origin group h x) apart,
            refl,
            e,
            inr (refl, In-nonzero_interfaces i _ (λ z. nonzero x y dst c (e ∙ ap ok z)) sent),
          )
    ]
  where
    outbound : ℕ → ArbiterResult
    outbound i = record (new_arbiter_result false 0 0) {
      is_multicast = true;
      is_multicast_outbound = true;
      out_if_idx = i;
    }

Reaches-Delivers :
    (ecmp : CandidateList) (ifs : List (List ℕ)) (h : Hops) (s : RoutingState)
    (src origin group o : ℕ)
    → HasInterfaces ecmp ifs
    → find_or src [] h.node_id_to_oifs ≡ o ∷ []
    → ((x : ℕ) → In x h.nodes_ids_to_install → HasRoute src origin group h s x)
    → {x z : ℕ} → Reaches ecmp ifs h x z
    → Delivers ifs s src group x z
Reaches-Delivers ecmp ifs h s src origin group o nonzero single has arrived = delivered
Reaches-Delivers ecmp ifs h s src origin group o nonzero single has (via {x} y r more) =
    forward y (Recorded-Sends ecmp ifs h s src origin group o x y nonzero single (has x r.0) r)
      (Reaches-Delivers ecmp ifs h s src origin group o nonzero single has more)

-- If the routes of a request are installed where no arbiter had a route of its group, a packet of
-- the source gets to each destination of the request, one arbiter's decision after another.
install_request-Delivers :
    (local_address : ℕ → ℕ → ℕ) (base : ℕ) (ecmp : CandidateList) (ifs : List (List ℕ))
    (s : RoutingState) (req : MulticastRequest) {s' : RoutingState}
    → install_request local_address base ecmp ifs s req ≡ ok s'
    → HasInterfaces ecmp ifs
    → ((x : ℕ) → first_route (group_of base req) (routes_of s x) ≡ none)
    → (dst : ℕ) → In dst req.to_node_ids
    → Delivers ifs s' req.from_node_id (group_of base req) req.from_node_id dst
unfolding install_request
install_request-Delivers local_address base ecmp ifs s req {s'} e nonzero unused dst m =
    let src = req.from_node_id in
    let (h, e1, r1) = >>=-eq-ok (collect_hops ecmp ifs src req.to_node_ids no_hops) _ e in
    let oifs = find_or src [] h.node_id_to_oifs in
    let (u, e2, r2) = >>=-eq-ok (throw_if (not (length oifs == 1)) runtime_error) _ r1 in
    let (o, e3, r3) = >>=-eq-ok (or_throw (get_elem? oifs 0) undefined) _ r2 in
    let (o', single) = length_one oifs (not_false _ (throw_if-eq-ok _ _ e2)) in
    Reaches-Delivers ecmp ifs h s' src (local_address src o) (group_of base req) o' nonzero single
      (λ x n.
        install_all-HasRoute src (local_address src o) (group_of base req) h h.nodes_ids_to_install
          s r3 (λ y. inl (unused y)) x (inl n))
      ((collect_hops-Reaches ecmp ifs src req.to_node_ids no_hops e1).1 dst m)
  where
    not_false : (b : Bool) → not b ≡ false → b ≡ true
    not_false true q = refl
    not_false false q = cc

install_request-other_group :
    (local_address : ℕ → ℕ → ℕ) (base : ℕ) (ecmp : CandidateList) (ifs : List (List ℕ))
    (s : RoutingState) (req : MulticastRequest) {s' : RoutingState} (g : ℕ)
    → install_request local_address base ecmp ifs s req ≡ ok s'
    → g ≢ group_of base req
    → (x : ℕ) → first_route g (routes_of s' x) ≡ first_route g (routes_of s x)
unfolding install_request
install_request-other_group local_address base ecmp ifs s req g e ne x =
    let src = req.from_node_id in
    let (h, e1, r1) = >>=-eq-ok (collect_hops ecmp ifs src req.to_node_ids no_hops) _ e in
    let oifs = find_or src [] h.node_id_to_oifs in
    let (u, e2, r2) = >>=-eq-ok (throw_if (not (length oifs == 1)) runtime_error) _ r1 in
    let (o, e3, r3) = >>=-eq-ok (or_throw (get_elem? oifs 0) undefined) _ r2 in
    install_all-other_group src (local_address src o) (group_of base req) h g h.nodes_ids_to_install
      s r3 (ground (arith, ne)) x

-- The groups of requests are distinct.
abbrev pub DistinctGroups : ℕ → List MulticastRequest → Type 0
DistinctGroups base [] = Unit {0}
DistinctGroups base (req ∷ reqs) =
    ((other : MulticastRequest) → In other reqs → group_of base req ≢ group_of base other)
    × DistinctGroups base reqs

cal_global-other_group :
    (local_address : ℕ → ℕ → ℕ) (base : ℕ) (ecmp : CandidateList) (ifs : List (List ℕ))
    (reqs : List MulticastRequest) (s : RoutingState) {s' : RoutingState} (g : ℕ)
    → cal_global_multicast_state local_address base ecmp ifs reqs s ≡ ok s'
    → ((other : MulticastRequest) → In other reqs → g ≢ group_of base other)
    → (x : ℕ) → first_route g (routes_of s' x) ≡ first_route g (routes_of s x)
unfolding cal_global_multicast_state for_each
cal_global-other_group local_address base ecmp ifs [] s {s'} g e ne x =
    let same : s ≡ s' = cc in
    subst (λ k. first_route g (routes_of k x) ≡ first_route g (routes_of s x)) same refl
cal_global-other_group local_address base ecmp ifs (req ∷ reqs) s g e ne x =
    let (s1, e1, r1) = >>=-eq-ok (install_request local_address base ecmp ifs s req) _ e in
    cal_global-other_group local_address base ecmp ifs reqs s1 g r1 (λ o m. ne o (inr m)) x
    ∙ install_request-other_group local_address base ecmp ifs s req g e1 (ne req (inl refl)) x

-- If `CalGlobalMulticastState` returns for requests with distinct groups, none of which has a route
-- yet, and no first candidate stands behind interface 0, then for each request the decisions of the
-- arbiters take a packet from the source to every destination.
pub cal_global_multicast_state-Delivers :
    (local_address : ℕ → ℕ → ℕ) (base : ℕ) (ecmp : CandidateList) (ifs : List (List ℕ))
    (reqs : List MulticastRequest) (s s' : RoutingState)
    → cal_global_multicast_state local_address base ecmp ifs reqs s ≡ ok s'
    → HasInterfaces ecmp ifs
    → DistinctGroups base reqs
    → ((req : MulticastRequest)
        → In req reqs
        → (x : ℕ) → first_route (group_of base req) (routes_of s x) ≡ none)
    → (req : MulticastRequest) → In req reqs
    → (dst : ℕ) → In dst req.to_node_ids
    → Delivers ifs s' req.from_node_id (group_of base req) req.from_node_id dst
unfolding cal_global_multicast_state for_each
cal_global_multicast_state-Delivers local_address base ecmp ifs [] s s' e nonzero distinct unused
      req m dst d =
    absurd m
cal_global_multicast_state-Delivers local_address base ecmp ifs (first ∷ reqs) s s' e nonzero
      distinct unused req (inl same) dst d =
    let (s1, e1, r1) = >>=-eq-ok (install_request local_address base ecmp ifs s first) _ e in
    subst
      (λ q.
        (dst : ℕ)
        → In dst q.to_node_ids
        → Delivers ifs s' q.from_node_id (group_of base q) q.from_node_id dst)
      (sym same)
      (λ dst d.
        Delivers-same_routes ifs s1 s' first.from_node_id (group_of base first)
          (cal_global-other_group local_address base ecmp ifs reqs s1 (group_of base first) r1
            distinct.0)
          (install_request-Delivers local_address base ecmp ifs s first e1 nonzero
            (unused first (inl refl)) dst d))
      dst d
cal_global_multicast_state-Delivers local_address base ecmp ifs (first ∷ reqs) s s' e nonzero
      distinct unused req (inr m) dst d =
    let (s1, e1, r1) = >>=-eq-ok (install_request local_address base ecmp ifs s first) _ e in
    cal_global_multicast_state-Delivers local_address base ecmp ifs reqs s1 s' r1 nonzero distinct.1
      (λ q mq x.
        install_request-other_group local_address base ecmp ifs s first (group_of base q) e1
          (λ same. distinct.0 q mq (sym same)) x
        ∙ unused q (inr mq) x)
      req m dst d
