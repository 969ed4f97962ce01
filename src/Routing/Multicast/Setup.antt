-- ===== src/Routing/Multicast/Setup.antt =====
-- The constructor of ArbiterMulticastHelper:
-- simulator/contrib/basic-sim/helper/core/arbiter-multicast-helper.cc. It calculates the ECMP
-- state, takes the table of neighbours of each arbiter, and installs the multicast routes.
use hypatia_multicast.Base.{
  ℕ, zero, suc, ◌+◌, ◌<◌, ◌≡◌, refl, sym, ap, subst, ◌∙◌, ◌≢◌, List, [], ◌∷◌, some, Result, ok,
  ◌>>=◌, arith, inl, inr, >>=-eq-ok, length, get_elem?, get_or, replicate, In,
}
use hypatia_multicast.Routing.Ecmp.{Edge, CandidateList, candidates_at, calculate_global_state}
use hypatia_multicast.Routing.Ecmp.Shortest.{Adjacent-lt, IsWithin}
use hypatia_multicast.Routing.Ecmp.Candidates.{calculate_global_state-Adjacent}
use hypatia_multicast.Routing.Arbiter.{neighbor_node_id_to_if_idx}
use hypatia_multicast.Routing.Arbiter.Groups.{first_route}
use hypatia_multicast.Routing.Arbiter.Neighbors.{
  edges_of, Joins, neighbor_node_id_to_if_idx-Joins, length-neighbor_node_id_to_if_idx,
}
use hypatia_multicast.Routing.Multicast.{
  MulticastRequest, if_idx_of, RoutingState, cal_global_multicast_state,
}
use hypatia_multicast.Routing.Multicast.Routes.{routes_of}
use hypatia_multicast.Routing.Multicast.Reaches.{IsTable}
use hypatia_multicast.Routing.Multicast.Delivery.{
  group_of, HasInterfaces, DistinctGroups, Delivers, cal_global_multicast_state-Delivers,
}

-- m_node_to_nbr_if_idx, filled by `push_back` for each node from `i` on.
unfoldable pub node_to_nbr_if_idx : ℕ → ℕ → ℕ → List (Edge × (ℕ × ℕ)) → List (List ℕ)
unfolding neighbor_node_id_to_if_idx
node_to_nbr_if_idx num_nodes zero i links = []
node_to_nbr_if_idx num_nodes (suc left) i links =
    neighbor_node_id_to_if_idx num_nodes i links ∷ node_to_nbr_if_idx num_nodes left (suc i) links

-- The edges of the topology come with the interface indices of their two ends. The tables are
-- returned with the routes.
unfoldable pub new_arbiter_multicast_helper :
    (local_address : ℕ → ℕ → ℕ)
    → (base num_nodes : ℕ) → List (Edge × (ℕ × ℕ))
    → List MulticastRequest
    → Result (List (List ℕ) × RoutingState)
unfolding calculate_global_state cal_global_multicast_state node_to_nbr_if_idx
new_arbiter_multicast_helper local_address base num_nodes links reqs = do
  global_ecmp_state ←
      calculate_global_state (record { num_nodes = num_nodes; undirected_edges = edges_of links })
  let ifs = node_to_nbr_if_idx num_nodes num_nodes 0 links
  state ←
      cal_global_multicast_state local_address base global_ecmp_state ifs reqs
        (replicate num_nodes [])
  ok (ifs, state)

-- ns-3 gives interface 0 to the loopback, and the devices of links later ones.
abbrev pub AfterLoopback : List (Edge × (ℕ × ℕ)) → Type 0
AfterLoopback [] = Unit {0}
AfterLoopback ((e, (if_a, if_b)) ∷ links) = ((if_a ≢ 0) × (if_b ≢ 0)) × AfterLoopback links

Joins-AfterLoopback :
    (me y : ℕ) (links : List (Edge × (ℕ × ℕ))) → AfterLoopback links → Joins me y 0 links → ⊥
Joins-AfterLoopback me y [] h j = j
Joins-AfterLoopback me y (((a, b), (if_a, if_b)) ∷ links) h (inl first) = h.0.0 first.2
Joins-AfterLoopback me y (((a, b), (if_a, if_b)) ∷ links) h (inr (inl second)) = h.0.1 second.2
Joins-AfterLoopback me y (((a, b), (if_a, if_b)) ∷ links) h (inr (inr later)) =
    Joins-AfterLoopback me y links h.1 later

get_elem?-node_to_nbr_if_idx :
    (n left i x : ℕ) (links : List (Edge × (ℕ × ℕ)))
    → x < left
    → get_elem? (node_to_nbr_if_idx n left i links) x
      ≡ some (neighbor_node_id_to_if_idx n (i + x) links)
unfolding node_to_nbr_if_idx
get_elem?-node_to_nbr_if_idx n zero i x links h = absurd (omega (arith, h))
get_elem?-node_to_nbr_if_idx n (suc left) i zero links h =
    ap (λ k. some (neighbor_node_id_to_if_idx n k links)) (omega arith)
get_elem?-node_to_nbr_if_idx n (suc left) i (suc x) links h =
    get_elem?-node_to_nbr_if_idx n left (suc i) x links (omega arith)
    ∙ ap (λ k. some (neighbor_node_id_to_if_idx n k links)) (omega arith)

get_elem?-inside : (xs : List ℕ) (i : ℕ) → i < length xs → get_elem? xs i ≡ some (get_or xs i 0)
get_elem?-inside [] i h = absurd (omega (arith, h))
get_elem?-inside (x ∷ xs) zero h = refl
get_elem?-inside (x ∷ xs) (suc i) h = get_elem?-inside xs i (omega arith)

-- The tables have the interface of each node for each other node.
if_idx_of-node_to_nbr_if_idx :
    (n x y : ℕ) (links : List (Edge × (ℕ × ℕ)))
    → x < n
    → y < n
    → if_idx_of (node_to_nbr_if_idx n n 0 links) x y
      ≡ ok (get_or (neighbor_node_id_to_if_idx n x links) y 0)
if_idx_of-node_to_nbr_if_idx n x y links hx hy =
    let size = length-neighbor_node_id_to_if_idx n x links in
    let row : get_elem? (node_to_nbr_if_idx n n 0 links) x
        ≡ some (neighbor_node_id_to_if_idx n x links) =
      get_elem?-node_to_nbr_if_idx n n 0 x links hx
      ∙ ap (λ k. some (neighbor_node_id_to_if_idx n k links)) (omega arith) in
    rw (row, get_elem?-inside (neighbor_node_id_to_if_idx n x links) y (omega (arith, size)))

pub node_to_nbr_if_idx-IsTable :
    (n : ℕ) (links : List (Edge × (ℕ × ℕ))) → IsTable n (node_to_nbr_if_idx n n 0 links)
node_to_nbr_if_idx-IsTable n links x y hx hy = (
  get_or (neighbor_node_id_to_if_idx n x links) y 0,
  if_idx_of-node_to_nbr_if_idx n x y links hx hy,
)

In-of_first : (y : ℕ) (xs : List ℕ) → get_elem? xs 0 ≡ some y → In y xs
In-of_first y [] e = cc
In-of_first y (x ∷ xs) e = let same : y ≡ x = cc in inl same

node_to_nbr_if_idx-HasInterfaces :
    (n : ℕ) (links : List (Edge × (ℕ × ℕ))) (ecmp : CandidateList)
    → IsWithin n (edges_of links)
    → AfterLoopback links
    → calculate_global_state (record { num_nodes = n; undirected_edges = edges_of links }) ≡ ok ecmp
    → HasInterfaces ecmp (node_to_nbr_if_idx n n 0 links)
node_to_nbr_if_idx-HasInterfaces n links ecmp w after made x y dst first is_zero =
    let adj =
      calculate_global_state-Adjacent (record { num_nodes = n; undirected_edges = edges_of links })
        w made x dst y (In-of_first y (candidates_at ecmp x dst) first) in
    let (hx, hy) = Adjacent-lt n (edges_of links) x y w adj in
    let same : ok (get_or (neighbor_node_id_to_if_idx n x links) y 0) ≡ ok 0 =
      sym (if_idx_of-node_to_nbr_if_idx n x y links hx hy) ∙ is_zero in
    let none_there : get_or (neighbor_node_id_to_if_idx n x links) y 0 ≡ 0 = cc in
    elim (neighbor_node_id_to_if_idx-Joins n x y links w) [
      | inl joins ↦
          Joins-AfterLoopback x y links after (subst (λ i. Joins x y i links) none_there joins)
      | inr (unset, apart) ↦ apart adj
    ]

routes_of-replicate : (n x : ℕ) → routes_of (replicate n []) x ≡ []
routes_of-replicate zero x = refl
routes_of-replicate (suc n) zero = refl
routes_of-replicate (suc n) (suc x) = routes_of-replicate n x

-- In a topology whose edges join distinct nodes over interfaces other than the loopback, if the
-- constructor returns for requests with distinct groups, then for each request the arbiters that it
-- sets up, with its tables of neighbours, take a packet from the source to every destination.
pub new_arbiter_multicast_helper-Delivers :
    (local_address : ℕ → ℕ → ℕ) (base n : ℕ) (links : List (Edge × (ℕ × ℕ)))
    (reqs : List MulticastRequest) (ifs : List (List ℕ)) (state : RoutingState)
    → new_arbiter_multicast_helper local_address base n links reqs ≡ ok (ifs, state)
    → IsWithin n (edges_of links)
    → AfterLoopback links
    → DistinctGroups base reqs
    → (req : MulticastRequest) → In req reqs
    → (dst : ℕ) → In dst req.to_node_ids
    → Delivers ifs state req.from_node_id (group_of base req) req.from_node_id dst
unfolding new_arbiter_multicast_helper first_route
new_arbiter_multicast_helper-Delivers local_address base n links reqs ifs state e w after distinct
      req m dst d =
    let tables = node_to_nbr_if_idx n n 0 links in
    let (ecmp, made, rest) =
      >>=-eq-ok
        (calculate_global_state (record { num_nodes = n; undirected_edges = edges_of links })) _
        e in
    let (s, routed, last) =
      >>=-eq-ok (cal_global_multicast_state local_address base ecmp tables reqs (replicate n [])) _
        rest in
    let both : (tables, s) ≡ (ifs, state) = cc in
    subst
      (λ (p : List (List ℕ) × RoutingState).
        Delivers p.0 p.1 req.from_node_id (group_of base req) req.from_node_id dst)
      both
      (cal_global_multicast_state-Delivers local_address base ecmp tables reqs (replicate n []) s
        routed (node_to_nbr_if_idx-HasInterfaces n links ecmp w after made) distinct
        (λ q i x. ap (first_route (group_of base q)) (routes_of-replicate n x)) req m dst d)
