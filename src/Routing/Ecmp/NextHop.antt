-- ===== src/Routing/Ecmp/NextHop.antt =====
-- Where arbiter-ecmp-helper.cc finds a distance, there is a next hop, and it is one step nearer.
use hypatia_multicast.Base.{
  ℕ, ◌+◌, ◌≤◌, ◌<◌, ◌≡◌, refl, sym, ap, ◌∙◌, ◌≢◌, ◌⊎◌, List, [], ◌∷◌, some, ok, arith, ◌==◌,
  Bool-cases, inl, inr, get_elem?, ==_iff, In,
}
use hypatia_multicast.Routing.Ecmp.{
  Edge, Graph, infinite, dist_at, floyd_warshall, CandidateList, candidates_at,
  calculate_global_state,
}
use hypatia_multicast.Routing.Ecmp.Rounds.{Matrix}
use hypatia_multicast.Routing.Ecmp.Shortest.{
  Adjacent, Adjacent-lt, Walk, here, hop, IsWithin, IsMetric, IsMetric-le, floyd_warshall-Holds,
}
use hypatia_multicast.Routing.Ecmp.Candidates.{calculate_global_state-candidates}

-- The distance from i to j that `CalculateGlobalState` computes for a topology.
abbrev pub distance : Graph → ℕ → ℕ → ℕ
distance t i j = dist_at t.num_nodes (floyd_warshall t.num_nodes t.undirected_edges) i j

In-first : (c : ℕ) (xs : List ℕ) → In c xs → (x : ℕ) × (get_elem? xs 0 ≡ some x) × In x xs
In-first c [] m = absurd m
In-first c (x ∷ xs) m = (x, refl, inl refl)

Walk-neighbor :
    (n : ℕ) (es : List Edge) (f : Matrix) {i j l : ℕ}
    → IsWithin n es
    → IsMetric n es n f
    → i < n
    → j < n
    → i ≢ j
    → f i j ≡ l
    → Walk es i j l
    → (m : ℕ) × Adjacent es i m × (m < n) × (f i j ≡ f m j + 1)
Walk-neighbor n es f w v hi hj ne e here = absurd (ne refl)
Walk-neighbor n es f {i} {j} w v hi hj ne e (hop m a walk) =
    let hm = (Adjacent-lt n es i m w a).1 in
    (
      m,
      a,
      hm,
      omega (arith, v.triangle i m j hi hm hj hm, v.edge i m a, IsMetric-le n es f w v hm hj walk),
    )

-- Two nodes that are 0 apart are one.
Walk-zero : (es : List Edge) {i j l : ℕ} → l ≡ 0 → Walk es i j l → i ≡ j
Walk-zero es e here = refl
Walk-zero es e (hop m a walk) = absurd (omega arith)

-- The table of a valid topology of at most 40000 nodes, and what its first candidates are. A node
-- that is not the destination and has a finite distance to it has a first candidate, which is a
-- node one step nearer; and a distance of 0 means that the node is the destination.
pub calculate_global_state-next_hop :
    (t : Graph)
    → t.num_nodes ≤ 40_000
    → IsWithin t.num_nodes t.undirected_edges
    → (g : CandidateList) × (calculate_global_state t ≡ ok g)
      × ((i j : ℕ)
          → i < t.num_nodes
          → j < t.num_nodes
          → distance t i j < infinite
          → (i ≡ j)
            ⊎ ((c : ℕ) × (get_elem? (candidates_at g i j) 0 ≡ some c)
                × (c < t.num_nodes)
                × (distance t i j ≡ distance t c j + 1)))
      × ((i j : ℕ) → i < t.num_nodes → j < t.num_nodes → distance t i j ≡ 0 → i ≡ j)
calculate_global_state-next_hop t small w =
    let n = t.num_nodes in
    let es = t.undirected_edges in
    let (g, e, spec) = calculate_global_state-candidates t small w in
    let (f, h, v) = floyd_warshall-Holds n es w in
    (
      g,
      e,
      λ i j hi hj finite. elim (Bool-cases (i == j)) [
        | inl same ↦ inl ((==_iff i j).0 same)
        | inr apart ↦
            let ne : i ≢ j = ground arith in
            let dij = h.cell i j hi hj in
            let walk = v.sound i j hi hj (omega (arith, dij, finite)) in
            let (m, adj, hm, step) = Walk-neighbor n es f w v hi hj ne refl walk in
            let step' : distance t i j ≡ distance t m j + 1 =
              dij ∙ step ∙ ap (λ k. k + 1) (sym (h.cell m j hm hj)) in
            let (c, first, mem) =
              In-first m (candidates_at g i j) ((spec i j m hi hj).1 (adj, step')) in
            let (adj', nearer) = (spec i j c hi hj).0 mem in
            inr (c, first, (Adjacent-lt n es i c w adj').1, nearer)
      ],
      λ i j hi hj zero.
          let dij = h.cell i j hi hj in
          let e0 : f i j ≡ 0 = omega (arith, dij, zero) in
          Walk-zero es e0 (v.sound i j hi hj (omega arith)),
    )
