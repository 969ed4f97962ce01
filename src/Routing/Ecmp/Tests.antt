-- ===== src/Routing/Ecmp/Tests.antt =====
-- Small topologies.
use hypatia_multicast.Base.{
  ℕ, ◌+◌, ◌≤◌, ◌<◌, ◌≡◌, refl, ◌⊎◌, ◌↔◌, [], ◌∷◌, some, ok, arith, get_elem?, In,
}
use hypatia_multicast.Routing.Ecmp.{
  Graph, CandidateList, candidates_at, calculate_global_state, floyd_warshall, dist_at, infinite,
}
use hypatia_multicast.Routing.Ecmp.Shortest.{Adjacent, Walk, IsWithin, floyd_warshall-shortest}
use hypatia_multicast.Routing.Ecmp.Candidates.{calculate_global_state-candidates}
use hypatia_multicast.Routing.Ecmp.NextHop.{distance, calculate_global_state-next_hop}

-- A ring of four nodes.
abbrev square : Graph
square = record { num_nodes = 4; undirected_edges = (0, 1) ∷ (0, 2) ∷ (1, 3) ∷ (2, 3) ∷ [] }

square_candidates :
    calculate_global_state square
    ≡ ok (
        ([] ∷ (1 ∷ []) ∷ (2 ∷ []) ∷ (1 ∷ 2 ∷ []) ∷ [])
        ∷ ((0 ∷ []) ∷ [] ∷ (0 ∷ 3 ∷ []) ∷ (3 ∷ []) ∷ [])
        ∷ ((0 ∷ []) ∷ (0 ∷ 3 ∷ []) ∷ [] ∷ (3 ∷ []) ∷ [])
        ∷ ((1 ∷ 2 ∷ []) ∷ (1 ∷ []) ∷ (2 ∷ []) ∷ [] ∷ [])
        ∷ [])
unfolding calculate_global_state
square_candidates = refl

square-IsWithin : IsWithin 4 square.undirected_edges
square-IsWithin = (
  (omega arith, omega arith, omega arith),
  (
    (omega arith, omega arith, omega arith),
    ((omega arith, omega arith, omega arith), ((omega arith, omega arith, omega arith), tt)),
  ),
)

floyd_warshall-shortest_example :
    ((l : ℕ)
      → Walk square.undirected_edges 0 3 l
      → dist_at 4 (floyd_warshall 4 square.undirected_edges) 0 3 ≤ l)
    × (Walk square.undirected_edges 0 3 (dist_at 4 (floyd_warshall 4 square.undirected_edges) 0 3)
        ⊎ (dist_at 4 (floyd_warshall 4 square.undirected_edges) 0 3 ≡ infinite))
floyd_warshall-shortest_example =
    floyd_warshall-shortest 4 square.undirected_edges 0 3 square-IsWithin (omega arith)
      (omega arith)

calculate_global_state-candidates_example :
    (g : CandidateList) × (calculate_global_state square ≡ ok g)
    × ((i j c : ℕ)
        → i < 4
        → j < 4
        → In c (candidates_at g i j) ↔ (
            Adjacent square.undirected_edges i c × (distance square i j ≡ distance square c j + 1)))
calculate_global_state-candidates_example =
    calculate_global_state-candidates square (omega arith) square-IsWithin

calculate_global_state-next_hop_example :
    (g : CandidateList) × (calculate_global_state square ≡ ok g)
    × ((i j : ℕ)
        → i < 4
        → j < 4
        → distance square i j < infinite
        → (i ≡ j)
          ⊎ ((c : ℕ) × (get_elem? (candidates_at g i j) 0 ≡ some c)
              × (c < 4)
              × (distance square i j ≡ distance square c j + 1)))
    × ((i j : ℕ) → i < 4 → j < 4 → distance square i j ≡ 0 → i ≡ j)
calculate_global_state-next_hop_example =
    calculate_global_state-next_hop square (omega arith) square-IsWithin
