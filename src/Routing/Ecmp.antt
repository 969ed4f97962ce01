-- ===== src/Routing/Ecmp.antt =====
-- ArbiterEcmpHelper::CalculateGlobalState:
-- simulator/contrib/basic-sim/helper/core/arbiter-ecmp-helper.cc.
-- The distance matrix is the flat array of the source, read and written at `n * i + j`; a read out
-- of bounds gives 0 and a write there changes nothing, and neither occurs (`Matrix`).
pub mod Matrix
pub mod Rounds
pub mod Shortest
pub mod Tables
pub mod Candidates
pub mod NextHop
mod Tests
use hypatia_multicast.Base.{
  ℕ, ◌+◌, ◌*◌, List, [], ◌∷◌, ◌++◌, Result, ok, ◌>>=◌, ◌>>◌, if◌then◌else◌, ltb, ◌==◌,
  runtime_error, throw_if, set, get_or, replicate, count_up,
}

abbrev pub Edge : Type 0
Edge = ℕ × ℕ

-- What the helper reads of a TopologyPtop.
pub record Graph : Type 0 where
  pub num_nodes : ℕ
  pub undirected_edges : List Edge

abbrev pub infinite : ℕ
infinite = 100_000_000

unfoldable pub dist_at : ℕ → List ℕ → ℕ → ℕ → ℕ
dist_at n dist i j = get_or dist (n * i + j) 0

unfoldable pub set_dist : ℕ → ℕ → ℕ → ℕ → List ℕ → List ℕ
set_dist n i j v dist = set dist (n * i + j) v

-- 0 distance to itself, and infinite distance to all others.
unfoldable pub init_dist : ℕ → List ℕ
unfolding count_up set_dist
init_dist n =
    count_up n 0
      (λ i dist. count_up n 0 (λ j. set_dist n i j (if i == j then 0 else infinite)) dist)
      (replicate (n * n) 0)

-- If there is an edge, the distance is 1.
unfoldable pub add_edges : ℕ → List Edge → List ℕ → List ℕ
unfolding set_dist
add_edges n [] dist = dist
add_edges n ((a, b) ∷ es) dist = add_edges n es (set_dist n b a 1 (set_dist n a b 1 dist))

-- The body of the three loops.
unfoldable pub relax : ℕ → ℕ → ℕ → ℕ → List ℕ → List ℕ
unfolding dist_at set_dist
relax n k i j dist =
    if ltb (dist_at n dist i k + dist_at n dist k j) (dist_at n dist i j)
    then set_dist n i j (dist_at n dist i k + dist_at n dist k j) dist
    else dist

unfoldable pub relax_row : ℕ → ℕ → ℕ → List ℕ → List ℕ
unfolding count_up relax
relax_row n k i = count_up n 0 (λ j. relax n k i j)

unfoldable pub relax_all : ℕ → ℕ → List ℕ → List ℕ
unfolding count_up relax_row
relax_all n k = count_up n 0 (λ i. relax_row n k i)

unfoldable pub floyd_warshall : ℕ → List Edge → List ℕ
unfolding count_up relax_all init_dist add_edges
floyd_warshall n es = count_up n 0 (λ k. relax_all n k) (add_edges n es (init_dist n))

-- candidate_list[current][destination], a list of next hops.
abbrev pub CandidateList : Type 0
CandidateList = List (List (List ℕ))

unfoldable pub candidates_at : CandidateList → ℕ → ℕ → List ℕ
candidates_at g i j = get_or (get_or g i []) j []

unfoldable pub push_candidate : ℕ → ℕ → ℕ → CandidateList → CandidateList
push_candidate i j c g = set g i (set (get_or g i []) j (get_or (get_or g i []) j [] ++ c ∷ []))

-- The body of the loop over destinations. `dist - 1 == dist'` on int32_t is `dist == dist' + 1`.
unfoldable pub add_candidates : ℕ → List ℕ → Edge → ℕ → CandidateList → CandidateList
add_candidates n dist (a, b) j g =
    let g' = if dist_at n dist a j == dist_at n dist b j + 1 then push_candidate a j b g else g in
    if dist_at n dist b j == dist_at n dist a j + 1 then push_candidate b j a g' else g'

unfoldable pub edge_candidates : ℕ → List ℕ → Edge → CandidateList → CandidateList
unfolding count_up
edge_candidates n dist e = count_up n 0 (λ j. add_candidates n dist e j)

unfoldable pub all_candidates : ℕ → List ℕ → List Edge → CandidateList → CandidateList
all_candidates n dist [] g = g
all_candidates n dist (e ∷ es) g = all_candidates n dist es (edge_candidates n dist e g)

unfoldable pub calculate_global_state : Graph → Result CandidateList
unfolding floyd_warshall all_candidates edge_candidates add_candidates push_candidate dist_at
calculate_global_state t = do
  throw_if (ltb 40_000 t.num_nodes) runtime_error
  let n = t.num_nodes
  let dist = floyd_warshall n t.undirected_edges
  ok (all_candidates n dist t.undirected_edges (replicate n (replicate n [])))
