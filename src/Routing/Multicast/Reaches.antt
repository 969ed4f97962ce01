-- ===== src/Routing/Multicast/Reaches.antt =====
-- The walks of arbiter-multicast-helper.cc end: each hop of one is a step nearer to its
-- destination.
use hypatia_multicast.Base.{
  ℕ, zero, suc, ◌+◌, ◌≤◌, ◌<◌, ◌≡◌, refl, ◌⊎◌, List, [], ◌∷◌, some, ok, for_each, arith, ◌==◌,
  Bool-cases, inl, inr, get_elem?, ==_iff, In,
}
use hypatia_multicast.Routing.Ecmp.{
  Graph, CandidateList, candidates_at, infinite, calculate_global_state,
}
use hypatia_multicast.Routing.Ecmp.Shortest.{IsWithin}
use hypatia_multicast.Routing.Ecmp.NextHop.{distance, calculate_global_state-next_hop}
use hypatia_multicast.Routing.Multicast.{Hops, if_idx_of, record_hop, walk, collect_hops, no_hops}
use hypatia_multicast.Routing.Multicast.Walks.{Reaches, collect_hops-Reaches}

-- The tables of the nodes have an entry for each pair of nodes.
abbrev pub IsTable : ℕ → List (List ℕ) → Type 0
IsTable n ifs = (x y : ℕ) → x < n → y < n → (i : ℕ) × (if_idx_of ifs x y ≡ ok i)

-- What the candidate lists give a walk.
record Guides (n : ℕ) (ecmp : CandidateList) (d : ℕ → ℕ → ℕ) : Type 0 where
  nearer :
      (i j : ℕ)
      → i < n
      → j < n
      → d i j < infinite
      → (i ≡ j)
        ⊎ ((c : ℕ) × (get_elem? (candidates_at ecmp i j) 0 ≡ some c)
            × (c < n)
            × (d i j ≡ d c j + 1))
  at_end : (i j : ℕ) → i < n → j < n → d i j ≡ 0 → i ≡ j

walk_returns :
    (n : ℕ) (ecmp : CandidateList) (d : ℕ → ℕ → ℕ) (ifs : List (List ℕ)) (fuel dst cur : ℕ)
    (h : Hops)
    → Guides n ecmp d
    → IsTable n ifs
    → dst < n
    → cur < n
    → d cur dst < infinite
    → d cur dst ≤ fuel
    → (h' : Hops) × (walk fuel ecmp ifs dst cur h ≡ ok h')
unfolding walk
walk_returns n ecmp d ifs zero dst cur h g t hd hc finite enough =
    (h, rw ((==_iff cur dst).1 (g.at_end cur dst hc hd (omega arith))))
walk_returns n ecmp d ifs (suc fuel) dst cur h g t hd hc finite enough =
    elim (Bool-cases (cur == dst)) [
      | inl same ↦ (h, rw same)
      | inr other ↦ elim (g.nearer cur dst hc hd finite) [
        | inl e ↦ absurd (ground arith)
        | inr (c, first, hc', step) ↦
            let (oif, eo) = t cur c hc hc' in
            let (iif, ei) = t c cur hc' hc in
            let (h', e) =
              walk_returns n ecmp d ifs fuel dst c (record_hop cur c oif iif h) g t hd hc'
                (omega arith) (omega arith) in
            (h', rw (other, first, eo, ei) e)
      ]
    ]

collect_hops_returns :
    (n : ℕ) (ecmp : CandidateList) (d : ℕ → ℕ → ℕ) (ifs : List (List ℕ)) (src : ℕ) (dsts : List ℕ)
    (h : Hops)
    → Guides n ecmp d
    → IsTable n ifs
    → src < n
    → ((dst : ℕ) → In dst dsts → (dst < n) × (d src dst < infinite))
    → (h' : Hops) × (collect_hops ecmp ifs src dsts h ≡ ok h')
unfolding collect_hops for_each
collect_hops_returns n ecmp d ifs src [] h g t hs near = (h, refl)
collect_hops_returns n ecmp d ifs src (dst ∷ dsts) h g t hs near =
    let (hd, finite) = near dst (inl refl) in
    let (h1, e1) =
      walk_returns n ecmp d ifs infinite dst src h g t hd hs finite (omega (arith, finite)) in
    let (h2, e2) = collect_hops_returns n ecmp d ifs src dsts h1 g t hs (λ x m. near x (inr m)) in
    (h2, rw e1 e2)

-- In a valid topology of at most 40000 nodes, with the candidate lists that it gives and tables for
-- all its nodes, the walks from a source to destinations at finite distances all end, and the hops
-- that they collect lead from the source to each of the destinations.
pub collect_hops-reach_all :
    (t : Graph) (ifs : List (List ℕ)) (src : ℕ) (dsts : List ℕ)
    → t.num_nodes ≤ 40_000
    → IsWithin t.num_nodes t.undirected_edges
    → IsTable t.num_nodes ifs
    → src < t.num_nodes
    → ((dst : ℕ) → In dst dsts → (dst < t.num_nodes) × (distance t src dst < infinite))
    → (ecmp : CandidateList) × (h : Hops) × (calculate_global_state t ≡ ok ecmp)
      × (collect_hops ecmp ifs src dsts no_hops ≡ ok h)
      × ((dst : ℕ) → In dst dsts → Reaches ecmp ifs h src dst)
collect_hops-reach_all t ifs src dsts small w table hs near =
    let (ecmp, e, nearer, at_end) = calculate_global_state-next_hop t small w in
    let (h, e') =
      collect_hops_returns t.num_nodes ecmp (distance t) ifs src dsts no_hops
        (record { nearer = nearer; at_end = at_end }) table hs near in
    (ecmp, h, e, e', (collect_hops-Reaches ecmp ifs src dsts no_hops e').1)
