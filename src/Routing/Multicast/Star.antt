-- ===== src/Routing/Multicast/Star.antt =====
-- A star of four nodes around node 1, for the tests: its candidates and its interfaces.
use hypatia_multicast.Base.{ℕ, zero, suc, ◌≡◌, refl, subst, ◌≢◌, List, [], ◌∷◌, ok, arith}
use hypatia_multicast.Routing.Ecmp.{Graph, CandidateList, candidates_at}
use hypatia_multicast.Routing.Multicast.{if_idx_of, RoutingState}
use hypatia_multicast.Routing.Multicast.Reaches.{IsTable}
use hypatia_multicast.Routing.Multicast.Delivery.{HasInterfaces}

abbrev pub star : Graph
star = record { num_nodes = 4; undirected_edges = (0, 1) ∷ (1, 2) ∷ (1, 3) ∷ [] }

abbrev pub star_interfaces : List (List ℕ)
star_interfaces =
    (0 ∷ 1 ∷ 0 ∷ 0 ∷ []) ∷ (1 ∷ 0 ∷ 2 ∷ 3 ∷ []) ∷ (0 ∷ 1 ∷ 0 ∷ 0 ∷ []) ∷ (0 ∷ 1 ∷ 0 ∷ 0 ∷ []) ∷ []

abbrev pub star_candidates : CandidateList
star_candidates =
    ([] ∷ (1 ∷ []) ∷ (1 ∷ []) ∷ (1 ∷ []) ∷ [])
    ∷ ((0 ∷ []) ∷ [] ∷ (2 ∷ []) ∷ (3 ∷ []) ∷ [])
    ∷ ((1 ∷ []) ∷ (1 ∷ []) ∷ [] ∷ (1 ∷ []) ∷ [])
    ∷ ((1 ∷ []) ∷ (1 ∷ []) ∷ (1 ∷ []) ∷ [] ∷ [])
    ∷ []

abbrev pub no_routes : RoutingState
no_routes = [] ∷ [] ∷ [] ∷ [] ∷ []

pub star-HasInterfaces : HasInterfaces star_candidates star_interfaces
unfolding candidates_at
star-HasInterfaces zero y zero e = cc
star-HasInterfaces zero y (suc zero) e =
    let same : 1 ≡ y = cc in subst (λ z. if_idx_of star_interfaces 0 z ≢ ok 0) same (λ h. cc)
star-HasInterfaces zero y (suc (suc zero)) e =
    let same : 1 ≡ y = cc in subst (λ z. if_idx_of star_interfaces 0 z ≢ ok 0) same (λ h. cc)
star-HasInterfaces zero y (suc (suc (suc zero))) e =
    let same : 1 ≡ y = cc in subst (λ z. if_idx_of star_interfaces 0 z ≢ ok 0) same (λ h. cc)
star-HasInterfaces zero y (suc (suc (suc (suc d)))) e = cc
star-HasInterfaces (suc zero) y zero e =
    let same : 0 ≡ y = cc in subst (λ z. if_idx_of star_interfaces 1 z ≢ ok 0) same (λ h. cc)
star-HasInterfaces (suc zero) y (suc zero) e = cc
star-HasInterfaces (suc zero) y (suc (suc zero)) e =
    let same : 2 ≡ y = cc in subst (λ z. if_idx_of star_interfaces 1 z ≢ ok 0) same (λ h. cc)
star-HasInterfaces (suc zero) y (suc (suc (suc zero))) e =
    let same : 3 ≡ y = cc in subst (λ z. if_idx_of star_interfaces 1 z ≢ ok 0) same (λ h. cc)
star-HasInterfaces (suc zero) y (suc (suc (suc (suc d)))) e = cc
star-HasInterfaces (suc (suc zero)) y zero e =
    let same : 1 ≡ y = cc in subst (λ z. if_idx_of star_interfaces 2 z ≢ ok 0) same (λ h. cc)
star-HasInterfaces (suc (suc zero)) y (suc zero) e =
    let same : 1 ≡ y = cc in subst (λ z. if_idx_of star_interfaces 2 z ≢ ok 0) same (λ h. cc)
star-HasInterfaces (suc (suc zero)) y (suc (suc zero)) e = cc
star-HasInterfaces (suc (suc zero)) y (suc (suc (suc zero))) e =
    let same : 1 ≡ y = cc in subst (λ z. if_idx_of star_interfaces 2 z ≢ ok 0) same (λ h. cc)
star-HasInterfaces (suc (suc zero)) y (suc (suc (suc (suc d)))) e = cc
star-HasInterfaces (suc (suc (suc zero))) y zero e =
    let same : 1 ≡ y = cc in subst (λ z. if_idx_of star_interfaces 3 z ≢ ok 0) same (λ h. cc)
star-HasInterfaces (suc (suc (suc zero))) y (suc zero) e =
    let same : 1 ≡ y = cc in subst (λ z. if_idx_of star_interfaces 3 z ≢ ok 0) same (λ h. cc)
star-HasInterfaces (suc (suc (suc zero))) y (suc (suc zero)) e =
    let same : 1 ≡ y = cc in subst (λ z. if_idx_of star_interfaces 3 z ≢ ok 0) same (λ h. cc)
star-HasInterfaces (suc (suc (suc zero))) y (suc (suc (suc zero))) e = cc
star-HasInterfaces (suc (suc (suc zero))) y (suc (suc (suc (suc d)))) e = cc
star-HasInterfaces (suc (suc (suc (suc x)))) y d e = cc

pub star-IsTable : IsTable 4 star_interfaces
star-IsTable zero zero hx hy = (0, refl)
star-IsTable zero (suc zero) hx hy = (1, refl)
star-IsTable zero (suc (suc zero)) hx hy = (0, refl)
star-IsTable zero (suc (suc (suc zero))) hx hy = (0, refl)
star-IsTable zero (suc (suc (suc (suc y)))) hx hy = absurd (omega (arith, hy))
star-IsTable (suc zero) zero hx hy = (1, refl)
star-IsTable (suc zero) (suc zero) hx hy = (0, refl)
star-IsTable (suc zero) (suc (suc zero)) hx hy = (2, refl)
star-IsTable (suc zero) (suc (suc (suc zero))) hx hy = (3, refl)
star-IsTable (suc zero) (suc (suc (suc (suc y)))) hx hy = absurd (omega (arith, hy))
star-IsTable (suc (suc zero)) zero hx hy = (0, refl)
star-IsTable (suc (suc zero)) (suc zero) hx hy = (1, refl)
star-IsTable (suc (suc zero)) (suc (suc zero)) hx hy = (0, refl)
star-IsTable (suc (suc zero)) (suc (suc (suc zero))) hx hy = (0, refl)
star-IsTable (suc (suc zero)) (suc (suc (suc (suc y)))) hx hy = absurd (omega (arith, hy))
star-IsTable (suc (suc (suc zero))) zero hx hy = (0, refl)
star-IsTable (suc (suc (suc zero))) (suc zero) hx hy = (1, refl)
star-IsTable (suc (suc (suc zero))) (suc (suc zero)) hx hy = (0, refl)
star-IsTable (suc (suc (suc zero))) (suc (suc (suc zero))) hx hy = (0, refl)
star-IsTable (suc (suc (suc zero))) (suc (suc (suc (suc y)))) hx hy = absurd (omega (arith, hy))
star-IsTable (suc (suc (suc (suc x)))) y hx hy = absurd (omega (arith, hx))
