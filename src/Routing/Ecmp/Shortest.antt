-- ===== src/Routing/Ecmp/Shortest.antt =====
-- The matrix of arbiter-ecmp-helper.cc after the three loops holds the lengths of shortest walks.
use hypatia_multicast.Base.{
  ℕ, suc, ◌+◌, ◌≤◌, ◌<◌, ◌≡◌, refl, ap, subst, ◌≢◌, ◌⊎◌, List, [], ◌∷◌, if◌then◌else◌, ◌&&◌, arith,
  ltb, ◌==◌, Bool-cases, inl, inr, ltb→lt, ==_iff, count_up-inv, In,
}
use hypatia_multicast.Routing.Ecmp.{
  Edge, infinite, dist_at, init_dist, add_edges, relax_all, floyd_warshall,
}
use hypatia_multicast.Routing.Ecmp.Rounds.{
  Matrix, Holds, Holds-set_dist, no_edges, init_dist-Holds, through, relax_all-Holds,
}

abbrev pub Adjacent : List Edge → ℕ → ℕ → Type 0
Adjacent es a b = In (a, b) es ⊎ In (b, a) es

-- The walks of a topology, with their lengths.
pub data Walk (es : List Edge) : ℕ → ℕ → ℕ → Type 0 where
  here : {i : ℕ} → Walk es i i 0
  hop : {i j l : ℕ} (m : ℕ) → Adjacent es i m → Walk es m j l → Walk es i j (suc l)

-- The ends of each edge are two nodes below n, as `ParseTopologyGraph` checks.
abbrev pub IsWithin : ℕ → List Edge → Type 0
IsWithin n [] = Unit {0}
IsWithin n ((a, b) ∷ es) = ((a < n) × (b < n) × (a ≢ b)) × IsWithin n es

Walk-append :
    {es : List Edge} {i m l : ℕ} (j l' : ℕ) → Walk es i m l → Walk es m j l' → Walk es i j (l + l')
Walk-append {es} j l' here w = subst (Walk es _ j) (omega arith) w
Walk-append {es} j l' (hop x e v) w =
    subst (Walk es _ j) (omega arith) (hop x e (Walk-append j l' v w))

pub Adjacent-lt :
    (n : ℕ) (es : List Edge) (i j : ℕ) → IsWithin n es → Adjacent es i j → (i < n) × (j < n)
Adjacent-lt n [] i j v (inl m) = absurd m
Adjacent-lt n [] i j v (inr m) = absurd m
Adjacent-lt n ((a, b) ∷ es) i j v (inl (inl e)) = ground (arith, ap (λ p. p.0) e, ap (λ p. p.1) e)
Adjacent-lt n ((a, b) ∷ es) i j v (inr (inl e)) = ground (arith, ap (λ p. p.0) e, ap (λ p. p.1) e)
Adjacent-lt n ((a, b) ∷ es) i j v (inl (inr m)) = Adjacent-lt n es i j v.1 (inl m)
Adjacent-lt n ((a, b) ∷ es) i j v (inr (inr m)) = Adjacent-lt n es i j v.1 (inr m)

-- What holds of the matrix before the round for `k`.
pub record IsMetric (n : ℕ) (es : List Edge) (k : ℕ) (f : Matrix) : Type 0 where
  pub zero : (i : ℕ) → i < n → f i i ≡ 0
  pub bounded : (i j : ℕ) → i < n → j < n → f i j ≤ infinite
  pub edge : (i j : ℕ) → Adjacent es i j → f i j ≤ 1
  pub sound : (i j : ℕ) → i < n → j < n → f i j < infinite → Walk es i j (f i j)
  pub triangle : (i m j : ℕ) → i < n → m < n → j < n → m < k → f i j ≤ f i m + f m j

through-IsMetric :
    (n : ℕ) (es : List Edge) (k : ℕ) (f : Matrix)
    → k < n
    → IsMetric n es k f
    → IsMetric n es (suc k) (through k f)
through-IsMetric n es k f hk v = record {
  zero = λ i hi. ground (arith, v.zero i hi);
  bounded = λ i j hi hj. ground (arith, v.bounded i j hi hj);
  edge = λ i j a. ground (arith, v.edge i j a);
  sound = λ i j hi hj finite. elim (Bool-cases (ltb (f i k + f k j) (f i j))) [
    | inl less ↦ rw less (
        Walk-append j (f k j) (v.sound i k hi hk (ground (arith, v.bounded i j hi hj)))
          (v.sound k j hk hj (ground (arith, v.bounded i j hi hj))))
    | inr enough ↦ rw enough (v.sound i j hi hj (ground arith))
  ];
  triangle = λ i m j hi hm hj lt. elim (Bool-cases (m == k)) [
    | inl same ↦ let e : m ≡ k = (==_iff m k).0 same in rw e (ground (arith, v.zero k hk))
    | inr below ↦
        let lt' : m < k = ground arith in
        ground (
          arith,
          v.triangle i m j hi hm hj lt',
          v.triangle k m j hk hm hj lt',
          v.triangle i m k hi hm hk lt',
          v.zero k hk,
        )
  ];
}

-- The matrix with the edges written into it.
abbrev with_edge : ℕ → ℕ → Matrix → Matrix
with_edge a b f i j = if (b == i) && (a == j) then 1 else if (a == i) && (b == j) then 1 else f i j

with_edges : List Edge → Matrix → Matrix
with_edges [] f = f
with_edges ((a, b) ∷ es) f = with_edges es (with_edge a b f)

add_edges-Holds :
    (n : ℕ) (es : List Edge) (f : Matrix) (dist : List ℕ)
    → IsWithin n es
    → Holds n f dist
    → Holds n (with_edges es f) (add_edges n es dist)
unfolding add_edges with_edges
add_edges-Holds n [] f dist v h = h
add_edges-Holds n ((a, b) ∷ es) f dist v h =
    add_edges-Holds n es (with_edge a b f) _ v.1
      (Holds-set_dist n _ b a 1 _ v.0.1 v.0.0 (Holds-set_dist n f a b 1 dist v.0.0 v.0.1 h))

with_edges-one : (es : List Edge) (f : Matrix) (i j : ℕ) → f i j ≡ 1 → with_edges es f i j ≡ 1
unfolding with_edges
with_edges-one [] f i j e = e
with_edges-one ((a, b) ∷ es) f i j e = with_edges-one es (with_edge a b f) i j (ground arith)

with_edges-Adjacent :
    (es : List Edge) (f : Matrix) (i j : ℕ) → Adjacent es i j → with_edges es f i j ≡ 1
unfolding with_edges
with_edges-Adjacent [] f i j (inl m) = absurd m
with_edges-Adjacent [] f i j (inr m) = absurd m
with_edges-Adjacent ((a, b) ∷ es) f i j (inl (inl e)) =
    with_edges-one es (with_edge a b f) i j (ground (arith, ap (λ p. p.0) e, ap (λ p. p.1) e))
with_edges-Adjacent ((a, b) ∷ es) f i j (inr (inl e)) =
    with_edges-one es (with_edge a b f) i j (ground (arith, ap (λ p. p.0) e, ap (λ p. p.1) e))
with_edges-Adjacent ((a, b) ∷ es) f i j (inl (inr m)) =
    with_edges-Adjacent es (with_edge a b f) i j (inl m)
with_edges-Adjacent ((a, b) ∷ es) f i j (inr (inr m)) =
    with_edges-Adjacent es (with_edge a b f) i j (inr m)

-- Before the first round, but for the edges that are still to be written.
record IsPartial (n : ℕ) (all : List Edge) (f : Matrix) : Type 0 where
  zero : (i : ℕ) → i < n → f i i ≡ 0
  bounded : (i j : ℕ) → f i j ≤ infinite
  sound : (i j : ℕ) → f i j < infinite → Walk all i j (f i j)

one_hop : {all : List Edge} (i j : ℕ) → Adjacent all i j → Walk all i j 1
one_hop i j a = hop j a here

with_edge-IsPartial :
    (n : ℕ) (all : List Edge) (f : Matrix) (a b : ℕ)
    → a ≢ b
    → Adjacent all a b
    → Adjacent all b a
    → IsPartial n all f
    → IsPartial n all (with_edge a b f)
with_edge-IsPartial n all f a b ne ab ba v = record {
  zero = λ i hi. ground (arith, v.zero i hi);
  bounded = λ i j. ground (arith, v.bounded i j);
  sound = λ i j finite. elim (Bool-cases ((b == i) && (a == j))) [
    | inl back ↦ rw back (
        subst (λ x. Walk all x j 1) (ground arith)
          (subst (λ y. Walk all b y 1) (ground arith) (one_hop b a ba)))
    | inr no_back ↦ elim (Bool-cases ((a == i) && (b == j))) [
      | inl forth ↦
          rw (no_back, forth)
            (subst (λ x. Walk all x j 1) (ground arith)
              (subst (λ y. Walk all a y 1) (ground arith) (one_hop a b ab)))
      | inr other ↦ rw (no_back, other) (v.sound i j (ground arith))
    ]
  ];
}

with_edges-IsPartial :
    (n : ℕ) (all es : List Edge) (f : Matrix)
    → IsWithin n es
    → ((a b : ℕ) → In (a, b) es → In (a, b) all)
    → IsPartial n all f
    → IsPartial n all (with_edges es f)
unfolding with_edges
with_edges-IsPartial n all [] f w sub v = v
with_edges-IsPartial n all ((a, b) ∷ es) f w sub v =
    with_edges-IsPartial n all es (with_edge a b f) w.1 (λ x y m. sub x y (inr m))
      (with_edge-IsPartial n all f a b w.0.2 (inl (sub a b (inl refl))) (inr (sub a b (inl refl)))
        v)

no_edges-IsPartial : (n : ℕ) (all : List Edge) → IsPartial n all no_edges
no_edges-IsPartial n all = record {
  zero = λ i hi. ground arith;
  bounded = λ i j. ground arith;
  sound = λ i j finite. elim (Bool-cases (i == j)) [
    | inl same ↦ rw same (subst (λ y. Walk all i y 0) ((==_iff i j).0 same) here)
    | inr apart ↦ absurd (ground arith)
  ];
}

start-IsMetric : (n : ℕ) (es : List Edge) → IsWithin n es → IsMetric n es 0 (with_edges es no_edges)
start-IsMetric n es w =
    let v = with_edges-IsPartial n es es no_edges w (λ a b m. m) (no_edges-IsPartial n es) in
    record {
      zero = v.zero;
      bounded = λ i j hi hj. v.bounded i j;
      edge = λ i j a. omega (arith, with_edges-Adjacent es no_edges i j a);
      sound = λ i j hi hj. v.sound i j;
      triangle = λ i m j hi hm hj lt. elim lt [ ];
    }

pub floyd_warshall-Holds :
    (n : ℕ) (es : List Edge)
    → IsWithin n es
    → (f : Matrix) × Holds n f (floyd_warshall n es) × IsMetric n es n f
unfolding floyd_warshall
floyd_warshall-Holds n es w =
    count_up-inv (λ k dist. (f : Matrix) × Holds n f dist × IsMetric n es k f) n
      (λ k. relax_all n k)
      (λ k dist hk (f, h, v). (
        through k f,
        relax_all-Holds n k f dist hk (v.zero k hk) h,
        through-IsMetric n es k f hk v,
      ))
      n 0 _ (omega arith)
      (
        with_edges es no_edges,
        add_edges-Holds n es no_edges (init_dist n) w (init_dist-Holds n),
        start-IsMetric n es w,
      )

-- No distance is greater than the length of a walk.
pub IsMetric-le :
    (n : ℕ) (es : List Edge) (f : Matrix) {i j l : ℕ}
    → IsWithin n es
    → IsMetric n es n f
    → i < n
    → j < n
    → Walk es i j l
    → f i j ≤ l
IsMetric-le n es f {i} w v hi hj here = omega (arith, v.zero i hi)
IsMetric-le n es f {i} {j} w v hi hj (hop m a walk) =
    let hm = (Adjacent-lt n es i m w a).1 in
    omega (arith, v.triangle i m j hi hm hj hm, v.edge i m a, IsMetric-le n es f w v hm hj walk)

-- The matrix that `CalculateGlobalState` computes for a topology whose edges join distinct nodes:
-- for all nodes i and j, the entry is not greater than the length of any walk from i to j, there is
-- a walk of just that length if it is below 100000000, and otherwise it is 100000000.
pub floyd_warshall-shortest :
    (n : ℕ) (es : List Edge) (i j : ℕ)
    → IsWithin n es
    → i < n
    → j < n
    → ((l : ℕ) → Walk es i j l → dist_at n (floyd_warshall n es) i j ≤ l)
      × (Walk es i j (dist_at n (floyd_warshall n es) i j)
          ⊎ (dist_at n (floyd_warshall n es) i j ≡ infinite))
floyd_warshall-shortest n es i j w hi hj =
    let (f, h, v) = floyd_warshall-Holds n es w in
    rw (h.cell i j hi hj) (
      λ l walk. IsMetric-le n es f w v hi hj walk,
      elim (Bool-cases (ltb (f i j) infinite)) [
        | inl finite ↦ inl (v.sound i j hi hj (ltb→lt _ _ finite))
        | inr far ↦ inr (ground (arith, v.bounded i j hi hj))
      ],
    )
