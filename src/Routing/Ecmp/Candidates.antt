-- ===== src/Routing/Ecmp/Candidates.antt =====
-- The candidate lists of arbiter-ecmp-helper.cc: the neighbours that are one step nearer.
use mathlib.Core.Path.{ap₂, subst₂}
use hypatia_multicast.Base.{
  ℕ, >>=-eq-ok, throw_if, runtime_error, zero, suc, ◌+◌, ◌≤◌, ◌<◌, ◌≡◌, refl, sym, subst, ◌↔◌, ◌⊎◌,
  Bool, true, false, List, [], ◌∷◌, ◌++◌, ok, if◌then◌else◌, ◌&&◌, arith, ltb, ◌==◌, Bool-cases,
  inl, inr, length, get_or, replicate, In,
}
use hypatia_multicast.Routing.Ecmp.{
  Edge, Graph, dist_at, floyd_warshall, CandidateList, candidates_at, all_candidates,
  calculate_global_state,
}
use hypatia_multicast.Routing.Ecmp.Rounds.{Matrix}
use hypatia_multicast.Routing.Ecmp.Shortest.{Adjacent, IsWithin}
use hypatia_multicast.Routing.Ecmp.Tables.{
  Lists, ListsAre, near, added, added_by, all_candidates-ListsAre, empty_table,
}

In-append-left : (c : ℕ) (xs ys : List ℕ) → In c xs → In c (xs ++ ys)
In-append-left c [] ys m = absurd m
In-append-left c (x ∷ xs) ys (inl e) = inl e
In-append-left c (x ∷ xs) ys (inr m) = inr (In-append-left c xs ys m)

In-append-right : (c : ℕ) (xs ys : List ℕ) → In c ys → In c (xs ++ ys)
In-append-right c [] ys m = m
In-append-right c (x ∷ xs) ys m = inr (In-append-right c xs ys m)

In-append-cases : (c : ℕ) (xs ys : List ℕ) → In c (xs ++ ys) → In c xs ⊎ In c ys
In-append-cases c [] ys m = inr m
In-append-cases c (x ∷ xs) ys (inl e) = inl (inl e)
In-append-cases c (x ∷ xs) ys (inr m) = elim (In-append-cases c xs ys m) [
  | inl l ↦ inl (inr l)
  | inr r ↦ inr r
]

In-if : (c x : ℕ) (test : Bool) → In c (if test then x ∷ [] else []) → (c ≡ x) × (test ≡ true)
In-if c x true (inl e) = (e, refl)
In-if c x true (inr m) = absurd m
In-if c x false m = absurd m

added-In :
    (d : Matrix) (a b i j c : ℕ)
    → In c (added d (a, b) i j)
    → (◌≡◌ {A = Edge} (a, b) (i, c) ⊎ ◌≡◌ {A = Edge} (a, b) (c, i)) × (d i j ≡ d c j + 1)
added-In d a b i j c m = elim (In-append-cases c _ _ m) [
  | inl l ↦
      let (e, test) = In-if c b ((a == i) && near d a b j) l in
      let ai : a ≡ i = ground arith in
      let dist : d a j ≡ d b j + 1 = ground arith in
      (inl (ap₂ (λ x y. (x, y)) ai (sym e)), subst₂ (λ x y. d x j ≡ d y j + 1) ai (sym e) dist)
  | inr r ↦
      let (e, test) = In-if c a ((b == i) && near d b a j) r in
      let bi : b ≡ i = ground arith in
      let dist : d b j ≡ d a j + 1 = ground arith in
      (inr (ap₂ (λ x y. (x, y)) (sym e) bi), subst₂ (λ x y. d x j ≡ d y j + 1) bi (sym e) dist)
]

In-added_first : (d : Matrix) (i c j : ℕ) → d i j ≡ d c j + 1 → In c (added d (i, c) i j)
In-added_first d i c j e =
    let on : ((i == i) && near d i c j) ≡ true = ground arith in
    In-append-left c (if (i == i) && near d i c j then c ∷ [] else []) _ (rw on (inl refl))

In-added_second : (d : Matrix) (i c j : ℕ) → d i j ≡ d c j + 1 → In c (added d (c, i) i j)
In-added_second d i c j e =
    let on : ((i == i) && near d i c j) ≡ true = ground arith in
    In-append-right c (if (c == i) && near d c i j then i ∷ [] else []) _ (rw on (inl refl))

added_by-In :
    (d : Matrix) (es : List Edge) (i j c : ℕ)
    → In c (added_by d es i j)
    → Adjacent es i c × (d i j ≡ d c j + 1)
unfolding added_by
added_by-In d [] i j c m = absurd m
added_by-In d ((a, b) ∷ es) i j c m = elim (In-append-cases c _ _ m) [
  | inl l ↦
      let (ends, dist) = added-In d a b i j c l in
      (elim ends [ inl e ↦ inl (inl (sym e)) | inr e ↦ inr (inl (sym e)) ], dist)
  | inr r ↦
      let (adj, dist) = added_by-In d es i j c r in
      (elim adj [ inl x ↦ inl (inr x) | inr x ↦ inr (inr x) ], dist)
]

In-added_by :
    (d : Matrix) (es : List Edge) (i j c : ℕ)
    → Adjacent es i c
    → d i j ≡ d c j + 1
    → In c (added_by d es i j)
unfolding added_by
In-added_by d [] i j c (inl m) e = absurd m
In-added_by d [] i j c (inr m) e = absurd m
In-added_by d (x ∷ es) i j c (inl (inl p)) e =
    In-append-left c _ _ (subst (λ x. In c (added d x i j)) p (In-added_first d i c j e))
In-added_by d (x ∷ es) i j c (inr (inl p)) e =
    In-append-left c _ _ (subst (λ x. In c (added d x i j)) p (In-added_second d i c j e))
In-added_by d (x ∷ es) i j c (inl (inr m)) e =
    In-append-right c _ _ (In-added_by d es i j c (inl m) e)
In-added_by d (x ∷ es) i j c (inr (inr m)) e =
    In-append-right c _ _ (In-added_by d es i j c (inr m) e)

-- In a topology of at most 40000 nodes whose edges join distinct nodes, the candidate list of a
-- node i for a destination j has a node c exactly when an edge joins i and c and the distance of c
-- to j is one less than that of i, the distances being those of the matrix.
pub calculate_global_state-candidates :
    (t : Graph)
    → t.num_nodes ≤ 40_000
    → IsWithin t.num_nodes t.undirected_edges
    → (g : CandidateList) × (calculate_global_state t ≡ ok g)
      × ((i j c : ℕ)
          → i < t.num_nodes
          → j < t.num_nodes
          → In c (candidates_at g i j) ↔ (
              Adjacent t.undirected_edges i c
              × (dist_at t.num_nodes (floyd_warshall t.num_nodes t.undirected_edges) i j
                  ≡ dist_at t.num_nodes (floyd_warshall t.num_nodes t.undirected_edges) c j + 1)))
unfolding calculate_global_state
calculate_global_state-candidates t small w =
    let n = t.num_nodes in
    let es = t.undirected_edges in
    let dist = floyd_warshall n es in
    let few : ltb 40_000 n ≡ false = ground arith in
    let v = all_candidates-ListsAre n dist es (λ i j. []) _ w (empty_table n) in
    (
      all_candidates n dist es (replicate n (replicate n [])),
      rw few,
      λ i j c hi hj. (
        λ m. added_by-In (dist_at n dist) es i j c (subst (In c) (v.cell i j hi hj) m),
        λ (adj, e).
            subst (In c) (sym (v.cell i j hi hj)) (In-added_by (dist_at n dist) es i j c adj e),
      ),
    )

get_or-out : {A : Type 0} (xs : List A) (i : ℕ) (d : A) → length xs ≤ i → get_or xs i d ≡ d
get_or-out [] i d h = refl
get_or-out (x ∷ xs) zero d h = absurd (omega (arith, h))
get_or-out (x ∷ xs) (suc i) d h = get_or-out xs i d (omega arith)

ListsAre-inside :
    (n : ℕ) (h : Lists) (g : CandidateList) (i j c : ℕ)
    → ListsAre n h g
    → In c (candidates_at g i j)
    → (i < n) × (j < n)
unfolding candidates_at
ListsAre-inside n h g i j c v m = elim (Bool-cases (ltb i n)) [
  | inl row ↦ elim (Bool-cases (ltb j n)) [
    | inl column ↦ (ground arith, ground arith)
    | inr out ↦
        let wide = v.columns i (ground arith) in
        absurd (subst (In c) (get_or-out (get_or g i []) j [] (ground (arith, wide))) m)
  ]
  | inr out ↦
      let no_row : get_or g i [] ≡ [] = get_or-out g i [] (ground (arith, v.rows)) in
      absurd (subst (λ row. In c (get_or row j [])) no_row m)
]

-- A candidate is a neighbour, and only nodes of the topology have candidates.
pub calculate_global_state-Adjacent :
    (t : Graph)
    → IsWithin t.num_nodes t.undirected_edges
    → {g : CandidateList} → calculate_global_state t ≡ ok g
    → (i j c : ℕ) → In c (candidates_at g i j)
    → Adjacent t.undirected_edges i c
unfolding calculate_global_state
calculate_global_state-Adjacent t w {g} e i j c m =
    let n = t.num_nodes in
    let es = t.undirected_edges in
    let dist = floyd_warshall n es in
    let v = all_candidates-ListsAre n dist es (λ i j. []) _ w (empty_table n) in
    let (u, checked, made) = >>=-eq-ok (throw_if (ltb 40_000 n) runtime_error) _ e in
    let same : all_candidates n dist es (replicate n (replicate n [])) ≡ g = cc in
    let m' = subst (λ k. In c (candidates_at k i j)) (sym same) m in
    let (hi, hj) = ListsAre-inside n _ _ i j c v m' in
    (added_by-In (dist_at n dist) es i j c (subst (In c) (v.cell i j hi hj) m')).0
