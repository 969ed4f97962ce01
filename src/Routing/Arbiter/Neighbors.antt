-- ===== src/Routing/Arbiter/Neighbors.antt =====
-- The table of neighbours of arbiter-ptop.cc: which interface leads to which node.
use hypatia_multicast.Base.{
  ℕ, zero, suc, ◌<◌, ◌≡◌, refl, sym, ap, subst, ◌∙◌, ◌≢◌, ◌⊎◌, List, [], ◌∷◌, if◌then◌else◌, arith,
  ◌==◌, Bool-cases, inl, inr, length, set, get_or, length-set, replicate, length-replicate,
  get_or-set,
}
use hypatia_multicast.Routing.Ecmp.{Edge}
use hypatia_multicast.Routing.Ecmp.Shortest.{Adjacent, IsWithin}
use hypatia_multicast.Routing.Arbiter.{fill_neighbors, neighbor_node_id_to_if_idx}

abbrev pub edges_of : List (Edge × (ℕ × ℕ)) → List Edge
edges_of [] = []
edges_of ((e, ifs) ∷ es) = e ∷ edges_of es

-- `i` is the interface of node `me` on a link to node `y`.
abbrev pub Joins : ℕ → ℕ → ℕ → List (Edge × (ℕ × ℕ)) → Type 0
Joins me y i [] = ⊥
Joins me y i (((a, b), (if_a, if_b)) ∷ es) =
    ((a ≡ me) × (b ≡ y) × (if_a ≡ i)) ⊎ ((b ≡ me) × (a ≡ y) × (if_b ≡ i)) ⊎ Joins me y i es

-- The table after one edge.
abbrev fill_one : ℕ → ℕ → ℕ → ℕ → ℕ → List ℕ → List ℕ
fill_one me a b if_a if_b table =
    if a == me then set table b if_a else if b == me then set table a if_b else table

fill_one-entry :
    (me y a b if_a if_b : ℕ) (table : List ℕ)
    → a < length table
    → b < length table
    → a ≢ b
    → ((a ≡ me) × (b ≡ y) × (if_a ≡ get_or (fill_one me a b if_a if_b table) y 0))
      ⊎ ((b ≡ me) × (a ≡ y) × (if_b ≡ get_or (fill_one me a b if_a if_b table) y 0))
      ⊎ ((get_or (fill_one me a b if_a if_b table) y 0 ≡ get_or table y 0)
          × ((a ≡ me) × (b ≡ y) → ⊥)
          × ((b ≡ me) × (a ≡ y) → ⊥))
fill_one-entry me y a b if_a if_b table ha hb ne = elim (Bool-cases (a == me)) [
  | inl first ↦
      rw (first, get_or-set table b y if_a 0 hb)
        (elim (Bool-cases (b == y)) [
          | inl here ↦ rw here (inl (ground arith, ground arith, refl))
          | inr there ↦
              rw there
                (inr (inr (refl, λ h. ground (arith, h.0, h.1), λ h. ground (arith, h.0, h.1))))
        ])
  | inr other ↦ elim (Bool-cases (b == me)) [
    | inl second ↦
        rw (other, second, get_or-set table a y if_b 0 ha)
          (elim (Bool-cases (a == y)) [
            | inl here ↦ rw here (inr (inl (ground arith, ground arith, refl)))
            | inr there ↦
                rw there
                  (inr (inr (refl, λ h. ground (arith, h.0, h.1), λ h. ground (arith, h.0, h.1))))
          ])
    | inr neither ↦
        rw (other, neither)
          (inr (inr (refl, λ h. ground (arith, h.0, h.1), λ h. ground (arith, h.0, h.1))))
  ]
]

length-fill_one :
    (me a b if_a if_b : ℕ) (table : List ℕ)
    → length (fill_one me a b if_a if_b table) ≡ length table
length-fill_one me a b if_a if_b table = elim (Bool-cases (a == me)) [
  | inl first ↦ rw first (length-set table b if_a)
  | inr other ↦ elim (Bool-cases (b == me)) [
    | inl second ↦ rw (other, second) (length-set table a if_b)
    | inr neither ↦ rw (other, neither)
  ]
]

length-fill_neighbors :
    (me : ℕ) (es : List (Edge × (ℕ × ℕ))) (table : List ℕ)
    → length (fill_neighbors me es table) ≡ length table
unfolding fill_neighbors
length-fill_neighbors me [] table = refl
length-fill_neighbors me (((a, b), (if_a, if_b)) ∷ es) table =
    length-fill_neighbors me es _ ∙ length-fill_one me a b if_a if_b table

-- An entry is the interface of a link, or as before if no link joins the two nodes.
fill_neighbors-entry :
    (me y : ℕ) (es : List (Edge × (ℕ × ℕ))) (table : List ℕ)
    → IsWithin (length table) (edges_of es)
    → Joins me y (get_or (fill_neighbors me es table) y 0) es
      ⊎ ((get_or (fill_neighbors me es table) y 0 ≡ get_or table y 0)
          × (Adjacent (edges_of es) me y → ⊥))
unfolding fill_neighbors
fill_neighbors-entry me y [] table w = inr (refl, λ adj. elim adj [ inl m ↦ m | inr m ↦ m ])
fill_neighbors-entry me y (((a, b), (if_a, if_b)) ∷ es) table w =
    let t = fill_one me a b if_a if_b table in
    let w' =
      subst (λ n. IsWithin n (edges_of es)) (sym (length-fill_one me a b if_a if_b table)) w.1 in
    elim (fill_neighbors-entry me y es t w') [
      | inl joins ↦ inl (inr (inr joins))
      | inr (kept, apart) ↦ elim (fill_one-entry me y a b if_a if_b table w.0.0 w.0.1 w.0.2) [
        | inl first ↦ inl (inl (first.0, first.1, first.2 ∙ sym kept))
        | inr (inl second) ↦ inl (inr (inl (second.0, second.1, second.2 ∙ sym kept)))
        | inr (inr (before, not_first, not_second)) ↦
            inr (kept ∙ before, not_adjacent me y a b es not_first not_second apart)
      ]
    ]
  where
    not_adjacent :
        (me y a b : ℕ) (es : List (Edge × (ℕ × ℕ)))
        → ((a ≡ me) × (b ≡ y) → ⊥)
        → ((b ≡ me) × (a ≡ y) → ⊥)
        → (Adjacent (edges_of es) me y → ⊥)
        → Adjacent ((a, b) ∷ edges_of es) me y
        → ⊥
    not_adjacent me y a b es f g h (inl (inl e)) = f (sym (ap (λ p. p.0) e), sym (ap (λ p. p.1) e))
    not_adjacent me y a b es f g h (inr (inl e)) = g (sym (ap (λ p. p.1) e), sym (ap (λ p. p.0) e))
    not_adjacent me y a b es f g h (inl (inr m)) = h (inl m)
    not_adjacent me y a b es f g h (inr (inr m)) = h (inr m)

get_or-replicate_self : (n i : ℕ) (a : ℕ) → get_or (replicate n a) i a ≡ a
get_or-replicate_self zero i a = refl
get_or-replicate_self (suc n) zero a = refl
get_or-replicate_self (suc n) (suc i) a = get_or-replicate_self n i a

-- In a topology whose edges join distinct nodes, the table of a node has at each neighbour the
-- interface of a link to it, and 0 at every other node.
pub neighbor_node_id_to_if_idx-Joins :
    (n me y : ℕ) (es : List (Edge × (ℕ × ℕ)))
    → IsWithin n (edges_of es)
    → Joins me y (get_or (neighbor_node_id_to_if_idx n me es) y 0) es
      ⊎ ((get_or (neighbor_node_id_to_if_idx n me es) y 0 ≡ 0) × (Adjacent (edges_of es) me y → ⊥))
unfolding neighbor_node_id_to_if_idx
neighbor_node_id_to_if_idx-Joins n me y es w =
    elim (fill_neighbors-entry me y es (replicate n 0)
      (subst (λ k. IsWithin k (edges_of es)) (sym (length-replicate n 0)) w)) [
        | inl joins ↦ inl joins
        | inr (kept, apart) ↦ inr (kept ∙ get_or-replicate_self n y 0, apart)
      ]

pub length-neighbor_node_id_to_if_idx :
    (n me : ℕ) (es : List (Edge × (ℕ × ℕ))) → length (neighbor_node_id_to_if_idx n me es) ≡ n
unfolding neighbor_node_id_to_if_idx
length-neighbor_node_id_to_if_idx n me es =
    length-fill_neighbors me es (replicate n 0) ∙ length-replicate n 0
