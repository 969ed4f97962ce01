-- ===== src/Routing/Ecmp/Matrix.antt =====
-- The flat distance matrix of arbiter-ecmp-helper.cc: cells do not overlap.
use mathlib.Core.Bool.{false≢true}
use hypatia_multicast.Base.{
  ℕ, ◌+◌, ◌*◌, ◌<◌, ◌≡◌, sym, ap, subst, ◌∙◌, false, List, if◌then◌else◌, ◌&&◌, arith, ltb, ◌==◌,
  Bool-cases, inl, inr, length, length-set, ltb→lt, ==_iff, get_or-set,
}
use hypatia_multicast.Routing.Ecmp.{dist_at, set_dist}

cell_lt : (n i j : ℕ) → i < n → j < n → n * i + j < n * n
cell_lt n i j hi hj = grind arith

row_below : (n i i' j : ℕ) → i < i' → j < n → n * i + j < n * i'
row_below n i i' j lt hj = grind arith

cell_injective : (n i j i' j' : ℕ) → j < n → j' < n → n * i + j ≡ n * i' + j' → (i ≡ i') × (j ≡ j')
cell_injective n i j i' j' hj hj' e = elim (Bool-cases (ltb i i')) [
  | inl lt ↦ absurd (omega (arith, row_below n i i' j (ltb→lt i i' lt) hj))
  | inr ge ↦ elim (Bool-cases (ltb i' i)) [
    | inl gt ↦ absurd (omega (arith, row_below n i' i j' (ltb→lt i' i gt) hj'))
    | inr le ↦ let same : i ≡ i' = ground arith in (same, omega (arith, ap (λ k. n * k) same))
  ]
]

pub length-set_dist : (n i j v : ℕ) (dist : List ℕ) → length (set_dist n i j v dist) ≡ length dist
unfolding set_dist
length-set_dist n i j v dist = length-set dist (n * i + j) v

elsewhere :
    (n i j i' j' : ℕ) → (n * i + j == n * i' + j') ≡ false → ((i == i') && (j == j')) ≡ false
elsewhere n i j i' j' other =
    let apart = λ (p : i ≡ i') (q : j ≡ j').
      false≢true (sym other ∙ (==_iff _ _).1 (omega (arith, ap (λ k. n * k) p, q))) in
    ground (arith, apart)

-- A write changes its own cell and no other.
pub dist_at-set_dist :
    (n i j i' j' v : ℕ) (dist : List ℕ)
    → length dist ≡ n * n
    → i < n
    → j < n
    → j' < n
    → dist_at n (set_dist n i j v dist) i' j'
      ≡ (if (i == i') && (j == j') then v else dist_at n dist i' j')
unfolding set_dist dist_at
dist_at-set_dist n i j i' j' v dist len hi hj hj' =
    let read =
      get_or-set dist (n * i + j) (n * i' + j') v 0
        (subst (λ k. n * i + j < k) (sym len) (cell_lt n i j hi hj)) in
    elim (Bool-cases (n * i + j == n * i' + j')) [
      | inl same ↦
          let (ei, ej) = cell_injective n i j i' j' hj hj' ((==_iff _ _).0 same) in
          read ∙ rw (same, (==_iff i i').1 ei, (==_iff j j').1 ej)
      | inr other ↦ read ∙ rw (other, elsewhere n i j i' j' other)
    ]
