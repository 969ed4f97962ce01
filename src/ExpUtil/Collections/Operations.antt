-- ===== src/ExpUtil/Collections/Operations.antt =====
-- direct_set_intersection and direct_set_union of exp-util.cc against the operations on sets.
use hypatia_multicast.Base.{
  ℕ, ◌⊎◌, ◌↔◌, List, [], ◌∷◌, ltb, Bool-cases, inl, inr, In, Ascends, arith,
}
use hypatia_multicast.ExpUtil.Collections.{direct_set_intersection, direct_set_union}
use hypatia_multicast.ExpUtil.Collections.Sets.{
  In-direct_set_intersection, direct_set_intersection-In, direct_set_intersection-Ascends,
  direct_set_union-In, direct_set_union-Ascends,
}

In-direct_set_union : (xs ys : List ℕ) (z : ℕ) → In z xs ⊎ In z ys → In z (direct_set_union xs ys)
unfolding direct_set_union
In-direct_set_union [] ys z (inl m) = absurd m
In-direct_set_union [] ys z (inr m) = m
In-direct_set_union (x ∷ xs) [] z (inl m) = m
In-direct_set_union (x ∷ xs) [] z (inr m) = absurd m
In-direct_set_union (x ∷ xs) (y ∷ ys) z m = elim (Bool-cases (ltb x y)) [
  | inl below ↦
      rw (below, direct_set_union)
        (elim m [
          | inl (inl e) ↦ inl e
          | inl (inr l) ↦ inr (In-direct_set_union xs (y ∷ ys) z (inl l))
          | inr k ↦ inr (In-direct_set_union xs (y ∷ ys) z (inr k))
        ])
  | inr no_less ↦ elim (Bool-cases (ltb y x)) [
    | inl above ↦
        rw (no_less, above, direct_set_union)
          (elim m [
            | inl k ↦ inr (In-direct_set_union (x ∷ xs) ys z (inl k))
            | inr (inl e) ↦ inl e
            | inr (inr l) ↦ inr (In-direct_set_union (x ∷ xs) ys z (inr l))
          ])
    | inr no_more ↦
        rw (no_less, no_more, direct_set_union)
          (elim m [
            | inl (inl e) ↦ inl e
            | inl (inr l) ↦ inr (In-direct_set_union xs ys z (inl l))
            | inr (inl e) ↦ inl (ground (arith, e, no_less, no_more))
            | inr (inr l) ↦ inr (In-direct_set_union xs ys z (inr l))
          ])
  ]
]

-- For two sets in ascending order the results of direct_set_intersection and direct_set_union
-- ascend, and have exactly the members of both sets, and those of either set.
pub direct_sets-Ascends :
    (xs ys : List ℕ)
    → Ascends ltb xs
    → Ascends ltb ys
    → Ascends ltb (direct_set_intersection xs ys)
      × Ascends ltb (direct_set_union xs ys)
      × ((z : ℕ) → In z (direct_set_intersection xs ys) ↔ (In z xs × In z ys))
      × ((z : ℕ) → In z (direct_set_union xs ys) ↔ (In z xs ⊎ In z ys))
direct_sets-Ascends xs ys hx hy = (
  direct_set_intersection-Ascends xs ys hx,
  direct_set_union-Ascends xs ys hx hy,
  λ z. (direct_set_intersection-In xs ys z, λ m. In-direct_set_intersection xs ys z hx hy m.0 m.1),
  λ z. (direct_set_union-In xs ys z, In-direct_set_union xs ys z),
)
