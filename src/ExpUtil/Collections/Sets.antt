-- ===== src/ExpUtil/Collections/Sets.antt =====
-- The sets of numbers of exp-util.cc: they ascend, and the set operations are those of mathematics.
use hypatia_multicast.Base.{
  ℕ, ◌<◌, ◌≡◌, subst, ◌⊎◌, true, List, [], ◌∷◌, ok, not, for_each, arith, ltb, ◌==◌, Bool-cases,
  inl, inr, length, In, insert_set, invalid_argument, ◌>>=◌, Ensures, bind, guarded, returns,
  for_each-inv, Ascends, insert_set-Ascends,
}
use hypatia_multicast.ExpUtil.Text.{Text}
use hypatia_multicast.ExpUtil.Numbers.{parse_positive_int64}
use hypatia_multicast.ExpUtil.Collections.{
  parse_set_string, parse_set_positive_int64, all_items_are_less_than, direct_set_intersection,
  direct_set_union,
}

pub parse_set_positive_int64-Ascends :
    (str : Text) → Ensures (Ascends ltb) (parse_set_positive_int64 str)
unfolding parse_set_positive_int64
parse_set_positive_int64-Ascends str = bind (parse_set_string str) _ λ string_set _.
    bind
      (for_each (λ found s. parse_positive_int64 s >>= λ n. ok (insert_set n found)) [] string_set)
      _
      λ int64_set made.
        guarded (not (length string_set == length int64_set)) invalid_argument _ λ _.
          returns int64_set (
            (for_each-inv (Ascends ltb)
                (λ found s. parse_positive_int64 s >>= λ n. ok (insert_set n found))
                (λ found s h.
                  bind (parse_positive_int64 s) _
                    λ n _. returns (insert_set n found) (insert_set-Ascends n found h))
                [] string_set tt).holds
              int64_set made)

pub all_items_are_less_than-lt :
    (xs : List ℕ) (number : ℕ) {u : Unit {0}}
    → all_items_are_less_than xs number ≡ ok u
    → (x : ℕ) → In x xs
    → x < number
unfolding all_items_are_less_than
all_items_are_less_than-lt [] number e x m = absurd m
all_items_are_less_than-lt (y ∷ ys) number e x m = elim (Bool-cases (ltb y number)) [
  | inl small ↦ elim m [
    | inl same ↦ ground (arith, same, small)
    | inr later ↦
        all_items_are_less_than-lt ys number (rw (small, all_items_are_less_than) at e) x later
  ]
  | inr large ↦ absurd (ground arith)
]

-- The first set has nothing below the head of the second.
above_head :
    (x y z : ℕ) (ys : List ℕ) → ltb x y ≡ true → Ascends ltb (y ∷ ys) → In z (y ∷ ys) → x < z
above_head x y z ys lt h (inl e) = ground (arith, e, lt)
above_head x y z ys lt h (inr m) = ground (arith, h.0 z m, lt)

pub In-direct_set_intersection :
    (xs ys : List ℕ) (z : ℕ)
    → Ascends ltb xs
    → Ascends ltb ys
    → In z xs
    → In z ys
    → In z (direct_set_intersection xs ys)
unfolding direct_set_intersection
In-direct_set_intersection [] ys z hx hy m k = absurd m
In-direct_set_intersection (x ∷ xs) [] z hx hy m k = absurd k
In-direct_set_intersection (x ∷ xs) (y ∷ ys) z hx hy m k = elim (Bool-cases (ltb x y)) [
  | inl below ↦
      let gt = above_head x y z ys below hy k in
      rw (below, direct_set_intersection)
        (In-direct_set_intersection xs (y ∷ ys) z hx.1 hy
          (elim m [ inl e ↦ absurd (omega (arith, e, gt)) | inr l ↦ l ]) k)
  | inr no_less ↦ elim (Bool-cases (ltb y x)) [
    | inl above ↦
        let gt = above_head y x z xs above hx m in
        rw (no_less, above, direct_set_intersection)
          (In-direct_set_intersection (x ∷ xs) ys z hx hy.1 m
            (elim k [ inl e ↦ absurd (omega (arith, e, gt)) | inr l ↦ l ]))
    | inr no_more ↦
        rw (no_less, no_more, direct_set_intersection)
          (elim m [
            | inl e ↦ inl e
            | inr l ↦ elim k [
              | inl e ↦ inl (ground (arith, e, no_less, no_more))
              | inr j ↦ inr (In-direct_set_intersection xs ys z hx.1 hy.1 l j)
            ]
          ])
  ]
]

pub direct_set_intersection-In :
    (xs ys : List ℕ) (z : ℕ) → In z (direct_set_intersection xs ys) → In z xs × In z ys
unfolding direct_set_intersection
direct_set_intersection-In [] ys z m = absurd m
direct_set_intersection-In (x ∷ xs) [] z m = absurd m
direct_set_intersection-In (x ∷ xs) (y ∷ ys) z m = elim (Bool-cases (ltb x y)) [
  | inl below ↦
      let (a, b) =
        direct_set_intersection-In xs (y ∷ ys) z (rw (below, direct_set_intersection) at m) in
      (inr a, b)
  | inr no_less ↦ elim (Bool-cases (ltb y x)) [
    | inl above ↦
        let (a, b) =
          direct_set_intersection-In (x ∷ xs) ys z
            (rw (no_less, above, direct_set_intersection) at m) in
        (a, inr b)
    | inr no_more ↦
        let m' : (z ≡ x) ⊎ In z (direct_set_intersection xs ys) =
          rw (no_less, no_more, direct_set_intersection) at m in
        elim m' [
          | inl e ↦ (inl e, inl (ground (arith, e, no_less, no_more)))
          | inr l ↦ let (a, b) = direct_set_intersection-In xs ys z l in (inr a, inr b)
        ]
  ]
]

pub direct_set_intersection-Ascends :
    (xs ys : List ℕ) → Ascends ltb xs → Ascends ltb (direct_set_intersection xs ys)
unfolding direct_set_intersection
direct_set_intersection-Ascends [] ys h = tt
direct_set_intersection-Ascends (x ∷ xs) [] h = tt
direct_set_intersection-Ascends (x ∷ xs) (y ∷ ys) h = elim (Bool-cases (ltb x y)) [
  | inl below ↦
      rw (below, direct_set_intersection) (direct_set_intersection-Ascends xs (y ∷ ys) h.1)
  | inr no_less ↦ elim (Bool-cases (ltb y x)) [
    | inl above ↦
        rw (no_less, above, direct_set_intersection) (direct_set_intersection-Ascends (x ∷ xs) ys h)
    | inr no_more ↦
        rw (no_less, no_more, direct_set_intersection)
          (
            λ z m. h.0 z (direct_set_intersection-In xs ys z m).0,
            direct_set_intersection-Ascends xs ys h.1,
          )
  ]
]

pub direct_set_union-In :
    (xs ys : List ℕ) (z : ℕ) → In z (direct_set_union xs ys) → In z xs ⊎ In z ys
unfolding direct_set_union
direct_set_union-In [] ys z m = inr m
direct_set_union-In (x ∷ xs) [] z m = inl m
direct_set_union-In (x ∷ xs) (y ∷ ys) z m = elim (Bool-cases (ltb x y)) [
  | inl below ↦
      let m' : (z ≡ x) ⊎ In z (direct_set_union xs (y ∷ ys)) = rw (below, direct_set_union) at m in
      elim m' [
        | inl e ↦ inl (inl e)
        | inr l ↦ elim (direct_set_union-In xs (y ∷ ys) z l) [ inl a ↦ inl (inr a) | inr b ↦ inr b ]
      ]
  | inr no_less ↦ elim (Bool-cases (ltb y x)) [
    | inl above ↦
        let m' : (z ≡ y) ⊎ In z (direct_set_union (x ∷ xs) ys) =
          rw (no_less, above, direct_set_union) at m in
        elim m' [
          | inl e ↦ inr (inl e)
          | inr l ↦ elim (direct_set_union-In (x ∷ xs) ys z l) [
            | inl a ↦ inl a
            | inr b ↦ inr (inr b)
          ]
        ]
    | inr no_more ↦
        let m' : (z ≡ x) ⊎ In z (direct_set_union xs ys) =
          rw (no_less, no_more, direct_set_union) at m in
        elim m' [
          | inl e ↦ inl (inl e)
          | inr l ↦ elim (direct_set_union-In xs ys z l) [
            | inl a ↦ inl (inr a)
            | inr b ↦ inr (inr b)
          ]
        ]
  ]
]

pub direct_set_union-Ascends :
    (xs ys : List ℕ) → Ascends ltb xs → Ascends ltb ys → Ascends ltb (direct_set_union xs ys)
unfolding direct_set_union
direct_set_union-Ascends [] ys hx hy = hy
direct_set_union-Ascends (x ∷ xs) [] hx hy = hx
direct_set_union-Ascends (x ∷ xs) (y ∷ ys) hx hy = elim (Bool-cases (ltb x y)) [
  | inl below ↦
      rw (below, direct_set_union)
        (
          λ z m. elim (direct_set_union-In xs (y ∷ ys) z m) [
            | inl a ↦ hx.0 z a
            | inr b ↦ ground (arith, above_head x y z ys below hy b)
          ],
          direct_set_union-Ascends xs (y ∷ ys) hx.1 hy,
        )
  | inr no_less ↦ elim (Bool-cases (ltb y x)) [
    | inl above ↦
        rw (no_less, above, direct_set_union)
          (
            λ z m. elim (direct_set_union-In (x ∷ xs) ys z m) [
              | inl a ↦ ground (arith, above_head y x z xs above hx a)
              | inr b ↦ hy.0 z b
            ],
            direct_set_union-Ascends (x ∷ xs) ys hx hy.1,
          )
    | inr no_more ↦
        let same : y ≡ x = ground (arith, no_less, no_more) in
        rw (no_less, no_more, direct_set_union)
          (
            λ z m. elim (direct_set_union-In xs ys z m) [
              | inl a ↦ hx.0 z a
              | inr b ↦ subst (λ w. ltb w z ≡ true) same (hy.0 z b)
            ],
            direct_set_union-Ascends xs ys hx.1 hy.1,
          )
  ]
]
