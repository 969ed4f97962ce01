-- ===== src/Base/Sets.antt =====
-- std::set as a list that ascends by a strict order, generic in the order.
use Prim.Native.Nat.{ℕ, zero, suc, ◌+◌, ◌≤◌, ◌<◌}
use mathlib.Core.Path.{◌≡◌, refl, sym, ap, subst, ◌∙◌}
use mathlib.Core.Logic.{◌⊎◌, inl, inr}
use mathlib.Core.Bool.{Bool, true, false}
use mathlib.Core.List.{List, [], ◌∷◌}
use native.Mathlib.Omega.{arith}
use hypatia_multicast.Base.Tests.{ltb, ◌==◌, if◌then◌else◌, Bool-cases}
use hypatia_multicast.Base.Lists.{length}
use hypatia_multicast.Base.Loops.{In}
use hypatia_multicast.Base.Maps.{insert_set}

-- What `operator<` of the keys promises.
pub record StrictOrder {A : Type 0} (lt : A → A → Bool) : Type 0 where
  pub irrefl : (x : A) → lt x x ≡ true → ⊥
  pub trans : (x y z : A) → lt x y ≡ true → lt y z ≡ true → lt x z ≡ true
  pub connected : (x y : A) → lt x y ≡ false → lt y x ≡ false → x ≡ y

-- std::set::insert, which compares by `operator<` only.
unfoldable pub insert_by : {A : Type 0} → (A → A → Bool) → A → List A → List A
insert_by lt x [] = x ∷ []
insert_by lt x (y ∷ ys) =
    if lt x y then x ∷ y ∷ ys else if lt y x then y ∷ insert_by lt x ys else y ∷ ys

module _ {A : Type 0} (lt : A → A → Bool) where
  abbrev pub Ascends : List A → Type 0
  Ascends [] = Unit {0}
  Ascends (x ∷ xs) = ((y : A) → In y xs → lt x y ≡ true) × Ascends xs

  module _ (o : StrictOrder lt) where
    pub In-insert_by : (x z : A) (ys : List A) → (z ≡ x) ⊎ In z ys → In z (insert_by lt x ys)
    unfolding insert_by
    In-insert_by x z [] m = m
    In-insert_by x z (y ∷ ys) m = elim (Bool-cases (lt x y)) [
      | inl before ↦ rw before m
      | inr other ↦ elim (Bool-cases (lt y x)) [
        | inl after ↦
            rw (other, after)
              (elim m [
                | inl e ↦ inr (In-insert_by x z ys (inl e))
                | inr (inl e) ↦ inl e
                | inr (inr l) ↦ inr (In-insert_by x z ys (inr l))
              ])
        | inr same ↦
            rw (other, same) (elim m [ inl e ↦ inl (e ∙ o.connected x y other same) | inr l ↦ l ])
      ]
    ]

    pub insert_by-In : (x z : A) (ys : List A) → In z (insert_by lt x ys) → (z ≡ x) ⊎ In z ys
    unfolding insert_by
    insert_by-In x z [] m = m
    insert_by-In x z (y ∷ ys) m = elim (Bool-cases (lt x y)) [
      | inl before ↦ rw (before, insert_by) at m
      | inr other ↦ elim (Bool-cases (lt y x)) [
        | inl after ↦
            let m' : (z ≡ y) ⊎ In z (insert_by lt x ys) = rw (other, after, insert_by) at m in
            elim m' [
              | inl e ↦ inr (inl e)
              | inr l ↦ elim (insert_by-In x z ys l) [ inl e ↦ inl e | inr k ↦ inr (inr k) ]
            ]
        | inr same ↦ inr (rw (other, same, insert_by) at m)
      ]
    ]

    pub insert_by-Ascends : (x : A) (ys : List A) → Ascends ys → Ascends (insert_by lt x ys)
    unfolding insert_by
    insert_by-Ascends x [] h = (λ y m. absurd m, tt)
    insert_by-Ascends x (y ∷ ys) h = elim (Bool-cases (lt x y)) [
      | inl before ↦ rw before (
        λ z m. elim m [
          | inl e ↦ subst (λ w. lt x w ≡ true) (sym e) before
          | inr l ↦ o.trans x y z before (h.0 z l)
        ],
        h,
      )
      | inr other ↦ elim (Bool-cases (lt y x)) [
        | inl after ↦
            rw (other, after)
              (
                λ z m. elim (insert_by-In x z ys m) [
                  | inl e ↦ subst (λ w. lt y w ≡ true) (sym e) after
                  | inr l ↦ h.0 z l
                ],
                insert_by-Ascends x ys h.1,
              )
        | inr same ↦ rw (other, same) h
      ]
    ]

    -- A set that lies in another is no larger, and is the other if it is as large.
    pub length-le_of_subset :
        (ys xs : List A)
        → Ascends ys
        → Ascends xs
        → ((z : A) → In z ys → In z xs)
        → (length ys ≤ length xs) × (length ys ≡ length xs → ys ≡ xs)
    length-le_of_subset [] [] hy hx sub = (omega arith, λ e. refl)
    length-le_of_subset [] (x ∷ xs) hy hx sub = (omega arith, λ e. absurd (omega (arith, e)))
    length-le_of_subset (y ∷ ys) [] hy hx sub = absurd (sub y (inl refl))
    length-le_of_subset (y ∷ ys) (x ∷ xs) hy hx sub = elim (sub y (inl refl)) [
      | inl same ↦
          let (le, eq) = length-le_of_subset ys xs hy.1 hx.1 (λ z m. elim (sub z (inr m)) [
            | inl e ↦ absurd (o.irrefl y (subst (λ w. lt y w ≡ true) (e ∙ sym same) (hy.0 z m)))
            | inr l ↦ l
          ]) in
          (omega (arith, le), λ e. ap (λ w. w ∷ ys) same ∙ ap (λ w. x ∷ w) (eq (omega (arith, e))))
      | inr later ↦
          let above : (z : A) → In z (y ∷ ys) → lt x z ≡ true = λ z m. elim m [
            | inl e ↦ subst (λ w. lt x w ≡ true) (sym e) (hx.0 y later)
            | inr l ↦ o.trans x y z (hx.0 y later) (hy.0 z l)
          ] in
          let (le, eq) = length-le_of_subset (y ∷ ys) xs hy hx.1 (λ z m. elim (sub z m) [
            | inl e ↦ absurd (o.irrefl x (subst (λ w. lt x w ≡ true) e (above z m)))
            | inr l ↦ l
          ]) in
          (omega (arith, le), λ e. absurd (omega (arith, le, e)))
    ]

    -- Sets with the same items are equal.
    pub Ascends-ext :
        (xs ys : List A)
        → Ascends xs
        → Ascends ys
        → ((z : A) → In z xs → In z ys)
        → ((z : A) → In z ys → In z xs)
        → xs ≡ ys
    Ascends-ext xs ys hx hy sub sup =
        let (le, eq) = length-le_of_subset xs ys hx hy sub in
        let ge = (length-le_of_subset ys xs hy hx sup).0 in eq (omega (arith, le, ge))

    pub length-insert_by : (x : A) (ys : List A) → length (insert_by lt x ys) ≤ suc (length ys)
    unfolding insert_by
    length-insert_by x [] = omega arith
    length-insert_by x (y ∷ ys) =
        let le = length-insert_by x ys in
        elim (Bool-cases (lt x y)) [
          | inl before ↦ rw before (omega arith)
          | inr other ↦ elim (Bool-cases (lt y x)) [
            | inl after ↦ rw (other, after) (omega (arith, le))
            | inr same ↦ rw (other, same) (omega arith)
          ]
        ]

pub ltb-StrictOrder : StrictOrder ltb
ltb-StrictOrder = record {
  irrefl = λ x e. ground (arith, e);
  trans = λ x y z e f. ground (arith, e, f);
  connected = λ x y e f. ground (arith, e, f);
}

pub insert_set-insert_by : (x : ℕ) (ys : List ℕ) → insert_set x ys ≡ insert_by ltb x ys
unfolding insert_set insert_by
insert_set-insert_by x [] = refl
insert_set-insert_by x (y ∷ ys) = ground (arith, insert_set-insert_by x ys)

pub insert_set-Ascends : (x : ℕ) (ys : List ℕ) → Ascends ltb ys → Ascends ltb (insert_set x ys)
insert_set-Ascends x ys h =
    rw (insert_set-insert_by x ys) (insert_by-Ascends ltb ltb-StrictOrder x ys h)

-- The numbers from `i` on, `left` of them.
unfoldable pub range_from : ℕ → ℕ → List ℕ
range_from i zero = []
range_from i (suc left) = i ∷ range_from (suc i) left

pub In-range_from : (i left x : ℕ) → i ≤ x → x < i + left → In x (range_from i left)
unfolding range_from
In-range_from i zero x lo hi = absurd (omega (arith, lo, hi))
In-range_from i (suc left) x lo hi = elim (Bool-cases (x == i)) [
  | inl here ↦ inl (ground arith)
  | inr there ↦ inr (In-range_from (suc i) left x (ground arith) (omega arith))
]

pub range_from-le : (i left x : ℕ) → In x (range_from i left) → i ≤ x
unfolding range_from
range_from-le i zero x m = absurd m
range_from-le i (suc left) x (inl e) = omega (arith, e)
range_from-le i (suc left) x (inr m) = let le = range_from-le (suc i) left x m in omega (arith, le)

pub range_from-Ascends : (i left : ℕ) → Ascends ltb (range_from i left)
unfolding range_from
range_from-Ascends i zero = tt
range_from-Ascends i (suc left) = (
  λ y m. let le = range_from-le (suc i) left y m in ground (arith, le),
  range_from-Ascends (suc i) left,
)

pub length-range_from : (i left : ℕ) → length (range_from i left) ≡ left
unfolding range_from
length-range_from i zero = refl
length-range_from i (suc left) = ap suc (length-range_from (suc i) left)

-- A set of numbers below n that has n items has all of them.
pub In-of_full_set :
    (n : ℕ) (ys : List ℕ)
    → Ascends ltb ys
    → ((x : ℕ) → In x ys → x < n)
    → length ys ≡ n
    → (x : ℕ) → x < n
    → In x ys
In-of_full_set n ys asc below full x lt =
    let (le, eq) =
      length-le_of_subset ltb ltb-StrictOrder ys (range_from 0 n) asc (range_from-Ascends 0 n)
        (λ z m. In-range_from 0 n z (omega arith) (let h = below z m in omega (arith, h))) in
    subst (In x) (sym (eq (full ∙ sym (length-range_from 0 n))))
      (In-range_from 0 n x (omega arith) (omega arith))
