-- ===== src/ExpUtil/Text/Split.antt =====
-- split_string of exp-util.cc: its parts, joined with the delimiter, are the line.
use mathlib.Core.List.{append_assoc}
use hypatia_multicast.Base.{
  ℕ, zero, suc, ◌+◌, ◌≤◌, ◌<◌, ◌≡◌, refl, ap, subst, ◌∙◌, true, false, List, [], ◌∷◌, ◌++◌, some,
  none, ok, arith, ◌==◌, Bool-cases, Option-cases, inl, inr, length, take, drop, length-drop, In,
}
use hypatia_multicast.ExpUtil.Text.{Text, starts_with, find_text, split_loop, split_string}

-- The parts `p` and `ps` with the delimiter between them.
abbrev pub join : Text → Text → List Text → Text
join d p [] = p
join d p (q ∷ qs) = p ++ d ++ join d q qs

starts_with-append :
    (s d : Text) → starts_with s d ≡ true → (d ++ drop (length d) s ≡ s) × (length d ≤ length s)
unfolding starts_with
starts_with-append [] [] e = (refl, omega arith)
starts_with-append (c ∷ s) [] e = (refl, omega arith)
starts_with-append [] (x ∷ d) e = cc
starts_with-append (c ∷ s) (x ∷ d) e = elim (Bool-cases (c == x)) [
  | inl same ↦
      let (rest, le) = starts_with-append s d (rw (same, starts_with) at e) in
      let cx : x ≡ c = ground arith in
      (ap (λ y. y ∷ d ++ drop (length d) s) cx ∙ ap (λ y. c ∷ y) rest, omega (arith, le))
  | inr other ↦ absurd (ground arith)
]

starts_with-take : (s d : Text) (i : ℕ) → starts_with (take i s) d ≡ true → starts_with s d ≡ true
unfolding starts_with
starts_with-take s [] i e = refl
starts_with-take [] (x ∷ d) zero e = cc
starts_with-take [] (x ∷ d) (suc i) e = cc
starts_with-take (c ∷ s) (x ∷ d) zero e = cc
starts_with-take (c ∷ s) (x ∷ d) (suc i) e = elim (Bool-cases (c == x)) [
  | inl same ↦ rw same (starts_with-take s d i (rw (same, starts_with) at e))
  | inr other ↦ absurd (ground arith)
]

-- A delimiter that is not empty stands at `i` for the first time.
abbrev FirstAt : Text → Text → ℕ → Type 0
FirstAt d s i =
    (take i s ++ d ++ drop (i + length d) s ≡ s)
    × (i + length d ≤ length s)
    × (find_text d (take i s) ≡ none)

FirstAt-zero : (x : ℕ) (d s : Text) → starts_with s (x ∷ d) ≡ true → FirstAt (x ∷ d) s 0
unfolding find_text starts_with
FirstAt-zero x d s e =
    let (same, le) = starts_with-append s (x ∷ d) e in
    let from_zero : length (x ∷ d) ≡ 0 + length (x ∷ d) = omega arith in
    (subst (λ k. (x ∷ d) ++ drop k s ≡ s) from_zero same, omega (arith, le), refl)

FirstAt-suc :
    (x : ℕ) (d : Text) (c : ℕ) (s : Text) (j : ℕ)
    → starts_with (c ∷ s) (x ∷ d) ≡ false
    → FirstAt (x ∷ d) s j
    → FirstAt (x ∷ d) (c ∷ s) (suc j)
unfolding find_text
FirstAt-suc x d c s j misses (same, le, free) =
    let next : suc (j + length (x ∷ d)) ≡ suc j + length (x ∷ d) = omega arith in
    (
      subst (λ k. c ∷ take j s ++ (x ∷ d) ++ drop k (c ∷ s) ≡ c ∷ s) next (ap (λ t. c ∷ t) same),
      omega (arith, le),
      elim (Bool-cases (starts_with (c ∷ take j s) (x ∷ d))) [
        | inl fits ↦ absurd (cc (starts_with-take (c ∷ s) (x ∷ d) (suc j) fits, misses))
        | inr not_here ↦ rw (not_here, free)
      ],
    )

find_text-FirstAt :
    (x : ℕ) (d s : Text) (i : ℕ) → find_text (x ∷ d) s ≡ some i → FirstAt (x ∷ d) s i
unfolding find_text starts_with
find_text-FirstAt x d [] i e = cc
find_text-FirstAt x d (c ∷ s) i e = elim (Bool-cases (starts_with (c ∷ s) (x ∷ d))) [
  | inl fits ↦
      let same : some 0 ≡ some i = rw (fits, find_text) at e in
      let zero_i : 0 ≡ i = cc in
      subst (FirstAt (x ∷ d) (c ∷ s)) zero_i (FirstAt-zero x d (c ∷ s) fits)
  | inr misses ↦ elim (Option-cases (find_text (x ∷ d) s)) [
    | inl absent ↦ let e' = rw (misses, absent, find_text) at e in cc
    | inr (j, found) ↦
        let e' : some (suc j) ≡ some i = rw (misses, found, find_text) at e in
        let suc_i : suc j ≡ i = cc in
        subst (FirstAt (x ∷ d) (c ∷ s)) suc_i
          (FirstAt-suc x d c s j misses (find_text-FirstAt x d s j found))
  ]
]

-- Parts that have no delimiter in them, and make `r` when they are joined.
abbrev pub IsSplit : Text → Text → List Text → Type 0
IsSplit d r [] = ⊥
IsSplit d r (p ∷ ps) = (join d p ps ≡ r) × ((q : Text) → In q (p ∷ ps) → find_text d q ≡ none)

IsSplit-prepend :
    (x : ℕ) (d r : Text) (i : ℕ) (parts : List Text)
    → FirstAt (x ∷ d) r i
    → IsSplit (x ∷ d) (drop (i + length (x ∷ d)) r) parts
    → IsSplit (x ∷ d) r (take i r ∷ parts)
IsSplit-prepend x d r i [] first split = absurd split
IsSplit-prepend x d r i (p ∷ ps) first split = (
  ap (λ t. take i r ++ (x ∷ d) ++ t) split.0 ∙ first.0,
  λ q m. elim m [ inl same ↦ ap (find_text (x ∷ d)) same ∙ first.2 | inr later ↦ split.1 q later ],
)

split_loop-IsSplit :
    (fuel x : ℕ) (d r : Text) (acc : List Text)
    → length r < fuel
    → (parts : List Text) × (split_loop fuel (x ∷ d) r acc ≡ ok (acc ++ parts))
      × IsSplit (x ∷ d) r parts
unfolding split_loop
split_loop-IsSplit zero x d r acc h = absurd (omega (arith, h))
split_loop-IsSplit (suc fuel) x d r acc h = elim (Option-cases (find_text (x ∷ d) r)) [
  | inl absent ↦ (
    r ∷ [],
    rw (absent, split_loop),
    (
      refl,
      λ q m. elim m [
        | inl same ↦ ap (find_text (x ∷ d)) same ∙ absent
        | inr none_left ↦ absurd none_left
      ],
    ),
  )
  | inr (i, found) ↦
      let first = find_text-FirstAt x d r i found in
      let (parts, e, split) =
        split_loop-IsSplit fuel x d (drop (i + length (x ∷ d)) r) (acc ++ take i r ∷ [])
          (let size = length-drop (i + length (x ∷ d)) r in omega (arith, size, first.1, h)) in
      (
        take i r ∷ parts,
        rw (found, split_loop) (e ∙ ap ok (append_assoc acc (take i r ∷ []) parts)),
        IsSplit-prepend x d r i parts first split,
      )
]

-- With a delimiter that is not empty, `split_string` returns parts that, joined with the delimiter,
-- are the line, and none of which has the delimiter in it.
pub split_string-IsSplit :
    (line : Text) (x : ℕ) (d : Text)
    → (parts : List Text) × (split_string line (x ∷ d) ≡ ok parts) × IsSplit (x ∷ d) line parts
unfolding split_string
split_string-IsSplit line x d = split_loop-IsSplit (suc (length line)) x d line [] (omega arith)
