-- ===== src/Tracking/LogUpdate/Intervals.antt =====
-- The logs of log-update-helper.cc as data: their value at a time, and their shortest form.
use hypatia_multicast.Base.{
  ℕ, ◌≤◌, ◌<◌, ◌≡◌, refl, sym, ap, ◌≢◌, true, List, [], ◌∷◌, ◌++◌, map, Option, some, none,
  if◌then◌else◌, not, ◌&&◌, arith, ltb,
}
use hypatia_multicast.Base.Int.{ℤ, pos, ltb_ℤ}
use hypatia_multicast.Tracking.LogUpdate.Phases.{Interval, to_tuple}

-- The value of a log at a time: that of the first interval that covers it.
abbrev pub value_at : List (ℤ × ℤ × ℤ) → ℤ → Option ℤ
value_at [] t = none
value_at ((left, right, v) ∷ log) t =
    if not (ltb_ℤ t left) && ltb_ℤ t right then some v else value_at log t

abbrev pub Differs : ℤ → List (ℤ × ℤ × ℤ) → Type 0
Differs v [] = Unit {0}
Differs v ((left, right, w) ∷ log) = v ≢ w

-- The intervals are not empty, follow one another without a gap from `start` to `stop`, and
-- neighbours have different values.
abbrev pub IsCanonical : ℤ → List (ℤ × ℤ × ℤ) → ℤ → Type 0
IsCanonical start [] stop = start ≡ stop
IsCanonical start ((left, right, v) ∷ log) stop =
    (left ≡ start) × (ltb_ℤ left right ≡ true) × Differs v log × IsCanonical right log stop

-- The same on the intervals of a phase.
abbrev pub lookup_in : List Interval → ℕ → Option ℤ
lookup_in [] t = none
lookup_in ((left, right, v) ∷ log) t =
    if not (ltb t left) && ltb t right then some v else lookup_in log t

abbrev pub EndsOtherThan : ℤ → List Interval → Type 0
EndsOtherThan v [] = Unit {0}
EndsOtherThan v ((left, right, w) ∷ []) = w ≢ v
EndsOtherThan v (i ∷ j ∷ log) = EndsOtherThan v (j ∷ log)

abbrev pub DiffersIn : ℤ → List Interval → Type 0
DiffersIn v [] = Unit {0}
DiffersIn v ((left, right, w) ∷ log) = v ≢ w

abbrev pub CanonicalIn : ℕ → List Interval → ℕ → Type 0
CanonicalIn start [] stop = start ≡ stop
CanonicalIn start ((left, right, v) ∷ log) stop =
    (left ≡ start) × (left < right) × DiffersIn v log × CanonicalIn right log stop

pub value_at-map :
    (log : List Interval) (t : ℕ) → value_at (map to_tuple log) (pos t) ≡ lookup_in log t
value_at-map [] t = refl
value_at-map ((l, r, v) ∷ log) t = ground (arith, value_at-map log t)

pub CanonicalIn-map :
    (s e : ℕ) (log : List Interval)
    → CanonicalIn s log e
    → IsCanonical (pos s) (map to_tuple log) (pos e)
CanonicalIn-map s e [] h = ap pos h
CanonicalIn-map s e ((l, r, v) ∷ []) h = (ap pos h.0, ground arith, tt, ap pos h.3)
CanonicalIn-map s e ((l, r, v) ∷ (l', r', v') ∷ log) h =
    (ap pos h.0, ground arith, h.2, CanonicalIn-map r e ((l', r', v') ∷ log) h.3)

pub lookup_in-append :
    (xs ys : List Interval) (t : ℕ)
    → lookup_in (xs ++ ys) t ≡ elim (lookup_in xs t) [ some v ↦ some v | none ↦ lookup_in ys t ]
lookup_in-append [] ys t = refl
lookup_in-append ((l, r, v) ∷ xs) ys t = ground (arith, lookup_in-append xs ys t)

pub CanonicalIn-le : (s e : ℕ) (log : List Interval) → CanonicalIn s log e → s ≤ e
CanonicalIn-le s e [] h = omega arith
CanonicalIn-le s e ((l, r, v) ∷ log) h = omega (arith, CanonicalIn-le r e log h.3)

pub lookup_in_above :
    (s e t : ℕ) (log : List Interval) → CanonicalIn s log e → e ≤ t → lookup_in log t ≡ none
lookup_in_above s e t [] h le = refl
lookup_in_above s e t ((l, r, v) ∷ log) h le =
    ground (arith, CanonicalIn-le r e log h.3, lookup_in_above r e t log h.3)

-- A log grows at its end by an interval with another value.
pub CanonicalIn-append :
    (s m e : ℕ) (v : ℤ) (log : List Interval)
    → CanonicalIn s log m
    → EndsOtherThan v log
    → m < e
    → CanonicalIn s (log ++ (m, e, v) ∷ []) e
CanonicalIn-append s m e v [] h d lt = (sym h, lt, tt, refl)
CanonicalIn-append s m e v ((l, r, w) ∷ []) h d lt =
    (h.0, h.1, d, CanonicalIn-append r m e v [] h.3 tt lt)
CanonicalIn-append s m e v ((l, r, w) ∷ (l', r', w') ∷ log) h d lt =
    (h.0, h.1, h.2, CanonicalIn-append r m e v ((l', r', w') ∷ log) h.3 d lt)

pub EndsOtherThan-append :
    (l r : ℕ) (v w : ℤ) (log : List Interval) → v ≢ w → EndsOtherThan w (log ++ (l, r, v) ∷ [])
EndsOtherThan-append l r v w [] d = d
EndsOtherThan-append l r v w (i ∷ []) d = d
EndsOtherThan-append l r v w (i ∷ j ∷ log) d = EndsOtherThan-append l r v w (j ∷ log) d
