-- ===== src/Tracking/LogUpdate/Phases.antt =====
-- The three phases of a LogUpdateHelper (log-update-helper.cc): no update seen, one open interval
-- alpha, or two open intervals alpha and beta. Times are natural numbers here.
use mathlib.Core.List.{map-append}
use hypatia_multicast.Base.{
  ℕ, ◌≤◌, ◌≡◌, List, [], ◌∷◌, ◌++◌, map, ok, if◌then◌else◌, arith, ltb, ◌==◌, Bool-cases, inl, inr,
}
use hypatia_multicast.Base.Int.{ℤ, pos, ◌==ℤ◌}
use hypatia_multicast.Tracking.LogUpdate.{
  LogUpdateHelper, minus_one, new_log_update_helper, update, finalize,
}

-- A closed interval of the log: [left, right) and the value there.
abbrev pub Interval : Type 0
Interval = ℕ × ℕ × ℤ

pub data Phase : Type 0 where
  fresh : Phase
  single : (left : ℕ) (value : ℤ) → Phase
  double : (log : List Interval) (left : ℕ) (alpha : ℤ) (right : ℕ) (value : ℤ) → Phase

abbrev pub to_tuple : Interval → ℤ × ℤ × ℤ
to_tuple i = (pos i.0, pos i.1, i.2)

-- The members that a phase stands for.
unfoldable pub helper_of : Phase → LogUpdateHelper
helper_of fresh = new_log_update_helper
helper_of (single a v) = record {
  last_update_value = v;
  interval_alpha_value = minus_one;
  last_interval_check_time = pos a;
  interval_alpha_left_time = pos a;
  interval_beta_left_time = minus_one;
  log_time_value = [];
}
helper_of (double log a av b v) = record {
  last_update_value = v;
  interval_alpha_value = av;
  last_interval_check_time = pos b;
  interval_alpha_left_time = pos a;
  interval_beta_left_time = pos b;
  log_time_value = map to_tuple log;
}

unfoldable pub next_phase : Phase → ℕ → ℤ → Phase
next_phase fresh t v = single t v
next_phase (single a last) t v = if ltb a t then double [] a last t v else single a v
next_phase (double log a av b last) t v =
    if ltb b t
    then (if av ==ℤ last then double log a av t v else double (log ++ (a, b, av) ∷ []) b last t v)
    else double log a av b v

abbrev pub open_intervals : Phase → ℕ → List Interval
open_intervals fresh t = []
open_intervals (single a last) t = if a == t then [] else (a, t, last) ∷ []
open_intervals (double log a av b last) t =
    if av ==ℤ last then (a, t, av) ∷ [] else (a, b, av) ∷ (if b == t then [] else (b, t, last) ∷ [])

abbrev pub closed : Phase → List Interval
closed fresh = []
closed (single a last) = []
closed (double log a av b last) = log

unfoldable pub final_log : Phase → ℕ → List Interval
final_log p t = closed p ++ open_intervals p t

-- The updates may come at any time that is not before the last check.
abbrev pub ReachableAt : Phase → ℕ → Type 0
ReachableAt fresh t = Unit {0}
ReachableAt (single a last) t = a ≤ t
ReachableAt (double log a av b last) t = b ≤ t

pub update-helper_of :
    (p : Phase) (t : ℕ) (v : ℤ)
    → ReachableAt p t
    → update (helper_of p) (pos t) v ≡ ok (helper_of (next_phase p t v))
unfolding update helper_of next_phase new_log_update_helper
update-helper_of fresh t v h = ground arith
update-helper_of (single a last) t v h = ground arith
update-helper_of (double log a av b last) t v h = elim (Bool-cases (ltb b t)) [
  | inl later ↦ elim (Bool-cases (av ==ℤ last)) [
    | inl same ↦ ground arith
    | inr differ ↦ ground (arith, map-append to_tuple log ((a, b, av) ∷ []))
  ]
  | inr now ↦ ground arith
]

pub finalize-helper_of :
    (p : Phase) (t : ℕ)
    → ReachableAt p t
    → finalize (helper_of p) (pos t)
      ≡ ok (record (helper_of p) { log_time_value = map to_tuple (final_log p t) })
unfolding finalize helper_of final_log new_log_update_helper
finalize-helper_of fresh t h = ground arith
finalize-helper_of (single a last) t h = ground arith
finalize-helper_of (double log a av b last) t h =
    ground (arith, map-append to_tuple log (open_intervals (double log a av b last) t))
