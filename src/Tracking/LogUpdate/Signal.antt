-- ===== src/Tracking/LogUpdate/Signal.antt =====
-- What LogUpdateHelper (log-update-helper.cc) records: the log of a run is the step function that
-- the updates describe, in its shortest form.
use mathlib.Core.List.{append_assoc}
use hypatia_multicast.Base.{
  ℕ, ◌≤◌, ◌<◌, ◌≡◌, refl, ap, subst, ◌∙◌, ◌≢◌, List, [], ◌∷◌, ◌++◌, map, Option, some, none, ok,
  ◌>>=◌, if◌then◌else◌, arith, ltb, ◌==◌, Bool-cases, inl, inr,
}
use hypatia_multicast.Base.Int.{ℤ, pos, ◌==ℤ◌, ==ℤ→eq, ==ℤ_self}
use hypatia_multicast.Tracking.LogUpdate.{
  LogUpdateHelper, new_log_update_helper, finalize, run_updates,
}
use hypatia_multicast.Tracking.LogUpdate.Phases.{
  Phase, fresh, single, double, to_tuple, helper_of, next_phase, open_intervals, final_log,
  ReachableAt, update-helper_of, finalize-helper_of,
}
use hypatia_multicast.Tracking.LogUpdate.Intervals.{
  value_at, IsCanonical, lookup_in, EndsOtherThan, CanonicalIn, value_at-map, CanonicalIn-map,
  lookup_in-append, lookup_in_above, CanonicalIn-append, EndsOtherThan-append,
}

-- The value of the last update that is not later than a time.
abbrev pub latest : Option ℤ → List (ℕ × ℤ) → ℕ → Option ℤ
latest acc [] t = acc
latest acc ((time, v) ∷ us) t = latest (if ltb t time then acc else some v) us t

-- The updates come in the order of their times, from `start` on and up to `stop`.
abbrev pub Ascending : ℕ → List (ℕ × ℤ) → ℕ → Type 0
Ascending start [] stop = start ≤ stop
Ascending start ((time, v) ∷ us) stop = (start ≤ time) × Ascending time us stop

abbrev pub to_call : ℕ × ℤ → ℤ × ℤ
to_call u = (pos u.0, u.1)

-- The value at a time as far as a phase knows it.
signal : Phase → ℕ → Option ℤ
signal fresh t = none
signal (single a last) t = if ltb t a then none else some last
signal (double log a av b last) t =
    if ltb t b then (if ltb t a then lookup_in log t else some av) else some last

-- A phase after the first update, which came at `start`.
abbrev IsStarted : ℕ → Phase → Type 0
IsStarted start fresh = ⊥
IsStarted start (single a last) = a ≡ start
IsStarted start (double log a av b last) = CanonicalIn start log a × EndsOtherThan av log × (a < b)

next_phase-IsStarted :
    (s : ℕ) (p : Phase) (t : ℕ) (v : ℤ)
    → IsStarted s p
    → ReachableAt p t
    → IsStarted s (next_phase p t v) × ReachableAt (next_phase p t v) t
unfolding next_phase
next_phase-IsStarted s fresh t v w h = absurd w
next_phase-IsStarted s (single a last) t v w h = ground arith
next_phase-IsStarted s (double log a av b last) t v w h = elim (Bool-cases (ltb b t)) [
  | inl later ↦ elim (Bool-cases (av ==ℤ last)) [
    | inl same ↦ rw (later, same) ((w.0, w.1, ground arith), ground arith)
    | inr differ ↦
        let ne : av ≢ last = λ e. cc (==ℤ_self last, differ, e) in
        rw (later, differ)
          (
            (
              CanonicalIn-append s a b av log w.0 w.1 w.2,
              EndsOtherThan-append a b av last log ne,
              ground arith,
            ),
            ground arith,
          )
  ]
  | inr now ↦ rw now (w, h)
]

signal-next_phase :
    (s : ℕ) (p : Phase) (u : ℕ) (v : ℤ) (t : ℕ)
    → IsStarted s p
    → ReachableAt p u
    → signal (next_phase p u v) t ≡ (if ltb t u then signal p t else some v)
unfolding next_phase signal
signal-next_phase s fresh u v t w h = absurd w
signal-next_phase s (single a last) u v t w h = ground arith
signal-next_phase s (double log a av b last) u v t w h =
    ground (
      arith,
      ==ℤ→eq av last,
      lookup_in-append log ((a, b, av) ∷ []) t,
      lookup_in_above s a t log w.0,
    )

lookup_in-final_log :
    (s : ℕ) (p : Phase) (stop t : ℕ)
    → IsStarted s p
    → ReachableAt p stop
    → lookup_in (final_log p stop) t ≡ (if ltb t stop then signal p t else none)
unfolding final_log signal
lookup_in-final_log s fresh stop t w h = absurd w
lookup_in-final_log s (single a last) stop t w h = ground arith
lookup_in-final_log s (double log a av b last) stop t w h = ground (
  arith,
  ==ℤ→eq av last,
  lookup_in-append log (open_intervals (double log a av b last) stop) t,
  lookup_in_above s a t log w.0,
)

final_log-CanonicalIn :
    (s : ℕ) (p : Phase) (stop : ℕ)
    → IsStarted s p
    → ReachableAt p stop
    → CanonicalIn s (final_log p stop) stop
unfolding final_log
final_log-CanonicalIn s fresh stop w h = absurd w
final_log-CanonicalIn s (single a last) stop w h = ground arith
final_log-CanonicalIn s (double log a av b last) stop w h = elim (Bool-cases (av ==ℤ last)) [
  | inl same ↦ rw same (CanonicalIn-append s a stop av log w.0 w.1 (omega arith))
  | inr differ ↦
      let ne : av ≢ last = λ e. cc (==ℤ_self last, differ, e) in
      let one = CanonicalIn-append s a b av log w.0 w.1 w.2 in
      elim (Bool-cases (b == stop)) [
        | inl now ↦
            rw (differ, now) (subst (CanonicalIn s (log ++ (a, b, av) ∷ [])) (ground arith) one)
        | inr later ↦
            rw (differ, later)
              (subst (λ l. CanonicalIn s l stop)
                (append_assoc log ((a, b, av) ∷ []) ((b, stop, last) ∷ []))
                (CanonicalIn-append s b stop last (log ++ (a, b, av) ∷ []) one
                  (EndsOtherThan-append a b av last log ne) (ground arith)))
      ]
]

ReachableAt-le : (p : Phase) (t u : ℕ) → ReachableAt p t → t ≤ u → ReachableAt p u
ReachableAt-le fresh t u h le = tt
ReachableAt-le (single a last) t u h le = omega arith
ReachableAt-le (double log a av b last) t u h le = omega arith

-- A started helper after more updates, in their order.
run-signal :
    (s : ℕ) (p : Phase) (start : ℕ) (us : List (ℕ × ℤ)) (stop : ℕ)
    → IsStarted s p
    → ReachableAt p start
    → Ascending start us stop
    → (q : Phase) × (run_updates (helper_of p) (map to_call us) ≡ ok (helper_of q))
      × IsStarted s q
      × ReachableAt q stop
      × ((t : ℕ) → signal q t ≡ latest (signal p t) us t)
unfolding run_updates
run-signal s p start [] stop w h asc = (p, refl, w, ReachableAt-le p start stop h asc, λ t. refl)
run-signal s p start ((u, v) ∷ us) stop w h asc =
    let h' = ReachableAt-le p start u h asc.0 in
    let (w1, h1) = next_phase-IsStarted s p u v w h' in
    let (q, e, wq, hq, sig) = run-signal s (next_phase p u v) u us stop w1 h1 asc.1 in
    (
      q,
      rw (update-helper_of p u v h') e,
      wq,
      hq,
      λ t. sig t ∙ ap (λ a. latest a us t) (signal-next_phase s p u v t w h'),
    )

-- After any updates in the order of their times, the first at time u.0, `Finalize` at a time that
-- is not before the last of them returns a log. Before the time of `Finalize` its value at each
-- time is that of the last update up to then (none before the first); from then on there is none.
-- Its intervals are not empty, reach without a gap from u.0 to the time of `Finalize`, and
-- neighbours differ in value.
pub finalize-run_updates :
    (u : ℕ × ℤ) (us : List (ℕ × ℤ)) (stop : ℕ)
    → Ascending u.0 us stop
    → (s : LogUpdateHelper) × ((run_updates new_log_update_helper (map to_call (u ∷ us)) >>= λ s'.
          finalize s' (pos stop))
        ≡ ok s)
      × ((t : ℕ)
          → value_at s.log_time_value (pos t)
            ≡ (if ltb t stop then latest none (u ∷ us) t else none))
      × IsCanonical (pos u.0) s.log_time_value (pos stop)
unfolding run_updates helper_of signal next_phase
finalize-run_updates (u, v) us stop asc =
    let (q, e, w, h, sig) = run-signal u (single u v) u us stop refl (omega arith) asc in
    (
      record (helper_of q) { log_time_value = map to_tuple (final_log q stop) },
      rw (update-helper_of fresh u v tt, e) (finalize-helper_of q stop h),
      λ t.
          value_at-map (final_log q stop) t
          ∙ lookup_in-final_log u q stop t w h
          ∙ ap (λ a. if ltb t stop then a else none) (sig t),
      CanonicalIn-map u stop (final_log q stop) (final_log-CanonicalIn u q stop w h),
    )
