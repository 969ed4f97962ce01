-- ===== src/Tracking/Utilization.antt =====
-- PtopLinkUtilizationTracker:
-- simulator/contrib/basic-sim/model/core/ptop-link-utilization-tracker.cc.
-- Simulation time is never negative, so it is a natural number; `Simulator::Now()` is an argument.
-- Where the source subtracts, `Invariant` shows that the first number is the greater one.
pub mod Invariant
pub mod Busy
use hypatia_multicast.Base.{
  ℕ, zero, suc, ◌+◌, ◌-◌, Bool, false, List, [], ◌∷◌, ◌++◌, Result, ok, err, ◌>>=◌, ◌>>◌,
  if◌then◌else◌, not, for_each, ltb, ◌==◌, assertion, out_of_fuel,
}

pub record PtopLinkUtilizationTracker : Type 0 where
  pub interval_ns : ℕ
  pub prev_time_ns : ℕ
  pub current_interval_start : ℕ
  pub current_interval_end : ℕ
  pub idle_time_counter_ns : ℕ
  pub busy_time_counter_ns : ℕ
  pub current_state_is_on : Bool
  pub intervals : List (ℕ × ℕ × ℕ)

unfoldable pub new_ptop_link_utilization_tracker : ℕ → PtopLinkUtilizationTracker
new_ptop_link_utilization_tracker interval_ns = record {
  interval_ns = interval_ns;
  prev_time_ns = 0;
  current_interval_start = 0;
  current_interval_end = interval_ns;
  idle_time_counter_ns = 0;
  busy_time_counter_ns = 0;
  current_state_is_on = false;
  intervals = [];
}

-- The time since the previous call goes to the counter of the state that ends.
unfoldable pub count_until : PtopLinkUtilizationTracker → Bool → ℕ → PtopLinkUtilizationTracker
count_until s next_state_is_on time =
    if next_state_is_on
    then record s { idle_time_counter_ns = s.idle_time_counter_ns + (time - s.prev_time_ns) }
    else record s { busy_time_counter_ns = s.busy_time_counter_ns + (time - s.prev_time_ns) }

-- The end of the loop's body: the interval is saved and the next one begins.
unfoldable pub next_interval : PtopLinkUtilizationTracker → PtopLinkUtilizationTracker
next_interval s = record s {
  intervals =
      s.intervals
      ++ (s.current_interval_start, s.current_interval_end, s.busy_time_counter_ns) ∷ [];
  idle_time_counter_ns = 0;
  busy_time_counter_ns = 0;
  prev_time_ns = s.current_interval_end;
  current_interval_start = s.current_interval_start + s.interval_ns;
  current_interval_end = s.current_interval_end + s.interval_ns;
}

-- The `while` loop of `TrackUtilization`, on fuel.
unfoldable pub close_intervals :
    ℕ → PtopLinkUtilizationTracker → ℕ → Bool → Result PtopLinkUtilizationTracker
close_intervals zero s now_ns on = err out_of_fuel
close_intervals (suc fuel) s now_ns on =
    let t = count_until s on s.current_interval_end in
    let rest = close_intervals fuel (next_interval t) now_ns on in
    if ltb now_ns s.current_interval_end
    then ok s
    else if t.idle_time_counter_ns + t.busy_time_counter_ns == t.interval_ns
    then rest
    else err assertion

-- With an interval of at least 1 ns the loop makes at most `now_ns` rounds and one test more.
unfoldable pub track_utilization :
    PtopLinkUtilizationTracker → ℕ → Bool → Result PtopLinkUtilizationTracker
unfolding count_until next_interval close_intervals
track_utilization s now_ns next_state_is_on = do
  t ← close_intervals (suc now_ns) s now_ns next_state_is_on
  let u = count_until t next_state_is_on now_ns
  ok (record u { current_state_is_on = next_state_is_on; prev_time_ns = now_ns })

unfoldable pub finalize_utilization :
    PtopLinkUtilizationTracker → ℕ → Result PtopLinkUtilizationTracker
finalize_utilization s now_ns = do
  t ← track_utilization s now_ns (not s.current_state_is_on)
  ok (
      if now_ns == t.current_interval_start then t else record t {
        intervals = t.intervals ++ (t.current_interval_start, now_ns, t.busy_time_counter_ns) ∷ [];
      })

-- The calls of the two callbacks in a run: the time, and true for `PhyTxBegin`.
unfoldable pub track_calls :
    PtopLinkUtilizationTracker → List (ℕ × Bool) → Result PtopLinkUtilizationTracker
unfolding for_each
track_calls = for_each (λ s (now_ns, on). track_utilization s now_ns on)
