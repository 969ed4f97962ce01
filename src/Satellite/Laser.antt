-- ===== src/Satellite/Laser.antt =====
-- PointToPointLaserNetDevice:
-- simulator/contrib/satellite-network/model/point-to-point-laser-net-device.cc. It differs from
-- GSLNetDevice in that it has one destination, and in that it can track its own utilization.
pub mod Tracking
use hypatia_multicast.Base.{
  ℕ, zero, suc, ◌+◌, ◌-◌, Bool, true, false, List, [], ◌∷◌, ◌++◌, Result, ok, err, ◌>>=◌, ◌>>◌,
  if◌then◌else◌, not, ltb, ◌==◌, assertion, out_of_fuel,
}

-- The members that track the utilization. Each quotient of two doubles in m_utilization is kept as
-- the pair of the two numbers.
pub record LinkUtilization : Type 0 where
  pub tracking_enabled : Bool
  pub interval_ns : ℕ
  pub prev_time_ns : ℕ
  pub current_interval_start : ℕ
  pub current_interval_end : ℕ
  pub idle_time_counter_ns : ℕ
  pub busy_time_counter_ns : ℕ
  pub current_state_is_on : Bool
  pub utilization : List (ℕ × ℕ)

-- `EnableUtilizationTracking`, which leaves m_utilization as it is.
unfoldable pub enable_utilization_tracking : LinkUtilization → ℕ → LinkUtilization
enable_utilization_tracking u interval_ns = record {
  tracking_enabled = true;
  interval_ns = interval_ns;
  prev_time_ns = 0;
  current_interval_start = 0;
  current_interval_end = interval_ns;
  idle_time_counter_ns = 0;
  busy_time_counter_ns = 0;
  current_state_is_on = false;
  utilization = u.utilization;
}

unfoldable pub add_time : LinkUtilization → Bool → ℕ → LinkUtilization
add_time u next_state_is_on time =
    if next_state_is_on
    then record u { idle_time_counter_ns = u.idle_time_counter_ns + (time - u.prev_time_ns) }
    else record u { busy_time_counter_ns = u.busy_time_counter_ns + (time - u.prev_time_ns) }

-- The end of the loop's body, and the push before its check.
unfoldable pub move_interval : LinkUtilization → LinkUtilization
move_interval u = record u {
  utilization = u.utilization ++ (u.busy_time_counter_ns, u.interval_ns) ∷ [];
  idle_time_counter_ns = 0;
  busy_time_counter_ns = 0;
  prev_time_ns = u.current_interval_end;
  current_interval_start = u.current_interval_start + u.interval_ns;
  current_interval_end = u.current_interval_end + u.interval_ns;
}

-- The `while` loop of `TrackUtilization`, on fuel.
unfoldable pub end_intervals : ℕ → LinkUtilization → ℕ → Bool → Result LinkUtilization
unfolding add_time move_interval
end_intervals zero u now_ns on = err out_of_fuel
end_intervals (suc fuel) u now_ns on =
    let t = add_time u on u.current_interval_end in
    let rest = end_intervals fuel (move_interval t) now_ns on in
    if ltb now_ns u.current_interval_end
    then ok u
    else if t.idle_time_counter_ns + t.busy_time_counter_ns == t.interval_ns
    then rest
    else err assertion

-- With an interval of at least 1 ns the loop makes at most `now_ns` rounds and one test more.
unfoldable pub track : LinkUtilization → ℕ → Bool → Result LinkUtilization
unfolding end_intervals add_time
track u now_ns next_state_is_on =
    if u.tracking_enabled
    then (do
      t ← end_intervals (suc now_ns) u now_ns next_state_is_on
      let v = add_time t next_state_is_on now_ns
      ok (record v { current_state_is_on = next_state_is_on; prev_time_ns = now_ns }))
    else ok u

-- `FinalizeUtilization`, which returns m_utilization.
unfoldable pub finalize_link : LinkUtilization → ℕ → Result LinkUtilization
unfolding track
finalize_link u now_ns = track u now_ns (not u.current_state_is_on)
