-- ===== src/Tracking/LogUpdate.antt =====
-- LogUpdateHelper: simulator/contrib/basic-sim/model/core/log-update-helper.cc and .h.
-- A log of the intervals on which a value, updated now and then, is constant. The members keep the
-- sentinel -1 of the source, so every time is in ℤ.
pub mod Phases
pub mod Intervals
pub mod Signal
use hypatia_multicast.Base.{
  List, [], ◌∷◌, ◌++◌, Result, ok, err, invalid_argument, if◌then◌else◌, not, ◌&&◌, for_each,
}
use hypatia_multicast.Base.Int.{ℤ, pos, negsuc, ltb_ℤ, ◌==ℤ◌}

pub record LogUpdateHelper : Type 0 where
  pub last_update_value : ℤ
  pub interval_alpha_value : ℤ
  pub last_interval_check_time : ℤ
  pub interval_alpha_left_time : ℤ
  pub interval_beta_left_time : ℤ
  pub log_time_value : List (ℤ × ℤ × ℤ)

abbrev minus_one : ℤ
minus_one = negsuc 0

unfoldable pub new_log_update_helper : LogUpdateHelper
new_log_update_helper = record {
  last_update_value = minus_one;
  interval_alpha_value = minus_one;
  last_interval_check_time = minus_one;
  interval_alpha_left_time = minus_one;
  interval_beta_left_time = minus_one;
  log_time_value = [];
}

-- The branch of `Update` for a new time moment.
start_interval : LogUpdateHelper → ℤ → LogUpdateHelper
start_interval s time =
    if s.interval_alpha_left_time ==ℤ minus_one
    then record s { interval_alpha_left_time = time; last_interval_check_time = time }
    else if s.interval_beta_left_time ==ℤ minus_one
    then record s {
      interval_beta_left_time = time;
      interval_alpha_value = s.last_update_value;
      last_interval_check_time = time;
    }
    else if s.interval_alpha_value ==ℤ s.last_update_value
    then record s { interval_beta_left_time = time; last_interval_check_time = time }
    else record s {
      log_time_value =
          s.log_time_value
          ++ (s.interval_alpha_left_time, s.interval_beta_left_time, s.interval_alpha_value) ∷ [];
      interval_alpha_left_time = s.interval_beta_left_time;
      interval_alpha_value = s.last_update_value;
      interval_beta_left_time = time;
      last_interval_check_time = time;
    }

unfoldable pub update : LogUpdateHelper → ℤ → ℤ → Result LogUpdateHelper
unfolding start_interval
update s time value =
    if ltb_ℤ time (pos 0)
    then err invalid_argument
    else if ltb_ℤ time s.last_interval_check_time
    then err invalid_argument
    else if ltb_ℤ s.last_interval_check_time time
    then ok (record (start_interval s time) { last_update_value = value })
    else ok (record s { last_update_value = value })

-- The intervals that `Finalize` appends.
last_intervals : LogUpdateHelper → ℤ → List (ℤ × ℤ × ℤ)
last_intervals s time =
    let alpha = s.interval_alpha_left_time in
    let beta = s.interval_beta_left_time in
    if not (alpha ==ℤ minus_one) && beta ==ℤ minus_one
    then (if not (alpha ==ℤ time) then (alpha, time, s.last_update_value) ∷ [] else [])
    else if not (alpha ==ℤ minus_one) && not (beta ==ℤ minus_one)
    then (if s.interval_alpha_value ==ℤ s.last_update_value
        then (alpha, time, s.interval_alpha_value) ∷ []
        else (alpha, beta, s.interval_alpha_value)
          ∷ (if not (beta ==ℤ time) then (beta, time, s.last_update_value) ∷ [] else []))
    else []

-- `Finalize` appends to the log that it returns, so the new helper is returned.
unfoldable pub finalize : LogUpdateHelper → ℤ → Result LogUpdateHelper
unfolding last_intervals
finalize s time =
    if ltb_ℤ time (pos 0)
    then err invalid_argument
    else if ltb_ℤ time s.last_interval_check_time
    then err invalid_argument
    else ok (record s { log_time_value = s.log_time_value ++ last_intervals s time })

-- The calls `Update(time, value)` of a run, in order.
unfoldable pub run_updates : LogUpdateHelper → List (ℤ × ℤ) → Result LogUpdateHelper
unfolding for_each update
run_updates = for_each (λ s (time, value). update s time value)
