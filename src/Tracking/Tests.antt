-- ===== src/Tracking/Tests.antt =====
-- The trackers on small runs.
use hypatia_multicast.Base.{
  ℕ, ◌<◌, ◌≡◌, refl, Bool, true, false, List, [], ◌∷◌, some, none, ok, ◌>>=◌, if◌then◌else◌, map,
  arith, ltb, for_each,
}
use hypatia_multicast.Base.Int.{ℤ, pos}
use hypatia_multicast.Tracking.LogUpdate.{
  LogUpdateHelper, new_log_update_helper, run_updates, finalize,
}
use hypatia_multicast.Tracking.LogUpdate.Intervals.{value_at, IsCanonical}
use hypatia_multicast.Tracking.LogUpdate.Signal.{latest, to_call, finalize-run_updates}
use hypatia_multicast.Tracking.QueueTracker.{
  PtopLinkQueueTracker, new_ptop_link_queue_tracker, Callback, packets, bytes, callback,
  get_intervals_num_packets, get_intervals_num_bytes, packet_updates, byte_updates,
  get_intervals_correct,
}
use hypatia_multicast.Tracking.Utilization.{
  PtopLinkUtilizationTracker, new_ptop_link_utilization_tracker, track_calls, track_utilization,
  finalize_utilization,
}
use hypatia_multicast.Tracking.Utilization.Busy.{
  link_on, IsUtilization, finalize_utilization-link_on,
}

-- A value that is set twice at time 5.
abbrev updates : List (ℕ × ℤ)
updates = (5, pos 2) ∷ (5, pos 3) ∷ (9, pos 3) ∷ (12, pos 1) ∷ []

finalize-run_updates_example :
    (s : LogUpdateHelper) × ((run_updates new_log_update_helper (map to_call ((0, pos 7) ∷ updates))
        >>= λ s'. finalize s' (pos 20))
      ≡ ok s)
    × ((t : ℕ)
        → value_at s.log_time_value (pos t)
          ≡ (if ltb t 20 then latest none ((0, pos 7) ∷ updates) t else none))
    × IsCanonical (pos 0) s.log_time_value (pos 20)
finalize-run_updates_example =
    finalize-run_updates (0, pos 7) updates 20
      (omega arith, (omega arith, (omega arith, (omega arith, omega arith))))

log_of_updates :
    (run_updates new_log_update_helper (map to_call ((0, pos 7) ∷ updates)) >>= λ s'.
    finalize s' (pos 20) >>= λ s. ok s.log_time_value)
    ≡ ok ((pos 0, pos 5, pos 7) ∷ (pos 5, pos 12, pos 3) ∷ (pos 12, pos 20, pos 1) ∷ [])
unfolding run_updates finalize new_log_update_helper
log_of_updates = refl

abbrev queue_calls : List (ℕ × Callback)
queue_calls = (3, packets 1) ∷ (3, bytes 1500) ∷ (8, packets 0) ∷ (8, bytes 0) ∷ []

get_intervals_correct_example :
    (s s1 s2 : PtopLinkQueueTracker) × (pkt byte : List (ℤ × ℤ × ℤ)) × ((new_ptop_link_queue_tracker
        >>= λ s0. for_each callback s0 queue_calls)
      ≡ ok s)
    × (get_intervals_num_packets s 10 ≡ ok (s1, pkt))
    × (get_intervals_num_bytes s 10 ≡ ok (s2, byte))
    × ((t : ℕ)
        → t < 10
        → value_at pkt (pos t) ≡ latest (some (pos 0)) (packet_updates queue_calls) t)
    × ((t : ℕ)
        → t < 10
        → value_at byte (pos t) ≡ latest (some (pos 0)) (byte_updates queue_calls) t)
get_intervals_correct_example =
    get_intervals_correct queue_calls 10
      (omega arith, (omega arith, (omega arith, (omega arith, omega arith))))

abbrev link_calls : List (ℕ × Bool)
link_calls = (3, true) ∷ (12, false) ∷ (14, true) ∷ (15, false) ∷ []

finalize_utilization-link_on_example :
    (s : PtopLinkUtilizationTracker) × ((track_calls
          (new_ptop_link_utilization_tracker 10)
          link_calls
        >>= λ t. finalize_utilization t 25)
      ≡ ok s)
    × IsUtilization (link_on false 0 link_calls 25) 10 0 s.intervals 25
finalize_utilization-link_on_example =
    finalize_utilization-link_on 10 link_calls 25 (omega arith) (
      omega arith,
      refl,
      (omega arith, refl, (omega arith, refl, (omega arith, refl, omega arith))),
    )

intervals_of_link_calls :
    (track_calls (new_ptop_link_utilization_tracker 10) link_calls >>= λ t.
    finalize_utilization t 25 >>= λ s. ok s.intervals)
    ≡ ok ((0, 10, 7) ∷ (10, 20, 3) ∷ (20, 25, 0) ∷ [])
unfolding track_calls finalize_utilization track_utilization new_ptop_link_utilization_tracker
intervals_of_link_calls = refl
