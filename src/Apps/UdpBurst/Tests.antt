-- ===== src/Apps/UdpBurst/Tests.antt =====
-- An application with a burst from 3 ns on for 8 ns, with 5 ns between two packets, and another
-- burst.
use hypatia_multicast.Base.{ℕ, ◌≡◌, refl, false, true, [], ◌∷◌, some, ok, err, Result, get_elem?}
use hypatia_multicast.Schedule.UdpBurst.{UdpBurstInfo}
use hypatia_multicast.Apps.UdpBurst.{
  OutgoingBurst, UdpBurstApplication, new_udp_burst_application, register_outgoing_burst,
  start_application, start_next_burst, burst_send_out,
}
use hypatia_multicast.Apps.UdpBurst.Registration.{created, outgoing}
use hypatia_multicast.Apps.UdpBurst.Running.{IsRunning}
use hypatia_multicast.Apps.UdpBurst.Runs.{
  Run, started, burst_started, sent_out, Run-IsRunning, Run-returns,
}

abbrev burst : ℕ → ℕ → UdpBurstInfo ℕ
burst id start = record {
  udp_burst_id = id;
  from_node_id = 1;
  to_node_id = 2;
  target_rate_megabit_per_s = 10;
  start_time_ns = start;
  duration_ns = 8;
  additional_parameters = [];
  metadata = [];
}

abbrev gap : UdpBurstInfo ℕ → ℕ
gap info = 5

abbrev App : Type 0
App = UdpBurstApplication ℕ ℕ

abbrev value_of : App → Result App → App
value_of s (ok t) = t
value_of s (err e) = s

abbrev app_1 : App
unfolding new_udp_burst_application register_outgoing_burst
app_1 =
    let s = new_udp_burst_application ℕ ℕ 1 in
    value_of s (register_outgoing_burst s (burst 0 3) 77 true)

abbrev app_2 : App
unfolding app_1 register_outgoing_burst
app_2 = value_of app_1 (register_outgoing_burst app_1 (burst 1 10) 78 false)

abbrev app_3 : App
unfolding app_2 start_application start_next_burst
app_3 = value_of app_2 (start_next_burst gap (start_application app_2) 3)

abbrev app_8 : App
unfolding app_3 burst_send_out
app_8 = value_of app_3 (burst_send_out gap app_3 0 8)

abbrev sending_burst : OutgoingBurst ℕ ℕ
sending_burst = record {
  info = burst 0 3;
  target = 77;
  packets_sent_counter = 1;
  event = some 8;
  enable_precise_logging = true;
  packets = (record { time_ns = 3; id = 0; seq = 0 }) ∷ [];
  outgoing_csv = (record { time_ns = 3; id = 0; seq = 0 }) ∷ [];
}

Run-app_8 : Run gap app_8
unfolding app_8 app_3 app_2 app_1 new_udp_burst_application register_outgoing_burst
    start_application start_next_burst burst_send_out
Run-app_8 =
    sent_out 0 8 sending_burst app_8
      (burst_started 3 app_3
        (started (
          outgoing (burst 1 10) 78 false app_2 (outgoing (burst 0 3) 77 true app_1 (created 1) refl)
            refl))
        refl refl)
      refl refl refl

Run-IsRunning_example : IsRunning gap app_8
Run-IsRunning_example = Run-IsRunning gap Run-app_8

Run-returns_example :
    ((time_ns : ℕ)
      → app_8.start_next_burst_event ≡ some time_ns
      → (t : App) × (start_next_burst gap app_8 time_ns ≡ ok t))
    × ((idx time_ns : ℕ) (b : OutgoingBurst ℕ ℕ)
        → get_elem? app_8.outgoing_bursts idx ≡ some b
        → b.event ≡ some time_ns
        → (t : App) × (burst_send_out gap app_8 idx time_ns ≡ ok t))
Run-returns_example = Run-returns gap app_8 Run-app_8
