-- ===== src/Satellite/Tests.antt =====
-- A device with a queue of two packets, whose channel takes 10 ns for a packet and 2 ns of gap.
use hypatia_multicast.Base.{
  ℕ, ◌+◌, ◌≤◌, ◌≡◌, refl, Bool, true, false, List, [], ◌∷◌, ◌++◌, map, ok, Result, arith, inr,
  ◌>>=◌, err,
}
use hypatia_multicast.Satellite.{
  Packets, Queues, Transmission, ether_to_ppp, add_header, process_header,
}
use hypatia_multicast.Satellite.Gsl.{
  GslNetDevice, new_gsl_net_device, attach, send, transmit_complete,
}
use hypatia_multicast.Satellite.Gsl.Operations.{accepted_items}
use hypatia_multicast.Satellite.Gsl.Runs.{
  Run, attached, sent, completed, IsNotAfter, IsServer, Run-IsServer,
}
use hypatia_multicast.Satellite.Gsl.Refines.{Tries}
use hypatia_multicast.Satellite.Gsl.Sends.{item_of, Run-in_order, Run-Tries}
use hypatia_multicast.Satellite.Gsl.Line.{line_time, Run-line_rate}
use hypatia_multicast.Satellite.Gsl.Channel.{
  Port, attach_devices, new_gsl_channel, channel_transmit_start, channel_transmit_start-attached,
}
use hypatia_multicast.Tracking.Utilization.Busy.{link_on}
use hypatia_multicast.Satellite.Laser.{LinkUtilization, enable_utilization_tracking, finalize_link}
use hypatia_multicast.Satellite.Laser.Tracking.{track_link, IsFinal, finalize_link-link_on}
use hypatia_multicast.Satellite.Headers.{process_header-add_header}
use hypatia_multicast.Satellite.DropTail.{drop_tail, drop_tail-IsFifo}

abbrev packets : Packets
packets = record {
  Packet = ℕ × List ℕ;
  get_size = λ p. 10;
  add_ppp_header = λ ppp p. (p.0, ppp ∷ p.1);
  remove_ppp_header = take_header;
}
  where
    take_header : ℕ × List ℕ → ℕ × (ℕ × List ℕ)
    take_header (n, []) = (0, (n, []))
    take_header (n, h ∷ hs) = (h, (n, hs))

process_header-add_header_example :
    (add_header packets (7, []) 0x86DD >>= process_header packets) ≡ ok ((7, []), 0x86DD)
process_header-add_header_example =
    process_header-add_header packets (λ ppp p. refl) (7, []) 0x86DD (inr refl)

abbrev Device : Type 0
Device = GslNetDevice (ℕ × List ℕ) (List (ℕ × List ℕ)) ℕ

abbrev queues : Queues (ℕ × List ℕ)
queues = drop_tail (ℕ × List ℕ) 2

-- Device 1 has the address 50, device 2 the address 100, device 3 the address 200.
abbrev port : Port ℕ
unfolding attach_devices
port = record {
  channel = attach_devices (new_gsl_channel ℕ) ((50, 1) ∷ (100, 2) ∷ (200, 3) ∷ []);
  self = 1;
  delay_ns = λ now src dst. 3;
  system_id = λ d. 0;
}

abbrev attached_device : Device
unfolding attach new_gsl_net_device
attached_device = attach (new_gsl_net_device (λ n. n) 2 [])

abbrev value_of : Device → Result (Device × Bool) → Device
value_of d (ok t) = t.0
value_of d (err e) = d

abbrev complete_of : Device → Result Device → Device
complete_of d (ok t) = t
complete_of d (err e) = d

-- Packet 7 is sent to 100 at 5 ns, packet 8 to 200 at 6 ns.
abbrev device_7 : Device
unfolding send
device_7 = value_of attached_device (send packets queues port attached_device 5 (7, []) 100 0x0800)

abbrev device_8 : Device
unfolding send device_7
device_8 = value_of device_7 (send packets queues port device_7 6 (8, []) 200 0x0800)

abbrev device_17 : Device
unfolding transmit_complete device_8
device_17 =
    complete_of device_8
      (transmit_complete packets queues port (record device_8 { scheduled = [] }) 17)

abbrev accepted_17 : List ((ℕ × List ℕ) × ℕ)
accepted_17 = ((7, 0x21 ∷ []), 100) ∷ ((8, 0x21 ∷ []), 200) ∷ []

Run-device_8 : Run packets queues port 6 accepted_17 device_8
unfolding device_8 device_7 send accepted_items ether_to_ppp attach new_gsl_net_device port
Run-device_8 =
    sent 6 (8, []) 200 0x0800 0x21 (device_8, true)
      (sent 5 (7, []) 100 0x0800 0x21 (device_7, true) (attached (λ n. n) 2 [] refl) (omega arith)
        tt refl refl)
      (omega arith) (omega arith, tt) refl refl

Run-device_17 : Run packets queues port 17 accepted_17 device_17
unfolding device_17 device_8 device_7 send transmit_complete attach new_gsl_net_device port
Run-device_17 = completed 17 100 [] device_17 Run-device_8 refl refl

Run-IsServer_example : IsServer packets queues port (drop_tail-IsFifo _ 2) 17 accepted_17 device_17
Run-IsServer_example = Run-IsServer packets queues port (drop_tail-IsFifo _ 2) Run-device_17

Run-in_order_example :
    (waiting : List ((ℕ × List ℕ) × ℕ)) × (map item_of device_17.transmitted ++ waiting
      ≡ accepted_17)
    × (device_17.queue ≡ map (λ i. i.0) waiting)
    × (device_17.queue_dests ≡ map (λ i. i.1) waiting)
Run-in_order_example =
    Run-in_order packets queues port (drop_tail-IsFifo _ 2) device_17 Run-device_17

Run-Tries_example :
    ((later : ℕ) (packet : ℕ × List ℕ) (dest proto ppp : ℕ)
      → 17 ≤ later
      → IsNotAfter later device_17.scheduled
      → ether_to_ppp proto ≡ ok ppp
      → Tries port
          (λ t. Unit)
          (dest ∷ [])
          (send packets queues port device_17 later packet dest proto))
    × ((until dest : ℕ) (events : List (ℕ × ℕ))
        → device_17.scheduled ≡ (until, dest) ∷ events
        → Tries port
            (λ t. Unit)
            device_17.queue_dests
            (transmit_complete packets queues port (record device_17 { scheduled = events }) until))
Run-Tries_example = Run-Tries packets queues port (drop_tail-IsFifo _ 2) device_17 Run-device_17

abbrev transmission_7 : Transmission (ℕ × List ℕ) ℕ
transmission_7 = record {
  start_ns = 5;
  packet = (7, 0x21 ∷ []);
  dest = 100;
  tx_time_ns = 10;
  device = 2;
  arrival_ns = 18;
}

abbrev transmission_8 : Transmission (ℕ × List ℕ) ℕ
transmission_8 = record {
  start_ns = 17;
  packet = (8, 0x21 ∷ []);
  dest = 200;
  tx_time_ns = 10;
  device = 3;
  arrival_ns = 30;
}

Run-line_rate_example : 5 + line_time device_17.interframe_gap_ns (transmission_7 ∷ []) ≤ 17
unfolding device_17 device_8 device_7 send transmit_complete attach new_gsl_net_device port
Run-line_rate_example =
    Run-line_rate packets queues port (drop_tail-IsFifo _ 2) device_17 [] transmission_7 []
      transmission_8 [] Run-device_17 refl

channel_transmit_start-attached_example :
    channel_transmit_start
      (λ d e. 3)
      (λ d. 0)
      (attach_devices (new_gsl_channel ℕ) ((100, 1) ∷ (200, 2) ∷ []))
      1
      200
      10
    ≡ ok (2, 13)
channel_transmit_start-attached_example =
    channel_transmit_start-attached (λ d e. 3) (λ d. 0) ((100, 1) ∷ (200, 2) ∷ []) 1 200 10
      (λ d e. refl)

-- A link that is on from 3 ns to 12 ns, in intervals of 5 ns, on a device that has been tracked
-- before.
abbrev earlier_utilization : LinkUtilization
earlier_utilization = record {
  tracking_enabled = true;
  interval_ns = 2;
  prev_time_ns = 2;
  current_interval_start = 2;
  current_interval_end = 4;
  idle_time_counter_ns = 0;
  busy_time_counter_ns = 0;
  current_state_is_on = true;
  utilization = (1, 2) ∷ [];
}

finalize_link-link_on_example :
    (v : LinkUtilization) × ((track_link
          (enable_utilization_tracking earlier_utilization 5)
          ((3, true) ∷ (12, false) ∷ [])
        >>= λ t. finalize_link t 13)
      ≡ ok v)
    × IsFinal ((1, 2) ∷ []) (link_on false 0 ((3, true) ∷ (12, false) ∷ []) 13) 5 13 v
finalize_link-link_on_example =
    finalize_link-link_on earlier_utilization 5 ((3, true) ∷ (12, false) ∷ []) 13 (omega arith)
      (omega arith, refl, (omega arith, refl, omega arith))
