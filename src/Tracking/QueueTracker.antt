-- ===== src/Tracking/QueueTracker.antt =====
-- PtopLinkQueueTracker: simulator/contrib/basic-sim/model/core/ptop-link-queue-tracker.cc.
-- The trace sources of the queue call it with the simulation time and the new number.
use hypatia_multicast.Base.{
  ℕ, ◌≤◌, ◌<◌, ◌≡◌, ◌∙◌, true, false, List, [], ◌∷◌, map, some, none, Result, ok, ◌>>=◌,
  if◌then◌else◌, for_each, arith, ltb, >>=-eq-ok,
}
use hypatia_multicast.Base.Int.{ℤ, pos}
use hypatia_multicast.Tracking.LogUpdate.{
  LogUpdateHelper, new_log_update_helper, update, finalize, run_updates,
}
use hypatia_multicast.Tracking.LogUpdate.Phases.{single, helper_of}
use hypatia_multicast.Tracking.LogUpdate.Intervals.{value_at}
use hypatia_multicast.Tracking.LogUpdate.Signal.{latest, Ascending, to_call, finalize-run_updates}

pub record PtopLinkQueueTracker : Type 0 where
  pub log_update_helper_queue_pkt : LogUpdateHelper
  pub log_update_helper_queue_byte : LogUpdateHelper

unfoldable pub new_ptop_link_queue_tracker : Result PtopLinkQueueTracker
new_ptop_link_queue_tracker = do
  pkt ← update new_log_update_helper (pos 0) (pos 0)
  byte ← update new_log_update_helper (pos 0) (pos 0)
  ok (record { log_update_helper_queue_pkt = pkt; log_update_helper_queue_byte = byte })

unfoldable pub net_device_packets_in_queue_callback :
    PtopLinkQueueTracker → ℕ → ℕ → Result PtopLinkQueueTracker
net_device_packets_in_queue_callback s now num_packets = do
  h ← update s.log_update_helper_queue_pkt (pos now) (pos num_packets)
  ok (record s { log_update_helper_queue_pkt = h })

unfoldable pub net_device_bytes_in_queue_callback :
    PtopLinkQueueTracker → ℕ → ℕ → Result PtopLinkQueueTracker
net_device_bytes_in_queue_callback s now num_bytes = do
  h ← update s.log_update_helper_queue_byte (pos now) (pos num_bytes)
  ok (record s { log_update_helper_queue_byte = h })

-- The finalized helper stays in the tracker, and its log is the result.
unfoldable pub get_intervals_num_packets :
    PtopLinkQueueTracker → ℕ → Result (PtopLinkQueueTracker × List (ℤ × ℤ × ℤ))
get_intervals_num_packets s now = do
  h ← finalize s.log_update_helper_queue_pkt (pos now)
  ok (record s { log_update_helper_queue_pkt = h }, h.log_time_value)

unfoldable pub get_intervals_num_bytes :
    PtopLinkQueueTracker → ℕ → Result (PtopLinkQueueTracker × List (ℤ × ℤ × ℤ))
get_intervals_num_bytes s now = do
  h ← finalize s.log_update_helper_queue_byte (pos now)
  ok (record s { log_update_helper_queue_byte = h }, h.log_time_value)

pub data Callback : Type 0 where
  packets bytes : ℕ → Callback

-- The calls of the two trace sources, each at its time.
unfoldable pub callback : PtopLinkQueueTracker → ℕ × Callback → Result PtopLinkQueueTracker
unfolding net_device_packets_in_queue_callback net_device_bytes_in_queue_callback
callback s (now, packets n) = net_device_packets_in_queue_callback s now n
callback s (now, bytes n) = net_device_bytes_in_queue_callback s now n

-- What the calls say of packets, and of bytes.
abbrev pub packet_updates : List (ℕ × Callback) → List (ℕ × ℤ)
packet_updates [] = []
packet_updates ((now, packets n) ∷ cs) = (now, pos n) ∷ packet_updates cs
packet_updates ((now, bytes n) ∷ cs) = packet_updates cs

abbrev pub byte_updates : List (ℕ × Callback) → List (ℕ × ℤ)
byte_updates [] = []
byte_updates ((now, packets n) ∷ cs) = byte_updates cs
byte_updates ((now, bytes n) ∷ cs) = (now, pos n) ∷ byte_updates cs

abbrev pub CallsAscend : ℕ → List (ℕ × Callback) → ℕ → Type 0
CallsAscend start [] stop = start ≤ stop
CallsAscend start ((now, c) ∷ cs) stop = (start ≤ now) × CallsAscend now cs stop

-- The two helpers do not disturb each other.
for_each-callback :
    (p b : LogUpdateHelper) (cs : List (ℕ × Callback)) {p' b' : LogUpdateHelper}
    → run_updates p (map to_call (packet_updates cs)) ≡ ok p'
    → run_updates b (map to_call (byte_updates cs)) ≡ ok b'
    → for_each callback
        (record { log_update_helper_queue_pkt = p; log_update_helper_queue_byte = b })
        cs
      ≡ ok (record { log_update_helper_queue_pkt = p'; log_update_helper_queue_byte = b' })
unfolding run_updates callback
for_each-callback p b [] hp hb = cc
for_each-callback p b ((now, packets n) ∷ cs) hp hb =
    let (h, e, hp') =
      >>=-eq-ok (update p (pos now) (pos n))
        (λ h. for_each (λ s (time, value). update s time value) h (map to_call (packet_updates cs)))
        hp in
    rw e (for_each-callback h b cs hp' hb)
for_each-callback p b ((now, bytes n) ∷ cs) hp hb =
    let (h, e, hb') =
      >>=-eq-ok (update b (pos now) (pos n))
        (λ h. for_each (λ s (time, value). update s time value) h (map to_call (byte_updates cs)))
        hb in
    rw e (for_each-callback p h cs hp hb')

packet_updates-Ascending :
    (start later : ℕ) (cs : List (ℕ × Callback)) (stop : ℕ)
    → start ≤ later
    → CallsAscend later cs stop
    → Ascending start (packet_updates cs) stop
packet_updates-Ascending start later [] stop le h = omega arith
packet_updates-Ascending start later ((now, packets n) ∷ cs) stop le h =
    (omega arith, packet_updates-Ascending now now cs stop (omega arith) h.1)
packet_updates-Ascending start later ((now, bytes n) ∷ cs) stop le h =
    packet_updates-Ascending start now cs stop (omega arith) h.1

byte_updates-Ascending :
    (start later : ℕ) (cs : List (ℕ × Callback)) (stop : ℕ)
    → start ≤ later
    → CallsAscend later cs stop
    → Ascending start (byte_updates cs) stop
byte_updates-Ascending start later [] stop le h = omega arith
byte_updates-Ascending start later ((now, bytes n) ∷ cs) stop le h =
    (omega arith, byte_updates-Ascending now now cs stop (omega arith) h.1)
byte_updates-Ascending start later ((now, packets n) ∷ cs) stop le h =
    byte_updates-Ascending start now cs stop (omega arith) h.1

-- The helper after `Update(0, 0)`.
started : LogUpdateHelper
started = helper_of (single 0 (pos 0))

-- A helper that starts, as both do, with `Update(0, 0)`.
from_zero :
    (us : List (ℕ × ℤ)) (stop : ℕ)
    → Ascending 0 us stop
    → (h s : LogUpdateHelper) × (run_updates started (map to_call us) ≡ ok h)
      × (finalize h (pos stop) ≡ ok s)
      × ((t : ℕ) → t < stop → value_at s.log_time_value (pos t) ≡ latest (some (pos 0)) us t)
unfolding run_updates update new_log_update_helper helper_of started
from_zero us stop asc =
    let (s, e, value, shape) = finalize-run_updates (0, pos 0) us stop asc in
    let (h, e1, e2) =
      >>=-eq-ok (run_updates new_log_update_helper (map to_call ((0, pos 0) ∷ us)))
        (λ s'. finalize s' (pos stop)) e in
    (h, s, e1, e2, λ t lt. value t ∙ before us t stop lt)
  where
    before :
        (us : List (ℕ × ℤ)) (t stop : ℕ)
        → t < stop
        → (if ltb t stop then latest none ((0, pos 0) ∷ us) t else none)
          ≡ latest (some (pos 0)) us t
    before us t stop lt =
        let e : ltb t stop ≡ true = ground arith in
        let z : ltb t 0 ≡ false = ground arith in rw (e, z)

-- A tracker that was called in the order of time returns, at a time that is not before the last
-- call, a log of packets and a log of bytes. At each time before it either log has the number of
-- the last call of its kind up to then, and 0 if there was none.
pub get_intervals_correct :
    (cs : List (ℕ × Callback)) (stop : ℕ)
    → CallsAscend 0 cs stop
    → (s s1 s2 : PtopLinkQueueTracker) × (pkt byte : List (ℤ × ℤ × ℤ))
      × ((new_ptop_link_queue_tracker >>= λ s0. for_each callback s0 cs) ≡ ok s)
      × (get_intervals_num_packets s stop ≡ ok (s1, pkt))
      × (get_intervals_num_bytes s stop ≡ ok (s2, byte))
      × ((t : ℕ) → t < stop → value_at pkt (pos t) ≡ latest (some (pos 0)) (packet_updates cs) t)
      × ((t : ℕ) → t < stop → value_at byte (pos t) ≡ latest (some (pos 0)) (byte_updates cs) t)
unfolding new_ptop_link_queue_tracker get_intervals_num_packets get_intervals_num_bytes update
    new_log_update_helper helper_of started
get_intervals_correct cs stop asc =
    let (p, sp, ep, fp, vp) =
      from_zero (packet_updates cs) stop (packet_updates-Ascending 0 0 cs stop (omega arith) asc) in
    let (b, sb, eb, fb, vb) =
      from_zero (byte_updates cs) stop (byte_updates-Ascending 0 0 cs stop (omega arith) asc) in
    (
      record { log_update_helper_queue_pkt = p; log_update_helper_queue_byte = b },
      record { log_update_helper_queue_pkt = sp; log_update_helper_queue_byte = b },
      record { log_update_helper_queue_pkt = p; log_update_helper_queue_byte = sb },
      sp.log_time_value,
      sb.log_time_value,
      for_each-callback started started cs ep eb,
      rw fp,
      rw fb,
      vp,
      vb,
    )
