-- ===== src/Apps/UdpBurst/Runs.antt =====
-- The runs of udp-burst-application.cc: bursts are registered, the application starts, and then its
-- events and the packets that arrive come in any order.
use hypatia_multicast.Base.{ℕ, ◌≡◌, subst, some, ok, get_elem?}
use hypatia_multicast.Schedule.UdpBurst.{UdpBurstInfo}
use hypatia_multicast.Apps.UdpBurst.{
  OutgoingBurst, UdpBurstApplication, start_application, burst_send_out, schedule_start,
  start_next_burst, handle_packet,
}
use hypatia_multicast.Apps.UdpBurst.Registration.{Registered, Registered-IsReady}
use hypatia_multicast.Apps.UdpBurst.Running.{IsRunning, start_application-IsRunning}
use hypatia_multicast.Apps.UdpBurst.Events.{
  with_packet, burst_send_out-packet, start_next_burst-packet, with_packet-IsRunning,
  schedule_start-IsRunning, handle_packet-IsRunning,
}

module _ {D A : Type 0} where
  -- After the start, with the time between two packets of a burst.
  pub data Run (gap_ns : UdpBurstInfo D → ℕ) : UdpBurstApplication D A → Type 0 where
    started : {s : UdpBurstApplication D A} → Registered s → Run gap_ns (start_application s)
    burst_started :
        {s : UdpBurstApplication D A} (time_ns : ℕ) (t : UdpBurstApplication D A)
        → Run gap_ns s
        → s.start_next_burst_event ≡ some time_ns
        → start_next_burst gap_ns s time_ns ≡ ok t
        → Run gap_ns t
    sent_out :
        {s : UdpBurstApplication D A} (idx time_ns : ℕ) (b : OutgoingBurst D A)
        (t : UdpBurstApplication D A)
        → Run gap_ns s
        → get_elem? s.outgoing_bursts idx ≡ some b
        → b.event ≡ some time_ns
        → burst_send_out gap_ns s idx time_ns ≡ ok t
        → Run gap_ns t
    arrived :
        {s : UdpBurstApplication D A} (id seq time_ns : ℕ) (t : UdpBurstApplication D A)
        → Run gap_ns s
        → handle_packet s id seq time_ns ≡ ok t
        → Run gap_ns t

  -- In every run the packets of each burst have been sent at its start and then at equal distances,
  -- with the burst's id and the sequence numbers 0, 1, 2 and so on, as many as its counter says. A
  -- burst whose turn has not come has sent none; otherwise the event of its next packet comes at
  -- the time of that packet, which is within its duration, or its next packet would not be, and
  -- there is no event.
  pub Run-IsRunning :
      (gap_ns : UdpBurstInfo D → ℕ) {s : UdpBurstApplication D A}
      → Run gap_ns s
      → IsRunning gap_ns s
  Run-IsRunning gap_ns (started r) = start_application-IsRunning gap_ns _ (Registered-IsReady r)
  Run-IsRunning gap_ns (burst_started {s} time_ns t r event e) =
      let h = Run-IsRunning gap_ns r in
      let (b, at, start) = h.next_event time_ns event in
      let out = start_next_burst-packet gap_ns s time_ns b at start in
      let same : schedule_start (with_packet gap_ns s s.next_internal_burst_idx b time_ns) time_ns
          ≡ t =
        cc in
      subst (IsRunning gap_ns) same (schedule_start-IsRunning gap_ns s time_ns b h at start)
  Run-IsRunning gap_ns (sent_out {s} idx time_ns b t r at event e) =
      let h = Run-IsRunning gap_ns r in
      let out = burst_send_out-packet gap_ns s idx time_ns b at in
      let same : with_packet gap_ns s idx b time_ns ≡ t = cc in
      subst (IsRunning gap_ns) same (with_packet-IsRunning gap_ns s idx time_ns b h at event)
  Run-IsRunning gap_ns (arrived {s} id seq time_ns t r e) =
      (handle_packet-IsRunning gap_ns s id seq time_ns (Run-IsRunning gap_ns r)).holds t e

  -- In no run does the start of the next burst find that there is none, or that its time is another
  -- one, and in no run does the event of a packet read out of bounds.
  pub Run-returns :
      (gap_ns : UdpBurstInfo D → ℕ) (s : UdpBurstApplication D A)
      → Run gap_ns s
      → ((time_ns : ℕ)
          → s.start_next_burst_event ≡ some time_ns
          → (t : UdpBurstApplication D A) × (start_next_burst gap_ns s time_ns ≡ ok t))
        × ((idx time_ns : ℕ) (b : OutgoingBurst D A)
            → get_elem? s.outgoing_bursts idx ≡ some b
            → b.event ≡ some time_ns
            → (t : UdpBurstApplication D A) × (burst_send_out gap_ns s idx time_ns ≡ ok t))
  Run-returns gap_ns s r =
      let h = Run-IsRunning gap_ns r in
      (
        λ time_ns event.
            let (b, at, start) = h.next_event time_ns event in
            (_, start_next_burst-packet gap_ns s time_ns b at start),
        λ idx time_ns b at event. (_, burst_send_out-packet gap_ns s idx time_ns b at),
      )
