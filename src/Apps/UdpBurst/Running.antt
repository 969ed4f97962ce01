-- ===== src/Apps/UdpBurst/Running.antt =====
-- What holds of udp-burst-application.cc between its events.
use hypatia_multicast.Base.{
  ℕ, suc, ◌<◌, ◌≤◌, ◌≡◌, refl, sym, ap, ◌∙◌, Option, some, none, arith, get_elem?,
}
use hypatia_multicast.Schedule.UdpBurst.{UdpBurstInfo}
use hypatia_multicast.Apps.UdpBurst.{OutgoingBurst, UdpBurstApplication, start_application}
use hypatia_multicast.Apps.UdpBurst.Paced.{paced, IsPaced, waiting}
use hypatia_multicast.Apps.UdpBurst.Registration.{AllNew-get, IsAscending-get, IsReady}

module _ {D A : Type 0} where
  -- Of the bursts before the next one each has sent a packet, of the others none.
  pub record IsRunning (gap_ns : UdpBurstInfo D → ℕ) (s : UdpBurstApplication D A) : Type 0 where
    pub all_paced :
        (idx : ℕ) (b : OutgoingBurst D A)
        → get_elem? s.outgoing_bursts idx ≡ some b
        → IsPaced (gap_ns b.info) b
    pub before_start :
        (idx : ℕ) (b : OutgoingBurst D A)
        → get_elem? s.outgoing_bursts idx ≡ some b
        → s.next_internal_burst_idx ≤ idx
        → (b.packets_sent_counter ≡ 0) × (b.event ≡ none)
    pub after_start :
        (idx : ℕ) (b : OutgoingBurst D A)
        → get_elem? s.outgoing_bursts idx ≡ some b
        → idx < s.next_internal_burst_idx
        → 0 < b.packets_sent_counter
    pub ascending :
        (idx : ℕ) (b c : OutgoingBurst D A)
        → get_elem? s.outgoing_bursts idx ≡ some b
        → get_elem? s.outgoing_bursts (suc idx) ≡ some c
        → b.info.start_time_ns ≤ c.info.start_time_ns
    pub next_event :
        (time_ns : ℕ)
        → s.start_next_burst_event ≡ some time_ns
        → (b : OutgoingBurst D A) × (get_elem? s.outgoing_bursts s.next_internal_burst_idx ≡ some b)
          × (b.info.start_time_ns ≡ time_ns)

  -- An event that is scheduled if there is a burst.
  pub event_of :
      (o : Option (OutgoingBurst D A)) (f : OutgoingBurst D A → ℕ) (time_ns : ℕ)
      → ◌≡◌ {A = Option ℕ} (elim o [ none ↦ none | some b ↦ some (f b) ]) (some time_ns)
      → (b : OutgoingBurst D A) × (o ≡ some b) × (f b ≡ time_ns)
  event_of none f time_ns e = cc
  event_of (some b) f time_ns e = (b, refl, cc)

  pub start_application-IsRunning :
      (gap_ns : UdpBurstInfo D → ℕ) (s : UdpBurstApplication D A)
      → IsReady s
      → IsRunning gap_ns (start_application s)
  unfolding start_application
  start_application-IsRunning gap_ns s h = record {
    all_paced = λ idx b e.
        let new = AllNew-get s.outgoing_bursts idx b h.all_new e in
        record {
          all_packets = new.2 ∙ ap (paced b.info (gap_ns b.info)) (sym new.0);
          phase = waiting new.0 new.1;
        };
    before_start =
        λ idx b e le. let new = AllNew-get s.outgoing_bursts idx b h.all_new e in (new.0, new.1);
    after_start = λ idx b e lt. let first = h.at_first in omega arith;
    ascending = λ idx b c e f. IsAscending-get s.outgoing_bursts idx b c h.ascending e f;
    next_event = λ time_ns e.
        let (b, first, at) =
          event_of (get_elem? s.outgoing_bursts 0) (λ b. b.info.start_time_ns) time_ns e in
        (b, ap (get_elem? s.outgoing_bursts) h.at_first ∙ first, at);
  }
