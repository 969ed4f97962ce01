-- ===== src/Apps/UdpBurst/Events.antt =====
-- The events of udp-burst-application.cc, one by one.
use hypatia_multicast.Base.{
  ℕ, suc, ◌+◌, ◌-◌, ◌*◌, ◌<◌, ◌≤◌, ◌≡◌, refl, sym, ap, subst, ◌∙◌, inl, inr, List, some, ok, arith,
  get_elem?, set, get_elem?-set, get_elem?-set_ne, Ensures, bind, returns, or_throw, ==_iff, find,
  out_of_range,
}
use hypatia_multicast.Schedule.UdpBurst.{UdpBurstInfo}
use hypatia_multicast.Apps.UdpBurst.{
  OutgoingBurst, UdpBurstApplication, transmit_full_packet, schedule_next, burst_send_out,
  schedule_start, start_next_burst, handle_packet,
}
use hypatia_multicast.Apps.UdpBurst.Paced.{IsPaced, Phase, waiting, sending, finished, send-IsPaced}
use hypatia_multicast.Apps.UdpBurst.Running.{IsRunning, event_of}

module _ {D A : Type 0} where
  -- The burst that sends a packet.
  abbrev after_packet : (UdpBurstInfo D → ℕ) → OutgoingBurst D A → ℕ → OutgoingBurst D A
  unfolding schedule_next transmit_full_packet
  after_packet gap_ns b now_ns =
      schedule_next (gap_ns b.info) (transmit_full_packet b now_ns) now_ns

  after_packet-info :
      (gap_ns : UdpBurstInfo D → ℕ) (b : OutgoingBurst D A) (now_ns : ℕ)
      → (after_packet gap_ns b now_ns).info ≡ b.info
  unfolding after_packet
  after_packet-info gap_ns b now_ns = refl

  after_packet-counter :
      (gap_ns : UdpBurstInfo D → ℕ) (b : OutgoingBurst D A) (now_ns : ℕ)
      → 0 < (after_packet gap_ns b now_ns).packets_sent_counter
  unfolding after_packet
  after_packet-counter gap_ns b now_ns = omega arith

  -- The infos of the bursts stay as they are.
  set-info :
      (gap_ns : UdpBurstInfo D → ℕ) (bs : List (OutgoingBurst D A)) (idx now_ns i : ℕ)
      (b c : OutgoingBurst D A)
      → get_elem? bs idx ≡ some b
      → get_elem? (set bs idx (after_packet gap_ns b now_ns)) i ≡ some c
      → (c0 : OutgoingBurst D A) × (get_elem? bs i ≡ some c0) × (c.info ≡ c0.info)
  set-info gap_ns bs idx now_ns i b c at e = elim (get_elem?-set bs idx i _ c e) [
    | inl h ↦ (
      b,
      subst (λ k. get_elem? bs k ≡ some b) h.0 at,
      ap (λ x. x.info) h.1 ∙ after_packet-info gap_ns b now_ns,
    )
    | inr h ↦ (c, h.1, refl)
  ]

  set-ascending :
      (gap_ns : UdpBurstInfo D → ℕ) (s : UdpBurstApplication D A) (idx now_ns i : ℕ)
      (b c d : OutgoingBurst D A)
      → IsRunning gap_ns s
      → get_elem? s.outgoing_bursts idx ≡ some b
      → get_elem? (set s.outgoing_bursts idx (after_packet gap_ns b now_ns)) i ≡ some c
      → get_elem? (set s.outgoing_bursts idx (after_packet gap_ns b now_ns)) (suc i) ≡ some d
      → c.info.start_time_ns ≤ d.info.start_time_ns
  set-ascending gap_ns s idx now_ns i b c d h at e f =
      let (c0, ec, ic) = set-info gap_ns s.outgoing_bursts idx now_ns i b c at e in
      let (d0, ed, id) = set-info gap_ns s.outgoing_bursts idx now_ns (suc i) b d at f in
      let le = h.ascending i c0 d0 ec ed in
      let same_c : c.info.start_time_ns ≡ c0.info.start_time_ns = ap (λ x. x.start_time_ns) ic in
      let same_d : d.info.start_time_ns ≡ d0.info.start_time_ns = ap (λ x. x.start_time_ns) id in
      omega (arith, le, same_c, same_d)

  set-IsPaced :
      (gap_ns : UdpBurstInfo D → ℕ) (s : UdpBurstApplication D A) (idx now_ns : ℕ)
      (b : OutgoingBurst D A)
      → IsRunning gap_ns s
      → get_elem? s.outgoing_bursts idx ≡ some b
      → now_ns ≡ b.info.start_time_ns + b.packets_sent_counter * gap_ns b.info
      → (i : ℕ) (c : OutgoingBurst D A)
      → get_elem? (set s.outgoing_bursts idx (after_packet gap_ns b now_ns)) i ≡ some c
      → IsPaced (gap_ns c.info) c
  unfolding after_packet
  set-IsPaced gap_ns s idx now_ns b h at time i c e =
      elim (get_elem?-set s.outgoing_bursts idx i _ c e) [
        | inr x ↦ h.all_paced i c x.1
        | inl x ↦
            subst (λ k. IsPaced (gap_ns k.info) k) (sym x.1)
              (send-IsPaced (gap_ns b.info) now_ns b (h.all_paced idx b at).all_packets time)
      ]

  -- The application when one of its bursts has sent a packet.
  abbrev pub with_packet :
      (UdpBurstInfo D → ℕ)
      → UdpBurstApplication D A
      → ℕ
      → OutgoingBurst D A
      → ℕ
      → UdpBurstApplication D A
  unfolding after_packet
  with_packet gap_ns s idx b now_ns = record s {
    outgoing_bursts = set s.outgoing_bursts idx (after_packet gap_ns b now_ns);
  }

  pub burst_send_out-packet :
      (gap_ns : UdpBurstInfo D → ℕ) (s : UdpBurstApplication D A) (idx now_ns : ℕ)
      (b : OutgoingBurst D A)
      → get_elem? s.outgoing_bursts idx ≡ some b
      → burst_send_out gap_ns s idx now_ns ≡ ok (with_packet gap_ns s idx b now_ns)
  unfolding burst_send_out with_packet after_packet
  burst_send_out-packet gap_ns s idx now_ns b e = rw e refl

  pub start_next_burst-packet :
      (gap_ns : UdpBurstInfo D → ℕ) (s : UdpBurstApplication D A) (now_ns : ℕ)
      (b : OutgoingBurst D A)
      → get_elem? s.outgoing_bursts s.next_internal_burst_idx ≡ some b
      → b.info.start_time_ns ≡ now_ns
      → start_next_burst gap_ns s now_ns
        ≡ ok (schedule_start (with_packet gap_ns s s.next_internal_burst_idx b now_ns) now_ns)
  unfolding start_next_burst with_packet after_packet
  start_next_burst-packet gap_ns s now_ns b e at =
      let due = (==_iff b.info.start_time_ns now_ns).1 at in rw (e, due) refl

  -- The event of a burst comes at the time of its next packet.
  event-time :
      (gap_ns time_ns : ℕ) (b : OutgoingBurst D A)
      → Phase gap_ns b
      → b.event ≡ some time_ns
      → (0 < b.packets_sent_counter)
        × (time_ns ≡ b.info.start_time_ns + b.packets_sent_counter * gap_ns)
  event-time gap_ns time_ns b phase e = elim phase [
    | waiting c none_yet ↦ cc
    | sending c at more ↦
        let same : b.info.start_time_ns + b.packets_sent_counter * gap_ns ≡ time_ns = cc in
        (c, sym same)
    | finished c none_left over ↦ cc
  ]

  pub with_packet-IsRunning :
      (gap_ns : UdpBurstInfo D → ℕ) (s : UdpBurstApplication D A) (idx time_ns : ℕ)
      (b : OutgoingBurst D A)
      → IsRunning gap_ns s
      → get_elem? s.outgoing_bursts idx ≡ some b
      → b.event ≡ some time_ns
      → IsRunning gap_ns (with_packet gap_ns s idx b time_ns)
  unfolding with_packet
  with_packet-IsRunning gap_ns s idx time_ns b h at event =
      let (sent, time) = event-time (gap_ns b.info) time_ns b (h.all_paced idx b at).phase event in
      let not_next : ¬ (s.next_internal_burst_idx ≤ idx) =
        λ le. let new = h.before_start idx b at le in cc in
      record {
        all_paced = set-IsPaced gap_ns s idx time_ns b h at time;
        before_start = λ i c e le. elim (get_elem?-set s.outgoing_bursts idx i _ c e) [
          | inl x ↦ let same = x.0 in absurd (not_next (omega arith))
          | inr x ↦ h.before_start i c x.1 le
        ];
        after_start = λ i c e lt. elim (get_elem?-set s.outgoing_bursts idx i _ c e) [
          | inl x ↦
              subst (λ k. 0 < k.packets_sent_counter) (sym x.1)
                (after_packet-counter gap_ns b time_ns)
          | inr x ↦ h.after_start i c x.1 lt
        ];
        ascending = λ i c d e f. set-ascending gap_ns s idx time_ns i b c d h at e f;
        next_event = λ t e.
            let (c, first, start) = h.next_event t e in
            (
              c,
              get_elem?-set_ne s.outgoing_bursts _ (λ same. not_next (omega (arith, same))) ∙ first,
              start,
            );
      }

  pub schedule_start-IsRunning :
      (gap_ns : UdpBurstInfo D → ℕ) (s : UdpBurstApplication D A) (time_ns : ℕ)
      (b : OutgoingBurst D A)
      → IsRunning gap_ns s
      → get_elem? s.outgoing_bursts s.next_internal_burst_idx ≡ some b
      → b.info.start_time_ns ≡ time_ns
      → IsRunning gap_ns
          (schedule_start (with_packet gap_ns s s.next_internal_burst_idx b time_ns) time_ns)
  unfolding schedule_start with_packet
  schedule_start-IsRunning gap_ns s time_ns b h at start =
      let idx = s.next_internal_burst_idx in
      let new = h.before_start idx b at (omega arith) in
      record {
        all_paced = set-IsPaced gap_ns s idx time_ns b h at (sym start ∙ rw (new.0) (omega arith));
        before_start = λ i c e le. elim (get_elem?-set s.outgoing_bursts idx i _ c e) [
          | inl x ↦ let same = x.0 in ground (arith, same, le)
          | inr x ↦ h.before_start i c x.1 (omega arith)
        ];
        after_start = λ i c e lt. elim (get_elem?-set s.outgoing_bursts idx i _ c e) [
          | inl x ↦
              subst (λ k. 0 < k.packets_sent_counter) (sym x.1)
                (after_packet-counter gap_ns b time_ns)
          | inr x ↦ let apart = x.0 in h.after_start i c x.1 (ground arith)
        ];
        ascending = λ i c d e f. set-ascending gap_ns s idx time_ns i b c d h at e f;
        next_event = λ t e.
            let (c, following, time) =
              event_of _ (λ c. time_ns + (c.info.start_time_ns - time_ns)) t e in
            let (c0, old, info) =
              set-info gap_ns s.outgoing_bursts idx time_ns (suc idx) b c at following in
            let le = h.ascending idx b c0 at old in
            let same : c.info.start_time_ns ≡ c0.info.start_time_ns =
              ap (λ x. x.start_time_ns) info in
            (c, following, omega (arith, time, le, same, start));
      }

  pub handle_packet-IsRunning :
      (gap_ns : UdpBurstInfo D → ℕ) (s : UdpBurstApplication D A) (id seq time_ns : ℕ)
      → IsRunning gap_ns s
      → Ensures (IsRunning gap_ns) (handle_packet s id seq time_ns)
  unfolding handle_packet
  handle_packet-IsRunning gap_ns s id seq time_ns h =
      bind (or_throw (find id s.incoming_bursts_received_counter) out_of_range) _ λ counter e.
        returns _ (record {
          all_paced = h.all_paced;
          before_start = h.before_start;
          after_start = h.after_start;
          ascending = h.ascending;
          next_event = h.next_event;
        })
