-- ===== src/Apps/UdpBurst/Paced.antt =====
-- What udp-burst-application.cc sends of one burst: packets at equal distances, numbered from 0 on.
use hypatia_multicast.Base.{
  ℕ, zero, suc, ◌+◌, ◌*◌, ◌<◌, ◌≤◌, ◌≡◌, refl, ap, ◌∙◌, Bool, List, [], ◌∷◌, ◌++◌, some, none, ltb,
  arith, Bool-cases, inl, inr,
}
use hypatia_multicast.Schedule.UdpBurst.{UdpBurstInfo}
use hypatia_multicast.Apps.UdpBurst.{
  SentPacket, OutgoingBurst, new_outgoing_burst, transmit_full_packet, schedule_next,
}

-- The first `count` packets of a burst.
abbrev pub paced : {D : Type 0} → UdpBurstInfo D → ℕ → ℕ → List SentPacket
paced info gap_ns zero = []
paced info gap_ns (suc k) =
    paced info gap_ns k
    ++ (record { time_ns = info.start_time_ns + k * gap_ns; id = info.udp_burst_id; seq = k }) ∷ []

-- A burst before its start, between two packets, and after the last packet that its duration
-- allows.
pub data Phase {D A : Type 0} (gap_ns : ℕ) (b : OutgoingBurst D A) : Type 0 where
  waiting : b.packets_sent_counter ≡ 0 → b.event ≡ none → Phase gap_ns b
  sending :
      0 < b.packets_sent_counter
      → b.event ≡ some (b.info.start_time_ns + b.packets_sent_counter * gap_ns)
      → b.packets_sent_counter * gap_ns < b.info.duration_ns
      → Phase gap_ns b
  finished :
      0 < b.packets_sent_counter
      → b.event ≡ none
      → b.info.duration_ns ≤ b.packets_sent_counter * gap_ns
      → Phase gap_ns b

pub record IsPaced {D A : Type 0} (gap_ns : ℕ) (b : OutgoingBurst D A) : Type 0 where
  pub all_packets : b.packets ≡ paced b.info gap_ns b.packets_sent_counter
  pub phase : Phase gap_ns b

pub new-IsPaced :
    {D A : Type 0} (gap_ns : ℕ) (info : UdpBurstInfo D) (target : A) (enable : Bool)
    → IsPaced gap_ns (new_outgoing_burst info target enable)
new-IsPaced gap_ns info target enable = record { all_packets = refl; phase = waiting refl refl }

suc_mul : (n m : ℕ) → suc n * m ≡ n * m + m
suc_mul n m = ground arith

-- One more packet, at its time.
pub send-IsPaced :
    {D A : Type 0} (gap_ns now_ns : ℕ) (b : OutgoingBurst D A)
    → b.packets ≡ paced b.info gap_ns b.packets_sent_counter
    → now_ns ≡ b.info.start_time_ns + b.packets_sent_counter * gap_ns
    → IsPaced gap_ns (schedule_next gap_ns (transmit_full_packet b now_ns) now_ns)
unfolding schedule_next transmit_full_packet
send-IsPaced gap_ns now_ns b e at =
    let next = suc_mul b.packets_sent_counter gap_ns in
    record {
      all_packets =
          ap
            (λ l.
              l
              ++ (record {
                time_ns = now_ns;
                id = b.info.udp_burst_id;
                seq = b.packets_sent_counter;
              })
                ∷ [])
            e
          ∙ ap
              (λ t.
                paced b.info gap_ns b.packets_sent_counter
                ++ (record { time_ns = t; id = b.info.udp_burst_id; seq = b.packets_sent_counter })
                  ∷ [])
              at;
      phase =
          elim (Bool-cases (ltb (now_ns + gap_ns) (b.info.start_time_ns + b.info.duration_ns))) [
            | inl more ↦
                sending (omega arith) (rw more (ap some (omega (arith, at, next))))
                  (ground (arith, more, at, next))
            | inr over ↦ finished (omega arith) (rw over refl) (ground (arith, over, at, next))
          ];
    }
