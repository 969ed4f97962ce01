-- ===== src/Apps/UdpBurst.antt =====
-- UdpBurstApplication: simulator/contrib/basic-sim/model/apps/udp-burst-application.cc. The source
-- keeps what belongs to an outgoing burst in vectors of one length, which are one list of records
-- here. What the application sends and logs is kept in its state; the present time is an argument,
-- and so is the time between two packets of a burst, which is computed in doubles.
pub mod Paced
pub mod Registration
pub mod Running
pub mod Events
pub mod Runs
mod Tests
use hypatia_multicast.Base.{
  ℕ, suc, ◌+◌, ◌-◌, Bool, false, List, [], ◌∷◌, ◌++◌, map, Option, some, none, Result, ok, err,
  ◌>>=◌, ◌>>◌, if◌then◌else◌, not, ltb, ◌==◌, throw_if, or_throw, assertion, undefined,
  out_of_range, runtime_error, get_elem?, set, find, find_or, put,
}
use hypatia_multicast.Schedule.UdpBurst.{UdpBurstInfo}

-- A packet with its IdSeqHeader.
pub record SentPacket : Type 0 where
  pub time_ns : ℕ
  pub id : ℕ
  pub seq : ℕ

-- `event` is the time of the event that m_outgoing_bursts_event_id holds, if it is still to come.
pub record OutgoingBurst (D A : Type 0) : Type 0 where
  pub info : UdpBurstInfo D
  pub target : A
  pub packets_sent_counter : ℕ
  pub event : Option ℕ
  pub enable_precise_logging : Bool
  pub packets : List SentPacket
  pub outgoing_csv : List SentPacket

pub record UdpBurstApplication (D A : Type 0) : Type 0 where
  pub node_id : ℕ
  pub outgoing_bursts : List (OutgoingBurst D A)
  pub next_internal_burst_idx : ℕ
  pub start_next_burst_event : Option ℕ
  pub incoming_bursts : List (UdpBurstInfo D)
  pub incoming_bursts_received_counter : List (ℕ × ℕ)
  pub incoming_bursts_enable_precise_logging : List (ℕ × Bool)
  pub incoming_csv : List SentPacket

unfoldable pub new_udp_burst_application : (D A : Type 0) → ℕ → UdpBurstApplication D A
new_udp_burst_application D A node_id = record {
  node_id = node_id;
  outgoing_bursts = [];
  next_internal_burst_idx = 0;
  start_next_burst_event = none;
  incoming_bursts = [];
  incoming_bursts_received_counter = [];
  incoming_bursts_enable_precise_logging = [];
  incoming_csv = [];
}

module _ {D A : Type 0} where
  -- The bursts must ascend weakly: the start of the last one that is registered, if there is one.
  unfoldable pub last_start_ns : List (OutgoingBurst D A) → ℕ
  last_start_ns [] = 0
  last_start_ns (b ∷ []) = b.info.start_time_ns
  last_start_ns (b ∷ c ∷ bursts) = last_start_ns (c ∷ bursts)

  abbrev pub new_outgoing_burst : UdpBurstInfo D → A → Bool → OutgoingBurst D A
  new_outgoing_burst info target enable = record {
    info = info;
    target = target;
    packets_sent_counter = 0;
    event = none;
    enable_precise_logging = enable;
    packets = [];
    outgoing_csv = [];
  }

  unfoldable pub register_outgoing_burst :
      UdpBurstApplication D A → UdpBurstInfo D → A → Bool → Result (UdpBurstApplication D A)
  unfolding last_start_ns
  register_outgoing_burst s info target enable = do
    throw_if (not (info.from_node_id == s.node_id)) assertion
    throw_if (ltb info.start_time_ns (last_start_ns s.outgoing_bursts)) runtime_error
    ok (record s {
      outgoing_bursts = s.outgoing_bursts ++ new_outgoing_burst info target enable ∷ [];
    })

  unfoldable pub register_incoming_burst :
      UdpBurstApplication D A → UdpBurstInfo D → Bool → Result (UdpBurstApplication D A)
  unfolding put
  register_incoming_burst s info enable = do
    throw_if (not (info.to_node_id == s.node_id)) assertion
    ok (record s {
      incoming_bursts = s.incoming_bursts ++ info ∷ [];
      incoming_bursts_received_counter = put info.udp_burst_id 0 s.incoming_bursts_received_counter;
      incoming_bursts_enable_precise_logging =
          put info.udp_burst_id enable s.incoming_bursts_enable_precise_logging;
    })

  -- `StartApplication` at time 0, when it can bind its socket.
  unfoldable pub start_application : UdpBurstApplication D A → UdpBurstApplication D A
  start_application s = record s {
    start_next_burst_event = elim (get_elem? s.outgoing_bursts 0) [
      | none ↦ none
      | some b ↦ some b.info.start_time_ns
    ];
  }

  unfoldable pub transmit_full_packet : OutgoingBurst D A → ℕ → OutgoingBurst D A
  transmit_full_packet b now_ns =
      let p : SentPacket = record {
        time_ns = now_ns;
        id = b.info.udp_burst_id;
        seq = b.packets_sent_counter;
      } in
      record b {
        packets_sent_counter = suc b.packets_sent_counter;
        packets = b.packets ++ p ∷ [];
        outgoing_csv =
            if b.enable_precise_logging then b.outgoing_csv ++ p ∷ [] else b.outgoing_csv;
      }

  -- The end of `BurstSendOut`. An event that has come is no longer there.
  unfoldable pub schedule_next : ℕ → OutgoingBurst D A → ℕ → OutgoingBurst D A
  schedule_next gap_ns b now_ns = record b {
    event =
        if ltb (now_ns + gap_ns) (b.info.start_time_ns + b.info.duration_ns)
        then some (now_ns + gap_ns)
        else none;
  }

  unfoldable pub burst_send_out :
      (UdpBurstInfo D → ℕ) → UdpBurstApplication D A → ℕ → ℕ → Result (UdpBurstApplication D A)
  unfolding transmit_full_packet schedule_next
  burst_send_out gap_ns s idx now_ns = do
    b ← or_throw (get_elem? s.outgoing_bursts idx) undefined
    ok (record s {
      outgoing_bursts =
          set s.outgoing_bursts idx
            (schedule_next (gap_ns b.info) (transmit_full_packet b now_ns) now_ns);
    })

  -- The end of `StartNextBurst`; the difference of the times is not negative, since bursts ascend.
  unfoldable pub schedule_start : UdpBurstApplication D A → ℕ → UdpBurstApplication D A
  schedule_start s now_ns = record s {
    next_internal_burst_idx = suc s.next_internal_burst_idx;
    start_next_burst_event = elim (get_elem? s.outgoing_bursts (suc s.next_internal_burst_idx)) [
      | none ↦ none
      | some b ↦ some (now_ns + (b.info.start_time_ns - now_ns))
    ];
  }

  unfoldable pub start_next_burst :
      (UdpBurstInfo D → ℕ) → UdpBurstApplication D A → ℕ → Result (UdpBurstApplication D A)
  unfolding burst_send_out schedule_start
  start_next_burst gap_ns s now_ns = do
    b ← or_throw (get_elem? s.outgoing_bursts s.next_internal_burst_idx) runtime_error
    throw_if (not (b.info.start_time_ns == now_ns)) runtime_error
    t ← burst_send_out gap_ns s s.next_internal_burst_idx now_ns
    ok (schedule_start t now_ns)

  -- `StopApplication` cancels the events of a bound socket.
  unfoldable pub stop_application : UdpBurstApplication D A → UdpBurstApplication D A
  stop_application s = record s {
    start_next_burst_event = none;
    outgoing_bursts = map (λ (b : OutgoingBurst D A). record b { event = none }) s.outgoing_bursts;
  }

  -- The body of the loop of `HandleRead`: a packet with its header.
  unfoldable pub handle_packet :
      UdpBurstApplication D A → ℕ → ℕ → ℕ → Result (UdpBurstApplication D A)
  unfolding find find_or put
  handle_packet s id seq now_ns = do
    counter ← or_throw (find id s.incoming_bursts_received_counter) out_of_range
    let enabled = find_or id false s.incoming_bursts_enable_precise_logging
    ok (record s {
      incoming_bursts_received_counter = put id (counter + 1) s.incoming_bursts_received_counter;
      incoming_csv =
          if enabled
          then s.incoming_csv ++ (record { time_ns = now_ns; id = id; seq = seq }) ∷ []
          else s.incoming_csv;
    })

  unfoldable pub get_outgoing_bursts_information :
      UdpBurstApplication D A → List (UdpBurstInfo D × ℕ)
  get_outgoing_bursts_information s = map (λ b. (b.info, b.packets_sent_counter)) s.outgoing_bursts

  unfoldable pub sent_counter_of : List (OutgoingBurst D A) → ℕ → Result ℕ
  sent_counter_of [] id = err runtime_error
  sent_counter_of (b ∷ bursts) id =
      let rest = sent_counter_of bursts id in
      if b.info.udp_burst_id == id then ok b.packets_sent_counter else rest

  unfoldable pub get_sent_counter_of : UdpBurstApplication D A → ℕ → Result ℕ
  unfolding sent_counter_of
  get_sent_counter_of s id = sent_counter_of s.outgoing_bursts id

  unfoldable pub get_received_counter_of : UdpBurstApplication D A → ℕ → Result ℕ
  unfolding find
  get_received_counter_of s id = or_throw (find id s.incoming_bursts_received_counter) out_of_range
