-- ===== src/Satellite/Gsl.antt =====
-- GSLNetDevice: simulator/contrib/satellite-network/model/gsl-net-device.cc.
-- What the device does to its surroundings is kept in its state: the events that it schedules, what
-- it hands to the channel and to the layer above, and what its trace sources report. The present
-- time, the port of the channel of Gsl.Channel and the error model are arguments.
pub mod Refines
pub mod Operations
pub mod Runs
pub mod Sends
pub mod Line
pub mod Channel
use hypatia_multicast.Base.{
  ℕ, ◌+◌, Bool, true, false, List, [], ◌∷◌, ◌++◌, Option, some, none, Result, ok, err, ◌>>=◌, ◌>>◌,
  if◌then◌else◌, not, throw_if, or_throw, assertion, undefined,
}
use hypatia_multicast.Satellite.{
  TxMachineState, ready, busy, is_ready, Packets, Queues, Transmission, Trace, mac_tx, mac_tx_drop,
  mac_rx, mac_promisc_rx, phy_tx_begin, phy_tx_end, phy_tx_drop, phy_rx_end, phy_rx_drop, sniffer,
  promisc_sniffer, front, pop, add_header, process_header,
}
use hypatia_multicast.Satellite.Gsl.Channel.{Port, call_channel}

-- `bps` is the time that m_bps takes for a number of bytes. `received` and `promisc_received` are
-- the calls of the receive callbacks, with the protocol.
pub record GslNetDevice (P Q D : Type 0) : Type 0 where
  pub tx_machine_state : TxMachineState
  pub bps : ℕ → ℕ
  pub interframe_gap_ns : ℕ
  pub queue : Q
  pub queue_dests : List ℕ
  pub link_up : Bool
  pub current_pkt : Option P
  pub has_promisc_callback : Bool
  pub scheduled : List (ℕ × ℕ)
  pub transmitted : List (Transmission P D)
  pub received : List (P × ℕ)
  pub promisc_received : List (P × ℕ)
  pub traces : List (Trace P)

-- The constructor, with the queue that the helper sets.
unfoldable pub new_gsl_net_device : {P Q D : Type 0} → (ℕ → ℕ) → ℕ → Q → GslNetDevice P Q D
new_gsl_net_device bps gap_ns q = record {
  tx_machine_state = ready;
  bps = bps;
  interframe_gap_ns = gap_ns;
  queue = q;
  queue_dests = [];
  link_up = false;
  current_pkt = none;
  has_promisc_callback = false;
  scheduled = [];
  transmitted = [];
  received = [];
  promisc_received = [];
  traces = [];
}

-- `Attach` ends with `NotifyLinkUp`; what it does to the channel is `attach_device` of Gsl.Channel.
unfoldable pub attach : {P Q D : Type 0} → GslNetDevice P Q D → GslNetDevice P Q D
attach d = record d { link_up = true }

unfoldable pub set_data_rate : {P Q D : Type 0} → GslNetDevice P Q D → (ℕ → ℕ) → GslNetDevice P Q D
set_data_rate d bps = record d { bps = bps }

unfoldable pub trace : {P Q D : Type 0} → GslNetDevice P Q D → List (Trace P) → GslNetDevice P Q D
trace d events = record d { traces = d.traces ++ events }

module _ (pk : Packets) (qs : Queues pk.Packet) {D : Type 0} where
  -- `TransmitStart` until it calls the channel.
  unfoldable pub begin_transmission :
      GslNetDevice pk.Packet qs.Queue D → ℕ → pk.Packet → ℕ → GslNetDevice pk.Packet qs.Queue D
  begin_transmission d now_ns p dest =
      let tx_time = d.bps (pk.get_size p) in
      record d {
        tx_machine_state = busy;
        current_pkt = some p;
        scheduled = d.scheduled ++ (now_ns + (tx_time + d.interframe_gap_ns), dest) ∷ [];
        traces = d.traces ++ phy_tx_begin p ∷ [];
      }

  -- `TransmitStart` when the channel has scheduled the arrival and has returned its result.
  unfoldable pub end_transmit_start :
      GslNetDevice pk.Packet qs.Queue D
      → ℕ
      → pk.Packet
      → ℕ
      → (D × ℕ) × Bool
      → GslNetDevice pk.Packet qs.Queue D × Bool
  unfolding trace
  end_transmit_start d now_ns p dest ((device, after_ns), result) =
      let t = record d {
        transmitted =
            d.transmitted
            ++ (record {
              start_ns = now_ns;
              packet = p;
              dest = dest;
              tx_time_ns = d.bps (pk.get_size p);
              device = device;
              arrival_ns = now_ns + after_ns;
            })
              ∷ [];
      } in
      (if result then t else trace t (phy_tx_drop p ∷ []), result)

  unfoldable pub transmit_start :
      Port D
      → GslNetDevice pk.Packet qs.Queue D
      → ℕ
      → pk.Packet
      → ℕ
      → Result (GslNetDevice pk.Packet qs.Queue D × Bool)
  unfolding begin_transmission call_channel end_transmit_start
  transmit_start port d now_ns p dest = do
    throw_if (not (is_ready d.tx_machine_state)) assertion
    let t = begin_transmission d now_ns p dest
    answer ← call_channel port now_ns dest (d.bps (pk.get_size p))
    ok (end_transmit_start t now_ns p dest answer)

  -- The end of `Send` and of `TransmitComplete`: the packet that leaves the queue is sent to the
  -- destination that has waited with it.
  unfoldable pub transmit_next :
      Port D
      → GslNetDevice pk.Packet qs.Queue D
      → ℕ
      → pk.Packet
      → Result (GslNetDevice pk.Packet qs.Queue D × Bool)
  unfolding transmit_start trace
  transmit_next port d now_ns p = do
    next_dest ← or_throw (front d.queue_dests) undefined
    let t =
        trace (record d { queue_dests = pop d.queue_dests }) (sniffer p ∷ promisc_sniffer p ∷ [])
    transmit_start port t now_ns p next_dest

  -- The end of the transmission of a packet.
  unfoldable pub end_transmission :
      GslNetDevice pk.Packet qs.Queue D → pk.Packet → GslNetDevice pk.Packet qs.Queue D
  end_transmission d p = record d {
    tx_machine_state = ready;
    current_pkt = none;
    traces = d.traces ++ phy_tx_end p ∷ [];
  }

  unfoldable pub transmit_complete :
      Port D → GslNetDevice pk.Packet qs.Queue D → ℕ → Result (GslNetDevice pk.Packet qs.Queue D)
  unfolding transmit_next end_transmission
  transmit_complete port d now_ns = do
    throw_if (is_ready d.tx_machine_state) assertion
    elim d.current_pkt [
      | none ↦ err assertion
      | some current ↦ elim (qs.dequeue d.queue) [
        | none ↦ ok (end_transmission d current)
        | some dequeued ↦
            transmit_next port (record (end_transmission d current) { queue = dequeued.1 }) now_ns
              dequeued.0
            >>= λ t. ok t.0
      ]
    ]

  -- `Send` once the packet is in the queue.
  unfoldable pub send_enqueued :
      Port D
      → GslNetDevice pk.Packet qs.Queue D
      → ℕ
      → Result (GslNetDevice pk.Packet qs.Queue D × Bool)
  unfolding transmit_next
  send_enqueued port d now_ns =
      if is_ready d.tx_machine_state
      then (do
        dequeued ← or_throw (qs.dequeue d.queue) undefined
        transmit_next port (record d { queue = dequeued.1 }) now_ns dequeued.0)
      else ok (d, true)

  unfoldable pub send :
      Port D
      → GslNetDevice pk.Packet qs.Queue D
      → ℕ
      → pk.Packet
      → ℕ
      → ℕ
      → Result (GslNetDevice pk.Packet qs.Queue D × Bool)
  unfolding send_enqueued add_header trace
  send port d now_ns packet dest protocol_number =
      if not d.link_up then ok (trace d (mac_tx_drop packet ∷ []), false) else (do
        p ← add_header pk packet protocol_number
        let t = trace d (mac_tx p ∷ [])
        elim (qs.enqueue p d.queue) [
          | none ↦ ok (trace t (mac_tx_drop p ∷ []), false)
          | some q ↦
              send_enqueued port (record t { queue = q; queue_dests = d.queue_dests ++ dest ∷ [] })
                now_ns
        ])

  -- The end of `Receive`: the callbacks.
  unfoldable pub deliver :
      GslNetDevice pk.Packet qs.Queue D
      → pk.Packet
      → pk.Packet × ℕ
      → GslNetDevice pk.Packet qs.Queue D
  deliver d original (p, protocol) =
      let promisc = d.has_promisc_callback in
      record d {
        promisc_received =
            if promisc then d.promisc_received ++ (p, protocol) ∷ [] else d.promisc_received;
        received = d.received ++ (p, protocol) ∷ [];
        traces =
            d.traces
            ++ (if promisc
                then mac_promisc_rx original ∷ mac_rx original ∷ []
                else mac_rx original ∷ []);
      }

  -- The error model, if there is one, tells whether a packet is corrupt.
  unfoldable pub receive :
      (pk.Packet → Bool)
      → GslNetDevice pk.Packet qs.Queue D
      → pk.Packet
      → Result (GslNetDevice pk.Packet qs.Queue D)
  unfolding process_header deliver trace
  receive is_corrupt d packet =
      if is_corrupt packet then ok (trace d (phy_rx_drop packet ∷ [])) else (do
        contents ← process_header pk packet
        let t = trace d (sniffer packet ∷ promisc_sniffer packet ∷ phy_rx_end packet ∷ [])
        ok (deliver t packet contents))
