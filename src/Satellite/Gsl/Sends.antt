-- ===== src/Satellite/Gsl/Sends.antt =====
-- What a device of gsl-net-device.cc does with the packets that it takes in: order, pace and
-- completion, from Runs.
use hypatia_multicast.Base.{ℕ, ◌≤◌, ◌≡◌, refl, sym, ap, ◌∙◌, List, [], ◌∷◌, ◌++◌, map, ok}
use hypatia_multicast.Satellite.{Packets, Queues, IsFifo, Transmission, ether_to_ppp, ready}
use hypatia_multicast.Satellite.Server.{Server, finish, items, IsServing}
use hypatia_multicast.Satellite.Gsl.{GslNetDevice, send, transmit_complete}
use hypatia_multicast.Satellite.Gsl.Refines.{
  Implements, duration_of, sending_of, Tries, Tries-weaken,
}
use hypatia_multicast.Satellite.Gsl.Channel.{Port, IsReachable}
use hypatia_multicast.Satellite.Gsl.Runs.{
  Run, IsNotAfter, Run-IsServer, send_step-IsServer, complete_step-IsServer,
}

-- A packet that is handed to the channel, with its destination.
abbrev pub item_of : {P D : Type 0} → Transmission P D → P × ℕ
item_of t = (t.packet, t.dest)

items-sending_of :
    {P D : Type 0} (gap_ns : ℕ) (ts : List (Transmission P D))
    → items (map (sending_of gap_ns) ts) ≡ map item_of ts
items-sending_of gap_ns [] = refl
items-sending_of gap_ns (t ∷ ts) = ap (λ l. item_of t ∷ l) (items-sending_of gap_ns ts)

module _ (pk : Packets) (qs : Queues pk.Packet) {D : Type 0} (port : Port D)
    (fifo : IsFifo qs) where
  abbrev Device : Type 0
  Device = GslNetDevice pk.Packet qs.Queue D

  -- If the queue is first in, first out, then in every run of operations that return, the packets
  -- that have been handed to the channel, with their destinations, and then those in the queue are
  -- the packets that `Send` has taken in, in the same order.
  pub Run-in_order :
      {now : ℕ} {accepted : List (pk.Packet × ℕ)} (d : Device)
      → Run pk qs port now accepted d
      → (waiting : List (pk.Packet × ℕ)) × (map item_of d.transmitted ++ waiting ≡ accepted)
        × (qs.contents d.queue ≡ map (λ i. i.0) waiting)
        × (d.queue_dests ≡ map (λ i. i.1) waiting)
  Run-in_order d r =
      let h = Run-IsServer pk qs port fifo r in
      let sent : items h.server.sent ≡ map item_of d.transmitted =
        ap items (sym h.implements.sent) ∙ items-sending_of d.interframe_gap_ns d.transmitted in
      (
        h.server.waiting,
        ap (λ l. l ++ h.server.waiting) (sym sent) ∙ h.serving.in_order,
        h.implements.queued,
        h.implements.dests,
      )

  -- If the queue is first in, first out, then in every run a send of an IPv4 or IPv6 packet returns,
  -- with no assertion failed and no empty queue read, unless no device of the same process is
  -- attached with the packet's destination, when it may also fail an assertion or abort; and so does
  -- the end of a transmission, unless that holds for the first destination that waits.
  pub Run-Tries :
      {now : ℕ} {accepted : List (pk.Packet × ℕ)} (d : Device)
      → Run pk qs port now accepted d
      → ((later : ℕ) (packet : pk.Packet) (dest proto ppp : ℕ)
          → now ≤ later
          → IsNotAfter later d.scheduled
          → ether_to_ppp proto ≡ ok ppp
          → Tries port (λ t. Unit {0}) (dest ∷ []) (send pk qs port d later packet dest proto))
        × ((until dest : ℕ) (events : List (ℕ × ℕ))
            → d.scheduled ≡ (until, dest) ∷ events
            → Tries port
                (λ t. Unit {0})
                d.queue_dests
                (transmit_complete pk qs port (record d { scheduled = events }) until))
  Run-Tries d r =
      let h = Run-IsServer pk qs port fifo r in
      (
        λ later packet dest proto ppp le before e.
            Tries-weaken (λ t u. tt)
              (send_step-IsServer pk qs port fifo later packet dest proto ppp h le before e),
        λ until dest events e.
            Tries-weaken (λ t u. tt) (complete_step-IsServer pk qs port fifo until dest events h e),
      )

  -- The channel reaches a device for each of these destinations.
  abbrev pub AreReachable : List ℕ → Type 0
  AreReachable [] = Unit
  AreReachable (dest ∷ dests) = IsReachable port dest × AreReachable dests

  -- A later time of the run at which everything that was taken in has been handed to the channel.
  pub record Drains (accepted : List (pk.Packet × ℕ)) : Type 0 where
    pub time : ℕ
    pub device : Device
    pub run : Run pk qs port time accepted device
    pub is_ready : device.tx_machine_state ≡ ready
    pub is_empty : qs.contents device.queue ≡ []
    pub all_sent : map item_of device.transmitted ≡ accepted

  -- The end of the present transmission.
  record IsNext (accepted : List (pk.Packet × ℕ)) (now : ℕ) (d : Device)
      (s : Server (pk.Packet × ℕ)) : Type 0 where
    device : Device
    run : Run pk qs port now accepted device
    implements : Implements pk qs port device (finish s now (duration_of pk d))
    serving : IsServing now accepted (finish s now (duration_of pk d))
